-- ===== src/TargetResolver/Detect/Tests.antt =====
-- Runs of `Detect`, and the witness.
use inspec_thor.Prelude.{◌≡◌, ◌↔◌, refl, some, Text, codes, lower, text_eq, literal}
use inspec_thor.StdPath.{extension}
use inspec_thor.TargetResolver.Profile.{office, batch}
use inspec_thor.TargetResolver.Detect.{detect, detect_extension}
use inspec_thor.TargetResolver.Detect.Hosts.{detect_office_iff}
use inspec_thor.TargetResolver.Office.{office_host_of}

detect_batch : detect (codes "C:\\x\\RUN.Cmd") ≡ batch
unfolding detect detect_extension extension lower text_eq literal
detect_batch = refl

detect_office_iff_example :
    (detect (codes "C:\\a.XLSM") ≡ office)
    ↔ ((name : Text) × (office_host_of (lower (extension (codes "C:\\a.XLSM"))) ≡ some name))
detect_office_iff_example = detect_office_iff (codes "C:\\a.XLSM")
