-- ===== src/TargetResolver/Office/Validity.antt =====
-- When the profile of an Office document is valid.
use inspec_thor.Prelude.{Option, true, ◌≡◌, [], none, some, Text, literal, arith, lower}
use inspec_thor.StdPath.{extension}
use inspec_thor.TargetResolver.Profile.{TargetProfile, empty_profile, Host, Launchable}
use inspec_thor.TargetResolver.Office.{
  original_of, office_host_of, office_outcome, office_profile, check_office_launcher,
  resolve_office_target_profile,
}

check_office_launcher-Launchable :
    (host : Host) (p : TargetProfile)
    → host.is_regular_file p.original_path ≡ true
    → (check_office_launcher host p).error ≡ []
    → Launchable host (check_office_launcher host p)
unfolding check_office_launcher literal
check_office_launcher-Launchable host p file valid = ground arith

office_profile-original :
    (host : Host) (p : TargetProfile) (name ext user : Text)
    → (office_profile host p name ext user).original_path ≡ p.original_path
unfolding office_profile
office_profile-original host p name ext user = ground arith

office_outcome-Launchable :
    (host : Host) (p : TargetProfile) (name : Option Text) (ext user : Text)
    → host.is_regular_file p.original_path ≡ true
    → (office_outcome host p name ext user).error ≡ []
    → Launchable host (office_outcome host p name ext user)
unfolding office_outcome literal
office_outcome-Launchable host p none ext user file valid = cc
office_outcome-Launchable host p (some name) ext user file valid =
    check_office_launcher-Launchable host _ (rw (office_profile-original host p name ext user) file)
      valid

pub resolve_office-Launchable :
    (host : Host) (target user : Text)
    → (resolve_office_target_profile host target user).error ≡ []
    → Launchable host (resolve_office_target_profile host target user)
unfolding resolve_office_target_profile literal
resolve_office-Launchable host target user valid =
    let path = original_of host target in
    let profile = record empty_profile { original_path = path } in
    let ext = lower (extension path) in
    ground (arith, office_outcome-Launchable host profile (office_host_of ext) ext user)
