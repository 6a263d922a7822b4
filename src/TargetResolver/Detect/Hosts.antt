-- ===== src/TargetResolver/Detect/Hosts.antt =====
-- The two resolvers agree on what an Office document is.
use inspec_thor.Prelude.{
  true, ◌≡◌, ◌↔◌, inl, inr, refl, some, Text, literal, lower, text_eq, text_eq→eq, arith,
  Option-cases,
}
use inspec_thor.StdPath.{extension}
use inspec_thor.TargetResolver.Profile.{office}
use inspec_thor.TargetResolver.Detect.{is_office_extension, detect_extension, detect}
use inspec_thor.TargetResolver.Office.{office_host_of}

is_office-host :
    (ext : Text) → is_office_extension ext ≡ true → (name : Text) × (office_host_of ext ≡ some name)
unfolding is_office_extension office_host_of
is_office-host ext h = elim (Option-cases (office_host_of ext)) [
  | inl nowhere ↦ absurd (ground arith)
  | inr found ↦ found
]

host-is_office : (ext name : Text) → office_host_of ext ≡ some name → is_office_extension ext ≡ true
unfolding is_office_extension office_host_of
host-is_office ext name h = ground arith

detect-is_office : (ext : Text) → detect_extension ext ≡ office → is_office_extension ext ≡ true
unfolding detect_extension
detect-is_office ext h = ground arith

detect_literal :
    (ext known : Text)
    → detect_extension known ≡ office
    → text_eq ext known ≡ true
    → detect_extension ext ≡ office
detect_literal ext known h e = rw (text_eq→eq ext known e) h

is_office-detect : (ext : Text) → is_office_extension ext ≡ true → detect_extension ext ≡ office
unfolding is_office_extension
is_office-detect ext h = ground (
  arith,
  detect_literal ext (literal ".docm") (unfold detect_extension text_eq literal in refl),
  detect_literal ext (literal ".xlsm") (unfold detect_extension text_eq literal in refl),
  detect_literal ext (literal ".pptm") (unfold detect_extension text_eq literal in refl),
  detect_literal ext (literal ".doc") (unfold detect_extension text_eq literal in refl),
  detect_literal ext (literal ".xls") (unfold detect_extension text_eq literal in refl),
  detect_literal ext (literal ".ppt") (unfold detect_extension text_eq literal in refl),
  detect_literal ext (literal ".xll") (unfold detect_extension text_eq literal in refl),
  detect_literal ext (literal ".one") (unfold detect_extension text_eq literal in refl),
)

-- `Detect` answers Office for exactly the paths that the Office resolver has a host for, so no
-- detected document is refused as an unsupported Office type.
pub detect_office_iff :
    (path : Text)
    → (detect path ≡ office)
      ↔ ((name : Text) × (office_host_of (lower (extension path)) ≡ some name))
unfolding detect
detect_office_iff path =
    let ext = lower (extension path) in
    (
      (λ h. is_office-host ext (detect-is_office ext h)),
      (λ h. is_office-detect ext (host-is_office ext h.0 h.1)),
    )
