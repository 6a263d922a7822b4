-- ===== src/TargetResolver/Resolve/Validity.antt =====
-- When the profile of a target is valid, on every branch of the resolver.
use inspec_thor.Prelude.{
  true, false, ◌≡◌, refl, [], Option, none, some, Text, literal, is_empty, arith,
}
use inspec_thor.TargetResolver.Profile.{
  OtherTargetType, batch, office, TargetProfile, empty_profile, Host, Launchable,
}
use inspec_thor.TargetResolver.Detect.{detect}
use inspec_thor.TargetResolver.Office.{original_of}
use inspec_thor.TargetResolver.Office.Validity.{resolve_office-Launchable}
use inspec_thor.TargetResolver.Resolve.{
  launch, check_launcher, unlaunched, launch_outcome, name_type, chosen_type, resolve_type,
  resolve_target_profile,
}

check_launcher-Launchable :
    (host : Host) (p : TargetProfile)
    → host.is_regular_file p.original_path ≡ true
    → (check_launcher host p).error ≡ []
    → Launchable host (check_launcher host p)
unfolding check_launcher literal
check_launcher-Launchable host p file valid = ground arith

unlaunched-Launchable :
    (host : Host) (type : OtherTargetType) (user : Text) (p : TargetProfile)
    → (unlaunched host type user p).error ≡ []
    → Launchable host (unlaunched host type user p)
unfolding unlaunched literal
unlaunched-Launchable host office user p valid = resolve_office-Launchable host _ user valid
unlaunched-Launchable host other user p valid = cc

-- The switch fills in the launch, and changes neither the target nor the error.
pub launch_keeps :
    (host : Host) (type : OtherTargetType) (user : Text) (p q : TargetProfile)
    → launch host type user p ≡ some q
    → (q.original_path ≡ p.original_path) × (q.error ≡ p.error)
unfolding launch
launch_keeps host batch user p q h = ground arith
launch_keeps host _ user p q h = ground arith

launch_outcome-Launchable :
    (host : Host) (type : OtherTargetType) (user : Text) (p : TargetProfile)
    (o : Option TargetProfile)
    → launch host type user p ≡ o
    → host.is_regular_file p.original_path ≡ true
    → (launch_outcome host type user p o).error ≡ []
    → Launchable host (launch_outcome host type user p o)
unfolding launch_outcome
launch_outcome-Launchable host type user p none h file valid =
    unlaunched-Launchable host type user p valid
launch_outcome-Launchable host type user p (some q) h file valid =
    check_launcher-Launchable host q (rw ((launch_keeps host type user p q h).0) file) valid

resolve_type-Launchable :
    (host : Host) (type detected : OtherTargetType) (user : Text) (p : TargetProfile)
    → host.is_regular_file p.original_path ≡ true
    → (resolve_type host type detected user p).error ≡ []
    → Launchable host (resolve_type host type detected user p)
unfolding resolve_type name_type
resolve_type-Launchable host type detected user p file valid =
    launch_outcome-Launchable host type user (name_type type detected p) _ refl file valid

-- A profile without an error can be launched: some path was given, and the target and the launcher
-- that the profile names are both regular files.
pub resolve-Launchable :
    (host : Host) (target user : Text) (override : OtherTargetType)
    → (resolve_target_profile host target user override).error ≡ []
    → (is_empty target ≡ false) × Launchable host (resolve_target_profile host target user override)
unfolding resolve_target_profile literal
resolve-Launchable host target user override valid =
    let profile = record empty_profile { original_path = original_of host target } in
    let detected = detect (original_of host target) in
    ground
      (arith, resolve_type-Launchable host (chosen_type override detected) detected user profile)
