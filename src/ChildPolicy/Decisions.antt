-- ===== src/ChildPolicy/Decisions.antt =====
-- What the policy decides, over all its modes.
use inspec_thor.Prelude.{
  Bool, true, false, not, ◌&&◌, ◌≡◌, ◌≢◌, inl, inr, refl, [], ◌∷◌, List, Text, text_eq, text_eq→eq,
  literal, is_member, arith, Bool-cases,
}
use inspec_thor.ChildPolicy.Paths.{PolicyHost}
use inspec_thor.ChildPolicy.Names.{process_image_name, inject_names, command_only_names}
use inspec_thor.ChildPolicy.Decide.{
  ChildMonitoringMode, smart, aggressive, command_only, inject_and_monitor, log_command_only,
  ignore_system_noise, ChildPolicyContext, decide_hosted, decide_smart, decide_unhosted,
  decide_mode, decide_child_instrumentation,
}

decide_mode-ne-ignore :
    (host : PolicyHost) (context : ChildPolicyContext) (mode : ChildMonitoringMode)
    → (decide_mode host context mode).0 ≢ ignore_system_noise
unfolding decide_mode decide_hosted decide_unhosted decide_smart
decide_mode-ne-ignore host context command_only = ground arith
decide_mode-ne-ignore host context smart = ground arith
decide_mode-ne-ignore host context aggressive = ground arith

-- No context is ever decided to be ignored: a child is injected or its command line is logged.
pub decide-ne-ignore :
    (host : PolicyHost) (context : ChildPolicyContext)
    → (decide_child_instrumentation host context).0 ≢ ignore_system_noise
unfolding decide_child_instrumentation
decide-ne-ignore host context = decide_mode-ne-ignore host context context.mode

-- Aggressive monitoring injects whatever smart monitoring injects.
pub aggressive_injects_more :
    (host : PolicyHost) (context : ChildPolicyContext)
    → (decide_child_instrumentation host (record context { mode = smart })).0 ≡ inject_and_monitor
    → (decide_child_instrumentation host (record context { mode = aggressive })).0
      ≡ inject_and_monitor
unfolding decide_child_instrumentation decide_mode decide_unhosted decide_hosted
aggressive_injects_more host context h = ground arith

-- The two lists of names have no name in common, so the order in which they are tried is immaterial.
all_but : List Text → List Text → Bool
all_but [] ys = true
all_but (x ∷ xs) ys = not (is_member x ys) && all_but xs ys

all_but_sound :
    (name : Text) (xs ys : List Text)
    → all_but xs ys ≡ true
    → is_member name xs ≡ true
    → is_member name ys ≡ false
unfolding all_but
all_but_sound name [] ys h m = cc
all_but_sound name (x ∷ xs) ys h m = elim (Bool-cases (text_eq name x)) [
  | inl same ↦ rw (text_eq→eq name x same) (ground arith)
  | inr other ↦ all_but_sound name xs ys (ground arith) (ground arith)
]

lists_apart : all_but inject_names command_only_names ≡ true
unfolding all_but inject_names command_only_names text_eq literal
lists_apart = refl

-- In the smart mode, and outside a hosted target, a program whose name is on the list of utilities
-- that are only logged is never injected, whatever folder it stands in: no such name is on the list
-- of names to inject.
pub noisy_never_injected :
    (host : PolicyHost) (context : ChildPolicyContext)
    → context.sandbox_hosted_target ≡ false
    → context.mode ≡ smart
    → is_member (process_image_name context.image_path context.command_line) command_only_names
      ≡ true
    → (decide_child_instrumentation host context).0 ≡ log_command_only
unfolding decide_child_instrumentation decide_mode decide_unhosted decide_smart
noisy_never_injected host context hosted mode noisy =
    let name = process_image_name context.image_path context.command_line in
    rw mode (ground (arith, all_but_sound name inject_names command_only_names lists_apart))
