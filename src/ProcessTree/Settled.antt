-- ===== src/ProcessTree/Settled.antt =====
-- A child that was observed is settled: observing it again changes nothing and asks for nothing.
use inspec_thor.Prelude.{
  true, false, not, ◌≡◌, refl, ap, sym, subst, ◌∙◌, some, Text, find_if, str_eq, eq_refl, arith,
  update_first_fixed, Bool-cases, inl, inr,
}
use inspec_thor.StdPath.{filename}
use inspec_thor.ChildPolicy.Paths.{PolicyHost}
use inspec_thor.ChildPolicy.Decide.{
  ChildMonitoringMode, smart, aggressive, command_only, ChildDecision, inject_and_monitor,
  log_command_only, ignore_system_noise, ChildPolicyContext, decide_mode, decide_unhosted,
  decide_smart, decide_hosted, decide_child_instrumentation,
}
use inspec_thor.ProcessTree.Session.{
  ProcessNode, AnalysisSession, ChildObservationResult, empty_result,
}
use inspec_thor.ProcessTree.Manager.{Manager, pid_is, live_pid_is, injection_underway}
use inspec_thor.ProcessTree.Observe.{
  Observation, child_context, is_inject, fill_node, queues_again, observe_node, observe_existing,
  label_child, child_node, observe_decided, observe_from, ignores, observe_child,
}

pending_is_pending : str_eq "pending" "pending" ≡ true
pending_is_pending = eq_refl "pending"

pub observe_node_idem :
    (o : Observation) (d : ChildDecision) (x : ProcessNode)
    → observe_node o d (observe_node o d x) ≡ observe_node o d x
unfolding observe_node queues_again fill_node injection_underway
observe_node_idem o d x = ground (arith, pending_is_pending)

-- A node whose fields are already those that the observation would fill in.
pub record IsFilled (o : Observation) (d : ChildDecision) (x : ProcessNode) : Type 0 where
  pub image : x.image_path ≡ o.host.widen o.image_path
  pub name : x.process_name ≡ filename (o.host.widen o.image_path)
  pub command : x.command_line ≡ o.host.widen o.command_line
  pub watched : x.exit_watch_started ≡ true
  pub idle : queues_again d x ≡ false

pub IsFilled-fixed :
    (o : Observation) (d : ChildDecision) (x : ProcessNode)
    → IsFilled o d x
    → observe_node o d x ≡ x
unfolding observe_node queues_again fill_node injection_underway
IsFilled-fixed o d x h = ground arith

pub child_node-IsFilled :
    (o : Observation) (d : ChildDecision) (reason : Text) → IsFilled o d (child_node o d reason)
unfolding child_node label_child queues_again is_inject injection_underway
child_node-IsFilled o inject_and_monitor reason = ground (arith, pending_is_pending)
child_node-IsFilled o log_command_only reason = ground arith
child_node-IsFilled o ignore_system_noise reason = ground arith

pub primary-IsFilled :
    (o : Observation) (d : ChildDecision) (x : ProcessNode)
    → IsFilled o d x
    → IsFilled o d (record x { relationship = "primary" })
unfolding queues_again injection_underway
primary-IsFilled o d x h = ground arith

decide_mode_parent_free :
    (host : PolicyHost) (c : ChildPolicyContext) (name : Text) (mode : ChildMonitoringMode)
    → decide_mode host (record c { parent_process_name = name }) mode ≡ decide_mode host c mode
unfolding decide_mode decide_hosted decide_unhosted decide_smart
decide_mode_parent_free host c name smart = refl
decide_mode_parent_free host c name aggressive = refl
decide_mode_parent_free host c name command_only = refl

-- The decision looks at the child and at the session's target, not at the parent.
decide_parent_free :
    (host : PolicyHost) (c : ChildPolicyContext) (name : Text)
    → decide_child_instrumentation host (record c { parent_process_name = name })
      ≡ decide_child_instrumentation host c
unfolding decide_child_instrumentation
decide_parent_free host c name = decide_mode_parent_free host c name c.mode

-- What an observation leaves of the session that a decision looks at.
pub record SameTarget (s t : AnalysisSession) : Type 0 where
  pub target_type : s.target_type ≡ t.target_type
  pub target_profile : s.target_profile ≡ t.target_profile
  pub original_path : s.original_target_path ≡ t.original_target_path

pub decide_same :
    (o : Observation) (s t : AnalysisSession) (p q : ProcessNode)
    → SameTarget s t
    → decide_child_instrumentation o.host (child_context o s p)
      ≡ decide_child_instrumentation o.host (child_context o t q)
unfolding child_context
decide_same o s t p q h =
    rw (h.target_type, h.target_profile, h.original_path)
      (decide_parent_free o.host (child_context o t q) (o.utf8 p.process_name))

pending_idle :
    (d : ChildDecision) (x : ProcessNode)
    → x.instrumentation_status ≡ "pending"
    → queues_again d x ≡ false
unfolding queues_again injection_underway
pending_idle d x e = rw e (ground arith)

queued_is_pending :
    (o : Observation) (d : ChildDecision) (x : ProcessNode)
    → queues_again d (fill_node o x) ≡ true
    → (observe_node o d x).instrumentation_status ≡ "pending"
unfolding observe_node
queued_is_pending o d x q = rw q

observe_node_watches :
    (o : Observation) (d : ChildDecision) (x : ProcessNode)
    → (observe_node o d x).exit_watch_started ≡ true
unfolding observe_node
observe_node_watches o d x = refl

fill_keeps :
    (o : Observation) (x : ProcessNode)
    → ((fill_node o x).instrumentation_status ≡ x.instrumentation_status)
      × ((fill_node o x).exit_watch_started ≡ x.exit_watch_started)
unfolding fill_node
fill_keeps o x = (refl, refl)

fixed_idle :
    (o : Observation) (d : ChildDecision) (x : ProcessNode)
    → observe_node o d x ≡ x
    → queues_again d (fill_node o x) ≡ false
fixed_idle o d x h = elim (Bool-cases (queues_again d (fill_node o x))) [
  | inr idle ↦ idle
  | inl queued ↦ pending_idle d (fill_node o x) (
      (fill_keeps o x).0
      ∙ sym (ap (λ (n : ProcessNode). n.instrumentation_status) h)
      ∙ queued_is_pending o d x queued)
]

fixed_watched :
    (o : Observation) (d : ChildDecision) (x : ProcessNode)
    → observe_node o d x ≡ x
    → (fill_node o x).exit_watch_started ≡ true
fixed_watched o d x h =
    (fill_keeps o x).1
    ∙ sym (ap (λ (n : ProcessNode). n.exit_watch_started) h)
    ∙ observe_node_watches o d x

-- Nothing happened, and nothing is asked of the controller.
pub record IsQuiet (r : Manager × ChildObservationResult) (m : Manager) : Type 0 where
  pub unchanged : r.0 ≡ m
  pub no_node : r.1.is_new ≡ false
  pub no_injection : r.1.queue_injection ≡ false
  pub no_watch : r.1.start_exit_watch ≡ false

-- The child is a live node that the observation has nothing to add to.
pub record IsSettled (o : Observation) (m : Manager) (parent child : ProcessNode) : Type 0 where
  pub heard : ignores o m ≡ false
  pub parent_found : find_if (pid_is o.parent_pid) m.session.nodes ≡ some parent
  pub child_found : find_if (live_pid_is o.child_pid) m.session.nodes ≡ some child
  pub fixed :
      observe_node o
        (decide_child_instrumentation o.host (child_context o m.session parent)).0
        child
      ≡ child

pub IsSettled-IsQuiet :
    (o : Observation) (m : Manager) (parent child : ProcessNode)
    → IsSettled o m parent child
    → IsQuiet (observe_child o m) m
unfolding observe_child observe_from observe_decided observe_existing
IsSettled-IsQuiet o m parent child h =
    let d = decide_child_instrumentation o.host (child_context o m.session parent) in
    rw (h.heard, h.parent_found, h.child_found)
      (record {
        unchanged =
            ap (λ nodes. record m { session = record (m.session) { nodes = nodes } })
              (update_first_fixed (live_pid_is o.child_pid) (observe_node o d.0) m.session.nodes
                child h.child_found h.fixed);
        no_node = refl;
        no_injection = fixed_idle o d.0 child h.fixed;
        no_watch = ap not (fixed_watched o d.0 child h.fixed);
      })

-- An observation that is passed over changes nothing.
pub IsQuiet-passed :
    (o : Observation) (m : Manager)
    → observe_child o m ≡ (m, empty_result)
    → IsQuiet (observe_child o (observe_child o m).0) (observe_child o m).0
IsQuiet-passed o m e =
    subst (λ (r : Manager × ChildObservationResult). IsQuiet (observe_child o r.0) r.0) (sym e)
      (subst (λ (r : Manager × ChildObservationResult). IsQuiet r m) (sym e)
        (record { unchanged = refl; no_node = refl; no_injection = refl; no_watch = refl }))
