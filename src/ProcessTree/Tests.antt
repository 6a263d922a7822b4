-- ===== src/ProcessTree/Tests.antt =====
-- One session: a script host, and a program that it starts. Runs, and the witnesses.
use inspec_thor.Prelude.{
  ℕ, ◌-◌, ◌≡◌, refl, true, false, [], ◌∷◌, List, none, some, codes, lower, text_eq, starts_with,
  literal, ◌==◌, if◌then◌else◌,
}
use inspec_thor.TargetResolver.Profile.{empty_profile}
use inspec_thor.StdPath.{filename, is_absolute, drop_trailing, ◌//◌}
use inspec_thor.ChildPolicy.Paths.{
  PolicyHost, starts_with_path, is_under, is_windows_system_directory, system_directories,
  slash_first,
}
use inspec_thor.ChildPolicy.Decide.{smart, decide_hosted, decide_mode, decide_child_instrumentation}
use inspec_thor.ProcessTree.Manager.{
  Manager, new_manager, begin_session, register_root, root_node, pid_is, live_pid_is, mark_exited,
}
use inspec_thor.ProcessTree.Observe.{
  Observation, child_context, is_inject, observe_new, observe_decided, observe_from, ignores,
  observe_child,
}
use inspec_thor.ProcessTree.Sessions.{session_id_unique}
use inspec_thor.ProcessTree.Settled.{IsQuiet}
use inspec_thor.ProcessTree.Twice.{observe_twice}
use inspec_thor.ProcessTree.Steps.{Call, begins, registers, observes, exits, run}
use inspec_thor.ProcessTree.Consistent.{IsConsistent}
use inspec_thor.ProcessTree.Updates.{empty-IsConsistent}
use inspec_thor.ProcessTree.Consistency.{run-IsConsistent}
use inspec_thor.ProcessTree.Exits.{
  live_count, mark_exited-live_count, observe_all, primary_child_stays,
}

abbrev sample_host : PolicyHost
sample_host = record {
  weakly_canonical = λ path. some path;
  environment = λ name. none;
  windows_directory = some (codes "C:\\Windows");
  widen = λ s. s;
}

abbrev dropped : Observation
dropped = record {
  host = sample_host;
  utf8 = λ s. s;
  own_pid = 7;
  child_pid = 200;
  parent_pid = 100;
  image_path = codes "C:\\x\\d.exe";
  command_line = codes "d.exe";
  start_time = 20;
  mode = smart;
}

abbrev begun : Manager
begun =
    begin_session (codes "C:\\x\\a.js") (codes "other")
      (record empty_profile { is_launcher_based = true }) 10 new_manager

abbrev hosted : Manager
hosted = register_root 100 (codes "C:\\Windows\\System32\\cscript.exe") [] 11 true false begun

-- The dropped program is injected, and becomes the primary process.
dropped_is_queued : (observe_child dropped hosted).1.queue_injection ≡ true
unfolding begin_session register_root root_node pid_is live_pid_is child_context is_inject
    observe_new observe_decided observe_from ignores observe_child decide_child_instrumentation
    decide_mode decide_hosted is_absolute is_windows_system_directory system_directories
    starts_with_path is_under slash_first lower text_eq starts_with literal drop_trailing ◌//◌
    filename
dropped_is_queued = refl

abbrev history : List Call
history =
    begins (codes "C:\\x\\a.js") (codes "other") empty_profile 10
    ∷ registers 100 (codes "C:\\h.exe") [] 11 true false
    ∷ observes dropped
    ∷ exits 200 30 1
    ∷ []

session_id_unique_example :
    (◌≡◌ {A = ℕ} 10 10)
    × ((begin_session [] [] empty_profile 10 new_manager).generation
        ≡ (begin_session [] [] empty_profile 10 new_manager).generation)
session_id_unique_example =
    session_id_unique new_manager new_manager [] [] [] [] empty_profile empty_profile 10 10 refl

observe_twice_example :
    IsQuiet
      (observe_child dropped (observe_child dropped hosted).0)
      (observe_child dropped hosted).0
observe_twice_example = observe_twice dropped hosted

run-IsConsistent_example : IsConsistent (run new_manager history).session
run-IsConsistent_example =
    run-IsConsistent new_manager history (tt, (tt, (tt, (tt, tt)))) empty-IsConsistent

mark_exited-live_count_example : live_count 100 (mark_exited 100 30 1 hosted).session.nodes ≡ (
    if 100 == 100
    then live_count 100 hosted.session.nodes - 1
    else live_count 100 hosted.session.nodes)
mark_exited-live_count_example = mark_exited-live_count 100 30 1 100 hosted

abbrev second_child : Observation
second_child = record dropped { child_pid = 300; start_time = 25 }

primary_child_stays_example :
    (observe_all (second_child ∷ []) (observe_child dropped hosted).0).session.primary_pid ≡ 200
unfolding begin_session register_root root_node pid_is live_pid_is child_context is_inject
    observe_new observe_decided observe_from ignores observe_child decide_child_instrumentation
    decide_mode decide_hosted is_absolute is_windows_system_directory system_directories
    starts_with_path is_under slash_first lower text_eq starts_with literal drop_trailing ◌//◌
    filename
primary_child_stays_example = primary_child_stays dropped (second_child ∷ []) hosted refl refl refl
