-- ===== src/Lifecycle/Tests.antt =====
-- A session with one script host, and the theorems there.
use inspec_thor.Prelude.{
  ◌≡◌, refl, true, false, [], ◌∷◌, ◌++◌, List, none, some, codes, literal, lower, text_eq,
  starts_with, arith,
}
use inspec_thor.TargetResolver.Profile.{empty_profile}
use inspec_thor.ChildPolicy.Paths.{
  PolicyHost, starts_with_path, is_under, is_windows_system_directory, system_directories,
  slash_first, is_user_writable, writable_roots, environment_root, usable, profile_roots,
}
use inspec_thor.ChildPolicy.Names.{inject_names, process_image_name, command_only_names}
use inspec_thor.ChildPolicy.Decide.{
  smart, decide_smart, decide_unhosted, decide_hosted, decide_mode, decide_child_instrumentation,
}
use inspec_thor.ProcessTree.Manager.{
  Manager, new_manager, begin_session, register_root, root_node, pid_is, live_pid_is, is_live,
  has_live_processes, exit_node, mark_exited,
}
use inspec_thor.ProcessTree.Observe.{
  Observation, child_context, is_inject, observe_new, observe_decided, observe_from, ignores,
  observe_child,
}
use inspec_thor.ProcessTree.Steps.{begins, registers}
use inspec_thor.ProcessTree.Updates.{empty-IsConsistent}
use inspec_thor.Etw.Monitor.{new_monitor, started}
use inspec_thor.Etw.Monitor.Steps.{starts, new-IsSound, import_size}
use inspec_thor.Lifecycle.{
  Controller, TargetInfo, empty_target, not_running, ended, waited_exit_code,
  watch_session_process_exit, resolve_live_process_image_path, on_child_process_spawned,
  inject_attempts,
}
use inspec_thor.Lifecycle.Idempotent.{spawned_twice}
use inspec_thor.Lifecycle.Hooked.{
  is_process_creation_api, queue_created_child, resolved, Names, hooked_again,
}
use inspec_thor.RuntimeStrings.Scanner.{param_value_or_zero, value_or_zero, find_param}
use inspec_thor.Telemetry.{TelemetryEvent}
use inspec_thor.StdPath.{filename, is_absolute, drop_trailing, ◌//◌, parent_path}
use inspec_thor.Lifecycle.Ending.{IsEnded, watch-IsEnded}
use inspec_thor.Lifecycle.Events.{
  Event, calls_tree, calls_monitor, spawns, watch_ends, injects, sets_target, queues, stores_target,
  stores_run_state, goes_on, handle_all, IsWell,
}
use inspec_thor.Lifecycle.Steps.{handle_all-IsWell}

abbrev some_host : PolicyHost
some_host = record {
  weakly_canonical = λ path. some path;
  environment = λ name. none;
  windows_directory = some (codes "C:\\Windows");
  widen = λ s. s;
}

abbrev child : Observation
child = record {
  host = some_host;
  utf8 = λ s. s;
  own_pid = 7;
  child_pid = 200;
  parent_pid = 100;
  image_path = codes "C:\\x\\d.exe";
  command_line = codes "d.exe";
  start_time = 20;
  mode = smart;
}

abbrev host_manager : Manager
host_manager =
    register_root 100 (codes "C:\\h.exe") [] 11 true false
      (begin_session (codes "C:\\x\\a.js") (codes "other") empty_profile 10 new_manager)

abbrev script_host : TargetInfo
script_host = record empty_target { active = true; pid = 100 }

abbrev idle : Controller
idle = record {
  manager = new_manager;
  etw = new_monitor;
  target = empty_target;
  run_state = not_running;
  scanner_token = 0;
  listeners = [];
  exit_watches = [];
  injections = [];
}

abbrev launched : Controller
launched = record idle {
  manager = host_manager;
  etw = record new_monitor { running = true };
  target = script_host;
}

-- The second attempt succeeds, and a fourth is not made.
test_attempts :
    inject_attempts 3 ((false, codes "a") ∷ (true, codes "b") ∷ []) (false, []) ≡ (true, codes "b")
unfolding inject_attempts
test_attempts = refl

spawned_twice_example :
    on_child_process_spawned child none (on_child_process_spawned child none launched)
    ≡ on_child_process_spawned child none launched
spawned_twice_example = spawned_twice child none launched

watch-IsEnded_example : IsEnded (watch_session_process_exit 100 (ended (some 3)) 30 launched)
unfolding mark_exited begin_session register_root root_node pid_is live_pid_is is_live
    has_live_processes exit_node waited_exit_code
watch-IsEnded_example = watch-IsEnded 100 30 (some 3) launched refl refl

-- The hooked call by which the host created the child.
abbrev creation : TelemetryEvent
creation = record {
  timestamp = 0;
  process_id = 100;
  thread_id = 1;
  api_name = literal "CreateProcessW";
  dll_name = [];
  caller_address = 0;
  caller_module = [];
  caller_module_base = 0;
  return_value = 1;
  parameters =
      record { name = literal "dwProcessId"; type = []; value = 200; memory = []; decoded = [] }
      ∷ [];
  call_stack = [];
  session_id = [];
  process_relationship = [];
  process_name = [];
  process_path = [];
  monitored_process = false;
}

child_is_queued : (observe_child (resolved child none) host_manager).1.queue_injection ≡ true
unfolding begin_session register_root root_node pid_is live_pid_is child_context is_inject
    observe_new observe_decided observe_from ignores observe_child decide_child_instrumentation
    decide_mode decide_hosted decide_smart is_absolute is_windows_system_directory
    system_directories starts_with_path is_under slash_first lower text_eq starts_with literal
    drop_trailing ◌//◌ filename resolve_live_process_image_path decide_unhosted inject_names
    process_image_name command_only_names is_user_writable writable_roots environment_root usable
    profile_roots parent_path
child_is_queued = refl

creation-Names_child : Names creation 200
unfolding is_process_creation_api param_value_or_zero value_or_zero find_param starts_with text_eq
    literal
creation-Names_child = (refl, refl, refl)

hooked_again_example :
    ((queue_created_child creation (on_child_process_spawned child none launched)).injections
      ≡ ([] ++ 200 ∷ []) ++ 200 ∷ [])
    × ((queue_created_child creation (on_child_process_spawned child none launched)).etw
        ≡ (on_child_process_spawned child none launched).etw)
    × ((queue_created_child creation (on_child_process_spawned child none launched)).manager
        ≡ (on_child_process_spawned child none launched).manager)
hooked_again_example =
    hooked_again child none creation launched refl child_is_queued refl creation-Names_child

abbrev events : List Event
events =
    calls_tree (begins (codes "C:\\x\\a.js") (codes "other") empty_profile 10)
    ∷ calls_monitor (starts started)
    ∷ calls_tree (registers 100 (codes "C:\\h.exe") [] 11 true false)
    ∷ stores_target script_host
    ∷ spawns child none
    ∷ stores_run_state script_host 0
    ∷ goes_on script_host false 11
    ∷ queues 200
    ∷ sets_target empty_target 20
    ∷ injects 200 ((true, []) ∷ [])
    ∷ watch_ends 200 (ended (some 0)) 40
    ∷ watch_ends 100 (ended (some 0)) 41
    ∷ []

handle_all-IsWell_example : IsWell 10000 (handle_all idle events)
unfolding import_size
handle_all-IsWell_example =
    handle_all-IsWell 10000 idle events (omega arith)
      (tt, (omega arith, (tt, (tt, (tt, (tt, (tt, (tt, (tt, (tt, (tt, (tt, tt))))))))))))
      record {
        consistent = empty-IsConsistent;
        sound = new-IsSound 10000;
        queued = tt;
        listened = tt;
        watched = tt;
      }
