-- ===== src/ProcessTree/Session.antt =====
-- The structs of src/controller/analysis_session.h.
use inspec_thor.Prelude.{ℕ, Bool, false, [], List, String, Text, PidSet}
use inspec_thor.TargetResolver.Profile.{TargetProfile, empty_profile}
use inspec_thor.ChildPolicy.Decide.{ChildDecision, ignore_system_noise}

-- Labels that are only compared are native strings.
pub record ProcessNode : Type 0 where
  pub pid : ℕ
  pub parent_pid : ℕ
  pub image_path : Text
  pub process_name : Text
  pub command_line : Text
  pub timestamp : ℕ
  pub start_time : ℕ
  pub exit_time : ℕ
  pub relationship : String
  pub instrumentation_status : String
  pub decision : String
  pub reason : Text
  pub is_launcher : Bool
  pub is_root_target : Bool
  pub monitored : Bool
  pub exited : Bool
  pub exit_watch_started : Bool
  pub exit_code : ℕ

-- STILL_ACTIVE
abbrev pub still_active : ℕ
still_active = 259

abbrev pub empty_node : ProcessNode
empty_node = record {
  pid = 0;
  parent_pid = 0;
  image_path = [];
  process_name = [];
  command_line = [];
  timestamp = 0;
  start_time = 0;
  exit_time = 0;
  relationship = "";
  instrumentation_status = "";
  decision = "";
  reason = [];
  is_launcher = false;
  is_root_target = false;
  monitored = false;
  exited = false;
  exit_watch_started = false;
  exit_code = still_active;
}

pub record AnalysisSession : Type 0 where
  pub session_id : Text
  pub original_target_path : Text
  pub target_type : Text
  pub target_profile : TargetProfile
  pub root_pid : ℕ
  pub launcher_pid : ℕ
  pub primary_pid : ℕ
  pub start_time : ℕ
  pub end_time : ℕ
  pub active : Bool
  pub monitored_pids : PidSet
  pub command_only_pids : PidSet
  pub skipped_pids : PidSet
  pub exited_pids : PidSet
  pub nodes : List ProcessNode

abbrev pub empty_session : AnalysisSession
empty_session = record {
  session_id = [];
  original_target_path = [];
  target_type = [];
  target_profile = empty_profile;
  root_pid = 0;
  launcher_pid = 0;
  primary_pid = 0;
  start_time = 0;
  end_time = 0;
  active = false;
  monitored_pids = [];
  command_only_pids = [];
  skipped_pids = [];
  exited_pids = [];
  nodes = [];
}

pub record ChildObservationResult : Type 0 where
  pub belongs_to_session : Bool
  pub is_new : Bool
  pub queue_injection : Bool
  pub start_exit_watch : Bool
  pub decision : ChildDecision
  pub reason : Text

abbrev pub empty_result : ChildObservationResult
empty_result = record {
  belongs_to_session = false;
  is_new = false;
  queue_injection = false;
  start_exit_watch = false;
  decision = ignore_system_noise;
  reason = [];
}
