-- ===== src/Agent/Network/Examples.antt =====
-- Tests of the network events, and their theorems at concrete ones.
use easy_job.Prelude.Int.{pos}
use easy_job.Prelude.{ℕ, ◌≡◌, refl, true, false, none, some, List, [], ◌∷◌}
use easy_job.Prelude.Map
use easy_job.Domain.Trigger.{connect, disconnect, online, network, Trigger}
use easy_job.Domain.Policy.{ExecutionPolicy, queue_one, run_once, silent, LogRetentionPolicy}
use easy_job.Persistence.Sample.{Text, codec}
use easy_job.Persistence.Sqlite.{task_repository}
use easy_job.Persistence.Tables.{Database, empty_database, insert_row, delete_rows, select_rows}
use easy_job.Persistence.Tasks.{
  save, transact, insert_each, action_row, trigger_row, upsert_task, task_row, find_all_enabled,
  find_rows, find_by_id, read_task, order_by,
}
use easy_job.Domain.Task.{Task}
use easy_job.Scheduler.Evaluator.Cron.{codes, split_whitespace, split_words}
use easy_job.Agent.Network.{
  connected, kind, ssid, event_matches, name_matches, kind_matches, trigger_matches, dispatch_tasks,
  dispatch_network_event, changed, allow,
}
use easy_job.Agent.Network.Probe.{v4, v6, is_public_ip, response_matches}
use easy_job.Agent.Network.Watcher.{status_to_connect_change}
use easy_job.Agent.Network.{disconnected, went_online}
use easy_job.Agent.Network.Watcher.{
  WindowsWatcher, set_baseline, ip_callback, start_arbitration, arbitrate, emit_reached, emit,
}
use easy_job.Agent.Network.Arbitration.{
  WindowsStep, baseline, interface_changed, arbitrated, windows_step, windows_events, directions,
  windows_events-AlternatesFrom,
}
use easy_job.Agent.Network.Dispatch.{Dispatched, dispatch_network_event-Hits}
use easy_job.Agent.Network.Edges.{
  reports, AlternatesFrom, reports-AlternatesFrom, Call, passed, IsSpacedFrom, passed-IsSpacedFrom,
}

abbrev policy : ExecutionPolicy
policy = record {
  concurrency_policy = queue_one;
  missed_run_policy = run_once;
  retry_policy = record { max_retries = 0; delay_secs = 0 };
  timeout_secs = none;
  notification = silent;
  log_retention = LogRetentionPolicy.system_default;
}

abbrev at_office : Trigger
at_office = record {
  id = 70;
  task_id = 7;
  enabled = true;
  kind = network (disconnect ∷ connect ∷ []) (some "office");
  created_at = 0;
  updated_at = 0;
}

abbrev mount : Task
mount = record {
  id = 7;
  name = "mount";
  description = none;
  enabled = true;
  triggers = at_office ∷ [];
  actions = [];
  execution_policy = policy;
  working_directory = none;
  environment = [];
  version = pos 1;
  created_at = 0;
  updated_at = 0;
}

abbrev holding : Task → Database Text
holding task = (save codec task empty_database).1

hit_test :
    dispatch_network_event (connected (some "office")) (task_repository codec) (holding mount)
    ≡ 7 ∷ []
unfolding dispatch_network_event dispatch_tasks trigger_matches kind_matches event_matches
    name_matches kind ssid save transact insert_each insert_row delete_rows action_row trigger_row
    upsert_task task_row find_all_enabled find_rows find_by_id read_task select_rows order_by
hit_test = refl

case_test :
    dispatch_network_event (connected (some "Office")) (task_repository codec) (holding mount) ≡ []
unfolding dispatch_network_event dispatch_tasks trigger_matches kind_matches event_matches
    name_matches kind ssid save transact insert_each insert_row delete_rows action_row trigger_row
    upsert_task task_row find_all_enabled find_rows find_by_id read_task select_rows order_by
case_test = refl

disabled_test :
    dispatch_network_event
      (connected (some "office"))
      (task_repository codec)
      (holding (record mount { enabled = false }))
    ≡ []
unfolding dispatch_network_event dispatch_tasks trigger_matches kind_matches event_matches
    name_matches kind ssid save transact insert_each insert_row delete_rows action_row trigger_row
    upsert_task task_row find_all_enabled find_rows find_by_id read_task select_rows order_by
disabled_test = refl

shared_address_test : is_public_ip (v4 100 64 0 1) ≡ false
unfolding is_public_ip
shared_address_test = refl

public_address_test : is_public_ip (v4 8 8 8 8) ≡ true
unfolding is_public_ip
public_address_test = refl

local_segment_test : is_public_ip (v6 (0xfe93 ∷ 0 ∷ 0 ∷ 0 ∷ 0 ∷ 0 ∷ 0 ∷ 1 ∷ [])) ≡ false
unfolding is_public_ip
local_segment_test = refl

no_content_test : response_matches (codes "HTTP/1.1 204 No Content\r\n\r\n") none ≡ true
unfolding response_matches split_whitespace split_words
no_content_test = refl

portal_test : response_matches (codes "HTTP/1.1 302 Found\r\n\r\n") none ≡ false
unfolding response_matches split_whitespace split_words
portal_test = refl

-- The statuses of one switch-over, with repeats and a state in between.
abbrev statuses : List ℕ
statuses = 1 ∷ 1 ∷ 3 ∷ 2 ∷ 2 ∷ 1 ∷ 1 ∷ []

reports_test : reports statuses [] ≡ false ∷ true ∷ []
unfolding reports status_to_connect_change changed Map.get Map.insert
reports_test = refl

abbrev calls : List Call
calls = (connect, 0) ∷ (connect, 400) ∷ (online, 450) ∷ (connect, 480) ∷ (connect, 990) ∷ []

passed_test :
    passed calls none ≡ (connect, 0) ∷ (online, 450) ∷ (connect, 480) ∷ (connect, 990) ∷ []
unfolding passed allow
passed_test = refl

dispatch_network_event-Hits_example :
    Dispatched codec
      (connected (some "office"))
      (holding mount)
      7
      (find_all_enabled codec (holding mount))
dispatch_network_event-Hits_example =
    dispatch_network_event-Hits codec (connected (some "office")) (holding mount) 7

reports-AlternatesFrom_example : AlternatesFrom (Map.get 0 []) (reports statuses [])
reports-AlternatesFrom_example = reports-AlternatesFrom statuses []

passed-IsSpacedFrom_example : IsSpacedFrom none (passed calls none)
passed-IsSpacedFrom_example = passed-IsSpacedFrom calls none

abbrev fresh : WindowsWatcher
fresh = record { edge = []; debouncer = none; online_state = none; arbitrate_seq = 0 }

-- The machine is online at the start, loses its network and finds it again; an outdated arbitration
-- comes in between.
abbrev steps : List WindowsStep
steps =
    baseline true
    ∷ interface_changed none false
    ∷ arbitrated 1 false 100 100 none none
    ∷ interface_changed none false
    ∷ arbitrated 1 true 200 200 none none
    ∷ arbitrated 2 true 300 310 (some "office") (some "office")
    ∷ []

windows_test :
    windows_events steps fresh
    ≡ disconnected none ∷ connected (some "office") ∷ went_online (some "office") ∷ []
unfolding windows_events windows_step set_baseline ip_callback start_arbitration arbitrate
    emit_reached emit allow kind
windows_test = refl

windows_events-AlternatesFrom_example :
    AlternatesFrom none (directions (windows_events steps fresh))
windows_events-AlternatesFrom_example = windows_events-AlternatesFrom steps fresh tt
