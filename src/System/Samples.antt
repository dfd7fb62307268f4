-- ===== src/System/Samples.antt =====
-- A reservation that the server admits, which the tests of the process start from.
use qos_planner.Common.{
  ℕ, ◌+◌, ◌*◌, ◌≡◌, refl, List, [], ◌∷◌, true, none, some, Str, str, str_ltb, Str-discrete,
}
use qos_planner.Common.Map.{find, assign}
use qos_planner.Job.{Job, jobstart, JobState, scheduled}
use qos_planner.Queue.{push, up}
use qos_planner.Schedule.{Schedule, deref, insert_by_start, insert_all, add_job, get_ost_state}
use qos_planner.Rules.Samples.{answers}
use qos_planner.Rules.{RuleManager}
use qos_planner.Monitor.{item, register_job}
use qos_planner.Monitor.Threads.{member}
use qos_planner.Message.{pos, Request, reserve}
use qos_planner.Scheduler.Samples.{whole}
use qos_planner.Scheduler.Load.{get_max_load}
use qos_planner.Scheduler.Static.{schedule_job, check_osts, admit, are_enough_res_avail}
use qos_planner.Planner.{
  Planner, end_of, build_job, insert_osts, try_compute_ost_set, submit, serve_job_submission,
  reply_of,
}
use qos_planner.Server.{Outside, request_message, process_message, serve_message}
use qos_planner.System.{started}

abbrev pub outside : Outside
outside = record {
  now = 5;
  lustre = answers;
  visit = λ osts. osts;
  stack = λ i. 0;
  compile = λ regex. none;
  put_time = λ t. [];
}

abbrev pub request : Request
request = record {
  request_type = reserve;
  resource_request = record {
    id = str "c";
    throughput_mb = pos 60;
    duration_sec = pos 3600;
    files = str "/f" ∷ [];
  };
  delete_ids = [];
  regex = [];
}

abbrev pub limits : List (Str × ℕ)
limits = (str "o1", 100) ∷ []

abbrev pub tend : ℕ
tend = 5 + 3600 * 1000000000

abbrev pub job_c : JobState → Job
job_c st = record {
  state = st;
  jobid = str "c";
  tstart = 5;
  tend = tend;
  osts = str "o1" ∷ [];
  min_read_throughput = 60;
}

abbrev pub booked : JobState → Schedule
booked st = record {
  store = some (job_c st) ∷ [];
  schedule = (str "o1", 0 ∷ []) ∷ [];
  jobs = (str "c", 0) ∷ [];
}

abbrev pub no_rules : RuleManager
no_rules = record { active_rules = []; ids = []; ips = [] }

abbrev pub reserved : Planner whole
reserved = record {
  monitor = record {
    thread_started = true;
    queue = item (str "c") 5 jobstart ∷ [];
    schedule = booked scheduled;
    rules = no_rules;
    calls = [];
  };
  osts_max_mbs_limits = limits;
}

-- The reservation is admitted.
pub admit_c :
    process_message whole outside (started whole limits) request
    ≡ some (reserved, true, some (reply_of (pos 0) []))
unfolding process_message serve_job_submission try_compute_ost_set insert_osts member end_of
    build_job submit schedule_job check_osts get_max_load get_ost_state are_enough_res_avail admit
    add_job insert_all insert_by_start deref find assign Str-discrete str_ltb register_job push up
admit_c = refl

pub reserve_c :
    serve_message whole outside (started whole limits) (request_message request)
    ≡ some (reserved, some (reply_of (pos 0) []) ∷ [])
unfolding serve_message
reserve_c = rw admit_c
