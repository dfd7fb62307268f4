-- ===== src/Job.antt =====
-- src/common/Job.h: a reservation. A time point is its distance in ticks from the epoch.
use qos_planner.Common.{ℕ, List, [], Str, str}

-- `JobEvent`
pub data JobEvent : Type 0 where
  jobstart jobstop : JobEvent

-- `JobState`
pub data JobState : Type 0 where
  initialized scheduled active done : JobState

unfoldable pub JobState-discrete : Discrete JobState
JobState-discrete = hlevel

-- `JobStateToString`
unfoldable pub job_state_to_string : JobState → Str
job_state_to_string initialized = str "INITIALIZED"
job_state_to_string scheduled = str "SCHEDULED"
job_state_to_string active = str "ACTIVE"
job_state_to_string done = str "DONE"

pub record Job : Type 0 where
  pub state : JobState
  pub jobid : Str
  pub tstart : ℕ
  pub tend : ℕ
  pub osts : List Str
  pub min_read_throughput : ℕ

-- The constructor with times and throughput.
abbrev pub new_job : Str → ℕ → ℕ → ℕ → Job
new_job jobid tstart tend throughput = record {
  state = initialized;
  jobid = jobid;
  tstart = tstart;
  tend = tend;
  osts = [];
  min_read_throughput = throughput;
}

-- The constructor from an id, by which a text converts to a job; its times are the epoch.
abbrev pub job_of_id : Str → Job
job_of_id jobid = new_job jobid 0 0 0

-- `setState`
abbrev pub set_state : JobState → Job → Job
set_state s j = record j { state = s }

-- `setOsts`
abbrev pub set_osts : List Str → Job → Job
set_osts osts j = record j { osts = osts }
