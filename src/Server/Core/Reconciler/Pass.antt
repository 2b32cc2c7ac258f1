-- ===== src/Server/Core/Reconciler/Pass.antt =====
-- One pass of the reconciler. What the database and the agents answer during the pass is given.
use csl.Prelude.{
  ◌||◌, Text_Eq, ◌&&◌, ℤ, Option, ◌==◌, not, List, nat_eq, if◌then◌else◌, Dict, [], ◌∷◌, ℕ, Text,
  Bool, true, false,
}
use csl.Shared.Models.{failed, JobStatus, JobStatusResponse}

-- The columns of `Job` that are read or written here; the key is `job_uuid`, which is unique.
pub record Job : Type 0 where
  pub machine_id : ℕ
  pub status : JobStatus
  pub ended_at : Option ℕ
  pub exit_code : Option ℤ

-- What `get_job_status` does: it returns, raises `AgentClientError`, or raises something else.
pub data Poll : Type 0 where
  answered : JobStatusResponse → Poll
  client_error other_error : Poll

-- The machines that have a row, those to which a client can be opened, and the answers about jobs.
pub record Agents : Type 0 where
  pub has_row : ℕ → Bool
  pub reachable : ℕ → Bool
  pub get_job_status : Text → Poll

-- `status in _ACTIVE_STATUSES`
abbrev pub is_active : JobStatus → Bool
is_active JobStatus.running = true
is_active JobStatus.pending = true
is_active _ = false

-- The row of a job after its poll.
unfoldable pub outcome : Poll → Job → Job
outcome (answered r) j =
    if not (is_active r.status)
    then record j { status = r.status; ended_at = r.ended_at; exit_code = r.exit_code }
    else j
outcome client_error j = j
outcome other_error j = record j { status = failed }

-- The change of the row with a key, where there is one.
unfoldable pub change : Text → (Job → Job) → Dict Text Job → Dict Text Job
change uuid f [] = []
change uuid f ((k, j) ∷ rows) = (k, if k == uuid then f j else j) ∷ change uuid f rows

-- `jobs`, as selected at the beginning
unfoldable pub active_jobs : Dict Text Job → Dict Text Job
active_jobs [] = []
active_jobs ((k, j) ∷ rows) =
    let rest = active_jobs rows in if is_active j.status then (k, j) ∷ rest else rest

-- The loop over `machine_jobs`
unfoldable pub poll_jobs : Agents → ℕ → Dict Text Job → Dict Text Job → Dict Text Job
poll_jobs a machine_id [] rows = rows
poll_jobs a machine_id ((k, j) ∷ jobs) rows =
    poll_jobs a machine_id jobs (
      if nat_eq j.machine_id machine_id then change k (outcome (a.get_job_status k)) rows else rows)

-- The loop over `machines`
unfoldable pub poll_machines : Agents → Dict Text Job → List ℕ → Dict Text Job → Dict Text Job
poll_machines a jobs [] rows = rows
poll_machines a jobs (m ∷ machines) rows =
    poll_machines a jobs machines
      (if a.has_row m && a.reachable m then poll_jobs a m jobs rows else rows)

unfoldable pub has_id : ℕ → List ℕ → Bool
has_id m [] = false
has_id m (n ∷ ids) = nat_eq n m || has_id m ids

-- `machine_ids`
unfoldable pub machine_ids : Dict Text Job → List ℕ
machine_ids [] = []
machine_ids ((k, j) ∷ jobs) =
    let rest = machine_ids jobs in if has_id j.machine_id rest then rest else j.machine_id ∷ rest

unfoldable pub reconcile_once : Agents → Dict Text Job → Dict Text Job
reconcile_once a rows = let jobs = active_jobs rows in poll_machines a jobs (machine_ids jobs) rows
