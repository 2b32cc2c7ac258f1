-- ===== src/Server/Web/JobList.antt =====
-- `jobs_list` of control_station_lite/server/web/machines.py, less the texts of the durations and the
-- choices of the filters.
pub mod Complete
use csl.Prelude.{
  ltb, drop, take, ℕ_Eq, nat_eq, opt_eq, filter, any, length, int_eq, Result, Bool, Option, List,
  ◌>>=◌, ℕ, ℤ, pos, Text, Dict, Text_Eq, codes, [], ◌∷◌, none, some, true, false, ok, err, ◌==◌,
  ◌&&◌, ◌+◌, ◌-◌, ◌*◌,
}
use csl.Shared.Models.{killed, JobStatus}
use csl.Server.Api.Jobs.{JobTables, JobRow}
use csl.Server.Core.Registry.Table.{ScriptRow}
use csl.Server.Auth.Sessions.{User}
use csl.Server.Api.Machines.{list_machines, MachineTables}
use csl.Server.Web.Form.{overflow, rejected, value, Conversion}
use csl.Server.Api.Audit.{wanted, page_number}
use csl.Server.Core.Errors.{uncaught, HttpException}

abbrev pub machine_tables : JobTables → MachineTables
machine_tables t = record {
  machines = t.machines;
  user_machines = t.user_machines;
  audit_log = t.audit_log;
}

-- `Job.machine_id.in_(accessible_ids)`
unfoldable pub is_accessible : User → JobTables → JobRow → Bool
is_accessible user t j = any (λ m. nat_eq m.id j.machine_id) (list_machines user (machine_tables t))

-- `Script.name == script_name` of the outer join
abbrev pub has_script_name : Dict Text ScriptRow → Text → JobRow → Bool
has_script_name scripts name j =
    any (λ (n, row). n == name && opt_eq j.script_id (some row.id)) scripts

abbrev status_value : JobStatus → Text
status_value JobStatus.pending = codes "pending"
status_value JobStatus.running = codes "running"
status_value JobStatus.completed = codes "completed"
status_value JobStatus.failed = codes "failed"
status_value killed = codes "killed"

pub record JobFilter : Type 0 where
  pub machine_id : Option ℤ
  pub script_name : Option Text
  pub status : Option Text

abbrev of_machine : JobRow → Option ℤ → Bool
of_machine j none = true
of_machine j (some z) = int_eq (pos j.machine_id) z

unfoldable pub is_listed : User → JobFilter → JobTables → JobRow → Bool
is_listed user f t j =
    is_accessible user t j
    && of_machine j f.machine_id
    && wanted (λ name. has_script_name t.scripts name j) f.script_name
    && wanted (λ s. status_value j.status == s) f.status

pub record JobsPage : Type 0 where
  pub rows : List JobRow
  pub page : ℕ
  pub total : ℕ
  pub has_prev : Bool
  pub has_next : Bool

abbrev pub job_page_size : ℕ
job_page_size = 50

-- The page, once `machine_id` is a number. `ordered` is what the database makes of ORDER BY
-- started_at DESC in this query: it may put rows of the same time in any order.
unfoldable pub jobs_page : (List JobRow → List JobRow) → User → JobFilter → ℤ → JobTables → JobsPage
jobs_page ordered user f page t =
    let number = page_number page in
    let offset = (number - 1) * job_page_size in
    let total = length (filter (is_listed user f t) t.jobs) in
    record {
      rows = take job_page_size (drop offset (ordered (filter (is_listed user f t) t.jobs)));
      page = number;
      total = total;
      has_prev = ltb 1 number;
      has_next = ltb (offset + job_page_size) total;
    }

-- `int(machine_id) if machine_id else None`; the exception of `int` is not caught.
unfoldable pub machine_filter :
    (Text → Conversion ℤ) → Option Text → Result HttpException (Option ℤ)
machine_filter int_text none = ok none
machine_filter int_text (some []) = ok none
machine_filter int_text (some (c ∷ s)) = elim (int_text (c ∷ s)) [
  | value z ↦ ok (some z)
  | rejected ↦ err uncaught
  | overflow ↦ err uncaught
]

unfoldable pub jobs_list :
    (List JobRow → List JobRow)
    → (Text → Conversion ℤ)
    → Option Text
    → Option Text
    → Option Text
    → ℤ
    → User
    → JobTables
    → Result HttpException JobsPage
jobs_list ordered int_text machine_id script_name status page user t = do
  z ← machine_filter int_text machine_id
  ok (
      jobs_page ordered user (record { machine_id = z; script_name = script_name; status = status })
        page t)
