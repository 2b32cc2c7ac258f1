-- ===== src/Agent/Fixtures.antt =====
-- Concrete agents, jobs and parameters for the tests.
use csl.Agent.Api.Wire.{Agent, Moment}
use csl.Shared.Models.{JobRequest}
use csl.Agent.Runner.{finished}
use csl.Agent.Params.{Params}
use csl.Prelude.{
  Text_Eq, negsuc, ltb, true, pos, refl, nat_eq, Bool, false, codes, ℕ, ℤ, Text, Dict, Option, [],
  ◌∷◌, none, some, ◌≡◌,
}
use csl.Shared.Models.{JobStatus, approved, ScriptDescriptor}
use csl.Agent.Processes.Records.{JobEntry, Os, StateFormat, Processes}
use csl.Shared.ScriptMeta.{float, integer, Value, ParamDescriptor, Numbers}
use csl.Agent.Processes.Manager.{start_process}
use csl.Agent.Runner.{Machine}
use csl.Agent.Processes.Start.{Started}
use csl.Agent.Approvals.Data.{cli, approved_record, Store, Platform, Host}

-- Numbers are naturals and NaN.
abbrev nat_lt : Option ℕ → Option ℕ → Bool
nat_lt (some a) (some b) = ltb a b
nat_lt _ _ = false

abbrev nat_same : Option ℕ → Option ℕ → Bool
nat_same (some a) (some b) = nat_eq a b
nat_same _ _ = false

abbrev nat_of : ℤ → Option ℕ
nat_of (pos n) = some n
nat_of (negsuc n) = some 0

pub lt-none : (x : Option ℕ) → nat_lt x none ≡ false
lt-none none = refl
lt-none (some a) = refl

abbrev pub naturals : Numbers
naturals = record {
  Number = Option ℕ;
  num_lt = nat_lt;
  num_eq = nat_same;
  of_int = nat_of;
  not_a_number = none;
  nan-lt = λ x. refl;
  lt-nan = lt-none;
}

abbrev pub level : ParamDescriptor (Option ℕ)
level = record {
  name = codes "level";
  type = float;
  required = true;
  has_default = false;
  min = some (some 1);
  max = some (some 9);
  choices = none;
}

abbrev pub job_params : Dict Text (Value (Option ℕ))
job_params = (codes "level", integer (pos 4)) ∷ []

-- Metadata of any text ask for the level; the MD5 of a text is the text.
abbrev pub box : Machine naturals
box = record {
  is_windows = false;
  md5 = λ s. s;
  parse_meta =
      λ s. some (record { description = []; persistent = false; tags = []; params = level ∷ [] });
  show = λ v. [];
  upper = λ s. s;
  environ = [];
}

abbrev pub approved_backup : ScriptDescriptor
approved_backup = record {
  name = codes "backup";
  state = approved;
  persistent = false;
  approved_md5 = some (codes "v1");
  pending_md5 = none;
}

abbrev pub box_scripts : Dict Text Text
box_scripts = (codes "backup.meta.yaml", []) ∷ (codes "backup", codes "v1") ∷ []

abbrev pub plain_format : StateFormat
plain_format = record {
  Doc = Dict Text JobEntry;
  dump = λ d. d;
  parse = some;
  parse-dump = λ d. refl;
}

abbrev pub linux : Os
linux = record {
  is_windows = false;
  pid_alive = λ pid. nat_eq pid 41;
  exit_code = λ pid. none;
  has_group = λ pid. true;
  ends_in_grace = λ pid. true;
  has_group_later = λ pid. false;
  wait_code = λ pid. negsuc 0;
}

abbrev pub started : Processes (Dict Text JobEntry)
started =
    (start_process plain_format (codes "backup") (codes "a") (codes "a.log") 41 10
      (start_process plain_format (codes "sweep") (codes "b") (codes "b.log") 42 11
        (record { jobs = []; state_path = none })).1).1

abbrev pub box_platform : Platform
box_platform = record {
  Doc = Option Store;
  dump = some;
  parse = λ d. d;
  size = λ d. 1;
  stamp = λ t. t;
  parse-dump = λ d. refl;
}

abbrev pub box_host : Host (Option Store)
box_host = record {
  manager = record {
    auto_approve = [];
    store = (codes "backup", approved_record (some (codes "v1")) 5 cli) ∷ [];
    sig = (0, 0);
  };
  disk = record { pending_dir = []; scripts_dir = box_scripts; approvals_path = none };
  audit = [];
}

abbrev pub started_backup : Started
started_backup = record {
  response = record {
    job_uuid = codes "c";
    script_name = codes "backup";
    status = JobStatus.running;
    persistent = true;
    started_at = 20;
    ended_at = none;
    exit_code = none;
  };
  script_file = codes "backup";
  command = codes "bash" ∷ codes "backup" ∷ [];
  env = (codes "CSL_PARAM_level", []) ∷ [];
}

abbrev pub box_agent : Agent (Option Store) (Dict Text JobEntry)
box_agent = record {
  api_token = some (codes "k9");
  log_tail_lines = pos 100;
  host = box_host;
  processes = started;
  tracker = record { timeout = 600; last_activity = 12 };
  logs = [];
}

abbrev pub noon : Moment
noon = record {
  now = 20;
  os = linux;
  spawn = λ command env. 43;
  execute = λ c e. finished (pos 0) (codes "done") [];
}

abbrev pub backup_job : JobRequest (Params (Option ℕ))
backup_job = record {
  job_uuid = codes "c";
  script_name = codes "backup";
  params = job_params;
  persistent = false;
  expected_md5 = some (codes "v1");
}
