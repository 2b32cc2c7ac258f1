-- ===== src/Server/Tests.antt =====
-- Packets, sessions, a synchronisation and a pass of the reconciler.
use csl.Server.Core.Registry.Consistent.{
  Request as Change, run as run_changes, create_it, update_it, IsConsistent, run-IsConsistent,
}
use csl.Server.Core.Registry.Table.{ScriptTables}
use csl.Prelude.{
  Text_Eq, nat_eq, lookup, member, true, unique, all, Dict, [], ◌∷◌, ◌+◌, ◌*◌, refl, arith, false,
  none, codes, some, [], ◌++◌, replicate, Option, text_eq, ◌∷◌, List, Text, ℕ, ◌≡◌,
}
use csl.Server.Core.MagicPacket.{is_space, repeat, build_packet}
use csl.Server.Auth.Plain.{toy, toy_encode}
use csl.Server.Auth.Tokens.{
  set_revoked, revoke_jti, find_hash, validate_refresh_jti, decode_refresh_token,
  store_refresh_token, create_refresh_token, create_access_token, refresh_claims, access,
}
use csl.Server.Core.MagicPacket.RoundTrip.{
  build_packet-show, nothing, hyphen, show_octets, colon, Separator,
}
use csl.Server.Auth.Sessions.{
  issue, user_with_id, user_named, admitted, rotate, login, Tables, User, TokenResponse, refresh,
}
use csl.Agent.Approvals.Data.{Store, Platform, Host}
use csl.Server.Core.Reconciler.Pass.{reconcile_once, other_error, Job, Agents}
use csl.Shared.Models.{JobStatus}
use csl.Server.Core.ScriptSync.Sync.{Script}
use csl.Server.Auth.SingleUse.{refresh-single_use, run, is_refused, log_out, log_in, Request}
use csl.Server.Core.Reconciler.Outcome.{lookup-reconcile_once, reconciled}

-- 0a:1b-2C3D:4e:5f, in lower case
abbrev octets : List (Separator × ℕ)
octets = (colon, 27) ∷ (hyphen, 44) ∷ (nothing, 61) ∷ (colon, 78) ∷ (colon, 95) ∷ []

build_packet-show_example :
    build_packet (b' ' ∷ [] ++ (show_octets false 10 octets ++ b'\n' ∷ []))
    ≡ some (replicate 6 255 ++ repeat 16 (10 ∷ 27 ∷ 44 ∷ 61 ∷ 78 ∷ 95 ∷ []))
unfolding all is_space
build_packet-show_example =
    build_packet-show false 10 octets (b' ' ∷ []) (b'\n' ∷ []) (omega arith)
      (omega arith, (omega arith, (omega arith, (omega arith, (omega arith, tt))))) refl refl refl

abbrev ann : User
ann = record {
  id = 7;
  username = codes "ann";
  password_hash = codes "secret";
  role = codes "admin";
  disabled = false;
}

abbrev nobody_in : Tables
nobody_in = record { users = ann ∷ []; refresh_tokens = []; audit_log = [] }

abbrev logged_in : Tables
logged_in = (login toy (codes "ann") (codes "secret") (codes "j1") 100 nobody_in).1

abbrev first_token : Text
first_token = toy_encode (refresh_claims 7 (codes "j1") (100 + 14 * 86400))

abbrev first_answer : TokenResponse
first_answer = record {
  access_token = toy_encode (access 7 (codes "admin") (200 + 30 * 60));
  cookie = toy_encode (refresh_claims 7 (codes "j2") (200 + 14 * 86400));
}

abbrev between_times : List (Request × Text × ℕ)
between_times =
    (log_in (codes "ann") (codes "secret"), codes "j3", 210)
    ∷ (log_out (some first_token), [], 220)
    ∷ []

refresh-single_use_example :
    is_refused
      (refresh toy
        (some first_token)
        (codes "j4")
        300
        (run toy between_times (refresh toy (some first_token) (codes "j2") 200 logged_in).1)).0
    ≡ true
unfolding refresh rotate login admitted user_named user_with_id text_eq issue create_access_token
    create_refresh_token store_refresh_token decode_refresh_token validate_refresh_jti find_hash
    revoke_jti set_revoked
refresh-single_use_example =
    refresh-single_use toy first_token (codes "j2") 200 logged_in {r = first_answer} between_times
      (codes "j4") 300 refl

-- Three jobs on two machines, of which one is not reached.
abbrev job_of : ℕ → JobStatus → Job
job_of m s = record { machine_id = m; status = s; ended_at = none; exit_code = none }

abbrev jobs_table : Dict Text Job
jobs_table =
    (codes "a", job_of 1 JobStatus.running)
    ∷ (codes "b", job_of 2 JobStatus.running)
    ∷ (codes "c", job_of 1 JobStatus.killed)
    ∷ []

abbrev world : Agents
world = record {
  has_row = λ m. true;
  reachable = λ m. nat_eq m 1;
  get_job_status = λ uuid. other_error;
}

lookup-reconcile_once_example :
    lookup (codes "a") (reconcile_once world jobs_table)
    ≡ reconciled world (codes "a") (lookup (codes "a") jobs_table)
unfolding unique member lookup text_eq
lookup-reconcile_once_example = lookup-reconcile_once world (codes "a") jobs_table refl

abbrev plain_platform : Platform
plain_platform = record {
  Doc = Option Store;
  dump = some;
  parse = λ d. d;
  size = λ d. 1;
  stamp = λ t. t;
  parse-dump = λ s. refl;
}

abbrev new_agent : Host (Option Store)
new_agent = record {
  manager = record { auto_approve = []; store = []; sig = (0, 0) };
  disk = record { pending_dir = []; scripts_dir = []; approvals_path = none };
  audit = [];
}

abbrev backup_script : Script
backup_script = record {
  id = 3;
  name = codes "backup";
  content = codes "echo";
  meta_yaml = none;
  md5 = codes "m1";
}

-- The MD5 of a text is the text, and no metadata ask for persistence.
abbrev registry_requests : List (Change × ℕ)
registry_requests =
    (create_it 1 (codes "backup") (codes "v1") none 7, 10)
    ∷ (update_it (codes "backup") (codes "v2") none 7, 20)
    ∷ []

abbrev no_scripts : ScriptTables
no_scripts = record { scripts = []; target_states = [] }

run-IsConsistent_example :
    IsConsistent
      (λ s. s)
      (λ s. some false)
      (lookup
        (codes "backup")
        (run_changes (λ s. s) (λ s. some false) registry_requests no_scripts).scripts)
unfolding lookup
run-IsConsistent_example =
    run-IsConsistent (λ s. s) (λ s. some false) (codes "backup") registry_requests no_scripts tt
