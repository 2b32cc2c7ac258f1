-- ===== src/Server/Web/Tests.antt =====
-- The pages for two users and a target.
use csl.Prelude.{
  arith, ok, opt_eq, unique, member, distinct_by, not, filter, all, text_eq, Bool, lookup, insert,
  suc, Option, List, any, ℕ, Text, Text_Eq, Dict, codes, [], ◌∷◌, none, some, true, false, ◌≡◌,
  refl,
}
use csl.Shared.ScriptMeta.{unique_from, real}
use csl.Agent.Params.{
  validate_params, Params, unknown_params, check_params, check_param, validate_value, check_bounds,
}
use csl.Agent.Fixtures.{box_agent, plain_format, box, box_platform, naturals, level}
use csl.Server.Auth.Plain.{toy, toy_encode}
use csl.Server.Auth.Tokens.{access}
use csl.Server.Auth.Sessions.{TokenResponse, user_with_id, user_named, User, Tables}
use csl.Server.Api.Fixtures.{station, open_aead, ann, bob, station_tables}
use csl.Server.Api.Jobs.{JobRow, JobTables}
use csl.Server.Web.Form.{
  or_zero, convert, value_as, Builtins, Field, FormValue, value, rejected, field_text, form_params,
}
use csl.Server.Web.Form.Typed.{form_params-validate, is_range_error, errors_of, descriptors}
use csl.Server.Web.JobList.{is_accessible, machine_tables, is_listed, JobFilter}
use csl.Server.Web.Admins.{user_requests-HasAdmin, HasAdmin}
use csl.Server.Web.Users.{toggle, set_role, user_requests, UserRequest}
use csl.Server.Api.Audit.Pages.{follow}
use csl.Server.Web.JobList.Complete.{distinct_times, IsOrdering, jobs_page-follow, turned}
use csl.Server.Api.Audit.Complete.{count}
use csl.Server.Api.Machines.Access.{is_ok}
use csl.Server.Api.Machines.{
  list_machines, get_machine, get_machine_or_404, find_machine, assert_access,
}
use csl.Agent.Processes.Manager.{start_process, save_state, running_count}
use csl.Agent.Lifecycle.{record_activity, idle_seconds}
use csl.Agent.Api.App.{dispatch, provided_token, activity, endpoint}
use csl.Agent.Api.Wire.{is_path_name}
use csl.Agent.Api.Jobs.{check_expected, submit_once}
use csl.Shared.ScriptName.{
  validate_script_name, match_allowed, match_rest, is_allowed, ends_with_dot, is_reserved, upper,
  stem,
}
use csl.Agent.Approvals.Manager.{get_state, sync_from_disk, current_sig, same_sig}
use csl.Server.Core.AgentClient.{send, is_healthy, ensure_agent_running}
use csl.Server.Core.ScriptSync.Sync.{resolve, upsert_state, row_of, agent_state}
use csl.Server.Core.ScriptSync.Remote.{sync_script_over, stage_if_due}
use csl.Server.Core.Crypto.{decrypt}
use csl.Server.Api.Jobs.Client.{opened, auth_header}
use csl.Shared.Models.{absent}
use csl.Agent.Runner.{
  run_script, prepare, check_job_params, find_script, first_candidate, suffix_from,
  verify_script_integrity, build_command, build_env, build_env_onto,
}
use csl.Server.Web.Run.{
  run_submit, run_admission, run_over, run_awake, run_resolved, run_synced, meta_params,
}
use csl.Server.Web.Run.Guarded.{IsRun, run_submit-IsRun}
use csl.Server.Web.Login.{web_require_admin, login_submit, redirect_with_flash}
use csl.Server.Core.AgentClient as AgentClient
use csl.Agent.Api.App as App
use csl.Agent.Api.Jobs as AgentJobs
use csl.Server.Web.Badges.{sync_states, staged_scripts}
use csl.Server.Web.Badges.Shown.{sync_states-AllShown, AllShown}
use csl.Server.Cli.{admin_row, check_entries, create_admin}
use csl.Server.Core.MagicPacket.{is_space, lstrip, strip}
use csl.Server.Cli.Entered.{create_admin-login}
use csl.Server.Api.Jobs.Running.{order_by_started}

abbrev two_users : Tables
two_users = record { users = ann ∷ bob ∷ []; refresh_tokens = []; audit_log = [] }

abbrev cookie_of : ℕ → Option Text
cookie_of i = some (toy_encode (access i (codes "admin") 500))

-- ann makes bob an administrator, who disables her; then she may do nothing.
abbrev asked : List (Option Text × ℕ × UserRequest)
asked =
    (cookie_of 1, 100, set_role 2 (codes "admin"))
    ∷ (cookie_of 2, 101, toggle 1)
    ∷ (cookie_of 1, 102, toggle 2)
    ∷ []

user_requests-HasAdmin_example : HasAdmin (user_requests toy asked two_users)
unfolding any text_eq
user_requests-HasAdmin_example = user_requests-HasAdmin toy asked two_users refl

abbrev py : Builtins naturals
py = record {
  Any = Text;
  int_text = λ s. rejected;
  float_text = λ s. value (some 4);
  int_any = λ s. rejected;
  float_any = λ s. rejected;
  str_any = λ s. s;
}

abbrev level_field : Field (Option ℕ) Text
level_field = record { descriptor = level; default = none }

abbrev filled : Dict Text FormValue
filled = (codes "level", field_text (codes "4")) ∷ []

abbrev typed_params : Params (Option ℕ)
typed_params = (codes "level", real (some 4)) ∷ []

form_params-validate_example :
    all is_range_error
      (errors_of (validate_params naturals (some (descriptors (level_field ∷ []))) typed_params))
    ≡ true
unfolding unique_from any form_params value_as convert or_zero insert lookup text_eq
form_params-validate_example =
    form_params-validate py filled (level_field ∷ []) {params = typed_params} refl refl

-- The registry with metadata for the script.
abbrev with_meta : JobTables
with_meta = record station_tables {
  scripts =
      (
        codes "backup",
        record {
          id = 7;
          content = codes "v1";
          meta_yaml = some (codes "m");
          md5 = codes "v1";
          persistent = false;
          updated_at = 3;
          updated_by = 1;
        },
      )
      ∷ [];
}

abbrev one_level : Text → Option (List (Field (Option ℕ) Text))
one_level s = some (level_field ∷ [])

abbrev no_json : Params (Option ℕ) → Text
no_json p = []

abbrev all_jobs : JobFilter
all_jobs = record { machine_id = none; script_name = none; status = none }

-- A database that keeps rows of the same time in the order of the table.
abbrev in_order : ℕ → List JobRow → List JobRow
in_order k = order_by_started

abbrev in_order-IsOrdering : IsOrdering in_order
in_order-IsOrdering k rows e = refl

jobs-distinct : distinct_times (filter (is_listed bob all_jobs with_meta) with_meta.jobs) ≡ true
unfolding is_listed is_accessible filter distinct_by any list_machines text_eq
jobs-distinct = refl

jobs_page-follow_example :
    (rows : List JobRow) × (follow
        (turned in_order in_order-IsOrdering bob all_jobs with_meta jobs-distinct)
        suc
        2
        0
      ≡ some rows)
    × ((p : JobRow → Bool)
        → count p rows ≡ count p (filter (is_listed bob all_jobs with_meta) with_meta.jobs))
    × (count (λ j. not (is_ok (get_machine j.machine_id bob (machine_tables with_meta)))) rows ≡ 0)
jobs_page-follow_example =
    jobs_page-follow in_order in_order-IsOrdering bob all_jobs with_meta jobs-distinct

run_submit-IsRun_example :
    IsRun box_platform box plain_format open_aead no_json py one_level station 1
      (codes "backup")
      filled
      bob
      with_meta
      box_agent
      (run_submit box_platform box plain_format open_aead no_json py one_level station 1
        (codes "backup")
        filled
        bob
        with_meta
        box_agent).2
unfolding run_submit run_admission text_eq get_machine_or_404 find_machine opened decrypt
    auth_header send dispatch all provided_token activity endpoint lookup insert member unique
    start_process save_state record_activity assert_access any run_over ensure_agent_running
    is_healthy running_count idle_seconds run_awake sync_script_over AgentClient.get_script_state
    App.get_script_state is_path_name validate_script_name match_allowed match_rest is_allowed
    ends_with_dot is_reserved upper stem get_state sync_from_disk current_sig same_sig stage_if_due
    resolve opt_eq upsert_state run_resolved run_synced AgentClient.submit_job meta_params
    AgentJobs.submit_job check_expected submit_once run_script prepare check_job_params
    validate_params unknown_params check_params check_param validate_value check_bounds find_script
    first_candidate suffix_from verify_script_integrity build_command build_env build_env_onto
    form_params value_as convert or_zero redirect_with_flash
run_submit-IsRun_example =
    run_submit-IsRun box_platform box plain_format open_aead no_json py one_level station 1
      (codes "backup") filled bob with_meta box_agent {url = codes "/jobs/c"}
      {message = codes "Job started: backup"} {category = codes "success"} refl

abbrev with_state : JobTables
with_state = record with_meta {
  target_states =
      record {
        machine_id = 1;
        script_id = 7;
        state = agent_state absent;
        approved_md5 = none;
        pending_md5 = none;
        last_refreshed_at = 1;
      }
      ∷ [];
}

sync_states-AllShown_example : AllShown box_platform box plain_format open_aead station 1 (
    sync_states box_platform box plain_format open_aead station (λ s. s) 1 bob with_state box_agent)
unfolding distinct_by any staged_scripts row_of
sync_states-AllShown_example =
    sync_states-AllShown box_platform box plain_format open_aead station (λ s. s) 1 bob with_state
      box_agent refl

abbrev carl : User
carl = admin_row 3 (codes "carl") (codes "correct horse")

abbrev with_carl : Tables
with_carl = record two_users { users = ann ∷ bob ∷ carl ∷ [] }

create_admin-login_example :
    let (answer, tokens, after) =
      login_submit toy (codes "carl") (codes "correct horse") (codes "j1") 100 with_carl in
    (cookies : TokenResponse) × (tokens ≡ some cookies)
    × (web_require_admin toy (some cookies.access_token) 1900 after ≡ ok carl)
unfolding create_admin check_entries strip lstrip is_space user_named user_with_id text_eq
create_admin-login_example =
    create_admin-login toy (λ s. s) 3 (codes " carl ") (codes "correct horse")
      (codes "correct horse") two_users (codes "j1") 100 1900 {t' = with_carl} refl refl refl
      (omega arith)
