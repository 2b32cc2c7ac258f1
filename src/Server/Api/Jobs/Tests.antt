-- ===== src/Server/Api/Jobs/Tests.antt =====
-- A submission and a kill.
use csl.Prelude.{
  true, ok, ◌∷◌, ◌++◌, none, text_eq, all, insert, member, unique, opt_eq, any, lookup, ℕ, Text,
  Text_Eq, codes, pos, [], some, false, Option, ◌≡◌, refl, any, all, lookup,
}
use csl.Shared.Models.{completed}
use csl.Agent.Fixtures.{box, plain_format, box_platform, box_agent, job_params}
use csl.Agent.Params.{Params}
use csl.Server.Core.AgentClient as AgentClient
use csl.Agent.Api.App as App
use csl.Agent.Api.Jobs as AgentJobs
use csl.Agent.Processes.Manager.{start_process, save_state, running_count}
use csl.Agent.Lifecycle.{record_activity, idle_seconds}
use csl.Agent.Api.App.{dispatch, provided_token, activity, endpoint}
use csl.Agent.Api.Wire.{is_path_name}
use csl.Agent.Api.Jobs.{check_expected, submit_once}
use csl.Shared.ScriptName.{
  validate_script_name, match_allowed, match_rest, is_allowed, ends_with_dot, is_reserved, upper,
  stem,
}
use csl.Agent.Approvals.Manager.{get_state, sync_from_disk, current_sig, same_sig}
use csl.Server.Core.AgentClient.{send, is_healthy, ensure_agent_running}
use csl.Server.Core.ScriptSync.Sync.{agent_state, resolve, upsert_state}
use csl.Server.Core.ScriptSync.Remote.{sync_script_over, stage_if_due}
use csl.Server.Core.Crypto.{decrypt}
use csl.Server.Api.Machines.{get_machine_or_404, find_machine, assert_access}
use csl.Agent.Runner.{
  run_script, prepare, check_job_params, find_script, first_candidate, suffix_from,
  verify_script_integrity, build_command, build_env, build_env_onto,
}
use csl.Agent.Params.{
  validate_params, unknown_params, check_params, check_param, validate_value, check_bounds,
}
use csl.Server.Core.ScriptSync.Sync.{Script, sync_script}
use csl.Server.Core.ScriptSync.Reached.{
  as_client, sync_script_over-agrees, sync_script_over-reached, sync_script_over-agrees,
}
use csl.Agent.Api.App.{bearer}
use csl.Server.Api.Fixtures.{good_link, open_aead, bob, station, station_tables}
use csl.Server.Api.Jobs.{agent_state, JobRow}
use csl.Server.Api.Jobs.Client.{SubmitJobIn, opened, auth_header}
use csl.Server.Api.Jobs.Submit.{
  submit_job, admission, submit_over, submit_awake, submit_resolved, submit_synced,
}
use csl.Server.Api.Jobs.Submitted.{IsSubmitted, submit_job-IsSubmitted}
use csl.Server.Api.Jobs.Refused.{Answers, submit_job-Answers}
use csl.Agent.Approvals.Data.{state_of}
use csl.Server.Core.ScriptSync.Agrees.{is_current}

abbrev dumps_nothing : Params (Option ℕ) → Text
dumps_nothing p = []

abbrev submission : SubmitJobIn (Params (Option ℕ))
submission = record { script_name = codes "backup"; params = job_params }

abbrev done_row : JobRow
done_row = record {
  job_uuid = codes "c";
  machine_id = 1;
  script_id = some 7;
  user_id = 2;
  params_json = [];
  status = completed;
  persistent = false;
  started_at = 20;
  ended_at = some 20;
  exit_code = some (pos 0);
}

submit_job-Answers_example :
    let (r, u, b) =
      submit_job box_platform box plain_format open_aead dumps_nothing station 1 submission bob
        station_tables box_agent in
    Answers station_tables.jobs r u.jobs
submit_job-Answers_example =
    submit_job-Answers box_platform box plain_format open_aead dumps_nothing station 1 submission
      bob station_tables box_agent

submit_job-IsSubmitted_example :
    IsSubmitted box_platform box plain_format open_aead dumps_nothing station 1 submission bob
      station_tables box_agent done_row
      (submit_job box_platform box plain_format open_aead dumps_nothing station 1 submission bob
        station_tables box_agent).2
unfolding submit_job admission text_eq get_machine_or_404 find_machine opened decrypt auth_header
    send dispatch all provided_token activity endpoint lookup insert member unique start_process
    save_state record_activity assert_access any submit_over ensure_agent_running is_healthy
    running_count idle_seconds submit_awake sync_script_over AgentClient.get_script_state
    App.get_script_state is_path_name validate_script_name match_allowed match_rest is_allowed
    ends_with_dot is_reserved upper stem get_state sync_from_disk current_sig same_sig stage_if_due
    resolve opt_eq upsert_state submit_resolved submit_synced AgentClient.submit_job
    AgentJobs.submit_job check_expected submit_once run_script prepare check_job_params
    validate_params unknown_params check_params check_param validate_value check_bounds find_script
    first_candidate suffix_from verify_script_integrity build_command build_env build_env_onto
submit_job-IsSubmitted_example =
    submit_job-IsSubmitted box_platform box plain_format open_aead dumps_nothing station 1
      submission bob station_tables box_agent {j = done_row} refl

-- A script that the agent does not have.
abbrev sweep : Script
sweep = record {
  id = 8;
  name = codes "sweep";
  content = codes "w1";
  meta_yaml = none;
  md5 = codes "w1";
}

sync_script_over-reached_example :
    let (r, b, over) =
      sync_script_over box_platform box plain_format good_link
        (bearer ++ (b'k' ∷ codes "9"))
        5
        1
        sweep
        20
        box_agent
        [] in
    let (s, h, direct) = sync_script box_platform 1 sweep 20 box_agent.host [] in
    (r ≡ as_client box_platform box plain_format good_link b'k' (codes "9") s)
    × (b.host ≡ h)
    × (over ≡ direct)
unfolding is_path_name validate_script_name match_allowed match_rest is_allowed ends_with_dot
    is_reserved upper stem all any text_eq
sync_script_over-reached_example =
    sync_script_over-reached box_platform box plain_format good_link b'k' (codes "9") 5 1 sweep
      box_agent [] refl refl refl refl refl

sync_script_over-agrees_example :
    let (r, b, over) =
      sync_script_over box_platform box plain_format good_link
        (bearer ++ (b'k' ∷ codes "9"))
        5
        1
        sweep
        20
        box_agent
        [] in
    let known = lookup (codes "sweep") b.host.manager.store in
    (r ≡ ok (agent_state (state_of known))) × (is_current known (codes "w1") ≡ true)
unfolding is_path_name validate_script_name match_allowed match_rest is_allowed ends_with_dot
    is_reserved upper stem all any text_eq
sync_script_over-agrees_example =
    sync_script_over-agrees box_platform box plain_format good_link b'k' (codes "9") 5 1 sweep
      box_agent [] refl refl refl refl refl
