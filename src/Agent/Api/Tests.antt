-- ===== src/Agent/Api/Tests.antt =====
-- Requests to an agent with a token, and a job of a known content.
use csl.Prelude.{
  member, insert, lookup, opt_eq, any, any, lookup, opt_eq, all, codes, some, false, err, ◌≡◌, refl,
  pos, if◌then◌else◌, text_eq, ◌++◌,
}
use csl.Agent.Runner.{
  build_env_onto, build_env, verify_script_integrity, suffix_from, first_candidate, find_script,
  build_command, check_job_params, prepare, run_script,
}
use csl.Agent.Fixtures.{box, plain_format, box_platform}
use csl.Shared.Models.{JobStatusResponse, completed}
use csl.Agent.Api.Wire.{http_error}
use csl.Agent.Api.Access.{dispatch-bearer}
use csl.Agent.Api.Executed.{RunsContent}
use csl.Agent.Api.Expected.{submit_job-RunsContent}
use csl.Agent.Api.App.{submit, dispatch, activity, bearer}
use csl.Agent.Params.{
  check_bounds, validate_value, check_param, check_params, unknown_params, validate_params,
}
use csl.Agent.Approvals.Manager.{sync_from_disk, same_sig, current_sig, get_state}
use csl.Agent.Api.Jobs.{submit_once, check_expected, submit_job}
use csl.Agent.Fixtures.{box_agent, noon, backup_job}

dispatch-bearer_example :
    dispatch box_platform box plain_format noon (codes "Bearer k8") (submit backup_job) box_agent
    ≡ (if text_eq (codes "Bearer k8") (bearer ++ codes "k9")
        then activity box_platform box plain_format noon (submit backup_job) box_agent
        else (err (http_error 401), box_agent))
unfolding all
dispatch-bearer_example =
    dispatch-bearer box_platform box plain_format noon (codes "Bearer k8") (submit backup_job)
      box_agent b'k' (codes "9") refl refl refl

abbrev backup_done : JobStatusResponse
backup_done = record {
  job_uuid = codes "c";
  script_name = codes "backup";
  status = completed;
  persistent = false;
  started_at = 20;
  ended_at = some 20;
  exit_code = some (pos 0);
}

submit_job-RunsContent_example :
    RunsContent box_platform box plain_format noon backup_job box_agent.host
      (codes "v1")
      backup_done
      (submit_job box_platform box plain_format noon backup_job box_agent).1
unfolding submit_job check_expected opt_eq get_state lookup text_eq submit_once run_script prepare
    check_job_params validate_params unknown_params any check_params check_param validate_value
    check_bounds current_sig same_sig sync_from_disk build_command find_script first_candidate
    suffix_from verify_script_integrity build_env build_env_onto member insert
submit_job-RunsContent_example =
    submit_job-RunsContent box_platform box plain_format noon backup_job box_agent (codes "v1")
      {r = backup_done} refl refl
