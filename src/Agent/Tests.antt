-- ===== src/Agent/Tests.antt =====
-- Parameters, a command, a restart and a log.
use csl.Prelude.{
  List, any, Text_Eq, unique, arith, text_eq, true, refl, member, ◌↔◌, insert, lookup, ok, codes, ℕ,
  Text, [], ◌∷◌, some, ◌≡◌,
}
use csl.Agent.Params.{
  check_bounds, check_param, check_params, unknown_params, validate_params, validate_value,
}
use csl.Agent.Processes.Manager.{restore_state, save_state, start_process}
use csl.Agent.LogStream.Tail.{tail_start_offset-StartsTail, content_end, StartsTail}
use csl.Agent.Runner.{
  build_env_onto, build_env, suffix_from, first_candidate, build_command, verify_script_integrity,
  find_script, check_job_params, prepare,
}
use csl.Agent.LogStream.Scan.{
  byte_at, scan_buffer, scan_file, effective_end, newline, tail_start_offset,
}
use csl.Agent.Params.Valid.{validate_params_iff, accepts}
use csl.Agent.Runner.Guards.{IsGuarded}
use csl.Agent.Processes.Restart.{restore_state-save_state, after_restart, restarted}
use csl.Agent.Processes.Start.{start-IsGuarded, start}
use csl.Agent.Approvals.Manager.{same_sig, current_sig, sync_from_disk, get_state}
use csl.Prelude.{◌⊎◌, ◌++◌, ◌+◌, ◌<◌, ◌≤◌}
use csl.Agent.Lifecycle.{record_activity, shutdown_due, Event, request_at, check_at, live_on, ended}
use csl.Agent.Lifecycle.Shutdown.{quiet, last_request, live_on-ended, live_on-quiet}
use csl.Agent.Gateway.{ssh_gateway, remote_config_cmd, ssh_gateway_iff}
use csl.Shared.SshCommands.{linux_name, wakeup_cmd}
use csl.Agent.Fixtures.{
  naturals, level, job_params, box, plain_format, linux, started, box_platform, box_host,
  started_backup,
}
use csl.Shared.Registration.{is_valid_platform}

validate_params_iff_example :
    (validate_params naturals (some (level ∷ [])) job_params ≡ ok tt)
    ↔ (accepts naturals (some (level ∷ [])) job_params ≡ true)
validate_params_iff_example = validate_params_iff naturals (some (level ∷ [])) job_params

restore_state-save_state_example :
    lookup
      (codes "a")
      (restore_state plain_format linux (save_state plain_format started).state_path).jobs
    ≡ after_restart linux (codes "a") (lookup (codes "a") started.jobs)
unfolding start_process save_state insert unique member lookup text_eq
restore_state-save_state_example =
    restore_state-save_state plain_format linux (codes "a") started refl

-- Three lines; the last two begin behind the second byte.
abbrev log_file : Text
log_file = b'a' ∷ newline ∷ b'b' ∷ newline ∷ b'c' ∷ newline ∷ []

tail_start_offset-StartsTail_example :
    StartsTail log_file (content_end log_file) 2 (tail_start_offset log_file 2)
tail_start_offset-StartsTail_example = tail_start_offset-StartsTail log_file 2 (omega arith)

tail_start_offset_two : tail_start_offset log_file 2 ≡ 2
unfolding tail_start_offset effective_end scan_file scan_buffer byte_at
tail_start_offset_two = refl

start-IsGuarded_example :
    IsGuarded box
      (codes "backup")
      job_params
      (get_state box_platform (codes "backup") box_host).0
      (get_state box_platform (codes "backup") box_host).1.disk.scripts_dir
      (codes "backup")
      (codes "bash" ∷ codes "backup" ∷ [])
    × (lookup
          (codes "c")
          (restore_state plain_format linux
            (start box_platform box plain_format
              (codes "backup")
              job_params
              (codes "c")
              (codes "c.log")
              (λ command env. 41)
              20
              box_host
              started).2.state_path).jobs
        ≡ restarted linux (codes "c") (codes "backup") 41 (codes "c.log") 20)
unfolding start prepare lookup member text_eq check_job_params validate_params unknown_params
    check_params check_param validate_value check_bounds any find_script first_candidate
    verify_script_integrity build_command suffix_from get_state sync_from_disk current_sig same_sig
    start_process build_env build_env_onto insert unique save_state
start-IsGuarded_example =
    start-IsGuarded box_platform box plain_format linux (codes "backup") job_params (codes "c")
      (codes "c.log") (λ command env. 41) 20 box_host started {x = started_backup} refl refl

abbrev auto_names : List Text
auto_names = codes "sweep" ∷ codes "backup" ∷ []

-- A request, a check with a job, and the check at which the agent ends.
abbrev day : List Event
day = request_at 5 ∷ check_at 30 1 ∷ check_at 40 0 ∷ check_at 50 0 ∷ []

live_on-ended_example :
    (before : List Event) × (after : List Event) × (day ≡ before ++ (check_at 40 0 ∷ after))
    × (last_request 2 before + 20 < 40)
unfolding live_on shutdown_due record_activity
live_on-ended_example =
    live_on-ended (record { timeout = 20; last_activity = 2 }) day {now = 40} refl

live_on-quiet_example :
    (now : ℕ) × (live_on (record { timeout = 20; last_activity = 2 }) (quiet 4 5 10) ≡ ended now)
    × (now ≤ 32)
live_on-quiet_example =
    live_on-quiet 4 (record { timeout = 20; last_activity = 2 }) 5 10 (omega arith) (omega arith)

ssh_gateway_iff_example :
    (ssh_gateway linux_name (codes "cat /etc/shadow") ≡ some (codes "cat /etc/shadow")) ↔ (
      (wakeup_cmd linux_name ≡ some (codes "cat /etc/shadow"))
      ⊎ (remote_config_cmd linux_name ≡ codes "cat /etc/shadow"))
unfolding is_valid_platform text_eq
ssh_gateway_iff_example = ssh_gateway_iff linux_name (codes "cat /etc/shadow") refl
