-- ===== src/Server/Api/Jobs/Refused.antt =====
-- What a submission that is refused leaves behind, and with which status it is answered.
use csl.Prelude.{
  ℕ, Text, Text_Eq, [], ◌∷◌, ◌++◌, List, true, false, ok, err, Bool, any, nat_eq, Result, ◌≡◌,
  arith, refl, Result-cases, inl, inr,
}
use csl.Shared.Models.{ApprovalState, approved, absent, update_pending, rejected}
use csl.Server.Core.ScriptSync.Sync.{agent_state, approved_stale}
use csl.Shared.ScriptMeta.{Numbers}
use csl.Shared.Models.{JobRequest}
use csl.Agent.Approvals.Data.{Platform}
use csl.Agent.Params.{Params}
use csl.Agent.Runner as AgentRunner
use csl.Agent.Processes.Records.{StateFormat}
use csl.Agent.Api.Wire.{Agent, HttpError}
use csl.Server.Core.Crypto.{Aead}
use csl.Server.Core.Errors.{HttpException}
use csl.Server.Core.Registry.Table.{ScriptRow}
use csl.Server.Core.ScriptSync.Remote.{sync_script_over}
use csl.Server.Core.ScriptSync.Sync.{TargetState}
use csl.Server.Core.AgentClient as AgentClient
use csl.Server.Core.AgentClient.{ClientError, Link, ensure_agent_running, submit_error, send}
use csl.Server.Api.Jobs.{JobTables, JobRow, approval_error_response}
use csl.Server.Api.Jobs.Client.{
  platform_name, auth_header, opened, SubmitJobIn, script_of, Surroundings,
}
use csl.Server.Api.Jobs.Submit.{
  request_of, submit_awake, submit_over, submit_resolved, admission, submit_job, submit_synced,
  submit_failed,
}
use csl.Server.Api.Machines.{assert_access, get_machine_or_404, Machine}
use csl.Server.Auth.Sessions.{User}

-- The statuses of a refusal: no access, nothing found, not approved, not valid, or an internal error.
abbrev pub refusal_statuses : List ℕ
refusal_statuses = 403 ∷ 404 ∷ 409 ∷ 422 ∷ 500 ∷ []

abbrev pub is_refusal : HttpException → Bool
is_refusal e = any (λ s. nat_eq s e.status_code) refusal_statuses

-- The exceptions that the client's `submit_job` raises.
abbrev raised : ClientError → Bool
raised (AgentClient.approval_error state) = true
raised AgentClient.agent_validation_error = true
raised AgentClient.http_failure = true
raised AgentClient.no_start_command = false
raised AgentClient.agent_not_reachable = false
raised AgentClient.ssh_failure = false

submit_error-raised : (e : HttpError) → raised (submit_error e) ≡ true
unfolding submit_error
submit_error-raised e = ground arith

approval_error_response-is_refusal :
    (s : TargetState) → is_refusal (approval_error_response s) ≡ true
unfolding approval_error_response any
approval_error_response-is_refusal s = ground arith

-- An answer that is a job comes with its row; any other is a refusal and comes with none.
abbrev pub Answers : List JobRow → Result HttpException JobRow → List JobRow → Type 0
Answers jobs (ok j) after = after ≡ jobs ++ (j ∷ [])
Answers jobs (err e) after = (after ≡ jobs) × (is_refusal e ≡ true)

module _ (io : Platform) {nums : Numbers} (m : AgentRunner.Machine nums) (fmt : StateFormat) where
  client-raised :
      (link : Link (Agent io.Doc fmt.Doc)) (auth : Text) (n : ℕ)
      (body : JobRequest (Params nums.Number)) (a : Agent io.Doc fmt.Doc) {x : ClientError}
      → (AgentClient.submit_job io m fmt link auth n body a).0 ≡ err x
      → raised x ≡ true
  unfolding AgentClient.submit_job
  client-raised link auth n body a e = grind (arith, submit_error-raised)

module _ (io : Platform) {nums : Numbers} (m : AgentRunner.Machine nums) (fmt : StateFormat)
    (aead : Aead) (dumps : Params nums.Number → Text)
    (w : Surroundings (Agent io.Doc fmt.Doc)) where
  submit_failed-Answers :
      (auth : Text) (machine_id : ℕ) (body : SubmitJobIn (Params nums.Number)) (row : ScriptRow)
      (x : ClientError) (t : JobTables) (a : Agent io.Doc fmt.Doc)
      → raised x ≡ true
      → let (r, u, b) = submit_failed io m fmt aead dumps w auth machine_id body row x t a in
        Answers t.jobs r u.jobs
  unfolding submit_failed any
  submit_failed-Answers auth machine_id body row AgentClient.agent_validation_error t a h =
      (refl, refl)
  submit_failed-Answers auth machine_id body row AgentClient.http_failure t a h = (refl, refl)
  submit_failed-Answers auth machine_id body row (AgentClient.approval_error state) t a h =
      elim (Result-cases
        (sync_script_over io m fmt w.link auth 8 machine_id (script_of body.script_name row) w.now a
          t.target_states).0) [
            | inl (s, k) ↦ rw (submit_failed, k) (refl, approval_error_response-is_refusal s)
            | inr (e, k) ↦ rw (submit_failed, k) (refl, refl)
          ]
  submit_failed-Answers auth machine_id body row AgentClient.no_start_command t a h =
      absurd (ground arith)
  submit_failed-Answers auth machine_id body row AgentClient.agent_not_reachable t a h =
      absurd (ground arith)
  submit_failed-Answers auth machine_id body row AgentClient.ssh_failure t a h =
      absurd (ground arith)

  submit_synced-Answers :
      (auth : Text) (machine_id : ℕ) (body : SubmitJobIn (Params nums.Number)) (row : ScriptRow)
      (user : User) (t : JobTables) (a : Agent io.Doc fmt.Doc)
      → let (r, u, b) = submit_synced io m fmt aead dumps w auth machine_id body row user t a in
        Answers t.jobs r u.jobs
  unfolding submit_synced
  submit_synced-Answers auth machine_id body row user t a =
      let job = request_of io m fmt aead dumps w body row in
      elim (Result-cases (AgentClient.submit_job io m fmt w.link auth 7 job a).0) [
        | inl (r, k) ↦ rw (submit_synced, k) refl
        | inr (x, k) ↦
            rw (submit_synced, k)
              (submit_failed-Answers auth machine_id body row x t
                (AgentClient.submit_job io m fmt w.link auth 7 job a).1
                (client-raised io m fmt w.link auth 7 job a k))
      ]

  submit_resolved-Answers :
      (auth : Text) (machine_id : ℕ) (body : SubmitJobIn (Params nums.Number)) (row : ScriptRow)
      (user : User) (s : TargetState) (t : JobTables) (a : Agent io.Doc fmt.Doc)
      → let (r, u, b) = submit_resolved io m fmt aead dumps w auth machine_id body row user s t a in
        Answers t.jobs r u.jobs
  unfolding submit_resolved any approval_error_response
  submit_resolved-Answers auth machine_id body row user (agent_state approved) t a =
      submit_synced-Answers auth machine_id body row user t a
  submit_resolved-Answers auth machine_id body row user (agent_state absent) t a = (refl, refl)
  submit_resolved-Answers auth machine_id body row user (agent_state ApprovalState.pending) t a =
      (refl, refl)
  submit_resolved-Answers auth machine_id body row user (agent_state update_pending) t a =
      (refl, refl)
  submit_resolved-Answers auth machine_id body row user (agent_state rejected) t a = (refl, refl)
  submit_resolved-Answers auth machine_id body row user approved_stale t a = (refl, refl)

  submit_awake-Answers :
      (auth : Text) (machine_id : ℕ) (body : SubmitJobIn (Params nums.Number)) (row : ScriptRow)
      (user : User) (t : JobTables) (a : Agent io.Doc fmt.Doc)
      → let (r, u, b) = submit_awake io m fmt aead dumps w auth machine_id body row user t a in
        Answers t.jobs r u.jobs
  unfolding submit_awake any
  submit_awake-Answers auth machine_id body row user t a =
      let (resolved, b, rows) =
        sync_script_over io m fmt w.link auth 5 machine_id (script_of body.script_name row) w.now a
          t.target_states in
      elim (Result-cases resolved) [
        | inl (s, k) ↦
            rw (submit_awake, k)
              (submit_resolved-Answers auth machine_id body row user s
                (record t { target_states = rows }) b)
        | inr (x, k) ↦ rw (submit_awake, k) (refl, refl)
      ]

  submit_over-Answers :
      (auth : Text) (machine_id : ℕ) (machine : Machine) (body : SubmitJobIn (Params nums.Number))
      (row : ScriptRow) (user : User) (t : JobTables) (a : Agent io.Doc fmt.Doc)
      → let (r, u, b) =
          submit_over io m fmt aead dumps w auth machine_id machine body row user t a in
        Answers t.jobs r u.jobs
  unfolding submit_over any
  submit_over-Answers auth machine_id machine body row user t a =
      let (up, b) = ensure_agent_running io m fmt w.link auth (platform_name machine.platform) a in
      elim (Result-cases up) [
        | inl (u, k) ↦ rw (submit_over, k) (submit_awake-Answers auth machine_id body row user t b)
        | inr (x, k) ↦ rw (submit_over, k) (refl, refl)
      ]

  admission-is_refusal :
      (machine_id : ℕ) (body : SubmitJobIn (Params nums.Number)) (user : User) (t : JobTables)
      {e : HttpException}
      → admission io m fmt aead dumps w machine_id body user t ≡ err e
      → is_refusal e ≡ true
  unfolding admission opened auth_header get_machine_or_404 assert_access any
  admission-is_refusal machine_id body user t e = ground arith

  -- A submission is answered with a job, whose row then comes behind the others, or with a refusal, which
  -- leaves the jobs as they were; and a refusal has one of five statuses, of which that of an agent that
  -- cannot be reached, 502, is none.
  pub submit_job-Answers :
      (machine_id : ℕ) (body : SubmitJobIn (Params nums.Number)) (user : User) (t : JobTables)
      (a : Agent io.Doc fmt.Doc)
      → let (r, u, b) = submit_job io m fmt aead dumps w machine_id body user t a in
        Answers t.jobs r u.jobs
  unfolding submit_job
  submit_job-Answers machine_id body user t a =
      elim (Result-cases (admission io m fmt aead dumps w machine_id body user t)) [
        | inl ((machine, row, auth), k) ↦
            rw (submit_job, k) (submit_over-Answers auth machine_id machine body row user t a)
        | inr (x, k) ↦ rw (submit_job, k) (refl, admission-is_refusal machine_id body user t k)
      ]
