-- ===== src/Server/Api/Jobs/Killed.antt =====
-- What a kill that is answered without an error has done, on both sides.
use csl.Prelude.{
  ℕ, Text, Text_Eq, [], ◌∷◌, List, none, some, false, ok, Option, ◌≡◌, arith, refl, Result-cases,
  inl, inr, lookup, text_eq_iff,
}
use csl.Shared.Models.{JobStatusResponse}
use csl.Shared.ScriptMeta.{Numbers}
use csl.Agent.Approvals.Data.{Platform}
use csl.Agent.Runner as AgentRunner
use csl.Agent.Processes.Records.{StateFormat}
use csl.Agent.Processes.Manager as ProcessManager
use csl.Agent.Processes.Killed.{still_runs, kill-ends}
use csl.Agent.Api.Wire.{Agent}
use csl.Agent.Api.App.{dispatch, activity, endpoint}
use csl.Server.Auth.Sessions.{User}
use csl.Server.Core.Crypto.{Aead}
use csl.Server.Core.AgentClient as AgentClient
use csl.Server.Core.AgentClient.{Link, send}
use csl.Server.Api.Jobs.{JobTables, JobRow, find_job}
use csl.Server.Api.Jobs.Client.{Surroundings}
use csl.Server.Api.Jobs.Running.{change_job, ended_by_kill, killable, kill_job}

-- The row after the kill, where there is one.
abbrev killed_row : ℕ → Option JobRow → Option JobRow
killed_row now none = none
killed_row now (some j) = some (ended_by_kill now j)

find_job-ended :
    (uuid : Text) (now : ℕ) (jobs : List JobRow)
    → find_job uuid (change_job uuid (ended_by_kill now) jobs) ≡ killed_row now (find_job uuid jobs)
unfolding find_job change_job ended_by_kill
find_job-ended uuid now [] = refl
find_job-ended uuid now (j ∷ jobs) = ground (arith, find_job-ended uuid now jobs)

module _ (io : Platform) {nums : Numbers} (m : AgentRunner.Machine nums) (fmt : StateFormat) where
  client-killed :
      (link : Link (Agent io.Doc fmt.Doc)) (auth : Text) (n : ℕ) (uuid : Text)
      (a : Agent io.Doc fmt.Doc) {r : JobStatusResponse}
      → (AgentClient.kill io m fmt link auth n uuid a).0 ≡ ok r
      → (AgentClient.kill io m fmt link auth n uuid a).1.processes
        ≡ (ProcessManager.kill fmt (link.moment n).os (link.moment n).now uuid a.processes).1
  unfolding AgentClient.kill send dispatch activity endpoint
  client-killed link auth n uuid a e = ground arith

module _ (io : Platform) {nums : Numbers} (m : AgentRunner.Machine nums) (fmt : StateFormat)
    (aead : Aead) (w : Surroundings (Agent io.Doc fmt.Doc)) where
  -- A kill without an error leaves the job ended on both sides: its row says killed, with the time, and
  -- the agent counts the job among the running ones no more.
  kill_job-ends :
      (uuid : Text) (user : User) (t : JobTables) (a : Agent io.Doc fmt.Doc)
      → (kill_job io m fmt aead w uuid user t a).0 ≡ ok tt
      → (find_job uuid (kill_job io m fmt aead w uuid user t a).1.jobs
          ≡ killed_row w.now (find_job uuid t.jobs))
        × (still_runs (lookup uuid (kill_job io m fmt aead w uuid user t a).2.processes.jobs)
            ≡ false)
  unfolding kill_job
  kill_job-ends uuid user t a e = elim (Result-cases (killable io m fmt aead w uuid t)) [
    | inr (x, k) ↦ absurd (ground arith)
    | inl ((j, auth), k) ↦ elim (Result-cases (AgentClient.kill io m fmt w.link auth 0 uuid a).0) [
      | inr (x, l) ↦ absurd (ground arith)
      | inl (r, l) ↦ ground (
        arith,
        find_job-ended uuid w.now t.jobs,
        client-killed io m fmt w.link auth 0 uuid a l,
        kill-ends fmt (w.link.moment 0).os (w.link.moment 0).now uuid a.processes uuid,
        text_eq_iff uuid uuid,
      )
    ]
  ]
