-- ===== src/Agent/Api/Expected.antt =====
-- What an accepted job runs.
use csl.Prelude.{
  sym, Bool-cases, subst, opt_eq_iff, none, ◌∙◌, inr, inl, Result-cases, true, ok, some, List,
  Text_Eq, lookup, ap, arith, Text, ◌≡◌,
}
use csl.Agent.Approvals.Data.{describe, Host, Platform}
use csl.Shared.ScriptMeta.{Numbers}
use csl.Agent.Runner.{Machine}
use csl.Agent.Processes.Records.{StateFormat}
use csl.Agent.Approvals.Manager.{same_sig, get_state, sync_from_disk}
use csl.Agent.Api.Jobs.{check_expected, submit_job, submit_once, submit_persistent}
use csl.Agent.Params.{Params}
use csl.Shared.Models.{JobStatusResponse, JobRequest}
use csl.Agent.Api.Wire.{Agent, Moment}
use csl.Agent.Processes.Start.{is_ok}
use csl.Agent.Runner.Guards.{prepare-IsGuarded, IsGuarded}
use csl.Agent.Api.Executed.{
  prepared_job, Executed, RunsGuarded, RunsContent, submit_once-prepared,
  submit_persistent-prepared, submit_persistent-Executed, submit_once-Executed,
}

module _ (io : Platform) {nums : Numbers} (m : Machine nums) (fmt : StateFormat) where
  sync_from_disk-twice :
      (h : Host io.Doc) → sync_from_disk io (sync_from_disk io h) ≡ sync_from_disk io h
  unfolding sync_from_disk same_sig
  sync_from_disk-twice h = ground arith

  get_state-twice :
      (name : Text) (h : Host io.Doc)
      → get_state io name (get_state io name h).1 ≡ get_state io name h
  unfolding get_state
  get_state-twice name h =
      ap (λ g. (describe name (lookup name g.manager.store), g)) (sync_from_disk-twice h)

  check_expected-passed :
      (body : JobRequest (Params nums.Number)) (a : Agent io.Doc fmt.Doc) (md5 : Text)
      → body.expected_md5 ≡ some md5
      → (check_expected io m fmt body a).0 ≡ none
      → (get_state io body.script_name a.host).0.approved_md5 ≡ some md5
  unfolding check_expected
  check_expected-passed body a md5 e k =
      ground (arith, opt_eq_iff (get_state io body.script_name a.host).0.approved_md5 (some md5))

  check_expected-host :
      (body : JobRequest (Params nums.Number)) (a : Agent io.Doc fmt.Doc) (md5 : Text)
      → body.expected_md5 ≡ some md5
      → (check_expected io m fmt body a).1.host ≡ (get_state io body.script_name a.host).1
  unfolding check_expected
  check_expected-host body a md5 e = ground arith

  submit_job-passed :
      (w : Moment) (body : JobRequest (Params nums.Number)) (a : Agent io.Doc fmt.Doc)
      {r : JobStatusResponse}
      → (submit_job io m fmt w body a).0 ≡ ok r
      → (check_expected io m fmt body a).0 ≡ none
  unfolding submit_job
  submit_job-passed w body a k = ground arith

  submit_job-prepared :
      (w : Moment) (body : JobRequest (Params nums.Number)) (a : Agent io.Doc fmt.Doc)
      {r : JobStatusResponse}
      → (submit_job io m fmt w body a).0 ≡ ok r
      → is_ok (prepared_job io m fmt body (check_expected io m fmt body a).1.host) ≡ true
  unfolding submit_job
  submit_job-prepared w body a k =
      grind (arith, submit_once-prepared io m fmt, submit_persistent-prepared io m fmt)

  submit_job-Executed :
      (w : Moment) (body : JobRequest (Params nums.Number)) (a : Agent io.Doc fmt.Doc) {f : Text}
      {c : List Text} {r : JobStatusResponse}
      → prepared_job io m fmt body (check_expected io m fmt body a).1.host ≡ ok (f, c)
      → (submit_job io m fmt w body a).0 ≡ ok r
      → Executed io m fmt w body c r (submit_job io m fmt w body a).1
  unfolding submit_job
  submit_job-Executed w body a {f} {c} {r} p k =
      let passed = submit_job-passed w body a k in
      let b = (check_expected io m fmt body a).1 in
      elim (Bool-cases body.persistent) [
        | inl y ↦
            let same : (submit_job io m fmt w body a).1 ≡ (submit_persistent io m fmt w body b).1 =
              ground arith in
            subst (Executed io m fmt w body c r) (sym same)
              (submit_persistent-Executed io m fmt w body b {f = f} r y p)
        | inr y ↦
            let same : submit_job io m fmt w body a ≡ submit_once io m fmt w body b =
              ground arith in
            subst (λ q. Executed io m fmt w body c r q.1) (sym same)
              (submit_once-Executed io m fmt w body b {f = f} {r = r} y p (ground arith))
      ]

  submit_job-ran :
      (w : Moment) (body : JobRequest (Params nums.Number)) (a : Agent io.Doc fmt.Doc)
      {r : JobStatusResponse}
      → (submit_job io m fmt w body a).0 ≡ ok r
      → RunsGuarded io m fmt w body
          (check_expected io m fmt body a).1.host
          r
          (submit_job io m fmt w body a).1
  submit_job-ran w body a {r} k =
      let h = (check_expected io m fmt body a).1.host in
      let (d, h') = get_state io body.script_name h in
      let prepared = submit_job-prepared w body a k in
      elim (Result-cases (prepared_job io m fmt body h)) [
        | inl ((f, c), p) ↦ (
          f,
          c,
          prepare-IsGuarded m body.script_name body.params d h'.disk.scripts_dir p,
          submit_job-Executed w body a {f = f} p k,
        )
        | inr (x, p) ↦ absurd (ground arith)
      ]

  -- A job that is accepted without an expected MD5 is guarded and executed all the same.
  pub submit_job-RunsGuarded :
      (w : Moment) (body : JobRequest (Params nums.Number)) (a : Agent io.Doc fmt.Doc)
      {r : JobStatusResponse}
      → body.expected_md5 ≡ none
      → (submit_job io m fmt w body a).0 ≡ ok r
      → RunsGuarded io m fmt w body a.host r (submit_job io m fmt w body a).1
  submit_job-RunsGuarded w body a {r} e k =
      let same : (check_expected io m fmt body a).1.host ≡ a.host =
        unfold check_expected in ground arith in
      subst (λ h. RunsGuarded io m fmt w body h r (submit_job io m fmt w body a).1) same
        (submit_job-ran w body a k)

  -- A job that is accepted with an expected MD5 has been executed: the command is for a file with
  -- exactly that MD5, of an approved script and with parameters that pass, as they are when the
  -- request comes in. A persistent job is kept with the process of this command; any other has run
  -- to its end, and the answer has its exit code and the log its output.
  pub submit_job-RunsContent :
      (w : Moment) (body : JobRequest (Params nums.Number)) (a : Agent io.Doc fmt.Doc) (md5 : Text)
      {r : JobStatusResponse}
      → body.expected_md5 ≡ some md5
      → (submit_job io m fmt w body a).0 ≡ ok r
      → RunsContent io m fmt w body a.host md5 r (submit_job io m fmt w body a).1
  submit_job-RunsContent w body a md5 {r} e k =
      let passed = check_expected-passed body a md5 e (submit_job-passed w body a k) in
      let same =
        ap (get_state io body.script_name) (check_expected-host body a md5 e)
        ∙ get_state-twice body.script_name a.host in
      let (f, c, g, x) =
        subst
          (λ q.
            (script_file : Text) × (command : List Text) × IsGuarded m body.script_name body.params
              q.0 q.1.disk.scripts_dir script_file command
            × Executed io m fmt w body command r (submit_job io m fmt w body a).1)
          same (submit_job-ran w body a k) in
      (f, c, g, ground (arith, g.intact, passed), x)
