-- ===== src/Server/Core/Reconciler/Outcome.antt =====
-- What a pass of the reconciler does to one row.
use csl.Prelude.{
  Option-cases, lookup-of-member, unique, inr, ◌∙◌, inl, ap, List, Bool-cases, refl, text_eq_iff,
  ◌||◌, arith, Text_Eq, ◌==◌, if◌then◌else◌, ◌&&◌, ◌≡◌, Option, nat_eq, Dict, lookup, [], ◌∷◌, none,
  some, ℕ, Text, Bool, true, false,
}
use csl.Shared.Models.{pending, running, completed, failed, killed}
use csl.Server.Core.Reconciler.Pass.{
  has_id, reconcile_once, is_active, machine_ids, active_jobs, poll_machines, other_error,
  client_error, answered, change, Poll, Agents, outcome, poll_jobs, Job,
}

abbrev on_row : Bool → (Job → Job) → Option Job → Option Job
on_row b f none = none
on_row b f (some j) = if b then some (f j) else some j

on_row-false : (f : Job → Job) (o : Option Job) → o ≡ on_row false f o
on_row-false f none = refl
on_row-false f (some j) = refl

outcome-twice : (p : Poll) (j : Job) → outcome p (outcome p j) ≡ outcome p j
unfolding outcome
outcome-twice (answered r) j = ground arith
outcome-twice client_error j = refl
outcome-twice other_error j = refl

lookup-change :
    (uuid k : Text) (f : Job → Job) (rows : Dict Text Job)
    → lookup uuid (change k f rows) ≡ on_row (k == uuid) f (lookup uuid rows)
unfolding lookup change
lookup-change uuid k f [] = refl
lookup-change uuid k f ((i, j) ∷ rows) =
    ground
      (arith, lookup-change uuid k f rows, text_eq_iff i uuid, text_eq_iff i k, text_eq_iff k uuid)

on_row-same :
    (b c : Bool) (p q : Poll) (o : Option Job)
    → (b ≡ true → p ≡ q)
    → on_row c (outcome q) (on_row b (outcome p) o) ≡ on_row (b || c) (outcome q) o
on_row-same b c p q none h = refl
on_row-same true true p q (some j) h = rw (h refl) (ap some (outcome-twice q j))
on_row-same true false p q (some j) h = rw (h refl) refl
on_row-same false true p q (some j) h = refl
on_row-same false false p q (some j) h = refl

-- A job of the machine with the number is among the jobs.
unfoldable polled_on : ℕ → Text → Dict Text Job → Bool
polled_on m uuid [] = false
polled_on m uuid ((k, j) ∷ jobs) = (nat_eq j.machine_id m && k == uuid) || polled_on m uuid jobs

lookup-poll_jobs :
    (a : Agents) (m : ℕ) (uuid : Text) (jobs rows : Dict Text Job)
    → lookup uuid (poll_jobs a m jobs rows)
      ≡ on_row (polled_on m uuid jobs) (outcome (a.get_job_status uuid)) (lookup uuid rows)
unfolding poll_jobs polled_on
lookup-poll_jobs a m uuid [] rows =
    on_row-false (outcome (a.get_job_status uuid)) (lookup uuid rows)
lookup-poll_jobs a m uuid ((k, j) ∷ jobs) rows = elim (Bool-cases (nat_eq j.machine_id m)) [
  | inl y ↦ rw y (
      lookup-poll_jobs a m uuid jobs (change k (outcome (a.get_job_status k)) rows)
      ∙ ap (on_row (polled_on m uuid jobs) (outcome (a.get_job_status uuid)))
          (lookup-change uuid k (outcome (a.get_job_status k)) rows)
      ∙ on_row-same (k == uuid) (polled_on m uuid jobs) (a.get_job_status k) (a.get_job_status uuid)
          (lookup uuid rows) (λ h. ap a.get_job_status ((text_eq_iff k uuid).0 h)))
  | inr y ↦ rw y (lookup-poll_jobs a m uuid jobs rows)
]

-- A machine that the pass reaches has a job with the number.
unfoldable polled : Agents → Text → Dict Text Job → List ℕ → Bool
polled a uuid jobs [] = false
polled a uuid jobs (m ∷ machines) =
    (a.has_row m && a.reachable m && polled_on m uuid jobs) || polled a uuid jobs machines

lookup-poll_machines :
    (a : Agents) (uuid : Text) (jobs : Dict Text Job) (machines : List ℕ) (rows : Dict Text Job)
    → lookup uuid (poll_machines a jobs machines rows)
      ≡ on_row (polled a uuid jobs machines) (outcome (a.get_job_status uuid)) (lookup uuid rows)
unfolding poll_machines polled
lookup-poll_machines a uuid jobs [] rows =
    on_row-false (outcome (a.get_job_status uuid)) (lookup uuid rows)
lookup-poll_machines a uuid jobs (m ∷ machines) rows =
    elim (Bool-cases (a.has_row m && a.reachable m)) [
      | inl y ↦ rw y (
          lookup-poll_machines a uuid jobs machines (poll_jobs a m jobs rows)
          ∙ ap (on_row (polled a uuid jobs machines) (outcome (a.get_job_status uuid)))
              (lookup-poll_jobs a m uuid jobs rows)
          ∙ on_row-same (polled_on m uuid jobs) (polled a uuid jobs machines)
              (a.get_job_status uuid) (a.get_job_status uuid) (lookup uuid rows) (λ h. refl))
      | inr y ↦ rw y (lookup-poll_machines a uuid jobs machines rows)
    ]

polled_on-none :
    (m : ℕ) (uuid : Text) (rows : Dict Text Job)
    → lookup uuid rows ≡ none
    → polled_on m uuid (active_jobs rows) ≡ false
unfolding polled_on active_jobs lookup
polled_on-none m uuid [] e = refl
polled_on-none m uuid ((k, j) ∷ rows) e = ground (arith, polled_on-none m uuid rows)

polled_on-some :
    (m : ℕ) (uuid : Text) (rows : Dict Text Job) (j : Job)
    → unique rows ≡ true
    → lookup uuid rows ≡ some j
    → polled_on m uuid (active_jobs rows) ≡ is_active j.status && nat_eq j.machine_id m
unfolding polled_on active_jobs lookup unique
polled_on-some m uuid [] j u e = ground arith
polled_on-some m uuid ((k, i) ∷ rows) j u e = ground (
  arith,
  text_eq_iff k uuid,
  lookup-of-member k rows,
  polled_on-none m uuid rows,
  polled_on-some m uuid rows j,
)

has_id-machine_ids :
    (m : ℕ) (uuid : Text) (jobs : Dict Text Job)
    → polled_on m uuid jobs ≡ true
    → has_id m (machine_ids jobs) ≡ true
unfolding polled_on machine_ids has_id
has_id-machine_ids m uuid [] e = ground arith
has_id-machine_ids m uuid ((k, j) ∷ jobs) e = ground (arith, has_id-machine_ids m uuid jobs)

polled-has_id :
    (a : Agents) (uuid : Text) (jobs : Dict Text Job) (machines : List ℕ) (n : ℕ)
    → has_id n machines ≡ true
    → polled_on n uuid jobs ≡ true
    → a.has_row n && a.reachable n ≡ true
    → polled a uuid jobs machines ≡ true
unfolding polled has_id
polled-has_id a uuid jobs [] n h p r = ground arith
polled-has_id a uuid jobs (m ∷ machines) n h p r =
    ground (arith, polled-has_id a uuid jobs machines n)

polled-only :
    (a : Agents) (uuid : Text) (rows : Dict Text Job) (j : Job) (machines : List ℕ)
    → unique rows ≡ true
    → lookup uuid rows ≡ some j
    → polled a uuid (active_jobs rows) machines ≡ true
    → is_active j.status && a.has_row j.machine_id && a.reachable j.machine_id ≡ true
unfolding polled
polled-only a uuid rows j [] u e p = ground arith
polled-only a uuid rows j (m ∷ machines) u e p =
    ground (arith, polled_on-some m uuid rows j u e, polled-only a uuid rows j machines u e)

abbrev is_due : Agents → Job → Bool
is_due a j = is_active j.status && a.has_row j.machine_id && a.reachable j.machine_id

polled-is_due :
    (a : Agents) (uuid : Text) (rows : Dict Text Job) (j : Job)
    → unique rows ≡ true
    → lookup uuid rows ≡ some j
    → polled a uuid (active_jobs rows) (machine_ids (active_jobs rows)) ≡ is_due a j
polled-is_due a uuid rows j u e =
    let jobs = active_jobs rows in
    ground (
      arith,
      polled_on-some j.machine_id uuid rows j u e,
      has_id-machine_ids j.machine_id uuid jobs,
      polled-has_id a uuid jobs (machine_ids jobs) j.machine_id,
      polled-only a uuid rows j (machine_ids jobs) u e,
    )

-- The row of a job that is due, after its poll: while the agent says pending or running, as it was;
-- ended as the agent says, with its end and exit code; as it was where the client has an error of its
-- own; and failed at any other error, with the end and exit code that it had.
abbrev pub polled_row : Poll → Job → Job
polled_row (answered r) j = elim r.status [
  | pending ↦ j
  | running ↦ j
  | completed ↦ record j { status = completed; ended_at = r.ended_at; exit_code = r.exit_code }
  | failed ↦ record j { status = failed; ended_at = r.ended_at; exit_code = r.exit_code }
  | killed ↦ record j { status = killed; ended_at = r.ended_at; exit_code = r.exit_code }
]
polled_row client_error j = j
polled_row other_error j = record j { status = failed }

-- The jobs that a pass polls: pending or running, on a machine that has a row and is reached.
abbrev pub is_polled : Agents → Job → Bool
is_polled a j = elim j.status [
  | pending ↦ a.has_row j.machine_id && a.reachable j.machine_id
  | running ↦ a.has_row j.machine_id && a.reachable j.machine_id
  | completed ↦ false
  | failed ↦ false
  | killed ↦ false
]

-- The row of a job after a pass.
abbrev pub reconciled : Agents → Text → Option Job → Option Job
reconciled a uuid none = none
reconciled a uuid (some j) =
    if is_polled a j then some (polled_row (a.get_job_status uuid) j) else some j

outcome-polled_row : (p : Poll) (j : Job) → outcome p j ≡ polled_row p j
unfolding outcome
outcome-polled_row (answered r) j = ground arith
outcome-polled_row client_error j = refl
outcome-polled_row other_error j = refl

is_due-is_polled : (a : Agents) (j : Job) → is_due a j ≡ is_polled a j
is_due-is_polled a j = ground arith

-- A pass over all machines, whichever share jobs, does to each row what its own poll says and
-- nothing else: a pending or running job on a machine that is reached takes over the end that the
-- agent reports, stays as it is while the agent reports none or the client has an error of its own,
-- and is failed after any other error; all other rows stay as they are. The rows are those of the
-- table: no two with the same number.
pub lookup-reconcile_once :
    (a : Agents) (uuid : Text) (rows : Dict Text Job)
    → unique rows ≡ true
    → lookup uuid (reconcile_once a rows) ≡ reconciled a uuid (lookup uuid rows)
unfolding reconcile_once
lookup-reconcile_once a uuid rows u =
    let jobs = active_jobs rows in
    lookup-poll_machines a uuid jobs (machine_ids jobs) rows
    ∙ elim (Option-cases (lookup uuid rows)) [
      | inl e ↦ rw e refl
      | inr (j, e) ↦
          rw
            (
              e,
              polled-is_due a uuid rows j u e,
              is_due-is_polled a j,
              outcome-polled_row (a.get_job_status uuid) j,
            )
            (ground arith)
    ]
