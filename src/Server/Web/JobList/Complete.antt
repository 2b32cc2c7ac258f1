-- ===== src/Server/Web/JobList/Complete.antt =====
-- All pages of the jobs together.
use csl.Server.Api.Machines.Access.{is_ok, list_machines-get_machine}
use csl.Prelude.{
  distinct_by, nat_eq, ◌∙◌, false, not, true, drop, take, ap, ltb, pos, if◌then◌else◌, filter,
  length, Bool, List, ℕ, [], ◌∷◌, some, suc, ◌≡◌, ◌+◌, ◌*◌, ◌-◌, arith, refl,
}
use csl.Server.Auth.Sessions.{User}
use csl.Server.Api.Jobs.Running.{order_by_started, insert_row}
use csl.Server.Api.Jobs.{JobTables, JobRow}
use csl.Server.Web.JobList.{
  machine_tables, is_accessible, job_page_size, is_listed, page_number, jobs_page, JobFilter,
}
use csl.Server.Api.Audit.Complete.{length-filter, count}
use csl.Server.Api.Audit.{page_at, page_number}
use csl.Server.Api.Audit.Pages.{follow-drop, follow, page_at-rest}
use csl.Server.Api.Machines.{get_machine}

count-insert_row :
    (p : JobRow → Bool) (j : JobRow) (jobs : List JobRow)
    → count p (insert_row j jobs) ≡ (if p j then 1 else 0) + count p jobs
unfolding insert_row
count-insert_row p j [] = refl
count-insert_row p j (i ∷ jobs) = ground (arith, count-insert_row p j jobs)

count-order_by_started :
    (p : JobRow → Bool) (jobs : List JobRow) → count p (order_by_started jobs) ≡ count p jobs
unfolding order_by_started
count-order_by_started p [] = refl
count-order_by_started p (j ∷ jobs) =
    ground (arith, count-insert_row p j (order_by_started jobs), count-order_by_started p jobs)

length-insert_row :
    (j : JobRow) (jobs : List JobRow) → length (insert_row j jobs) ≡ suc (length jobs)
unfolding insert_row
length-insert_row j [] = refl
length-insert_row j (i ∷ jobs) = ground (arith, length-insert_row j jobs)

length-order_by_started : (jobs : List JobRow) → length (order_by_started jobs) ≡ length jobs
unfolding order_by_started
length-order_by_started [] = refl
length-order_by_started (j ∷ jobs) =
    ground (arith, length-insert_row j (order_by_started jobs), length-order_by_started jobs)

count-filter_none {ℓ} :
    {A : Type ℓ} (p q : A → Bool)
    → ((x : A) → p x ≡ true → q x ≡ false)
    → (xs : List A) → count q (filter p xs) ≡ 0
unfolding filter
count-filter_none p q f [] = refl
count-filter_none p q f (x ∷ xs) = ground (arith, f x, count-filter_none p q f xs)

further : (o n : ℕ) → ltb (o + job_page_size) n ≡ ltb job_page_size (n - o)
further o n = ground arith

-- No two jobs have started at the same time.
abbrev pub distinct_times : List JobRow → Bool
distinct_times = distinct_by (λ i j. nat_eq i.started_at j.started_at)

-- A database puts rows of different times in their one order, latest first, in every query.
abbrev pub IsOrdering : (ℕ → List JobRow → List JobRow) → Type 0
IsOrdering ordered =
    (k : ℕ) (rows : List JobRow)
    → distinct_times rows ≡ true
    → ordered k rows ≡ order_by_started rows

module _ (ordered : ℕ → List JobRow → List JobRow) (law : IsOrdering ordered) (user : User)
    (f : JobFilter) (t : JobTables)
    (distinct : distinct_times (filter (is_listed user f t) t.jobs) ≡ true) where
  abbrev listed_jobs : List JobRow
  listed_jobs = filter (is_listed user f t) t.jobs

  -- The k-th page after the first, with what the button shows.
  abbrev pub turned : ℕ → List JobRow × Bool
  turned k = let p = jobs_page (ordered k) user f (pos (suc k)) t in (p.rows, p.has_next)

  -- The count agrees with one row more than a page.
  turned-page_at :
      (k : ℕ) → turned k ≡ page_at job_page_size (k * job_page_size) (order_by_started listed_jobs)
  unfolding jobs_page page_number
  turned-page_at k =
      let shifted : (suc k - 1) * job_page_size ≡ k * job_page_size = omega arith in
      rw
        (
          shifted,
          law k listed_jobs distinct,
          page_at-rest job_page_size (k * job_page_size) (order_by_started listed_jobs),
          length-order_by_started listed_jobs,
        )
        (ap
          (λ more.
            (take job_page_size (drop (k * job_page_size) (order_by_started listed_jobs)), more))
          (further (k * job_page_size) (length listed_jobs)))

  abbrev hidden : JobRow → Bool
  hidden j = not (is_ok (get_machine j.machine_id user (machine_tables t)))

  listed-gets : (j : JobRow) → is_listed user f t j ≡ true → hidden j ≡ false
  unfolding is_listed is_accessible
  listed-gets j h = ground (arith, list_machines-get_machine j.machine_id user (machine_tables t))

  -- Where no two jobs that the filters ask for have started at the same time, whoever turns the pages of
  -- the jobs from the first on comes to an end, after no more pages than there
  -- are jobs and one. He has then seen the jobs that the filters ask for, of the machines that he has
  -- access to, each as often as it is in the table, and none of a machine that he does not get.
  pub jobs_page-follow :
      (rows : List JobRow) × (follow turned suc (suc (length t.jobs)) 0 ≡ some rows)
      × ((p : JobRow → Bool) → count p rows ≡ count p (filter (is_listed user f t) t.jobs))
      × (count (λ j. not (is_ok (get_machine j.machine_id user (machine_tables t)))) rows ≡ 0)
  jobs_page-follow = (
    order_by_started listed_jobs,
    follow-drop job_page_size (order_by_started listed_jobs) turned suc (λ k. k * job_page_size)
        turned-page_at (λ k. omega arith) (omega arith) (length t.jobs) 0
        (ground
          (arith, length-order_by_started listed_jobs, length-filter (is_listed user f t) t.jobs)),
    λ p. count-order_by_started p listed_jobs,
    count-order_by_started hidden listed_jobs
        ∙ count-filter_none (is_listed user f t) hidden listed-gets t.jobs,
  )
