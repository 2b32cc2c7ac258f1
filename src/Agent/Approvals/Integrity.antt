-- ===== src/Agent/Approvals/Integrity.antt =====
-- Approved content is the content whose MD5 was approved.
use csl.Prelude.{
  Option-cases, all, List, member, lookup-erase, ap, lookup-insert, ◌==◌, inr, inl, text_eq,
  Bool-cases, if◌then◌else◌, ℕ, Text, Text_Eq, Bool, true, false, Option, none, some, ◌≡◌, arith,
  lookup, text_eq_iff,
}
use csl.Agent.Approvals.Data.{
  state_of, rejected_record, cli, approved_record, Platform, Host, ScriptRecord, is_auto,
}
use csl.Agent.Approvals.Files.{
  scripts-remove, pending-remove, NoMeta, Matches, MatchesAt, pending-write, scripts-write,
  pending-promote, scripts-promote,
}
use csl.Agent.Approvals.Manager.{
  already_staged, list_all, get_state, clear, reject, approve, sync_from_disk, reject_record,
  clear_record, stage, approve_record, save, stage_write, staged_record,
}
use csl.Agent.Approvals.Disk.{write_pending}
use csl.Agent.Approvals.Run.{
  ask_all, ask, clear_it, reject_it, approve_it, run_induction, run, store-sync, stage_it, Request,
  IsSynced, step,
}
use csl.Shared.Models.{rejected, ApprovalState-discrete}
use csl.Agent.Approvals.Audited.{stage_anew, stage_again, stage_refused}

staged-Matches :
    (hash : Text → Text) (found : Option ScriptRecord) (by_policy : Bool) (content : Text) (now : ℕ)
    (p s : Option Text)
    → Matches hash found p s
    → Matches hash
        (some (staged_record found by_policy (hash content) now))
        (if by_policy then none else some content)
        (if by_policy then some content else s)
unfolding staged_record
staged-Matches hash none true content now p s m = ground arith
staged-Matches hash none false content now p s m = ground arith
staged-Matches hash (some r) true content now p s m = ground arith
staged-Matches hash (some r) false content now p s m = ground arith

module _ (io : Platform) (j : Text) (plain : NoMeta j) (name content md5 : Text)
    (meta : Option Text) (now : ℕ) (h : Host io.Doc) where
  store-stage_write :
      (found : Option ScriptRecord)
      → lookup j (stage_write io name content md5 meta now found h).1.manager.store ≡ (
          if name == j
          then some (staged_record found (is_auto name h.manager.auto_approve) md5 now)
          else lookup j h.manager.store)
  unfolding stage_write save
  store-stage_write found =
      let r = staged_record found (is_auto name h.manager.auto_approve) md5 now in
      ground (arith, lookup-insert name j r h.manager.store)

  pending-stage_write :
      (found : Option ScriptRecord)
      → lookup j (stage_write io name content md5 meta now found h).1.disk.pending_dir ≡ (
          if name == j
          then (if is_auto name h.manager.auto_approve then none else some content)
          else lookup j h.disk.pending_dir)
  unfolding stage_write save
  pending-stage_write found = ground (
    arith,
    pending-write j name h.disk plain content meta,
    pending-promote j name (write_pending name content meta h.disk) plain,
  )

  scripts-stage_write :
      (found : Option ScriptRecord)
      → lookup j (stage_write io name content md5 meta now found h).1.disk.scripts_dir ≡ (
          if name == j
          then (if is_auto name h.manager.auto_approve
              then some content
              else lookup j h.disk.scripts_dir)
          else lookup j h.disk.scripts_dir)
  unfolding stage_write save
  scripts-stage_write found =
      let d = write_pending name content meta h.disk in
      ground (
        arith,
        text_eq_iff name j,
        ap (lookup j) (scripts-write j name h.disk plain content meta),
        pending-write j name h.disk plain content meta,
        scripts-promote j name d plain,
      )

module _ (io : Platform) (hash : Text → Text) (j : Text) (plain : NoMeta j) where
  stage_write_matches :
      (name content : Text) (meta : Option Text) (now : ℕ) (h : Host io.Doc)
      → MatchesAt hash j h
      → MatchesAt hash j
          (stage_write io name content (hash content) meta now (lookup name h.manager.store) h).1
  stage_write_matches name content meta now h m =
      let found = lookup name h.manager.store in
      rw
        (
          store-stage_write io j plain name content (hash content) meta now h found,
          pending-stage_write io j plain name content (hash content) meta now h found,
          scripts-stage_write io j plain name content (hash content) meta now h found,
        )
        (elim (Bool-cases (text_eq name j)) [
          | inl same ↦
              rw (same, (text_eq_iff name j).0 same)
                (staged-Matches hash (lookup j h.manager.store) (is_auto j h.manager.auto_approve)
                  content now (lookup j h.disk.pending_dir) (lookup j h.disk.scripts_dir) m)
          | inr other ↦ rw other m
        ])

  approve_matches :
      (name : Text) (now : ℕ) (r : ScriptRecord) (h : Host io.Doc)
      → lookup name h.manager.store ≡ some r
      → MatchesAt hash j h
      → MatchesAt hash j (approve_record io name now r h).1
  unfolding approve_record save member
  approve_matches name now r h e m = ground (
    arith,
    text_eq_iff name j,
    pending-promote j name h.disk plain,
    scripts-promote j name h.disk plain,
    lookup-insert name j (approved_record r.pending_md5 now cli) h.manager.store,
  )

  reject_matches :
      (name : Text) (now : ℕ) (r : ScriptRecord) (h : Host io.Doc)
      → MatchesAt hash j h
      → MatchesAt hash j (reject_record io name now r h).1
  unfolding reject_record save
  reject_matches name now r h m = ground (
    arith,
    pending-remove j name h.disk plain,
    scripts-remove j name h.disk plain,
    lookup-insert name j (rejected_record now) h.manager.store,
  )

  clear_matches :
      (name : Text) (now : ℕ) (r : ScriptRecord) (h : Host io.Doc)
      → MatchesAt hash j h
      → MatchesAt hash j (clear_record io name now r h).1
  unfolding clear_record save
  clear_matches name now r h m = ground (
    arith,
    pending-remove j name h.disk plain,
    scripts-remove j name h.disk plain,
    lookup-erase name j h.manager.store,
  )

  stage_matches :
      (name content md5 : Text) (meta : Option Text) (now : ℕ) (h : Host io.Doc)
      → md5 ≡ hash content
      → MatchesAt hash j h
      → MatchesAt hash j (stage io name content md5 meta now h).1
  stage_matches name content md5 meta now h t m =
      elim (ApprovalState-discrete (state_of (lookup name h.manager.store)) rejected) [
        | yes y ↦ rw (stage_refused io name content md5 meta now h y) m
        | no n ↦ elim (Option-cases (already_staged (lookup name h.manager.store) md5)) [
          | inr (u, e) ↦ rw (stage_again io name content md5 meta now h n e) m
          | inl e ↦
              rw (stage_anew io name content md5 meta now h n e, t)
                (stage_write_matches name content meta now h m)
        ]
      ]

  sync_matches :
      (h : Host io.Doc)
      → IsSynced io h
      → MatchesAt hash j h
      → MatchesAt hash j (sync_from_disk io h)
  sync_matches h s m = rw (store-sync io h s) (unfold sync_from_disk in ground arith)

  -- A request that names the true MD5 of what it stages.
  abbrev pub is_honest : Request → Bool
  is_honest (stage_it name content md5 meta) = text_eq md5 (hash content)
  is_honest _ = true

  step_matches :
      (q : Request) (now : ℕ) (h : Host io.Doc)
      → is_honest q ≡ true
      → IsSynced io h
      → MatchesAt hash j h
      → MatchesAt hash j (step io q now h)
  unfolding step approve reject clear get_state list_all
  step_matches (stage_it name content md5 meta) now h a s m =
      stage_matches name content md5 meta now h ((text_eq_iff md5 (hash content)).0 a) m
  step_matches (approve_it name) now h a s m = elim (Option-cases (lookup name h.manager.store)) [
    | inl e ↦ rw (e, step, approve) m
    | inr (r, e) ↦ rw (e, step, approve) (approve_matches name now r h e m)
  ]
  step_matches (reject_it name) now h a s m = elim (Option-cases (lookup name h.manager.store)) [
    | inl e ↦ rw (e, step, reject) m
    | inr (r, e) ↦ rw (e, step, reject) (reject_matches name now r h m)
  ]
  step_matches (clear_it name) now h a s m = elim (Option-cases (lookup name h.manager.store)) [
    | inl e ↦ rw (e, step, clear) m
    | inr (r, e) ↦ rw (e, step, clear) (clear_matches name now r h m)
  ]
  step_matches (ask name) now h a s m = sync_matches h s m
  step_matches ask_all now h a s m = sync_matches h s m

  -- Let the host's memory match its file, every staging request of a run name the MD5 of its content, and let `j` be no metadata
  -- file's name. If the MD5s on record match the files of `j` before the run, they do after it: the
  -- file in the scripts directory has the approved MD5, and the file in the pending one the pending.
  pub run_matches :
      (qs : List (Request × ℕ)) (h : Host io.Doc)
      → all (λ (q, now). is_honest q) qs ≡ true
      → IsSynced io h
      → MatchesAt hash j h
      → MatchesAt hash j (run io qs h)
  run_matches = run_induction io (MatchesAt hash j) is_honest step_matches
