-- ===== src/Agent/Approvals/Shape.antt =====
-- Which fields of a record are set, by its state.
use csl.Prelude.{
  all-true, member, not, List, ◌&&◌, ℕ, Text, Text_Eq, Bool, true, false, Option, none, some, ◌≡◌,
  refl, arith, lookup, text_eq_iff,
}
use csl.Shared.Models.{absent, pending, approved, update_pending, rejected}
use csl.Agent.Approvals.Data.{is_auto, Platform, Host, ScriptRecord}
use csl.Agent.Approvals.Run.{
  ask_all, ask, clear_it, reject_it, store-step, approve_it, run_induction, stage_it, run, IsSynced,
  record_after, Request,
}
use csl.Agent.Approvals.Effects.{staged, rejected_from, approved_from}
use csl.Agent.Approvals.Manager.{staged_record, already_staged}

abbrev is_set {ℓ} : {A : Type ℓ} → Option A → Bool
is_set none = false
is_set (some a) = true

-- An approved version has an MD5, a time and a channel; a pending one has an MD5; a rejection has a
-- time. Nothing else is set, and an absent script has no record.
abbrev pub well_formed : Option ScriptRecord → Bool
well_formed none = true
well_formed (some r) = elim r.state [
  | absent ↦ false
  | pending ↦ not is_approved && no_trace && is_set r.pending_md5 && not (is_set r.rejected_at)
  | approved ↦ is_approved && not (is_set r.pending_md5) && not (is_set r.rejected_at)
  | update_pending ↦ is_approved && is_set r.pending_md5 && not (is_set r.rejected_at)
  | rejected ↦ no_trace && not (is_set r.pending_md5) && is_set r.rejected_at
]
  where
    is_approved : Bool
    is_approved = is_set r.approved_md5 && is_set r.approved_at && is_set r.approved_via

    no_trace : Bool
    no_trace =
        not (is_set r.approved_md5) && not (is_set r.approved_at) && not (is_set r.approved_via)

staged-well_formed :
    (found : Option ScriptRecord) (by_policy : Bool) (md5 : Text) (now : ℕ)
    → well_formed found ≡ true
    → well_formed (staged found by_policy md5 now) ≡ true
unfolding already_staged staged_record
staged-well_formed none true md5 now w = ground arith
staged-well_formed none false md5 now w = ground arith
staged-well_formed (some r) true md5 now w = ground arith
staged-well_formed (some r) false md5 now w = ground arith

approved_well_formed :
    (found : Option ScriptRecord) (there : Bool) (now : ℕ)
    → well_formed found ≡ true
    → well_formed (approved_from found there now) ≡ true
approved_well_formed none there now w = refl
approved_well_formed (some r) there now w = ground arith

rejected_well_formed :
    (found : Option ScriptRecord) (now : ℕ)
    → well_formed found ≡ true
    → well_formed (rejected_from found now) ≡ true
rejected_well_formed none now w = refl
rejected_well_formed (some r) now w = ground arith

module _ (io : Platform) (j : Text) where
  after_well_formed :
      (q : Request) (now : ℕ) (h : Host io.Doc)
      → well_formed (lookup j h.manager.store) ≡ true
      → well_formed (record_after io q now h j) ≡ true
  after_well_formed (stage_it name content md5 meta) now h w =
      let by_policy = is_auto name h.manager.auto_approve in
      ground
        (arith, text_eq_iff name j, staged-well_formed (lookup j h.manager.store) by_policy md5 now)
  after_well_formed (approve_it name) now h w =
      let there = member name h.disk.pending_dir in
      ground (arith, text_eq_iff name j, approved_well_formed (lookup j h.manager.store) there now)
  after_well_formed (reject_it name) now h w =
      ground (arith, text_eq_iff name j, rejected_well_formed (lookup j h.manager.store) now)
  after_well_formed (clear_it name) now h w = ground arith
  after_well_formed (ask name) now h w = w
  after_well_formed ask_all now h w = w

  -- Every run of requests, on a host whose memory matches its file, keeps a record well formed.
  pub run-well_formed :
      (qs : List (Request × ℕ)) (h : Host io.Doc)
      → IsSynced io h
      → well_formed (lookup j h.manager.store) ≡ true
      → well_formed (lookup j (run io qs h).manager.store) ≡ true
  run-well_formed qs h s w =
      run_induction io (λ g. well_formed (lookup j g.manager.store) ≡ true) (λ q. true)
        (λ q now g a s w. rw (store-step io q now g j s) (after_well_formed q now g w)) qs h
        (all-true qs) s w
