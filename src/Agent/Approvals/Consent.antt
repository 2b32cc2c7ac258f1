-- ===== src/Agent/Approvals/Consent.antt =====
-- Nothing is approved without the target owner, and a rejection stands until it is cleared.
use csl.Prelude.{
  inr, inl, all-not_of_any, Bool-cases, err, any, List, ℕ, Text, Text_Eq, Bool, true, false, not,
  Option, none, some, ◌≡◌, ◌≢◌, arith, lookup, ◌==◌, text_eq_iff,
}
use csl.Shared.Models.{rejected, ApprovalState, ApprovalState_Eq, approved}
use csl.Agent.Approvals.Data.{is_rejected, ScriptRecord, Platform, Host, is_auto, state_of}
use csl.Agent.Approvals.Manager.{stage, already_staged, staged_record}
use csl.Agent.Approvals.Effects.{staged}
use csl.Agent.Approvals.Run.{
  run_induction, store-step, auto-step, step, run, IsSynced, Request, stage_it, approve_it,
  reject_it, clear_it, ask, ask_all, record_after,
}

-- `csl-agent approvals approve`, and `clear`, of script `j`.
abbrev pub approves : Text → Request → Bool
approves j (approve_it name) = name == j
approves j _ = false

abbrev pub clears : Text → Request → Bool
clears j (clear_it name) = name == j
clears j _ = false

abbrev pub state_in : {Doc : Type 0} → Text → Host Doc → ApprovalState
state_in j h = state_of (lookup j h.manager.store)

staged_ne :
    (found : Option ScriptRecord) (md5 : Text) (now : ℕ)
    → state_of found ≢ approved
    → state_of (staged found false md5 now) ≢ approved
unfolding already_staged staged_record
staged_ne none md5 now h = ground arith
staged_ne (some r) md5 now h = ground arith

module _ (io : Platform) (j : Text) where
  step_ne :
      (q : Request) (now : ℕ) (h : Host io.Doc)
      → not (approves j q) ≡ true
      → is_auto j h.manager.auto_approve ≡ false
      → state_in j h ≢ approved
      → state_of (record_after io q now h j) ≢ approved
  step_ne (stage_it name content md5 meta) now h a b c =
      ground (arith, text_eq_iff name j, staged_ne (lookup j h.manager.store) md5 now c)
  step_ne (approve_it name) now h a b c = ground arith
  step_ne (reject_it name) now h a b c = ground (arith, text_eq_iff name j)
  step_ne (clear_it name) now h a b c = ground arith
  step_ne (ask name) now h a b c = c
  step_ne ask_all now h a b c = c

  step_rejected :
      (q : Request) (now : ℕ) (h : Host io.Doc)
      → not (clears j q) ≡ true
      → state_in j h ≡ rejected
      → state_of (record_after io q now h j) ≡ rejected
  step_rejected (stage_it name content md5 meta) now h a c = ground (arith, text_eq_iff name j)
  step_rejected (approve_it name) now h a c = ground (arith, text_eq_iff name j)
  step_rejected (reject_it name) now h a c = ground (arith, text_eq_iff name j)
  step_rejected (clear_it name) now h a c = ground (arith, text_eq_iff name j)
  step_rejected (ask name) now h a c = c
  step_rejected ask_all now h a c = c

  keep_unapproved :
      (q : Request) (now : ℕ) (h : Host io.Doc)
      → not (approves j q) ≡ true
      → IsSynced io h
      → (is_auto j h.manager.auto_approve ≡ false) × (state_in j h ≢ approved)
      → (is_auto j (step io q now h).manager.auto_approve ≡ false)
        × (state_in j (step io q now h) ≢ approved)
  keep_unapproved q now h a s (b, c) =
      (rw auto-step b, rw (store-step io q now h j s) (step_ne q now h a b c))

  -- A script that is not on the auto-approve list and not approved becomes approved, by any run of
  -- requests on a host whose memory matches its file, only if the run holds an `approve` of it.
  pub approved_needs_approve :
      (qs : List (Request × ℕ)) (h : Host io.Doc)
      → IsSynced io h
      → is_auto j h.manager.auto_approve ≡ false
      → state_in j h ≢ approved
      → state_in j (run io qs h) ≡ approved
      → any (λ (q, now). approves j q) qs ≡ true
  approved_needs_approve qs h s b c e = elim (Bool-cases (any (λ (q, now). approves j q) qs)) [
    | inl p ↦ p
    | inr p ↦ absurd (
        (run_induction io
            (λ g. (is_auto j g.manager.auto_approve ≡ false) × (state_in j g ≢ approved))
            (λ q. not (approves j q)) keep_unapproved qs h
            (all-not_of_any (λ (q, now). approves j q) qs p) s (b, c)).1
          e)
  ]

  -- A rejection stands: after any run of requests that does not clear the script, on a host whose
  -- memory matches its file, staging it is refused and changes nothing.
  pub rejection_stands :
      (qs : List (Request × ℕ)) (h : Host io.Doc) (content md5 : Text) (meta : Option Text)
      (now : ℕ)
      → IsSynced io h
      → state_in j h ≡ rejected
      → any (λ (q, now). clears j q) qs ≡ false
      → stage io j content md5 meta now (run io qs h) ≡ (err (is_rejected j), run io qs h)
  unfolding stage
  rejection_stands qs h content md5 meta now s c p =
      let still =
        run_induction io (λ g. state_in j g ≡ rejected) (λ q. not (clears j q))
          (λ q now g a s c. rw (store-step io q now g j s) (step_rejected q now g a c)) qs h
          (all-not_of_any (λ (q, now). clears j q) qs p) s c in
      rw still
