-- ===== src/Agent/Approvals/Edges.antt =====
-- The diagram of the approval states, and what a request may change.
use csl.Prelude.{
  ◌==◌, if◌then◌else◌, [], ◌∷◌, ◌++◌, ℕ, Text, Text_Eq, Bool, true, false, Option, none, some, ◌≡◌,
  ◌≢◌, refl, arith, lookup,
}
use csl.Shared.Models.{
  ApprovalState_Eq, ApprovalState, absent, pending, approved, update_pending, rejected,
}
use csl.Agent.Approvals.Data.{
  is_reviewable, ScriptRecord, Host, is_auto, state_of, Action, stage_action, approve_action,
  reject_action, clear_action, AuditLine,
}
use csl.Agent.Approvals.Consent.{state_in}
use csl.Agent.Approvals.Manager.{staged_record}

-- The transitions, by action; the flag says whether the script is on the auto-approve list.
-- `restage_update` is not in the diagram of the class comment.
pub data Edge : Bool → Action → ApprovalState → ApprovalState → Type 0 where
  stage_new : Edge false stage_action absent pending
  stage_update : Edge false stage_action approved update_pending
  restage_pending : Edge false stage_action pending pending
  restage_update : Edge false stage_action update_pending pending
  stage_auto : {s : ApprovalState} → s ≢ rejected → Edge true stage_action s approved
  approve_pending : {b : Bool} → Edge b approve_action pending approved
  approve_update : {b : Bool} → Edge b approve_action update_pending approved
  reject_pending : {b : Bool} → Edge b reject_action pending rejected
  reject_update : {b : Bool} → Edge b reject_action update_pending rejected
  clear_any : {b : Bool} {s : ApprovalState} → Edge b clear_action s absent

pub ruleset edges = (
  stage_new, stage_update, restage_pending, restage_update, approve_pending, approve_update,
  reject_pending, reject_update, clear_any,
)

-- `h'` has one audit line more than `h`, the line tells the state of its script before and after,
-- along an edge, and the record of that script alone is replaced, by `after`.
pub record Logged {Doc : Type 0} (h h' : Host Doc) : Type 0 where
  pub line : AuditLine
  pub appended : h'.audit ≡ h.audit ++ line ∷ []
  pub from_is : line.from_state ≡ state_in line.script h
  pub after : Option ScriptRecord
  pub to_is : line.to_state ≡ state_of after
  pub edge :
      Edge (is_auto line.script h.manager.auto_approve) line.action line.from_state line.to_state
  pub records :
      (j : Text)
      → lookup j h'.manager.store ≡ (if line.script == j then after else lookup j h.manager.store)

pub record Unchanged {Doc : Type 0} (h h' : Host Doc) : Type 0 where
  pub same_audit : h'.audit ≡ h.audit
  pub same_disk : h'.disk ≡ h.disk
  pub same_records : (j : Text) → lookup j h'.manager.store ≡ lookup j h.manager.store

pub staged-Edge :
    (found : Option ScriptRecord) (by_policy : Bool) (md5 : Text) (now : ℕ)
    → state_of found ≢ rejected
    → Edge by_policy stage_action (state_of found) (staged_record found by_policy md5 now).state
unfolding staged_record
staged-Edge none true md5 now n = stage_auto n
staged-Edge none false md5 now n = stage_new
staged-Edge (some r) true md5 now n = stage_auto n
staged-Edge (some r) false md5 now n = grind (arith, edges)

pub review_edges :
    (b : Bool) (s : ApprovalState)
    → is_reviewable s ≡ true
    → Edge b approve_action s approved × Edge b reject_action s rejected
review_edges b pending h = (approve_pending, reject_pending)
review_edges b update_pending h = (approve_update, reject_update)
review_edges b absent h = cc
review_edges b approved h = cc
review_edges b rejected h = cc

pub Unchanged-refl : {Doc : Type 0} (h : Host Doc) → Unchanged h h
Unchanged-refl h = record { same_audit = refl; same_disk = refl; same_records = λ j. refl }
