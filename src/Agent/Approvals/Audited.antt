-- ===== src/Agent/Approvals/Audited.antt =====
-- Every change of a record follows an edge of the state machine and leaves one audit line.
use csl.Prelude.{
  Option-cases, member, inl, inr, Bool-cases, ap, lookup-erase, ◌⊎◌, text_eq_iff, lookup-insert, ℕ,
  Text, Text_Eq, Option, none, some, ◌≡◌, ◌≢◌, refl, arith, lookup,
}
use csl.Shared.Models.{
  ApprovalState-discrete, ApprovalState_Eq, ApprovalState, absent, approved, rejected,
}
use csl.Agent.Approvals.Data.{
  cli, approved_record, rejected_record, is_reviewable, ScriptRecord, Platform, Host, is_auto,
  state_of, stage_action, approve_action, reject_action, clear_action,
}
use csl.Agent.Approvals.Manager.{
  already_staged, list_all, get_state, clear, reject, approve, stage, sync_from_disk,
  approve_record, clear_record, reject_record, save, stage_write, staged_record,
}
use csl.Agent.Approvals.Run.{
  ask_all, ask, clear_it, reject_it, approve_it, store-sync, stage_it, Request, step, IsSynced,
}
use csl.Agent.Approvals.Edges.{
  clear_any, Logged, Unchanged, Unchanged-refl, staged-Edge, review_edges,
}

module _ (io : Platform) (name : Text) (now : ℕ) (h : Host io.Doc) where
  stage_write-Logged :
      (content md5 : Text) (meta : Option Text) (found : Option ScriptRecord)
      → lookup name h.manager.store ≡ found
      → state_of found ≢ rejected
      → Logged h (stage_write io name content md5 meta now found h).1
  unfolding stage_write save
  stage_write-Logged content md5 meta found e n =
      let by_policy = is_auto name h.manager.auto_approve in
      let r = staged_record found by_policy md5 now in
      record {
        line = record {
          action = stage_action;
          script = name;
          from_state = state_of found;
          to_state = r.state;
        };
        appended = ground arith;
        from_is = rw e;
        after = some r;
        to_is = refl;
        edge = staged-Edge found by_policy md5 now n;
        records = λ j. ground (arith, lookup-insert name j r h.manager.store, text_eq_iff name j);
      }

  approve-Logged :
      (r : ScriptRecord)
      → lookup name h.manager.store ≡ some r
      → Unchanged h (approve_record io name now r h).1 ⊎ Logged h (approve_record io name now r h).1
  unfolding approve_record save
  approve-Logged r e = elim (Bool-cases (is_reviewable r.state)) [
    | inr n ↦ inl (rw n (Unchanged-refl h))
    | inl y ↦ elim (Bool-cases (member name h.disk.pending_dir)) [
      | inr n ↦ inl (rw (y, n) (Unchanged-refl h))
      | inl m ↦ inr (
          rw (y, m)
            (record {
              line = record {
                action = approve_action;
                script = name;
                from_state = r.state;
                to_state = approved;
              };
              appended = refl;
              from_is = rw e;
              after = some (approved_record r.pending_md5 now cli);
              to_is = refl;
              edge = (review_edges _ r.state y).0;
              records = λ j. ground (
                arith,
                text_eq_iff name j,
                lookup-insert name j (approved_record r.pending_md5 now cli) h.manager.store,
              );
            }))
    ]
  ]

  reject-Logged :
      (r : ScriptRecord)
      → lookup name h.manager.store ≡ some r
      → Unchanged h (reject_record io name now r h).1 ⊎ Logged h (reject_record io name now r h).1
  unfolding reject_record save
  reject-Logged r e = elim (Bool-cases (is_reviewable r.state)) [
    | inr n ↦ inl (rw n (Unchanged-refl h))
    | inl y ↦ inr (
        rw y (record {
          line = record {
            action = reject_action;
            script = name;
            from_state = r.state;
            to_state = rejected;
          };
          appended = refl;
          from_is = rw e;
          after = some (rejected_record now);
          to_is = refl;
          edge = (review_edges _ r.state y).1;
          records = λ j. ground (
            arith,
            text_eq_iff name j,
            lookup-insert name j (rejected_record now) h.manager.store,
          );
        }))
  ]

  clear-Logged :
      (r : ScriptRecord)
      → lookup name h.manager.store ≡ some r
      → Logged h (clear_record io name now r h).1
  unfolding clear_record save
  clear-Logged r e = record {
    line = record { action = clear_action; script = name; from_state = r.state; to_state = absent };
    appended = refl;
    from_is = rw e;
    after = none;
    to_is = refl;
    edge = clear_any;
    records = λ j. ground (arith, text_eq_iff name j, lookup-erase name j h.manager.store);
  }

sync-Unchanged :
    (io : Platform) (h : Host io.Doc) → IsSynced io h → Unchanged h (sync_from_disk io h)
sync-Unchanged io h s = record {
  same_audit = unfold sync_from_disk in ground arith;
  same_disk = unfold sync_from_disk in ground arith;
  same_records = λ j. ap (lookup j) (store-sync io h s);
}

module _ (io : Platform) (name content md5 : Text) (meta : Option Text) (now : ℕ)
    (h : Host io.Doc) where
  pub stage_refused :
      state_of (lookup name h.manager.store) ≡ rejected
      → (stage io name content md5 meta now h).1 ≡ h
  unfolding stage
  stage_refused e = ground arith

  pub stage_again :
      {t : ApprovalState}
      → state_of (lookup name h.manager.store) ≢ rejected
      → already_staged (lookup name h.manager.store) md5 ≡ some t
      → (stage io name content md5 meta now h).1 ≡ h
  unfolding stage
  stage_again n e = ground arith

  pub stage_anew :
      state_of (lookup name h.manager.store) ≢ rejected
      → already_staged (lookup name h.manager.store) md5 ≡ none
      → (stage io name content md5 meta now h).1
        ≡ (stage_write io name content md5 meta now (lookup name h.manager.store) h).1
  unfolding stage
  stage_anew n e = ground arith

  stage_audited :
      Unchanged h (stage io name content md5 meta now h).1
      ⊎ Logged h (stage io name content md5 meta now h).1
  stage_audited = elim (ApprovalState-discrete (state_of (lookup name h.manager.store)) rejected) [
    | yes y ↦ inl (rw (stage_refused y) (Unchanged-refl h))
    | no n ↦ elim (Option-cases (already_staged (lookup name h.manager.store) md5)) [
      | inl e ↦
          inr (rw (stage_anew n e) (stage_write-Logged io name now h content md5 meta _ refl n))
      | inr (t, e) ↦ inl (rw (stage_again n e) (Unchanged-refl h))
    ]
  ]

-- Whatever the request, on a host whose memory matches its file: either no record, no file and no
-- audit line changes, or exactly one record changes, along an edge of the state machine, and
-- exactly one audit line is added, which names that script and its state before and after.
pub step_audited :
    (io : Platform) (q : Request) (now : ℕ) (h : Host io.Doc)
    → IsSynced io h
    → Unchanged h (step io q now h) ⊎ Logged h (step io q now h)
unfolding step approve reject clear get_state list_all
step_audited io (stage_it name content md5 meta) now h s =
    stage_audited io name content md5 meta now h
step_audited io (approve_it name) now h s = elim (Option-cases (lookup name h.manager.store)) [
  | inl e ↦ inl (rw (e, step, approve) (Unchanged-refl h))
  | inr (r, e) ↦ rw (e, step, approve) (approve-Logged io name now h r e)
]
step_audited io (reject_it name) now h s = elim (Option-cases (lookup name h.manager.store)) [
  | inl e ↦ inl (rw (e, step, reject) (Unchanged-refl h))
  | inr (r, e) ↦ rw (e, step, reject) (reject-Logged io name now h r e)
]
step_audited io (clear_it name) now h s = elim (Option-cases (lookup name h.manager.store)) [
  | inl e ↦ inl (rw (e, step, clear) (Unchanged-refl h))
  | inr (r, e) ↦ rw (e, step, clear) (inr (clear-Logged io name now h r e))
]
step_audited io (ask name) now h s = inl (sync-Unchanged io h s)
step_audited io ask_all now h s = inl (sync-Unchanged io h s)
