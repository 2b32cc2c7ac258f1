-- ===== src/Agent/Cli/Reviewed.antt =====
-- What the owner approves is what he was shown.
use csl.Prelude.{
  on_error, ◌∙◌, ap, refl, text_eq_iff, ℕ, Text, Text_Eq, some, true, ok, ◌≡◌, arith, lookup,
  member, Option-cases, inl, inr,
}
use csl.Agent.Approvals.Data.{is_reviewable, ScriptRecord, Platform, Host}
use csl.Agent.Approvals.Files.{NoMeta, scripts-promote}
use csl.Agent.Approvals.Manager.{
  same_sig, init, approve, approve_record, get_state, save, sync_from_disk,
}
use csl.Agent.Cli.{
  approval_failed, on_error, load_approvals, cmd_approvals_show, cmd_approvals_approve, file_or,
}

module _ (io : Platform) where
  pub sync-loaded :
      (h : Host io.Doc) → sync_from_disk io (load_approvals io h) ≡ load_approvals io h
  unfolding sync_from_disk load_approvals init same_sig
  sync-loaded h = ground arith

  loaded-twice : (h : Host io.Doc) → load_approvals io (load_approvals io h) ≡ load_approvals io h
  unfolding load_approvals init
  loaded-twice h = refl

module _ (io : Platform) (name : Text) (plain : NoMeta name) where
  shown-parts :
      (h : Host io.Doc) {content : Text}
      → (cmd_approvals_show io name h).0 ≡ ok content
      → let g = load_approvals io h in
        (r : ScriptRecord) × (lookup name g.manager.store ≡ some r)
        × (is_reviewable r.state ≡ true)
        × (lookup name g.disk.pending_dir ≡ some content)
        × ((cmd_approvals_show io name h).1 ≡ g)
  unfolding cmd_approvals_show get_state file_or
  shown-parts h {content} e =
      let g = load_approvals io h in
      let synced = sync-loaded io h in
      elim (Option-cases (lookup name g.manager.store)) [
        | inl p ↦ absurd (ground arith)
        | inr (r, p) ↦ (r, p, ground arith, ground arith, synced)
      ]

  approve_record-placed :
      (now : ℕ) (r : ScriptRecord) (h : Host io.Doc) {content : Text}
      → is_reviewable r.state ≡ true
      → lookup name h.disk.pending_dir ≡ some content
      → let (answer, h') = approve_record io name now r h in
        (answer ≡ ok tt) × (lookup name h'.disk.scripts_dir ≡ some content)
  unfolding approve_record save member
  approve_record-placed now r h {content} e p =
      (ground arith, ground (arith, scripts-promote name name h.disk plain, text_eq_iff name name))

  approve-placed :
      (now : ℕ) (r : ScriptRecord) (g : Host io.Doc) {content : Text}
      → lookup name g.manager.store ≡ some r
      → is_reviewable r.state ≡ true
      → lookup name g.disk.pending_dir ≡ some content
      → let (answer, h') = approve io name now g in
        (answer ≡ ok tt) × (lookup name h'.disk.scripts_dir ≡ some content)
  unfolding approve
  approve-placed now r g {content} p q f =
      rw (approve, p) (approve_record-placed now r g {content = content} q f)

  -- When `show` has printed a pending version, `approve` succeeds, and the file that it puts into the
  -- scripts directory is the one that was printed, if nothing is staged in between. The script's name is
  -- not that of a metadata file.
  pub show-approve :
      (now : ℕ) (h : Host io.Doc) {content : Text}
      → (cmd_approvals_show io name h).0 ≡ ok content
      → let (answer, h') = cmd_approvals_approve io name now (cmd_approvals_show io name h).1 in
        (answer ≡ ok tt) × (lookup name h'.disk.scripts_dir ≡ some content)
  unfolding cmd_approvals_approve
  show-approve now h {content} e =
      let (r, p, q, f, g) = shown-parts h {content = content} e in
      let (done, placed) = approve-placed now r (load_approvals io h) {content = content} p q f in
      rw (ap (load_approvals io) g ∙ loaded-twice io h) (ap (on_error approval_failed) done, placed)
