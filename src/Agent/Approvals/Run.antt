-- ===== src/Agent/Approvals/Run.antt =====
-- The methods as requests, and what a sequence of them does to the record of one script.
use csl.Prelude.{
  none, member, ap, ◌==◌, if◌then◌else◌, all, true, Bool, lookup, ℕ, Text, Text_Eq, Option, ◌≡◌,
  arith, List, [], ◌∷◌,
}
use csl.Agent.Approvals.Data.{is_auto, ScriptRecord, Platform, Host}
use csl.Agent.Approvals.Manager.{
  stage, approve, reject, clear, get_state, list_all, load, save, sync_from_disk,
}
use csl.Agent.Approvals.Effects.{
  rejected_from, approved_from, store-clear, staged, store-reject, store-approve, store-stage,
}

pub data Request : Type 0 where
  stage_it : Text → Text → Text → Option Text → Request
  approve_it reject_it clear_it ask : Text → Request
  ask_all : Request

-- One request at a time; the answer is dropped, since an error leaves the manager running.
unfoldable pub step : (io : Platform) → Request → ℕ → Host io.Doc → Host io.Doc
step io (stage_it name content md5 meta) now h = (stage io name content md5 meta now h).1
step io (approve_it name) now h = (approve io name now h).1
step io (reject_it name) now h = (reject io name now h).1
step io (clear_it name) now h = (clear io name now h).1
step io (ask name) now h = (get_state io name h).1
step io ask_all now h = (list_all io h).1

unfoldable pub run : (io : Platform) → List (Request × ℕ) → Host io.Doc → Host io.Doc
run io [] h = h
run io ((q, now) ∷ qs) h = run io qs (step io q now h)

-- The memory is what the file holds, as in one process that alone writes the file.
abbrev pub IsSynced : (io : Platform) → Host io.Doc → Type 0
IsSynced io h = load io h.disk.approvals_path ≡ h.manager.store

module _ (io : Platform) where
  pub store-sync :
      (h : Host io.Doc) → IsSynced io h → (sync_from_disk io h).manager.store ≡ h.manager.store
  unfolding sync_from_disk
  store-sync h s = ground arith

  sync-IsSynced : (h : Host io.Doc) → IsSynced io h → IsSynced io (sync_from_disk io h)
  unfolding sync_from_disk
  sync-IsSynced h s = ground arith

  pub save-IsSynced : (now : ℕ) (h : Host io.Doc) → IsSynced io (save io now h)
  unfolding save load
  save-IsSynced now h = rw (io.parse-dump h.manager.store)

  pub step-IsSynced :
      (q : Request) (now : ℕ) (h : Host io.Doc) → IsSynced io h → IsSynced io (step io q now h)
  unfolding step
  step-IsSynced (stage_it name content md5 meta) now h s =
      unfold stage in grind (arith, save-IsSynced)
  step-IsSynced (approve_it name) now h s = unfold approve in grind (arith, save-IsSynced)
  step-IsSynced (reject_it name) now h s = unfold reject in grind (arith, save-IsSynced)
  step-IsSynced (clear_it name) now h s = unfold clear in grind (arith, save-IsSynced)
  step-IsSynced (ask name) now h s = unfold get_state in sync-IsSynced h s
  step-IsSynced ask_all now h s = unfold list_all in sync-IsSynced h s

  pub auto-step :
      (q : Request) (now : ℕ) (h : Host io.Doc)
      → (step io q now h).manager.auto_approve ≡ h.manager.auto_approve
  unfolding step save sync_from_disk
  auto-step (stage_it name content md5 meta) now h = unfold stage in ground arith
  auto-step (approve_it name) now h = unfold approve in ground arith
  auto-step (reject_it name) now h = unfold reject in ground arith
  auto-step (clear_it name) now h = unfold clear in ground arith
  auto-step (ask name) now h = unfold get_state in ground arith
  auto-step ask_all now h = unfold list_all in ground arith

-- The record of `j` after a request, from the host before it.
abbrev pub record_after : (io : Platform) → Request → ℕ → Host io.Doc → Text → Option ScriptRecord
record_after io (stage_it name content md5 meta) now h j =
    if name == j
    then staged (lookup name h.manager.store) (is_auto name h.manager.auto_approve) md5 now
    else lookup j h.manager.store
record_after io (approve_it name) now h j =
    if name == j
    then approved_from (lookup name h.manager.store) (member name h.disk.pending_dir) now
    else lookup j h.manager.store
record_after io (reject_it name) now h j =
    if name == j then rejected_from (lookup name h.manager.store) now else lookup j h.manager.store
record_after io (clear_it name) now h j = if name == j then none else lookup j h.manager.store
record_after io (ask name) now h j = lookup j h.manager.store
record_after io ask_all now h j = lookup j h.manager.store

pub store-step :
    (io : Platform) (q : Request) (now : ℕ) (h : Host io.Doc) (j : Text)
    → IsSynced io h
    → lookup j (step io q now h).manager.store ≡ record_after io q now h j
unfolding step
store-step io (stage_it name content md5 meta) now h j s =
    store-stage io name now h j content md5 meta
store-step io (approve_it name) now h j s = store-approve io name now h j
store-step io (reject_it name) now h j s = store-reject io name now h j
store-step io (clear_it name) now h j s = store-clear io name now h j
store-step io (ask name) now h j s = unfold get_state in ap (lookup j) (store-sync io h s)
store-step io ask_all now h j s = unfold list_all in ap (lookup j) (store-sync io h s)

-- An invariant of the synced hosts that every allowed request keeps holds after every run of them.
module _ (io : Platform) (P : Host io.Doc → Type 0) (allowed : Request → Bool)
    (keep : (q : Request) (now : ℕ) (h : Host io.Doc)
      → allowed q ≡ true
      → IsSynced io h
      → P h
      → P (step io q now h)) where
  pub run_induction :
      (qs : List (Request × ℕ)) (h : Host io.Doc)
      → all (λ (q, now). allowed q) qs ≡ true
      → IsSynced io h
      → P h
      → P (run io qs h)
  unfolding run all
  run_induction [] h a s p = p
  run_induction ((q, now) ∷ qs) h a s p =
      run_induction qs (step io q now h) (ground arith) (step-IsSynced io q now h s)
        (keep q now h (ground arith) s p)
