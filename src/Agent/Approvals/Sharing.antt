-- ===== src/Agent/Approvals/Sharing.antt =====
-- Two processes and one file: the service keeps its store in memory while each command of the
-- `csl-agent approvals` line reads the file, works on it and ends.
use csl.Prelude.{
  sym, ◌∙◌, ap, ◌==◌, if◌then◌else◌, ◌≢◌, ℕ, Text, Text_Eq, false, Option, none, some, ◌≡◌, arith,
  lookup,
}
use csl.Agent.Approvals.Data.{describe, is_auto, state_of, Platform, Host, ScriptRecord}
use csl.Agent.Approvals.Manager.{
  stage_write, current_sig, staged_record, stage, load, already_staged, same_sig, get_state, init,
}
use csl.Agent.Approvals.Run.{save-IsSynced, IsSynced, step, Request}
use csl.Shared.Models.{rejected}
use csl.Agent.Approvals.Audited.{stage_anew}
use csl.Agent.Approvals.Effects.{store-stage}

-- A command line runs a request in a process of its own, beside the service on `h`.
unfoldable pub command : (io : Platform) → Request → ℕ → Host io.Doc → Host io.Doc
unfolding init
command io q now h = record h {
  disk = (step io q now (init io h.manager.auto_approve h.disk)).disk;
}

module _ (io : Platform) (h : Host io.Doc) where
  -- `get_state` of the service answers from the file, once another process has given the file a new
  -- signature, whatever the memory holds.
  pub get_state_fresh :
      (name : Text)
      → same_sig (current_sig io h.disk.approvals_path) h.manager.sig ≡ false
      → (get_state io name h).0 ≡ describe name (lookup name (load io h.disk.approvals_path))
  unfolding get_state
  get_state_fresh name d = rw (d, get_state)

  stage_write-IsSynced :
      (name content md5 : Text) (meta : Option Text) (now : ℕ) (found : Option ScriptRecord)
      → IsSynced io (stage_write io name content md5 meta now found h).1
  unfolding stage_write
  stage_write-IsSynced name content md5 meta now found = grind (arith, save-IsSynced)

  -- `stage` does not read the file. If the memory calls for a write, then afterwards the file
  -- holds, for every other script, what the memory held, and for this one the staged record:
  -- whatever another process had written there is gone, a rejection of this very script included.
  pub stale-stage :
      (name content md5 : Text) (meta : Option Text) (now : ℕ) (j : Text)
      → state_of (lookup name h.manager.store) ≢ rejected
      → already_staged (lookup name h.manager.store) md5 ≡ none
      → lookup j (load io (stage io name content md5 meta now h).1.disk.approvals_path) ≡ (
          if name == j
          then some (
              staged_record
                (lookup name h.manager.store)
                (is_auto name h.manager.auto_approve)
                md5
                now)
          else lookup j h.manager.store)
  stale-stage name content md5 meta now j n e =
      let h' = (stage_write io name content md5 meta now (lookup name h.manager.store) h).1 in
      rw (stage_anew io name content md5 meta now h n e) (
        ap (lookup j) (stage_write-IsSynced name content md5 meta now (lookup name h.manager.store))
        ∙ ap (λ (g : Host io.Doc). lookup j g.manager.store)
            (sym (stage_anew io name content md5 meta now h n e))
        ∙ store-stage io name now h j content md5 meta
        ∙ ground arith)
