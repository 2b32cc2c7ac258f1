-- ===== src/Agent/Approvals/Tests.antt =====
-- A small installation, and the theorems on it.
use csl.Prelude.{
  length-append, length, Text_Eq, ap, all, err, member, insert, ◌⊎◌, text_eq, any, ◌∷◌, ℕ, Text,
  codes, true, Option, none, some, ◌≡◌, refl, arith, lookup, List, [],
}
use csl.Agent.Approvals.Data.{meta_suffix, state_of, is_rejected, is_auto, Platform, Host, Store}
use csl.Agent.Approvals.Run.{approve_it, stage_it, reject_it, ask_all, Request, step, run}
use csl.Agent.Approvals.Manager.{
  staged_record, already_staged, save, approve_record, reject_record, stage_write, reject, approve,
  load, stage,
}
use csl.Agent.Approvals.Edges.{Logged, Unchanged}
use csl.Agent.Approvals.Consent.{rejection_stands, state_in, approved_needs_approve, approves}
use csl.Agent.Approvals.Audited.{step_audited}
use csl.Shared.Models.{rejected, approved}
use csl.Agent.Approvals.Sharing.{command}
use csl.Agent.Approvals.Disk.{remove_files, write_pending}
use csl.Agent.Approvals.Files.{MatchesAt, NoMeta}
use csl.Agent.Approvals.Shape.{run-well_formed, well_formed}
use csl.Agent.Approvals.Integrity.{run_matches}

-- A file system whose files hold their stores, of one byte each, and whose clock is exact.
abbrev plain_io : Platform
plain_io = record {
  Doc = Option Store;
  dump = some;
  parse = λ d. d;
  size = λ d. 1;
  stamp = λ t. t;
  parse-dump = λ s. refl;
}

abbrev fresh : Host (Option Store)
fresh = record {
  manager = record { auto_approve = codes "ping" ∷ []; store = []; sig = (0, 0) };
  disk = record { pending_dir = []; scripts_dir = []; approvals_path = none };
  audit = [];
}

abbrev backup : Text
backup = codes "backup"

-- The content stands for its own MD5.
abbrev staging : Request
staging = stage_it backup (codes "v1") (codes "v1") none

abbrev approval : List (Request × ℕ)
approval = (staging, 10) ∷ (approve_it backup, 20) ∷ []

approval_approves : state_in backup (run plain_io approval fresh) ≡ approved
unfolding run step stage approve stage_write approve_record save already_staged staged_record
    is_auto any lookup insert text_eq member write_pending
approval_approves = refl

approved_needs_approve_example : any (λ (q, now). approves backup q) approval ≡ true
unfolding is_auto any lookup text_eq load
approved_needs_approve_example =
    approved_needs_approve plain_io backup approval fresh refl refl (λ e. cc) approval_approves

abbrev refusal : List (Request × ℕ)
refusal = (ask_all, 30) ∷ (approve_it backup, 40) ∷ []

abbrev refused : Host (Option Store)
refused = run plain_io ((staging, 10) ∷ (reject_it backup, 20) ∷ []) fresh

rejection_stands_example :
    stage plain_io backup (codes "v2") (codes "v2") none 50 (run plain_io refusal refused)
    ≡ (err (is_rejected backup), run plain_io refusal refused)
unfolding run step stage reject stage_write reject_record save already_staged staged_record is_auto
    any lookup insert text_eq load
rejection_stands_example =
    rejection_stands plain_io backup refusal refused (codes "v2") (codes "v2") none 50 refl refl
      refl

step_audited_example :
    Unchanged fresh (step plain_io staging 10 fresh) ⊎ Logged fresh (step plain_io staging 10 fresh)
unfolding load
step_audited_example = step_audited plain_io staging 10 fresh refl

backup-NoMeta : NoMeta backup
backup-NoMeta n e = omega (arith, ap length e, length-append n meta_suffix)

run_matches_example : MatchesAt (λ c. c) backup (run plain_io approval fresh)
unfolding lookup all text_eq load
run_matches_example = run_matches plain_io (λ c. c) backup backup-NoMeta approval fresh refl refl tt

run-well_formed_example :
    well_formed (lookup backup (run plain_io approval fresh).manager.store) ≡ true
unfolding lookup load
run-well_formed_example = run-well_formed plain_io backup approval fresh refl refl

-- The service has staged the script; the owner rejects it from the command line; the service, which
-- has not looked since, is handed a new version.
abbrev waiting : Host (Option Store)
waiting = step plain_io staging 10 fresh

abbrev overruled : Host (Option Store)
overruled = command plain_io (reject_it backup) 20 waiting

overruled_rejected :
    state_of (lookup backup (load plain_io overruled.disk.approvals_path)) ≡ rejected
unfolding command step stage reject stage_write reject_record save already_staged staged_record
    is_auto any lookup insert text_eq load write_pending remove_files
overruled_rejected = refl
