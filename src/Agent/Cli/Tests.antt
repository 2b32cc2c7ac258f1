-- ===== src/Agent/Cli/Tests.antt =====
-- A review and a purge.
use csl.Prelude.{
  member, text_eq, lookup, Option, Text, Text_Eq, codes, [], ◌∷◌, some, ok, ◌≡◌, refl, arith, ap,
  length, length-append,
}
use csl.Agent.Fixtures.{box_platform}
use csl.Agent.Approvals.Data.{Store, Host, approved_record, pending_record, cli, meta_suffix}
use csl.Agent.Approvals.Files.{NoMeta}
use csl.Agent.Cli.{
  member, cmd_approvals_approve, file_or, lookup, init, get_state, cmd_approvals_show,
  load_approvals,
}
use csl.Agent.Approvals.Manager.{same_sig, current_sig, load, sync_from_disk, init, get_state}
use csl.Agent.Cli.Reviewed.{show-approve}

abbrev sweep : Text
sweep = codes "sweep"

abbrev lost : Text
lost = codes "lost"

-- One script waits, and the file of another one is lost.
abbrev reviewing : Host (Option Store)
reviewing = record {
  manager = record { auto_approve = []; store = []; sig = (0, 0) };
  disk = record {
    pending_dir = (sweep, codes "w1") ∷ [];
    scripts_dir = [];
    approvals_path = some (record {
      doc = some (
          (sweep, pending_record (codes "w1"))
          ∷ (lost, approved_record (some (codes "v1")) 5 cli)
          ∷ []);
      mtime = 7;
    });
  };
  audit = [];
}

sweep-NoMeta : NoMeta sweep
sweep-NoMeta n e = omega (arith, ap length e, length-append n meta_suffix)

show-approve_example :
    let (answer, h') =
      cmd_approvals_approve box_platform sweep 9
        (cmd_approvals_show box_platform sweep reviewing).1 in
    (answer ≡ ok tt) × (lookup sweep h'.disk.scripts_dir ≡ some (codes "w1"))
unfolding cmd_approvals_show get_state sync_from_disk load_approvals init load current_sig same_sig
    lookup text_eq file_or
show-approve_example =
    show-approve box_platform sweep sweep-NoMeta 9 reviewing {content = codes "w1"} refl
