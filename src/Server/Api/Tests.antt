-- ===== src/Server/Api/Tests.antt =====
-- A registration, bookmarks, a submission and a kill.
use csl.Shared.Registration.{decode, from_object, missing_from, encode, is_valid_platform, field}
use csl.Server.Api.Machines.Version.{assert_version_compatible, major, digits}
use csl.Server.Api.Machines.Register.{
  new_machine, tested_machine, ssh_connection_test, remote_fingerprint,
}
use csl.Agent.Gateway.{remote_config_cmd}
use csl.Shared.SshCommands.{config_read_cmd}
use csl.Prelude.{
  arith, true, Bool, ◌+◌, ℕ, codes, none, some, text_eq, member, lookup, any, distinct_by, Text_Eq,
  [], ◌∷◌, ◌++◌, List, false, ok, ◌≡◌, refl, any, all, lookup,
}
use csl.Shared.Registration.Plain.{plain_codec}
use csl.Server.Core.Crypto.{encrypt}
use csl.Server.Api.Fixtures.{open_aead, world, monday, box_request, ann, bob, no_machines, box_row}
use csl.Server.Api.Machines.{MachineTables, get_machine}
use csl.Server.Api.Machines.Register.{register_machine_from_input}
use csl.Server.Api.Machines.Registered.{IsRegistered, register_machine-IsRegistered}
use csl.Server.Api.Machines.Consistent.{
  Request, register, delete, bookmark, handle_all, handle_all-IsConsistent, IsConsistent,
}
use csl.Server.Api.Machines.Access.{is_ok, register_machine-closed}
use csl.Server.Api.Audit.{list_audit_entries, AuditFilter, AuditEntry}
use csl.Server.Auth.Sessions.{record_audit, Tables, AuditRow}
use csl.Server.Api.Audit.Pages.{follow}
use csl.Server.Api.Audit.Complete.{list_audit_entries-follow, is_latest_first, matching, count}

abbrev empty-IsConsistent : IsConsistent no_machines
unfolding distinct_by all
empty-IsConsistent = record { ids = refl; names = refl; pairs = refl; owned = refl }

abbrev requests : List Request
requests =
    register monday box_request 1
    ∷ bookmark 3 1 bob
    ∷ register monday box_request 1
    ∷ delete 5 1 ann
    ∷ []

handle_all-IsConsistent_example :
    IsConsistent (handle_all plain_codec world open_aead requests no_machines)
handle_all-IsConsistent_example =
    handle_all-IsConsistent plain_codec world open_aead requests no_machines empty-IsConsistent

box-registers :
    (register_machine_from_input plain_codec world open_aead monday box_request 1 no_machines).0
    ≡ ok box_row
unfolding register_machine_from_input new_machine decode from_object missing_from member lookup
    encode text_eq is_valid_platform field assert_version_compatible major digits any tested_machine
    ssh_connection_test remote_config_cmd remote_fingerprint encrypt config_read_cmd
box-registers = refl

register_machine-IsRegistered_example :
    IsRegistered plain_codec world open_aead monday box_request [] box_row
    × ((register_machine_from_input plain_codec world open_aead monday box_request 1
          no_machines).1.machines
        ≡ [] ++ (box_row ∷ []))
register_machine-IsRegistered_example =
    register_machine-IsRegistered plain_codec world open_aead monday box_request 1 no_machines
      {m = box_row} refl refl box-registers

abbrev one_machine : MachineTables
one_machine = record { machines = box_row ∷ []; user_machines = []; audit_log = [] }

register_machine-closed_example :
    is_ok (
      get_machine 1 bob (
        handle_all plain_codec world open_aead
          (bookmark 7 1 ann ∷ [])
          (register_machine_from_input plain_codec world open_aead monday box_request 1
            no_machines).1))
    ≡ false
unfolding text_eq any
register_machine-closed_example =
    register_machine-closed plain_codec world open_aead monday box_request 1 no_machines bob
      (bookmark 7 1 ann ∷ []) {m = box_row} empty-IsConsistent box-registers refl refl

abbrev log_row : ℕ → AuditRow
log_row now =
    record_audit now (codes "auth.login") (codes "user") none (codes "success") (some 1) []

abbrev logged : Tables
logged = record {
  users = ann ∷ [];
  refresh_tokens = [];
  audit_log = log_row 5 ∷ log_row 9 ∷ log_row 7 ∷ [];
}

abbrev no_filter : AuditFilter
no_filter = record { action = none; target_type = none; username = none }

list_audit_entries-follow_example :
    (rows : List AuditEntry) × (follow
        (λ offset. list_audit_entries text_eq no_filter 1 offset logged)
        (λ offset. offset + 1)
        4
        0
      ≡ some rows)
    × ((p : AuditEntry → Bool) → count p rows ≡ count p (matching text_eq no_filter logged))
    × (is_latest_first rows ≡ true)
list_audit_entries-follow_example =
    list_audit_entries-follow text_eq no_filter logged 1 (omega arith)
