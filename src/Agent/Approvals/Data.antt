-- ===== src/Agent/Approvals/Data.antt =====
-- control_station_lite/agent/approvals.py: the data of the approval state machine.
-- The manager holds `approvals.json` in memory with the signature of the file that it last read
-- or wrote; the disk holds that file and the two script directories. Disk errors are not modelled.
use csl.Prelude.{
  ℕ, Text, codes, Bool, false, Option, none, some, List, ◌++◌, ◌≡◌, Dict, Result, any, ◌==◌,
  Text_Eq, ◌||◌,
}
use csl.Shared.Models.{
  ApprovalState, ApprovalState_Eq, absent, pending, approved, update_pending, rejected,
  ScriptDescriptor,
}

pub data Via : Type 0 where
  cli auto : Via

pub record ScriptRecord : Type 0 where
  pub state : ApprovalState
  pub approved_md5 : Option Text
  pub approved_at : Option ℕ
  pub approved_via : Option Via
  pub pending_md5 : Option Text
  pub rejected_at : Option ℕ

-- `_ApprovalsStore.scripts`
abbrev pub Store : Type 0
Store = Dict Text ScriptRecord

-- What the manager asks of pydantic, `json` and the file system: how a store is written and read
-- back, how many bytes it takes, and the modification time of a write made at a given time.
pub record Platform : Type 1 where
  pub Doc : Type 0
  pub dump : Store → Doc
  pub parse : Doc → Option Store
  pub size : Doc → ℕ
  pub stamp : ℕ → ℕ
  pub parse-dump : (s : Store) → parse (dump s) ≡ some s

-- `approvals.json` as the file system shows it.
pub record File (Doc : Type 0) : Type 0 where
  pub doc : Doc
  pub mtime : ℕ

pub record Disk (Doc : Type 0) : Type 0 where
  pub pending_dir : Dict Text Text
  pub scripts_dir : Dict Text Text
  pub approvals_path : Option (File Doc)

pub record Manager : Type 0 where
  pub auto_approve : List Text
  pub store : Store
  pub sig : ℕ × ℕ

pub data Action : Type 0 where
  stage_action approve_action reject_action clear_action : Action

-- One line of the audit log.
pub record AuditLine : Type 0 where
  pub action : Action
  pub script : Text
  pub from_state : ApprovalState
  pub to_state : ApprovalState

pub record Host (Doc : Type 0) : Type 0 where
  pub manager : Manager
  pub disk : Disk Doc
  pub audit : List AuditLine

-- The causes of an `ApprovalError`.
pub data ApprovalError : Type 0 where
  is_rejected : Text → ApprovalError
  not_found : Text → ApprovalError
  wrong_state : Text → ApprovalState → ApprovalError
  pending_missing : Text → ApprovalError

abbrev pub Answer : Type 0 → Type 0 → Type 0
Answer Doc A = Result ApprovalError A × Host Doc

-- f"{name}.meta.yaml"
abbrev pub meta_suffix : Text
meta_suffix = codes ".meta.yaml"

abbrev pub meta_name : Text → Text
meta_name name = name ++ meta_suffix

-- `record.state if record else ApprovalState.absent`
abbrev pub state_of : Option ScriptRecord → ApprovalState
state_of none = absent
state_of (some r) = r.state

abbrev pub is_reviewable : ApprovalState → Bool
is_reviewable s = s == pending || s == update_pending

-- `name in self._auto_approve`
unfoldable pub is_auto : Text → List Text → Bool
unfolding any
is_auto name names = any (λ n. n == name) names

-- The records that the transitions write.
abbrev pub blank : ApprovalState → ScriptRecord
blank s = record {
  state = s;
  approved_md5 = none;
  approved_at = none;
  approved_via = none;
  pending_md5 = none;
  rejected_at = none;
}

abbrev pub approved_record : Option Text → ℕ → Via → ScriptRecord
approved_record md5 now via = record (blank approved) {
  approved_md5 = md5;
  approved_at = some now;
  approved_via = some via;
}

abbrev pub pending_record : Text → ScriptRecord
pending_record md5 = record (blank pending) { pending_md5 = some md5 }

abbrev pub update_record : ScriptRecord → Text → ScriptRecord
update_record r md5 = record (blank update_pending) {
  approved_md5 = r.approved_md5;
  approved_at = r.approved_at;
  approved_via = r.approved_via;
  pending_md5 = some md5;
}

abbrev pub rejected_record : ℕ → ScriptRecord
rejected_record now = record (blank rejected) { rejected_at = some now }

-- `_descriptor`
abbrev pub descriptor : Text → ScriptRecord → ScriptDescriptor
descriptor name r = record {
  name = name;
  state = r.state;
  persistent = false;
  approved_md5 = r.approved_md5;
  pending_md5 = r.pending_md5;
}

abbrev pub absent_descriptor : Text → ScriptDescriptor
absent_descriptor name = record {
  name = name;
  state = absent;
  persistent = false;
  approved_md5 = none;
  pending_md5 = none;
}

abbrev pub describe : Text → Option ScriptRecord → ScriptDescriptor
describe name none = absent_descriptor name
describe name (some r) = descriptor name r
