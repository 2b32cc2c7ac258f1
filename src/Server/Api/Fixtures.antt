-- ===== src/Server/Api/Fixtures.antt =====
-- A control station, its users and a target, for the tests.
use csl.Prelude.{
  ℕ, pos, Text, Dict, Text_Eq, text_eq_iff, text_eq, codes, [], ◌∷◌, List, none, some, suc, true,
  false, ok, Bool, Option, ◌≡◌, ◌+◌, ◌<◌, nat_eq, any, arith, refl,
}
use csl.Shared.Registration.{Json, text, number, other, encode}
use csl.Shared.Registration.Plain.{plain_codec}
use csl.Shared.SshCommands.{linux_name}
use csl.Shared.Models.{JobStatus}
use csl.Server.Auth.Sessions.{User}
use csl.Server.Core.Crypto.{Aead}
use csl.Server.Core.AgentClient.{Link}
use csl.Agent.Approvals.Data.{Store}
use csl.Agent.Processes.Records.{JobEntry}
use csl.Agent.Api.Wire.{Agent}
use csl.Agent.Fixtures.{noon}
use csl.Server.Api.Machines.{Machine, MachineTables}
use csl.Server.Api.Machines.Register.{World, RegisterMachineIn, Moment, mapping, fields}
use csl.Server.Api.Jobs.{JobTables, JobRow}
use csl.Server.Api.Jobs.Client.{Surroundings}

-- A cipher that hides nothing.
abbrev pub open_aead : Aead
open_aead = record {
  aes_encrypt = λ key nonce plaintext. plaintext;
  aes_decrypt = λ key nonce ciphertext. some ciphertext;
  decrypts = λ key nonce plaintext. refl;
}

abbrev pub text_same : Json → Json → Bool
text_same (text s) (text t) = text_eq s t
text_same _ _ = false

pub text_same-text : (j : Json) (s : Text) → text_same j (text s) ≡ true → j ≡ text s
text_same-text (text t) s h = ground (arith, text_eq_iff t s)
text_same-text (number z) s h = cc
text_same-text (other t) s h = cc

abbrev pub sum : List ℕ → ℕ
sum [] = 0
sum (i ∷ ids) = i + sum ids

pub sum-fresh : (ids : List ℕ) (n : ℕ) → sum ids < n → any (λ i. nat_eq i n) ids ≡ false
unfolding any
sum-fresh [] n h = refl
sum-fresh (i ∷ ids) n h = ground (arith, sum-fresh ids n)

-- A target that shows a host key and prints its fingerprint.
abbrev pub world : World
world = record {
  connect = λ host port user key. ok (record {
    server_host_key = some (codes "ssh-ed25519 AA");
    run = λ cmd. ok (codes "SHA256:ab");
  });
  safe_load = λ s. some (mapping (fields ((codes "key_fingerprint", text s) ∷ [])));
  same = text_same;
  new_id = λ ids. suc (sum ids);
  same-text = text_same-text;
  new_id-fresh = λ ids. sum-fresh ids (suc (sum ids)) (omega arith);
}

abbrev pub twelve : Text
twelve = codes "0123456789ab"

abbrev pub monday : Moment
monday = record {
  server_version = codes "1.4.0";
  master_key = codes "m";
  now = 100;
  key_nonce = twelve;
  token_nonce = twelve;
}

abbrev pub box_request : RegisterMachineIn
box_request = record {
  bundle = encode plain_codec (record {
    private_key = text (codes "key");
    key_fingerprint = text (codes "SHA256:ab");
    api_token = text (codes "k9");
    agent_port = pos 8765;
    scripts_dir = text (codes "scripts");
    hostname_hint = other (codes "null");
    platform = text linux_name;
    ssh_user = text (codes "csl");
    agent_version = text (codes "1.2.0");
  });
  name = codes "box";
  ssh_host = codes "box.lan";
  ssh_port = pos 22;
  ssh_user = none;
  mac_address = none;
}

abbrev pub ann : User
ann = record {
  id = 1;
  username = codes "ann";
  password_hash = [];
  role = codes "admin";
  disabled = false;
}

abbrev pub bob : User
bob = record {
  id = 2;
  username = codes "bob";
  password_hash = [];
  role = codes "user";
  disabled = false;
}

abbrev pub no_machines : MachineTables
no_machines = record { machines = []; user_machines = []; audit_log = [] }

abbrev pub box_row : Machine
box_row = record {
  id = 1;
  name = codes "box";
  ssh_host = codes "box.lan";
  ssh_port = pos 22;
  ssh_user = text (codes "csl");
  ssh_key_encrypted = codes "0123456789abkey";
  key_fingerprint = text (codes "SHA256:ab");
  ssh_host_key = some (codes "ssh-ed25519 AA");
  agent_token_encrypted = some (codes "0123456789abk9");
  agent_port = pos 8765;
  scripts_dir = text (codes "scripts");
  platform = text linux_name;
  mac_address = none;
  created_at = 100;
}

abbrev pub good_link : Link (Agent (Option Store) (Dict Text JobEntry))
good_link = record {
  arrives = λ n. true;
  moment = λ n. noon;
  ssh_opens = true;
  run_command = λ cmd a. a;
}

abbrev pub station : Surroundings (Agent (Option Store) (Dict Text JobEntry))
station = record {
  master_key = codes "m";
  now = 101;
  job_uuid = codes "c";
  tunnel_opens = true;
  link = good_link;
}

abbrev pub running_row : JobRow
running_row = record {
  job_uuid = codes "a";
  machine_id = 1;
  script_id = some 7;
  user_id = 1;
  params_json = [];
  status = JobStatus.running;
  persistent = true;
  started_at = 41;
  ended_at = none;
  exit_code = none;
}

abbrev pub station_tables : JobTables
station_tables = record {
  machines = box_row ∷ [];
  user_machines = (2, 1) ∷ [];
  scripts =
      (
        codes "backup",
        record {
          id = 7;
          content = codes "v1";
          meta_yaml = none;
          md5 = codes "v1";
          persistent = false;
          updated_at = 3;
          updated_by = 1;
        },
      )
      ∷ [];
  target_states = [];
  jobs = running_row ∷ [];
  audit_log = [];
}
