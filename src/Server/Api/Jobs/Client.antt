-- ===== src/Server/Api/Jobs/Client.antt =====
-- What the endpoints of jobs.py need for a client of a machine.
use csl.Prelude.{
  if◌then◌else◌, ◌>>=◌, ◌>>◌, Option, ℕ, Text, Text_Eq, codes, [], ◌∷◌, ◌++◌, none, some, ok, err,
  Bool, Result,
}
use csl.Shared.Registration.{Json, text, number, other}
use csl.Server.Core.Crypto.{Aead, decrypt, DecryptError}
use csl.Server.Core.Errors.{HttpException, http_exception, uncaught}
use csl.Server.Core.Registry.Table.{ScriptRow}
use csl.Server.Core.ScriptSync.Sync.{Script}
use csl.Server.Core.AgentClient.{Link}
use csl.Server.Api.Machines.{Machine}

pub record SubmitJobIn (Params : Type 0) : Type 0 where
  pub script_name : Text
  pub params : Params

-- The authorization that a client of a machine sends, unless the token cannot be decrypted.
unfoldable pub auth_header : Aead → Text → Machine → Result HttpException Text
auth_header aead master_key machine = elim machine.agent_token_encrypted [
  | none ↦ ok []
  | some [] ↦ ok []
  | some (c ∷ blob) ↦ elim (decrypt aead (c ∷ blob) master_key) [
    | err e ↦ err uncaught
    | ok token ↦ ok (codes "Bearer " ++ token)
  ]
]

-- The key of the platform in WAKEUP_CMD; what is no text is none.
abbrev pub platform_name : Json → Text
platform_name (text p) = p
platform_name (number z) = []
platform_name (other s) = []

abbrev pub script_of : Text → ScriptRow → Script
script_of name row = record {
  id = row.id;
  name = name;
  content = row.content;
  meta_yaml = row.meta_yaml;
  md5 = row.md5;
}

abbrev pub script_or_404 : Option ScriptRow → Result HttpException ScriptRow
script_or_404 none = err (http_exception 404)
script_or_404 (some row) = ok row

abbrev pub decrypted : Result DecryptError Text → Result HttpException Text
decrypted (ok key) = ok key
decrypted (err e) = err uncaught

-- What is given from outside during a request: the key of the server, the time, the number of the job,
-- whether the tunnel to the agent opens, and what the requests through it meet.
pub record Surroundings (State : Type 0) : Type 0 where
  pub master_key : Text
  pub now : ℕ
  pub job_uuid : Text
  pub tunnel_opens : Bool
  pub link : Link State

-- The opening of a client: the key of the machine, the tunnel, and the authorization.
unfoldable pub opened :
    {State : Type 0} → Aead → Surroundings State → Machine → Result HttpException Text
opened aead w machine = do
  key ← decrypted (decrypt aead machine.ssh_key_encrypted w.master_key)
  if w.tunnel_opens then ok tt else err uncaught
  auth_header aead w.master_key machine
