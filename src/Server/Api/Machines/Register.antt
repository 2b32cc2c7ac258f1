-- ===== src/Server/Api/Machines/Register.antt =====
-- `_ssh_connection_test` and `register_machine_from_input` of
-- control_station_lite/server/api/machines.py.
use csl.Prelude.{
  on_error, ℕ, ℤ, Text, Dict, Text_Eq, ◌==◌, codes, [], ◌∷◌, ◌++◌, List, none, some, true, false,
  ok, err, ◌≡◌, Bool, not, nat_eq, any, lookup, map, Result, Option, if◌then◌else◌, ◌>>=◌, ◌>>◌,
}
use csl.Shared.Registration.{
  malformed_json, not_base64, unknown_platform, missing_fields, bad_port, Json, text, number, other,
  Codec, RegistrationBundle, BundleError, decode, not_a_mapping,
}
use csl.Server.Auth.Sessions.{AuditRow, text_value, number_value, record_audit}
use csl.Server.Core.Errors.{HttpException, http_exception, uncaught}
use csl.Server.Core.Crypto.{Aead, encrypt}
use csl.Server.Api.Machines.{Machine, MachineTables}
use csl.Server.Api.Machines.Version.{assert_version_compatible}
use csl.Agent.Gateway.{remote_config_cmd}

pub record RegisterMachineIn : Type 0 where
  pub bundle : Text
  pub name : Text
  pub ssh_host : Text
  pub ssh_port : ℤ
  pub ssh_user : Option Text
  pub mac_address : Option Text

-- An `OSError`, an `asyncssh.Error` or a `ValueError`; or any other exception.
pub data TestFailure : Type 0 where
  expected unexpected : TestFailure

-- The value under `identity` of the agent's configuration, where what is false in Python is one case.
pub data Identity : Type 0 where
  nothing : Identity
  fields : Dict Text Json → Identity
  no_fields : Identity

-- A configuration as YAML reads it: false, a mapping with an identity or without, or something else.
pub data Config : Type 0 where
  empty : Config
  mapping : Identity → Config
  no_mapping : Config

-- A connection: the host key as a line, if the target has shown one, and the output of a command.
pub record Connection : Type 0 where
  pub server_host_key : Option Text
  pub run : Text → Result TestFailure Text

-- What the packages do: `asyncssh` opens a connection with a host, a port, a user and a private key;
-- `yaml` reads a configuration; two values are equal for Python; the database numbers a new row.
pub record World : Type 0 where
  pub connect : Text → ℤ → Json → Json → Result TestFailure Connection
  pub safe_load : Text → Option Config
  pub same : Json → Json → Bool
  pub new_id : List ℕ → ℕ
  pub same-text : (j : Json) (s : Text) → same j (text s) ≡ true → j ≡ text s
  pub new_id-fresh : (ids : List ℕ) → any (λ i. nat_eq i (new_id ids)) ids ≡ false

-- What the server takes from its surroundings: its version, its key, the time and two nonces.
pub record Moment : Type 0 where
  pub server_version : Text
  pub master_key : Text
  pub now : ℕ
  pub key_nonce : Text
  pub token_nonce : Text

abbrev null : Json
null = other (codes "null")

abbrev or_null : Option Json → Json
or_null none = null
or_null (some v) = v

-- (config_data.get("identity") or {}).get("key_fingerprint")
unfoldable pub remote_fingerprint : Config → Result TestFailure Json
remote_fingerprint empty = ok null
remote_fingerprint no_mapping = err expected
remote_fingerprint (mapping nothing) = ok null
remote_fingerprint (mapping no_fields) = err unexpected
remote_fingerprint (mapping (fields d)) = ok (or_null (lookup (codes "key_fingerprint") d))

-- _remote_config_cmd(bundle.platform)
abbrev pub config_cmd : Json → Text
config_cmd (text p) = remote_config_cmd p
config_cmd (number z) = remote_config_cmd []
config_cmd (other s) = remote_config_cmd []

abbrev platform_text : Json → Text
platform_text (text p) = p
platform_text (number z) = []
platform_text (other s) = []

-- s.encode(), of ASCII characters, as keys and tokens are
abbrev pub encoded : Json → Result HttpException Text
encoded (text s) = ok s
encoded (number z) = err uncaught
encoded (other s) = err uncaught

-- body.ssh_user or bundle.ssh_user
abbrev pub user_or : Option Text → Json → Json
user_or none j = j
user_or (some []) j = j
user_or (some (c ∷ s)) j = text (c ∷ s)

abbrev pub from_option : Option Text → Result TestFailure Text
from_option none = err expected
from_option (some s) = ok s

abbrev pub loaded : Option Config → Result TestFailure Config
loaded none = err expected
loaded (some c) = ok c

-- `int` raises a `ValueError` on a text and on NaN, and other exceptions on what else it does not take.
unfoldable pub bundle_exception : BundleError → HttpException
bundle_exception not_a_mapping = uncaught
bundle_exception (bad_port (text s)) = http_exception 400
bundle_exception (bad_port (number z)) = http_exception 400
bundle_exception (bad_port (other s)) = if s == codes "NaN" then http_exception 400 else uncaught
bundle_exception not_base64 = http_exception 400
bundle_exception malformed_json = http_exception 400
bundle_exception (missing_fields names) = http_exception 400
bundle_exception (unknown_platform p) = http_exception 400

abbrev test_exception : TestFailure → HttpException
test_exception expected = http_exception 422
test_exception unexpected = uncaught

abbrev pub has_name : Text → List Machine → Bool
has_name name = any (λ m. m.name == name)

module _ (c : Codec) (w : World) (aead : Aead) where
  unfoldable pub ssh_connection_test :
      RegistrationBundle → Json → Text → ℤ → Result TestFailure Text
  ssh_connection_test bundle ssh_user ssh_host ssh_port = do
    conn ← w.connect ssh_host ssh_port ssh_user bundle.private_key
    host_key_line ← from_option conn.server_host_key
    stdout ← conn.run (config_cmd bundle.platform)
    config_data ← loaded (w.safe_load stdout)
    remote ← remote_fingerprint config_data
    if not (w.same remote bundle.key_fingerprint) then err expected else ok host_key_line

  -- The test, and the row to add when it passes.
  unfoldable pub tested_machine :
      Moment → RegisterMachineIn → RegistrationBundle → List Machine → Result HttpException Machine
  tested_machine at body bundle machines = do
    host_key_line ← on_error test_exception (
        ssh_connection_test bundle (user_or body.ssh_user bundle.ssh_user) body.ssh_host
          body.ssh_port)
    private_key ← encoded bundle.private_key
    api_token ← encoded bundle.api_token
    ok (record {
      id = w.new_id (map (λ m. m.id) machines);
      name = body.name;
      ssh_host = body.ssh_host;
      ssh_port = body.ssh_port;
      ssh_user = user_or body.ssh_user bundle.ssh_user;
      ssh_key_encrypted = encrypt aead at.key_nonce private_key at.master_key;
      key_fingerprint = bundle.key_fingerprint;
      ssh_host_key = some host_key_line;
      agent_token_encrypted = some (encrypt aead at.token_nonce api_token at.master_key);
      agent_port = bundle.agent_port;
      scripts_dir = bundle.scripts_dir;
      platform = bundle.platform;
      mac_address = body.mac_address;
      created_at = at.now;
    })

  -- What comes in front of it.
  unfoldable pub new_machine :
      Moment → RegisterMachineIn → List Machine → Result HttpException Machine
  new_machine at body machines = do
    bundle ← on_error bundle_exception (decode c body.bundle)
    assert_version_compatible at.server_version bundle.agent_version
    if has_name body.name machines
        then err (http_exception 409)
        else tested_machine at body bundle machines

  abbrev audit_register : ℕ → ℕ → Machine → AuditRow
  audit_register now admin_id machine =
      record_audit now (codes "machine.register") (codes "machine") (some (number_value machine.id))
        (codes "success") (some admin_id)
        ((codes "name", text_value machine.name)
          ∷ (codes "ssh_host", text_value machine.ssh_host)
          ∷ (codes "platform", text_value (platform_text machine.platform))
          ∷ [])

  unfoldable pub register_machine_from_input :
      Moment → RegisterMachineIn → ℕ → MachineTables → Result HttpException Machine × MachineTables
  register_machine_from_input at body admin_id t = elim (new_machine at body t.machines) [
    | err e ↦ (err e, t)
    | ok machine ↦ (
      ok machine,
      record t {
        machines = t.machines ++ (machine ∷ []);
        audit_log = t.audit_log ++ (audit_register at.now admin_id machine ∷ []);
      },
    )
  ]
