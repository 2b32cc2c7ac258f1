-- ===== src/Server/Api/Machines/Registered.antt =====
-- What is known of a machine that has been registered.
use csl.Prelude.{
  on_error-ok, map, inr, inl, false, Bool-cases, on_error, length, List, ℤ, Text, Text_Eq, none,
  some, true, ok, ◌≡◌, Option, arith, >>=-eq-ok,
}
use csl.Shared.Registration.{decode, Json, text, number, other, Codec, RegistrationBundle}
use csl.Server.Core.Crypto.{decrypt-encrypt, encrypt, decrypt, nonce_size, Aead}
use csl.Server.Api.Machines.Register.{
  tested_machine, user_or, has_name, RegisterMachineIn, new_machine, Moment, World, Config,
  Connection, ssh_connection_test, encoded, from_option, loaded, remote_fingerprint, config_cmd,
}
use csl.Prelude.{◌++◌, ◌∷◌, [], refl, ℕ}
use csl.Server.Api.Machines.Register.{register_machine_from_input}
use csl.Server.Api.Machines.{Machine, MachineTables}
use csl.Server.Api.Machines.Version.{assert_version_compatible}
use csl.Server.Api.Machines.Majors.{IsCompatible, assert_version_compatible-IsCompatible}

encoded-ok : (j : Json) {s : Text} → encoded j ≡ ok s → j ≡ text s
encoded-ok (text t) e = ground arith
encoded-ok (number z) e = cc
encoded-ok (other t) e = cc

from_option-ok : (o : Option Text) {s : Text} → from_option o ≡ ok s → o ≡ some s
from_option-ok none e = cc
from_option-ok (some t) e = ground arith

loaded-ok : (o : Option Config) {x : Config} → loaded o ≡ ok x → o ≡ some x
loaded-ok none e = cc
loaded-ok (some y) e = ground arith

module _ (c : Codec) (w : World) (aead : Aead) where
  -- The target that the test has met shows the host key, and its configuration the fingerprint.
  pub record IsShownBy (bundle : RegistrationBundle) (user : Json) (host : Text) (port : ℤ)
      (host_key_line : Text) : Type 0 where
    pub conn : Connection
    pub stdout : Text
    pub config_data : Config
    pub remote : Json
    pub connected : w.connect host port user bundle.private_key ≡ ok conn
    pub shown : conn.server_host_key ≡ some host_key_line
    pub answered : conn.run (config_cmd bundle.platform) ≡ ok stdout
    pub read : w.safe_load stdout ≡ some config_data
    pub found : remote_fingerprint config_data ≡ ok remote
    pub matches : w.same remote bundle.key_fingerprint ≡ true

  ssh_connection_test-IsShownBy :
      (bundle : RegistrationBundle) (user : Json) (host : Text) (port : ℤ) {line : Text}
      → ssh_connection_test c w aead bundle user host port ≡ ok line
      → IsShownBy bundle user host port line
  unfolding ssh_connection_test
  ssh_connection_test-IsShownBy bundle user host port {line} e =
      let (conn, a, e1) = >>=-eq-ok (w.connect host port user bundle.private_key) _ e in
      let (key, b, e2) = >>=-eq-ok (from_option conn.server_host_key) _ e1 in
      let (stdout, d, e3) = >>=-eq-ok (conn.run (config_cmd bundle.platform)) _ e2 in
      let (config_data, f, e4) = >>=-eq-ok (loaded (w.safe_load stdout)) _ e3 in
      let (remote, g, e5) = >>=-eq-ok (remote_fingerprint config_data) _ e4 in
      record {
        conn = conn;
        stdout = stdout;
        config_data = config_data;
        remote = remote;
        connected = a;
        shown = from_option-ok conn.server_host_key (ground (arith, b, e5));
        answered = d;
        read = loaded-ok (w.safe_load stdout) f;
        found = g;
        matches = ground (arith, e5);
      }

  -- The machine is the target of a bundle for this version that shows the fingerprint of the bundle when
  -- it is reached with the bundle's key; its row pins the host key that was shown, and hides the key and
  -- the token of the bundle so that the server's key opens them again.
  pub record IsRegistered (at : Moment) (body : RegisterMachineIn) (machines : List Machine)
      (m : Machine) : Type 0 where
    pub bundle : RegistrationBundle
    pub host_key_line : Text
    pub key : Text
    pub token : Text
    pub sealed_token : Text
    pub decoded : decode c body.bundle ≡ ok bundle
    pub agent : Text
    pub agent_version : bundle.agent_version ≡ text agent
    pub compatible : IsCompatible agent at.server_version
    pub unnamed : has_name body.name machines ≡ false
    pub shown :
        IsShownBy bundle
          (user_or body.ssh_user bundle.ssh_user)
          body.ssh_host
          body.ssh_port
          host_key_line
    pub private_key : bundle.private_key ≡ text key
    pub api_token : bundle.api_token ≡ text token
    pub numbered : m.id ≡ w.new_id (map (λ m. m.id) machines)
    pub named : m.name ≡ body.name
    pub pinned : m.ssh_host_key ≡ some host_key_line
    pub fingerprint : m.key_fingerprint ≡ bundle.key_fingerprint
    pub key_kept : decrypt aead m.ssh_key_encrypted at.master_key ≡ ok key
    pub token_stored : m.agent_token_encrypted ≡ some sealed_token
    pub token_kept : decrypt aead sealed_token at.master_key ≡ ok token

  new_machine-IsRegistered :
      (at : Moment) (body : RegisterMachineIn) (machines : List Machine) {m : Machine}
      → length at.key_nonce ≡ nonce_size
      → length at.token_nonce ≡ nonce_size
      → new_machine c w aead at body machines ≡ ok m
      → IsRegistered at body machines m
  unfolding new_machine tested_machine
  new_machine-IsRegistered at body machines {m} k t e =
      let (bundle, a, e1) = >>=-eq-ok (on_error _ (decode c body.bundle)) _ e in
      let (u, b, e2) =
        >>=-eq-ok (assert_version_compatible at.server_version bundle.agent_version) _ e1 in
      elim (Bool-cases (has_name body.name machines)) [
        | inl n ↦ absurd (ground arith)
        | inr n ↦
            let e3 : tested_machine c w aead at body bundle machines ≡ ok m =
              ground (arith, e2, n) in
            let (line, d, e4) =
              >>=-eq-ok
                (on_error _ (
                  ssh_connection_test c w aead bundle (user_or body.ssh_user bundle.ssh_user)
                    body.ssh_host body.ssh_port))
                _ e3 in
            let (key, f, e5) = >>=-eq-ok (encoded bundle.private_key) _ e4 in
            let (token, g, e6) = >>=-eq-ok (encoded bundle.api_token) _ e5 in
            let (agent, is_text, fits) =
              assert_version_compatible-IsCompatible at.server_version bundle.agent_version b in
            record {
              bundle = bundle;
              host_key_line = line;
              key = key;
              token = token;
              sealed_token = encrypt aead at.token_nonce token at.master_key;
              decoded = on_error-ok _ (decode c body.bundle) a;
              agent = agent;
              agent_version = is_text;
              compatible = fits;
              unnamed = n;
              shown =
                  ssh_connection_test-IsShownBy bundle (user_or body.ssh_user bundle.ssh_user)
                    body.ssh_host body.ssh_port (on_error-ok _ _ d);
              private_key = encoded-ok bundle.private_key f;
              api_token = encoded-ok bundle.api_token g;
              numbered = ground (arith, e6);
              named = ground (arith, e6);
              pinned = ground (arith, e6);
              fingerprint = ground (arith, e6);
              key_kept = ground (arith, e6, decrypt-encrypt aead at.key_nonce key at.master_key k);
              token_stored = ground (arith, e6);
              token_kept = decrypt-encrypt aead at.token_nonce token at.master_key t;
            }
      ]

  -- A machine is registered only when the target that the request names shows the fingerprint of the
  -- bundle, under a name that is not taken; and the versions of agent and server begin with the same number,
  -- or one of them with none, as that of a source checkout. Its row pins the host key
  -- that the target has shown, the server's key opens the bundle's private key and token again, and the
  -- row comes behind the others. The two nonces have the size that AES-GCM asks for.
  pub register_machine-IsRegistered :
      (at : Moment) (body : RegisterMachineIn) (admin_id : ℕ) (t : MachineTables) {m : Machine}
      → length at.key_nonce ≡ nonce_size
      → length at.token_nonce ≡ nonce_size
      → (register_machine_from_input c w aead at body admin_id t).0 ≡ ok m
      → IsRegistered at body t.machines m
        × ((register_machine_from_input c w aead at body admin_id t).1.machines
            ≡ t.machines ++ (m ∷ []))
  unfolding register_machine_from_input
  register_machine-IsRegistered at body admin_id t {m} k n e =
      let new : new_machine c w aead at body t.machines ≡ ok m = ground arith in
      (
        new_machine-IsRegistered at body t.machines k n new,
        rw (register_machine_from_input, new) refl,
      )
