-- ===== src/Shared/Registration.antt =====
-- control_station_lite/shared/registration.py: the bundle that a target hands to the control station.
pub mod RoundTrip
pub mod Plain
use csl.Prelude.{
  false, ◌||◌, ok, member, not, Text_Eq, ◌≡◌, if◌then◌else◌, err, ◌==◌, lookup, Result, Bool, Dict,
  ℤ, Text, codes, Option, none, some, List, [], ◌∷◌,
}
use csl.Shared.SshCommands.{macos_name, windows_name, linux_name}

-- A value of a JSON object; what is neither a string nor an integer stands by its JSON text.
pub data Json : Type 0 where
  text : Text → Json
  number : ℤ → Json
  other : Text → Json

-- A JSON document: an object, or something else.
pub data Document : Type 0 where
  object : Dict Text Json → Document
  not_object : Text → Document

-- `base64` and `json`, and `int(...)` of a value, which fails for some.
pub record Codec : Type 0 where
  pub b64encode : Text → Text
  pub b64decode : Text → Option Text
  pub dumps : Dict Text Json → Text
  pub loads : Text → Option Document
  pub int_of : Json → Option ℤ
  pub b64decode-b64encode : (s : Text) → b64decode (b64encode s) ≡ some s
  pub loads-dumps : (d : Dict Text Json) → loads (dumps d) ≡ some (object d)
  pub int_of-number : (z : ℤ) → int_of (number z) ≡ some z

-- The fields but the port are taken over as they are.
pub record RegistrationBundle : Type 0 where
  pub private_key : Json
  pub key_fingerprint : Json
  pub api_token : Json
  pub agent_port : ℤ
  pub scripts_dir : Json
  pub hostname_hint : Json
  pub platform : Json
  pub ssh_user : Json
  pub agent_version : Json

-- The causes of the `ValueError`s, and two exceptions of other types: of `data.keys()` on what is no
-- object, and of `int(...)` on what it cannot take, which may be a `ValueError` or a `TypeError`.
pub data BundleError : Type 0 where
  not_base64 malformed_json : BundleError
  missing_fields : List Text → BundleError
  unknown_platform : Json → BundleError
  bad_port : Json → BundleError
  not_a_mapping : BundleError

abbrev pub required_fields : List Text
required_fields =
    codes "private_key"
    ∷ codes "key_fingerprint"
    ∷ codes "api_token"
    ∷ codes "agent_port"
    ∷ codes "scripts_dir"
    ∷ codes "hostname_hint"
    ∷ codes "platform"
    ∷ codes "ssh_user"
    ∷ codes "agent_version"
    ∷ []

-- platform in _VALID_PLATFORMS
unfoldable pub is_valid_platform : Json → Bool
is_valid_platform (text s) = s == linux_name || s == windows_name || s == macos_name
is_valid_platform _ = false

-- _REQUIRED_FIELDS - data.keys()
unfoldable pub missing_from : List Text → Dict Text Json → List Text
missing_from [] d = []
missing_from (f ∷ fields) d =
    let rest = missing_from fields d in if member f d then rest else f ∷ rest

-- data[key], for a key that is there
unfoldable pub field : Text → Dict Text Json → Json
field key d = elim (lookup key d) [ none ↦ other [] | some v ↦ v ]

module _ (c : Codec) where
  -- The checks on the object, and the bundle that passes them.
  unfoldable pub from_object : Dict Text Json → Result BundleError RegistrationBundle
  from_object d = elim (missing_from required_fields d) [
    | f ∷ fields ↦ err (missing_fields (f ∷ fields))
    | [] ↦
        if not (is_valid_platform (field (codes "platform") d))
        then err (unknown_platform (field (codes "platform") d))
        else elim (c.int_of (field (codes "agent_port") d)) [
          | none ↦ err (bad_port (field (codes "agent_port") d))
          | some port ↦ ok (record {
            private_key = field (codes "private_key") d;
            key_fingerprint = field (codes "key_fingerprint") d;
            api_token = field (codes "api_token") d;
            agent_port = port;
            scripts_dir = field (codes "scripts_dir") d;
            hostname_hint = field (codes "hostname_hint") d;
            platform = field (codes "platform") d;
            ssh_user = field (codes "ssh_user") d;
            agent_version = field (codes "agent_version") d;
          })
        ]
  ]

  unfoldable pub decode : Text → Result BundleError RegistrationBundle
  decode bundle = elim (c.b64decode bundle) [
    | none ↦ err not_base64
    | some raw ↦ elim (c.loads raw) [
      | none ↦ err malformed_json
      | some (not_object s) ↦ err not_a_mapping
      | some (object d) ↦ from_object d
    ]
  ]

  -- `encode_bundle` with the arguments that `encode` gives it
  abbrev pub payload : RegistrationBundle → Dict Text Json
  payload b =
      (codes "private_key", b.private_key)
      ∷ (codes "key_fingerprint", b.key_fingerprint)
      ∷ (codes "api_token", b.api_token)
      ∷ (codes "agent_port", number b.agent_port)
      ∷ (codes "scripts_dir", b.scripts_dir)
      ∷ (codes "hostname_hint", b.hostname_hint)
      ∷ (codes "platform", b.platform)
      ∷ (codes "ssh_user", b.ssh_user)
      ∷ (codes "agent_version", b.agent_version)
      ∷ []

  unfoldable pub encode : RegistrationBundle → Text
  encode b = c.b64encode (c.dumps (payload b))
