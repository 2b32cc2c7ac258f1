-- ===== src/Shared/Tests.antt =====
-- A script name, a bundle and a document with an unknown field.
use csl.Prelude.{any, text_eq, refl, ◌↔◌, ok, codes, ◌≡◌}
use csl.Prelude.{
  pos, Text, Text_Eq, List, [], ◌∷◌, Option, some, Result, err, if◌then◌else◌, ◌==◌, ◌⊎◌, all, true,
  map, filter,
}
use csl.Shared.Validation.{
  Doc, scalar, mapping, Fields, no_fields, field, Part, key, field_at, pop_field, pop_last,
  delete_at_path, delete_all, ErrorDetail, is_extra, revalidated, validate_stripping_unknowns,
}
use csl.Shared.Validation.Cleaned.{IsCleaned, validate_stripping_unknowns-IsCleaned}
use csl.Shared.Registration.{RegistrationBundle, text, other, encode, decode, is_valid_platform}
use csl.Shared.Registration.RoundTrip.{decode-encode}
use csl.Shared.Registration.Plain.{plain_codec}
use csl.Shared.SshCommands.{linux_name}
use csl.Shared.ScriptName.{validate_script_name}
use csl.Shared.ScriptName.Safe.{validate_iff, IsSafe}

validate_iff_example :
    (validate_script_name (codes "backup-v2") ≡ ok (codes "backup-v2")) ↔ IsSafe (codes "backup-v2")
unfolding any
validate_iff_example = validate_iff (codes "backup-v2") refl

abbrev linux_bundle : RegistrationBundle
linux_bundle = record {
  private_key = text (codes "key");
  key_fingerprint = text (codes "SHA256:ab");
  api_token = text (codes "k9");
  agent_port = pos 8765;
  scripts_dir = text (codes "scripts");
  hostname_hint = other (codes "null");
  platform = text linux_name;
  ssh_user = text (codes "csl");
  agent_version = text (codes "1.2.0");
}

decode-encode_example : decode plain_codec (encode plain_codec linux_bundle) ≡ ok linux_bundle
unfolding is_valid_platform text_eq
decode-encode_example = decode-encode plain_codec linux_bundle refl

-- A model that has the field `name` at most.
abbrev unknown_fields : Fields Text → List ErrorDetail
unknown_fields no_fields = []
unknown_fields (field k d fs) =
    let rest = unknown_fields fs in
    if k == codes "name"
    then rest
    else record { type = codes "extra_forbidden"; loc = key k ∷ [] } ∷ rest

abbrev named_model : Doc Text → Result (List ErrorDetail) (Option (Doc Text))
named_model (mapping fs) = elim (unknown_fields fs) [
  | [] ↦ ok (field_at (codes "name") fs)
  | e ∷ es ↦ err (e ∷ es)
]
named_model d = err (record { type = codes "model_type"; loc = [] } ∷ [])

abbrev surprising : Doc Text
surprising = mapping (
    field (codes "name") (scalar (codes "ok"))
      (field (codes "surprise") (scalar (codes "1")) no_fields))

abbrev surprise : List Part
surprise = key (codes "surprise") ∷ []

validate_stripping_unknowns-IsCleaned_example :
    (cleaned : Doc Text) × (named_model cleaned ≡ ok (some (scalar (codes "ok"))))
    × IsCleaned surprising cleaned (surprise ∷ [])
    × (((named_model surprising ≡ ok (some (scalar (codes "ok")))) × (surprise ∷ [] ≡ []))
        ⊎ ((errors : List ErrorDetail) × (named_model surprising ≡ err errors)
            × (all is_extra errors ≡ true)
            × (surprise ∷ [] ≡ map (λ e. e.loc) errors)))
unfolding validate_stripping_unknowns revalidated delete_all delete_at_path pop_last pop_field
    field_at filter text_eq
validate_stripping_unknowns-IsCleaned_example =
    validate_stripping_unknowns-IsCleaned named_model surprising {logged = surprise ∷ []}
      {m = some (scalar (codes "ok"))} refl
