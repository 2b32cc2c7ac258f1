-- ===== src/Shared/Validation.antt =====
-- control_station_lite/shared/_validation.py: unknown fields are dropped from what YAML or TOML has
-- read, and what is left is validated again. `model_validate` of pydantic is a parameter. The keys
-- of a mapping are texts, and the locations of errors go through mappings and sequences only.
use csl.Prelude.{
  ℕ, zero, suc, Text, Text_Eq, Bool, not, ◌==◌, if◌then◌else◌, Option, none, some, List, [], ◌∷◌,
  Result, ok, err, filter, map, codes,
}
mod Paths
pub mod Cleaned

mutual
  pub data Doc (S : Type 0) : Type 0 where
    scalar : S → Doc S
    mapping : Fields S → Doc S
    sequence : Items S → Doc S

  pub data Fields (S : Type 0) : Type 0 where
    no_fields : Fields S
    field : Text → Doc S → Fields S → Fields S

  pub data Items (S : Type 0) : Type 0 where
    no_items : Items S
    item : Doc S → Items S → Items S

pub data Part : Type 0 where
  key : Text → Part
  index : ℕ → Part

module _ {S : Type 0} where
  unfoldable pub field_at : Text → Fields S → Option (Doc S)
  field_at k no_fields = none
  field_at k (field j d fs) = if j == k then some d else field_at k fs

  unfoldable pub item_at : ℕ → Items S → Option (Doc S)
  item_at i no_items = none
  item_at zero (item d ds) = some d
  item_at (suc i) (item d ds) = item_at i ds

  -- obj[part], none where it raises
  unfoldable pub part_of : Part → Doc S → Option (Doc S)
  part_of (key k) (mapping fs) = field_at k fs
  part_of (index i) (sequence ds) = item_at i ds
  part_of p d = none

  unfoldable pub set_field : Text → Doc S → Fields S → Fields S
  set_field k c no_fields = no_fields
  set_field k c (field j d fs) = if j == k then field j c fs else field j d (set_field k c fs)

  unfoldable pub set_item : ℕ → Doc S → Items S → Items S
  set_item i c no_items = no_items
  set_item zero c (item d ds) = item c ds
  set_item (suc i) c (item d ds) = item d (set_item i c ds)

  -- What an object is after a change of its part in place.
  unfoldable pub with_part : Part → Doc S → Doc S → Doc S
  with_part (key k) c (mapping fs) = mapping (set_field k c fs)
  with_part (index i) c (sequence ds) = sequence (set_item i c ds)
  with_part p c d = d

  unfoldable pub pop_field : Text → Fields S → Fields S
  pop_field k no_fields = no_fields
  pop_field k (field j d fs) = let rest = pop_field k fs in if j == k then rest else field j d rest

  -- if isinstance(obj, dict): obj.pop(last, None)
  unfoldable pub pop_last : Part → Doc S → Doc S
  pop_last (key k) (mapping fs) = mapping (pop_field k fs)
  pop_last p d = d

  -- none: a part of the path is missing, or there is no last one
  unfoldable pub delete_at_path : Doc S → List Part → Option (Doc S)
  delete_at_path d [] = none
  delete_at_path d (last ∷ []) = some (pop_last last d)
  delete_at_path d (p ∷ q ∷ path) = elim (part_of p d) [
    | none ↦ none
    | some c ↦ elim (delete_at_path c (q ∷ path)) [
      | none ↦ none
      | some c' ↦ some (with_part p c' d)
    ]
  ]

-- An entry of ValidationError.errors().
pub record ErrorDetail : Type 0 where
  pub type : Text
  pub loc : List Part

-- A ValidationError, or the exception of a location that is not there.
pub data Refusal : Type 0 where
  validation_error : List ErrorDetail → Refusal
  no_location : Refusal

abbrev pub is_extra : ErrorDetail → Bool
is_extra e = e.type == codes "extra_forbidden"

abbrev pub locations : List ErrorDetail → List (List Part)
locations errors = map (λ e. e.loc) (filter is_extra errors)

module _ {S : Type 0} where
  unfoldable pub delete_all : Doc S → List (List Part) → Option (Doc S)
  delete_all d [] = some d
  delete_all d (loc ∷ locs) = elim (delete_at_path d loc) [
    | none ↦ none
    | some c ↦ delete_all c locs
  ]

module _ {S M : Type 0} (model_validate : Doc S → Result (List ErrorDetail) M) where
  unfoldable pub revalidated : Option (Doc S) → Result Refusal M
  revalidated none = err no_location
  revalidated (some cleaned) = elim (model_validate cleaned) [
    | ok m ↦ ok m
    | err errors ↦ err (validation_error errors)
  ]

  -- with the locations that are logged
  unfoldable pub validate_stripping_unknowns : Doc S → List (List Part) × Result Refusal M
  validate_stripping_unknowns raw = elim (model_validate raw) [
    | ok m ↦ ([], ok m)
    | err errors ↦ elim (filter (λ e. not (is_extra e)) errors) [
      | e ∷ es ↦ (locations errors, err (validation_error errors))
      | [] ↦ (locations errors, revalidated (delete_all raw (locations errors)))
    ]
  ]
