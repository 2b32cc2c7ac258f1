-- ===== src/Shared/ScriptMeta.antt =====
-- control_station_lite/shared/script_meta.py: the metadata of a script and its validators. YAML and
-- the field checks of pydantic are not modelled: a `ScriptMeta` is what they hand to the validators.
use csl.Prelude.{
  ◌||◌, ◌==◌, not, ◌&&◌, any, if◌then◌else◌, ◌≡◌, ℤ, Text, Text_Eq, Bool, true, false, Option, none,
  some, List, [], ◌∷◌, Result, ok, err,
}

pub data ParamType : Type 0 where
  string int float bool choice path : ParamType

-- The numbers of Python, ints and floats alike, and their comparisons, which are exact between an
-- int and a float. No number is below NaN or above it.
pub record Numbers : Type 1 where
  pub Number : Type 0
  pub num_lt : Number → Number → Bool
  pub num_eq : Number → Number → Bool
  pub of_int : ℤ → Number
  pub not_a_number : Number
  pub nan-lt : (x : Number) → num_lt not_a_number x ≡ false
  pub lt-nan : (x : Number) → num_lt x not_a_number ≡ false

pub data Value (Number : Type 0) : Type 0 where
  str : Text → Value Number
  integer : ℤ → Value Number
  real : Number → Value Number
  truth : Bool → Value Number

-- `has_default` says that `default` is not None.
pub record ParamDescriptor (Number : Type 0) : Type 0 where
  pub name : Text
  pub type : ParamType
  pub required : Bool
  pub has_default : Bool
  pub min : Option Number
  pub max : Option Number
  pub choices : Option (List (Value Number))

pub record ScriptMeta (Number : Type 0) : Type 0 where
  pub description : Text
  pub persistent : Bool
  pub tags : List Text
  pub params : List (ParamDescriptor Number)

pub data ScriptMetaError : Type 0 where
  choices_required bounds_not_numeric default_required duplicate_param : Text → ScriptMetaError

abbrev is_choice : ParamType → Bool
is_choice choice = true
is_choice _ = false

abbrev pub is_numeric : ParamType → Bool
is_numeric int = true
is_numeric float = true
is_numeric _ = false

abbrev is_given {ℓ} : {A : Type ℓ} → Option A → Bool
is_given none = false
is_given (some a) = true

-- `not self.choices`
abbrev no_choices {ℓ} : {A : Type ℓ} → Option (List A) → Bool
no_choices (some (v ∷ vs)) = false
no_choices _ = true

module _ {Number : Type 0} where
  -- `_validate_constraints`; the warning on a required parameter with a default is a log line.
  unfoldable pub validate_constraints :
      ParamDescriptor Number → Result ScriptMetaError (ParamDescriptor Number)
  validate_constraints p =
      if is_choice p.type && no_choices p.choices
      then err (choices_required p.name)
      else if not (is_numeric p.type) && (is_given p.min || is_given p.max)
      then err (bounds_not_numeric p.name)
      else if not p.required && not p.has_default
      then err (default_required p.name)
      else ok p

  -- The loop of `_unique_param_names`, over the names seen so far.
  unfoldable pub unique_from : List Text → List (ParamDescriptor Number) → Option Text
  unique_from seen [] = none
  unique_from seen (p ∷ ps) =
      let rest = unique_from (p.name ∷ seen) ps in
      if any (λ n. n == p.name) seen then some p.name else rest

  unfoldable pub unique_param_names : ScriptMeta Number → Result ScriptMetaError (ScriptMeta Number)
  unfolding unique_from
  unique_param_names m = elim (unique_from [] m.params) [
    | none ↦ ok m
    | some name ↦ err (duplicate_param name)
  ]
