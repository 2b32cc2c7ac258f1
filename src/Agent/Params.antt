-- ===== src/Agent/Params.antt =====
-- `validate_params` of control_station_lite/agent/script_runner.py: the parameters of a job against
-- the metadata of its script.
pub mod Valid
use csl.Prelude.{
  any, if◌then◌else◌, ◌==◌, map, ℤ, Text, Text_Eq, Bool, true, false, Option, none, some, List, [],
  ◌∷◌, ◌++◌, Result, ok, err, Dict, lookup, int_eq, pos,
}
use csl.Shared.ScriptMeta.{
  ParamType, string, int, float, bool, choice, path, Numbers, Value, str, integer, real, truth,
  ParamDescriptor,
}

pub data ParamError : Type 0 where
  unknown_param missing_param not_string not_boolean not_integer not_number : Text → ParamError
  not_a_choice too_small too_large : Text → ParamError

abbrev pub Params : Type 0 → Type 0
Params Number = Dict Text (Value Number)

-- A bool is an int in Python.
abbrev pub int_of : Bool → ℤ
int_of true = pos 1
int_of false = pos 0

module _ (nums : Numbers) where
  -- `==` of two parameter values
  unfoldable pub value_eq : Value nums.Number → Value nums.Number → Bool
  value_eq (str s) (str t) = s == t
  value_eq (integer a) (integer b) = int_eq a b
  value_eq (integer a) (truth b) = int_eq a (int_of b)
  value_eq (integer a) (real y) = nums.num_eq (nums.of_int a) y
  value_eq (truth a) (truth b) = int_eq (int_of a) (int_of b)
  value_eq (truth a) (integer b) = int_eq (int_of a) b
  value_eq (truth a) (real y) = nums.num_eq (nums.of_int (int_of a)) y
  value_eq (real x) (real y) = nums.num_eq x y
  value_eq (real x) (integer b) = nums.num_eq x (nums.of_int b)
  value_eq (real x) (truth b) = nums.num_eq x (nums.of_int (int_of b))
  value_eq _ _ = false

  abbrev below : nums.Number → Option nums.Number → Bool
  below x none = false
  below x (some m) = nums.num_lt x m

  abbrev above : nums.Number → Option nums.Number → Bool
  above x none = false
  above x (some m) = nums.num_lt m x

  unfoldable pub check_bounds : ParamDescriptor nums.Number → nums.Number → List ParamError
  check_bounds d x =
      (if below x d.min then too_small d.name ∷ [] else [])
      ++ (if above x d.max then too_large d.name ∷ [] else [])

  -- `_validate_value`, by the type of the parameter and the value
  validate_as : ParamType → ParamDescriptor nums.Number → Value nums.Number → List ParamError
  validate_as string d (str s) = []
  validate_as string d _ = not_string d.name ∷ []
  validate_as path d (str s) = []
  validate_as path d _ = not_string d.name ∷ []
  validate_as bool d (truth b) = []
  validate_as bool d _ = not_boolean d.name ∷ []
  validate_as int d (integer n) = check_bounds d (nums.of_int n)
  validate_as int d _ = not_integer d.name ∷ []
  validate_as float d (integer n) = check_bounds d (nums.of_int n)
  validate_as float d (real x) = check_bounds d x
  validate_as float d _ = not_number d.name ∷ []
  validate_as choice d v = elim d.choices [
    | none ↦ not_a_choice d.name ∷ []
    | some vs ↦ if any (λ w. value_eq w v) vs then [] else not_a_choice d.name ∷ []
  ]

  unfoldable pub validate_value : ParamDescriptor nums.Number → Value nums.Number → List ParamError
  unfolding validate_as
  validate_value d v = validate_as d.type d v

  -- `key not in descriptors`, for each key of the job
  unfoldable pub unknown_params :
      List (ParamDescriptor nums.Number) → Params nums.Number → List ParamError
  unknown_params ds [] = []
  unknown_params ds ((key, v) ∷ params) =
      (if any (λ d. d.name == key) ds then [] else unknown_param key ∷ [])
      ++ unknown_params ds params

  -- The body of the loop over the descriptors.
  unfoldable pub check_param : Params nums.Number → ParamDescriptor nums.Number → List ParamError
  check_param params d = elim (lookup d.name params) [
    | none ↦ if d.required then missing_param d.name ∷ [] else []
    | some v ↦ validate_value d v
  ]

  unfoldable pub check_params :
      Params nums.Number → List (ParamDescriptor nums.Number) → List ParamError
  check_params params [] = []
  check_params params (d ∷ ds) = check_param params d ++ check_params params ds

  -- `meta` is the parsed metadata file, if the script has one.
  unfoldable pub validate_params :
      Option (List (ParamDescriptor nums.Number))
      → Params nums.Number
      → Result (List ParamError) (Unit {0})
  validate_params none [] = ok tt
  validate_params none ((key, v) ∷ params) =
      err (map (λ (k, w). unknown_param k) ((key, v) ∷ params))
  validate_params (some ds) params = elim (unknown_params ds params ++ check_params params ds) [
    | [] ↦ ok tt
    | e ∷ es ↦ err (e ∷ es)
  ]
