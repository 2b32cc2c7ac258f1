-- ===== src/Server/Web/Form.antt =====
-- The parameters that `run_submit` of control_station_lite/server/web/machines.py makes of its form.
pub mod Typed
use csl.Prelude.{
  insert, lookup, Result, List, Bool, Option, ℕ, ℤ, pos, Text, Dict, Text_Eq, codes, [], ◌∷◌, ◌++◌,
  none, some, true, false, ok, err, ◌>>=◌, ◌≡◌,
}
use csl.Shared.ScriptMeta.{
  path, choice, string, float, int, bool, str, real, integer, truth, Value, ParamType, Numbers,
  ParamDescriptor,
}
use csl.Agent.Params.{Params}
use csl.Server.Core.Errors.{uncaught, HttpException}

-- What a conversion of Python does: a ValueError or a TypeError, which the form catches, or an
-- OverflowError, which it does not.
pub data Conversion (A : Type 0) : Type 0 where
  value : A → Conversion A
  rejected overflow : Conversion A

-- `int`, `float` and `str`, on texts and on the defaults, which may be anything that YAML gives.
pub record Builtins (nums : Numbers) : Type 1 where
  pub Any : Type 0
  pub int_text : Text → Conversion ℤ
  pub float_text : Text → Conversion nums.Number
  pub int_any : Any → Conversion ℤ
  pub float_any : Any → Conversion nums.Number
  pub str_any : Any → Text

-- A parameter of the metadata with its default.
pub record Field (Number Any : Type 0) : Type 0 where
  pub descriptor : ParamDescriptor Number
  pub default : Option Any

-- A field of the form holds a text or a file.
pub data FormValue : Type 0 where
  field_text : Text → FormValue
  upload : FormValue

abbrev pub raw_of : Option FormValue → Option Text
raw_of (some (field_text s)) = some s
raw_of _ = none

module _ {nums : Numbers} (py : Builtins nums) where
  -- `int(raw) if raw else (int(p.default) if p.default is not None else 0)`, and likewise for floats
  unfoldable pub convert :
      {A : Type 0}
      → (Text → Conversion A)
      → (py.Any → Conversion A)
      → A
      → Option Text
      → Option py.Any
      → Conversion A
  convert of_text of_any zero_value (some (c ∷ raw)) default = of_text (c ∷ raw)
  convert of_text of_any zero_value _ none = value zero_value
  convert of_text of_any zero_value _ (some d) = of_any d

  -- The handler of the ValueError and the TypeError
  unfoldable pub or_zero :
      {A : Type 0}
      → (A → Value nums.Number)
      → A
      → Conversion A
      → Result HttpException (Value nums.Number)
  or_zero wrap zero_value (value a) = ok (wrap a)
  or_zero wrap zero_value rejected = ok (wrap zero_value)
  or_zero wrap zero_value overflow = err uncaught

  unfoldable pub or_default : Option Text → Option py.Any → Text
  or_default (some raw) default = raw
  or_default none (some d) = py.str_any d
  or_default none none = []

  abbrev has_raw : Option Text → Bool
  has_raw none = false
  has_raw (some raw) = true

  abbrev zero_float : nums.Number
  zero_float = nums.of_int (pos 0)

  -- The value of a parameter, by its type.
  unfoldable pub value_as :
      ParamType → Option Text → Option py.Any → Result HttpException (Value nums.Number)
  value_as bool raw default = ok (truth (has_raw raw))
  value_as int raw default =
      or_zero integer (pos 0) (convert py.int_text py.int_any (pos 0) raw default)
  value_as float raw default =
      or_zero real zero_float (convert py.float_text py.float_any zero_float raw default)
  value_as string raw default = ok (str (or_default raw default))
  value_as choice raw default = ok (str (or_default raw default))
  value_as path raw default = ok (str (or_default raw default))

  -- The loop over the parameters, with those that are set so far.
  unfoldable pub form_params :
      Dict Text FormValue
      → List (Field nums.Number py.Any)
      → Params nums.Number
      → Result HttpException (Params nums.Number)
  form_params form [] params = ok params
  form_params form (p ∷ ps) params = do
    v ← value_as p.descriptor.type (raw_of (lookup p.descriptor.name form)) p.default
    form_params form ps (insert p.descriptor.name v params)
