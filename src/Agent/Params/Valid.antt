-- ===== src/Agent/Params/Valid.antt =====
-- What `validate_params` lets through.
use csl.Prelude.{
  refl, inr, inl, ok, ◌++◌, Option-cases, ◌==◌, ◌&&◌, ◌↔◌, any, all, not, Text, Text_Eq, Bool, true,
  false, Option, none, some, List, [], ◌∷◌, lookup, arith, ◌≡◌,
}
use csl.Shared.ScriptMeta.{
  ParamType, string, int, float, bool, choice, path, Numbers, Value, str, integer, real, truth,
  ParamDescriptor,
}
use csl.Agent.Params.{
  ok, unknown_params, ParamError, check_params, validate_params, check_param, any, Params, value_eq,
  validate_value, check_bounds,
}

module _ (nums : Numbers) where
  -- A number within the bounds that a descriptor sets.
  abbrev pub in_bounds : ParamDescriptor nums.Number → nums.Number → Bool
  in_bounds d x =
      (elim d.min [ none ↦ true | some m ↦ not (nums.num_lt x m) ])
      && (elim d.max [ none ↦ true | some m ↦ not (nums.num_lt m x) ])

  abbrev pub listed : Value nums.Number → Option (List (Value nums.Number)) → Bool
  listed v none = false
  listed v (some vs) = any (λ w. value_eq nums w v) vs

  -- The values that the metadata of a parameter allows: a table of types and values.
  abbrev pub allows : ParamType → ParamDescriptor nums.Number → Value nums.Number → Bool
  allows string d (str s) = true
  allows path d (str s) = true
  allows bool d (truth b) = true
  allows int d (integer n) = in_bounds d (nums.of_int n)
  allows float d (integer n) = in_bounds d (nums.of_int n)
  allows float d (real x) = in_bounds d x
  allows choice d v = listed v d.choices
  allows _ d _ = false

  -- The parameter has an allowed value, or none although it may be left out.
  abbrev pub is_satisfied : Params nums.Number → ParamDescriptor nums.Number → Bool
  is_satisfied params d = elim (lookup d.name params) [
    | none ↦ not d.required
    | some v ↦ allows d.type d v
  ]

  abbrev pub is_described : List (ParamDescriptor nums.Number) → Text × Value nums.Number → Bool
  is_described ds (key, v) = any (λ d. d.name == key) ds

  abbrev pub accepts : Option (List (ParamDescriptor nums.Number)) → Params nums.Number → Bool
  accepts none [] = true
  accepts none (p ∷ params) = false
  accepts (some ds) params = all (is_described ds) params && all (is_satisfied params) ds

  bounds_iff :
      (d : ParamDescriptor nums.Number) (x : nums.Number)
      → (check_bounds nums d x ≡ []) ↔ (in_bounds d x ≡ true)
  unfolding check_bounds
  bounds_iff d x = ground arith

  value_iff :
      (t : ParamType) (d : ParamDescriptor nums.Number) (v : Value nums.Number)
      → d.type ≡ t
      → (validate_value nums d v ≡ []) ↔ (allows t d v ≡ true)
  unfolding validate_value check_bounds
  value_iff string d v e = ground arith
  value_iff path d v e = ground arith
  value_iff bool d v e = ground arith
  value_iff int d v e = ground arith
  value_iff float d v e = ground arith
  value_iff choice d v e = ground arith

  check_iff :
      (params : Params nums.Number) (d : ParamDescriptor nums.Number)
      → (check_param nums params d ≡ []) ↔ (is_satisfied params d ≡ true)
  unfolding check_param
  check_iff params d = elim (Option-cases (lookup d.name params)) [
    | inl e ↦ ground arith
    | inr (v, e) ↦ ground (arith, value_iff d.type d v refl)
  ]

  append_nil_iff : (xs ys : List ParamError) → (xs ++ ys ≡ []) ↔ ((xs ≡ []) × (ys ≡ []))
  append_nil_iff [] ys = ground arith
  append_nil_iff (x ∷ xs) ys = ground arith

  satisfied_iff :
      (params : Params nums.Number) (ds : List (ParamDescriptor nums.Number))
      → (check_params nums params ds ≡ []) ↔ (all (is_satisfied params) ds ≡ true)
  unfolding check_params all
  satisfied_iff params [] = ground arith
  satisfied_iff params (d ∷ ds) = ground (
    arith,
    check_iff params d,
    satisfied_iff params ds,
    append_nil_iff (check_param nums params d) (check_params nums params ds),
  )

  pub described_iff :
      (ds : List (ParamDescriptor nums.Number)) (params : Params nums.Number)
      → (unknown_params nums ds params ≡ []) ↔ (all (is_described ds) params ≡ true)
  unfolding unknown_params all
  described_iff ds [] = ground arith
  described_iff ds ((key, v) ∷ params) = ground (arith, described_iff ds params)

  -- `validate_params` accepts exactly when the metadata describes every parameter given, each with
  -- an allowed value, and every required one is given. A script without metadata takes none.
  pub validate_params_iff :
      (ds : Option (List (ParamDescriptor nums.Number))) (params : Params nums.Number)
      → (validate_params nums ds params ≡ ok tt) ↔ (accepts ds params ≡ true)
  unfolding validate_params
  validate_params_iff none [] = ground arith
  validate_params_iff none (p ∷ params) = ground arith
  validate_params_iff (some ds) params = ground (
    arith,
    described_iff ds params,
    satisfied_iff params ds,
    append_nil_iff (unknown_params nums ds params) (check_params nums params ds),
  )

  -- A NaN is accepted for a parameter of type float whatever its bounds.
  pub nan_accepted :
      (d : ParamDescriptor nums.Number)
      → d.type ≡ float
      → validate_value nums d (real nums.not_a_number) ≡ []
  unfolding validate_value check_bounds
  nan_accepted d e = elim (Option-cases d.min) [
    | inl p ↦ elim (Option-cases d.max) [
      | inl q ↦ ground arith
      | inr (hi, q) ↦ ground (arith, nums.lt-nan hi)
    ]
    | inr (lo, p) ↦ elim (Option-cases d.max) [
      | inl q ↦ ground (arith, nums.nan-lt lo)
      | inr (hi, q) ↦ ground (arith, nums.nan-lt lo, nums.lt-nan hi)
    ]
  ]
