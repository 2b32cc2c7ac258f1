-- ===== src/Server/Web/Form/Typed.antt =====
-- The parameters of a form against the metadata that they were made for.
use csl.Prelude.{
  ◌⊎◌, all_mono, some, ◌++◌, inr, ==_iff, sym, subst, inl, ==_refl, ◌≢◌, Bool-cases, lookup-insert,
  >>=-eq-ok, refl, lookup, ◌∷◌, none, Dict, any, insert, arith, Option, all, map, ◌==◌, Bool, List,
  Result, Text, Text_Eq, [], true, false, ok, err, ◌≡◌,
}
use csl.Shared.ScriptMeta.{
  unique_from, float, bool, int, choice, path, string, Value, ParamType, Numbers, ParamDescriptor,
}
use csl.Agent.Params.{
  validate_params, check_param, check_params, Params, not_a_choice, check_bounds, too_large,
  too_small, validate_value, ParamError,
}
use csl.Server.Web.Form.{
  raw_of, FormValue, form_params, real, integer, truth, str, Value, or_zero, value_as, ParamType,
  Field, Builtins,
}
use csl.Agent.Params.Valid.{described_iff, is_described}

abbrev pub descriptors :
    {Number Any : Type 0} → List (Field Number Any) → List (ParamDescriptor Number)
descriptors fields = map (λ p. p.descriptor) fields

-- The errors that are about the value alone, not its type, its name or its absence.
abbrev pub is_range_error : ParamError → Bool
is_range_error (too_small name) = true
is_range_error (too_large name) = true
is_range_error (not_a_choice name) = true
is_range_error _ = false

abbrev pub errors_of : Result (List ParamError) (Unit {0}) → List ParamError
errors_of (ok u) = []
errors_of (err es) = es

abbrev named : {Number : Type 0} → Text → ParamDescriptor Number → Bool
named k d = d.name == k

module _ {nums : Numbers} (py : Builtins nums) where
  abbrev pub is_typed : ParamType → Value nums.Number → Bool
  is_typed string (str s) = true
  is_typed path (str s) = true
  is_typed choice (str s) = true
  is_typed bool (truth b) = true
  is_typed int (integer n) = true
  is_typed float (real x) = true
  is_typed _ _ = false

  value_as-is_typed :
      (type : ParamType) (raw : Option Text) (default : Option py.Any) {v : Value nums.Number}
      → value_as py type raw default ≡ ok v
      → is_typed type v ≡ true
  unfolding value_as or_zero
  value_as-is_typed string raw default e = ground arith
  value_as-is_typed path raw default e = ground arith
  value_as-is_typed choice raw default e = ground arith
  value_as-is_typed bool raw default e = ground arith
  value_as-is_typed int raw default e = ground arith
  value_as-is_typed float raw default e = ground arith

  validate_value-is_range_error :
      (type : ParamType) (d : ParamDescriptor nums.Number) (v : Value nums.Number)
      → d.type ≡ type
      → is_typed type v ≡ true
      → all is_range_error (validate_value nums d v) ≡ true
  unfolding validate_value check_bounds all
  validate_value-is_range_error string d v e h = ground arith
  validate_value-is_range_error path d v e h = ground arith
  validate_value-is_range_error choice d v e h = ground arith
  validate_value-is_range_error bool d v e h = ground arith
  validate_value-is_range_error int d v e h = ground arith
  validate_value-is_range_error float d v e h = ground arith

  errors-cases :
      (es : List ParamError)
      → (es ≡ []) ⊎ ((x : ParamError) × (xs : List ParamError) × (es ≡ x ∷ xs))
  errors-cases [] = inl refl
  errors-cases (x ∷ xs) = inr (x, xs, refl)

  check_param-is_range_error :
      (d : ParamDescriptor nums.Number) (v : Value nums.Number) (result : Params nums.Number)
      → lookup d.name result ≡ some v
      → is_typed d.type v ≡ true
      → all is_range_error (check_param nums result d) ≡ true
  unfolding check_param
  check_param-is_range_error d v result e h =
      rw (check_param, e) (validate_value-is_range_error d.type d v refl h)

  all-append_of :
      (test : ParamError → Bool) (es fs : List ParamError)
      → all test es ≡ true
      → all test fs ≡ true
      → all test (es ++ fs) ≡ true
  unfolding all
  all-append_of test [] fs h k = k
  all-append_of test (e ∷ es) fs h k = ground (arith, all-append_of test es fs)

  unique_head :
      (seen : List Text) (d : ParamDescriptor nums.Number) (ds : List (ParamDescriptor nums.Number))
      → unique_from seen (d ∷ ds) ≡ none
      → any (λ n. n == d.name) seen ≢ true
  unfolding unique_from
  unique_head seen d ds u h = ground arith

  unique_tail :
      (seen : List Text) (d : ParamDescriptor nums.Number) (ds : List (ParamDescriptor nums.Number))
      → unique_from seen (d ∷ ds) ≡ none
      → unique_from (d.name ∷ seen) ds ≡ none
  unfolding unique_from
  unique_tail seen d ds u = ground arith

  unique_from-unnamed :
      (seen : List Text) (ds : List (ParamDescriptor nums.Number)) (k : Text)
      → unique_from seen ds ≡ none
      → any (λ n. n == k) seen ≡ true
      → any (named k) ds ≡ false
  unfolding unique_from any
  unique_from-unnamed seen [] k u h = refl
  unique_from-unnamed seen (d ∷ ds) k u h = elim (Bool-cases (d.name == k)) [
    | inl q ↦ absurd (
        unique_head seen d ds u
          (subst (λ x. any (λ n. n == x) seen ≡ true) (sym ((==_iff d.name k).0 q)) h))
    | inr q ↦ ground (arith, unique_from-unnamed (d.name ∷ seen) ds k)
  ]

  any_head : (k : Text) (seen : List Text) → any (λ n. n == k) (k ∷ seen) ≡ true
  unfolding any
  any_head k seen = ground (arith, ==_refl k)

  form_params-other :
      (form : Dict Text FormValue) (fields : List (Field nums.Number py.Any))
      (params : Params nums.Number) (k : Text) {result : Params nums.Number}
      → form_params py form fields params ≡ ok result
      → any (named k) (descriptors fields) ≡ false
      → lookup k result ≡ lookup k params
  unfolding form_params any
  form_params-other form [] params k e h = ground arith
  form_params-other form (p ∷ fields) params k {result} e h =
      let (v, q, e1) =
        >>=-eq-ok (value_as py p.descriptor.type (raw_of (lookup p.descriptor.name form)) p.default)
          _ e in
      ground (
        arith,
        form_params-other form fields (insert p.descriptor.name v params) k {result = result} e1,
        lookup-insert p.descriptor.name k v params,
      )

  -- The check of each parameter, among the parameters that the whole form gives.
  form_params-checked :
      (form : Dict Text FormValue) (seen : List Text) (fields : List (Field nums.Number py.Any))
      (params : Params nums.Number) {result : Params nums.Number}
      → unique_from seen (descriptors fields) ≡ none
      → form_params py form fields params ≡ ok result
      → all is_range_error (check_params nums result (descriptors fields)) ≡ true
  unfolding form_params check_params all unique_from
  form_params-checked form seen [] params u e = refl
  form_params-checked form seen (p ∷ fields) params {result} u e =
      let (v, q, e1) =
        >>=-eq-ok (value_as py p.descriptor.type (raw_of (lookup p.descriptor.name form)) p.default)
          _ e in
      let d = p.descriptor in
      let later = unique_tail seen d (descriptors fields) u in
      let found =
        form_params-other form fields (insert d.name v params) d.name {result = result} e1 (
          unique_from-unnamed (d.name ∷ seen) (descriptors fields) d.name later
            (any_head d.name seen)) in
      let rest =
        form_params-checked form (d.name ∷ seen) fields (insert d.name v params) {result = result}
          later e1 in
      all-append_of is_range_error (check_param nums result d)
        (check_params nums result (descriptors fields))
        (check_param-is_range_error d v result
          (ground (arith, lookup-insert d.name d.name v params, ==_refl d.name))
          (value_as-is_typed d.type (raw_of (lookup d.name form)) p.default {v = v} q))
        rest

  all-insert :
      (test : Text × Value nums.Number → Bool) (k : Text) (v : Value nums.Number)
      (params : Params nums.Number)
      → test (k, v) ≡ true
      → all test params ≡ true
      → all test (insert k v params) ≡ true
  unfolding all insert
  all-insert test k v [] h g = ground arith
  all-insert test k v ((j, w) ∷ params) h g = ground (arith, all-insert test k v params h)

  form_params-is_described :
      (ds : List (ParamDescriptor nums.Number)) (form : Dict Text FormValue)
      (fields : List (Field nums.Number py.Any)) (params : Params nums.Number)
      {result : Params nums.Number}
      → all (λ d. any (named d.name) ds) (descriptors fields) ≡ true
      → all (is_described nums ds) params ≡ true
      → form_params py form fields params ≡ ok result
      → all (is_described nums ds) result ≡ true
  unfolding form_params all
  form_params-is_described ds form [] params h g e = ground arith
  form_params-is_described ds form (p ∷ fields) params {result} h g e =
      let (v, q, e1) =
        >>=-eq-ok (value_as py p.descriptor.type (raw_of (lookup p.descriptor.name form)) p.default)
          _ e in
      form_params-is_described ds form fields (insert p.descriptor.name v params) {result = result}
        (ground arith)
        (all-insert (is_described nums ds) p.descriptor.name v params (ground arith) g) e1

  all_nothing : {A : Type 0} (test : A → Bool) → all test [] ≡ true
  unfolding all
  all_nothing test = refl

  all-named : (ds : List (ParamDescriptor nums.Number)) → all (λ d. any (named d.name) ds) ds ≡ true
  unfolding all any
  all-named [] = refl
  all-named (d ∷ ds) = ground (
    arith,
    ==_refl d.name,
    all_mono (λ c. any (named c.name) ds) (λ c. any (named c.name) (d ∷ ds)) (λ c h. ground arith)
        ds (all-named ds),
  )

  -- The parameters that a form is turned into are all described by the metadata, none is missing, and
  -- each has the type of its descriptor: whatever the agent's check of them against the same metadata
  -- still refuses is a bound or a choice. Names are unique, as the metadata's validator sees to.
  pub form_params-validate :
      (form : Dict Text FormValue) (fields : List (Field nums.Number py.Any))
      {params : Params nums.Number}
      → unique_from [] (descriptors fields) ≡ none
      → form_params py form fields [] ≡ ok params
      → all is_range_error (errors_of (validate_params nums (some (descriptors fields)) params))
        ≡ true
  unfolding validate_params
  form_params-validate form fields {params} u e =
      let described =
        form_params-is_described (descriptors fields) form fields [] {result = params}
          (all-named (descriptors fields)) (all_nothing (is_described nums (descriptors fields)))
          e in
      let known = (described_iff nums (descriptors fields) params).1 described in
      let checked = form_params-checked form [] fields [] {result = params} u e in
      elim (errors-cases (check_params nums params (descriptors fields))) [
        | inl p ↦ rw (validate_params, known, p) (all_nothing is_range_error)
        | inr (x, xs, p) ↦
            rw (validate_params, known, p) (subst (λ es. all is_range_error es ≡ true) p checked)
      ]
