-- ===== src/Shared/Validation/Cleaned.antt =====
-- control_station_lite/shared/_validation.py: what is left of a document after all deletions.
use csl.Prelude.{
  ◌≡◌, refl, ℕ_Eq, Text_Eq, true, not, Option, Option-cases, none, some, ◌⊎◌, inl, inr, List, [],
  ◌∷◌, all, All, Result, Result-cases, ok, err, filter, map, subst, sym, arith,
}
use csl.Shared.Validation.{
  Doc, Part, delete_at_path, delete_all, ErrorDetail, is_extra, locations, revalidated,
  validate_stripping_unknowns,
}
use csl.Shared.Validation.Paths.{
  is_field, apart, get_path, get_path-delete_at_path, get_path-apart, get_path-gone,
}

module _ {S : Type 0} where
  delete_all-step :
      (d : Doc S) (loc : List Part) (locs : List (List Part)) {c : Doc S}
      → delete_all d (loc ∷ locs) ≡ some c
      → (b : Doc S) × (delete_at_path d loc ≡ some b) × (delete_all b locs ≡ some c)
  unfolding delete_all
  delete_all-step d loc locs h = elim (Option-cases (delete_at_path d loc)) [
    | inl e ↦ ground arith
    | inr (b, e) ↦ (b, e, ground arith)
  ]

  get_path-delete_all :
      (d : Doc S) (locs : List (List Part)) (q : List Part) {c : Doc S}
      → all (λ p. apart p q) locs ≡ true
      → delete_all d locs ≡ some c
      → get_path c q ≡ get_path d q
  unfolding delete_all all
  get_path-delete_all d [] q a h = ground arith
  get_path-delete_all d (loc ∷ locs) q {c} a h =
      let (b, e, e2) = delete_all-step d loc locs h in
      ground (arith, get_path-apart d loc q {c = b}, get_path-delete_all b locs q {c = c})

  delete_all-gone :
      (d : Doc S) (locs : List (List Part)) (q : List Part) {c : Doc S}
      → get_path d q ≡ none
      → delete_all d locs ≡ some c
      → get_path c q ≡ none
  unfolding delete_all
  delete_all-gone d [] q a h = ground arith
  delete_all-gone d (loc ∷ locs) q a h =
      let (b, e, e2) = delete_all-step d loc locs h in
      delete_all-gone b locs q (get_path-gone d loc q a e) e2

  delete_all-removes :
      (d : Doc S) (locs : List (List Part)) {c : Doc S}
      → delete_all d locs ≡ some c
      → All (λ loc. is_field loc ≡ true → get_path c loc ≡ none) locs
  unfolding delete_all
  delete_all-removes d [] h = tt
  delete_all-removes d (loc ∷ locs) h =
      let (b, e, e2) = delete_all-step d loc locs h in
      (
        λ f. delete_all-gone b locs loc (get_path-delete_at_path d loc f e) e2,
        delete_all-removes b locs e2,
      )

  -- What is left of a document after the fields at `locs` are dropped, all else in its place.
  pub record IsCleaned (raw cleaned : Doc S) (locs : List (List Part)) : Type 0 where
    pub absent : All (λ loc. is_field loc ≡ true → get_path cleaned loc ≡ none) locs
    pub kept :
        (q : List Part) → all (λ loc. apart loc q) locs ≡ true → get_path cleaned q ≡ get_path raw q

all_of-filter-not :
    (errors : List ErrorDetail)
    → filter (λ e. not (is_extra e)) errors ≡ []
    → (all is_extra errors ≡ true) × (filter is_extra errors ≡ errors)
unfolding all filter
all_of-filter-not [] h = (refl, refl)
all_of-filter-not (e ∷ errors) h = ground (arith, all_of-filter-not errors)

module _ {S M : Type 0} (model_validate : Doc S → Result (List ErrorDetail) M) where
  revalidated-ok :
      (o : Option (Doc S)) {m : M}
      → revalidated model_validate o ≡ ok m
      → (c : Doc S) × (o ≡ some c) × (model_validate c ≡ ok m)
  unfolding revalidated
  revalidated-ok none h = ground arith
  revalidated-ok (some c) h = (c, refl, ground arith)

  -- The errors that a return goes with.
  returned :
      (raw : Doc S) (errors : List ErrorDetail) {logged : List (List Part)} {m : M}
      → model_validate raw ≡ err errors
      → validate_stripping_unknowns model_validate raw ≡ (logged, ok m)
      → (filter (λ e. not (is_extra e)) errors ≡ [])
        × (logged ≡ locations errors)
        × (revalidated model_validate (delete_all raw (locations errors)) ≡ ok m)
  unfolding validate_stripping_unknowns
  returned raw errors e h = ground arith

  all_valid :
      (raw : Doc S) (n : M) {logged : List (List Part)} {m : M}
      → model_validate raw ≡ ok n
      → validate_stripping_unknowns model_validate raw ≡ (logged, ok m)
      → (logged ≡ []) × (model_validate raw ≡ ok m)
  unfolding validate_stripping_unknowns
  all_valid raw n e h = ground arith

  -- A model that is returned is that of a document without the fields that are logged, in which all
  -- that is apart from them is as it was; and either the document as it was read was valid and
  -- nothing is logged, or all its errors were unknown fields, each of which is logged.
  pub validate_stripping_unknowns-IsCleaned :
      (raw : Doc S) {logged : List (List Part)} {m : M}
      → validate_stripping_unknowns model_validate raw ≡ (logged, ok m)
      → (cleaned : Doc S) × (model_validate cleaned ≡ ok m)
        × IsCleaned raw cleaned logged
        × (((model_validate raw ≡ ok m) × (logged ≡ []))
            ⊎ ((errors : List ErrorDetail) × (model_validate raw ≡ err errors)
                × (all is_extra errors ≡ true)
                × (logged ≡ map (λ e. e.loc) errors)))
  validate_stripping_unknowns-IsCleaned raw {logged} {m} h =
      elim (Result-cases (model_validate raw)) [
        | inl (n, e) ↦
            let (l, v) = all_valid raw n e h in
            (
              raw,
              v,
              subst (λ locs. IsCleaned raw raw locs) (sym l)
                  (record { absent = tt; kept = λ q a. refl }),
              inl (v, l),
            )
        | inr (errors, e) ↦
            let (none_real, l, r) = returned raw errors e h in
            let (cleaned, d, v) = revalidated-ok _ r in
            let (extra, same) = all_of-filter-not errors none_real in
            (
              cleaned,
              v,
              subst (λ locs. IsCleaned raw cleaned locs) (sym l)
                  (record {
                    absent = delete_all-removes raw (locations errors) d;
                    kept = λ q a. get_path-delete_all raw (locations errors) q a d;
                  }),
              inr (errors, e, extra, ground (arith, l, same)),
            )
      ]
