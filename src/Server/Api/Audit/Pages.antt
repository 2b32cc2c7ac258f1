-- ===== src/Server/Api/Audit/Pages.antt =====
-- What a reader who asks for further pages as long as there are some gets.
use csl.Prelude.{
  inl, sym, ◌∙◌, inr, ap, Bool-cases, if◌then◌else◌, length, drop, take, Bool, Option, ltb, List, ℕ,
  [], ◌∷◌, ◌++◌, none, some, false, suc, zero, ◌≡◌, ◌≤◌, ◌+◌, ◌-◌, arith, refl,
}
use csl.Server.Api.Audit.{page_at}

abbrev behind {ℓ} : {A : Type ℓ} → List A → Option (List A) → Option (List A)
behind xs none = none
behind xs (some ys) = some (xs ++ ys)

-- The pages from a place on, where `next` is the place after a place; `none` if the fuel gives out.
unfoldable pub follow {ℓ} : {A : Type ℓ} → (ℕ → List A × Bool) → (ℕ → ℕ) → ℕ → ℕ → Option (List A)
follow page next zero at = none
follow page next (suc fuel) at =
    let (rows, has_next) = page at in
    let rest = follow page next fuel (next at) in if has_next then behind rows rest else some rows

module _ {ℓ} {A : Type ℓ} where
  take-drop : (n : ℕ) (xs : List A) → take n xs ++ drop n xs ≡ xs
  take-drop zero xs = refl
  take-drop (suc n) [] = refl
  take-drop (suc n) (x ∷ xs) = ground (arith, take-drop n xs)

  drop_nothing : (n : ℕ) → drop {A = A} n [] ≡ []
  drop_nothing zero = refl
  drop_nothing (suc n) = refl

  drop-drop : (n k : ℕ) (xs : List A) → drop n (drop k xs) ≡ drop (k + n) xs
  drop-drop n zero xs = ap (λ i. drop i xs) (omega arith)
  drop-drop n (suc k) [] = drop_nothing n ∙ sym (drop_nothing (suc k + n))
  drop-drop n (suc k) (x ∷ xs) =
      let shifted : suc (k + n) ≡ suc k + n = omega arith in
      drop-drop n k xs ∙ ap (λ i. drop i (x ∷ xs)) shifted

  take-take-suc : (n : ℕ) (xs : List A) → take n (take (suc n) xs) ≡ take n xs
  take-take-suc zero xs = refl
  take-take-suc (suc n) [] = refl
  take-take-suc (suc n) (x ∷ xs) = ground (arith, take-take-suc n xs)

  length-drop : (n : ℕ) (xs : List A) → length (drop n xs) ≡ length xs - n
  length-drop zero xs = omega arith
  length-drop (suc n) [] = omega arith
  length-drop (suc n) (x ∷ xs) = ground (arith, length-drop n xs)

  take_all : (n : ℕ) (xs : List A) → length xs ≤ n → take n xs ≡ xs
  take_all zero [] h = refl
  take_all zero (x ∷ xs) h = absurd (omega arith)
  take_all (suc n) [] h = refl
  take_all (suc n) (x ∷ xs) h = ground (arith, take_all n xs)

  -- Whether one row more than the limit is found is whether the rows go on.
  has_next_iff : (n : ℕ) (xs : List A) → ltb n (length (take (suc n) xs)) ≡ ltb n (length xs)
  has_next_iff zero [] = refl
  has_next_iff zero (x ∷ xs) = ground arith
  has_next_iff (suc n) [] = refl
  has_next_iff (suc n) (x ∷ xs) = ground (arith, has_next_iff n xs)

  pub page_at-rest :
      (limit offset : ℕ) (xs : List A)
      → page_at limit offset xs ≡ (take limit (drop offset xs), ltb limit (length xs - offset))
  unfolding page_at
  page_at-rest limit offset xs = ground (
    arith,
    take-take-suc limit (drop offset xs),
    has_next_iff limit (drop offset xs),
    length-drop offset xs,
  )

  module _ (limit : ℕ) (xs : List A) (page : ℕ → List A × Bool) (next offset : ℕ → ℕ)
      (pages : (at : ℕ) → page at ≡ page_at limit (offset at) xs)
      (steps : (at : ℕ) → offset (next at) ≡ offset at + limit) (positive : 1 ≤ limit) where
    found-page :
        (at : ℕ) → page at ≡ (take limit (drop (offset at) xs), ltb limit (length xs - offset at))
    found-page at = pages at ∙ page_at-rest limit (offset at) xs

    follow-step :
        (fuel at : ℕ)
        → follow page next (suc fuel) at ≡ (
            if (page at).1
            then behind (page at).0 (follow page next fuel (next at))
            else some (page at).0)
    unfolding follow
    follow-step fuel at = refl

    follow-last :
        (fuel at : ℕ)
        → ltb limit (length xs - offset at) ≡ false
        → follow page next (suc fuel) at ≡ some (drop (offset at) xs)
    follow-last fuel at h =
        rw (follow-step fuel at, found-page at, h)
          (ap some
            (take_all limit (drop (offset at) xs) (ground (arith, length-drop (offset at) xs))))

    page-then-rest : (o : ℕ) → take limit (drop o xs) ++ drop (o + limit) xs ≡ drop o xs
    page-then-rest o = rw (sym (drop-drop limit o xs)) (take-drop limit (drop o xs))

    -- Whoever has as many turns as rows are left gets all rows that are left, and is told at the end
    -- that there are no more.
    pub follow-drop :
        (fuel at : ℕ)
        → length xs ≤ offset at + fuel
        → follow page next (suc fuel) at ≡ some (drop (offset at) xs)
    follow-drop zero at h = follow-last 0 at (ground arith)
    follow-drop (suc fuel) at h = elim (Bool-cases (ltb limit (length xs - offset at))) [
      | inr q ↦ follow-last (suc fuel) at q
      | inl q ↦
          rw
            (
              follow-step (suc fuel) at,
              found-page at,
              q,
              follow-drop fuel (next at) (ground (arith, steps at)),
              steps at,
            )
            (ap some (page-then-rest (offset at)))
    ]
