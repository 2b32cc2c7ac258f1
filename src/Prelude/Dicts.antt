-- ===== src/Prelude/Dicts.antt =====
-- Python's `dict`: an association list in insertion order, with at most one entry a key.
use mathlib.Core.Path.{◌≡◌, refl}
use mathlib.Core.Bool.{Bool, true, false, not, ◌&&◌}
use mathlib.Core.List.{List, [], ◌∷◌}
use mathlib.Core.Option.{Option, none, some}
use native.Mathlib.Omega.{arith}
use csl.Prelude.Tests.{Eq, ◌==◌, if◌then◌else◌}

abbrev pub Dict {ℓ κ} : Type ℓ → Type κ → Type (ℓ ⊔ κ)
Dict K V = List (K × V)

module _ {ℓ κ} {K : Type ℓ} {V : Type κ} ⦃e : Eq K⦄ where
  -- d.get(k)
  unfoldable pub lookup : K → Dict K V → Option V
  lookup k [] = none
  lookup k ((j, v) ∷ d) = if j == k then some v else lookup k d

  -- d[k] = v: in place, or behind the other entries
  unfoldable pub insert : K → V → Dict K V → Dict K V
  insert k v [] = (k, v) ∷ []
  insert k v ((j, w) ∷ d) = if j == k then (k, v) ∷ d else (j, w) ∷ insert k v d

  -- d.pop(k, None)
  unfoldable pub erase : K → Dict K V → Dict K V
  erase k [] = []
  erase k ((j, v) ∷ d) = let rest = erase k d in if j == k then rest else (j, v) ∷ rest

  pub lookup-insert :
      (k j : K) (v : V) (d : Dict K V)
      → lookup j (insert k v d) ≡ (if k == j then some v else lookup j d)
  unfolding lookup insert
  lookup-insert k j v [] = refl
  lookup-insert k j v ((i, w) ∷ d) =
      ground (arith, e.beq_iff k j, e.beq_iff i k, e.beq_iff i j, lookup-insert k j v d)

  pub lookup-erase :
      (k j : K) (d : Dict K V) → lookup j (erase k d) ≡ (if k == j then none else lookup j d)
  unfolding lookup erase
  lookup-erase k j [] = ground arith
  lookup-erase k j ((i, v) ∷ d) =
      ground (arith, e.beq_iff i k, e.beq_iff i j, e.beq_iff k j, lookup-erase k j d)

-- k in d
unfoldable pub member {ℓ κ} : {K : Type ℓ} {V : Type κ} ⦃e : Eq K⦄ → K → Dict K V → Bool
member k d = elim (lookup k d) [ none ↦ false | some v ↦ true ]

-- What holds of every `dict`: no key has two entries.
unfoldable pub unique {ℓ κ} : {K : Type ℓ} {V : Type κ} ⦃e : Eq K⦄ → Dict K V → Bool
unique [] = true
unique ((k, v) ∷ d) = not (member k d) && unique d

module _ {ℓ κ} {K : Type ℓ} {V : Type κ} ⦃e : Eq K⦄ where
  pub member-of-lookup : (k : K) (d : Dict K V) → lookup k d ≡ none → member k d ≡ false
  unfolding member
  member-of-lookup k d h = ground arith

  pub lookup-of-member : (k : K) (d : Dict K V) → member k d ≡ false → lookup k d ≡ none
  unfolding member
  lookup-of-member k d h = ground arith

  pub member-insert :
      (k j : K) (v : V) (d : Dict K V)
      → member j (insert k v d) ≡ (if k == j then true else member j d)
  unfolding member
  member-insert k j v d = ground (arith, lookup-insert k j v d)

  pub unique-insert :
      (k : K) (v : V) (d : Dict K V) → unique d ≡ true → unique (insert k v d) ≡ true
  unfolding unique insert
  unique-insert k v [] h = unfold member lookup in refl
  unique-insert k v ((j, w) ∷ d) h =
      ground (arith, e.beq_iff j k, e.beq_iff k j, member-insert k j v d, unique-insert k v d)

pub ruleset dict_laws = (lookup-insert, lookup-erase)
