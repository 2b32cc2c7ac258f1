-- ===== src/Shared/Validation/Paths.antt =====
-- control_station_lite/shared/_validation.py: what one deletion leaves at the other paths.
use csl.Prelude.{
  ◌≡◌, refl, ℕ, ℕ_Eq, zero, suc, Text, Text_Eq, Bool, true, false, ◌==◌, if◌then◌else◌, Option,
  Option-cases, none, some, ◌⊎◌, inl, inr, List, [], ◌∷◌, arith,
}
use csl.Shared.Validation.{
  Doc, scalar, mapping, sequence, Fields, no_fields, field, Items, no_items, item, Part, key, index,
  field_at, item_at, part_of, set_field, set_item, with_part, pop_field, pop_last, delete_at_path,
}

unfoldable pub same_part : Part → Part → Bool
same_part (key k) (key j) = k == j
same_part (index i) (index j) = i == j
same_part p q = false

same_part_refl : (p : Part) → same_part p p ≡ true
unfolding same_part
same_part_refl (key k) = ground (arith, Text_Eq.beq_iff k k)
same_part_refl (index i) = ground (arith, ℕ_Eq.beq_iff i i)

-- Neither path leads through the end of the other.
unfoldable pub apart : List Part → List Part → Bool
apart [] q = false
apart (x ∷ p) [] = false
apart (x ∷ p) (y ∷ q) = if same_part x y then apart p q else true

-- The path ends at a field of a mapping.
unfoldable pub is_field : List Part → Bool
is_field [] = false
is_field (key k ∷ []) = true
is_field (index i ∷ []) = false
is_field (p ∷ q ∷ path) = is_field (q ∷ path)

module _ {S : Type 0} where
  unfoldable pub get_path : Doc S → List Part → Option (Doc S)
  get_path d [] = some d
  get_path d (p ∷ path) = elim (part_of p d) [ none ↦ none | some c ↦ get_path c path ]

  field_at-pop_field :
      (k j : Text) (fs : Fields S)
      → field_at j (pop_field k fs) ≡ (if k == j then none else field_at j fs)
  unfolding field_at pop_field
  field_at-pop_field k j no_fields = ground arith
  field_at-pop_field k j (field i d fs) = ground (
    arith,
    Text_Eq.beq_iff i k,
    Text_Eq.beq_iff i j,
    Text_Eq.beq_iff k j,
    field_at-pop_field k j fs,
  )

  field_at-set_field :
      (k j : Text) {old : Doc S} (c : Doc S) (fs : Fields S)
      → field_at k fs ≡ some old
      → field_at j (set_field k c fs) ≡ (if k == j then some c else field_at j fs)
  unfolding field_at set_field
  field_at-set_field k j c no_fields h = ground arith
  field_at-set_field k j {old} c (field i d fs) h = ground (
    arith,
    Text_Eq.beq_iff i k,
    Text_Eq.beq_iff i j,
    Text_Eq.beq_iff k j,
    field_at-set_field k j {old = old} c fs,
  )

  item_at-set_item :
      (i j : ℕ) {old : Doc S} (c : Doc S) (ds : Items S)
      → item_at i ds ≡ some old
      → item_at j (set_item i c ds) ≡ (if i == j then some c else item_at j ds)
  unfolding item_at set_item
  item_at-set_item i j c no_items h = ground arith
  item_at-set_item zero zero c (item d ds) h = ground arith
  item_at-set_item zero (suc j) c (item d ds) h = ground arith
  item_at-set_item (suc i) zero c (item d ds) h = ground arith
  item_at-set_item (suc i) (suc j) c (item d ds) h = ground (arith, item_at-set_item i j c ds h)

  part_of-pop_last :
      (p q : Part) (d : Doc S) → same_part p q ≡ false → part_of q (pop_last p d) ≡ part_of q d
  unfolding part_of pop_last same_part
  part_of-pop_last (key k) (key j) (mapping fs) h = ground (arith, field_at-pop_field k j fs)
  part_of-pop_last (key k) (key j) (scalar s) h = refl
  part_of-pop_last (key k) (key j) (sequence ds) h = refl
  part_of-pop_last (key k) (index j) (mapping fs) h = refl
  part_of-pop_last (key k) (index j) (scalar s) h = refl
  part_of-pop_last (key k) (index j) (sequence ds) h = refl
  part_of-pop_last (index i) q d h = refl

  part_of-with_part :
      (p q : Part) {old : Doc S} (c d : Doc S)
      → part_of p d ≡ some old
      → part_of q (with_part p c d) ≡ (if same_part p q then some c else part_of q d)
  unfolding part_of with_part same_part
  part_of-with_part (key k) (key j) c (mapping fs) h = field_at-set_field k j c fs h
  part_of-with_part (key k) (index j) c (mapping fs) h = refl
  part_of-with_part (index k) (key j) c (sequence fs) h = refl
  part_of-with_part (index i) (index j) c (sequence ds) h = item_at-set_item i j c ds h
  part_of-with_part (key k) q c (scalar s) h = ground arith
  part_of-with_part (key k) q c (sequence s) h = ground arith
  part_of-with_part (index i) q c (scalar s) h = ground arith
  part_of-with_part (index i) q c (mapping s) h = ground arith

  pop_last-removes :
      (p : Part) (d : Doc S) → is_field (p ∷ []) ≡ true → part_of p (pop_last p d) ≡ none
  unfolding part_of pop_last is_field
  pop_last-removes (key k) (mapping fs) h =
      ground (arith, field_at-pop_field k k fs, Text_Eq.beq_iff k k)
  pop_last-removes (key k) (scalar s) h = refl
  pop_last-removes (key k) (sequence ds) h = refl
  pop_last-removes (index i) d h = ground arith

  same_part-part_of : (p q : Part) (d : Doc S) → same_part p q ≡ true → part_of p d ≡ part_of q d
  unfolding same_part
  same_part-part_of (key k) (key j) d h = ground (arith, Text_Eq.beq_iff k j)
  same_part-part_of (index k) (index j) d h = ground (arith, ℕ_Eq.beq_iff k j)
  same_part-part_of (key k) (index j) d h = ground arith
  same_part-part_of (index k) (key j) d h = ground arith

  part_of-deleted :
      (p q : Part) (path : List Part) (d : Doc S) {c : Doc S}
      → delete_at_path d (p ∷ q ∷ path) ≡ some c
      → (old new : Doc S) × (part_of p d ≡ some old)
        × (delete_at_path old (q ∷ path) ≡ some new)
        × ((r : Part) → part_of r c ≡ (if same_part p r then some new else part_of r d))
  unfolding delete_at_path
  part_of-deleted p q path d {c} h = elim (Option-cases (part_of p d)) [
    | inl e ↦ ground arith
    | inr (old, e) ↦ elim (Option-cases (delete_at_path old (q ∷ path))) [
      | inl e2 ↦ ground arith
      | inr (new, e2) ↦ (old, new, e, e2, λ r. ground (arith, part_of-with_part p r new d e))
    ]
  ]

  pop_last-gone :
      (p q : Part) (d : Doc S)
      → (part_of q (pop_last p d) ≡ part_of q d) ⊎ (part_of q (pop_last p d) ≡ none)
  unfolding pop_last part_of
  pop_last-gone (key k) (key j) (mapping fs) = ground (arith, field_at-pop_field k j fs)
  pop_last-gone (key k) (index j) (mapping fs) = inl refl
  pop_last-gone (key k) q (scalar s) = inl refl
  pop_last-gone (key k) q (sequence ds) = inl refl
  pop_last-gone (index i) q d = inl refl

  pub get_path-delete_at_path :
      (d : Doc S) (p : List Part) {c : Doc S}
      → is_field p ≡ true
      → delete_at_path d p ≡ some c
      → get_path c p ≡ none
  unfolding get_path delete_at_path is_field
  get_path-delete_at_path d [] f h = ground arith
  get_path-delete_at_path d (p ∷ []) f h = ground (arith, pop_last-removes p d f)
  get_path-delete_at_path d (p ∷ q ∷ path) f h =
      let (old, new, e, e2, parts) = part_of-deleted p q path d h in
      ground (arith, parts p, same_part_refl p, get_path-delete_at_path old (q ∷ path) f e2)

  pub get_path-apart :
      (d : Doc S) (p q : List Part) {c : Doc S}
      → apart p q ≡ true
      → delete_at_path d p ≡ some c
      → get_path c q ≡ get_path d q
  unfolding get_path delete_at_path apart
  get_path-apart d [] q a h = ground arith
  get_path-apart d (x ∷ p) [] a h = ground arith
  get_path-apart d (x ∷ []) (y ∷ q) a h = ground (arith, part_of-pop_last x y d)
  get_path-apart d (x ∷ z ∷ p) (y ∷ q) a h =
      let (old, new, e, e2, parts) = part_of-deleted x z p d h in
      ground (arith, parts y, same_part-part_of x y d, get_path-apart old (z ∷ p) q {c = new})

  pub get_path-gone :
      (d : Doc S) (p q : List Part) {c : Doc S}
      → get_path d q ≡ none
      → delete_at_path d p ≡ some c
      → get_path c q ≡ none
  unfolding get_path delete_at_path
  get_path-gone d p [] a h = ground arith
  get_path-gone d [] (y ∷ q) a h = ground arith
  get_path-gone d (x ∷ []) (y ∷ q) a h = ground (arith, pop_last-gone x y d)
  get_path-gone d (x ∷ z ∷ p) (y ∷ q) a h =
      let (old, new, e, e2, parts) = part_of-deleted x z p d h in
      ground (arith, parts y, same_part-part_of x y d, get_path-gone old (z ∷ p) q {c = new})
