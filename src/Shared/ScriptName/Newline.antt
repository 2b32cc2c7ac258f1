-- ===== src/Shared/ScriptName/Newline.antt =====
-- A newline at the end of a name.
use csl.Prelude.{
  text_eq_iff, ap, ◌∙◌, sym, Bool-cases, text_eq, List, not, inl, length-append, ℕ_Eq, inr, refl,
  ◌⊎◌, ◌==◌, any, all, Text, true, false, ok, ◌≡◌, arith, [], ◌∷◌, ◌++◌, length, ◌<◌,
}
use mathlib.Core.Bool.{false≢true}
use csl.Shared.ScriptName.{
  windows_reserved, upper, is_allowed, match_rest, match_allowed, stem, ends_with_dot, is_reserved,
  validate_script_name, max_script_name_length,
}
use csl.Shared.ScriptName.Safe.{newline, has_newline, match_rest_plain, tested_iff}

-- What is accepted is returned unchanged.
validate_same : (name n : Text) → validate_script_name name ≡ ok n → n ≡ name
unfolding validate_script_name
validate_same [] n h = ground arith
validate_same (c ∷ s) n h = ground arith

stem-newline :
    (s : Text)
    → (stem (s ++ newline ∷ []) ≡ stem s) ⊎ (stem (s ++ newline ∷ []) ≡ stem s ++ newline ∷ [])
unfolding stem
stem-newline [] = inr refl
stem-newline (c ∷ s) = ground (arith, stem-newline s)

match_rest-newline :
    (s : Text) → match_rest s ≡ true → has_newline s ≡ false → match_rest (s ++ newline ∷ []) ≡ true
unfolding match_rest is_allowed any
match_rest-newline [] h n = refl
match_rest-newline (c ∷ []) h n = ground arith
match_rest-newline (c ∷ d ∷ s) h n = ground (arith, match_rest-newline (d ∷ s))

upper-newline : (s : Text) → upper (s ++ newline ∷ []) ≡ upper s ++ newline ∷ []
unfolding upper
upper-newline [] = refl
upper-newline (c ∷ s) = rw (upper-newline s)

ends-newline : (s : Text) → ends_with_dot (s ++ newline ∷ []) ≡ false
unfolding ends_with_dot
ends-newline [] = refl
ends-newline (c ∷ []) = refl
ends-newline (c ∷ d ∷ s) = ends-newline (d ∷ s)

dots-newline : (s : Text) → all (λ d. d == b'.') (s ++ newline ∷ []) ≡ false
unfolding all
dots-newline [] = refl
dots-newline (c ∷ s) = ground (arith, dots-newline s)

has_newline-newline : (s : Text) → has_newline (s ++ newline ∷ []) ≡ true
unfolding any
has_newline-newline [] = refl
has_newline-newline (c ∷ s) = ground (arith, has_newline-newline s)

differ : (r t : Text) → has_newline r ≡ false → has_newline t ≡ true → text_eq r t ≡ false
differ r t h k = elim (Bool-cases (text_eq r t)) [
  | inl e ↦ absurd (false≢true (sym h ∙ ap has_newline ((text_eq_iff r t).0 e) ∙ k))
  | inr e ↦ e
]

none_of_plain :
    (t : Text) (rs : List Text)
    → has_newline t ≡ true
    → all (λ r. not (has_newline r)) rs ≡ true
    → any (λ r. text_eq r t) rs ≡ false
unfolding any all
none_of_plain t [] h k = refl
none_of_plain t (r ∷ rs) h k = ground (arith, differ r t, none_of_plain t rs h)

reserved_plain : all (λ r. not (has_newline r)) windows_reserved ≡ true
unfolding any all
reserved_plain = refl

device-newline : (s : Text) → is_reserved s ≡ false → is_reserved (s ++ newline ∷ []) ≡ false
unfolding is_reserved
device-newline s h = elim (stem-newline s) [
  | inl e ↦ rw e h
  | inr e ↦
      rw (e, upper-newline (stem s))
        (none_of_plain (upper (stem s) ++ newline ∷ []) windows_reserved
          (has_newline-newline (upper (stem s))) reserved_plain)
]

-- Every accepted name with room for one more character is accepted with a newline at its end too,
-- although a newline is no allowed character: `$` also matches before a final newline.
newline_accepted :
    (name : Text)
    → has_newline name ≡ false
    → validate_script_name name ≡ ok name
    → length name < max_script_name_length
    → validate_script_name (name ++ newline ∷ []) ≡ ok (name ++ newline ∷ [])
unfolding validate_script_name match_allowed all any
newline_accepted [] n h l = ground arith
newline_accepted (c ∷ s) n h l =
    let safe = (tested_iff (c ∷ s) n).0 h in
    ground (
      arith,
      match_rest-newline s,
      length-append s (newline ∷ []),
      dots-newline s,
      ends-newline (c ∷ s),
      device-newline (c ∷ s),
      match_rest_plain s,
    )
