-- ===== src/Agent/LogStream/Lines.antt =====
-- What is left of a read without the end of the line.
use csl.Prelude.{
  ℕ, Text, List, [], ◌∷◌, ◌++◌, all, map, Bool, true, false, ◌≡◌, refl, ap, subst, sym, arith,
  nat_eq, ◌||◌, Bool-cases, inl, inr,
}
use csl.Agent.LogStream.Follow.{strip_line_end, line_text}

-- A carriage return or a newline.
abbrev pub is_line_end : ℕ → Bool
is_line_end c = nat_eq c 10 || nat_eq c 13

abbrev pub last_is : (ℕ → Bool) → Text → Bool
last_is p [] = false
last_is p (c ∷ []) = p c
last_is p (c ∷ d ∷ s) = last_is p (d ∷ s)

-- The line is the text without its last carriage returns and newlines, all of them.
pub record IsLineOf (read line : Text) : Type 0 where
  pub ending : Text
  pub whole : read ≡ line ++ ending
  pub only_ends : all is_line_end ending ≡ true
  pub all_ends : last_is is_line_end line ≡ false

-- Each line is that of the read at its place.
abbrev pub AreLinesOf : (Text → Text) → List Text → List Text → Type 0
AreLinesOf decode [] [] = Unit
AreLinesOf decode (raw ∷ reads) (line ∷ lines) =
    IsLineOf (decode raw) line × AreLinesOf decode reads lines
AreLinesOf decode _ _ = ⊥

strip-step :
    (c : ℕ) (s t : Text)
    → strip_line_end s ≡ t
    → IsLineOf s t
    → IsLineOf (c ∷ s) (strip_line_end (c ∷ s))
unfolding all
strip-step c s [] e r = elim (Bool-cases (is_line_end c)) [
  | inl y ↦
      let line : strip_line_end (c ∷ s) ≡ [] = unfold strip_line_end in ground (arith, y, e) in
      subst (IsLineOf (c ∷ s)) (sym line) (record {
        ending = c ∷ r.ending;
        whole = ap (λ u. c ∷ u) r.whole;
        only_ends = ground (arith, y, r.only_ends);
        all_ends = refl;
      })
  | inr y ↦
      let line : strip_line_end (c ∷ s) ≡ c ∷ [] = unfold strip_line_end in ground (arith, y, e) in
      subst (IsLineOf (c ∷ s)) (sym line) (record {
        ending = r.ending;
        whole = ap (λ u. c ∷ u) r.whole;
        only_ends = r.only_ends;
        all_ends = y;
      })
]
strip-step c s (d ∷ t) e r =
    let line : strip_line_end (c ∷ s) ≡ c ∷ d ∷ t = unfold strip_line_end in ground (arith, e) in
    subst (IsLineOf (c ∷ s)) (sym line) (record {
      ending = r.ending;
      whole = ap (λ u. c ∷ u) r.whole;
      only_ends = r.only_ends;
      all_ends = r.all_ends;
    })

strip_line_end-IsLineOf : (s : Text) → IsLineOf s (strip_line_end s)
unfolding all
strip_line_end-IsLineOf [] =
    let line : strip_line_end [] ≡ [] = unfold strip_line_end in refl in
    subst (IsLineOf []) (sym line)
      (record { ending = []; whole = refl; only_ends = refl; all_ends = refl })
strip_line_end-IsLineOf (c ∷ s) = strip-step c s (strip_line_end s) refl (strip_line_end-IsLineOf s)

pub lines-AreLinesOf :
    (decode : Text → Text) (reads : List Text)
    → AreLinesOf decode reads (map (line_text decode) reads)
lines-AreLinesOf decode [] = tt
lines-AreLinesOf decode (raw ∷ reads) =
    (strip_line_end-IsLineOf (decode raw), lines-AreLinesOf decode reads)
