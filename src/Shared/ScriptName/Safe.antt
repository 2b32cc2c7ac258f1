-- ===== src/Shared/ScriptName/Safe.antt =====
-- What `validate_script_name` lets through.
use csl.Prelude.{
  All, map, ◌≢◌, codes, leb, ◌&&◌, if◌then◌else◌, ◌-◌, ap, ◌∙◌, sym, Bool-cases, text_eq, List, inl,
  ℕ_Eq, inr, refl, ◌⊎◌, ◌==◌, ◌↔◌, any, all, ℕ, Text, Bool, true, false, ok, ◌≡◌, arith, [], ◌∷◌,
  ◌++◌, length, ◌≤◌, ◌<◌,
}
use mathlib.Core.Bool.{false≢true}
use csl.Shared.ScriptName.{
  upper, is_allowed, match_rest, match_allowed, stem, ends_with_dot, is_reserved,
  validate_script_name, max_script_name_length,
}

abbrev pub newline : ℕ
newline = b'\n'

-- Some character of the text is a newline.
abbrev pub has_newline : Text → Bool
has_newline = any (λ c. c == newline)

pub match_rest_plain : (s : Text) → has_newline s ≡ false → match_rest s ≡ all is_allowed s
unfolding match_rest any all
match_rest_plain [] h = refl
match_rest_plain (c ∷ []) h = ground arith
match_rest_plain (c ∷ d ∷ s) h = ground (arith, match_rest_plain (d ∷ s))

dots_end : (c : ℕ) (s : Text) → all (λ d. d == b'.') (c ∷ s) ≡ true → ends_with_dot (c ∷ s) ≡ true
unfolding all ends_with_dot
dots_end c [] h = ground arith
dots_end c (d ∷ s) h = ground (arith, dots_end d s)

-- A letter without its case.
abbrev fold : ℕ → ℕ
fold c = if leb b'a' c && leb c b'z' then c - 32 else c

-- The same text, but for the case of letters.
unfoldable pub same_letters : Text → Text → Bool
same_letters [] [] = true
same_letters [] (d ∷ t) = false
same_letters (c ∷ s) [] = false
same_letters (c ∷ s) (d ∷ t) = let rest = same_letters s t in fold c == fold d && rest

-- The text up to the first dot.
unfoldable pub base : Text → Text
base [] = []
base (c ∷ s) = let rest = base s in if c == b'.' then [] else c ∷ rest

-- The device names of Windows.
abbrev devices : List Text
devices =
    codes "con"
    ∷ codes "prn"
    ∷ codes "aux"
    ∷ codes "nul"
    ∷ codes "com1"
    ∷ codes "com2"
    ∷ codes "com3"
    ∷ codes "com4"
    ∷ codes "com5"
    ∷ codes "com6"
    ∷ codes "com7"
    ∷ codes "com8"
    ∷ codes "com9"
    ∷ codes "lpt1"
    ∷ codes "lpt2"
    ∷ codes "lpt3"
    ∷ codes "lpt4"
    ∷ codes "lpt5"
    ∷ codes "lpt6"
    ∷ codes "lpt7"
    ∷ codes "lpt8"
    ∷ codes "lpt9"
    ∷ []

-- The letters, digits and signs of a name.
abbrev IsSign : ℕ → Type 0
IsSign c =
    ((b'A' ≤ c) × (c ≤ b'Z'))
    ⊎ ((b'a' ≤ c) × (c ≤ b'z'))
    ⊎ ((b'0' ≤ c) × (c ≤ b'9'))
    ⊎ (c ≡ b'_')
    ⊎ (c ≡ b'.')
    ⊎ (c ≡ b'-')

-- The names that the comment of `validate_script_name` describes.
pub record IsSafe (name : Text) : Type 0 where
  pub not_empty : 0 < length name
  pub short : length name ≤ 100
  pub allowed : All IsSign name
  pub no_final_dot : (s : Text) → name ≢ s ++ b'.' ∷ []
  pub no_device : any (λ d. same_letters d (base name)) devices ≡ false

is_allowed_iff : (c : ℕ) → (is_allowed c ≡ true) ↔ IsSign c
unfolding is_allowed
is_allowed_iff c = ground arith

all-is_allowed : (s : Text) → (all is_allowed s ≡ true) ↔ All IsSign s
unfolding all
all-is_allowed [] = (λ e. tt, λ e. refl)
all-is_allowed (c ∷ s) =
    let (f, g) = is_allowed_iff c in
    let (h, k) = all-is_allowed s in
    (λ e. (f (ground arith), h (ground arith)), λ (a, b). ground (arith, g a, k b))

final_dot : (s : Text) → ends_with_dot s ≡ true → (t : Text) × (s ≡ t ++ b'.' ∷ [])
unfolding ends_with_dot
final_dot [] h = ground arith
final_dot (c ∷ []) h = ([], ground arith)
final_dot (c ∷ d ∷ s) h = let (t, e) = final_dot (d ∷ s) h in (c ∷ t, ap (λ r. c ∷ r) e)

ends_with_dot-append : (t : Text) → ends_with_dot (t ++ b'.' ∷ []) ≡ true
unfolding ends_with_dot
ends_with_dot-append [] = refl
ends_with_dot-append (c ∷ []) = refl
ends_with_dot-append (c ∷ d ∷ t) = ends_with_dot-append (d ∷ t)

no_dot_iff : (s : Text) → (ends_with_dot s ≡ false) ↔ ((t : Text) → s ≢ t ++ b'.' ∷ [])
no_dot_iff s = (
  λ e t q. false≢true (sym e ∙ ap ends_with_dot q ∙ ends_with_dot-append t),
  λ n. elim (Bool-cases (ends_with_dot s)) [
    | inl y ↦ let (t, q) = final_dot s y in absurd (n t q)
    | inr y ↦ y
  ],
)

stem-base : (s : Text) → stem s ≡ base s
unfolding stem base
stem-base [] = refl
stem-base (c ∷ s) = ground (arith, stem-base s)

text_eq-upper : (r s : Text) → text_eq (upper r) (upper s) ≡ same_letters r s
unfolding text_eq upper same_letters
text_eq-upper [] [] = refl
text_eq-upper [] (d ∷ s) = refl
text_eq-upper (c ∷ r) [] = refl
text_eq-upper (c ∷ r) (d ∷ s) = ap (λ b. fold c == fold d && b) (text_eq-upper r s)

any-upper :
    (s : Text) (rs : List Text)
    → any (λ r. text_eq r (upper s)) (map upper rs) ≡ any (λ r. same_letters r s) rs
unfolding any
any-upper s [] = refl
any-upper s (r ∷ rs) = rw (text_eq-upper r s, any-upper s rs) refl

is_reserved-devices :
    (name : Text) → is_reserved name ≡ any (λ d. same_letters d (base name)) devices
unfolding is_reserved upper
is_reserved-devices name = rw (stem-base name) (any-upper (base name) devices)

-- The same, by the tests of the code.
pub tested_iff :
    (name : Text)
    → has_newline name ≡ false
    → (validate_script_name name ≡ ok name) ↔ (
        (0 < length name)
        × (length name ≤ max_script_name_length)
        × (all is_allowed name ≡ true)
        × (ends_with_dot name ≡ false)
        × (is_reserved name ≡ false))
unfolding validate_script_name match_allowed all any
tested_iff [] h = ground arith
tested_iff (c ∷ s) h =
    (λ e. ground (arith, match_rest_plain s), λ f. ground (arith, match_rest_plain s, dots_end c s))

-- A name with no newline in it is accepted, and returned as it is, exactly when it is safe: it has 1 to
-- 100 characters, all of them letters, digits, `_`, `.` or `-` of ASCII, no dot at its end, and before its
-- first dot no device name of Windows in any case of letters.
pub validate_iff :
    (name : Text) → has_newline name ≡ false → (validate_script_name name ≡ ok name) ↔ IsSafe name
validate_iff name h =
    let (f, g) = tested_iff name h in
    let (a, b) = all-is_allowed name in
    let (d, k) = no_dot_iff name in
    (
      λ e.
          let (n, l, p, q, r) = f e in
          record {
            not_empty = n;
            short = l;
            allowed = a p;
            no_final_dot = d q;
            no_device = sym (is_reserved-devices name) ∙ r;
          },
      λ s. g (
        s.not_empty,
        s.short,
        b s.allowed,
        k s.no_final_dot,
        is_reserved-devices name ∙ s.no_device,
      ),
    )
