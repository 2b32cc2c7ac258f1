-- ===== src/Server/Api/Machines/Majors.antt =====
-- What `_major` of control_station_lite/server/api/machines.py reads, and which versions fit.
use csl.Prelude.{
  ℕ, Text, [], ◌∷◌, ◌++◌, ◌+◌, ◌-◌, ◌*◌, ◌<◌, Bool, true, false, all, length, ok, some, none, ◌≡◌,
  refl, ap, ◌∙◌, subst, arith, ◌⊎◌, inl, inr, Bool-cases, ◌||◌,
}
use csl.Shared.Registration.{Json, text, number, other}
use csl.Server.Api.Machines.Version.{is_space, is_digit, digits, major, assert_version_compatible}

-- The number that decimal digits write, behind those that have been read.
unfoldable pub value_of : ℕ → Text → ℕ
value_of n [] = n
value_of n (c ∷ s) = value_of (n * 10 + (c - 48)) s

abbrev pub begins_with : (ℕ → Bool) → Text → Bool
begins_with p [] = false
begins_with p (c ∷ s) = p c

-- The text begins, behind white space, with a numeral for the number, which goes as far as it can.
pub record HasMajor (version : Text) (n : ℕ) : Type 0 where
  pub spaces : Text
  pub numeral : Text
  pub rest : Text
  pub whole : version ≡ spaces ++ (numeral ++ rest)
  pub blank : all is_space spaces ≡ true
  pub decimal : all is_digit numeral ≡ true
  pub some_digit : 0 < length numeral
  pub longest : begins_with is_digit rest ≡ false
  pub value : value_of 0 numeral ≡ n

-- No numeral follows the white space at the beginning of the text.
pub record NoMajor (version : Text) : Type 0 where
  pub spaces : Text
  pub rest : Text
  pub whole : version ≡ spaces ++ rest
  pub blank : all is_space spaces ≡ true
  pub no_digit : begins_with (λ c. is_space c || is_digit c) rest ≡ false

-- Both versions begin with the same number, or one of them begins with none.
pub IsCompatible : Text → Text → Type 0
IsCompatible agent server =
    NoMajor agent ⊎ NoMajor server ⊎ ((n : ℕ) × HasMajor agent n × HasMajor server n)

digits-split :
    (n : ℕ) (s : Text)
    → (numeral : Text) × (rest : Text) × (s ≡ numeral ++ rest)
      × (all is_digit numeral ≡ true)
      × (begins_with is_digit rest ≡ false)
      × (value_of n numeral ≡ digits n s)
unfolding digits value_of all
digits-split n [] = ([], [], refl, refl, refl, refl)
digits-split n (c ∷ s) = elim (Bool-cases (is_digit c)) [
  | inl y ↦
      let (numeral, rest, e, a, b, v) = digits-split (n * 10 + (c - 48)) s in
      (c ∷ numeral, rest, ap (λ t. c ∷ t) e, ground (arith, y, a), b, ground (arith, y, v))
  | inr y ↦ ([], c ∷ s, refl, refl, y, ground (arith, y))
]

major-cases :
    (s : Text) → (NoMajor s × (major s ≡ none)) ⊎ ((n : ℕ) × HasMajor s n × (major s ≡ some n))
unfolding major all value_of
major-cases [] =
    inl (record { spaces = []; rest = []; whole = refl; blank = refl; no_digit = refl }, refl)
major-cases (c ∷ s) = elim (Bool-cases (is_space c)) [
  | inl y ↦ elim (major-cases s) [
    | inl (p, e) ↦ inl (
      record {
        spaces = c ∷ p.spaces;
        rest = p.rest;
        whole = ap (λ t. c ∷ t) p.whole;
        blank = ground (arith, y, p.blank);
        no_digit = p.no_digit;
      },
      ground (arith, y, e),
    )
    | inr (n, p, e) ↦ inr (
      n,
      record {
        spaces = c ∷ p.spaces;
        numeral = p.numeral;
        rest = p.rest;
        whole = ap (λ t. c ∷ t) p.whole;
        blank = ground (arith, y, p.blank);
        decimal = p.decimal;
        some_digit = p.some_digit;
        longest = p.longest;
        value = p.value;
      },
      ground (arith, y, e),
    )
  ]
  | inr y ↦ elim (Bool-cases (is_digit c)) [
    | inl z ↦
        let (numeral, rest, e, a, b, v) = digits-split (c - 48) s in
        inr (
          digits (c - 48) s,
          record {
            spaces = [];
            numeral = c ∷ numeral;
            rest = rest;
            whole = ap (λ t. c ∷ t) e;
            blank = refl;
            decimal = ground (arith, z, a);
            some_digit = omega arith;
            longest = b;
            value = ap (λ k. value_of k numeral) (omega arith) ∙ v;
          },
          ground (arith, y, z),
        )
    | inr z ↦ inl (
      record {
        spaces = [];
        rest = c ∷ s;
        whole = refl;
        blank = refl;
        no_digit = ground (arith, y, z);
      },
      ground (arith, y, z),
    )
  ]
]

pub assert_version_compatible-IsCompatible :
    (server : Text) (version : Json)
    → assert_version_compatible server version ≡ ok tt
    → (agent : Text) × (version ≡ text agent) × IsCompatible agent server
unfolding assert_version_compatible IsCompatible
assert_version_compatible-IsCompatible server (number z) e = absurd (ground arith)
assert_version_compatible-IsCompatible server (other t) e = absurd (ground arith)
assert_version_compatible-IsCompatible server (text agent) e = elim (major-cases agent) [
  | inl (p, a) ↦ (agent, refl, inl p)
  | inr (n, p, a) ↦ elim (major-cases server) [
    | inl (q, b) ↦ (agent, refl, inr (inl q))
    | inr (k, q, b) ↦
        let same : k ≡ n = ground (arith, a, b, e) in
        (agent, refl, inr (inr (n, p, subst (HasMajor server) same q)))
  ]
]
