-- ===== src/Server/Core/MagicPacket/RoundTrip.antt =====
-- A MAC address in one case of letters, with the separators of the expression, gives its packet.
use mathlib.Core.Path.{◌≡⟨◌⟩◌, ◌∎}
use mathlib.Core.List.{reverse, reverse-append, reverse-reverse, append_assoc}
use csl.Prelude.{
  ◌∙◌, sym, refl, replicate, ap, all, ◌-◌, ◌%◌, ◌+◌, ltb, map, ◌/◌, Text, All, if◌then◌else◌, ℕ,
  ◌<◌, ◌≡◌, arith, List, [], ◌∷◌, ◌++◌, length, Bool, true, false, some,
}
use csl.Server.Core.MagicPacket.{
  reverse, lstrip, is_space, hex_value, skip_sep, match_octets, strip, repeat, build_packet,
}

-- The digit of a value, in one of the two cases.
unfoldable pub hex_digit : Bool → ℕ → ℕ
hex_digit upper x =
    if ltb x 10 then b'0' + x else if upper then b'A' + (x - 10) else b'a' + (x - 10)

-- What stands between two octets.
pub data Separator : Type 0 where
  colon hyphen nothing : Separator

abbrev pub show_sep : Separator → Text
show_sep colon = b':' ∷ []
show_sep hyphen = b'-' ∷ []
show_sep nothing = []

abbrev pub show_octet : Bool → ℕ → Text → Text
show_octet upper x rest = hex_digit upper (x / 16) ∷ hex_digit upper (x % 16) ∷ rest

-- Octets with separators between them.
unfoldable pub show_octets : Bool → ℕ → List (Separator × ℕ) → Text
show_octets upper x [] = show_octet upper x []
show_octets upper x ((s, y) ∷ rest) = show_octet upper x (show_sep s ++ show_octets upper y rest)

hex_value-digit : (upper : Bool) (x : ℕ) → x < 16 → hex_value (hex_digit upper x) ≡ some x
unfolding hex_value hex_digit
hex_value-digit upper x h = ground arith

skip-digit :
    (upper : Bool) (x : ℕ) (rest : Text)
    → x < 16
    → skip_sep (hex_digit upper x ∷ rest) ≡ hex_digit upper x ∷ rest
unfolding skip_sep hex_digit
skip-digit upper x rest h = ground arith

skip-show :
    (upper : Bool) (s : Separator) (x : ℕ) (rest : List (Separator × ℕ))
    → x < 256
    → skip_sep (show_sep s ++ show_octets upper x rest) ≡ show_octets upper x rest
unfolding show_octets skip_sep
skip-show upper colon x rest h = refl
skip-show upper hyphen x rest h = refl
skip-show upper nothing x [] h =
    skip-digit upper (x / 16) (hex_digit upper (x % 16) ∷ []) (omega arith)
skip-show upper nothing x ((t, y) ∷ rest) h =
    skip-digit upper (x / 16) (hex_digit upper (x % 16) ∷ (show_sep t ++ show_octets upper y rest))
      (omega arith)

match_octets-show :
    (upper : Bool) (x : ℕ) (rest : List (Separator × ℕ))
    → x < 256
    → All (λ (s, y). y < 256) rest
    → match_octets (length rest) (show_octets upper x rest) ≡ some (x ∷ map (λ (s, y). y) rest)
unfolding match_octets show_octets
match_octets-show upper x [] h a =
    ground (arith, hex_value-digit upper (x / 16), hex_value-digit upper (x % 16))
match_octets-show upper x ((s, y) ∷ rest) h a = ground (
  arith,
  hex_value-digit upper (x / 16),
  hex_value-digit upper (x % 16),
  skip-show upper s y rest,
  match_octets-show upper y rest,
)

lstrip-pad :
    (pad t : Text) (c : ℕ)
    → all is_space pad ≡ true
    → is_space c ≡ false
    → lstrip (pad ++ (c ∷ t)) ≡ c ∷ t
unfolding lstrip all
lstrip-pad [] t c h n = ground arith
lstrip-pad (d ∷ pad) t c h n = ground (arith, lstrip-pad pad t c)

all-append :
    (p : ℕ → Bool) (xs ys : List ℕ) → all p xs ≡ true → all p ys ≡ true → all p (xs ++ ys) ≡ true
unfolding all
all-append p [] ys h k = k
all-append p (x ∷ xs) ys h k = ground (arith, all-append p xs ys)

all-reverse : (p : ℕ → Bool) (xs : List ℕ) → all p xs ≡ true → all p (reverse xs) ≡ true
unfolding all
all-reverse p [] h = refl
all-reverse p (x ∷ xs) h =
    rw (reverse-append (x ∷ []) xs)
      (all-append p (reverse xs) (x ∷ []) (all-reverse p xs (ground arith)) (ground arith))

digit-not-space : (upper : Bool) (x : ℕ) → x < 16 → is_space (hex_digit upper x) ≡ false
unfolding is_space hex_digit
digit-not-space upper x h = ground arith

-- A text that begins and ends with a character that is no space.
record IsTight (t : Text) : Type 0 where
  first : ℕ
  rest : Text
  init : Text
  last : ℕ
  begins : t ≡ first ∷ rest
  ends : t ≡ init ++ last ∷ []
  first_solid : is_space first ≡ false
  last_solid : is_space last ≡ false

strip-pad :
    (pre t post : Text)
    → all is_space pre ≡ true
    → all is_space post ≡ true
    → IsTight t
    → strip (pre ++ (t ++ post)) ≡ t
unfolding strip
strip-pad pre t post h k f =
    strip (pre ++ (t ++ post))
    ≡⟨ ap (λ (u : Text). reverse (lstrip (reverse (lstrip (pre ++ (u ++ post)))))) f.begins ⟩
      reverse (lstrip (reverse (lstrip (pre ++ (f.first ∷ (f.rest ++ post))))))
    ≡⟨ ap (λ (u : Text). reverse (lstrip (reverse u)))
        (lstrip-pad pre (f.rest ++ post) f.first h f.first_solid) ⟩
      reverse (lstrip (reverse ((f.first ∷ f.rest) ++ post)))
    ≡⟨ ap (λ (u : Text). reverse (lstrip (reverse (u ++ post)))) (sym f.begins ∙ f.ends) ⟩
      reverse (lstrip (reverse ((f.init ++ f.last ∷ []) ++ post)))
    ≡⟨ ap (λ (u : Text). reverse (lstrip u)) (simp reverse-append) ⟩
      reverse (lstrip (reverse post ++ (f.last ∷ reverse f.init)))
    ≡⟨ ap reverse (
        lstrip-pad (reverse post) (reverse f.init) f.last (all-reverse is_space post k)
          f.last_solid) ⟩
      reverse (f.last ∷ reverse f.init)
    ≡⟨ reverse-append (f.last ∷ []) (reverse f.init)
      ∙ ap (λ (u : Text). u ++ f.last ∷ []) (reverse-reverse f.init)
      ∙ sym f.ends ⟩
      t ∎

show-IsTight :
    (upper : Bool) (x : ℕ) (rest : List (Separator × ℕ))
    → x < 256
    → All (λ (s, y). y < 256) rest
    → IsTight (show_octets upper x rest)
unfolding show_octets
show-IsTight upper x [] h a = record {
  first = hex_digit upper (x / 16);
  rest = hex_digit upper (x % 16) ∷ [];
  init = hex_digit upper (x / 16) ∷ [];
  last = hex_digit upper (x % 16);
  begins = refl;
  ends = refl;
  first_solid = digit-not-space upper (x / 16) (omega arith);
  last_solid = digit-not-space upper (x % 16) (omega arith);
}
show-IsTight upper x ((s, y) ∷ rest) h (b, a) =
    let tail = show-IsTight upper y rest b a in
    record {
      first = hex_digit upper (x / 16);
      rest = hex_digit upper (x % 16) ∷ (show_sep s ++ show_octets upper y rest);
      init = show_octet upper x (show_sep s ++ tail.init);
      last = tail.last;
      begins = refl;
      ends = rw (tail.ends, append_assoc);
      first_solid = digit-not-space upper (x / 16) (omega arith);
      last_solid = tail.last_solid;
    }

-- Six bytes, written as hexadecimal octets in one case with a colon, a hyphen or nothing between
-- any two of them, and with white space around, give six bytes 255 and sixteen times the six bytes.
pub build_packet-show :
    (upper : Bool) (x : ℕ) (rest : List (Separator × ℕ)) (pre post : Text)
    → x < 256
    → All (λ (s, y). y < 256) rest
    → length rest ≡ 5
    → all is_space pre ≡ true
    → all is_space post ≡ true
    → build_packet (pre ++ (show_octets upper x rest ++ post))
      ≡ some (replicate 6 255 ++ repeat 16 (x ∷ map (λ (s, y). y) rest))
unfolding build_packet
build_packet-show upper x rest pre post h a l p q = rw (
  strip-pad pre (show_octets upper x rest) post p q (show-IsTight upper x rest h a),
  ← l,
  match_octets-show upper x rest h a,
)
