-- ===== src/Shared/Registration/Plain.antt =====
-- A concrete codec, for the tests: base 64 is the text itself, and an object is a list of tokens that is
-- read from its end, 6 and above for a character, and below for what the characters behind it make.
use csl.Prelude.{
  ℕ, ℤ, pos, negsuc, Text, Dict, [], ◌∷◌, none, some, zero, suc, ◌≡◌, ap, refl, ◌++◌, Option,
}
use csl.Shared.Registration.{Json, object, text, number, other, Codec}

record Reader : Type 0 where
  characters : Text
  value : Json
  entries : Dict Text Json

abbrev as_number : (ℕ → ℤ) → Text → Json
as_number f [] = other []
as_number f (n ∷ s) = number (f n)

abbrev step : ℕ → Reader → Reader
step zero r = record r { entries = (r.characters, r.value) ∷ r.entries }
step (suc zero) r = record r { characters = []; value = text r.characters }
step (suc (suc zero)) r = record r { characters = [] }
step (suc (suc (suc zero))) r = record r { characters = []; value = other r.characters }
step (suc (suc (suc (suc zero)))) r = record r {
  characters = [];
  value = as_number pos r.characters;
}
step (suc (suc (suc (suc (suc zero))))) r = record r {
  characters = [];
  value = as_number negsuc r.characters;
}
step (suc (suc (suc (suc (suc (suc c)))))) r = record r { characters = c ∷ r.characters }

abbrev read : Text → Reader
read [] = record { characters = []; value = other []; entries = [] }
read (c ∷ s) = step c (read s)

abbrev characters : Text → Text → Text
characters [] rest = rest
characters (c ∷ s) rest = suc (suc (suc (suc (suc (suc c))))) ∷ characters s rest

abbrev write_value : Json → Text → Text
write_value (text s) rest = 1 ∷ characters s (2 ∷ rest)
write_value (other s) rest = 3 ∷ characters s (2 ∷ rest)
write_value (number (pos n)) rest = 4 ∷ characters (n ∷ []) (2 ∷ rest)
write_value (number (negsuc n)) rest = 5 ∷ characters (n ∷ []) (2 ∷ rest)

abbrev write : Dict Text Json → Text
write [] = []
write ((k, v) ∷ d) = 0 ∷ characters k (write_value v (write d))

abbrev read-characters :
    (s rest : Text)
    → read (characters s rest) ≡ record (read rest) { characters = s ++ (read rest).characters }
read-characters [] rest = refl
read-characters (c ∷ s) rest =
    ap (step (suc (suc (suc (suc (suc (suc c))))))) (read-characters s rest)

abbrev append_nil : (s : Text) → s ++ [] ≡ s
append_nil [] = refl
append_nil (c ∷ s) = ap (λ t. c ∷ t) (append_nil s)

abbrev read-value :
    (v : Json) (rest : Text)
    → read (write_value v rest)
      ≡ record { characters = []; value = v; entries = (read rest).entries }
read-value (text s) rest = rw (read-characters s (2 ∷ rest), append_nil s) refl
read-value (other s) rest = rw (read-characters s (2 ∷ rest), append_nil s) refl
read-value (number (pos n)) rest = refl
read-value (number (negsuc n)) rest = refl

abbrev read-write : (d : Dict Text Json) → (read (write d)).entries ≡ d
read-write [] = refl
read-write ((k, v) ∷ d) =
    rw (read-characters k (write_value v (write d)), read-value v (write d), append_nil k)
      (ap (λ r. (k, v) ∷ r) (read-write d))

abbrev int_value : Json → Option ℤ
int_value (number z) = some z
int_value _ = none

abbrev pub plain_codec : Codec
plain_codec = record {
  b64encode = λ s. s;
  b64decode = some;
  dumps = write;
  loads = λ s. some (object (read s).entries);
  int_of = int_value;
  b64decode-b64encode = λ s. refl;
  loads-dumps = λ d. ap (λ e. some (object e)) (read-write d);
  int_of-number = λ z. refl;
}
