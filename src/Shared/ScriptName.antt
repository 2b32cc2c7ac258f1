-- ===== src/Shared/ScriptName.antt =====
-- control_station_lite/shared/script_name.py: which script names are safe file names.
pub mod Safe
mod Newline
use csl.Prelude.{
  all, not, length, ltb, ℕ_Eq, text_eq, ◌-◌, ◌||◌, if◌then◌else◌, ◌&&◌, ◌+◌, ◌==◌, any, leb, ℕ,
  Text, codes, Bool, true, false, Result, ok, err, List, [], ◌∷◌, ◌++◌, map,
}

pub data ScriptNameError : Type 0 where
  is_empty too_long bad_character only_dots trailing_dot reserved_name : ScriptNameError

abbrev pub max_script_name_length : ℕ
max_script_name_length = 100

abbrev between : ℕ → ℕ → ℕ → Bool
between lo hi c = leb lo c && leb c hi

-- [A-Za-z0-9_.\-]
unfoldable pub is_allowed : ℕ → Bool
is_allowed c =
    between b'A' b'Z' c
    || between b'a' b'z' c
    || between b'0' b'9' c
    || c == b'_'
    || c == b'.'
    || c == b'-'

-- What `$` leaves unread: nothing, or one newline at the end.
abbrev at_end : Text → Bool
at_end [] = true
at_end (c ∷ []) = c == b'\n'
at_end (c ∷ d ∷ s) = false

-- `[...]*$`: the class holds no newline, so no choice of the repetition is ever taken back.
unfoldable pub match_rest : Text → Bool
match_rest [] = true
match_rest (c ∷ s) = let rest = match_rest s in if is_allowed c then rest else at_end (c ∷ s)

-- `_ALLOWED.match(name)`
unfoldable pub match_allowed : Text → Bool
unfolding match_rest
match_allowed [] = false
match_allowed (c ∷ s) = is_allowed c && match_rest s

-- `str.upper`, on the ASCII letters that can reach it
unfoldable pub upper : Text → Text
upper = map (λ c. if between b'a' b'z' c then c - 32 else c)

-- name.split(".", 1)[0]
unfoldable pub stem : Text → Text
stem [] = []
stem (c ∷ s) = let rest = stem s in if c == b'.' then [] else c ∷ rest

-- name.endswith(".")
unfoldable pub ends_with_dot : Text → Bool
ends_with_dot [] = false
ends_with_dot (c ∷ []) = c == b'.'
ends_with_dot (c ∷ d ∷ s) = ends_with_dot (d ∷ s)

abbrev numbered : Text → List Text
numbered prefix = map (λ i. prefix ++ (b'0' + i) ∷ []) (1 ∷ 2 ∷ 3 ∷ 4 ∷ 5 ∷ 6 ∷ 7 ∷ 8 ∷ 9 ∷ [])

abbrev pub windows_reserved : List Text
windows_reserved =
    (codes "CON" ∷ codes "PRN" ∷ codes "AUX" ∷ codes "NUL" ∷ [])
    ++ numbered (codes "COM")
    ++ numbered (codes "LPT")

-- name.split(".", 1)[0].upper() in _WINDOWS_RESERVED
unfoldable pub is_reserved : Text → Bool
is_reserved name = any (λ r. text_eq r (upper (stem name))) windows_reserved

unfoldable pub validate_script_name : Text → Result ScriptNameError Text
validate_script_name [] = err is_empty
validate_script_name (c ∷ s) =
    let name = c ∷ s in
    if ltb max_script_name_length (length name)
    then err too_long
    else if not (match_allowed name)
    then err bad_character
    else if all (λ d. d == b'.') name
    then err only_dots
    else if ends_with_dot name
    then err trailing_dot
    else if is_reserved name
    then err reserved_name
    else ok name
