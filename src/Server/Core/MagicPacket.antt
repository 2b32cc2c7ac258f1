-- ===== src/Server/Core/MagicPacket.antt =====
-- control_station_lite/server/core/magic_packet.py: the Wake-on-LAN packet of a MAC address.
pub mod RoundTrip
pub mod Bytes
use mathlib.Core.Option
use mathlib.Core.List.{reverse}
use csl.Prelude.{
  ◌&&◌, ℕ_Eq, ◌+◌, ◌-◌, replicate, ◌||◌, if◌then◌else◌, ◌==◌, ◌*◌, leb, ℕ, zero, suc, Text, Bool,
  true, false, Option, none, some, List, [], ◌∷◌, ◌++◌,
}

abbrev between : ℕ → ℕ → ℕ → Bool
between lo hi c = leb lo c && leb c hi

-- [0-9A-Fa-f], with the value that `int(g, 16)` gives the digit
unfoldable pub hex_value : ℕ → Option ℕ
hex_value c =
    if between b'0' b'9' c
    then some (c - b'0')
    else if between b'A' b'F' c
    then some (c - b'A' + 10)
    else if between b'a' b'f' c
    then some (c - b'a' + 10)
    else none

-- ([0-9A-Fa-f]{2})
abbrev pub octet : ℕ → ℕ → Option ℕ
octet a b = elim (hex_value a) [
  | none ↦ none
  | some x ↦ elim (hex_value b) [ none ↦ none | some y ↦ some (x * 16 + y) ]
]

-- [:\-]?, which takes a separator wherever there is one: no octet begins with it
unfoldable pub skip_sep : Text → Text
skip_sep [] = []
skip_sep (c ∷ s) = if c == b':' || c == b'-' then s else c ∷ s

abbrev pub at_end : Text → Bool
at_end [] = true
at_end (c ∷ []) = c == b'\n'
at_end (c ∷ d ∷ s) = false

-- The rest of the expression, from an octet with `k` more behind it.
unfoldable pub match_octets : ℕ → Text → Option (List ℕ)
match_octets zero (a ∷ b ∷ s) = elim (octet a b) [
  | none ↦ none
  | some x ↦ if at_end s then some (x ∷ []) else none
]
match_octets (suc k) (a ∷ b ∷ s) =
    let rest = match_octets k (skip_sep s) in
    elim (octet a b) [ none ↦ none | some x ↦ Option.map (λ xs. x ∷ xs) rest ]
match_octets _ _ = none

-- The characters that `str.strip` takes off.
unfoldable pub is_space : ℕ → Bool
is_space c =
    between 9 13 c
    || between 28 32 c
    || c == 133
    || c == 160
    || c == 5760
    || between 8192 8202 c
    || c == 8232
    || c == 8233
    || c == 8239
    || c == 8287
    || c == 12288

unfoldable pub lstrip : Text → Text
lstrip [] = []
lstrip (c ∷ s) = let rest = lstrip s in if is_space c then rest else c ∷ s

unfoldable pub strip : Text → Text
unfolding lstrip
strip s = reverse (lstrip (reverse (lstrip s)))

-- xs * n
unfoldable pub repeat : ℕ → List ℕ → List ℕ
repeat zero xs = []
repeat (suc n) xs = xs ++ repeat n xs

unfoldable pub build_packet : Text → Option (List ℕ)
build_packet mac =
    Option.map (λ mac_bytes. replicate 6 255 ++ repeat 16 mac_bytes) (match_octets 5 (strip mac))
