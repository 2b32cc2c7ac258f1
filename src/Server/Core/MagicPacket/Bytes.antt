-- ===== src/Server/Core/MagicPacket/Bytes.antt =====
-- The shape of every packet.
use mathlib.Core.Option
use csl.Prelude.{
  subst, inr, inl, Option-cases, refl, replicate, ap, length-append, Text, ◌*◌, All, if◌then◌else◌,
  ℕ, zero, suc, ◌<◌, ◌≡◌, arith, List, [], ◌∷◌, ◌++◌, length, Bool, true, false, some, Option, none,
}
use csl.Server.Core.MagicPacket.{
  at_end, octet, hex_value, skip_sep, match_octets, strip, repeat, build_packet,
}
use csl.Server.Core.MagicPacket.{octet, at_end}

length-repeat : (n : ℕ) (xs : List ℕ) → length (repeat n xs) ≡ n * length xs
unfolding repeat
length-repeat zero xs = omega arith
length-repeat (suc n) xs = grind (arith, length-append xs (repeat n xs), length-repeat n xs)

hex_value-lt : (c : ℕ) {x : ℕ} → hex_value c ≡ some x → x < 16
unfolding hex_value
hex_value-lt c e = ground arith

octet-lt : (a b : ℕ) {x : ℕ} → octet a b ≡ some x → x < 256
octet-lt a b e = elim (Option-cases (hex_value a)) [
  | inl n ↦ ground arith
  | inr (u, p) ↦ elim (Option-cases (hex_value b)) [
    | inl n ↦ ground arith
    | inr (v, q) ↦ ground (arith, hex_value-lt a p, hex_value-lt b q)
  ]
]

-- `k` bytes, if anything.
abbrev Octets : ℕ → Option (List ℕ) → Type 0
Octets k none = Unit
Octets k (some xs) = (length xs ≡ k) × All (λ x. x < 256) xs

one_octet :
    (o : Option ℕ) (b : Bool)
    → ((x : ℕ) → o ≡ some x → x < 256)
    → Octets 1 (elim o [ none ↦ none | some x ↦ if b then some (x ∷ []) else none ])
one_octet none b h = tt
one_octet (some x) true h = (refl, (h x refl, tt))
one_octet (some x) false h = tt

more-Octets :
    (k : ℕ) (o : Option ℕ) (r : Option (List ℕ))
    → ((x : ℕ) → o ≡ some x → x < 256)
    → Octets k r
    → Octets (suc k) (elim o [ none ↦ none | some x ↦ Option.map (λ xs. x ∷ xs) r ])
more-Octets k none r h g = tt
more-Octets k (some x) none h g = tt
more-Octets k (some x) (some xs) h g = (ap suc g.0, (h x refl, g.1))

match_octets_bytes : (k : ℕ) (s : Text) → Octets (suc k) (match_octets k s)
unfolding match_octets
match_octets_bytes zero (a ∷ b ∷ s) = one_octet (octet a b) (at_end s) (λ x e. octet-lt a b e)
match_octets_bytes (suc k) (a ∷ b ∷ s) =
    more-Octets (suc k) (octet a b) (match_octets k (skip_sep s)) (λ x e. octet-lt a b e)
      (match_octets_bytes k (skip_sep s))
match_octets_bytes zero [] = tt
match_octets_bytes zero (a ∷ []) = tt
match_octets_bytes (suc k) [] = tt
match_octets_bytes (suc k) (a ∷ []) = tt

All-append : (P : ℕ → Type 0) (xs ys : List ℕ) → All P xs → All P ys → All P (xs ++ ys)
All-append P [] ys h k = k
All-append P (x ∷ xs) ys h k = (h.0, All-append P xs ys h.1 k)

All-repeat : (P : ℕ → Type 0) (n : ℕ) (xs : List ℕ) → All P xs → All P (repeat n xs)
unfolding repeat
All-repeat P zero xs h = tt
All-repeat P (suc n) xs h = All-append P xs (repeat n xs) h (All-repeat P n xs h)

packet_bytes :
    (o : Option (List ℕ))
    → Octets 6 o
    → Octets 102 (Option.map (λ mac_bytes. replicate 6 255 ++ repeat 16 mac_bytes) o)
packet_bytes none g = tt
packet_bytes (some xs) g = (
  omega (arith, length-append (replicate 6 255) (repeat 16 xs), length-repeat 16 xs, g.0),
  All-append (λ x. x < 256) (replicate 6 255) (repeat 16 xs) (omega arith)
      (All-repeat (λ x. x < 256) 16 xs g.1),
)

-- Whatever the text, a packet has 102 bytes, each below 256.
pub build_packet_size :
    (mac : Text) {packet : List ℕ}
    → build_packet mac ≡ some packet
    → (length packet ≡ 102) × All (λ x. x < 256) packet
unfolding build_packet
build_packet_size mac e = subst (Octets 102) e (packet_bytes _ (match_octets_bytes 5 (strip mac)))
