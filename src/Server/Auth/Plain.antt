-- ===== src/Server/Auth/Plain.antt =====
-- Tokens that anyone can read, for the tests.
use csl.Prelude.{
  leb, if◌then◌else◌, ◌≤◌, arith, text_eq, Option, ℕ, Text, ◌∷◌, none, some, zero, suc, ◌≡◌,
}
use csl.Server.Auth.Tokens.{access, expires, refresh_claims, access, Security, Payload}

-- Tokens are kept as their claims, by which they are read back until they expire.
abbrev pub toy_encode : Payload → Text
toy_encode (access sub role exp) = 0 ∷ sub ∷ exp ∷ role
toy_encode (refresh_claims sub jti exp) = 1 ∷ sub ∷ exp ∷ jti

abbrev pub toy_read : Text → Option Payload
toy_read (zero ∷ sub ∷ exp ∷ role) = some (access sub role exp)
toy_read (suc zero ∷ sub ∷ exp ∷ jti) = some (refresh_claims sub jti exp)
toy_read _ = none

abbrev pub toy_decode : ℕ → Text → Option Payload
toy_decode now token = elim (toy_read token) [
  | none ↦ none
  | some p ↦ if leb now (expires p) then some p else none
]

pub toy_decode-encode :
    (now : ℕ) (p : Payload) → now ≤ expires p → toy_decode now (toy_encode p) ≡ some p
toy_decode-encode now (access sub role exp) h = ground arith
toy_decode-encode now (refresh_claims sub jti exp) h = ground arith

pub toy_decode-stable :
    (now later : ℕ) (token : Text) (p q : Payload)
    → toy_decode now token ≡ some p
    → toy_decode later token ≡ some q
    → p ≡ q
toy_decode-stable now later token p q e f = ground arith

abbrev pub toy : Security
toy = record {
  encode = toy_encode;
  decode = toy_decode;
  sha256 = λ s. s;
  verify_password = text_eq;
  decode-encode = toy_decode-encode;
  decode-stable = toy_decode-stable;
}
