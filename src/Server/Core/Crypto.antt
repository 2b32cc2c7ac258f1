-- ===== src/Server/Core/Crypto.antt =====
-- control_station_lite/server/core/crypto.py: what the server keeps secret on its disk.
use csl.Prelude.{
  length-append, ℕ, Text, [], ◌∷◌, none, some, ok, err, ◌≡◌, take, drop, length, ltb, if◌then◌else◌,
  ◌++◌, Option, arith, Result, refl, ap,
}

-- AES-GCM of the package `cryptography`: what is encrypted under a key and a nonce is decrypted under
-- the same two.
pub record Aead : Type 0 where
  pub aes_encrypt : Text → Text → Text → Text
  pub aes_decrypt : Text → Text → Text → Option Text
  pub decrypts :
      (key nonce plaintext : Text)
      → aes_decrypt key nonce (aes_encrypt key nonce plaintext) ≡ some plaintext

-- The `ValueError` of a blob without a nonce, and `InvalidTag`.
pub data DecryptError : Type 0 where
  too_short invalid_tag : DecryptError

-- _NONCE_SIZE
abbrev pub nonce_size : ℕ
nonce_size = 12

module _ (aead : Aead) where
  -- `nonce` is what `os.urandom` gives.
  unfoldable pub encrypt : Text → Text → Text → Text
  encrypt nonce plaintext master_key = nonce ++ aead.aes_encrypt master_key nonce plaintext

  unfoldable pub decrypt : Text → Text → Result DecryptError Text
  decrypt blob master_key =
      if ltb (length blob) nonce_size
      then err too_short
      else elim (aead.aes_decrypt master_key (take nonce_size blob) (drop nonce_size blob)) [
        | none ↦ err invalid_tag
        | some plaintext ↦ ok plaintext
      ]

take-append : (s t : Text) → take (length s) (s ++ t) ≡ s
take-append [] t = refl
take-append (c ∷ s) t = ap (λ u. c ∷ u) (take-append s t)

drop-append : (s t : Text) → drop (length s) (s ++ t) ≡ t
drop-append [] t = refl
drop-append (c ∷ s) t = drop-append s t

-- A text encrypted with a nonce of the right size is decrypted under the same key.
pub decrypt-encrypt :
    (aead : Aead) (nonce plaintext master_key : Text)
    → length nonce ≡ nonce_size
    → decrypt aead (encrypt aead nonce plaintext master_key) master_key ≡ ok plaintext
unfolding decrypt encrypt
decrypt-encrypt aead nonce plaintext master_key h =
    let t = aead.aes_encrypt master_key nonce plaintext in
    ground (
      arith,
      length-append nonce t,
      take-append nonce t,
      drop-append nonce t,
      aead.decrypts master_key nonce plaintext,
    )
