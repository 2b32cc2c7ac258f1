-- ===== src/Shared/Registration/RoundTrip.antt =====
-- A bundle is read back as it was written, and what is read is a bundle for a known platform.
use csl.Prelude.{Dict, arith, text_eq, member, true, lookup, Text, ok, ◌≡◌}
use csl.Shared.Registration.{
  Json, encode, decode, Codec, RegistrationBundle, is_valid_platform, field, missing_from,
  from_object, payload,
}

from_object-payload :
    (c : Codec) (b : RegistrationBundle)
    → is_valid_platform b.platform ≡ true
    → from_object c (payload c b) ≡ ok b
unfolding from_object missing_from field lookup member text_eq
from_object-payload c b v = rw (v, c.int_of-number b.agent_port)

-- A bundle for a known platform survives encoding and decoding.
pub decode-encode :
    (c : Codec) (b : RegistrationBundle)
    → is_valid_platform b.platform ≡ true
    → decode c (encode c b) ≡ ok b
unfolding decode encode
decode-encode c b v = ground (
  arith,
  c.b64decode-b64encode (c.dumps (payload c b)),
  c.loads-dumps (payload c b),
  from_object-payload c b v,
)

from_object-platform :
    (c : Codec) (d : Dict Text Json) {b : RegistrationBundle}
    → from_object c d ≡ ok b
    → is_valid_platform b.platform ≡ true
unfolding from_object
from_object-platform c d e = ground arith

-- Whatever text is decoded, a bundle that comes out is for a known platform, and its own encoding is
-- decoded to the same bundle.
pub decode_stable :
    (c : Codec) (s : Text) {b : RegistrationBundle}
    → decode c s ≡ ok b
    → (is_valid_platform b.platform ≡ true) × (decode c (encode c b) ≡ ok b)
decode_stable c s {b} e =
    let v : is_valid_platform b.platform ≡ true =
      unfold decode in grind (arith, from_object-platform) in
    (v, decode-encode c b v)
