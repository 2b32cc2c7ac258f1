-- ===== src/Agent/Api/Access.antt =====
-- Who gets through to the endpoints.
use csl.Prelude.{
  if◌then◌else◌, ◌&&◌, inr, ltb, refl, length, inl, arith, take, drop, Bool-cases, Bool, ◌++◌,
  text_eq, all, ℕ, Text, [], ◌∷◌, some, true, err, zero, suc, ◌≡◌,
}
use csl.Agent.Approvals.Data.{Platform}
use csl.Agent.Api.App.{activity, AgentRequest, dispatch, bearer, is_ascii, provided_token}
use csl.Shared.ScriptMeta.{Numbers}
use csl.Agent.Runner.{Machine}
use csl.Agent.Processes.Records.{StateFormat}
use csl.Agent.Api.Wire.{http_error, Agent, Moment}
use csl.Agent.Params.{Params}

text_eq-append :
    (s t u : Text)
    → text_eq u (s ++ t) ≡ text_eq (take (length s) u) s && text_eq (drop (length s) u) t
unfolding text_eq
text_eq-append [] t u = refl
text_eq-append (c ∷ s) t [] = refl
text_eq-append (c ∷ s) t (d ∷ u) = ground (arith, text_eq-append s t u)

provided_token-eq :
    (header token : Text) (c : ℕ)
    → text_eq (provided_token header) (c ∷ token) ≡ text_eq header (bearer ++ (c ∷ token))
unfolding provided_token text_eq
provided_token-eq header token c =
    let split = text_eq-append bearer (c ∷ token) header in
    elim (Bool-cases (text_eq (take 7 header) bearer)) [
      | inl e ↦ rw (split, e)
      | inr e ↦ rw (split, e, text_eq)
    ]

all-drop : (p : ℕ → Bool) (n : ℕ) (s : Text) → all p s ≡ true → all p (drop n s) ≡ true
unfolding all
all-drop p zero s h = h
all-drop p (suc n) [] h = refl
all-drop p (suc n) (c ∷ s) h = all-drop p n s (ground arith)

provided_token-ascii :
    (header : Text) → is_ascii header ≡ true → is_ascii (provided_token header) ≡ true
unfolding provided_token all
provided_token-ascii header h = ground (arith, all-drop (λ c. ltb c 128) 7 header)

module _ (io : Platform) {nums : Numbers} (m : Machine nums) (fmt : StateFormat) where
  -- On an agent with a token of ASCII characters, a request with an ASCII header reaches its endpoint
  -- exactly if the header is "Bearer " and that token. Any other is answered with status 401 and
  -- changes nothing, the idle clock included.
  pub dispatch-bearer :
      (w : Moment) (header : Text) (q : AgentRequest (Params nums.Number))
      (a : Agent io.Doc fmt.Doc) (c : ℕ) (token : Text)
      → a.api_token ≡ some (c ∷ token)
      → is_ascii (c ∷ token) ≡ true
      → is_ascii header ≡ true
      → dispatch io m fmt w header q a ≡ (
          if text_eq header (bearer ++ (c ∷ token))
          then activity io m fmt w q a
          else (err (http_error 401), a))
  unfolding dispatch
  dispatch-bearer w header q a c token e k h =
      ground (arith, provided_token-eq header token c, provided_token-ascii header h)
