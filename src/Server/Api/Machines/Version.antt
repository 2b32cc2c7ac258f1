-- ===== src/Server/Api/Machines/Version.antt =====
-- `_major` and `_assert_version_compatible` of control_station_lite/server/api/machines.py.
use csl.Prelude.{
  true, ℕ, Text, [], ◌∷◌, none, some, ok, err, ◌-◌, ◌+◌, ◌*◌, Bool, ◌&&◌, ◌||◌, nat_eq, leb, Result,
  Option, if◌then◌else◌,
}
use csl.Shared.Registration.{Json, text}
use csl.Server.Core.Errors.{HttpException, csl_exception, version_incompatible, uncaught}

-- What `\s` and `\d` match among the ASCII characters; a version is of those.
abbrev pub is_space : ℕ → Bool
is_space c = nat_eq c 32 || (leb 9 c && leb c 13) || (leb 28 c && leb c 31)

abbrev pub is_digit : ℕ → Bool
is_digit c = leb 48 c && leb c 57

-- The number that continues with the digits at the front.
unfoldable pub digits : ℕ → Text → ℕ
digits n [] = n
digits n (c ∷ s) = let more = digits (n * 10 + (c - 48)) s in if is_digit c then more else n

-- `_major`: int(match.group(1)) of \s*(\d+), or None
unfoldable pub major : Text → Option ℕ
major [] = none
major (c ∷ s) =
    let later = major s in
    if is_space c then later else if is_digit c then some (digits (c - 48) s) else none

abbrev pub same_major : Option ℕ → Option ℕ → Bool
same_major (some a) (some b) = nat_eq a b
same_major _ _ = true

-- The version of a bundle may be no text, which `re.match` does not take.
unfoldable pub assert_version_compatible : Text → Json → Result HttpException (Unit {0})
assert_version_compatible server_version (text agent_version) =
    if same_major (major agent_version) (major server_version)
    then ok tt
    else err (csl_exception 409 version_incompatible)
assert_version_compatible server_version _ = err uncaught
