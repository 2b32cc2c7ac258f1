-- ===== src/Agent/Policy.antt =====
-- `_policy_set_entry` of control_station_lite/agent/cli/cmd_policy.py: the auto-approve list of the
-- agent's configuration. The rest of the configuration is written back as it was read.
use csl.Prelude.{
  text_eq_iff, ◌||◌, arith, ◌&&◌, Text_Eq, Option, ◌++◌, not, ◌==◌, Bool, any, if◌then◌else◌, List,
  Text, none, some, [], ◌∷◌, true, false, ◌≡◌,
}
use csl.Agent.Approvals.Data.{is_auto}

-- `current.remove(name)`: the first occurrence
unfoldable pub remove_first : Text → List Text → List Text
remove_first name [] = []
remove_first name (n ∷ names) =
    let rest = remove_first name names in if n == name then names else n ∷ rest

-- The list that is written, if one is.
unfoldable pub policy_set_entry : Text → Bool → List Text → Option (List Text)
policy_set_entry name true current =
    if is_auto name current then none else some (current ++ (name ∷ []))
policy_set_entry name false current =
    if not (is_auto name current) then none else some (remove_first name current)

-- The list after the command.
abbrev pub entries_after : Text → Bool → List Text → List Text
entries_after name add current = elim (policy_set_entry name add current) [
  | none ↦ current
  | some names ↦ names
]

-- No name stands twice.
unfoldable pub distinct : List Text → Bool
distinct [] = true
distinct (n ∷ names) = not (is_auto n names) && distinct names

is_auto-append :
    (j name : Text) (names : List Text)
    → is_auto j (names ++ (name ∷ [])) ≡ (is_auto j names || name == j)
unfolding is_auto any
is_auto-append j name [] = ground arith
is_auto-append j name (n ∷ names) = ground (arith, is_auto-append j name names)

is_auto-remove_first :
    (j name : Text) (names : List Text)
    → distinct names ≡ true
    → is_auto j (remove_first name names) ≡ (if name == j then false else is_auto j names)
unfolding is_auto any remove_first distinct
is_auto-remove_first j name [] d = ground arith
is_auto-remove_first j name (n ∷ names) d = ground (
  arith,
  is_auto-remove_first j name names,
  text_eq_iff n name,
  text_eq_iff n j,
  text_eq_iff name j,
)

-- On a list without duplicates, the command makes the name stand on the list or not, as asked, and
-- leaves every other name as it was.
pub is_auto-entries_after :
    (name : Text) (add : Bool) (current : List Text) (j : Text)
    → distinct current ≡ true
    → is_auto j (entries_after name add current) ≡ (if name == j then add else is_auto j current)
unfolding policy_set_entry
is_auto-entries_after name true current j d =
    ground (arith, is_auto-append j name current, text_eq_iff name j)
is_auto-entries_after name false current j d =
    ground (arith, is_auto-remove_first j name current d, text_eq_iff name j)
