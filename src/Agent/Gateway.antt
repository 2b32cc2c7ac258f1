-- ===== src/Agent/Gateway.antt =====
-- control_station_lite/agent/cli/cmd_ssh_gateway.py: the forced command of the control station's SSH
-- key runs a request only if it is one of the permitted commands of its platform.
use csl.Prelude.{
  ◌++◌, false, Bool, text_eq_iff, arith, ◌⊎◌, ◌↔◌, true, Text_Eq, ◌≡◌, ◌==◌, codes, if◌then◌else◌,
  any, Option, Text, some, none,
}
use csl.Shared.Registration.{text, is_valid_platform}
use csl.Shared.SshCommands.{listed, wakeup_cmd, config_read_cmd, allowed_commands}

-- The command that is run, if the request is not refused with exit code 126. `requested` is empty for
-- a session without a command.
unfoldable pub ssh_gateway : Text → Text → Option Text
ssh_gateway platform requested =
    if any (λ c. c == requested) (allowed_commands platform) then some requested else none

-- Of the server: `_remote_config_cmd` of control_station_lite/server/api/machines.py
unfoldable pub remote_config_cmd : Text → Text
remote_config_cmd platform = elim (config_read_cmd platform) [
  | some c ↦ c
  | none ↦ codes "cat ~/.csl/config.yaml"
]

abbrev is_some : Option Text → Bool
is_some none = false
is_some (some c) = true

known_commands :
    (platform : Text)
    → is_valid_platform (text platform) ≡ true
    → (is_some (wakeup_cmd platform) ≡ true) × (is_some (config_read_cmd platform) ≡ true)
unfolding is_valid_platform wakeup_cmd config_read_cmd
known_commands platform v = ground arith

permitted :
    (o p : Option Text) (requested : Text)
    → is_some o ≡ true
    → is_some p ≡ true
    → (any (λ c. c == requested) (listed o ++ listed p) ≡ true)
      ↔ ((o ≡ some requested) ⊎ (p ≡ some requested))
unfolding any
permitted (some w) (some r) requested h k =
    ground (arith, text_eq_iff w requested, text_eq_iff r requested)
permitted none p requested h k = cc
permitted (some w) none requested h k = cc

-- On a known platform, the gateway runs the two commands that the control station sends to a target
-- of that platform, each as it was sent, and no other request.
pub ssh_gateway_iff :
    (platform requested : Text)
    → is_valid_platform (text platform) ≡ true
    → (ssh_gateway platform requested ≡ some requested)
      ↔ ((wakeup_cmd platform ≡ some requested) ⊎ (remote_config_cmd platform ≡ requested))
unfolding ssh_gateway remote_config_cmd allowed_commands
ssh_gateway_iff platform requested v =
    let (w, r) = known_commands platform v in
    ground (arith, permitted (wakeup_cmd platform) (config_read_cmd platform) requested w r)
