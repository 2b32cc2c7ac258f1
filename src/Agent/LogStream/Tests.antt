-- ===== src/Agent/LogStream/Tests.antt =====
-- A log that grows while it is read: a line is read in two parts.
use csl.Prelude.{
  map, ltb, if◌then◌else◌, Text, codes, [], ◌∷◌, ◌++◌, List, true, false, All, drop, ◌≡◌, refl,
}
use csl.Agent.LogStream.Scan.{newline}
use csl.Agent.LogStream.Lines.{AreLinesOf}
use csl.Agent.LogStream.Follow.{Round, tail_log, line_of}
use csl.Agent.LogStream.Complete.{join, Grows, tail_log-join}

abbrev early : Text
early = codes "ab" ++ (newline ∷ codes "c")

abbrev final : Text
final = codes "ab" ++ (newline ∷ codes "cd")

abbrev rounds : List Round
rounds =
    record { file = early; is_done = false; later = final }
    ∷ record { file = early; is_done = false; later = final }
    ∷ record { file = early; is_done = false; later = final }
    ∷ record { file = final; is_done = true; later = final }
    ∷ record { file = final; is_done = true; later = final }
    ∷ []

abbrev rounds-Grows : All (Grows final) rounds
rounds-Grows = (
  ((codes "d", refl), λ e. refl),
  (
    ((codes "d", refl), λ e. refl),
    (((codes "d", refl), λ e. refl), ((([], refl), λ e. refl), ((([], refl), λ e. refl), tt))),
  ),
)

-- A decoder of ASCII: any other byte is replaced.
abbrev ascii : Text → Text
ascii = map (λ b. if ltb b 128 then b else 65533)

tail_log-join_example :
    (reads : List Text) × AreLinesOf ascii reads (tail_log ascii rounds 0).lines
    × (join reads ≡ drop 0 final)
unfolding tail_log line_of
tail_log-join_example = tail_log-join ascii final rounds 0 rounds-Grows refl
