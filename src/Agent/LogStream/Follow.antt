-- ===== src/Agent/LogStream/Follow.antt =====
-- `tail_log` of control_station_lite/agent/log_stream.py: a file is followed while it grows.
use csl.Prelude.{
  ℕ, ℤ, pos, negsuc, Text, [], ◌∷◌, ◌+◌, List, Bool, true, false, nat_eq, drop, length, zero, suc,
  if◌then◌else◌, ◌||◌,
}
use csl.Agent.LogStream.Scan.{newline, tail_start_offset}

-- f.readline() at a place of a file: up to a newline, or what there is
unfoldable pub line_of : Text → Text
line_of [] = []
line_of (c ∷ s) = let rest = line_of s in if nat_eq c newline then c ∷ [] else c ∷ rest

-- One round of the loop: the file at its first read, whether the job is done then, and the file after the
-- sleep.
pub record Round : Type 0 where
  pub file : Text
  pub is_done : Bool
  pub later : Text

-- What has been yielded, the place in the file, and whether the loop has ended.
pub record Followed : Type 0 where
  pub lines : List Text
  pub position : ℕ
  pub ended : Bool

-- rstrip("\r\n")
unfoldable pub strip_line_end : Text → Text
strip_line_end [] = []
strip_line_end (c ∷ s) = elim (strip_line_end s) [
  | [] ↦ if nat_eq c 13 || nat_eq c newline then [] else c ∷ []
  | d ∷ rest ↦ c ∷ d ∷ rest
]

-- The text that is yielded for the bytes of a read. `decode` is bytes.decode("utf-8",
-- errors="replace") of Python.
abbrev pub line_text : (Text → Text) → Text → Text
line_text decode raw = strip_line_end (decode raw)

abbrev pub with_line : Text → Followed → Followed
with_line line f = record f { lines = line ∷ f.lines }

-- The place at which the reading starts.
unfoldable pub start_position : Text → ℤ → ℕ
start_position file (negsuc n) = 0
start_position file (pos zero) = length file
start_position file (pos (suc n)) = tail_start_offset file (suc n)

-- The loop, for as many rounds as are given.
unfoldable pub tail_log : (Text → Text) → List Round → ℕ → Followed
tail_log decode [] position = record { lines = []; position = position; ended = false }
tail_log decode (r ∷ rounds) position =
    let idle = tail_log decode rounds position in
    elim (line_of (drop position r.file)) [
      | c ∷ s ↦
          with_line (line_text decode (c ∷ s)) (tail_log decode rounds (position + length (c ∷ s)))
      | [] ↦
          if r.is_done
          then elim (line_of (drop position r.later)) [
            | c ∷ s ↦
                with_line (line_text decode (c ∷ s))
                  (tail_log decode rounds (position + length (c ∷ s)))
            | [] ↦ record { lines = []; position = position; ended = true }
          ]
          else idle
    ]
