-- ===== src/Agent/LogStream/Scan.antt =====
-- The backwards scan of `_tail_start_offset`. A file is its bytes.
use csl.Prelude.{
  zero, suc, [], ◌∷◌, ◌-◌, min, ◌+◌, drop, nat_eq, ◌∷◌, if◌then◌else◌, suc, take, length, ℕ, Text,
}

abbrev pub newline : ℕ
newline = 10

abbrev pub seek_chunk : ℕ
seek_chunk = 8192

-- `buf[i]`, for a place inside the buffer
unfoldable pub byte_at : Text → ℕ → ℕ
byte_at [] i = 0
byte_at (b ∷ buf) zero = b
byte_at (b ∷ buf) (suc i) = byte_at buf i

-- `f.seek(pos)` and `f.read(size)`
abbrev pub read_at : Text → ℕ → ℕ → Text
read_at file pos size = take size (drop pos file)

-- What a scan has so far: the offset to return, or the number of newlines.
pub data Scanned : Type 0 where
  found counted : ℕ → Scanned

-- The `for` loop over a buffer that was read at `pos`: the bytes below `i`, the last one first.
unfoldable pub scan_buffer : Text → ℕ → ℕ → ℕ → ℕ → Scanned
scan_buffer buf pos tail_lines zero newlines = counted newlines
scan_buffer buf pos tail_lines (suc i) newlines =
    let below = scan_buffer buf pos tail_lines i newlines in
    let below' = scan_buffer buf pos tail_lines i (newlines + 1) in
    if nat_eq (byte_at buf i) newline
    then (if nat_eq (newlines + 1) tail_lines then found (pos + i + 1) else below')
    else below

-- The `while` loop. The fuel is at least `pos`, which every round makes smaller.
unfoldable pub scan_file : Text → ℕ → ℕ → ℕ → ℕ → ℕ → Scanned
scan_file file effective_end tail_lines zero pos newlines = counted newlines
scan_file file effective_end tail_lines (suc fuel) pos newlines =
    if nat_eq pos 0
    then counted newlines
    else let read_size = min seek_chunk pos in
      let pos' = pos - read_size in
      let buf = read_at file pos' read_size in
      let scan_len = min (length buf) (effective_end - pos') in
      elim (scan_buffer buf pos' tail_lines scan_len newlines) [
        | found offset ↦ found offset
        | counted newlines' ↦ scan_file file effective_end tail_lines fuel pos' newlines'
      ]

-- The end of the file without a newline that terminates its last line.
unfoldable pub effective_end : Text → ℕ
effective_end file =
    let size = length file in
    if nat_eq size 0
    then 0
    else if nat_eq (byte_at (read_at file (size - 1) 1) 0) newline
    then size - 1
    else size

unfoldable pub tail_start_offset : Text → ℕ → ℕ
tail_start_offset file tail_lines =
    let end = effective_end file in
    if nat_eq (length file) 0 then 0 else elim (scan_file file end tail_lines end end 0) [
      | found offset ↦ offset
      | counted newlines ↦ 0
    ]
