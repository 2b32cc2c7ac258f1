-- ===== src/Agent/LogStream/Tail.antt =====
-- The offset is the one from which the last lines are read.
use csl.Prelude.{
  subst, ◌⊎◌, sym, ◌-◌, min, inr, inl, Bool-cases, ◌∙◌, ap, refl, zero, suc, [], ◌∷◌, ◌∷◌, arith,
  nat_eq, take, length, if◌then◌else◌, drop, ◌≤◌, ◌<◌, ◌≡◌, suc, ◌+◌, ℕ, Text,
}
use csl.Agent.LogStream.Scan.{
  tail_start_offset, effective_end, seek_chunk, scan_file, counted, counted, newline, read_at,
  found, Scanned, scan_buffer, byte_at,
}

-- The number of newlines among the first `n` bytes.
unfoldable pub newlines_below : Text → ℕ → ℕ
newlines_below file zero = 0
newlines_below file (suc n) =
    newlines_below file n + (if nat_eq (byte_at file n) newline then 1 else 0)

byte_at-take : (size i : ℕ) (file : Text) → i < size → byte_at (take size file) i ≡ byte_at file i
unfolding byte_at
byte_at-take zero i file h = omega arith
byte_at-take (suc size) i [] h = refl
byte_at-take (suc size) zero (b ∷ file) h = refl
byte_at-take (suc size) (suc i) (b ∷ file) h = byte_at-take size i file (omega arith)

byte_at-drop : (pos i : ℕ) (file : Text) → byte_at (drop pos file) i ≡ byte_at file (pos + i)
unfolding byte_at
byte_at-drop zero i file = ground arith
byte_at-drop (suc pos) i [] = refl
byte_at-drop (suc pos) i (b ∷ file) =
    byte_at-drop pos i file ∙ ap (byte_at (b ∷ file)) {x = suc (pos + i)} (omega arith)

length-read_at :
    (pos size : ℕ) (file : Text) → pos + size ≤ length file → length (read_at file pos size) ≡ size
length-read_at zero zero file h = refl
length-read_at zero (suc size) [] h = omega arith
length-read_at zero (suc size) (b ∷ file) h = ap suc (length-read_at zero size file (omega arith))
length-read_at (suc pos) zero [] h = refl
length-read_at (suc pos) (suc size) [] h = omega arith
length-read_at (suc pos) size (b ∷ file) h = length-read_at pos size file (omega arith)

newlines_below-suc :
    (file : Text) (p q : ℕ)
    → q ≡ suc p
    → newlines_below file q
      ≡ newlines_below file p + (if nat_eq (byte_at file p) newline then 1 else 0)
unfolding newlines_below
newlines_below-suc file p q e = ap (newlines_below file) e

newlines_below-zero : (file : Text) (n : ℕ) → n ≡ 0 → newlines_below file n ≡ 0
unfolding newlines_below
newlines_below-zero file n e = ap (newlines_below file) e

-- What a scan of the bytes between `pos` and some place is to say, where `total` newlines lie
-- below the place from which the scan began: it stops right behind a newline, or has counted all.
abbrev Right : Text → ℕ → ℕ → ℕ → Scanned → Type 0
Right file pos tail_lines total (found offset) =
    (p : ℕ) × (offset ≡ suc p)
    × (byte_at file p ≡ newline)
    × (newlines_below file offset + tail_lines ≡ total + 1)
Right file pos tail_lines total (counted newlines) =
    (newlines + newlines_below file pos ≡ total) × (newlines < tail_lines)

byte_at-read_at :
    (file : Text) (pos size i : ℕ)
    → i < size
    → byte_at (read_at file pos size) i ≡ byte_at file (pos + i)
byte_at-read_at file pos size i h = byte_at-take size i (drop pos file) h ∙ byte_at-drop pos i file

scan_buffer-Right :
    (file : Text) (pos size tail_lines i newlines total : ℕ)
    → i ≤ size
    → newlines < tail_lines
    → newlines + newlines_below file (pos + i) ≡ total
    → Right file pos tail_lines total
        (scan_buffer (read_at file pos size) pos tail_lines i newlines)
unfolding scan_buffer
scan_buffer-Right file pos size tail_lines zero newlines total h k e = (ground arith, k)
scan_buffer-Right file pos size tail_lines (suc i) newlines total h k e =
    let byte = byte_at-read_at file pos size i h in
    let below = newlines_below-suc file (pos + i) (pos + suc i) (omega arith) in
    let above = newlines_below-suc file (pos + i) (pos + i + 1) (omega arith) in
    elim (Bool-cases (nat_eq (byte_at (read_at file pos size) i) newline)) [
      | inl y ↦ elim (Bool-cases (nat_eq (newlines + 1) tail_lines)) [
        | inl z ↦ rw (y, z) (pos + i, omega arith, (ground arith), (ground arith))
        | inr z ↦
            rw (y, z)
              (scan_buffer-Right file pos size tail_lines i (newlines + 1) total (ground arith)
                (ground arith) (ground arith))
      ]
      | inr y ↦ rw y (
          scan_buffer-Right file pos size tail_lines i newlines total (ground arith) k
            (ground arith))
    ]

at_zero :
    (file : Text) (pos newlines total : ℕ)
    → pos ≡ 0
    → newlines + newlines_below file pos ≡ total
    → newlines + newlines_below file 0 ≡ total
at_zero file pos newlines total z e = ap (λ q. newlines + newlines_below file q) (sym z) ∙ e

after_buffer :
    (file : Text) (pos tail_lines total : ℕ) (s : Scanned) (next : ℕ → Scanned)
    → Right file pos tail_lines total s
    → ((m : ℕ)
        → m + newlines_below file pos ≡ total
        → m < tail_lines
        → Right file 0 tail_lines total (next m))
    → Right file 0 tail_lines total (elim s [ found offset ↦ found offset | counted m ↦ next m ])
after_buffer file pos tail_lines total (found offset) next r k = r
after_buffer file pos tail_lines total (counted m) next (e, l) k = k m e l

-- The `while` loop, with enough fuel.
scan_file-Right :
    (file : Text) (end tail_lines fuel pos newlines total : ℕ)
    → end ≤ length file
    → pos ≤ end
    → pos ≤ fuel
    → newlines < tail_lines
    → newlines + newlines_below file pos ≡ total
    → Right file 0 tail_lines total (scan_file file end tail_lines fuel pos newlines)
unfolding scan_file
scan_file-Right file end tail_lines zero pos newlines total l p f k e =
    (at_zero file pos newlines total (omega arith) e, k)
scan_file-Right file end tail_lines (suc fuel) pos newlines total l p f k e =
    elim (Bool-cases (nat_eq pos 0)) [
      | inl z ↦ rw z (at_zero file pos newlines total (ground arith) e, k)
      | inr z ↦
          let size = min seek_chunk pos in
          let start = pos - size in
          let full = length-read_at start size file (omega arith) in
          let scan_len = min (length (read_at file start size)) (end - start) in
          let whole : start + scan_len ≡ pos = omega (arith, full) in
          rw z (
            after_buffer file start tail_lines total
              (scan_buffer (read_at file start size) start tail_lines scan_len newlines)
              (scan_file file end tail_lines fuel start)
              (scan_buffer-Right file start size tail_lines scan_len newlines total
                (omega (arith, full)) k (ap (λ q. newlines + newlines_below file q) whole ∙ e))
              (λ m e' l'.
                scan_file-Right file end tail_lines fuel start m total l (omega arith)
                  (ground arith) l' e'))
    ]

effective_end_bound : (file : Text) → effective_end file ≤ length file
unfolding effective_end
effective_end_bound file = ground arith

-- The end of the last line, less the newline that terminates it.
unfoldable pub content_end : Text → ℕ
content_end [] = 0
content_end (c ∷ []) = if nat_eq c newline then 0 else 1
content_end (c ∷ d ∷ file) = suc (content_end (d ∷ file))

-- By the last byte, which is read behind the others.
content_end-last :
    (c : ℕ) (file : Text)
    → content_end (c ∷ file) ≡ (
        if nat_eq (byte_at (read_at (c ∷ file) (length file) 1) 0) newline
        then length file
        else suc (length file))
unfolding content_end byte_at
content_end-last c [] = refl
content_end-last c (d ∷ file) = ground (arith, content_end-last d file)

effective_end-content_end : (file : Text) → effective_end file ≡ content_end file
unfolding effective_end content_end
effective_end-content_end [] = refl
effective_end-content_end (c ∷ file) = ground (arith, content_end-last c file)

-- Where a tail of so many lines begins in a file whose last line ends at a place: right behind a
-- newline with one newline less than lines between it and the end, or at the beginning of a file
-- that has no more lines.
abbrev pub StartsTail : Text → ℕ → ℕ → ℕ → Type 0
StartsTail file end tail_lines offset =
    ((p : ℕ) × (offset ≡ suc p)
      × (byte_at file p ≡ newline)
      × (newlines_below file offset + tail_lines ≡ newlines_below file end + 1))
    ⊎ ((offset ≡ 0) × (newlines_below file end < tail_lines))

start_of :
    (file : Text) (end tail_lines : ℕ) (s : Scanned)
    → Right file 0 tail_lines (newlines_below file end) s
    → StartsTail file end tail_lines (elim s [ found offset ↦ offset | counted newlines ↦ 0 ])
start_of file end tail_lines (found offset) r = inl r
start_of file end tail_lines (counted m) (e, l) =
    inr (refl, omega (arith, newlines_below-zero file 0 refl))

from_effective_end :
    (file : Text) (tail_lines : ℕ)
    → 0 < tail_lines
    → StartsTail file (effective_end file) tail_lines (tail_start_offset file tail_lines)
unfolding tail_start_offset
from_effective_end file tail_lines h = elim (Bool-cases (nat_eq (length file) 0)) [
  | inl z ↦
      let size : length file ≡ 0 = ground arith in
      let none_below =
        newlines_below-zero file (effective_end file) (omega (arith, effective_end_bound file)) in
      rw z (inr (refl, omega (arith, none_below)))
  | inr z ↦
      let end = effective_end file in
      rw z (
        start_of file end tail_lines (scan_file file end tail_lines end end 0) (
          scan_file-Right file end tail_lines end end 0 (newlines_below file end)
            (effective_end_bound file) (omega arith) (omega arith) h (omega arith)))
]

-- For a positive number of lines, the backwards scan in chunks of 8192 bytes returns the place at
-- which that many last lines of the file begin, or 0 if the file has no more lines. A newline at the end of
-- the file terminates its last line and separates none.
pub tail_start_offset-StartsTail :
    (file : Text) (tail_lines : ℕ)
    → 0 < tail_lines
    → StartsTail file (content_end file) tail_lines (tail_start_offset file tail_lines)
tail_start_offset-StartsTail file tail_lines h =
    subst (λ end. StartsTail file end tail_lines (tail_start_offset file tail_lines))
      (effective_end-content_end file) (from_effective_end file tail_lines h)
