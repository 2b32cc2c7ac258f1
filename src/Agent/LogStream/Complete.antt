-- ===== src/Agent/LogStream/Complete.antt =====
-- What the stream of a log holds.
use csl.Prelude.{
  map, All, List, sym, subst, ◌≢◌, ℕ, Text, [], ◌∷◌, ◌++◌, ◌+◌, List, true, All, nat_eq, drop,
  length, zero, suc, ◌≡◌, refl, ap, sym, ◌∙◌, arith, Bool-cases, inl, inr, ◌⊎◌,
}
use csl.Agent.LogStream.Scan.{newline}
use csl.Agent.LogStream.Lines.{AreLinesOf, lines-AreLinesOf}
use csl.Agent.LogStream.Follow.{
  line_text, with_line, Followed, Round, tail_log, Round, Followed, tail_log, line_of,
}

abbrev pub join : List Text → Text
join [] = []
join (s ∷ lines) = s ++ join lines

-- The file of a round is a beginning of the final one; once the job is done, it is the final one after
-- the sleep.
abbrev pub Grows : Text → Round → Type 0
Grows final r = ((u : Text) × (r.file ++ u ≡ final)) × (r.is_done ≡ true → r.later ≡ final)

List-cases : (s : Text) → (s ≡ []) ⊎ ((c : ℕ) × (t : Text) × (s ≡ c ∷ t))
List-cases [] = inl refl
List-cases (c ∷ t) = inr (c, t, refl)

append_assoc : (s t u : Text) → (s ++ t) ++ u ≡ s ++ (t ++ u)
append_assoc [] t u = refl
append_assoc (c ∷ s) t u = ap (λ r. c ∷ r) (append_assoc s t u)

append_nil : (s : Text) → s ++ [] ≡ s
append_nil [] = refl
append_nil (c ∷ s) = ap (λ r. c ∷ r) (append_nil s)

drop-append : (n : ℕ) (s u : Text) → drop n s ≡ [] ⊎ (drop n (s ++ u) ≡ drop n s ++ u)
drop-append zero s u = inr refl
drop-append (suc n) [] u = inl refl
drop-append (suc n) (c ∷ s) u = drop-append n s u

drop-drop : (m n : ℕ) (s : Text) → drop n (drop m s) ≡ drop (m + n) s
drop-drop zero n s = ap (λ k. drop k s) (omega arith)
drop-drop (suc m) zero [] = ap (λ k. drop k []) {x = suc m} (omega arith)
drop-drop (suc m) (suc n) [] = ap (λ k. drop k []) {x = suc (m + suc n)} (omega arith)
drop-drop (suc m) n (c ∷ s) =
    drop-drop m n s ∙ ap (λ k. drop k (c ∷ s)) {x = suc (m + n)} (omega arith)

line_of-drop : (s u : Text) → line_of s ++ drop (length (line_of s)) (s ++ u) ≡ s ++ u
unfolding line_of
line_of-drop [] u = refl
line_of-drop (c ∷ s) u = elim (Bool-cases (nat_eq c newline)) [
  | inl e ↦ rw e refl
  | inr e ↦ rw e (ap (λ t. c ∷ t) (line_of-drop s u))
]

line_of-nonempty : (s : Text) → line_of s ≡ [] → s ≡ []
unfolding line_of
line_of-nonempty [] e = refl
line_of-nonempty (c ∷ s) e = ground arith

-- A line that is read at a place is what the final file has there.
read-line :
    (final file u raw : Text) (position : ℕ)
    → file ++ u ≡ final
    → line_of (drop position file) ≡ raw
    → raw ≢ []
    → raw ++ drop (position + length raw) final ≡ drop position final
unfolding line_of
read-line final file u raw position g e n = elim (drop-append position file u) [
  | inl k ↦ absurd (n (sym e ∙ ap line_of k))
  | inr k ↦
      let whole : drop position final ≡ drop position file ++ u = ap (drop position) (sym g) ∙ k in
      ap (λ t. raw ++ t)
        (sym (drop-drop position (length raw) final) ∙ ap (drop (length raw)) whole)
      ∙ subst (λ r. r ++ drop (length r) (drop position file ++ u) ≡ drop position file ++ u) e
          (line_of-drop (drop position file) u)
      ∙ sym whole
]

module _ (decode : Text → Text) where
  -- What a following has read stands before its place in the file, each read yields its text, and nothing
  -- stands behind the place when it has ended.
  abbrev IsWhole : Text → ℕ → Followed → Type 0
  IsWhole final position f =
      ((reads : List Text) × (f.lines ≡ map (line_text decode) reads)
        × (join reads ++ drop f.position final ≡ drop position final))
      × (f.ended ≡ true → drop f.position final ≡ [])

  with_line-IsWhole :
      (final raw : Text) (position : ℕ) (f : Followed)
      → raw ++ drop (position + length raw) final ≡ drop position final
      → IsWhole final (position + length raw) f
      → IsWhole final position (with_line (line_text decode raw) f)
  with_line-IsWhole final raw position f h ((reads, e, k), l) = (
    (
      raw ∷ reads,
      ap (λ t. line_text decode raw ∷ t) e,
      append_assoc raw (join reads) (drop f.position final) ∙ ap (λ t. raw ++ t) k ∙ h,
    ),
    l,
  )

  tail_log-IsWhole :
      (final : Text) (rounds : List Round) (position : ℕ)
      → All (Grows final) rounds
      → IsWhole final position (tail_log decode rounds position)
  unfolding tail_log
  tail_log-IsWhole final [] position g = (([], refl, refl), λ e. absurd (ground arith))
  tail_log-IsWhole final (r ∷ rounds) position (((u, g), done), later) =
      elim (List-cases (line_of (drop position r.file))) [
        | inr (c, s, e) ↦
            rw (tail_log, e)
              (with_line-IsWhole final (c ∷ s) position
                (tail_log decode rounds (position + length (c ∷ s)))
                (read-line final r.file u (c ∷ s) position g e (λ q. ground arith))
                (tail_log-IsWhole final rounds (position + length (c ∷ s)) later))
        | inl e ↦ elim (Bool-cases r.is_done) [
          | inr d ↦ rw (tail_log, e, d) (tail_log-IsWhole final rounds position later)
          | inl d ↦ elim (List-cases (line_of (drop position r.later))) [
            | inr (c, s, k) ↦
                rw (tail_log, e, d, k)
                  (with_line-IsWhole final (c ∷ s) position
                    (tail_log decode rounds (position + length (c ∷ s)))
                    (read-line final r.later [] (c ∷ s) position (append_nil r.later ∙ done d) k
                      (λ q. ground arith))
                    (tail_log-IsWhole final rounds (position + length (c ∷ s)) later))
            | inl k ↦
                rw (tail_log, e, d, k)
                  (
                    ([], refl, refl),
                    λ q.
                        subst (λ t. drop position t ≡ []) (done d)
                          (line_of-nonempty (drop position r.later) k),
                  )
          ]
        ]
      ]

  -- A stream that ends has yielded the text of reads that together are all that the file holds in the end
  -- from the start of the stream on: every byte is in one read, in order, whenever the job wrote it; where a
  -- file only grows, and is complete when the job is done and the stream has slept once. Each line
  -- is what its read decodes to, less all carriage returns and newlines at the end.
  pub tail_log-join :
      (final : Text) (rounds : List Round) (position : ℕ)
      → All (Grows final) rounds
      → (tail_log decode rounds position).ended ≡ true
      → (reads : List Text) × AreLinesOf decode reads (tail_log decode rounds position).lines
        × (join reads ≡ drop position final)
  tail_log-join final rounds position g e =
      let ((reads, sent, whole), at_end) = tail_log-IsWhole final rounds position g in
      (
        reads,
        subst (AreLinesOf decode reads) (sym sent) (lines-AreLinesOf decode reads),
        sym (append_nil (join reads)) ∙ ap (λ t. join reads ++ t) (sym (at_end e)) ∙ whole,
      )
