-- ===== src/CommitLog/Slice.antt =====
-- `read_logs_start_end` of src/commitlog.py: which rows its loop collects.
use mathlib.Core.Path.{subst}
use cs525_project.Common.{
  ℕ, zero, suc, ◌+◌, ◌-◌, ◌≡◌, refl, ◌∙◌, Bool, true, false, Option, none, some, List, [], ◌∷◌,
  Result, ok, take, drop, drop-nil, leb, ltb, if◌then◌else◌, ◌>>=◌, Bool-cases, inl, inr, arith,
}
use cs525_project.Common.Text.{Text, lines}
use cs525_project.CommitLog.{CommitLog, parse_line, put_first, read_lines}

-- `end and index > end`: 0 counts as no end.
abbrev pub past_end : Option ℕ → ℕ → Bool
past_end none index = false
past_end (some zero) index = false
past_end (some (suc e)) index = ltb (suc e) index

-- The loop over the lines: what it appends to `output`.
unfoldable pub collect : ℕ → Option ℕ → ℕ → List Text → Result (List (Text × Text))
collect start end index [] = ok []
collect start end index (line ∷ rest) =
    let later = collect start end (suc index) rest in
    let others = if past_end end (suc index) then ok [] else later in
    let mine = parse_line line >>= λ p. put_first p others in
    if leb start index then mine else others

-- `read_logs_start_end`, which does not return its output.
unfoldable pub read_logs_start_end : ℕ → Option ℕ → CommitLog → Result (Unit {0})
read_logs_start_end start end c = collect start end 0 (lines c.file) >>= λ output. ok tt

-- The first lines, up to the line `end`.
abbrev pub up_to : Option ℕ → List Text → List Text
up_to none ls = ls
up_to (some zero) ls = ls
up_to (some (suc e)) ls = take (suc (suc e)) ls

-- One round: the line is taken if it is not before `start`.
round :
    (start index : ℕ) (line : Text) (rest : List Text) (others : Result (List (Text × Text)))
    → others ≡ read_lines (drop (start - suc index) rest)
    → (if leb start index then (parse_line line >>= λ p. put_first p others) else others)
      ≡ read_lines (drop (start - index) (line ∷ rest))
unfolding read_lines
round start index line rest others e = elim (Bool-cases (leb start index)) [
  | inl y ↦
      (let none_left : start - index ≡ 0 = ground arith in
        let none_later : start - suc index ≡ 0 = omega (arith, none_left) in
        let all : others ≡ read_lines rest = e ∙ rw none_later in rw (y, none_left, all))
  | inr n ↦
      (let one_more : start - index ≡ suc (start - suc index) = ground arith in rw (n, one_more) e)
]

collect-open :
    (start index : ℕ) (end : Option ℕ) (ls : List Text)
    → ((i : ℕ) → past_end end i ≡ false)
    → collect start end index ls ≡ read_lines (drop (start - index) ls)
unfolding collect read_lines
collect-open start index end [] o = rw (drop-nil (start - index))
collect-open start index end (line ∷ rest) o =
    rw (o (suc index)) (round start index line rest _ (collect-open start (suc index) end rest o))

-- `left` more lines are read up to the end.
collect-closed :
    (start index e left : ℕ) (ls : List Text)
    → index + suc left ≡ suc (suc e)
    → collect start (some (suc e)) index ls ≡ read_lines (drop (start - index) (take (suc left) ls))
unfolding collect read_lines
collect-closed start index e left [] h = rw (drop-nil (start - index))
collect-closed start index e zero (line ∷ rest) h =
    let over : past_end (some (suc e)) (suc index) ≡ true = ground (arith, h) in
    rw over (round start index line [] (ok []) (rw (drop-nil (start - suc index))))
collect-closed start index e (suc left) (line ∷ rest) h =
    let on : past_end (some (suc e)) (suc index) ≡ false = ground (arith, h) in
    rw on (
      round start index line (take (suc left) rest) _
        (collect-closed start (suc index) e left rest (omega (arith, h))))

-- Without an end, or with the end 0, the loop parses all lines from `start` on; with another end it
-- parses those up to the line `end` and not the others, so that a bad line behind the end raises nothing.
pub collect-slice :
    (start : ℕ) (end : Option ℕ) (c : CommitLog)
    → collect start end 0 (lines c.file) ≡ read_lines (drop start (up_to end (lines c.file)))
collect-slice start end c =
    let from_start : start - 0 ≡ start = omega arith in
    subst (λ n. collect start end 0 (lines c.file) ≡ read_lines (drop n (up_to end (lines c.file))))
      from_start (by_end end)
  where
    by_end :
        (end : Option ℕ)
        → collect start end 0 (lines c.file)
          ≡ read_lines (drop (start - 0) (up_to end (lines c.file)))
    by_end none = collect-open start 0 none (lines c.file) (λ i. refl)
    by_end (some zero) = collect-open start 0 (some zero) (lines c.file) (λ i. refl)
    by_end (some (suc e)) = collect-closed start 0 e (suc e) (lines c.file) (omega arith)
