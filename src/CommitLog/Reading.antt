-- ===== src/CommitLog/Reading.antt =====
-- What `read_log` reads after `log` and `log_replace`.
use cs525_project.Common.{
  ℕ, ◌≡◌, refl, ◌∙◌, sym, ap, true, false, List, [], ◌∷◌, ◌++◌, Result, ok, err, All, ◌==◌, arith,
  ◌>>=◌,
}
use cs525_project.Common.Text.{
  Text, newline, comma, space, is_space, split, lines, keep_end, rstrip, strip,
}
use cs525_project.CommitLog.{CommitLog, log_line, log, parse_line, put_first, read_lines, read_log}

-- No character of a text is this one.
abbrev pub Lacks : ℕ → Text → Type 0
Lacks c s = All (λ d. (d == c) ≡ false) s

pub append_assoc : {A : Type 0} (xs ys zs : List A) → (xs ++ ys) ++ zs ≡ xs ++ (ys ++ zs)
append_assoc [] ys zs = refl
append_assoc (x ∷ xs) ys zs = ap (λ l. x ∷ l) (append_assoc xs ys zs)

pub append-nil : {A : Type 0} (xs : List A) → xs ++ [] ≡ xs
append-nil [] = refl
append-nil (x ∷ xs) = ap (λ l. x ∷ l) (append-nil xs)

-- A line, and what follows it.
lines-line : (s rest : Text) → Lacks newline s → lines (s ++ newline ∷ rest) ≡ s ∷ lines rest
lines-line [] rest h = refl
lines-line (c ∷ s) rest h = rw (h.0, lines-line s rest h.1)

split-part :
    (sep : ℕ) (s rest : Text) → Lacks sep s → split sep (s ++ sep ∷ rest) ≡ s ∷ split sep rest
split-part sep [] rest h = rw (same sep)
  where
    same : (n : ℕ) → (n == n) ≡ true
    same n = ground arith
split-part sep (c ∷ s) rest h = rw (h.0, split-part sep s rest h.1)

split-last : (sep : ℕ) (s : Text) → Lacks sep s → split sep s ≡ s ∷ []
split-last sep [] h = refl
split-last sep (c ∷ s) h = rw (h.0, split-last sep s h.1)

rstrip-last : (s : Text) (c : ℕ) → is_space c ≡ false → rstrip (s ++ c ∷ []) ≡ s ++ c ∷ []
rstrip-last [] c h = rw h
rstrip-last (d ∷ s) c h = rw (rstrip-last s c h) (kept d s c)
  where
    kept : (d : ℕ) (s : Text) (c : ℕ) → keep_end d (s ++ c ∷ []) ≡ d ∷ s ++ c ∷ []
    kept d [] c = refl
    kept d (e ∷ s) c = refl

-- A term and a command that a line can hold: no comma and no end of a line, no white space at the front
-- of the term or at the end of the command, and neither is empty.
pub record IsRecord (first : ℕ) (term_rest command_start : Text) (last : ℕ) : Type 0 where
  pub term_comma : Lacks comma (first ∷ term_rest)
  pub term_newline : Lacks newline (first ∷ term_rest)
  pub command_comma : Lacks comma (command_start ++ last ∷ [])
  pub command_newline : Lacks newline (command_start ++ last ∷ [])
  pub front : is_space first ≡ false
  pub back : is_space last ≡ false

-- The file that has these lines.
abbrev pub unlines : List Text → Text
unlines [] = []
unlines (l ∷ ls) = l ++ newline ∷ unlines ls

-- The file has whole lines only.
pub record IsClosed (c : CommitLog) : Type 0 where
  pub rows : List Text
  pub file_eq : c.file ≡ unlines rows
  pub each : All (λ l. Lacks newline l) rows

lines-unlines : (ls : List Text) → All (λ l. Lacks newline l) ls → lines (unlines ls) ≡ ls
lines-unlines [] h = refl
lines-unlines (l ∷ ls) h =
    lines-line l (unlines ls) h.0 ∙ ap (λ (r : List Text). l ∷ r) (lines-unlines ls h.1)

unlines-append :
    (ls : List Text) (l : Text) → unlines ls ++ (l ++ newline ∷ []) ≡ unlines (ls ++ l ∷ [])
unlines-append [] l = refl
unlines-append (k ∷ ls) l =
    append_assoc k (newline ∷ unlines ls) (l ++ newline ∷ [])
    ∙ ap (λ (r : Text). k ++ newline ∷ r) (unlines-append ls l)

All-snoc : (P : Text → Type 0) (ls : List Text) (l : Text) → All P ls → P l → All P (ls ++ l ∷ [])
All-snoc P [] l h p = (p, tt)
All-snoc P (k ∷ ls) l h p = (h.0, All-snoc P ls l h.1 p)

Lacks-append : (c : ℕ) (xs ys : Text) → Lacks c xs → Lacks c ys → Lacks c (xs ++ ys)
Lacks-append c [] ys h k = k
Lacks-append c (x ∷ xs) ys h k = (h.0, Lacks-append c xs ys h.1 k)

-- A line without its end.
abbrev body : Text → Text → Text
body term command = term ++ comma ∷ space ∷ command

module _ {first : ℕ} {term_rest command_start : Text} {last : ℕ}
    (i : IsRecord first term_rest command_start last) where
  abbrev term : Text
  term = first ∷ term_rest

  abbrev command : Text
  command = command_start ++ last ∷ []

  body-newline : Lacks newline (body term command)
  body-newline =
      Lacks-append newline term (comma ∷ space ∷ command) i.term_newline
        (refl, (refl, i.command_newline))

  strip-body : strip (body term command) ≡ body term command
  strip-body =
      let parts : body term command ≡ (term ++ comma ∷ space ∷ command_start) ++ last ∷ [] =
        sym (append_assoc term (comma ∷ space ∷ command_start) (last ∷ [])) in
      rw i.front (
        ap rstrip parts
        ∙ rstrip-last (term ++ comma ∷ space ∷ command_start) last i.back
        ∙ sym parts)

  parse_line-body : parse_line (body term command) ≡ ok (term, space ∷ command)
  parse_line-body =
      let parts : split comma (body term command) ≡ term ∷ (space ∷ command) ∷ [] =
        split-part comma term (space ∷ command) i.term_comma
        ∙ ap (λ (r : List Text). term ∷ r)
            (split-last comma (space ∷ command) (refl, i.command_comma)) in
      rw (strip-body, parts)

-- The rows that were read, with one more behind them.
abbrev pub add_last : Text × Text → Result (List (Text × Text)) → Result (List (Text × Text))
add_last p (ok ps) = ok (ps ++ p ∷ [])
add_last p (err e) = err e

put_first-add_last :
    (x : Result (Text × Text)) (p : Text × Text) (y : Result (List (Text × Text)))
    → (x >>= λ q. put_first q (add_last p y)) ≡ add_last p (x >>= λ q. put_first q y)
put_first-add_last (err e) p y = refl
put_first-add_last (ok q) p (ok ps) = refl
put_first-add_last (ok q) p (err e) = refl

read_lines-append :
    (ls : List Text) (l : Text) (p : Text × Text)
    → parse_line l ≡ ok p
    → read_lines (ls ++ l ∷ []) ≡ add_last p (read_lines ls)
unfolding read_lines
read_lines-append [] l p k = rw k
read_lines-append (m ∷ ls) l p k =
    ap (λ y. parse_line m >>= λ q. put_first q y) (read_lines-append ls l p k)
    ∙ put_first-add_last (parse_line m) p (read_lines ls)

line-body : (term command : Text) → log_line term command ≡ body term command ++ newline ∷ []
line-body term command = sym (append_assoc term (comma ∷ space ∷ command) (newline ∷ []))

-- After `log` of a term and a command that a line can hold, `read_log` reads what it read before, or
-- raises what it raised before, with one more row: the term, and the command behind a blank.
pub read_log-log :
    (first : ℕ) (term_rest command_start : Text) (last : ℕ) (c : CommitLog)
    → IsRecord first term_rest command_start last
    → IsClosed c
    → let term = first ∷ term_rest in
      let command = command_start ++ last ∷ [] in
      (read_log (log term command c) ≡ add_last (term, space ∷ command) (read_log c))
      × IsClosed (log term command c)
unfolding read_log log
read_log-log first term_rest command_start last c i closed =
    let term = first ∷ term_rest in
    let command = command_start ++ last ∷ [] in
    let l = body term command in
    let rows = closed.rows in
    let new_file : c.file ++ log_line term command ≡ unlines (rows ++ l ∷ []) =
      ap (λ f. f ++ log_line term command) closed.file_eq
      ∙ ap (λ e. unlines rows ++ e) (line-body term command)
      ∙ unlines-append rows l in
    let new_each = All-snoc (λ k. Lacks newline k) rows l closed.each (body-newline i) in
    let old_lines : lines c.file ≡ rows =
      ap lines closed.file_eq ∙ lines-unlines rows closed.each in
    (
      ap read_lines (ap lines new_file ∙ lines-unlines (rows ++ l ∷ []) new_each)
          ∙ read_lines-append rows l (term, space ∷ command) (parse_line-body i)
          ∙ ap (λ ls. add_last (term, space ∷ command) (read_lines ls)) (sym old_lines),
      record { rows = rows ++ l ∷ []; file_eq = new_file; each = new_each },
    )
