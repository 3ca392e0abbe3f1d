-- ===== src/CommitLog.antt =====
-- src/commitlog.py: class CommitLog. The file is the text that it holds; terms and commands are
-- their ASCII texts, without a carriage return, which reading would turn into a line's end.
pub mod Reading
pub mod Replacing
pub mod Slice
use cs525_project.Common.{
  ℕ, zero, suc, ◌+◌, Bool, true, false, Option, some, none, List, [], ◌∷◌, ◌++◌, ℤ, pos, negsuc,
  Result, ok, err, value_error, length, leb, ltb, if◌then◌else◌, ◌>>=◌,
}
use cs525_project.Common.Text.{Text, newline, comma, space, split, lines, strip}

pub record CommitLog : Type 0 where
  pub file : Text
  pub last_term : Text
  pub last_index : ℤ

-- `f"{term}, {command}\n"`
abbrev pub log_line : Text → Text → Text
log_line term command = term ++ comma ∷ space ∷ (command ++ newline ∷ [])

abbrev pub next_int : ℤ → ℤ
next_int (pos n) = pos (suc n)
next_int (negsuc zero) = pos 0
next_int (negsuc (suc n)) = negsuc n

-- `index > self.last_index`
abbrev pub is_after : ℕ → ℤ → Bool
is_after index (pos n) = ltb n index
is_after index (negsuc n) = true

-- `get_last_index_term`
abbrev pub get_last_index_term : CommitLog → ℤ × Text
get_last_index_term c = (c.last_index, c.last_term)

-- `log`; the file is opened for appending.
unfoldable pub log : Text → Text → CommitLog → CommitLog
log term command c = record {
  file = c.file ++ log_line term command;
  last_term = term;
  last_index = next_int c.last_index;
}

-- The assignments under `index > self.last_index`.
unfoldable pub see_index : Text → ℕ → CommitLog → CommitLog
see_index term index c =
    if is_after index c.last_index then record c { last_term = term; last_index = pos index } else c

-- The loop of `log_replace`, with what it has written from the front of the file. Its rounds below
-- `start` write nothing; each of the others takes one command.
unfoldable pub replace_loop :
    ℕ → Text → ℕ → ℕ → List Text → Text → CommitLog → Option (Text × CommitLog)
replace_loop zero term start index commands written c = none
replace_loop (suc fuel) term start index [] written c = some (written, c)
replace_loop (suc fuel) term start index (command ∷ rest) written c =
    let wait = replace_loop fuel term start (suc index) (command ∷ rest) written c in
    let go =
      replace_loop fuel term start (suc index) rest (written ++ log_line term command)
        (see_index term index c) in
    if leb start index then go else wait

-- `log_replace`: if there are commands, the file is cut off behind what was written.
abbrev pub close_file : Option (Text × CommitLog) → Option CommitLog
close_file none = none
close_file (some (written, c)) = some (record c { file = written })

unfoldable pub log_replace : ℕ → Text → List Text → ℕ → CommitLog → Option CommitLog
log_replace fuel term [] start c = some c
log_replace fuel term (command ∷ rest) start c =
    close_file (replace_loop fuel term start 0 (command ∷ rest) [] c)

-- `term, command = line.strip().split(",")`
abbrev pub two_parts : List Text → Result (Text × Text)
two_parts (term ∷ command ∷ []) = ok (term, command)
two_parts _ = err value_error

abbrev pub parse_line : Text → Result (Text × Text)
parse_line line = two_parts (split comma (strip line))

abbrev pub put_first : Text × Text → Result (List (Text × Text)) → Result (List (Text × Text))
put_first p (ok ps) = ok (p ∷ ps)
put_first p (err e) = err e

-- The loop of `read_log` over the lines.
unfoldable pub read_lines : List Text → Result (List (Text × Text))
read_lines [] = ok []
read_lines (line ∷ rest) =
    let others = read_lines rest in parse_line line >>= λ p. put_first p others

-- `read_log`
unfoldable pub read_log : CommitLog → Result (List (Text × Text))
unfolding read_lines
read_log c = read_lines (lines c.file)
