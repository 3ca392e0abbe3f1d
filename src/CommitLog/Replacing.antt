-- ===== src/CommitLog/Replacing.antt =====
-- What `log_replace` leaves in the file, and that it ends.
use cs525_project.Common.{
  ℕ, zero, suc, ◌+◌, ◌<◌, ◌≡◌, refl, ◌∙◌, sym, ap, some, List, [], ◌∷◌, ◌++◌, length, leb, arith,
  Bool-cases, inl, inr,
}
use cs525_project.Common.Text.{Text}
use cs525_project.CommitLog.{CommitLog, log_line, see_index, replace_loop, log_replace}
use cs525_project.CommitLog.Reading.{append_assoc, append-nil}

-- The lines of some commands.
abbrev pub log_lines : Text → List Text → Text
log_lines term [] = []
log_lines term (command ∷ rest) = log_line term command ++ log_lines term rest

-- The rounds that the loop takes from `index` on: those up to `start`, one for each command, and the
-- test that ends it.
module _ (term : Text) (start : ℕ) where
  replace_loop-ends :
      (fuel index : ℕ) (commands : List Text) (written : Text) (c : CommitLog)
      → start + length commands < index + fuel
      → length commands < fuel
      → (after : CommitLog) × (replace_loop fuel term start index commands written c
          ≡ some (written ++ log_lines term commands, after))
  unfolding replace_loop
  replace_loop-ends zero index commands written c h k = let no : ⊥ = omega (arith, k) in absurd no
  replace_loop-ends (suc fuel) index [] written c h k =
      (c, ap (λ w. some (w, c)) (sym (append-nil written)))
  replace_loop-ends (suc fuel) index (command ∷ rest) written c h k =
      elim (Bool-cases (leb start index)) [
        | inl go ↦
            (let (after, e) =
                replace_loop-ends fuel (suc index) rest (written ++ log_line term command)
                  (see_index term index c) (omega (arith, h)) (omega (arith, k)) in
              (
                after,
                rw go (
                    e
                    ∙ ap (λ w. some (w, after))
                        (append_assoc written (log_line term command) (log_lines term rest))),
              ))
        | inr wait ↦
            (let below : index < start = ground arith in
              let (after, e) =
                replace_loop-ends fuel (suc index) (command ∷ rest) written c (omega (arith, h))
                  (omega (arith, h, below)) in
              (after, rw wait e))
      ]

-- `log_replace` returns: as many rounds as `start` and the number of commands together, and one more,
-- are enough. If there are commands, then the file holds the lines of these commands afterwards and
-- nothing else, whatever `start` is: the entries before `start` are lost.
pub log_replace-file :
    (fuel start : ℕ) (term command : Text) (rest : List Text) (c : CommitLog)
    → start + suc (length rest) < fuel
    → (after : CommitLog) × (log_replace fuel term (command ∷ rest) start c ≡ some after)
      × (after.file ≡ log_lines term (command ∷ rest))
unfolding log_replace
log_replace-file fuel start term command rest c h =
    let (after, e) =
      replace_loop-ends term start fuel 0 (command ∷ rest) [] c (omega (arith, h))
        (omega (arith, h)) in
    (record after { file = log_lines term (command ∷ rest) }, rw e refl, refl)
