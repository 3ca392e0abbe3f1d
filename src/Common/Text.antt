-- ===== src/Common/Text.antt =====
-- Text as the codes of its characters, with the methods of Python's `str` that the program uses.
use Prim.Native.Nat.{ℕ}
use mathlib.Core.Bool.{Bool, ◌||◌, ◌&&◌}
use mathlib.Core.List.{List, [], ◌∷◌}
use cs525_project.Common.Tests.{◌==◌, if◌then◌else◌, leb}

abbrev pub Text : Type 0
Text = List ℕ

abbrev pub newline : ℕ
newline = 10

abbrev pub comma : ℕ
comma = 44

abbrev pub space : ℕ
space = 32

-- The white space of ASCII: 9 to 13, 28 to 31, and the space.
abbrev pub is_space : ℕ → Bool
is_space c = (leb 9 c && leb c 13) || (leb 28 c && leb c 32)

abbrev pub push : ℕ → List Text → List Text
push c [] = (c ∷ []) ∷ []
push c (part ∷ parts) = (c ∷ part) ∷ parts

-- `s.split(sep)`, which always has a part
abbrev pub split : ℕ → Text → List Text
split sep [] = [] ∷ []
split sep (c ∷ s) = let parts = split sep s in if c == sep then [] ∷ parts else push c parts

-- The lines of a file, without the end of each line.
abbrev pub lines : Text → List Text
lines [] = []
lines (c ∷ s) = let rest = lines s in if c == newline then [] ∷ rest else push c rest

-- `s.lstrip()`, `s.rstrip()` and `s.strip()`
abbrev pub lstrip : Text → Text
lstrip [] = []
lstrip (c ∷ s) = let rest = lstrip s in if is_space c then rest else c ∷ s

abbrev pub keep_end : ℕ → Text → Text
keep_end c [] = if is_space c then [] else c ∷ []
keep_end c (d ∷ s) = c ∷ d ∷ s

abbrev pub rstrip : Text → Text
rstrip [] = []
rstrip (c ∷ s) = keep_end c (rstrip s)

abbrev pub strip : Text → Text
strip s = rstrip (lstrip s)
