-- ===== src/Common/Parts.antt =====
-- `s.split(",")` on the native texts, which have constructors of their own.
use Prim.Native.Char.{Char, code}
use Prim.Native.String.{String, ◌++◌}
use Prim.Native.String.append
use mathlib.Core.Path.{◌≡◌, refl}
use mathlib.Core.Bool.{Bool, true, false}
use mathlib.Core.List.{List, [], ◌∷◌}
use cs525_project.Common.Tests.{◌==◌, if◌then◌else◌}

is_comma : Char → Bool
is_comma c = code c == 44

-- `f"{s},{t}"`
abbrev pub with_comma : String → String → String
with_comma s t = s ++ String.◌∷◌ "," t

abbrev pub front : Char → List String → List String
front c [] = String.◌∷◌ c String.[] ∷ []
front c (part ∷ rest) = String.◌∷◌ c part ∷ rest

-- There is always a part.
unfoldable pub parts : String → List String
unfolding is_comma
parts String.[] = String.[] ∷ []
parts (String.◌∷◌ c s) = let rest = parts s in if is_comma c then String.[] ∷ rest else front c rest

unfoldable pub has_no_comma : String → Bool
unfolding is_comma
has_no_comma String.[] = true
has_no_comma (String.◌∷◌ c s) = let rest = has_no_comma s in if is_comma c then false else rest

no_comma-cons :
    (c : Char) (s : String)
    → has_no_comma (String.◌∷◌ c s) ≡ true
    → (is_comma c ≡ false) × (has_no_comma s ≡ true)
unfolding has_no_comma
no_comma-cons c s h = neither (is_comma c) (has_no_comma s) h
  where
    neither : (b r : Bool) → (if b then false else r) ≡ true → (b ≡ false) × (r ≡ true)
    neither true r h = cc
    neither false r h = (refl, h)

pub parts-single : (s : String) → has_no_comma s ≡ true → parts s ≡ s ∷ []
unfolding parts
parts-single String.[] h = refl
parts-single (String.◌∷◌ c s) h = let (n, rest) = no_comma-cons c s h in rw (n, parts-single s rest)

-- A part without a comma, a comma, and then anything.
pub parts-append : (s t : String) → has_no_comma s ≡ true → parts (with_comma s t) ≡ s ∷ parts t
unfolding parts
parts-append String.[] t h = rw (append.nil (String.◌∷◌ "," t))
parts-append (String.◌∷◌ c s) t h =
    let (n, rest) = no_comma-cons c s h in
    rw (append.cons c s (String.◌∷◌ "," t), n, parts-append s t rest)
