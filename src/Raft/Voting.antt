-- ===== src/Raft/Voting.antt =====
-- The invariant of the votes: a node grants no second vote in a term.
use cs525_project.Common.{
  ℕ, ◌≤◌, ◌<◌, String, ◌≡◌, Option, none, some, List, [], ◌∷◌, ◌++◌, All, All-append, arith,
}

-- Each number is below those after it.
abbrev pub IsIncreasing : List ℕ → Type 0
IsIncreasing [] = Unit
IsIncreasing (x ∷ xs) = All (λ y. x < y) xs × IsIncreasing xs

All-weaken : (P Q : ℕ → Type 0) (xs : List ℕ) → ((x : ℕ) → P x → Q x) → All P xs → All Q xs
All-weaken P Q [] h a = tt
All-weaken P Q (x ∷ xs) h a = (h x a.0, All-weaken P Q xs h a.1)

IsIncreasing-append :
    (xs : List ℕ) (y : ℕ) → IsIncreasing xs → All (λ x. x < y) xs → IsIncreasing (xs ++ y ∷ [])
IsIncreasing-append [] y i a = (tt, tt)
IsIncreasing-append (x ∷ xs) y i a =
    (All-append (λ z. x < z) xs (y ∷ []) i.0 (a.0, tt), IsIncreasing-append xs y i.1 a.1)

-- The term of a node, its vote, and the terms of the votes that it has granted.
pub record Voting (term : ℕ) (vote : Option String) (granted : List ℕ) : Type 0 where
  pub increasing : IsIncreasing granted
  pub bounded : All (λ g. g ≤ term) granted
  pub fresh : vote ≡ none → All (λ g. g < term) granted

module _ {term : ℕ} {vote : Option String} {granted : List ℕ} (v : Voting term vote granted) where
  -- A later term has no vote yet.
  pub Voting-raise : (later : ℕ) → term < later → Voting later none granted
  Voting-raise later h =
      let all_below : All (λ g. g < later) granted =
        All-weaken (λ g. g ≤ term) (λ g. g < later) granted (λ x p. omega arith) v.bounded in
      record {
        increasing = v.increasing;
        bounded =
            All-weaken (λ g. g < later) (λ g. g ≤ later) granted (λ x p. omega arith) all_below;
        fresh = λ _. all_below;
      }

  pub Voting-deny : (candidate : String) → Voting term (some candidate) granted
  Voting-deny candidate = record { increasing = v.increasing; bounded = v.bounded; fresh = λ e. cc }

  pub Voting-grant :
      (candidate : String) → vote ≡ none → Voting term (some candidate) (granted ++ term ∷ [])
  Voting-grant candidate e = record {
    increasing = IsIncreasing-append granted term v.increasing (v.fresh e);
    bounded = All-append (λ g. g ≤ term) granted (term ∷ []) v.bounded (omega arith, tt);
    fresh = λ e'. cc;
  }
