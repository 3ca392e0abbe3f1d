-- ===== src/Membership/Spacing.antt =====
-- The times of what a loop sends once in an interval.
use cs525_project.Common.{ℕ, ◌+◌, ◌≤◌, String, List, [], ◌∷◌, ◌++◌, All, arith}

-- What was sent, with its times.
abbrev pub Sent : Type 0
Sent = List (ℕ × String)

-- No two times are less than `interval` apart.
abbrev pub IsSpaced : ℕ → Sent → Type 0
IsSpaced interval [] = Unit
IsSpaced interval (x ∷ xs) = All (λ y. x.0 + interval ≤ y.0) xs × IsSpaced interval xs

-- The times are spaced, and none is later than `t`.
pub record IsPaced (interval t : ℕ) (sent : Sent) : Type 0 where
  pub spaced : IsSpaced interval sent
  pub past : All (λ x. x.0 ≤ t) sent

All-snoc :
    (P : ℕ × String → Type 0) (sent : Sent) (x : ℕ × String)
    → All P sent
    → P x
    → All P (sent ++ x ∷ [])
All-snoc P [] x h p = (p, tt)
All-snoc P (y ∷ ys) x h p = (h.0, All-snoc P ys x h.1 p)

All-later : (t t' : ℕ) (sent : Sent) → t ≤ t' → All (λ x. x.0 ≤ t) sent → All (λ x. x.0 ≤ t') sent
All-later t t' [] later h = tt
All-later t t' (x ∷ xs) later h = (omega (arith, later, h.0), All-later t t' xs later h.1)

IsSpaced-snoc :
    (interval t now : ℕ) (text : String) (sent : Sent)
    → t + interval ≤ now
    → IsSpaced interval sent
    → All (λ x. x.0 ≤ t) sent
    → IsSpaced interval (sent ++ (now, text) ∷ [])
IsSpaced-snoc interval t now text [] later s h = (tt, tt)
IsSpaced-snoc interval t now text (x ∷ xs) later s h = (
  All-snoc (λ y. x.0 + interval ≤ y.0) xs (now, text) s.0 (omega (arith, later, h.0)),
  IsSpaced-snoc interval t now text xs later s.1 h.1,
)

pub IsPaced-snoc :
    (interval t now : ℕ) (text : String) (sent : Sent)
    → t + interval ≤ now
    → IsPaced interval t sent
    → IsPaced interval now (sent ++ (now, text) ∷ [])
IsPaced-snoc interval t now text sent later p = record {
  spaced = IsSpaced-snoc interval t now text sent later p.spaced p.past;
  past =
      All-snoc (λ x. x.0 ≤ now) sent (now, text)
        (All-later t now sent (omega (arith, later)) p.past) (omega arith);
}
