-- ===== src/Raft/Replication/Noted.antt =====
-- What a leader has noted of its nodes: lists of a value for each node, and the nodes that are pending.
use cs525_project.Common.{
  ℕ, zero, suc, ◌+◌, ◌≤◌, ◌<◌, ◌≡◌, ◌≢◌, ◌⊎◌, inl, inr, refl, ◌∙◌, ap, Option, some, List, [], ◌∷◌,
  arith, get_elem?, set, All,
}
use cs525_project.Common.Members.{IsIn, here, there}

-- What is noted of each node, from number `i` on, is at least `index`, but for the pending nodes.
abbrev pub Noted : ℕ → List ℕ → ℕ → List ℕ → Type 0
Noted index pending i [] = Unit
Noted index pending i (v ∷ vs) = ((index ≤ v) ⊎ IsIn i pending) × Noted index pending (suc i) vs

not_here : {i k : ℕ} {rest : List ℕ} → IsIn i (k ∷ rest) → i ≢ k → IsIn i rest
not_here (here e) n = absurd (n e)
not_here (there h) n = h

Noted-later :
    (index k i : ℕ) (rest vs : List ℕ) → k < i → Noted index (k ∷ rest) i vs → Noted index rest i vs
Noted-later index k i rest [] lt h = tt
Noted-later index k i rest (v ∷ vs) lt h = (
  elim h.0 [ inl e ↦ inl e | inr m ↦ inr (not_here m (λ e. omega (arith, e, lt))) ],
  Noted-later index k (suc i) rest vs (omega (arith, lt)) h.1,
)

pub Noted-set :
    (index k i j : ℕ) (rest vs : List ℕ)
    → k ≡ i + j
    → Noted index (k ∷ rest) i vs
    → Noted index rest i (set vs j index)
Noted-set index k i j rest [] e h = tt
Noted-set index k i zero rest (v ∷ vs) e h =
    (inl (omega arith), Noted-later index k (suc i) rest vs (omega (arith, e)) h.1)
Noted-set index k i (suc j) rest (v ∷ vs) e h = (
  elim h.0 [ inl p ↦ inl p | inr m ↦ inr (not_here m (λ same. omega (arith, e, same))) ],
  Noted-set index k (suc i) j rest vs (omega (arith, e)) h.1,
)

pub Noted-All : (index i : ℕ) (vs : List ℕ) → Noted index [] i vs → All (λ v. index ≤ v) vs
Noted-All index i [] h = tt
Noted-All index i (v ∷ vs) h =
    (elim h.0 [ inl p ↦ p | inr m ↦ elim m [ ] ], Noted-All index (suc i) vs h.1)

pub get_elem?-set_other :
    {A : Type 0} (xs : List A) (k j : ℕ) (v : A) → j ≢ k → get_elem? (set xs k v) j ≡ get_elem? xs j
get_elem?-set_other [] k j v n = refl
get_elem?-set_other (x ∷ xs) zero zero v n = absurd (n refl)
get_elem?-set_other (x ∷ xs) zero (suc j) v n = refl
get_elem?-set_other (x ∷ xs) (suc k) zero v n = refl
get_elem?-set_other (x ∷ xs) (suc k) (suc j) v n = get_elem?-set_other xs k j v (λ e. n (ap suc e))

pub still_waiting :
    (xs : List (Option ℕ)) (k index : ℕ) (u v : Option ℕ) (rest : List ℕ)
    → All (λ j. j ≢ k) rest
    → All (λ j. get_elem? xs j ≡ some (some index)) rest
    → All (λ j. get_elem? (set (set xs k u) k v) j ≡ some (some index)) rest
still_waiting xs k index u v [] n h = tt
still_waiting xs k index u v (j ∷ rest) n h = (
  get_elem?-set_other (set xs k u) k j v n.0 ∙ get_elem?-set_other xs k j u n.0 ∙ h.0,
  still_waiting xs k index u v rest n.1 h.1,
)
