-- ===== src/Raft/Committable/Least.antt =====
-- What `max_committable_index` computes: the least entry of `match_index`.
use cs525_project.Common.{
  ℕ, ◌+◌, ◌/◌, ◌≤◌, ◌<◌, ◌≡◌, ◌↔◌, refl, List, [], ◌∷◌, All, length, leb, arith, inl, inr,
  Bool-cases, suc, tests,
}
use cs525_project.Raft.Committable.{
  insert_desc, sort_desc, replicated_on, committable_loop, max_committable_index,
}

-- From the greatest to the least.
abbrev IsDescending : List ℕ → Type 0
IsDescending [] = Unit
IsDescending (x ∷ xs) = All (λ y. y ≤ x) xs × IsDescending xs

abbrev last_or : ℕ → List ℕ → ℕ
last_or x [] = x
last_or x (y ∷ ys) = last_or y ys

All-le_trans : (x y : ℕ) (xs : List ℕ) → x ≤ y → All (λ z. z ≤ x) xs → All (λ z. z ≤ y) xs
All-le_trans x y [] h a = tt
All-le_trans x y (z ∷ zs) h a = (omega arith, All-le_trans x y zs h a.1)

All-insert_desc : (P : ℕ → Type 0) (x : ℕ) (xs : List ℕ) → P x → All P xs → All P (insert_desc x xs)
All-insert_desc P x [] p a = (p, tt)
All-insert_desc P x (y ∷ ys) p a = elim (Bool-cases (leb y x)) [
  | inl e ↦ rw e (p, a)
  | inr e ↦ rw e (a.0, All-insert_desc P x ys p a.1)
]

insert_desc-All : (P : ℕ → Type 0) (x : ℕ) (xs : List ℕ) → All P (insert_desc x xs) → P x × All P xs
insert_desc-All P x [] a = a
insert_desc-All P x (y ∷ ys) a = elim (Bool-cases (leb y x)) [
  | inl e ↦ rw e at a
  | inr e ↦
      (let b : P y × All P (insert_desc x ys) = rw e at a in
        let c = insert_desc-All P x ys b.1 in (c.0, (b.0, c.1)))
]

insert_desc-IsDescending : (x : ℕ) (xs : List ℕ) → IsDescending xs → IsDescending (insert_desc x xs)
insert_desc-IsDescending x [] d = (tt, tt)
insert_desc-IsDescending x (y ∷ ys) d = elim (Bool-cases (leb y x)) [
  | inl e ↦ rw e ((omega tests, All-le_trans y x ys (omega tests) d.0), d)
  | inr e ↦
      rw e (All-insert_desc (λ z. z ≤ y) x ys (ground arith) d.0, insert_desc-IsDescending x ys d.1)
]

sort_desc-IsDescending : (xs : List ℕ) → IsDescending (sort_desc xs)
unfolding sort_desc
sort_desc-IsDescending [] = tt
sort_desc-IsDescending (x ∷ xs) =
    insert_desc-IsDescending x (sort_desc xs) (sort_desc-IsDescending xs)

All-sort_desc : (P : ℕ → Type 0) (xs : List ℕ) → All P xs ↔ All P (sort_desc xs)
unfolding sort_desc
All-sort_desc P [] = (λ a. a, λ a. a)
All-sort_desc P (x ∷ xs) = (
  λ a. All-insert_desc P x (sort_desc xs) a.0 ((All-sort_desc P xs).0 a.1),
  λ a. let b = insert_desc-All P x (sort_desc xs) a in (b.0, (All-sort_desc P xs).1 b.1),
)

length-insert_desc : (x : ℕ) (xs : List ℕ) → length (insert_desc x xs) ≡ suc (length xs)
length-insert_desc x [] = refl
length-insert_desc x (y ∷ ys) = ground (arith, length-insert_desc x ys)

length-sort_desc : (xs : List ℕ) → length (sort_desc xs) ≡ length xs
unfolding sort_desc
length-sort_desc [] = refl
length-sort_desc (x ∷ xs) = omega (arith, length-insert_desc x (sort_desc xs), length-sort_desc xs)

-- In a descending list the last element is the least.
le-last_or :
    (c x : ℕ) (xs : List ℕ) → IsDescending (x ∷ xs) → (c ≤ last_or x xs) ↔ All (λ i. c ≤ i) (x ∷ xs)
le-last_or c x [] d = (λ h. (h, tt), λ a. a.0)
le-last_or c x (y ∷ ys) d = (
  λ h. let a = (le-last_or c y ys d.1).0 h in (omega (arith, a.0, d.0.0), a),
  λ a. (le-last_or c y ys d.1).1 a.1,
)

replicated_on-All : (c : ℕ) (xs : List ℕ) → All (λ i. c ≤ i) xs → replicated_on c xs ≡ length xs
unfolding replicated_on
replicated_on-All c [] a = refl
replicated_on-All c (x ∷ xs) a = ground (arith, replicated_on-All c xs a.1)

-- The loop ends on the last index, if that one is found on enough nodes.
committable_loop-last :
    (n : ℕ) (all : List ℕ) (x : ℕ) (xs : List ℕ) (found : ℕ)
    → n / 2 + 1 ≤ replicated_on (last_or x xs) all
    → committable_loop n all (x ∷ xs) found ≡ last_or x xs
unfolding committable_loop
committable_loop-last n all x [] found h = ground arith
committable_loop-last n all x (y ∷ ys) found h = committable_loop-last n all y ys _ h

descending_loop :
    (n c : ℕ) (xs : List ℕ)
    → IsDescending xs
    → 0 < length xs
    → n / 2 + 1 ≤ length xs
    → (c ≤ committable_loop n xs xs 0) ↔ All (λ i. c ≤ i) xs
descending_loop n c [] d h m = absurd (omega arith)
descending_loop n c (x ∷ xs) d h m =
    let lowest = (le-last_or (last_or x xs) x xs d).0 (omega arith) in
    rw
      (committable_loop-last n (x ∷ xs) x xs 0
        (omega (arith, replicated_on-All (last_or x xs) (x ∷ xs) lowest)))
      (le-last_or c x xs d)

-- For an entry of `match_index` for each node, an index is at most the one that the leader commits
-- exactly if every node has it: the loop ends on the least entry, not on the one that a majority
-- has.
pub le-max_committable_index :
    (match_index : List ℕ) (c : ℕ)
    → 0 < length match_index
    → (c ≤ max_committable_index (length match_index) match_index) ↔ All (λ i. c ≤ i) match_index
unfolding max_committable_index
le-max_committable_index ms c h =
    let found =
      descending_loop (length ms) c (sort_desc ms) (sort_desc-IsDescending ms)
        (omega (arith, length-sort_desc ms)) (omega (arith, length-sort_desc ms)) in
    let sorted = All-sort_desc (λ i. c ≤ i) ms in
    (λ a. sorted.1 (found.0 a), λ a. found.1 (sorted.0 a))
