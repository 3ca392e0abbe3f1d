-- ===== src/Membership/Sweep.antt =====
-- Which nodes a table keeps after the loop over its keys.
use cs525_project.Common.Dict.{
  lookup, delete, keys, IsDistinct, true≢false, elem, lookup-delete_self, lookup-delete_other,
  delete-IsDistinct, Present, Present-delete, elem-absent, keys-Present, elem-lookup,
}
use cs525_project.Common.{
  ℕ, ◌-◌, String, true, false, ◌≡◌, refl, ◌≢◌, ◌∙◌, sym, none, some, List, [], ◌∷◌, All, Result, ok,
  leb, str_eq, eq_iff, if◌then◌else◌, Bool-cases, inl, inr, Option-cases,
}
use mathlib.Core.Path.{subst}
use cs525_project.Membership.{Seen, Table, forget_silent, forget_edge}

-- The loop over some keys of a table has returned a table without double keys, from which the nodes
-- among these keys that have been silent are gone.
pub record Swept (timer systime : ℕ) (ks : List String) (m : Table) (r : Result Table)
    : Type 0 where
  pub table : Table
  pub returned : r ≡ ok table
  pub distinct : IsDistinct (keys table)
  pub looked :
      (i : String)
      → lookup i table ≡ (if elem i ks then forget_edge timer systime (lookup i m) else lookup i m)

silent-lookup :
    (timer systime : ℕ) (seen : Seen)
    → leb timer (systime - seen.1) ≡ true
    → forget_edge timer systime (some seen) ≡ none
unfolding forget_edge
silent-lookup timer systime seen h = rw h

fresh-lookup :
    (timer systime : ℕ) (seen : Seen)
    → leb timer (systime - seen.1) ≡ false
    → forget_edge timer systime (some seen) ≡ some seen
unfolding forget_edge
fresh-lookup timer systime seen h = rw h

module _ (timer systime : ℕ) (k : String) (rest : List String) (m : Table) (seen : Seen)
    (found : lookup k m ≡ some seen) (others : All (λ j. j ≢ k) rest) where
  Swept-silent :
      {r : Result Table}
      → leb timer (systime - seen.1) ≡ true
      → IsDistinct (keys m)
      → Swept timer systime rest (delete k m) r
      → Swept timer systime (k ∷ rest) m r
  Swept-silent h d w = record {
    table = w.table;
    returned = w.returned;
    distinct = w.distinct;
    looked = λ i. elim (Bool-cases (str_eq k i)) [
      | inl e ↦
          (let same = (eq_iff k i).0 e in
            let gone : lookup k w.table ≡ none =
              w.looked k ∙ rw (elem-absent k rest others) (lookup-delete_self k m d) in
            rw e (
              subst (λ x. lookup x w.table ≡ forget_edge timer systime (lookup x m)) same
                (gone ∙ sym (rw found (silent-lookup timer systime seen h)))))
      | inr n ↦
          (let differs : i ≢ k = λ p. true≢false (sym ((eq_iff k i).1 (sym p)) ∙ n) in
            rw (n, ← lookup-delete_other k i m differs) (w.looked i))
    ];
  }

  Swept-fresh :
      {r : Result Table}
      → leb timer (systime - seen.1) ≡ false
      → Swept timer systime rest m r
      → Swept timer systime (k ∷ rest) m r
  Swept-fresh h w = record {
    table = w.table;
    returned = w.returned;
    distinct = w.distinct;
    looked = λ i. elim (Bool-cases (str_eq k i)) [
      | inl e ↦
          (let same = (eq_iff k i).0 e in
            let stays : lookup k w.table ≡ some seen =
              w.looked k ∙ rw (elem-absent k rest others) found in
            rw e (
              subst (λ x. lookup x w.table ≡ forget_edge timer systime (lookup x m)) same
                (stays ∙ sym (rw found (fresh-lookup timer systime seen h)))))
      | inr n ↦ rw n (w.looked i)
    ];
  }

forget_silent-silent :
    (timer systime : ℕ) (k : String) (rest : List String) (m : Table) (seen : Seen)
    → lookup k m ≡ some seen
    → leb timer (systime - seen.1) ≡ true
    → forget_silent timer systime (k ∷ rest) m ≡ forget_silent timer systime rest (delete k m)
unfolding forget_silent
forget_silent-silent timer systime k rest m seen found h = rw (found, h)

forget_silent-fresh :
    (timer systime : ℕ) (k : String) (rest : List String) (m : Table) (seen : Seen)
    → lookup k m ≡ some seen
    → leb timer (systime - seen.1) ≡ false
    → forget_silent timer systime (k ∷ rest) m ≡ forget_silent timer systime rest m
unfolding forget_silent
forget_silent-fresh timer systime k rest m seen found h = rw (found, h)

pub forget_silent-Swept :
    (timer systime : ℕ) (ks : List String) (m : Table)
    → IsDistinct ks
    → IsDistinct (keys m)
    → Present m ks
    → Swept timer systime ks m (forget_silent timer systime ks m)
unfolding forget_silent
forget_silent-Swept timer systime [] m ds d p = record {
  table = m;
  returned = refl;
  distinct = d;
  looked = λ i. refl;
}
forget_silent-Swept timer systime (k ∷ rest) m ds d p = elim (Option-cases (lookup k m)) [
  | inl e ↦ absurd (p.0 e)
  | inr (seen, e) ↦ elim (Bool-cases (leb timer (systime - seen.1))) [
    | inl h ↦ rw (forget_silent-silent timer systime k rest m seen e h) (
        Swept-silent timer systime k rest m seen e ds.0 h d (
          forget_silent-Swept timer systime rest (delete k m) ds.1 (delete-IsDistinct k m d)
            (Present-delete k m rest ds.0 p.1)))
    | inr h ↦ rw (forget_silent-fresh timer systime k rest m seen e h) (
        Swept-fresh timer systime k rest m seen e ds.0 h
          (forget_silent-Swept timer systime rest m ds.1 d p.1))
  ]
]

-- A table without double keys, after the loop over its keys: the loop raises no KeyError, there are
-- still no double keys, and a node is looked up as before, unless it has been silent for the time
-- of the timer, and is gone then.
pub forget_silent-lookup :
    (timer systime : ℕ) (m : Table)
    → IsDistinct (keys m)
    → (after : Table) × (forget_silent timer systime (keys m) m ≡ ok after)
      × IsDistinct (keys after)
      × ((i : String) → lookup i after ≡ forget_edge timer systime (lookup i m))
unfolding forget_edge
forget_silent-lookup timer systime m d =
    let w = forget_silent-Swept timer systime (keys m) m d d (keys-Present m d) in
    (w.table, w.returned, w.distinct, λ i. w.looked i ∙ by_elem i)
  where
    by_elem :
        (i : String)
        → (if elem i (keys m) then forget_edge timer systime (lookup i m) else lookup i m)
          ≡ forget_edge timer systime (lookup i m)
    by_elem i = elim (Bool-cases (elem i (keys m))) [
      | inl e ↦ rw e
      | inr n ↦ rw (n, elem-lookup i m n)
    ]
