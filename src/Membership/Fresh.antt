-- ===== src/Membership/Fresh.antt =====
-- A table that holds only nodes that were heard from lately, and what keeps it so.
use mathlib.Core.Path.{subst}
use cs525_project.Common.Dict.{
  lookup, insert, keys, IsDistinct, elem, Present, keys-Present, elem-lookup, insert-IsDistinct,
  lookup-insert,
}
use cs525_project.Common.{
  ℕ, ◌+◌, ◌-◌, ◌≤◌, ◌<◌, String, Bool, true, false, ◌≡◌, refl, ◌⊎◌, ◌∙◌, sym, Option, none, some,
  List, [], ◌∷◌, ok, leb, str_eq, if◌then◌else◌, arith, inl, inr,
}
use cs525_project.Membership.{Seen, Table, forget_silent, forget_edge}
use cs525_project.Membership.Sweep.{forget_silent-Swept}

-- Nothing was heard, or at the time `systime` it was less than `timer` old.
abbrev pub IsRecent : ℕ → ℕ → Option Seen → Type 0
IsRecent timer systime none = Unit
IsRecent timer systime (some seen) = systime < seen.1 + timer

pub IsRecent-if :
    (timer systime : ℕ) (o : Option Seen)
    → ((seen : Seen) → o ≡ some seen → systime < seen.1 + timer)
    → IsRecent timer systime o
IsRecent-if timer systime none h = tt
IsRecent-if timer systime (some seen) h = h seen refl

IsRecent-some :
    (timer systime : ℕ) (o : Option Seen) (seen : Seen)
    → IsRecent timer systime o
    → o ≡ some seen
    → systime < seen.1 + timer
IsRecent-some timer systime none seen h e = cc
IsRecent-some timer systime (some old) seen h e =
    let same : old ≡ seen = cc in subst (λ (x : Seen). systime < x.1 + timer) same h

-- No node stands twice, and at the time `systime` no node had been silent for the time `timer`.
pub record IsFresh (timer systime : ℕ) (m : Table) : Type 0 where
  pub distinct : IsDistinct (keys m)
  pub fresh : (i : String) → IsRecent timer systime (lookup i m)

-- The keys `ks` are still there, and every other node was heard from since `systime`.
pub record IsSince (systime : ℕ) (ks : List String) (m : Table) : Type 0 where
  pub distinct : IsDistinct (keys m)
  pub present : Present m ks
  pub newer :
      (i : String) (seen : Seen) → elem i ks ≡ false → lookup i m ≡ some seen → systime ≤ seen.1

pub keys-IsSince : (systime : ℕ) (m : Table) → IsDistinct (keys m) → IsSince systime (keys m) m
keys-IsSince systime m d = record {
  distinct = d;
  present = keys-Present m d;
  newer = λ i seen out found. absurd (none≢some (sym (elem-lookup i m out) ∙ found));
}
  where
    none≢some : {seen : Seen} → Path (Option Seen) none (some seen) → ⊥
    none≢some e = cc

-- A node that is looked up after an insertion is the new one, or was there before.
inserted :
    (id i : String) (new seen : Seen) (m : Table)
    → lookup i (insert id new m) ≡ some seen
    → (seen ≡ new) ⊎ (lookup i m ≡ some seen)
inserted id i new seen m found = chosen (str_eq id i) (sym (lookup-insert id i new m) ∙ found)
  where
    chosen :
        (b : Bool)
        → (if b then some new else lookup i m) ≡ some seen
        → (seen ≡ new) ⊎ (lookup i m ≡ some seen)
    chosen true e = inl cc
    chosen false e = inr e

pub insert-IsFresh :
    (timer systime : ℕ) (id : String) (new : Seen) (m : Table)
    → 0 < timer
    → systime ≤ new.1
    → IsFresh timer systime m
    → IsFresh timer systime (insert id new m)
insert-IsFresh timer systime id new m positive later f = record {
  distinct = insert-IsDistinct id new m f.distinct;
  fresh = λ i. IsRecent-if timer systime (lookup i (insert id new m)) (λ seen found.
      elim (inserted id i new seen m found) [
        | inl same ↦ rw same (omega (arith, positive, later))
        | inr old ↦ IsRecent-some timer systime (lookup i m) seen (f.fresh i) old
      ]);
}

-- What is in a table stays in it.
insert-Present :
    (id : String) (new : Seen) (m : Table) (ks : List String)
    → Present m ks
    → Present (insert id new m) ks
insert-Present id new m [] h = tt
insert-Present id new m (k ∷ ks) h = (
  (λ gone. stays (str_eq id k) (sym (lookup-insert id k new m) ∙ gone)),
  insert-Present id new m ks h.1,
)
  where
    stays : (b : Bool) → (if b then some new else lookup k m) ≡ none → ⊥
    stays true e = cc
    stays false e = h.0 e

pub insert-IsSince :
    (systime : ℕ) (ks : List String) (id : String) (new : Seen) (m : Table)
    → systime ≤ new.1
    → IsSince systime ks m
    → IsSince systime ks (insert id new m)
insert-IsSince systime ks id new m later f = record {
  distinct = insert-IsDistinct id new m f.distinct;
  present = insert-Present id new m ks f.present;
  newer = λ i seen out found. elim (inserted id i new seen m found) [
    | inl same ↦ rw same later
    | inr old ↦ f.newer i seen out old
  ];
}

pub kept_fresh :
    (timer systime : ℕ) (o : Option Seen) (seen : Seen)
    → forget_edge timer systime o ≡ some seen
    → 0 < timer
    → systime < seen.1 + timer
unfolding forget_edge
kept_fresh timer systime none seen e positive = cc
kept_fresh timer systime (some old) seen e positive = by_test (leb timer (systime - old.1)) refl e
  where
    by_test :
        (b : Bool)
        → leb timer (systime - old.1) ≡ b
        → (if b then none else some old) ≡ some seen
        → systime < seen.1 + timer
    by_test true h k = cc
    by_test false h k =
        let same : old ≡ seen = cc in
        subst (λ (x : Seen). systime < x.1 + timer) same (ground arith)

-- The loop over the keys forgets every other node that has been silent.
pub forget_silent-IsFresh :
    (timer systime : ℕ) (ks : List String) (m : Table)
    → 0 < timer
    → IsDistinct ks
    → IsSince systime ks m
    → (after : Table) × (forget_silent timer systime ks m ≡ ok after) × IsFresh timer systime after
forget_silent-IsFresh timer systime ks m positive distinct f =
    let w = forget_silent-Swept timer systime ks m distinct f.distinct f.present in
    (
      w.table,
      w.returned,
      record {
        distinct = w.distinct;
        fresh = λ i.
            IsRecent-if timer systime (lookup i w.table)
              (λ seen found. by_key (elem i ks) i seen refl (sym (w.looked i) ∙ found));
      },
    )
  where
    by_key :
        (b : Bool) (i : String) (seen : Seen)
        → elem i ks ≡ b
        → (if b then forget_edge timer systime (lookup i m) else lookup i m) ≡ some seen
        → systime < seen.1 + timer
    by_key true i seen e found = kept_fresh timer systime (lookup i m) seen found positive
    by_key false i seen e found = omega (arith, f.newer i seen e found, positive)
