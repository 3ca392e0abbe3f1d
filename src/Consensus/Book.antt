-- ===== src/Consensus/Book.antt =====
-- The address book that `local_consensus` builds.
use mathlib.Core.Path.{subst}
use mathlib.Core.List.{append_assoc, append-nil}
use cs525_project.Common.{
  String, ◌≡◌, refl, ◌≢◌, ◌∙◌, sym, ap, some, [], ◌∷◌, ◌++◌, All, ok, str_eq, eq_iff, Bool-cases,
  inl, inr,
}
use cs525_project.Common.Dict.{Dict, lookup, insert, keys, IsDistinct, str_eq_refl}
use cs525_project.Membership.{Seen, Table}
use cs525_project.Raft.Config.{Contact}
use cs525_project.Consensus.{high_power, add_neighbours, address_book}

-- The neighbours of a table as contacts, in its order.
abbrev pub contacts : Table → Dict Contact
contacts [] = []
contacts ((k, seen) ∷ group) = (k, high_power seen.0) ∷ contacts group

contacts-append :
    (pre : Table) (k : String) (seen : Seen)
    → contacts (pre ++ (k, seen) ∷ []) ≡ contacts pre ++ (k, high_power seen.0) ∷ []
contacts-append [] k seen = refl
contacts-append (x ∷ pre) k seen =
    ap (λ d. (x.0, high_power x.1.0) ∷ d) (contacts-append pre k seen)

module _ {V : Type 0} where
  lookup-behind :
      (pre rest : Dict V) (k : String) (v : V)
      → All (λ j. j ≢ k) (keys pre)
      → lookup k (pre ++ (k, v) ∷ rest) ≡ some v
  unfolding lookup
  lookup-behind [] rest k v h = rw (str_eq_refl k)
  lookup-behind ((j, w) ∷ pre) rest k v h = elim (Bool-cases (str_eq j k)) [
    | inl y ↦ absurd (h.0 ((eq_iff j k).0 y))
    | inr n ↦ rw n (lookup-behind pre rest k v h.1)
  ]

  insert-absent :
      (k : String) (v : V) (d : Dict V)
      → All (λ j. j ≢ k) (keys d)
      → insert k v d ≡ d ++ (k, v) ∷ []
  unfolding insert
  insert-absent k v [] h = refl
  insert-absent k v ((j, w) ∷ d) h = elim (Bool-cases (str_eq j k)) [
    | inl y ↦ absurd (h.0 ((eq_iff j k).0 y))
    | inr n ↦ rw n (ap (λ m. (j, w) ∷ m) (insert-absent k v d h.1))
  ]

  -- The key after the first ones is not among them.
  before-differ :
      (pre rest : Dict V) (k : String) (v : V)
      → IsDistinct (keys (pre ++ (k, v) ∷ rest))
      → All (λ j. j ≢ k) (keys pre)
  before-differ [] rest k v d = tt
  before-differ ((j, w) ∷ pre) rest k v d =
      ((λ p. in_middle pre d.0 (sym p)), before-differ pre rest k v d.1)
    where
      in_middle : (pre : Dict V) → All (λ l. l ≢ j) (keys (pre ++ (k, v) ∷ rest)) → k ≡ j → ⊥
      in_middle [] a p = a.0 p
      in_middle (x ∷ pre) a p = in_middle pre a.1 p

pub keys-contacts :
    (P : String → Type 0) (group : Table) → All P (keys group) → All P (keys (contacts group))
keys-contacts P [] h = tt
keys-contacts P (x ∷ group) h = (h.0, keys-contacts P group h.1)

add_neighbours-contacts :
    (pre rest : Table)
    → IsDistinct (keys (pre ++ rest))
    → add_neighbours (keys rest) (pre ++ rest) (contacts pre) ≡ ok (contacts (pre ++ rest))
unfolding add_neighbours
add_neighbours-contacts pre [] d = rw (append-nil pre)
add_neighbours-contacts pre ((k, seen) ∷ rest) d =
    let shift : (pre ++ (k, seen) ∷ []) ++ rest ≡ pre ++ (k, seen) ∷ rest =
      append_assoc pre ((k, seen) ∷ []) rest in
    let others =
      add_neighbours-contacts (pre ++ (k, seen) ∷ []) rest
        (subst (λ (g : Table). IsDistinct (keys g)) (sym shift) d) in
    let absent = before-differ pre rest k seen d in
    let stored : insert k (high_power seen.0) (contacts pre) ≡ contacts (pre ++ (k, seen) ∷ []) =
      insert-absent k (high_power seen.0) (contacts pre) (keys-contacts (λ j. j ≢ k) pre absent)
      ∙ sym (contacts-append pre k seen) in
    rw (lookup-behind pre rest k seen absent, stored)
      (subst
        (λ (g : Table).
          add_neighbours (keys rest) g (contacts (pre ++ (k, seen) ∷ [])) ≡ ok (contacts g))
        shift others)

-- The address book of a table without double keys: its nodes, in their order, and this node, in the place
-- of the entry under its own id, if the table has one.
pub address_book-contacts :
    (index ip : String) (group : Table)
    → IsDistinct (keys group)
    → address_book index ip group ≡ ok (insert index (high_power ip) (contacts group))
unfolding address_book
address_book-contacts index ip group d = rw (add_neighbours-contacts [] group d)
