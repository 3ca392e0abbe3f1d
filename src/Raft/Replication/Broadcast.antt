-- ===== src/Raft/Replication/Broadcast.antt =====
-- The loop of `_broadcast_commmit_entries` over the nodes.
use cs525_project.Common.{
  ℕ, suc, String, true, ◌≡◌, refl, some, List, [], ◌∷◌, ◌++◌, arith, length, get_elem?, leb, ok, ap,
}
use cs525_project.Raft.State.{RaftNode, ◌>>=◌}
use cs525_project.Raft.Send.{send_committal, send_message}
use cs525_project.Raft.Leader.{send_committal_to, send_committals}

pub snoc-append :
    {A : Type 0} (xs : List A) (y : A) (ys : List A) → (xs ++ y ∷ []) ++ ys ≡ xs ++ y ∷ ys
snoc-append [] y ys = refl
snoc-append (x ∷ xs) y ys = ap (λ l. x ∷ l) (snoc-append xs y ys)

pub get_elem?-middle :
    (before : List String) (a : String) (rest : List String)
    → get_elem? (before ++ a ∷ rest) (length before) ≡ some a
get_elem?-middle [] a rest = refl
get_elem?-middle (b ∷ before) a rest = get_elem?-middle before a rest

leb_refl : (n : ℕ) → leb n n ≡ true
leb_refl n = ground arith

send_committal_to-sends :
    (node index : ℕ) (a : String) (s : RaftNode)
    → get_elem? s.all_ids node ≡ some a
    → send_committal_to node index s ≡ (ok tt, send_committal index a s)
unfolding send_committal_to ◌>>=◌
send_committal_to-sends node index a s e = rw (leb_refl index, e)

pub length-snoc :
    (before : List String) (a : String) → length (before ++ a ∷ []) ≡ suc (length before)
length-snoc [] a = refl
length-snoc (b ∷ before) a = ap suc (length-snoc before a)

pub send_committals-next :
    (node index : ℕ) (rest : List ℕ) (a : String) (s : RaftNode)
    → get_elem? s.all_ids node ≡ some a
    → send_committals node (index ∷ rest) s
      ≡ send_committals (suc node) rest (send_committal index a s)
unfolding send_committals ◌>>=◌
send_committals-next node index rest a s e = rw (send_committal_to-sends node index a s e)

pub send_committal-all_ids :
    (index : ℕ) (a : String) (s : RaftNode) → (send_committal index a s).all_ids ≡ s.all_ids
unfolding send_committal send_message
send_committal-all_ids index a s = refl
