-- ===== src/Raft/Replication/Sending.antt =====
-- The loop of `_broadcast_append_entries` in src/raft/raft.py, over nodes that are all up to date.
use cs525_project.Common.{
  ℕ, suc, ◌-◌, ◌<◌, String, ◌≡◌, refl, sym, ◌∙◌, ap, Option, some, none, List, [], ◌∷◌, ◌++◌, arith,
  length, length-append, replicate, get_elem?, set, lt→ltb,
}
use mathlib.Core.List.{append_assoc}
use cs525_project.Protocol.{Entry, Message}
use cs525_project.Raft.State.{RaftNode, pure, ◌>>=◌}
use cs525_project.Raft.Send.{send_append_entries, send_message}
use cs525_project.Raft.Leader.{assign_next, send_to_node, send_to_current}
use cs525_project.Raft.Returns.{Returns, Returns-weaken, Returns-bind}
use cs525_project.Raft.Replication.Broadcast.{get_elem?-middle, snoc-append, length-snoc}

set-middle :
    {A : Type 0} (front : List A) (x y : A) (rest : List A)
    → set (front ++ x ∷ rest) (length front) y ≡ front ++ y ∷ rest
set-middle [] x y rest = refl
set-middle (f ∷ front) x y rest = ap (λ l. f ∷ l) (set-middle front x y rest)

-- What the loop over the nodes changes.
abbrev pub sending : List (Option ℕ) → List Message → RaftNode → RaftNode
sending next out s = record s { next_index = next; outbox = out }

send_to_node-frame :
    (node prev_index prev_term : ℕ) (entry : Entry) (a : String) (s : RaftNode)
    → get_elem? s.all_ids node ≡ some a
    → node < length s.next_index
    → Returns
        (λ _ t.
          (out : List Message) × (t
            ≡ sending (set s.next_index node (some (length s.log - 1))) out s))
        (send_to_node prev_index prev_term entry node)
        s
unfolding send_to_node send_append_entries send_message assign_next ◌>>=◌
send_to_node-frame node prev_index prev_term entry a s found lt = record {
  holds = rw (found, lt→ltb node (length s.next_index) lt) (_, refl);
}

length-front :
    (front : List (Option ℕ)) (x : Option ℕ) (rest : List (Option ℕ))
    → length front < length (front ++ x ∷ rest)
length-front front x rest = omega (arith, length-append front (x ∷ rest))

pub send_to_current-frame :
    (before rest : List String) (front : List (Option ℕ)) (node prev_index prev_term top : ℕ)
    (entry : Entry) (s : RaftNode)
    → s.all_ids ≡ before ++ rest
    → node ≡ length before
    → node ≡ length front
    → s.next_index ≡ front ++ replicate (length rest) none
    → top ≡ length s.log - 1
    → Returns
        (λ _ t.
          (out : List Message) × (t ≡ sending (front ++ replicate (length rest) (some top)) out s))
        (send_to_current prev_index prev_term entry node (replicate (length rest) none))
        s
unfolding send_to_current pure
send_to_current-frame before [] front node prev_index prev_term top entry s ids at fr next last =
    record { holds = (s.outbox, ap (λ n. sending n s.outbox s) next) }
send_to_current-frame before (a ∷ rest) front node prev_index prev_term top entry s ids at fr next
      last =
    let found : get_elem? s.all_ids node ≡ some a = rw (ids, at) (get_elem?-middle before a rest) in
    let inside : node < length s.next_index =
      rw (next, fr) (length-front front none (replicate (length rest) none)) in
    let assigned : set s.next_index node (some (length s.log - 1))
        ≡ (front ++ some top ∷ []) ++ replicate (length rest) none =
      rw (next, fr, ← last)
        (set-middle front none (some top) (replicate (length rest) none)
          ∙ sym (append_assoc front (some top ∷ []) (replicate (length rest) none))) in
    Returns-bind (send_to_node prev_index prev_term entry node) _ s
      (send_to_node-frame node prev_index prev_term entry a s found inside)
      (λ _ t (out, is).
        let rest_sent =
          send_to_current-frame (before ++ a ∷ []) rest (front ++ some top ∷ []) (suc node)
            prev_index prev_term top entry t
            (ap (λ (u : RaftNode). u.all_ids) is ∙ ids ∙ sym (snoc-append before a rest))
            (ap suc at ∙ sym (length-snoc before a))
            (omega (arith, fr, length-append front (some top ∷ [])))
            (ap (λ (u : RaftNode). u.next_index) is ∙ assigned)
            (last ∙ sym (ap (λ (u : RaftNode). length u.log - 1) is)) in
        Returns-weaken rest_sent (λ _ u (out', is'). (
          out',
          is'
              ∙ ap
                  (λ (v : RaftNode).
                    sending ((front ++ some top ∷ []) ++ replicate (length rest) (some top)) out' v)
                  is
              ∙ ap (λ n. sending n out' s)
                  (append_assoc front (some top ∷ []) (replicate (length rest) (some top))),
        )))
