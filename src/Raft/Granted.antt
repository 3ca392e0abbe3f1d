-- ===== src/Raft/Granted.antt =====
-- The votes that a node has granted: the terms of its granting votes, in the order in which they
-- were sent.
use mathlib.Core.List.{append-nil, append_assoc}
use cs525_project.Common.{sym, ℕ, ◌≡◌, Bool, false, List, [], ◌∷◌, ◌++◌, ◌==◌, if◌then◌else◌}
use cs525_project.Protocol.{
  Results, votes, appends, Message, request_votes_message, append_entries_message,
}
use cs525_project.Protocol.MessageDirection
use cs525_project.Raft.Candidate.{is_granted}

abbrev pub grants : Results → Bool
grants (votes r) = is_granted r.vote_granted
grants (appends _) = false

-- The terms of the granting votes among some messages.
abbrev pub granted_by : Message → List ℕ
granted_by (request_votes_message m) =
    if m.direction == MessageDirection.response
    then (if grants m.results then m.term ∷ [] else [])
    else []
granted_by (append_entries_message m) = []

unfoldable pub granted : List Message → List ℕ
granted [] = []
granted (m ∷ ms) = granted_by m ++ granted ms

pub granted-append :
    (ms : List Message) (m : Message) → granted (ms ++ m ∷ []) ≡ granted ms ++ granted_by m
unfolding granted
granted-append [] m = append-nil (granted_by m)
granted-append (n ∷ ms) m =
    rw (granted-append ms m) (sym (append_assoc (granted_by n) (granted ms) (granted_by m)))
