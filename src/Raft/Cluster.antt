-- ===== src/Raft/Cluster.antt =====
-- A group of nodes that talk to each other only: src/raft/raft.py, one thread for each node, and the
-- network between them. The network may lose, repeat, delay and reorder messages: a listener may hear
-- anything that any node has ever handed to its talker.
pub mod Calm
pub mod Safe
pub mod Alive
use cs525_project.Common.{ℕ, String, ◌≡◌, some, List, [], ◌∷◌, set, get_elem?, ℤ}
use cs525_project.Json.{Value}
use cs525_project.Protocol.{Message}
use cs525_project.Protocol.Wire.{jsonify}
use cs525_project.Raft.Thread.{
  Thread, Readings, tick, arrive, call_request, call_pause, call_un_pause, call_stop, step,
}
use cs525_project.Raft.Elections.{start}

-- The requests that clients make: a value and an id.
abbrev pub Requests : Type 1
Requests = Value → ℤ → Type 0

-- One step of the group.
pub data Move (asked : Requests) (c : List Thread) : List Thread → Type 0 where
  ticks :
      (i : ℕ) (t : Thread) (r : Readings)
      → get_elem? c i ≡ some t
      → Move asked c (set c i (step (tick r) t))
  hears :
      (i j k : ℕ) (t u : Thread) (m : Message)
      → get_elem? c i ≡ some t
      → get_elem? c j ≡ some u
      → get_elem? u.node.outbox k ≡ some m
      → Move asked c (set c i (step (arrive (jsonify m)) t))
  asks :
      (i : ℕ) (t : Thread) (value : Value) (id : ℤ)
      → get_elem? c i ≡ some t
      → asked value id
      → Move asked c (set c i (step (call_request value id) t))
  pauses :
      (i : ℕ) (t : Thread) → get_elem? c i ≡ some t → Move asked c (set c i (step call_pause t))
  resumes :
      (i : ℕ) (t : Thread) → get_elem? c i ≡ some t → Move asked c (set c i (step call_un_pause t))
  stops : (i : ℕ) (t : Thread) → get_elem? c i ≡ some t → Move asked c (set c i (step call_stop t))

-- The new nodes of some addresses; `timeout` and `stamps` are those of each address.
abbrev pub new_nodes : List String → (String → ℕ) → (String → ℕ → ℕ) → List String → List Thread
new_nodes ids timeout stamps [] = []
new_nodes ids timeout stamps (a ∷ rest) =
    start a ids a (timeout a) (stamps a) ∷ new_nodes ids timeout stamps rest

-- What the group may come to.
pub data Reach (asked : Requests) (ids : List String) (timeout : String → ℕ)
    (stamps : String → ℕ → ℕ) : List Thread → Type 0 where
  new : Reach asked ids timeout stamps (new_nodes ids timeout stamps ids)
  later :
      {c d : List Thread}
      → Reach asked ids timeout stamps c
      → Move asked c d
      → Reach asked ids timeout stamps d
