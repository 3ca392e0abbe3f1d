-- ===== src/Raft/Cluster/Alive.antt =====
-- The threads and the logs of a group of nodes that talk to each other only.
use cs525_project.Common.{ℕ, String, ◌≡◌, some, List, All, All-get_elem?, get_elem?}
use cs525_project.Raft.State.{RaftNode}
use cs525_project.Raft.Thread.{
  Phase, deciding, following, electing, leading, stopped, crashed, Thread,
}
use cs525_project.Raft.Thread.Stops.{IsAlive}
use cs525_project.Raft.Cluster.{Requests, Reach}
use cs525_project.Raft.Cluster.Calm.{IsCalm, Stands}
use cs525_project.Raft.Cluster.Safe.{Legal, Reach-IsCalm}

pub Stands-IsAlive :
    (ids : List String) (s : RaftNode) (phase : Phase) → Stands ids phase s → IsAlive phase
Stands-IsAlive ids s deciding h = tt
Stands-IsAlive ids s (following _) h = tt
Stands-IsAlive ids s (electing _) h = tt
Stands-IsAlive ids s (leading _) h = tt
Stands-IsAlive ids s stopped h = tt
Stands-IsAlive ids s (crashed _) h = h

module _ (asked : Requests) (ids : List String) (timeout : String → ℕ) (stamps : String → ℕ → ℕ)
    (c : List Thread) (i : ℕ) (t : Thread) where
  one-IsCalm :
      Reach asked ids timeout stamps c → get_elem? c i ≡ some t → IsCalm (Legal asked ids) ids t
  one-IsCalm r e =
      All-get_elem? (λ x. IsCalm (Legal asked ids) ids x) c i t
        (Reach-IsCalm asked ids timeout stamps r) e

  -- In a group of new nodes that hear nothing but what a node of the group has sent, lost, repeated and
  -- reordered as it may be, and on which the public methods are called at any time between two rounds, with
  -- integers as the ids of requests, no thread ever ends with an exception.
  pub Reach-IsAlive : Reach asked ids timeout stamps c → get_elem? c i ≡ some t → IsAlive t.phase
  Reach-IsAlive r e = Stands-IsAlive ids t.node t.phase (one-IsCalm r e).stands

  -- In such a group every entry of every log is the initial entry, the entry of a new leader, or has the
  -- value and the id of a client's request: none comes out of nowhere, and none is changed on its way.
  pub Reach-Legal :
      Reach asked ids timeout stamps c → get_elem? c i ≡ some t → All (Legal asked ids) t.node.log
  Reach-Legal r e = (one-IsCalm r e).honest.entries
