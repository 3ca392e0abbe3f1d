-- ===== src/Raft/Replication/Exchange.antt =====
-- An entry on its way from a leader, `send_entry`, to a follower, `on_append_entries`.
use cs525_project.Common.{
  ℕ, suc, ◌+◌, ◌-◌, ◌≤◌, String, ◌≡◌, refl, ◌∙◌, sym, Option, some, List, [], ◌∷◌, ◌++◌, arith,
  length, get_elem?, ok, Bool-cases, inl, inr, leb, leb→le,
}
use mathlib.Core.Path.{subst}
use cs525_project.Protocol.{Entry, AppendEntriesMessage, default_appends, append_entries_message}
use cs525_project.Protocol.MessageType
use cs525_project.Protocol.MessageDirection
use cs525_project.Raft.State.{RaftNode, ◌>>=◌}
use cs525_project.Raft.Send.{send_append_entries, send_message, base_message}
use cs525_project.Raft.Leader.{send_entry}
use cs525_project.Raft.Follower.{on_append_entries}
use cs525_project.Raft.Replication.{Fits, Extends, on_append_entries-Extends}

-- Two logs hold the same entries at all indices up to this one.
abbrev pub Agree : List Entry → List Entry → ℕ → Type 0
Agree log other index = (i : ℕ) → i ≤ index → get_elem? log i ≡ get_elem? other i

pub Extends-Agree :
    (log leader : List Entry) (index : ℕ) (entry : Entry) (new : List Entry)
    → Extends log index entry new
    → Agree log leader index
    → get_elem? leader (suc index) ≡ some entry
    → Agree new leader (suc index)
Extends-Agree log leader index entry new x agree next i le = elim (Bool-cases (leb i index)) [
  | inl y ↦ x.unchanged i (leb→le i index y) ∙ agree i (leb→le i index y)
  | inr n ↦
      (let above : index + 1 ≡ i = ground arith in
        let same : suc index ≡ i = ground arith in
        subst (λ j. get_elem? new j ≡ some entry) above x.new_last
        ∙ sym (subst (λ j. get_elem? leader j ≡ some entry) same next))
]

-- The message of a leader with the entry behind the one at `index`.
abbrev pub entry_message : ℕ → Entry → Entry → Option String → RaftNode → AppendEntriesMessage
entry_message index prev entry receiver leader = record {
  base =
      base_message MessageType.append_entries receiver MessageDirection.request default_appends
        leader;
  leader_id = some leader.my_id;
  prev_log_index = some index;
  prev_log_term = some prev.term;
  entries = some entry;
  leader_commit = leader.commit_index;
}

-- A leader whose log holds an entry and one behind it, and a follower with the same log up to the first
-- of these, that is not in a later term: the leader sends a message, and when the follower has handled
-- it, the two logs are the same up to the second, and the follower's ends there.
pub send_entry-on_append_entries :
    (index : ℕ) (prev entry : Entry) (receiver : Option String) (leader follower : RaftNode)
    → get_elem? leader.log index ≡ some prev
    → get_elem? leader.log (suc index) ≡ some entry
    → Agree follower.log leader.log index
    → follower.current_term ≤ leader.current_term
    → let m = entry_message index prev entry receiver leader in
      let (sent, leader') = send_entry (suc index) receiver leader in
      let (handled, follower') = on_append_entries m follower in
      (sent ≡ ok tt)
      × (leader'.outbox ≡ leader.outbox ++ append_entries_message m ∷ [])
      × (handled ≡ ok tt)
      × Agree follower'.log leader.log (suc index)
      × (length follower'.log ≡ index + 2)
unfolding send_entry send_append_entries send_message ◌>>=◌
send_entry-on_append_entries index prev entry receiver leader follower at next agree late =
    let m = entry_message index prev entry receiver leader in
    let fits : Fits m index prev entry follower = record {
      index_eq = refl;
      term_eq = refl;
      entries_eq = refl;
      found = agree index (omega arith) ∙ at;
      current = late;
    } in
    let accepted = on_append_entries-Extends m index prev entry follower fits in
    let before : suc index - 1 ≡ index = omega arith in
    (
      rw (before, at, next) refl,
      rw (before, at, next) refl,
      accepted.0,
      Extends-Agree follower.log leader.log index entry _ accepted.1 agree next,
      accepted.1.new_length,
    )
