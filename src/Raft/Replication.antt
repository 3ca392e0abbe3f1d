-- ===== src/Raft/Replication.antt =====
-- What a follower does with an entry of the leader, on every branch of `_follower` for AppendEntries.
pub mod Broadcast
pub mod Committing
pub mod Noted
pub mod Sending
pub mod Answered
pub mod Request
pub mod Exchange
use cs525_project.Common.{
  ℕ, suc, ◌+◌, ◌≤◌, ◌<◌, String, Bool, true, false, ◌≡◌, refl, ◌≢◌, ◌∙◌, Option, none, some, List,
  [], ◌∷◌, ◌++◌, arith, length, ◌-◌, length-append, length-take, get_elem?, get_elem?-take,
  get_elem?-append_left, get_elem?-append_last, lt-get_elem?, take, leb, ltb, lt→ltb, inl, inr,
  Result, ok, err, Bool-cases, if◌then◌else◌, ◌==◌, ap, sym,
}
use cs525_project.Protocol.{Entry, AppendEntriesMessage}
use cs525_project.Raft.State.{RaftNode, Action, modify, pure, ◌>>=◌}
use cs525_project.Raft.Send.{acknowledge_message, send_acknowledge, send_message}
use cs525_project.Raft.Log.{
  verify_entry, append_entry, place_entry, cut_log, push_entry, commit_entry,
}
use cs525_project.Raft.Follower.{on_verified, on_append_entries, accept_entries}

-- The message asks to put `entry` behind the entry `prev` at index `index`, which the log has.
pub record Fits (m : AppendEntriesMessage) (index : ℕ) (prev entry : Entry) (s : RaftNode)
    : Type 0 where
  pub index_eq : m.prev_log_index ≡ some index
  pub term_eq : m.prev_log_term ≡ some prev.term
  pub entries_eq : m.entries ≡ some entry
  pub found : get_elem? s.log index ≡ some prev
  pub current : s.current_term ≤ m.term

verify_entry-found :
    (index : ℕ) (prev : Entry) (s : RaftNode)
    → get_elem? s.log index ≡ some prev
    → verify_entry (some index) (some prev.term) s ≡ ok true
unfolding verify_entry
verify_entry-found index prev s found = ground (arith, lt-get_elem? s.log index found)

-- The node after the entry has been put in its place and acknowledged.
abbrev pub accepted : AppendEntriesMessage → ℕ → Entry → RaftNode → RaftNode
accepted m index entry s =
    let (ignored, cut) = cut_log (some index) s in
    let pushed = push_entry entry cut in
    send_acknowledge m.leader_id true
      (if ltb s.commit_index m.leader_commit then commit_entry index entry.term pushed else pushed)

last-take :
    (index : ℕ) (prev : Entry) (log : List Entry)
    → get_elem? log index ≡ some prev
    → get_elem? (take (suc index) log) (length (take (suc index) log) - 1) ≡ some prev
last-take index prev log found =
    let inside = lt-get_elem? log index found in
    let at : length (take (suc index) log) - 1 ≡ index =
      omega (arith, length-take (suc index) log) in
    rw (at, get_elem?-take (suc index) index log (omega arith)) found

append_entry-cut :
    (entry prev : Entry) (commit : Bool) (index : ℕ) (s : RaftNode)
    → get_elem? s.log index ≡ some prev
    → append_entry entry commit (some index) s ≡ (
      ok (index, prev.term),
      (if commit
          then commit_entry index entry.term (push_entry entry (cut_log (some index) s).1)
          else push_entry entry (cut_log (some index) s).1),
    )
unfolding append_entry cut_log place_entry
append_entry-cut entry prev commit index s found =
    rw (last-take index prev s.log found, place_entry)

module _ (m : AppendEntriesMessage) (index : ℕ) (prev entry : Entry) (s : RaftNode)
    (f : Fits m index prev entry s) where
  current_stale : ltb m.term s.current_term ≡ false
  current_stale = ground (arith, f.current)

  verified : verify_entry m.prev_log_index m.prev_log_term s ≡ ok true
  verified = rw (f.index_eq, f.term_eq) (verify_entry-found index prev s f.found)

  accept_entries-accepted : accept_entries m (some entry) s ≡ (ok tt, accepted m index entry s)
  unfolding accept_entries ◌>>=◌
  accept_entries-accepted =
      let commit = ltb s.commit_index m.leader_commit in
      let appended : append_entry entry commit m.prev_log_index s ≡ (
        ok (index, prev.term),
        (if commit
            then commit_entry index entry.term (push_entry entry (cut_log (some index) s).1)
            else push_entry entry (cut_log (some index) s).1),
      ) =
        rw f.index_eq (append_entry-cut entry prev commit index s f.found) in
      rw appended

  entries_found : accept_entries m m.entries s ≡ accept_entries m (some entry) s
  entries_found = ap (λ o. accept_entries m o s) f.entries_eq

  -- An entry that fits is put in its place: the call returns, in the state `accepted`.
  pub on_append_entries-accepted : on_append_entries m s ≡ (ok tt, accepted m index entry s)
  unfolding on_append_entries on_verified ◌>>=◌
  on_append_entries-accepted =
      rw (current_stale, verified) (entries_found ∙ accept_entries-accepted)

-- The log and the messages of the state `accepted`.
module _ (m : AppendEntriesMessage) (index : ℕ) (entry : Entry) (s : RaftNode) where
  pub log-accepted : (accepted m index entry s).log ≡ take (suc index) s.log ++ entry ∷ []
  unfolding cut_log push_entry send_acknowledge send_message commit_entry
  log-accepted = ground arith

  pub outbox-accepted :
      (accepted m index entry s).outbox
      ≡ s.outbox
        ++ acknowledge_message m.leader_id true
            (record (accepted m index entry s) { outbox = s.outbox })
          ∷ []
  unfolding cut_log push_entry send_acknowledge send_message commit_entry
  outbox-accepted = elim (Bool-cases (ltb s.commit_index m.leader_commit)) [
    | inl e ↦ rw e
    | inr e ↦ rw e
  ]

-- What a log looks like after an entry was put behind the one at `index`.
pub record Extends (log : List Entry) (index : ℕ) (entry : Entry) (new : List Entry) : Type 0 where
  pub new_length : length new ≡ index + 2
  pub new_last : get_elem? new (index + 1) ≡ some entry
  pub unchanged : (i : ℕ) → i ≤ index → get_elem? new i ≡ get_elem? log i

pub take-Extends :
    (log : List Entry) (index : ℕ) (entry : Entry)
    → index < length log
    → Extends log index entry (take (suc index) log ++ entry ∷ [])
take-Extends log index entry inside =
    let cut = take (suc index) log in
    let cut_length : length cut ≡ index + 1 = omega (arith, length-take (suc index) log) in
    record {
      new_length = omega (arith, length-append cut (entry ∷ []));
      new_last = rw (← cut_length) (get_elem?-append_last cut entry);
      unchanged = λ i le.
          get_elem?-append_left cut (entry ∷ []) i (omega arith)
          ∙ get_elem?-take (suc index) i log (omega arith);
    }

-- If the log has the entry that the leader names, and the term of the message is not behind, then the
-- call returns: the log is cut behind that entry, the new entry follows it, all up to it is
-- unchanged, and a positive answer is sent to the leader.
pub on_append_entries-Extends :
    (m : AppendEntriesMessage) (index : ℕ) (prev entry : Entry) (s : RaftNode)
    → Fits m index prev entry s
    → let (result, t) = on_append_entries m s in
      (result ≡ ok tt)
      × Extends s.log index entry t.log
      × (t.outbox
          ≡ s.outbox ++ acknowledge_message m.leader_id true (record t { outbox = s.outbox }) ∷ [])
on_append_entries-Extends m index prev entry s f =
    rw (on_append_entries-accepted m index prev entry s f) (
      refl,
      rw (log-accepted m index entry s)
          (take-Extends s.log index entry (lt-get_elem? s.log index f.found)),
      outbox-accepted m index entry s,
    )

-- If the leader has committed more than the follower, then an entry that fits commits the index before
-- it, with the term of the new entry; otherwise it commits nothing.
pub on_append_entries-commit :
    (m : AppendEntriesMessage) (index : ℕ) (prev entry : Entry) (s : RaftNode)
    → Fits m index prev entry s
    → let t = (on_append_entries m s).1 in
      if ltb s.commit_index m.leader_commit
      then (t.commit_index ≡ index)
        × (t.last_applied_index ≡ index)
        × (t.last_applied_term ≡ entry.term)
      else (t.commit_index ≡ s.commit_index)
        × (t.last_applied_index ≡ s.last_applied_index)
        × (t.last_applied_term ≡ s.last_applied_term)
unfolding cut_log push_entry send_acknowledge send_message commit_entry
on_append_entries-commit m index prev entry s f =
    rw (on_append_entries-accepted m index prev entry s f)
      (elim (Bool-cases (ltb s.commit_index m.leader_commit)) [
        | inl e ↦ rw e (refl, refl, refl)
        | inr e ↦ rw e (refl, refl, refl)
      ])

-- Why a follower refuses an entry: the message is of an old term, the log is too short, or the entry
-- at the index is of another term.
pub data Misfits (m : AppendEntriesMessage) (s : RaftNode) : Type 0 where
  old : m.term < s.current_term → Misfits m s
  short : (index : ℕ) → m.prev_log_index ≡ some index → length s.log ≤ index → Misfits m s
  other :
      (index term : ℕ) (e : Entry)
      → m.prev_log_index ≡ some index
      → m.prev_log_term ≡ some term
      → get_elem? s.log index ≡ some e
      → term ≢ e.term
      → Misfits m s

refused :
    (m : AppendEntriesMessage) (s : RaftNode)
    → verify_entry m.prev_log_index m.prev_log_term s ≡ ok false
    → on_append_entries m s ≡ (ok tt, send_acknowledge m.leader_id false s)
unfolding on_append_entries on_verified ◌>>=◌
refused m s e = elim (Bool-cases (ltb m.term s.current_term)) [
  | inl stale ↦ rw stale
  | inr fresh ↦ rw (fresh, e)
]

verify_entry-short :
    (index : ℕ) (term : Option ℕ) (s : RaftNode)
    → length s.log ≤ index
    → verify_entry (some index) term s ≡ ok false
unfolding verify_entry
verify_entry-short index term s h = ground arith

verify_entry-other :
    (index term : ℕ) (e : Entry) (s : RaftNode)
    → get_elem? s.log index ≡ some e
    → term ≢ e.term
    → verify_entry (some index) (some term) s ≡ ok false
unfolding verify_entry
verify_entry-other index term e s found h = ground (arith, lt-get_elem? s.log index found)

-- An entry that does not fit is refused: the call returns, a negative answer goes to the leader, and
-- nothing else changes.
pub on_append_entries-refused :
    (m : AppendEntriesMessage) (s : RaftNode)
    → Misfits m s
    → on_append_entries m s ≡ (ok tt, send_acknowledge m.leader_id false s)
unfolding on_append_entries ◌>>=◌
on_append_entries-refused m s (old h) = rw (lt→ltb m.term s.current_term h)
on_append_entries-refused m s (short index at h) =
    refused m s (rw at (verify_entry-short index m.prev_log_term s h))
on_append_entries-refused m s (other index term e at at_term found h) =
    refused m s (rw (at, at_term) (verify_entry-other index term e s found h))
