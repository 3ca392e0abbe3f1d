-- ===== src/Raft/Sane/Returning.antt =====
-- A follower and the messages of a group of nodes that talk to each other only.
use cs525_project.Common.{
  ℕ, suc, ◌-◌, ◌<◌, ◌≡◌, refl, Bool, true, false, Option, none, some, List, arith, String, inl, inr,
  if◌then◌else◌, Bool-cases, ltb, leb, length, ◌==◌, ==_iff, ok, get_elem?-lt, take, length-take,
}
use cs525_project.Protocol.{
  Entry, AppendEntriesMessage, Message, request_votes_message, append_entries_message,
}
use cs525_project.Protocol.MessageType
use cs525_project.Protocol.MessageDirection
use cs525_project.Raft.State.{RaftNode, pure, reads, modify, ◌>>=◌}
use cs525_project.Raft.Log.{append_entry, verify_entry, cut_log, place_entry, is_term}
use cs525_project.Raft.Send.{send_acknowledge}
use cs525_project.Raft.Follower.{
  accept_entries, on_verified, on_append_entries, on_committal, follower_message, follower_receive,
  follower_timeout, follower_round,
}
use cs525_project.Raft.Returns.{
  Returns, Returns-bind, Returns-pure, Returns-reads, Returns-gets, Returns-modify,
}
use cs525_project.Raft.Sane.{IsSane, IsSaneAppend, IsSaneOption}

-- Whatever the result is, there is one.
abbrev pub Any : {A : Type 0} → A → RaftNode → Type 0
Any a s = Unit

-- The log reaches beyond the index that was verified.
verified_inside :
    (i : ℕ) (t : Option ℕ) (s : RaftNode)
    → (b : Bool) × (verify_entry (some i) t s ≡ ok b) × (b ≡ true → i < length s.log)
unfolding verify_entry
verified_inside i t s = elim (Bool-cases (leb (length s.log) i)) [
  | inl y ↦ (false, rw y, λ e. absurd (cc e))
  | inr n ↦
      (let (e, found) = get_elem?-lt s.log i (ground arith) in
        (is_term t e.term, rw (n, found), λ _. ground arith))
]

append_inside :
    (e : Entry) (commit : Bool) (i : ℕ) (s : RaftNode)
    → i < length s.log
    → Returns Any (append_entry e commit (some i)) s
unfolding append_entry cut_log place_entry
append_inside e commit i s h =
    let (last, found) =
      get_elem?-lt (take (suc i) s.log) (length (take (suc i) s.log) - 1)
        (omega (arith, length-take (suc i) s.log, h)) in
    record { holds = rw found tt }

accept_inside :
    (m : AppendEntriesMessage) (e : Entry) (i : ℕ) (s : RaftNode)
    → m.prev_log_index ≡ some i
    → i < length s.log
    → Returns Any (accept_entries m (some e)) s
unfolding accept_entries
accept_inside m e i s at h =
    Returns-bind {P = λ c t. t ≡ s} _ _ s (Returns-gets _ s refl) λ commit t same.
      Returns-bind {P = Any} _ _ t (rw (at, same) (append_inside e commit i s h))
        λ _ u _. Returns-modify {P = Any} _ u tt

on_verified-Returns :
    (m : AppendEntriesMessage) (e : Entry) (i : ℕ) (verified : Bool) (s : RaftNode)
    → m.prev_log_index ≡ some i
    → m.entries ≡ some e
    → (verified ≡ true → i < length s.log)
    → Returns Any (on_verified m verified) s
unfolding on_verified accept_entries
on_verified-Returns m e i false s at carried h = Returns-modify {P = Any} _ s tt
on_verified-Returns m e i true s at carried h = rw carried (accept_inside m e i s at (h refl))

looked_up :
    (m : AppendEntriesMessage) (e : Entry) (i : ℕ) (stale : Bool) (s : RaftNode)
    → m.prev_log_index ≡ some i
    → m.entries ≡ some e
    → Returns Any
        (if stale
          then modify (send_acknowledge m.leader_id false)
          else (reads (verify_entry m.prev_log_index m.prev_log_term) >>= on_verified m))
        s
looked_up m e i true s at carried = Returns-modify {P = Any} _ s tt
looked_up m e i false s at carried =
    let (b, verified, inside) = verified_inside i m.prev_log_term s in
    Returns-bind {P = λ c t. c ≡ true → i < length t.log} _ _ s
      (Returns-reads _ b s (rw at verified) inside)
      λ c t h. on_verified-Returns m e i c t at carried h

module _ (P : Entry → Type 0) (ids : List String) where
  on_append_entries-Returns :
      (m : AppendEntriesMessage) (s : RaftNode)
      → IsSaneAppend P ids m
      → m.type_ ≡ MessageType.append_entries
      → Returns Any (on_append_entries m) s
  unfolding on_append_entries
  on_append_entries-Returns m s k e =
      let (i, t, at, term_at) = k.behind e in
      let (entry, carried) = k.carried e in
      Returns-bind {P = Any} _ _ s (Returns-gets _ s tt)
        λ stale u _. looked_up m entry i stale u at carried

  on_committal-Returns :
      (m : AppendEntriesMessage) (s : RaftNode)
      → IsSaneAppend P ids m
      → m.type_ ≡ MessageType.committal
      → Returns Any (on_committal m) s
  unfolding on_committal
  on_committal-Returns m s k e =
      let (i, t, at, term_at) = k.reached e in record { holds = rw (at, term_at) tt }

  follower_message-Returns :
      (now last : ℕ) (m : Message) (s : RaftNode)
      → IsSane P ids m
      → Returns Any (follower_message now last m) s
  unfolding follower_message
  follower_message-Returns now last (request_votes_message m) s k = record {
    holds = elim (Bool-cases (m.direction == MessageDirection.request)) [
      | inl y ↦ rw y tt
      | inr n ↦ rw n tt
    ];
  }
  follower_message-Returns now last (append_entries_message m) s k =
      let appended = λ (y : (m.type_ == MessageType.append_entries) ≡ true).
        Returns-bind {P = Any} {Q = Any} _ (λ _. pure last) s
          (on_append_entries-Returns m s k ((==_iff m.type_ MessageType.append_entries).0 y))
          λ _ u _. Returns-pure last u tt in
      let committed = λ (y : (m.type_ == MessageType.committal) ≡ true).
        Returns-bind {P = Any} {Q = Any} _ (λ _. pure last) s
          (on_committal-Returns m s k ((==_iff m.type_ MessageType.committal).0 y))
          λ _ u _. Returns-pure last u tt in
      record {
        holds = elim (Bool-cases (m.direction == MessageDirection.request)) [
          | inr n ↦ rw n tt
          | inl d ↦ elim (Bool-cases (m.type_ == MessageType.heartbeat)) [
            | inl y ↦ rw (d, y) tt
            | inr a ↦ elim (Bool-cases (m.type_ == MessageType.append_entries)) [
              | inl y ↦ rw (d, a, y) (appended y).holds
              | inr b ↦ elim (Bool-cases (m.type_ == MessageType.committal)) [
                | inl y ↦ rw (d, a, b, y) (committed y).holds
                | inr c ↦ rw (d, a, b, c) tt
              ]
            ]
          ]
        ];
      }

  follower_receive-Returns :
      (now last : ℕ) (incoming : Option Message) (s : RaftNode)
      → IsSaneOption P ids incoming
      → Returns Any (follower_receive now last incoming) s
  unfolding follower_receive
  follower_receive-Returns now last none s k = record { holds = tt }
  follower_receive-Returns now last (some m) s k = record {
    holds = (follower_message-Returns now last m s k).holds;
  }

  pub follower_round-Returns :
      (now later : ℕ) (incoming : Option Message) (last : ℕ) (s : RaftNode)
      → IsSaneOption P ids incoming
      → Returns Any (follower_round now later incoming last) s
  unfolding follower_round follower_timeout
  follower_round-Returns now later incoming last s k =
      Returns-bind {P = Any} _ _ s (follower_receive-Returns now last incoming s k) λ at u _.
        record {
          holds = elim (Bool-cases (ltb u.election_timeout (later - at))) [
            | inl y ↦ rw y tt
            | inr n ↦ rw n tt
          ];
        }
