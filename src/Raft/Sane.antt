-- ===== src/Raft/Sane.antt =====
-- What every message of a node is like, and every entry that it keeps, in a group of nodes that talk to
-- each other only: the relation between the states before and after an action that keeps this.
pub mod Log
pub mod Leader
pub mod Leading
pub mod Follower
pub mod Candidate
pub mod Returning
use mathlib.Core.Path.{subst}
use cs525_project.Common.{
  ℕ, ◌<◌, Bool, inl, inr, ◌⊎◌, String, ◌≡◌, ◌≢◌, refl, Option, none, some, List, [], ◌∷◌, ◌++◌, All,
  All-append, arith, get_elem?, suc, take, length, ℤ,
}
use cs525_project.Protocol.{
  Entry, AppendEntriesMessage, RequestVotesMessage, RequestVotesResults, AppendEntriesResults,
  votes, appends, Message, request_votes_message, append_entries_message,
}
use cs525_project.Protocol.MessageType
use cs525_project.Raft.State.{RaftNode}
use cs525_project.Raft.Send.{
  send_message, send_request_vote, send_vote, vote_message, send_heartbeat, send_append_entries,
  send_committal, committal_message, send_acknowledge, acknowledge_message, send_client_request,
}
use cs525_project.Raft.Log.{index_of}
use cs525_project.Raft.Relates.{Relation}

-- An address of the group.
abbrev pub Known : List String → String → Type 0
Known ids a = (i : ℕ) × (index_of a ids ≡ some i)

-- A message of the class AppendEntriesMessage with the fields that its type needs; its entry, if it has
-- one, satisfies `P`.
pub record IsSaneAppend (P : Entry → Type 0) (ids : List String) (m : AppendEntriesMessage)
    : Type 0 where
  pub known : Known ids m.sender
  pub typed : m.type_ ≢ MessageType.request_votes
  pub answer : (r : AppendEntriesResults) × (m.results ≡ appends r)
  pub behind :
      m.type_ ≡ MessageType.append_entries
      → (i : ℕ) × (t : ℕ) × (m.prev_log_index ≡ some i) × (m.prev_log_term ≡ some t)
  pub carried : m.type_ ≡ MessageType.append_entries → (e : Entry) × (m.entries ≡ some e)
  pub reached :
      m.type_ ≡ MessageType.committal
      → (i : ℕ) × (t : ℕ) × (m.prev_log_index ≡ some i) × (m.prev_log_term ≡ some t)
  pub requested : m.type_ ≡ MessageType.client_request → (e : Entry) × (m.entries ≡ some e)
  pub legal : (e : Entry) → m.entries ≡ some e → P e

abbrev pub IsSane : (Entry → Type 0) → List String → Message → Type 0
IsSane P ids (request_votes_message m) =
    (m.type_ ≡ MessageType.request_votes) × (r : RequestVotesResults) × (m.results ≡ votes r)
IsSane P ids (append_entries_message m) = IsSaneAppend P ids m

-- The message, if there is one, is sane.
abbrev pub IsSaneOption : (Entry → Type 0) → List String → Option Message → Type 0
IsSaneOption P ids none = Unit
IsSaneOption P ids (some m) = IsSane P ids m

-- What a node knows of its group: the addresses, its own one among them, and their number.
pub record IsMember (ids all_ids : List String) (my_id : String) (nodes : ℕ) : Type 0 where
  pub ids_eq : all_ids ≡ ids
  pub nodes_eq : nodes ≡ length ids
  pub known : Known ids my_id

-- A node of the group whose entries satisfy `P`, in the log, in the queue and in what it has sent.
pub record IsHonest (P : Entry → Type 0) (ids : List String) (s : RaftNode) : Type 0 where
  pub member : IsMember ids s.all_ids s.my_id s.current_num_nodes
  pub started : 0 < length s.log
  pub entries : All P s.log
  pub queued : All P s.client_queue
  pub sent : All (λ m. IsSane P ids m) s.outbox

abbrev pub honest : (Entry → Type 0) → List String → Relation
honest P ids = record {
  holds = λ s t. IsHonest P ids s → IsHonest P ids t;
  same = λ s h. h;
  chain = λ s t u h k x. k (h x);
}

same_entry : (P : Entry → Type 0) (e d : Entry) → P e → some e ≡ some d → P d
same_entry P e d p q = let same : e ≡ d = cc q in subst P same p

module _ {P : Entry → Type 0} {ids : List String} where
  send_message-IsHonest :
      (m : Message) (s : RaftNode)
      → IsHonest P ids s
      → IsSane P ids m
      → IsHonest P ids (send_message m s)
  unfolding send_message
  send_message-IsHonest m s h k = record {
    member = h.member;
    started = h.started;
    entries = h.entries;
    queued = h.queued;
    sent = All-append (λ n. IsSane P ids n) s.outbox (m ∷ []) h.sent (k, tt);
  }

  pub send_request_vote-IsHonest :
      (to : Option String) (s : RaftNode)
      → IsHonest P ids s
      → IsHonest P ids (send_request_vote to s)
  unfolding send_request_vote
  send_request_vote-IsHonest to s h =
      send_message-IsHonest _ s h (refl, (record { term = none; vote_granted = none }), refl)

  pub send_vote-IsHonest :
      (to : String) (granted : _) (s : RaftNode)
      → IsHonest P ids s
      → IsHonest P ids (send_vote to granted s)
  unfolding send_vote send_message
  send_vote-IsHonest to granted s h =
      let k =
        send_message-IsHonest (vote_message to granted s) s h
          (refl, (record { term = some s.current_term; vote_granted = some granted }), refl) in
      record {
        member = k.member;
        started = k.started;
        entries = k.entries;
        queued = k.queued;
        sent = k.sent;
      }

  -- A message without an entry, that is no commit.
  plain :
      (m : AppendEntriesMessage) (s : RaftNode)
      → IsHonest P ids s
      → m.sender ≡ s.my_id
      → (m.type_ ≡ MessageType.heartbeat) ⊎ (m.type_ ≡ MessageType.acknowledge)
      → (r : AppendEntriesResults) × (m.results ≡ appends r)
      → m.entries ≡ none
      → IsSaneAppend P ids m
  plain m s h by t a e = record {
    known = rw by h.member.known;
    typed = elim t [ inl x ↦ omega (arith, x) | inr x ↦ omega (arith, x) ];
    answer = a;
    behind = λ x. absurd (elim t [ inl y ↦ omega (arith, x, y) | inr y ↦ omega (arith, x, y) ]);
    carried = λ x. absurd (elim t [ inl y ↦ omega (arith, x, y) | inr y ↦ omega (arith, x, y) ]);
    reached = λ x. absurd (elim t [ inl y ↦ omega (arith, x, y) | inr y ↦ omega (arith, x, y) ]);
    requested = λ x. absurd (elim t [ inl y ↦ omega (arith, x, y) | inr y ↦ omega (arith, x, y) ]);
    legal = λ d p. absurd (cc (e, p));
  }

  pub send_heartbeat-IsHonest :
      (s : RaftNode) → IsHonest P ids s → IsHonest P ids (send_heartbeat s)
  unfolding send_heartbeat
  send_heartbeat-IsHonest s h =
      send_message-IsHonest _ s h
        (plain _ s h refl (inl refl) (record { term = none; success = none }, refl) refl)

  pub send_acknowledge-IsHonest :
      (to : Option String) (success : Bool) (s : RaftNode)
      → IsHonest P ids s
      → IsHonest P ids (send_acknowledge to success s)
  unfolding send_acknowledge
  send_acknowledge-IsHonest to success s h = send_message-IsHonest _ s h (
      plain _ s h refl (inr refl)
        (record { term = some s.current_term; success = some success }, refl) refl)

  pub send_committal-IsHonest :
      (index : ℕ) (to : String) (s : RaftNode)
      → IsHonest P ids s
      → IsHonest P ids (send_committal index to s)
  unfolding send_committal
  send_committal-IsHonest index to s h = send_message-IsHonest _ s h (record {
    known = h.member.known;
    typed = omega arith;
    answer = (record { term = none; success = none }, refl);
    behind = λ x. absurd (omega (arith, x));
    carried = λ x. absurd (omega (arith, x));
    reached = λ x. (s.last_applied_index, s.last_applied_term, refl, refl);
    requested = λ x. absurd (omega (arith, x));
    legal = λ d p. absurd (cc p);
  })

  pub send_append_entries-IsHonest :
      (index term : ℕ) (e : Entry) (to : Option String) (s : RaftNode)
      → P e
      → IsHonest P ids s
      → IsHonest P ids (send_append_entries index term e to s)
  unfolding send_append_entries
  send_append_entries-IsHonest index term e to s p h = send_message-IsHonest _ s h (record {
    known = h.member.known;
    typed = omega arith;
    answer = (record { term = none; success = none }, refl);
    behind = λ x. (index, term, refl, refl);
    carried = λ x. (e, refl);
    reached = λ x. absurd (omega (arith, x));
    requested = λ x. absurd (omega (arith, x));
    legal = λ d q. same_entry P e d p q;
  })

  pub send_client_request-IsHonest :
      (to : Option String) (e : Entry) (s : RaftNode)
      → P e
      → IsHonest P ids s
      → IsHonest P ids (send_client_request to e s)
  unfolding send_client_request
  send_client_request-IsHonest to e s p h = send_message-IsHonest _ s h (record {
    known = h.member.known;
    typed = omega arith;
    answer = (record { term = none; success = none }, refl);
    behind = λ x. absurd (omega (arith, x));
    carried = λ x. absurd (omega (arith, x));
    reached = λ x. absurd (omega (arith, x));
    requested = λ x. (e, refl);
    legal = λ d q. same_entry P e d p q;
  })

  -- A change of the log that keeps it legal.
  pub relogged :
      (s : RaftNode) (log : List Entry) (hash : List (ℤ × Entry))
      → IsHonest P ids s
      → 0 < length log
      → All P log
      → IsHonest P ids (record s { log = log; log_hash = hash })
  relogged s log hash h l a = record {
    member = h.member;
    started = l;
    entries = a;
    queued = h.queued;
    sent = h.sent;
  }
