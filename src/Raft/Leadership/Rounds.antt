-- ===== src/Raft/Leadership/Rounds.antt =====
-- The start of a leader and each round of its loop return, and keep its invariant.
use cs525_project.Common.{
  ℕ, zero, suc, ◌+◌, ◌-◌, ◌≤◌, ◌<◌, Bool, true, false, ◌≡◌, refl, ◌∙◌, ap, Option, none, some, List,
  [], ◌∷◌, arith, length, length-replicate, get_elem?, get_elem?-lt, All, All-get_elem?,
  All-replicate, ltb, inl, inr, ok, item, Bool-cases, ==_iff, if◌then◌else◌, ◌==◌,
}
use cs525_project.Protocol.{
  Entry, appends, AppendEntriesResults, AppendEntriesMessage, RequestVotesMessage, Message,
  request_votes_message, append_entries_message,
}
use cs525_project.Protocol.MessageType
use cs525_project.Protocol.MessageDirection
use cs525_project.Raft.State.{RaftNode, heartbeat_frequency, resend_time, pure, reads, ◌>>=◌, ◌>>◌}
use cs525_project.Raft.Send.{send_heartbeat, send_vote, send_message}
use cs525_project.Raft.Log.{index_of, set_current_role, increment_term}
use cs525_project.Raft.Client.{get_client_request, pop_request}
use cs525_project.Raft.Follower.{Flow, again, done}
use cs525_project.Raft.Candidate.{yield_vote}
use cs525_project.Raft.Leader.{
  LeaderClock, times, reset_nodes, leader_entry, leader_start, beat, is_silent, resend_to, resend,
  assign_heard, on_client_request, leader_message, leader_receive, serve_request, leader_requests,
  leader_round, send_entry,
}
use cs525_project.Raft.Returns.{
  Returns, Ensures-if, Returns-weaken, Returns-bind, Returns-pure, Returns-reads, Returns-gets,
  Returns-modify,
}
use cs525_project.Raft.Leadership.{Group, InLog, IsLeading}
use cs525_project.Raft.Leadership.Assign.{
  Leads, assign_heard-Leads, send_entry-Leads, address-Leads, send_heartbeat-IsLeading,
}
use cs525_project.Raft.Leadership.Broadcast.{broadcast_append_entries-Leads}
use cs525_project.Raft.Leadership.Answers.{on_acknowledge-Leads}

-- The invariant, for a log that may have grown.
abbrev pub LeadsOn : {A : Type 0} → Group → ℕ → A → RaftNode → Type 0
LeadsOn g top a s = (last : ℕ) × (top ≤ last) × IsLeading g last last s

module _ {g : Group} {top : ℕ} {s : RaftNode} (h : IsLeading g top top s) where
  beat-Leads : (c : LeaderClock) (last : ℕ) → Returns (Leads g top top) (beat c last) s
  unfolding beat
  beat-Leads c last = record {
    holds = elim (Bool-cases (ltb heartbeat_frequency (c.check - last))) [
      | inl e ↦ rw e (send_heartbeat-IsLeading h)
      | inr e ↦ rw e h
    ];
  }

  resend_now-Leads :
      (c : LeaderClock) (node index : ℕ) (silent : Bool)
      → node < length g.ids
      → index ≤ top
      → Returns
          (Leads g top top)
          (if silent
            then (reads (λ t. item t.all_ids node) >>= λ address.
                send_entry index (some address) >> assign_heard node (c.resend_at node))
            else pure tt)
          s
  resend_now-Leads c node index true n i =
      Returns-bind _ _ s (address-Leads h node n) λ address t ht.
        Returns-bind _ _ t (send_entry-Leads ht index (some address) i)
          λ _ u hu. assign_heard-Leads hu node (c.resend_at node) n
  resend_now-Leads c node index false n i = Returns-pure tt s h

is_silent-ok :
    (c : LeaderClock) (node heard : ℕ) (s : RaftNode)
    → get_elem? s.heard_from node ≡ some heard
    → is_silent c node s ≡ ok (ltb resend_time (c.resend_check node - heard))
unfolding is_silent
is_silent-ok c node heard s e = rw (e, is_silent)

resend_to-Leads :
    {g : Group} {top : ℕ} {s : RaftNode} (h : IsLeading g top top s) (c : LeaderClock)
    (node index : ℕ)
    → node < length g.ids
    → index ≤ top
    → Returns (Leads g top top) (resend_to c node index) s
unfolding resend_to
resend_to-Leads {g} {top} {s} h c node index n i =
    let (heard, at) = get_elem?-lt s.heard_from node (omega (arith, h.heard_length)) in
    Returns-bind _ _ s
      (Returns-reads {P = Leads g top top} _ _ s (is_silent-ok c node heard s at) h)
      λ silent t ht. resend_now-Leads ht c node index silent n i

resend-Leads :
    {g : Group} {top : ℕ} (c : LeaderClock) (node : ℕ) (nodes : List (Option ℕ)) {s : RaftNode}
    → IsLeading g top top s
    → All (InLog top) nodes
    → node + length nodes ≡ length g.ids
    → Returns (Leads g top top) (resend c node nodes) s
unfolding resend
resend-Leads c node [] h a l = Returns-pure tt _ h
resend-Leads c node (none ∷ rest) h a l = resend-Leads c (suc node) rest h a.1 (omega arith)
resend-Leads c node (some index ∷ rest) h a l =
    Returns-bind _ _ _ (resend_to-Leads h c node index (omega arith) a.0.1)
      λ _ t ht. resend-Leads c (suc node) rest ht a.1 (omega arith)

-- What a leader can handle: an acknowledgement comes from a node of the group and holds its results,
-- and a request that was sent on holds an entry.
abbrev pub IsAnswerable : Group → Option Message → Type 0
IsAnswerable g none = Unit
IsAnswerable g (some (request_votes_message m)) = Unit
IsAnswerable g (some (append_entries_message m)) =
    (m.type_ ≡ MessageType.acknowledge
      → (node : ℕ) × (r : AppendEntriesResults) × (index_of m.sender g.ids ≡ some node)
        × (m.results ≡ appends r))
    × (m.type_ ≡ MessageType.client_request → (e : Entry) × (m.entries ≡ some e))

yield_vote-IsLeading :
    {g : Group} {top : ℕ} {s : RaftNode} (h : IsLeading g top top s) (m : RequestVotesMessage)
    → IsLeading g top top (yield_vote m s)
unfolding yield_vote set_current_role send_vote send_message increment_term
yield_vote-IsLeading h m = record {
  ids_eq = h.ids_eq;
  id_eq = h.id_eq;
  nodes_eq = h.nodes_eq;
  log_length = h.log_length;
  next_length = h.next_length;
  match_length = h.match_length;
  heard_length = h.heard_length;
  nexts = h.nexts;
  own = h.own;
}

on_client_request-Leads :
    {g : Group} {top : ℕ} {s : RaftNode} (h : IsLeading g top top s) (m : AppendEntriesMessage)
    (e : Entry)
    → m.entries ≡ some e
    → Returns (Leads g (suc top) (suc top)) (on_client_request m) s
unfolding on_client_request
on_client_request-Leads {g} {top} {s} h m e found = record {
  holds = rw found ((broadcast_append_entries-Leads h e).holds);
}

-- The log has not changed.
same_log : {g : Group} {top : ℕ} {s : RaftNode} → IsLeading g top top s → LeadsOn g top tt s
same_log {g} {top} h = (top, omega arith, h)

leader_message-Leads :
    {g : Group} {top : ℕ} {s : RaftNode} (h : IsLeading g top top s) (c : LeaderClock) (last : ℕ)
    (m : Message)
    → IsAnswerable g (some m)
    → Returns (LeadsOn g top) (leader_message c last m) s
unfolding leader_message
leader_message-Leads {g} {top} {s} h c last (request_votes_message m) a = record {
  holds =
      Ensures-if (LeadsOn g top) (m.direction == MessageDirection.request) _ _
        (λ _.
          Ensures-if (LeadsOn g top) (ltb s.current_term m.term) _ _
            (λ _. same_log (yield_vote-IsLeading h m)) (λ _. same_log h))
        (λ _. same_log h);
}
leader_message-Leads {g} {top} {s} h c last (append_entries_message m) a =
    let acknowledged = λ (e : (m.type_ == MessageType.acknowledge) ≡ true).
      let (node, r, known, results) = a.0 ((==_iff m.type_ MessageType.acknowledge).0 e) in
      Returns-bind {Q = LeadsOn g top} _ (λ _. pure (again last)) s
        (on_acknowledge-Leads h c.ack m r node known results)
        (λ _ t ht. Returns-pure (again last) t (same_log ht)) in
    let requested = λ (e : (m.type_ == MessageType.client_request) ≡ true).
      let (entry, found) = a.1 ((==_iff m.type_ MessageType.client_request).0 e) in
      Returns-bind {Q = LeadsOn g top} _ (λ _. pure (again last)) s
        (on_client_request-Leads h m entry found)
        (λ _ t ht. Returns-pure (again last) t (suc top, omega arith, ht)) in
    record {
      holds =
          Ensures-if (LeadsOn g top) (m.direction == MessageDirection.response) _ _
            (λ _.
              Ensures-if (LeadsOn g top) (m.type_ == MessageType.acknowledge) _ _
                (λ e. (acknowledged e).holds)
                (λ _.
                  Ensures-if (LeadsOn g top) (m.type_ == MessageType.client_request) _ _
                    (λ e. (requested e).holds) (λ _. same_log h)))
            (λ _. same_log h);
    }

leader_receive-Leads :
    {g : Group} {top : ℕ} {s : RaftNode} (h : IsLeading g top top s) (c : LeaderClock) (last : ℕ)
    (incoming : Option Message)
    → IsAnswerable g incoming
    → Returns (LeadsOn g top) (leader_receive c incoming last) s
unfolding leader_receive
leader_receive-Leads h c last none a = record { holds = same_log h }
leader_receive-Leads h c last (some m) a = record {
  holds = (leader_message-Leads h c last m a).holds;
}

-- Taking a request out of the queue.
pop_request-IsLeading :
    {g : Group} {top : ℕ} (queue : List Entry) (s : RaftNode)
    → IsLeading g top top s
    → IsLeading g top top (pop_request queue s).1
pop_request-IsLeading [] s h = h
pop_request-IsLeading (e ∷ rest) s h = record {
  ids_eq = h.ids_eq;
  id_eq = h.id_eq;
  nodes_eq = h.nodes_eq;
  log_length = h.log_length;
  next_length = h.next_length;
  match_length = h.match_length;
  heard_length = h.heard_length;
  nexts = h.nexts;
  own = h.own;
}

serve_request-Leads :
    {g : Group} {top : ℕ} {s : RaftNode} (h : IsLeading g top top s) (last : ℕ)
    (request : Option Entry)
    → Returns (LeadsOn g top) (serve_request last request) s
unfolding serve_request
serve_request-Leads h last none = Returns-pure (again last) _ (same_log h)
serve_request-Leads {g} {top} {s} h last (some e) =
    Returns-bind {Q = LeadsOn g top} _ (λ _. pure (again last)) s
      (broadcast_append_entries-Leads h e)
      λ _ t ht. Returns-pure (again last) t (suc top, omega arith, ht)

leader_requests-Leads :
    {g : Group} {top : ℕ} {s : RaftNode} (h : IsLeading g top top s) (flow : Flow ℕ)
    → Returns (LeadsOn g top) (leader_requests flow) s
unfolding leader_requests get_client_request
leader_requests-Leads h done = record { holds = same_log h }
leader_requests-Leads {s = s} h (again last) = record {
  holds =
      (serve_request-Leads (pop_request-IsLeading s.client_queue s h) last
        (pop_request s.client_queue s).0).holds;
}

-- A round of the loop of a leader that has the invariant returns, whatever the clock shows, without a
-- message and on every message that it can handle, and keeps the invariant, for a log that may have
-- grown: there is no IndexError and no ValueError.
pub leader_round-Leads :
    (g : Group) (top : ℕ) (s : RaftNode)
    → IsLeading g top top s
    → (c : LeaderClock) (incoming : Option Message) (last : ℕ) → IsAnswerable g incoming
    → Returns (LeadsOn g top) (leader_round c incoming last) s
unfolding leader_round
leader_round-Leads g top s h c incoming last a =
    Returns-bind _ _ s (beat-Leads h c last) λ last' t ht.
      Returns-bind _ _ t
        (Returns-gets
          {P = λ nodes u.
            IsLeading g top top u × (length nodes ≡ length g.ids) × All (InLog top) nodes}
          _ t (ht, ht.next_length, ht.nexts))
        λ nodes u hu.
          Returns-bind _ _ u (resend-Leads c 0 nodes hu.0 hu.2 (omega (arith, hu.1))) λ _ v hv.
            Returns-bind _ _ v (leader_receive-Leads hv c last' incoming a) λ flow w hw.
              Returns-weaken (leader_requests-Leads hw.2 flow)
                (λ f x hx. (hx.0, omega (arith, hw.1, hx.1), hx.2))

-- What a node needs to become a leader: a log that is not empty, and its own address in the group.
pub record IsReady (g : Group) (top : ℕ) (s : RaftNode) : Type 0 where
  pub ids_eq : s.all_ids ≡ g.ids
  pub id_eq : s.my_id ≡ g.my
  pub nodes_eq : s.current_num_nodes ≡ length g.ids
  pub log_length : length s.log ≡ suc top

length-times : (heard : ℕ → ℕ) (n k : ℕ) → length (times heard n k) ≡ n
unfolding times
length-times heard zero k = refl
length-times heard (suc n) k = ap suc (length-times heard n (suc k))

started :
    {g : Group} {top : ℕ} {s : RaftNode} (h : IsReady g top s) (heard : ℕ → ℕ)
    → IsLeading g top s.commit_index (reset_nodes heard (send_heartbeat s))
unfolding reset_nodes send_heartbeat send_message
started {g} {top} {s} h heard = record {
  ids_eq = h.ids_eq;
  id_eq = h.id_eq;
  nodes_eq = h.nodes_eq;
  log_length = h.log_length;
  next_length = length-replicate s.current_num_nodes none ∙ h.nodes_eq;
  match_length = length-replicate s.current_num_nodes s.commit_index ∙ h.nodes_eq;
  heard_length = length-times heard s.current_num_nodes 0 ∙ h.nodes_eq;
  nexts = All-replicate (InLog top) s.current_num_nodes none tt;
  own = λ x e. omega (
    arith,
    All-get_elem? (λ y. y ≤ s.commit_index) _ g.me x
        (All-replicate (λ y. y ≤ s.commit_index) s.current_num_nodes s.commit_index (omega arith))
        e,
  );
}

-- A node whose addresses are those of a group that it belongs to, and whose log is not empty, starts
-- to lead without an exception, and with the invariant; its log is longer by one entry.
pub leader_start-Leads :
    (g : Group) (top : ℕ) (s : RaftNode)
    → IsReady g top s
    → (now : ℕ) (heard : ℕ → ℕ) → Returns (Leads g (suc top) (suc top)) (leader_start now heard) s
unfolding leader_start
leader_start-Leads g top s h now heard =
    Returns-bind _ _ s (Returns-modify {P = λ _ t. t ≡ send_heartbeat s} _ s refl) λ _ t et.
      Returns-bind _ _ t
        (Returns-modify {P = Leads g top s.commit_index} _ t (rw et (started h heard)))
        λ _ u hu.
          Returns-bind _ _ u (Returns-gets {P = Leads g top s.commit_index} _ u hu) λ term v hv.
            Returns-bind _ _ v (broadcast_append_entries-Leads hv (leader_entry term))
              λ _ w hw. Returns-pure now w hw
