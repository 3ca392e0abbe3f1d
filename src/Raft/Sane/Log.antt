-- ===== src/Raft/Sane/Log.antt =====
-- The methods on the term, the log, the commits and the queue, in a group of nodes that talk to each
-- other only.
use mathlib.Core.Path.{subst}
use cs525_project.Common.{
  ℕ, suc, ◌≡◌, Bool, Option, none, some, List, [], ◌∷◌, ◌++◌, All, All-append, arith, length-append,
  length-take, take, true, false, String, zero,
}
use cs525_project.Protocol.{Entry}
use cs525_project.Raft.State.{RaftNode, Role}
use cs525_project.Raft.Log.{
  set_current_role, increment_term, commit_entry, push_entry, cut_log, place_entry, append_entry,
}
use cs525_project.Raft.Client.{get_client_request, pop_request}
use cs525_project.Raft.Relates.{Relates}
use cs525_project.Raft.Sane.{IsHonest, honest, relogged}

All-take : (P : Entry → Type 0) (n : ℕ) (xs : List Entry) → All P xs → All P (take n xs)
All-take P zero xs a = tt
All-take P (suc n) [] a = tt
All-take P (suc n) (x ∷ xs) a = (a.0, All-take P n xs a.1)

popped_legal :
    (P : Entry → Type 0) (queue : List Entry) (s : RaftNode) (e : Entry)
    → All P queue
    → (pop_request queue s).0 ≡ some e
    → P e
popped_legal P [] s e a q = absurd (cc q)
popped_legal P (d ∷ rest) s e a q = let same : d ≡ e = cc q in subst P same a.0

-- Nothing that the predicate speaks of has changed.
module _ {P : Entry → Type 0} {ids : List String} where
  pub set_current_role-IsHonest :
      (role : Role) (s : RaftNode) → IsHonest P ids s → IsHonest P ids (set_current_role role s)
  unfolding set_current_role
  set_current_role-IsHonest role s h = record {
    member = h.member;
    started = h.started;
    entries = h.entries;
    queued = h.queued;
    sent = h.sent;
  }

  pub increment_term-IsHonest :
      (term : Option ℕ) (s : RaftNode) → IsHonest P ids s → IsHonest P ids (increment_term term s)
  unfolding increment_term
  increment_term-IsHonest none s h = record {
    member = h.member;
    started = h.started;
    entries = h.entries;
    queued = h.queued;
    sent = h.sent;
  }
  increment_term-IsHonest (some term) s h = record {
    member = h.member;
    started = h.started;
    entries = h.entries;
    queued = h.queued;
    sent = h.sent;
  }

  pub leader_id-IsHonest :
      (leader : Option String) (s : RaftNode)
      → IsHonest P ids s
      → IsHonest P ids (record s { leader_id = leader })
  leader_id-IsHonest leader s h = record {
    member = h.member;
    started = h.started;
    entries = h.entries;
    queued = h.queued;
    sent = h.sent;
  }

  pub commit_entry-IsHonest :
      (index term : ℕ) (s : RaftNode)
      → IsHonest P ids s
      → IsHonest P ids (commit_entry index term s)
  unfolding commit_entry
  commit_entry-IsHonest index term s h = record {
    member = h.member;
    started = h.started;
    entries = h.entries;
    queued = h.queued;
    sent = h.sent;
  }

  push_entry-IsHonest :
      (e : Entry) (s : RaftNode) → P e → IsHonest P ids s → IsHonest P ids (push_entry e s)
  unfolding push_entry
  push_entry-IsHonest e s p h =
      relogged s (s.log ++ e ∷ []) _ h (omega (arith, length-append s.log (e ∷ [])))
        (All-append P s.log (e ∷ []) h.entries (p, tt))

  cut_log-IsHonest :
      (prev : Option ℕ) (s : RaftNode) → IsHonest P ids s → IsHonest P ids (cut_log prev s).1
  unfolding cut_log
  cut_log-IsHonest none s h = h
  cut_log-IsHonest (some i) s h =
      relogged s (take (suc i) s.log) s.log_hash h
        (omega (arith, length-take (suc i) s.log, h.started)) (All-take P (suc i) s.log h.entries)

  place_entry-IsHonest :
      (e : Entry) (commit : Bool) (prev : ℕ) (last : Option Entry) (s : RaftNode)
      → P e
      → IsHonest P ids s
      → IsHonest P ids (place_entry e commit prev last s).1
  unfolding place_entry
  place_entry-IsHonest e commit prev none s p h = h
  place_entry-IsHonest e true prev (some last) s p h =
      commit_entry-IsHonest prev e.term _ (push_entry-IsHonest e s p h)
  place_entry-IsHonest e false prev (some last) s p h = push_entry-IsHonest e s p h

  pub append_entry-IsHonest :
      (e : Entry) (commit : Bool) (prev : Option ℕ)
      → P e
      → Relates (honest P ids) (append_entry e commit prev)
  unfolding append_entry
  append_entry-IsHonest e commit prev p = record {
    at = λ s h.
        let (index, cut) = cut_log prev s in
        place_entry-IsHonest e commit index _ cut p (cut_log-IsHonest prev s h);
  }

  -- A request is taken from the queue.
  popped :
      (queue : List Entry) (s : RaftNode)
      → All P queue
      → IsHonest P ids s
      → IsHonest P ids (pop_request queue s).1
  popped [] s a h = h
  popped (e ∷ rest) s a h = record {
    member = h.member;
    started = h.started;
    entries = h.entries;
    queued = a.1;
    sent = h.sent;
  }

  pub get_client_request-IsHonest :
      (s : RaftNode) → IsHonest P ids s → IsHonest P ids (get_client_request s).1
  unfolding get_client_request
  get_client_request-IsHonest s h = popped s.client_queue s h.queued h

  pub request-legal :
      (s : RaftNode) (e : Entry) → IsHonest P ids s → (get_client_request s).0 ≡ some e → P e
  unfolding get_client_request
  request-legal s e h q = popped_legal P s.client_queue s e h.queued q
