-- ===== src/Raft/Ballot/OneLeader.antt =====
-- Two elections of one term in a group: src/raft/raft.py, `_candidate` in two nodes, and the votes
-- that the nodes of the group have sent in their runs.
use cs525_project.Common.{
  ℕ, suc, ◌+◌, ◌≤◌, String, ◌≡◌, ◌≢◌, sym, ◌∙◌, true, inl, inr, Option, some, List, [], ◌∷◌, ◌++◌,
  map, length, length-append, get_elem?, All, All-append, arith, ok,
}
use mathlib.Core.Path.{subst, ap}
use cs525_project.Common.Members.{IsIn, Differ, Differ-append, length-Differ}
use cs525_project.Protocol
use cs525_project.Protocol.{Message}
use cs525_project.Raft.State.{RaftNode, candidate, leader}
use cs525_project.Raft.Follower.{done}
use cs525_project.Raft.Thread.{Event, run}
use cs525_project.Raft.Granted.{granted}
use cs525_project.Raft.Voting.{IsIncreasing}
use cs525_project.Raft.Elections.{start, NeverOwn, granted-run-IsIncreasing}
use cs525_project.Raft.Ballot.{Round, ballots, election, election-leader}
use cs525_project.Raft.Ballot.Voters.{
  is_grant, sender_of, term_of, grants_read, length-grants_read, All-is_grant, one_grant,
}

-- Whom a message is for.
abbrev pub receiver_of : Message → Option String
receiver_of m = (Protocol.base_of m).receiver

-- What the new node of an address has handed to its talker after a run.
abbrev pub sent_by :
    List String → (String → ℕ) → (String → ℕ → ℕ) → (String → List Event) → String → List Message
sent_by ids timeout stamps es a = (run (es a) (start a ids a (timeout a) (stamps a))).node.outbox

-- A message that its sender, a node of the group, has sent to the candidate in the term.
abbrev pub IsCast : List String → (String → List Message) → String → ℕ → Message → Type 0
IsCast ids sent to term m =
    IsIn (sender_of m) ids
    × (term_of m ≡ term)
    × (receiver_of m ≡ some to)
    × (i : ℕ) × (get_elem? (sent (sender_of m)) i ≡ some m)

module _ (ids : List String) (sent : String → List Message)
    (once : (v : String) → IsIncreasing (granted (sent v))) (term : ℕ) where
  -- A granting response in the term is for one candidate only.
  one_receiver :
      (a b : String) (m n : Message)
      → is_grant m ≡ true
      → is_grant n ≡ true
      → IsCast ids sent a term m
      → IsCast ids sent b term n
      → sender_of n ≡ sender_of m
      → a ≡ b
  one_receiver a b m n gm gn (_, of_m, to_a, i, at_i) (_, of_n, to_b, j, at_j) e =
      let at_j' : get_elem? (sent (sender_of m)) j ≡ some n =
        subst (λ v. get_elem? (sent v) j ≡ some n) e at_j in
      let same : m ≡ n =
        one_grant (sent (sender_of m)) i j m n (once (sender_of m)) at_i at_j' gm gn
          (of_m ∙ sym of_n) in
      let receivers : receiver_of m ≡ receiver_of n = ap receiver_of same in cc

  apart_from :
      (a b : String) (m : Message) (ns : List Message)
      → a ≢ b
      → is_grant m ≡ true
      → IsCast ids sent a term m
      → All (λ n. is_grant n ≡ true) ns
      → All (IsCast ids sent b term) ns
      → All (λ v. v ≢ sender_of m) (map sender_of ns)
  apart_from a b m [] d gm cm gs cs = tt
  apart_from a b m (n ∷ ns) d gm cm gs cs =
      ((λ e. d (one_receiver a b m n gm gs.0 cm cs.0 e)), apart_from a b m ns d gm cm gs.1 cs.1)

  apart :
      (a b : String) (ms ns : List Message)
      → a ≢ b
      → All (λ m. is_grant m ≡ true) ms
      → All (IsCast ids sent a term) ms
      → All (λ n. is_grant n ≡ true) ns
      → All (IsCast ids sent b term) ns
      → All (λ u. All (λ v. v ≢ u) (map sender_of ns)) (map sender_of ms)
  apart a b [] ns d gm cm gs cs = tt
  apart a b (m ∷ ms) ns d gm cm gs cs =
      (apart_from a b m ns d gm.0 cm.0 gs cs, apart a b ms ns d gm.1 cm.1 gs cs)

  voters_of_group :
      (a : String) (ms : List Message)
      → All (IsCast ids sent a term) ms
      → All (λ v. IsIn v ids) (map sender_of ms)
  voters_of_group a [] h = tt
  voters_of_group a (m ∷ ms) h = (h.0.0, voters_of_group a ms h.1)

  -- The votes of one term for two candidates are no more than the group has nodes.
  votes_bounded :
      (a b : String) (rs qs : List Round)
      → a ≢ b
      → All (IsCast ids sent a term) (grants_read rs)
      → All (IsCast ids sent b term) (grants_read qs)
      → Differ (map sender_of (grants_read rs))
      → Differ (map sender_of (grants_read qs))
      → ballots rs + ballots qs ≤ length ids
  votes_bounded a b rs qs d cr cq dr dq =
      let us = map sender_of (grants_read rs) in
      let vs = map sender_of (grants_read qs) in
      let all_differ =
        Differ-append us vs dr dq (
          apart a b (grants_read rs) (grants_read qs) d (All-is_grant rs) cr (All-is_grant qs)
            cq) in
      omega (
        arith,
        length-Differ (us ++ vs) ids all_differ (
            All-append (λ v. IsIn v ids) us vs (voters_of_group a (grants_read rs) cr)
              (voters_of_group b (grants_read qs) cq)),
        length-append us vs,
        length-map (grants_read rs),
        length-map (grants_read qs),
        length-grants_read rs,
        length-grants_read qs,
      )
    where
      length-map : (ms : List Message) → length (map sender_of ms) ≡ length ms
      length-map [] = omega arith
      length-map (m ∷ ms) = omega (arith, length-map ms)

two_members : (ids : List String) (a b : String) → a ≢ b → IsIn a ids → IsIn b ids → 2 ≤ length ids
two_members ids a b d ia ib =
    length-Differ (a ∷ b ∷ []) ids (((λ e. d (sym e)), tt), (tt, tt)) (ia, (ib, tt))

-- Two nodes of a group are not both elected in one term, whatever runs the nodes of the group have had:
-- if each of the two, as a candidate in the same term, read no granting response but those that
-- different nodes of the group have sent to it in the term of its election, and one of them ended the
-- election as a leader, then the other did not. The nodes are new ones, and hear no heartbeat of their
-- own term while they are candidates.
pub one_leader :
    (ids : List String) (timeout : String → ℕ) (stamps : String → ℕ → ℕ) (es : String → List Event)
    (a b : String) (now later : ℕ) (rs qs : List Round) (s t s' t' : RaftNode)
    → ((v : String) → NeverOwn (es v) (start v ids v (timeout v) (stamps v)))
    → IsIn a ids
    → IsIn b ids
    → a ≢ b
    → s.current_role ≡ candidate
    → t.current_role ≡ candidate
    → s.current_num_nodes ≡ length ids
    → t.current_num_nodes ≡ length ids
    → t.current_term ≡ s.current_term
    → All (IsCast ids (sent_by ids timeout stamps es) a (suc s.current_term)) (grants_read rs)
    → All (IsCast ids (sent_by ids timeout stamps es) b (suc t.current_term)) (grants_read qs)
    → Differ (map sender_of (grants_read rs))
    → Differ (map sender_of (grants_read qs))
    → election now rs s ≡ (ok done, s')
    → election later qs t ≡ (ok done, t')
    → s'.current_role ≡ leader
    → t'.current_role ≢ leader
one_leader ids timeout stamps es a b now later rs qs s t s' t' own ia ib d cs ct ns nt e cr cq dr dq
      won won' is is' =
    let once =
      λ (v : String). granted-run-IsIncreasing v ids v (timeout v) (stamps v) (es v) (own v) in
    let sent = sent_by ids timeout stamps es in
    let cast_b : All (IsCast ids sent b (suc s.current_term)) (grants_read qs) =
      subst (λ n. All (IsCast ids sent b (suc n)) (grants_read qs)) e cq in
    let few = votes_bounded ids sent once (suc s.current_term) a b rs qs d cr cast_b dr dq in
    let two = two_members ids a b d ia ib in
    let many = election-leader now rs s s' cs won is in
    let many' = election-leader later qs t t' ct won' is' in
    elim many [
      | inr one ↦ omega (arith, one, two, ns)
      | inl m ↦ elim many' [
        | inr one ↦ omega (arith, one, two, nt)
        | inl m' ↦ omega (arith, m, m', few, ns, nt)
      ]
    ]
