-- ===== src/Raft/Ballot/Voters.antt =====
-- Who has voted in an election: the granting responses that the rounds of `_candidate` read, and
-- those among the messages that a node has sent.
use cs525_project.Common.{
  ℕ, zero, suc, ◌<◌, String, Bool, true, false, ◌&&◌, ◌≡◌, refl, sym, Option, none, some, List, [],
  ◌∷◌, ◌++◌, length, length-append, get_elem?, All, All-append, arith, ◌==◌, Bool-cases, inl, inr,
  if◌then◌else◌,
}
use mathlib.Core.Path.{subst}
use cs525_project.Protocol.{Message, request_votes_message, append_entries_message, votes, appends}
use cs525_project.Protocol
use cs525_project.Protocol.MessageDirection
use cs525_project.Raft.Candidate.{is_granted}
use cs525_project.Raft.Granted.{grants, granted_by, granted}
use cs525_project.Raft.Voting.{IsIncreasing}
use cs525_project.Raft.Ballot.{grants_results, grants_message, Round, ballots}

-- A response that grants a vote.
abbrev pub is_grant : Message → Bool
is_grant (request_votes_message m) = m.direction == MessageDirection.response && grants m.results
is_grant (append_entries_message m) = false

abbrev pub sender_of : Message → String
sender_of m = (Protocol.base_of m).sender

abbrev pub term_of : Message → ℕ
term_of m = (Protocol.base_of m).term

-- The granting responses among what was read.
abbrev pub grant_in : Option Message → List Message
grant_in none = []
grant_in (some m) = if is_grant m then m ∷ [] else []

unfoldable pub grants_read : List Round → List Message
grants_read [] = []
grants_read (r ∷ rest) = grant_in r.1 ++ grants_read rest

length-grant_in : (m : Option Message) → length (grant_in m) ≡ grants_message m
unfolding grants_message grants_results
length-grant_in none = refl
length-grant_in (some (append_entries_message m)) = refl
length-grant_in (some (request_votes_message m)) =
    elim (Bool-cases (m.direction == MessageDirection.response)) [
      | inr n ↦ rw n
      | inl y ↦ rw y (by_results m.results)
    ]
  where
    by_results :
        (r : Protocol.Results)
        → length (if grants r then request_votes_message m ∷ [] else []) ≡ grants_results r
    by_results (appends r) = refl
    by_results (votes r) = elim (Bool-cases (is_granted r.vote_granted)) [
      | inl y ↦ rw y
      | inr n ↦ rw n
    ]

pub length-grants_read : (rs : List Round) → length (grants_read rs) ≡ ballots rs
unfolding grants_read ballots
length-grants_read [] = refl
length-grants_read (r ∷ rest) = omega (
  arith,
  length-append (grant_in r.1) (grants_read rest),
  length-grant_in r.1,
  length-grants_read rest,
)

pub All-is_grant : (rs : List Round) → All (λ m. is_grant m ≡ true) (grants_read rs)
unfolding grants_read
All-is_grant [] = tt
All-is_grant (r ∷ rest) =
    All-append (λ m. is_grant m ≡ true) (grant_in r.1) (grants_read rest) (of_one r.1)
      (All-is_grant rest)
  where
    of_one : (m : Option Message) → All (λ n. is_grant n ≡ true) (grant_in m)
    of_one none = tt
    of_one (some m) = elim (Bool-cases (is_grant m)) [ inl y ↦ rw y (y, tt) | inr n ↦ rw n tt ]

-- The terms of the votes that a node grants are those of its granting responses.
granted_by-grant : (m : Message) → is_grant m ≡ true → granted_by m ≡ term_of m ∷ []
granted_by-grant (append_entries_message m) h = cc
granted_by-grant (request_votes_message m) h = ground arith

All-granted :
    (P : ℕ → Type 0) (ms : List Message) (i : ℕ) (m : Message)
    → All P (granted ms)
    → get_elem? ms i ≡ some m
    → is_grant m ≡ true
    → P (term_of m)
unfolding granted
All-granted P [] i m h at y = cc
All-granted P (x ∷ ms) zero m h at y =
    let same : x ≡ m = cc in
    let all : All P (granted_by m ++ granted ms) =
      subst (λ z. All P (granted_by z ++ granted ms)) same h in
    (subst (λ l. All P (l ++ granted ms)) (granted_by-grant m y) all).0
All-granted P (x ∷ ms) (suc i) m h at y =
    All-granted P ms i m (All-right (granted_by x) (granted ms) h) at y
  where
    All-right : (xs ys : List ℕ) → All P (xs ++ ys) → All P ys
    All-right [] ys k = k
    All-right (z ∷ xs) ys k = All-right xs ys k.1

IsIncreasing-right : (xs ys : List ℕ) → IsIncreasing (xs ++ ys) → IsIncreasing ys
IsIncreasing-right [] ys h = h
IsIncreasing-right (x ∷ xs) ys h = IsIncreasing-right xs ys h.1

-- The first of the messages grants a vote in the term of a later one.
not_again :
    (x : Message) (ms : List Message) (j : ℕ) (n : Message)
    → IsIncreasing (granted_by x ++ granted ms)
    → is_grant x ≡ true
    → get_elem? ms j ≡ some n
    → is_grant n ≡ true
    → term_of x ≡ term_of n
    → ⊥
not_again x ms j n h gx at gn e =
    let up : IsIncreasing (term_of x ∷ granted ms) =
      subst (λ l. IsIncreasing (l ++ granted ms)) (granted_by-grant x gx) h in
    let below : term_of x < term_of n = All-granted (λ t. term_of x < t) ms j n up.0 at gn in
    omega (arith, below, e)

-- Among messages whose votes are for rising terms, one term has one granting response.
pub one_grant :
    (ms : List Message) (i j : ℕ) (m n : Message)
    → IsIncreasing (granted ms)
    → get_elem? ms i ≡ some m
    → get_elem? ms j ≡ some n
    → is_grant m ≡ true
    → is_grant n ≡ true
    → term_of m ≡ term_of n
    → m ≡ n
unfolding granted
one_grant [] i j m n h at_i at_j gm gn e = cc
one_grant (x ∷ ms) zero zero m n h at_i at_j gm gn e = cc
one_grant (x ∷ ms) zero (suc j) m n h at_i at_j gm gn e =
    let same : m ≡ x = cc in
    absurd (
      not_again x ms j n h (subst (λ z. is_grant z ≡ true) same gm) at_j gn
        (subst (λ z. term_of z ≡ term_of n) same e))
one_grant (x ∷ ms) (suc i) zero m n h at_i at_j gm gn e =
    let same : n ≡ x = cc in
    absurd (
      not_again x ms i m h (subst (λ z. is_grant z ≡ true) same gn) at_i gm
        (subst (λ z. term_of z ≡ term_of m) same (sym e)))
one_grant (x ∷ ms) (suc i) (suc j) m n h at_i at_j gm gn e =
    one_grant ms i j m n (IsIncreasing-right (granted_by x) (granted ms) h) at_i at_j gm gn e
