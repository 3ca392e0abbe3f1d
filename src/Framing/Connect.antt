-- ===== src/Framing/Connect.antt =====
-- src/raft/berkeley_socket_interface.py: how `Listener.run` connects to the nodes, and how a socket is
-- bound (`bind_socket`, there and in src/utility_functions.py). What the network does to an attempt is a
-- parameter: the number of the attempt gives its result.
use mathlib.Core.Path.{subst}
use cs525_project.Common.{
  ℕ, zero, suc, ◌+◌, ◌<◌, ◌≡◌, refl, ◌≢◌, ◌⊎◌, inl, inr, String, Bool-cases, sym, ◌∙◌, ap, Option,
  none, some, List, [], ◌∷◌, ◌==◌, if◌then◌else◌, arith,
}

pub data Attempt : Type 0 where
  success : Attempt
  os_error : ℕ → Attempt

pub data Outcome : Type 0 where
  connected : ℕ → Outcome
  gave_up : Outcome
  raised : ℕ → Outcome

-- The loop over the attempts, of which `left` are left: connection refused (111) is tried again.
unfoldable pub attempts : (ℕ → Attempt) → ℕ → ℕ → Outcome
attempts network k zero = gave_up
attempts network k (suc left) =
    let again = attempts network (suc k) left in
    elim (network k) [
      | success ↦ connected k
      | os_error errno ↦ if errno == 111 then again else raised errno
    ]

-- `for attempt in range(10)`
unfoldable pub connect : (ℕ → Attempt) → Outcome
unfolding attempts
connect network = attempts network 0 10

-- The loop over the addresses: the sockets that are connected, or the errno that ends the process.
unfoldable pub connect_all : (String → ℕ → Attempt) → List String → List String ⊎ ℕ
connect_all network [] = inl []
connect_all network (a ∷ rest) =
    let others = connect_all network rest in
    elim (connect (network a)) [
      | connected k ↦ elim others [ inl sockets ↦ inl (a ∷ sockets) | inr errno ↦ inr errno ]
      | gave_up ↦ others
      | raised errno ↦ inr errno
    ]

-- `bind_socket`, for `rounds` rounds of its loop: an address in use (98) is tried again.
unfoldable pub bind_socket : (ℕ → Attempt) → ℕ → ℕ → Option Outcome
bind_socket network k zero = none
bind_socket network k (suc rounds) =
    let again = bind_socket network (suc k) rounds in
    elim (network k) [
      | success ↦ some (connected k)
      | os_error errno ↦ if errno == 98 then again else some (raised errno)
    ]

-- From the attempt `k` on, this many attempts fail with the errno.
abbrev pub Fails : ℕ → (ℕ → Attempt) → ℕ → ℕ → Type 0
Fails errno network k zero = Unit
Fails errno network k (suc n) = (network k ≡ os_error errno) × Fails errno network (suc k) n

-- How `left` attempts from `k` on end: `failed` of them are refused, and then the next one, number `at`,
-- succeeds, or raises another error, or there is no next one.
pub record Ends (network : ℕ → Attempt) (k left : ℕ) (outcome : Outcome) : Type 0 where
  pub failed : ℕ
  pub at : ℕ
  pub counted : at ≡ k + failed
  pub refused : Fails 111 network k failed
  pub next :
      ((failed < left) × (network at ≡ success) × (outcome ≡ connected at))
      ⊎ ((failed < left)
          × (errno : ℕ) × (network at ≡ os_error errno)
          × (errno ≢ 111)
          × (outcome ≡ raised errno))
      ⊎ ((failed ≡ left) × (outcome ≡ gave_up))

one_more :
    (network : ℕ → Attempt) (k left : ℕ) (outcome : Outcome)
    → network k ≡ os_error 111
    → Ends network (suc k) left outcome
    → Ends network k (suc left) outcome
one_more network k left outcome e w = record {
  failed = suc w.failed;
  at = w.at;
  counted = omega (arith, w.counted);
  refused = (e, w.refused);
  next = elim w.next [
    | inl p ↦ inl (omega (arith, p.0), p.1, p.2)
    | inr (inl p) ↦ inr (inl (omega (arith, p.0), p.1, p.2, p.3, p.4))
    | inr (inr p) ↦ inr (inr (omega (arith, p.0), p.1))
  ];
}

first_attempt :
    (network : ℕ → Attempt) (k left : ℕ) (again : Outcome) (a : Attempt)
    → network k ≡ a
    → Ends network (suc k) left again
    → Ends network k (suc left) (elim a [
      | success ↦ connected k
      | os_error errno ↦ if errno == 111 then again else raised errno
    ])
first_attempt network k left again success e w = record {
  failed = 0;
  at = k;
  counted = omega arith;
  refused = tt;
  next = inl (omega arith, e, refl);
}
first_attempt network k left again (os_error errno) e w = elim (Bool-cases (errno == 111)) [
  | inl y ↦
      (let same : errno ≡ 111 = ground arith in
        rw y (one_more network k left again (e ∙ ap os_error same) w))
  | inr n ↦ rw n (record {
    failed = 0;
    at = k;
    counted = omega arith;
    refused = tt;
    next = inr (inl (omega arith, errno, e, (λ same. absurd (ground arith)), refl));
  })
]

attempts-Ends : (network : ℕ → Attempt) (k left : ℕ) → Ends network k left (attempts network k left)
unfolding attempts
attempts-Ends network k zero = record {
  failed = 0;
  at = k;
  counted = omega arith;
  refused = tt;
  next = inr (inr (refl, refl));
}
attempts-Ends network k (suc left) =
    first_attempt network k left (attempts network (suc k) left) (network k) refl
      (attempts-Ends network (suc k) left)

connect-Ends : (network : ℕ → Attempt) → Ends network 0 10 (connect network)
unfolding connect
connect-Ends network = attempts-Ends network 0 10

-- How the loop over the addresses ends: with the sockets of some of them, or with an errno.
pub data Joins (network : String → ℕ → Attempt) : List String → List String ⊎ ℕ → Type 0 where
  over : Joins network [] (inl [])
  joined :
      {a : String} {rest sockets : List String} (k : ℕ)
      → Ends (network a) 0 10 (connected k)
      → Joins network rest (inl sockets)
      → Joins network (a ∷ rest) (inl (a ∷ sockets))
  missed :
      {a : String} {rest : List String} {end : List String ⊎ ℕ}
      → Ends (network a) 0 10 gave_up
      → Joins network rest end
      → Joins network (a ∷ rest) end
  failed_later :
      {a : String} {rest : List String} {errno : ℕ} (k : ℕ)
      → Ends (network a) 0 10 (connected k)
      → Joins network rest (inr errno)
      → Joins network (a ∷ rest) (inr errno)
  failed_here :
      {a : String} {rest : List String} (errno : ℕ)
      → Ends (network a) 0 10 (raised errno)
      → Joins network (a ∷ rest) (inr errno)

-- One address, by the outcome of its attempts and the end of the loop over the others.
one_address :
    (network : String → ℕ → Attempt) (a : String) (rest : List String) (outcome : Outcome)
    (others : List String ⊎ ℕ)
    → Ends (network a) 0 10 outcome
    → Joins network rest others
    → Joins network (a ∷ rest) (elim outcome [
      | connected k ↦ elim others [ inl sockets ↦ inl (a ∷ sockets) | inr errno ↦ inr errno ]
      | gave_up ↦ others
      | raised errno ↦ inr errno
    ])
one_address network a rest (connected k) (inl sockets) e j = joined k e j
one_address network a rest (connected k) (inr errno) e j = failed_later k e j
one_address network a rest gave_up others e j = missed e j
one_address network a rest (raised errno) others e j = failed_here errno e

-- The listener gets a socket for an address at the first successful attempt; the first error that is not
-- "connection refused" ends the loop over the addresses with its errno; and an address that refuses ten
-- times is passed over without an error. The sockets are in the order of the addresses.
pub connect_all-Joins :
    (network : String → ℕ → Attempt) (addresses : List String)
    → Joins network addresses (connect_all network addresses)
unfolding connect_all
connect_all-Joins network [] = over
connect_all-Joins network (a ∷ rest) =
    one_address network a rest (connect (network a)) (connect_all network rest)
      (connect-Ends (network a)) (connect_all-Joins network rest)

-- What binding gives when the attempts from `k` on, after some that find the address in use, have this
-- result.
abbrev pub bound : ℕ → Attempt → Outcome
bound k success = connected k
bound k (os_error errno) = raised errno

last_attempt :
    (k : ℕ) (again : Option Outcome) (a : Attempt)
    → a ≢ os_error 98
    → (elim a [
      | success ↦ some (connected k)
      | os_error errno ↦ if errno == 98 then again else some (raised errno)
    ])
      ≡ some (bound k a)
last_attempt k again success free = refl
last_attempt k again (os_error errno) free = elim (Bool-cases (errno == 98)) [
  | inl y ↦ (let same : errno ≡ 98 = ground arith in absurd (free (ap os_error same)))
  | inr n ↦ rw n
]

-- If the attempts to bind a socket from number `k` on find its address in use `n` times, and attempt
-- number `at`, the next one, does not, then the loop ends with the socket or the error of that attempt,
-- however many rounds more than `n` it is given.
pub bind_socket-ends :
    (network : ℕ → Attempt) (k n at rounds : ℕ)
    → Fails 98 network k n
    → at ≡ k + n
    → network at ≢ os_error 98
    → n < rounds
    → bind_socket network k rounds ≡ some (bound at (network at))
unfolding bind_socket
bind_socket-ends network k n at zero f here free enough = absurd (omega (arith, enough))
bind_socket-ends network k zero at (suc rounds) f here free enough =
    let same : k ≡ at = omega (arith, here) in
    subst (λ i. bind_socket network k (suc rounds) ≡ some (bound i (network i))) same
      (last_attempt k (bind_socket network (suc k) rounds) (network k)
        (subst (λ i. network i ≢ os_error 98) (sym same) free))
bind_socket-ends network k (suc n) at (suc rounds) f here free enough =
    rw (bind_socket, f.0)
      (bind_socket-ends network (suc k) n at rounds f.1 (omega (arith, here)) free
        (omega (arith, enough)))
