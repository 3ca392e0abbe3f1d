-- ===== src/Framing/Talking/Sending.antt =====
-- The rounds of the talker of src/raft/berkeley_socket_interface.py: the bytes on each connection.
use mathlib.Core.Path.{subst}
use mathlib.Core.List.{append_assoc, append-nil, map-append}
use cs525_project.Common.{
  ℕ, zero, suc, ◌+◌, ◌/◌, ◌%◌, ◌<◌, ◌≤◌, ◌≡◌, ◌⊎◌, refl, sym, ◌∙◌, ap, String, true, false, Option,
  none, some, List, [], ◌∷◌, ◌++◌, length, length-append, take, map, All, arith, ltb, Bool-cases,
  List-cases, inl, inr,
}
use cs525_project.Json.{Fields}
use cs525_project.Framing.{stream_of, frame-small}
use cs525_project.Framing.Connect.{Attempt, success}
use cs525_project.Framing.Talking.{
  Fault, Connection, Talker, accept_all, send_each, talker_round, TalkerEvent, sends, rounds, stops,
  talker_step, talker_run,
}

-- The messages that the node hands over in a run.
abbrev pub handed : List TalkerEvent → List Fields
handed [] = []
handed (sends msg ∷ rest) = msg ∷ handed rest
handed (rounds network ∷ rest) = handed rest
handed (stops ∷ rest) = handed rest

-- No `send` fails.
abbrev pub Reaches : TalkerEvent → Type 0
Reaches (rounds network) = (a : String) → network a ≡ success
Reaches _ = Unit

-- The connections that are accepted, in their order.
abbrev pub fresh : String → Connection
fresh a = record { address = a; stream = [] }

pub accept_all-take :
    (wanted : ℕ) (arriving : List String) (cs : List Connection) (more : ℕ)
    → wanted ≡ length cs + more
    → more ≤ length arriving
    → accept_all wanted arriving cs ≡ some (cs ++ map fresh (take more arriving))
unfolding accept_all
accept_all-take wanted [] cs zero e h = rw (append-nil cs) (ground (arith, e))
accept_all-take wanted (a ∷ rest) cs zero e h = rw (append-nil cs) (ground (arith, e))
accept_all-take wanted [] cs (suc more) e h = let no : ⊥ = omega (arith, h) in absurd no
accept_all-take wanted (a ∷ rest) cs (suc more) e h =
    let waits : ltb (length cs) wanted ≡ true = ground (arith, e) in
    rw waits (
      accept_all-take wanted rest (cs ++ fresh a ∷ []) more
        (omega (arith, e, length-append cs (fresh a ∷ []))) (omega (arith, h))
      ∙ ap some (append_assoc cs (fresh a ∷ []) (map fresh (take more rest))))

stream_of-append : (xs ys : List (List ℕ)) → stream_of (xs ++ ys) ≡ stream_of xs ++ stream_of ys
stream_of-append [] ys = refl
stream_of-append (x ∷ xs) ys = rw (stream_of-append xs ys) (
    ap (λ (l : List ℕ). length x / 256 ∷ length x % 256 ∷ l)
      (sym (append_assoc x (stream_of xs) (stream_of ys))))

-- Every connection has carried these bytes.
abbrev pub Carries : List ℕ → List Connection → Type 0
Carries bytes cs = All (λ c. c.stream ≡ bytes) cs

abbrev pub addresses : List Connection → List String
addresses cs = map (λ (c : Connection). c.address) cs

send_each-cons :
    (network : String → Attempt) (text : List ℕ) (c : Connection) (cs : List Connection)
    → network c.address ≡ success
    → length text < 65_536
    → send_each network text (c ∷ cs) ≡ (
      record c { stream = c.stream ++ (length text / 256 ∷ length text % 256 ∷ text) }
          ∷ (send_each network text cs).0,
      (send_each network text cs).1,
    )
unfolding send_each
send_each-cons network text c cs ok small = ground (arith, frame-small text small, ok)

send_each-Carries :
    (network : String → Attempt) (text before : List ℕ) (cs : List Connection)
    → ((a : String) → network a ≡ success)
    → length text < 65_536
    → Carries before cs
    → ((send_each network text cs).1 ≡ none)
      × Carries (before ++ stream_of (text ∷ [])) (send_each network text cs).0
      × (addresses (send_each network text cs).0 ≡ addresses cs)
send_each-Carries network text before [] ok small h = unfold send_each in (refl, tt, refl)
send_each-Carries network text before (c ∷ cs) ok small h =
    let (sent, carried, same) = send_each-Carries network text before cs ok small h.1 in
    let framed : c.stream ++ (length text / 256 ∷ length text % 256 ∷ text)
        ≡ before ++ stream_of (text ∷ []) =
      rw (append-nil text)
        (ap (λ (l : List ℕ). l ++ (length text / 256 ∷ length text % 256 ∷ text)) h.0) in
    rw (send_each-cons network text c cs (ok c.address) small)
      (sent, (framed, carried), ap (λ l. c.address ∷ l) same)

-- What the run of a talker that has sent some messages before does further.
pub record Spoken (dumps : Fields → List ℕ) (gone all : List Fields) (peers : List String)
    (r : Talker × Option Fault) : Type 0 where
  pub out : List Fields
  pub no_fault : r.1 ≡ none
  pub rest : out ++ r.0.messages ≡ all
  pub carried : Carries (stream_of (map dumps (gone ++ out))) r.0.connections
  pub same : addresses r.0.connections ≡ peers

module _ (dumps : Fields → List ℕ) where
  abbrev pub IsSmall : Fields → Type 0
  IsSmall msg = length (dumps msg) < 65_536

  abbrev stepped : (String → Attempt) → List Fields → Fields → Talker → Talker
  stepped network queue msg t = record t {
    messages = queue;
    connections = (send_each network (dumps msg) t.connections).0;
  }

  round-quiet :
      (network : String → Attempt) (t : Talker)
      → (t.stop_event ≡ true) ⊎ (t.messages ≡ [])
      → talker_step dumps (rounds network) t ≡ (t, none)
  unfolding talker_step talker_round
  round-quiet network t (inl e) = rw e
  round-quiet network t (inr e) = ground (arith, e)

  round-sends :
      (network : String → Attempt) (t : Talker) (msg : Fields) (queue : List Fields)
      → t.stop_event ≡ false
      → t.messages ≡ msg ∷ queue
      → (send_each network (dumps msg) t.connections).1 ≡ none
      → talker_step dumps (rounds network) t ≡ (stepped network queue msg t, none)
  unfolding talker_step talker_round
  round-sends network t msg queue s e f = ground (arith, s, e, f)

  sends-step :
      (msg : Fields) (t : Talker)
      → talker_step dumps (sends msg) t ≡ (record t { messages = t.messages ++ msg ∷ [] }, none)
  unfolding talker_step
  sends-step msg t = refl

  stops-step : (t : Talker) → talker_step dumps stops t ≡ (record t { stop_event = true }, none)
  unfolding talker_step
  stops-step t = refl

  one_longer :
      (gone : List Fields) (msg : Fields)
      → stream_of (map dumps gone) ++ stream_of (dumps msg ∷ [])
        ≡ stream_of (map dumps (gone ++ msg ∷ []))
  one_longer gone msg =
      sym (stream_of-append (map dumps gone) (dumps msg ∷ []))
      ∙ ap stream_of (sym (map-append dumps gone (msg ∷ [])))

  -- One message more has gone.
  one_more :
      (gone all : List Fields) (msg : Fields) (peers : List String) (r : Talker × Option Fault)
      → Spoken dumps (gone ++ msg ∷ []) all peers r
      → Spoken dumps gone (msg ∷ all) peers r
  one_more gone all msg peers r s = record {
    out = msg ∷ s.out;
    no_fault = s.no_fault;
    rest = ap (λ l. msg ∷ l) s.rest;
    carried =
        subst (λ l. Carries (stream_of (map dumps l)) r.0.connections)
          (append_assoc gone (msg ∷ []) s.out) s.carried;
    same = s.same;
  }

  pub talker_run-Spoken :
      (es : List TalkerEvent) (t : Talker) (gone : List Fields)
      → All Reaches es
      → All IsSmall (t.messages ++ handed es)
      → Carries (stream_of (map dumps gone)) t.connections
      → Spoken dumps gone
          (t.messages ++ handed es)
          (addresses t.connections)
          (talker_run dumps es t)
  unfolding talker_run
  talker_run-Spoken [] t gone ok small h = record {
    out = [];
    no_fault = refl;
    rest = sym (append-nil t.messages);
    carried = rw (append-nil gone) h;
    same = refl;
  }
  talker_run-Spoken (sends msg ∷ es) t gone ok small h =
      let joined = append_assoc t.messages (msg ∷ []) (handed es) in
      let queued : Talker = record t { messages = t.messages ++ msg ∷ [] } in
      rw (sends-step msg t) (
        subst (λ all. Spoken dumps gone all (addresses t.connections) (talker_run dumps es queued))
          joined (talker_run-Spoken es queued gone ok.1 (subst (All IsSmall) (sym joined) small) h))
  talker_run-Spoken (stops ∷ es) t gone ok small h =
      rw (stops-step t) (talker_run-Spoken es (record t { stop_event = true }) gone ok.1 small h)
  talker_run-Spoken (rounds network ∷ es) t gone ok small h = elim (Bool-cases t.stop_event) [
    | inl e ↦ rw (round-quiet network t (inl e)) (talker_run-Spoken es t gone ok.1 small h)
    | inr e ↦ elim (List-cases t.messages) [
      | inl e' ↦ rw (round-quiet network t (inr e')) (talker_run-Spoken es t gone ok.1 small h)
      | inr (msg, queue, e') ↦
          (let small' = subst (λ l. All IsSmall (l ++ handed es)) e' small in
            let (sent, carried, same) =
              send_each-Carries network (dumps msg) (stream_of (map dumps gone)) t.connections ok.0
                small'.0 h in
            let t' = stepped network queue msg t in
            let later =
              talker_run-Spoken es t' (gone ++ msg ∷ []) ok.1 small'.1
                (subst (λ l. Carries l t'.connections) (one_longer gone msg) carried) in
            rw (round-sends network t msg queue e e' sent) (
              subst
                (λ q.
                  Spoken dumps gone (q ++ handed es) (addresses t.connections)
                    (talker_run dumps es t'))
                (sym e')
                (one_more gone (queue ++ handed es) msg (addresses t.connections) _ (
                  subst
                    (λ peers.
                      Spoken dumps (gone ++ msg ∷ []) (queue ++ handed es) peers
                        (talker_run dumps es t'))
                    same later))))
    ]
  ]
