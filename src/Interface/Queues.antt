-- ===== src/Interface/Queues.antt =====
-- The two queues of src/raft/interface.py, against what was handed over and what came from the socket.
use mathlib.Core.Path.{subst}
use mathlib.Core.List.{append_assoc, append-nil}
use cs525_project.Common.{
  ◌≡◌, refl, ◌∙◌, sym, ap, String, Bool, true, false, Option, none, some, List, [], ◌∷◌, ◌++◌,
  Result, ok, err, List-cases, inl, inr, if◌then◌else◌, ◌>>=◌,
}
use cs525_project.Json.{Fields, Value, get}
use cs525_project.Interface.{
  Talker, send_message, talker_round, TalkerEvent, sends, rounds, publish, talker_run, Listener,
  is_for, listener_receive, get_message, ListenerEvent, receives, gets, listener_run,
}

-- The messages that the node has handed to the talker.
abbrev pub handed : List TalkerEvent → List Fields
handed [] = []
handed (sends msg ∷ rest) = msg ∷ handed rest
handed (rounds ∷ rest) = handed rest

-- A round moves the oldest message out of the queue, or does nothing.
round_moves : (t : Talker) → publish (talker_round t).0 (talker_round t).1.messages ≡ t.messages
unfolding talker_round
round_moves t = moves t.stop_event t.messages refl
  where
    moves :
        (stopped : Bool) (queue : List Fields)
        → t.messages ≡ queue
        → (let r : Option Fields × Talker = if stopped then (none, t) else elim queue [
          | [] ↦ (none, t)
          | msg ∷ rest ↦ (some msg, record t { messages = rest })
        ] in
            publish r.0 r.1.messages ≡ t.messages)
    moves true queue e = refl
    moves false [] e = refl
    moves false (msg ∷ rest) e = sym e

publish-append :
    (out : Option Fields) (more queue : List Fields)
    → publish out more ++ queue ≡ publish out (more ++ queue)
publish-append none more queue = refl
publish-append (some msg) more queue = refl

-- Whatever the node hands over and however the rounds of the process come between, what the talker has
-- published, and then what is left in its queue, is what was in the queue and then what was handed
-- over: the queue is first in, first out, and nothing is lost, repeated or made up.
pub talker_run-handed :
    (es : List TalkerEvent) (t : Talker)
    → (talker_run es t).0 ++ (talker_run es t).1.messages ≡ t.messages ++ handed es
unfolding talker_run
talker_run-handed [] t = sym (append-nil t.messages)
talker_run-handed (sends msg ∷ rest) t =
    talker_run-handed rest (send_message msg t) ∙ sent msg t (handed rest)
  where
    sent :
        (msg : Fields) (t : Talker) (more : List Fields)
        → (send_message msg t).messages ++ more ≡ t.messages ++ msg ∷ more
    sent msg t more = unfold send_message in append_assoc t.messages (msg ∷ []) more
talker_run-handed (rounds ∷ rest) t =
    let (out, t') = talker_round t in
    publish-append out _ _
    ∙ ap (λ l. publish out l) (talker_run-handed rest t')
    ∙ sym (publish-append out t'.messages (handed rest))
    ∙ ap (λ l. l ++ handed rest) (round_moves t)

-- A message, if its receiver is this node or None, before the others.
abbrev addressed_one : String → Result Value → Fields → List Fields → List Fields
addressed_one my_id (err e) msg others = others
addressed_one my_id (ok receiver) msg others =
    if is_for my_id receiver then msg ∷ others else others

-- The messages that come from the socket and are for this node.
abbrev pub addressed : String → List ListenerEvent → List Fields
addressed my_id [] = []
addressed my_id (gets ∷ rest) = addressed my_id rest
addressed my_id (receives msg ∷ rest) =
    addressed_one my_id (get "receiver" msg) msg (addressed my_id rest)

-- Every message from the socket has a receiver, which may be None.
abbrev pub HasReceivers : List ListenerEvent → Type 0
HasReceivers [] = Unit
HasReceivers (gets ∷ rest) = HasReceivers rest
HasReceivers (receives msg ∷ rest) = ((v : Value) × (get "receiver" msg ≡ ok v)) × HasReceivers rest

-- The node gets the oldest message that is left, or none.
message_moves : (l : Listener) → publish (get_message l).0 (get_message l).1.messages ≡ l.messages
unfolding get_message
message_moves l = elim (List-cases l.messages) [ inl e ↦ rw e | inr (msg, rest, e) ↦ rw e ]

get_message-my_id : (l : Listener) → (get_message l).1.my_id ≡ l.my_id
unfolding get_message
get_message-my_id l = elim (List-cases l.messages) [ inl e ↦ rw e | inr (msg, rest, e) ↦ rw e ]

-- The process has not ended, and what the node got and what is left are these messages.
abbrev pub Holds : List Fields → Result (List Fields × Listener) → Type 0
Holds all (ok p) = p.0 ++ p.1.messages ≡ all
Holds all (err e) = ⊥

got :
    (all : List Fields) (out : Option Fields) (r : Result (List Fields × Listener))
    → Holds all r
    → Holds (publish out all) (r >>= λ p. ok (publish out p.0, p.1))
got all out (err e) h = absurd h
got all out (ok p) h = publish-append out p.0 p.1.messages ∙ ap (λ l. publish out l) h

module _ (msg : Fields) (l : Listener) (rest : List ListenerEvent)
    (later : (l' : Listener)
      → Holds (l'.messages ++ addressed l'.my_id rest) (listener_run rest l')) where
  kept :
      (mine : Bool)
      → Holds
          (l.messages ++ (if mine then msg ∷ addressed l.my_id rest else addressed l.my_id rest))
          (listener_run rest (if mine then record l { messages = l.messages ++ msg ∷ [] } else l))
  kept true =
      let l' = record l { messages = l.messages ++ msg ∷ [] } in
      subst (λ all. Holds all (listener_run rest l'))
        (append_assoc l.messages (msg ∷ []) (addressed l.my_id rest)) (later l')
  kept false = later l

  stores :
      (r : Result Value)
      → (v : Value) × (r ≡ ok v)
      → Holds (l.messages ++ addressed_one l.my_id r msg (addressed l.my_id rest)) (
          (do
            receiver ← r
            ok (
                if is_for l.my_id receiver
                then record l { messages = l.messages ++ msg ∷ [] }
                else l))
          >>= listener_run rest)
  stores (err e) (v, named) = cc
  stores (ok receiver) named = kept (is_for l.my_id receiver)

  received :
      (v : Value) × (get "receiver" msg ≡ ok v)
      → Holds
          (l.messages ++ addressed l.my_id (receives msg ∷ rest))
          (listener_receive msg l >>= listener_run rest)
  unfolding listener_receive
  received named = stores (get "receiver" msg) named

-- While every message from the socket has a receiver, which may be None, the process of the listener
-- does not end with an exception, and what the node got from it, and then what is left in the queue, is
-- what was in the queue and then, in the order of their arrival, those messages from the socket whose
-- receiver is this node or None.
pub listener_run-addressed :
    (es : List ListenerEvent) (l : Listener)
    → HasReceivers es
    → Holds (l.messages ++ addressed l.my_id es) (listener_run es l)
unfolding listener_run
listener_run-addressed [] l h = sym (append-nil l.messages)
listener_run-addressed (gets ∷ rest) l h =
    let (out, l') = get_message l in
    let whole : publish out (l'.messages ++ addressed l'.my_id rest)
        ≡ l.messages ++ addressed l.my_id rest =
      sym (publish-append out l'.messages (addressed l'.my_id rest))
      ∙ ap (λ q. q ++ addressed l'.my_id rest) (message_moves l)
      ∙ ap (λ a. l.messages ++ addressed a rest) (get_message-my_id l) in
    subst (λ all. Holds all (listener_run (gets ∷ rest) l)) whole
      (got (l'.messages ++ addressed l'.my_id rest) out (listener_run rest l')
        (listener_run-addressed rest l' h))
listener_run-addressed (receives msg ∷ rest) l h =
    received msg l rest (λ l'. listener_run-addressed rest l' h.1) h.0
