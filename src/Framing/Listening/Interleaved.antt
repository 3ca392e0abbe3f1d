-- ===== src/Framing/Listening/Interleaved.antt =====
-- The queue of the listener of src/raft/berkeley_socket_interface.py, against the messages on each
-- connection.
use mathlib.Core.List.{append_assoc, append-nil}
use cs525_project.Common.{
  ℕ, zero, suc, ◌≡◌, refl, sym, ◌∙◌, ap, Option, none, some, List, [], ◌∷◌, ◌++◌, get_elem?, set,
  map, All, All-get_elem?, All-set, List-cases, Option-cases, inl, inr,
}
use cs525_project.Json.{Fields}
use cs525_project.Framing.{handle_frame-frame, handle_frame-nil, stream_of}
use cs525_project.Framing.Listening.{
  Listener, socket_round, get_message, ListenerEvent, reads, gets, listener_run,
}

-- Messages that were taken, one at a time, from the fronts of some lists, and what the lists have left.
pub data Interleaves : List (List Fields) → List Fields → List (List Fields) → Type 0 where
  over : {parts : List (List Fields)} → Interleaves parts [] parts
  taken :
      {parts left : List (List Fields)} {whole rest : List Fields} (i : ℕ) (msg : Fields)
      → get_elem? parts i ≡ some (msg ∷ rest)
      → Interleaves (set parts i rest) whole left
      → Interleaves parts (msg ∷ whole) left

module _ (loads : List ℕ → Option Fields) (dumps : Fields → List ℕ) where
  -- The bytes of the messages on each connection.
  abbrev pub streams_of : List (List Fields) → List (List ℕ)
  streams_of = map (λ msgs. stream_of (map dumps msgs))

  abbrev pub IsUndone : Fields → Type 0
  IsUndone msg = loads (dumps msg) ≡ some msg

  streams-get :
      (parts : List (List Fields)) (i : ℕ)
      → get_elem? parts i ≡ none
      → get_elem? (streams_of parts) i ≡ none
  streams-get [] i e = refl
  streams-get (p ∷ parts) zero e = cc
  streams-get (p ∷ parts) (suc i) e = streams-get parts i e

  streams-get_some :
      (parts : List (List Fields)) (i : ℕ) (msgs : List Fields)
      → get_elem? parts i ≡ some msgs
      → get_elem? (streams_of parts) i ≡ some (stream_of (map dumps msgs))
  streams-get_some [] i msgs e = cc
  streams-get_some (p ∷ parts) zero msgs e = cc
  streams-get_some (p ∷ parts) (suc i) msgs e = streams-get_some parts i msgs e

  streams-set :
      (parts : List (List Fields)) (i : ℕ) (msgs : List Fields)
      → set (streams_of parts) i (stream_of (map dumps msgs)) ≡ streams_of (set parts i msgs)
  streams-set [] i msgs = refl
  streams-set (p ∷ parts) zero msgs = refl
  streams-set (p ∷ parts) (suc i) msgs =
      ap (λ l. stream_of (map dumps p) ∷ l) (streams-set parts i msgs)

  -- A thread whose connection is not there, or has no frame, waits.
  round-waits :
      (parts : List (List Fields)) (i : ℕ) (queue : List Fields)
      → get_elem? parts i ≡ none
      → socket_round loads i (record { streams = streams_of parts; messages = queue })
        ≡ record { streams = streams_of parts; messages = queue }
  unfolding socket_round
  round-waits parts i queue e = rw (streams-get parts i e)

  round-empty :
      (parts : List (List Fields)) (i : ℕ) (queue : List Fields)
      → get_elem? parts i ≡ some []
      → socket_round loads i (record { streams = streams_of parts; messages = queue })
        ≡ record { streams = streams_of parts; messages = queue }
  unfolding socket_round
  round-empty parts i queue e = rw (streams-get_some parts i [] e, handle_frame-nil)

  round-reads :
      (parts : List (List Fields)) (i : ℕ) (queue rest : List Fields) (msg : Fields)
      → get_elem? parts i ≡ some (msg ∷ rest)
      → IsUndone msg
      → socket_round loads i (record { streams = streams_of parts; messages = queue })
        ≡ record { streams = streams_of (set parts i rest); messages = queue ++ msg ∷ [] }
  unfolding socket_round
  round-reads parts i queue rest msg e undone = rw (
    streams-get_some parts i (msg ∷ rest) e,
    handle_frame-frame (dumps msg) (stream_of (map dumps rest)),
    undone,
    streams-set parts i rest,
  )

  -- What a run does with the messages on the connections and in the queue.
  pub record Delivers (parts : List (List Fields)) (queue : List Fields)
      (r : List Fields × Listener) : Type 0 where
    pub new : List Fields
    pub left : List (List Fields)
    pub interleaved : Interleaves parts new left
    pub delivered : r.0 ++ r.1.messages ≡ queue ++ new
    pub unread : r.1.streams ≡ streams_of left

  AllUndone-set :
      (parts : List (List Fields)) (i : ℕ) (msg : Fields) (rest : List Fields)
      → All (All IsUndone) parts
      → get_elem? parts i ≡ some (msg ∷ rest)
      → IsUndone msg × All (All IsUndone) (set parts i rest)
  AllUndone-set parts i msg rest h e =
      let here = All-get_elem? (All IsUndone) parts i (msg ∷ rest) h e in
      (here.0, All-set (All IsUndone) parts i rest h here.1)

  one_more :
      (parts : List (List Fields)) (i : ℕ) (msg : Fields) (rest queue : List Fields)
      (r : List Fields × Listener)
      → get_elem? parts i ≡ some (msg ∷ rest)
      → Delivers (set parts i rest) (queue ++ msg ∷ []) r
      → Delivers parts queue r
  one_more parts i msg rest queue r e d = record {
    new = msg ∷ d.new;
    left = d.left;
    interleaved = taken i msg e d.interleaved;
    delivered = d.delivered ∙ append_assoc queue (msg ∷ []) d.new;
    unread = d.unread;
  }

  got_one :
      (parts : List (List Fields)) (msg : Fields) (queue : List Fields) (r : List Fields × Listener)
      → Delivers parts queue r
      → Delivers parts (msg ∷ queue) (msg ∷ r.0, r.1)
  got_one parts msg queue r d = record {
    new = d.new;
    left = d.left;
    interleaved = d.interleaved;
    delivered = ap (λ l. msg ∷ l) d.delivered;
    unread = d.unread;
  }

  -- In any run of the listener, in which its threads read frames and the node gets messages in any
  -- order, from connections that carry messages whose texts parse to them: what the node got, and then
  -- what is left in the queue, is what was in the queue, and then messages that were taken one by one
  -- from the fronts of the connections; so those of one connection keep their order, and none of them is
  -- lost or repeated, since what is left to read on each connection is the frames of its other messages.
  pub listener_run-Delivers :
      (es : List ListenerEvent) (parts : List (List Fields)) (queue : List Fields)
      → All (All IsUndone) parts
      → Delivers parts queue
          (listener_run loads es (record { streams = streams_of parts; messages = queue }))
  unfolding listener_run get_message
  listener_run-Delivers [] parts queue h = record {
    new = [];
    left = parts;
    interleaved = over;
    delivered = sym (append-nil queue);
    unread = refl;
  }
  listener_run-Delivers (gets ∷ es) parts [] h = listener_run-Delivers es parts [] h
  listener_run-Delivers (gets ∷ es) parts (msg ∷ queue) h =
      got_one parts msg queue _ (listener_run-Delivers es parts queue h)
  listener_run-Delivers (reads i ∷ es) parts queue h = elim (Option-cases (get_elem? parts i)) [
    | inl e ↦ rw (round-waits parts i queue e) (listener_run-Delivers es parts queue h)
    | inr (msgs, e) ↦ elim (List-cases msgs) [
      | inl none_left ↦
          rw (round-empty parts i queue (e ∙ ap some none_left))
            (listener_run-Delivers es parts queue h)
      | inr (msg, rest, is) ↦
          (let found = e ∙ ap some is in
            let (undone, h') = AllUndone-set parts i msg rest h found in
            rw (round-reads parts i queue rest msg found undone) (
              one_more parts i msg rest queue _ found
                (listener_run-Delivers es (set parts i rest) (queue ++ msg ∷ []) h')))
    ]
  ]
