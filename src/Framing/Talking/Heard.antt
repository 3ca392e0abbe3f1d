-- ===== src/Framing/Talking/Heard.antt =====
-- What the listeners hear of the talker of src/raft/berkeley_socket_interface.py, against the messages
-- that the node has handed over.
use mathlib.Core.Path.{subst}
use cs525_project.Common.{
  ℕ, suc, ◌<◌, ◌≤◌, ◌≡◌, refl, sym, ◌∙◌, ap, String, Option, none, some, List, [], ◌∷◌, ◌++◌,
  length, take, map, All, arith,
}
use cs525_project.Json.{Fields}
use cs525_project.Framing.{handle_socket, stream_of, handle_socket-stream}
use cs525_project.Framing.Payload.{heard, put_all, put_all-dumps}
use cs525_project.Framing.Talking.{
  Connection, Talker, accept_all, talker_start, TalkerEvent, talker_run,
}
use cs525_project.Framing.Talking.Sending.{
  handed, Reaches, fresh, accept_all-take, Carries, addresses, IsSmall, talker_run-Spoken,
}

All-left : (P : Fields → Type 0) (xs ys : List Fields) → All P (xs ++ ys) → All P xs
All-left P [] ys h = tt
All-left P (x ∷ xs) ys h = (h.0, All-left P xs ys h.1)

All-map :
    (P Q : Fields → Type 0) (xs : List Fields) → ((x : Fields) → P x → Q x) → All P xs → All Q xs
All-map P Q [] f h = tt
All-map P Q (x ∷ xs) f h = (f x h.0, All-map P Q xs f h.1)

fresh-Carries : (arriving : List String) → Carries [] (map fresh arriving)
fresh-Carries [] = tt
fresh-Carries (a ∷ rest) = (refl, fresh-Carries rest)

fresh-addresses : (arriving : List String) → addresses (map fresh arriving) ≡ arriving
fresh-addresses [] = refl
fresh-addresses (a ∷ rest) = ap (λ l. a ∷ l) (fresh-addresses rest)

module _ (loads : List ℕ → Option Fields) (dumps : Fields → List ℕ) where
  -- A message whose text is short, and parses to the message.
  abbrev pub IsSound : Fields → Type 0
  IsSound msg = (loads (dumps msg) ≡ some msg) × (length (dumps msg) < 65_536)

  started :
      (arriving : List String) (t : Talker)
      → accept_all (length t.address_list) arriving []
        ≡ some (map fresh (take (length t.address_list) arriving))
      → talker_start arriving t
        ≡ some (record t { connections = map fresh (take (length t.address_list) arriving) })
  unfolding talker_start
  started arriving t e = rw e

  heard-stream :
      (out : List Fields) (cs : List Connection)
      → All IsSound out
      → Carries (stream_of (map dumps out)) cs
      → All (λ c. heard loads (length out) c.stream ≡ out) cs
  heard-stream out [] sound h = tt
  heard-stream out (c ∷ cs) sound h = (carried, heard-stream out cs sound h.1)
    where
      enough : (l : List Fields) → length (map dumps l) ≡ length l
      enough [] = refl
      enough (x ∷ l) = ap suc (enough l)

      carried : heard loads (length out) c.stream ≡ out
      carried =
          unfold heard in
          (ap (λ s. put_all loads (handle_socket (length out) s)) h.0
            ∙ ap (put_all loads)
                (handle_socket-stream (map dumps out) (length out) (omega (arith, enough out)))
            ∙ put_all-dumps loads dumps out
                (All-map IsSound (λ msg. loads (dumps msg) ≡ some msg) out (λ x p. p.0) sound))

  -- A talker that gets a connection from as many listeners as its list has, in runs in which no `send`
  -- fails, with messages whose texts have fewer than 65536 bytes and parse to them: it takes the first
  -- connections that come, raises nothing in the rounds of its loop, and every one of the listeners, in as
  -- many rounds of its own loop, hears the same messages, which are those that the node has handed over,
  -- in their order and each once, up to those that are still in the queue.
  pub talker_run-heard :
      (arriving : List String) (es : List TalkerEvent) (t : Talker)
      → length t.address_list ≤ length arriving
      → All Reaches es
      → All IsSound (t.messages ++ handed es)
      → (begun end : Talker) × (out : List Fields) × (talker_start arriving t ≡ some begun)
        × (talker_run dumps es begun ≡ (end, none))
        × (addresses end.connections ≡ take (length t.address_list) arriving)
        × All (λ c. heard loads (length out) c.stream ≡ out) end.connections
        × (out ++ end.messages ≡ t.messages ++ handed es)
  talker_run-heard arriving es t many ok sound =
      let peers = take (length t.address_list) arriving in
      let begun : Talker = record t { connections = map fresh peers } in
      let accepted =
        accept_all-take (length t.address_list) arriving [] (length t.address_list) (omega arith)
          many in
      let s =
        talker_run-Spoken dumps es begun [] ok
          (All-map IsSound (IsSmall dumps) (t.messages ++ handed es) (λ x p. p.1) sound)
          (fresh-Carries peers) in
      (
        begun,
        (talker_run dumps es begun).0,
        s.out,
        started arriving t accepted,
        ap (λ f. ((talker_run dumps es begun).0, f)) s.no_fault,
        s.same ∙ fresh-addresses peers,
        heard-stream s.out (talker_run dumps es begun).0.connections
            (All-left IsSound s.out (talker_run dumps es begun).0.messages
              (subst (All IsSound) (sym s.rest) sound))
            s.carried,
        s.rest,
      )
