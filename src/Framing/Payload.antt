-- ===== src/Framing/Payload.antt =====
-- src/raft/berkeley_socket_interface.py: the messages that `Listener.handle_socket` puts into the queue.
-- `json.loads` and `json.dumps` are parameters: a text that is no JSON raises JSONDecodeError.
use cs525_project.Common.{
  ℕ, ◌≤◌, ◌<◌, ◌≡◌, refl, ◌∙◌, ap, Option, none, some, List, [], ◌∷◌, length, map, All,
}
use cs525_project.Json.{Fields}
use cs525_project.Framing.{send_all, handle_socket, handle_socket-send_all}

-- A message is put into the queue if it parses; an error is printed at most.
abbrev pub put_parsed : Option Fields → List Fields → List Fields
put_parsed none queue = queue
put_parsed (some msg) queue = msg ∷ queue

module _ (loads : List ℕ → Option Fields) where
  unfoldable pub put_all : List (List ℕ) → List Fields
  put_all [] = []
  put_all (text ∷ rest) = put_parsed (loads text) (put_all rest)

  -- `handle_socket`, for so many rounds of its loop: what it puts into the queue.
  unfoldable pub heard : ℕ → List ℕ → List Fields
  unfolding put_all
  heard rounds stream = put_all (handle_socket rounds stream)

  pub put_all-dumps :
      (dumps : Fields → List ℕ) (msgs : List Fields)
      → All (λ msg. loads (dumps msg) ≡ some msg) msgs
      → put_all (map dumps msgs) ≡ msgs
  unfolding put_all
  put_all-dumps dumps [] h = refl
  put_all-dumps dumps (msg ∷ rest) h = rw (h.0, put_all-dumps dumps rest h.1)

  -- When `loads` undoes `dumps` on some messages, and their texts have fewer than 65536 bytes: what the
  -- talker sends of them raises nothing, and in as many rounds as there are messages, or more, the
  -- listener puts the same messages into its queue, in their order.
  pub heard-send_all :
      (dumps : Fields → List ℕ) (msgs : List Fields) (rounds : ℕ)
      → All (λ msg. loads (dumps msg) ≡ some msg) msgs
      → All (λ text. length text < 65_536) (map dumps msgs)
      → length (map dumps msgs) ≤ rounds
      → (stream : List ℕ) × (send_all (map dumps msgs) ≡ some stream) × (heard rounds stream ≡ msgs)
  unfolding heard
  heard-send_all dumps msgs rounds undone small enough =
      let (stream, sent, got) = handle_socket-send_all (map dumps msgs) rounds small enough in
      (stream, sent, ap put_all got ∙ put_all-dumps dumps msgs undone)
