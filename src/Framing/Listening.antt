-- ===== src/Framing/Listening.antt =====
-- src/raft/berkeley_socket_interface.py: `Listener`, with a thread for each connection
-- (`handle_socket`) and one queue. A round of a thread on one connection, and a `get_message` of the
-- node, is one step, so that the threads interleave in any way.
pub mod Interleaved
use cs525_project.Common.{ℕ, Option, none, some, List, [], ◌∷◌, ◌++◌, get_elem?, set}
use cs525_project.Json.{Fields}
use cs525_project.Framing.{handle_frame}

-- `streams` holds the bytes that have arrived on each connection and were not read.
pub record Listener : Type 0 where
  pub streams : List (List ℕ)
  pub messages : List Fields

module _ (loads : List ℕ → Option Fields) where
  -- `self.messages.put(msg)`, if the text parses
  abbrev pub put : Option Fields → List Fields → List Fields
  put none messages = messages
  put (some msg) messages = messages ++ msg ∷ []

  -- What is done with a frame on the connection `i`; without one the thread waits.
  abbrev pub on_frame : ℕ → Option (List ℕ × List ℕ) → Listener → Listener
  on_frame i none l = l
  on_frame i (some (text, rest)) l = record {
    streams = set l.streams i rest;
    messages = put (loads text) l.messages;
  }

  abbrev pub on_stream : ℕ → Option (List ℕ) → Listener → Listener
  on_stream i none l = l
  on_stream i (some stream) l = on_frame i (handle_frame stream) l

  -- One round of the loop of `handle_socket`, in the thread of a connection.
  unfoldable pub socket_round : ℕ → Listener → Listener
  socket_round i l = on_stream i (get_elem? l.streams i) l

-- `Listener.get_message`
unfoldable pub get_message : Listener → Option Fields × Listener
get_message l = elim l.messages [
  | [] ↦ (none, l)
  | msg ∷ rest ↦ (some msg, record l { messages = rest })
]

pub data ListenerEvent : Type 0 where
  reads : ℕ → ListenerEvent
  gets : ListenerEvent

-- A message that the node got, before the others.
abbrev pub before : Option Fields → List Fields → List Fields
before none got = got
before (some msg) got = msg ∷ got

module _ (loads : List ℕ → Option Fields) where
  -- A run: what the node got, oldest first, and the listener.
  unfoldable pub listener_run : List ListenerEvent → Listener → List Fields × Listener
  listener_run [] l = ([], l)
  listener_run (reads i ∷ es) l = listener_run es (socket_round loads i l)
  listener_run (gets ∷ es) l =
      let (msg, l') = get_message l in let (got, end) = listener_run es l' in (before msg got, end)
