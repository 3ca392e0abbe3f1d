-- ===== src/Framing/Talking.antt =====
-- src/raft/berkeley_socket_interface.py: `Talker`, with a connection to each listener. `json.dumps` and
-- what the network does to a `send` are parameters; a `send` that succeeds takes all the bytes. The set
-- of the connections is a list here, in the order in which they were accepted.
pub mod Sending
pub mod Heard
use cs525_project.Common.{
  ℕ, ◌<◌, ◌≤◌, String, Bool, true, false, Option, none, some, List, [], ◌∷◌, ◌++◌, length, ltb,
  if◌then◌else◌,
}
use mathlib.Core.Option
use cs525_project.Json.{Fields}
use cs525_project.Framing.{frame}
use cs525_project.Framing.Connect.{Attempt, success, os_error}

-- What ends the process: a text of more than two bytes' length, or an error of a connection.
pub data Fault : Type 0 where
  overflow_error : Fault
  send_error : ℕ → Fault

-- A connection to a listener, and the bytes that were sent on it.
pub record Connection : Type 0 where
  pub address : String
  pub stream : List ℕ

pub record Talker : Type 0 where
  pub address_list : List String
  pub messages : List Fields
  pub connections : List Connection
  pub stop_event : Bool

-- `while len(connections) < len(self.address_list)`, on the addresses that connect, in their order;
-- none if it waits for more.
unfoldable pub accept_all : ℕ → List String → List Connection → Option (List Connection)
accept_all wanted [] connections =
    if ltb (length connections) wanted then none else some connections
accept_all wanted (a ∷ rest) connections =
    let more = accept_all wanted rest (connections ++ (record { address = a; stream = [] }) ∷ []) in
    if ltb (length connections) wanted then more else some connections

-- What comes before the loop of `run`.
unfoldable pub talker_start : List String → Talker → Option Talker
unfolding accept_all
talker_start arriving t =
    Option.map (λ connections. record t { connections = connections })
      (accept_all (length t.address_list) arriving [])

abbrev pub send_on :
    Attempt
    → List ℕ
    → Connection
    → List Connection × Option Fault
    → List Connection
    → List Connection × Option Fault
send_on success bytes c others cs = (record c { stream = c.stream ++ bytes } ∷ others.0, others.1)
send_on (os_error errno) bytes c others cs = (c ∷ cs, some (send_error errno))

-- The loop over the connections, for the text of a message.
unfoldable pub send_each :
    (String → Attempt) → List ℕ → List Connection → List Connection × Option Fault
send_each network text [] = ([], none)
send_each network text (c ∷ cs) =
    let others = send_each network text cs in
    elim (frame text) [
      | none ↦ (c ∷ cs, some overflow_error)
      | some bytes ↦ send_on (network c.address) bytes c others cs
    ]

module _ (dumps : Fields → List ℕ) where
  -- One round of the loop, while the network treats the connections in this way.
  abbrev pub talk : (String → Attempt) → List Fields → Talker → Talker × Option Fault
  talk network [] t = (t, none)
  talk network (msg ∷ rest) t =
      let (connections, fault) = send_each network (dumps msg) t.connections in
      (record t { messages = rest; connections = connections }, fault)

  unfoldable pub talker_round : (String → Attempt) → Talker → Talker × Option Fault
  talker_round network t = if t.stop_event then (t, none) else talk network t.messages t

-- The node hands over a message or stops the talker, or the process makes a round.
pub data TalkerEvent : Type 0 where
  sends : Fields → TalkerEvent
  rounds : (String → Attempt) → TalkerEvent
  stops : TalkerEvent

module _ (dumps : Fields → List ℕ) where
  unfoldable pub talker_step : TalkerEvent → Talker → Talker × Option Fault
  talker_step (sends msg) t = (record t { messages = t.messages ++ msg ∷ [] }, none)
  talker_step (rounds network) t = talker_round dumps network t
  talker_step stops t = (record t { stop_event = true }, none)

  abbrev pub unless_fault :
      Talker × Option Fault → (Talker → Talker × Option Fault) → Talker × Option Fault
  unless_fault (t, none) rest = rest t
  unless_fault (t, some fault) rest = (t, some fault)

  -- A run of the talker, up to the exception that ends its process.
  unfoldable pub talker_run : List TalkerEvent → Talker → Talker × Option Fault
  talker_run [] t = (t, none)
  talker_run (e ∷ es) t = unless_fault (talker_step e t) (talker_run es)
