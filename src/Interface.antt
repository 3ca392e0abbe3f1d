-- ===== src/Interface.antt =====
-- src/raft/interface.py: the two processes between a node and the sockets. Their queues carry the
-- dicts of messages; sockets, the poller and the pauses are not modelled.
pub mod Queues
use cs525_project.Common.{
  String, Bool, true, false, Option, none, some, List, [], ◌∷◌, ◌++◌, Result, ok, str_eq,
  if◌then◌else◌, ◌>>=◌,
}
use cs525_project.Json.{Value, null, str, Fields, get}

pub record Talker : Type 0 where
  pub address : String
  pub messages : List Fields
  pub stop_event : Bool

-- `Talker.send_message`
unfoldable pub send_message : Fields → Talker → Talker
send_message msg t = record t { messages = t.messages ++ msg ∷ [] }

-- One round of the loop of `Talker.run`: the oldest message goes to the socket, which publishes
-- it to every listener.
unfoldable pub talker_round : Talker → Option Fields × Talker
talker_round t =
    if t.stop_event
    then (none, t)
    else elim t.messages [ [] ↦ (none, t) | msg ∷ rest ↦ (some msg, record t { messages = rest }) ]

pub record Listener : Type 0 where
  pub address_list : List String
  pub my_id : String
  pub messages : List Fields

-- The receiver of a message is this node or None.
abbrev pub is_for : String → Value → Bool
is_for my_id null = true
is_for my_id (str a) = str_eq a my_id
is_for my_id _ = false

-- One message from the socket in the loop of `Listener.run`.
unfoldable pub listener_receive : Fields → Listener → Result Listener
listener_receive msg l = do
  receiver ← get "receiver" msg
  ok (if is_for l.my_id receiver then record l { messages = l.messages ++ msg ∷ [] } else l)

-- `Listener.get_message`: the oldest message, or None.
unfoldable pub get_message : Listener → Option Fields × Listener
get_message l = elim l.messages [
  | [] ↦ (none, l)
  | msg ∷ rest ↦ (some msg, record l { messages = rest })
]

-- `Talker.stop`
unfoldable pub talker_stop : Talker → Talker
talker_stop t = record t { stop_event = true }

-- What a talker does: the node hands it a message, or its process makes a round.
pub data TalkerEvent : Type 0 where
  sends : Fields → TalkerEvent
  rounds : TalkerEvent

-- What a round has published before the rest.
abbrev pub publish : Option Fields → List Fields → List Fields
publish none rest = rest
publish (some msg) rest = msg ∷ rest

-- The messages that a talker publishes, and the talker after the events.
unfoldable pub talker_run : List TalkerEvent → Talker → List Fields × Talker
unfolding send_message talker_round
talker_run [] t = ([], t)
talker_run (sends msg ∷ rest) t = talker_run rest (send_message msg t)
talker_run (rounds ∷ rest) t =
    let (out, t') = talker_round t in
    let (more, last) = talker_run rest t' in (publish out more, last)

-- What a listener does: a message comes from the socket, or the node asks for one.
pub data ListenerEvent : Type 0 where
  receives : Fields → ListenerEvent
  gets : ListenerEvent

-- The messages that the node gets, and the listener after the events; a message without a receiver
-- raises KeyError and ends the process.
unfoldable pub listener_run : List ListenerEvent → Listener → Result (List Fields × Listener)
unfolding get_message
listener_run [] l = ok ([], l)
listener_run (receives msg ∷ rest) l = listener_receive msg l >>= listener_run rest
listener_run (gets ∷ rest) l =
    let (out, l') = get_message l in listener_run rest l' >>= λ p. ok (publish out p.0, p.1)
