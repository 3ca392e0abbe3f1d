-- ===== src/Protocol/Wire.antt =====
-- src/raft/protocol.py: `jsonify` and `un_jsonify` of each class, and `parse_json_message`.
-- `un_jsonify` raises KeyError on a missing key. Python stores a value of another type as it is and
-- raises TypeError when the node computes with it; here the reading itself raises it.
use cs525_project.Common.{
  ℕ, String, Bool, Option, none, some, ℤ, pos, ◌==◌, if◌then◌else◌, Result, ok, err, not_modelled,
  ◌>>=◌,
}
use cs525_project.Json.{
  Value, null, bool, num, str, arr, obj, Fields, end, field, get, update, or_null, nat,
}
use cs525_project.Protocol.{
  Entry, Results, votes, appends, default_votes, default_appends, BaseMessage, Message,
  request_votes_message, append_entries_message,
}
use cs525_project.Protocol.MessageType

-- A log entry is a dict already.
abbrev pub entry_dict : Entry → Value
entry_dict e = obj (field "term" (nat e.term) (field "entry" e.entry (field "id" (num e.id) end)))

abbrev pub jsonify_results : Results → Value
jsonify_results (votes r) =
    obj (field "term" (or_null nat r.term) (field "vote_granted" (or_null bool r.vote_granted) end))
jsonify_results (appends r) =
    obj (field "term" (or_null nat r.term) (field "success" (or_null bool r.success) end))

abbrev pub jsonify_base : BaseMessage → Fields
jsonify_base m = field "type" (nat m.type_) (
    field "term" (nat m.term) (
      field "timestamp" (nat m.timestamp) (
        field "sender" (str m.sender) (
          field "receiver" (or_null str m.receiver) (
            field "direction" (nat m.direction)
              (field "results" (jsonify_results m.results) end))))))

unfoldable pub jsonify : Message → Fields
unfolding update
jsonify (request_votes_message m) = update (jsonify_base m.base) (
    field "candidate_id" (str m.candidate_id) (
      field "last_log_index" (nat m.last_log_index)
        (field "last_log_term" (nat m.last_log_term) end)))
jsonify (append_entries_message m) = update (jsonify_base m.base) (
    field "leader_id" (or_null str m.leader_id) (
      field "prev_log_index" (or_null nat m.prev_log_index) (
        field "prev_log_term" (or_null nat m.prev_log_term) (
          field "entries" (or_null entry_dict m.entries)
            (field "leader_commit" (nat m.leader_commit) end)))))

-- The readings of one value.
abbrev pub as_nat : Value → Result ℕ
as_nat (num (pos n)) = ok n
as_nat _ = err not_modelled

abbrev pub as_int : Value → Result ℤ
as_int (num n) = ok n
as_int _ = err not_modelled

abbrev pub as_str : Value → Result String
as_str (str s) = ok s
as_str _ = err not_modelled

abbrev pub as_bool : Value → Result Bool
as_bool (bool b) = ok b
as_bool _ = err not_modelled

abbrev pub as_dict : Value → Result Fields
as_dict (obj d) = ok d
as_dict _ = err not_modelled

-- A value that may be None.
abbrev pub as_option {ℓ} : {A : Type ℓ} → (Value → Result A) → Value → Result (Option A)
as_option f null = ok none
as_option f (bool b) = f (bool b) >>= λ a. ok (some a)
as_option f (num n) = f (num n) >>= λ a. ok (some a)
as_option f (str s) = f (str s) >>= λ a. ok (some a)
as_option f (arr xs) = f (arr xs) >>= λ a. ok (some a)
as_option f (obj d) = f (obj d) >>= λ a. ok (some a)

abbrev pub as_entry : Value → Result Entry
as_entry v = do
  d ← as_dict v
  term ← as_nat (← get "term" d)
  value ← get "entry" d
  id ← as_int (← get "id" d)
  ok (record { term = term; entry = value; id = id })

-- The constructor of the results, which takes None for a message that is not given.
unfoldable pub un_jsonify_votes : Value → Result Results
un_jsonify_votes null = ok default_votes
un_jsonify_votes v = do
  d ← as_dict v
  term ← as_option as_nat (← get "term" d)
  granted ← as_option as_bool (← get "vote_granted" d)
  ok (votes (record { term = term; vote_granted = granted }))

unfoldable pub un_jsonify_appends : Value → Result Results
un_jsonify_appends null = ok default_appends
un_jsonify_appends v = do
  d ← as_dict v
  term ← as_option as_nat (← get "term" d)
  success ← as_option as_bool (← get "success" d)
  ok (appends (record { term = term; success = success }))

unfoldable pub un_jsonify_base : Fields → Result BaseMessage
unfolding un_jsonify_votes un_jsonify_appends
un_jsonify_base d = do
  type_ ← as_nat (← get "type" d)
  term ← as_nat (← get "term" d)
  timestamp ← as_nat (← get "timestamp" d)
  sender ← as_str (← get "sender" d)
  receiver ← as_option as_str (← get "receiver" d)
  direction ← as_nat (← get "direction" d)
  found ← get "results" d
  results ←
      (if type_ == MessageType.request_votes
        then un_jsonify_votes found
        else un_jsonify_appends found)
  ok (record {
    timestamp = timestamp;
    type_ = type_;
    term = term;
    sender = sender;
    receiver = receiver;
    direction = direction;
    results = results;
  })

unfoldable pub un_jsonify_request_votes : Fields → Result Message
un_jsonify_request_votes d = do
  base ← un_jsonify_base d
  candidate_id ← as_str (← get "candidate_id" d)
  last_log_index ← as_nat (← get "last_log_index" d)
  last_log_term ← as_nat (← get "last_log_term" d)
  ok (
      request_votes_message (record {
        base = base;
        candidate_id = candidate_id;
        last_log_index = last_log_index;
        last_log_term = last_log_term;
      }))

unfoldable pub un_jsonify_append_entries : Fields → Result Message
un_jsonify_append_entries d = do
  base ← un_jsonify_base d
  leader_id ← as_option as_str (← get "leader_id" d)
  prev_log_index ← as_option as_nat (← get "prev_log_index" d)
  prev_log_term ← as_option as_nat (← get "prev_log_term" d)
  entries ← as_option as_entry (← get "entries" d)
  leader_commit ← as_nat (← get "leader_commit" d)
  ok (
      append_entries_message (record {
        base = base;
        leader_id = leader_id;
        prev_log_index = prev_log_index;
        prev_log_term = prev_log_term;
        entries = entries;
        leader_commit = leader_commit;
      }))

-- None stays None.
unfoldable pub parse_json_message : Option Fields → Result (Option Message)
parse_json_message none = ok none
parse_json_message (some d) = do
  type_ ← as_nat (← get "type" d)
  message ←
      (if type_ == MessageType.request_votes
        then un_jsonify_request_votes d
        else un_jsonify_append_entries d)
  ok (some message)
