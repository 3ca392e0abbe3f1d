-- ===== src/Protocol/RoundTrip.antt =====
-- A message that goes through JSON comes back as it was.
use cs525_project.Common.{
  ℕ, String, Bool, if◌then◌else◌, ◌≡◌, ◌≢◌, refl, Option, none, some, ◌==◌, arith, ok,
}
use cs525_project.Json.{Fields, get, update, or_null, nat, str, bool}
use cs525_project.Protocol.{
  Entry, votes, appends, RequestVotesResults, AppendEntriesResults, BaseMessage,
  RequestVotesMessage, AppendEntriesMessage, Message, request_votes_message, append_entries_message,
}
use cs525_project.Protocol.MessageType
use cs525_project.Protocol.Wire.{
  jsonify, parse_json_message, as_option, as_nat, as_str, as_bool, as_entry, entry_dict,
  jsonify_results, jsonify_base, un_jsonify_votes, un_jsonify_appends, un_jsonify_base,
  un_jsonify_request_votes, un_jsonify_append_entries,
}

-- The classes of a message and of its results go with its type, as parsing restores them.
abbrev pub IsWellTyped : Message → Type 0
IsWellTyped (request_votes_message m) =
    (m.type_ ≡ MessageType.request_votes) × (r : _) × (m.results ≡ votes r)
IsWellTyped (append_entries_message m) =
    (m.type_ ≢ MessageType.request_votes) × (r : _) × (m.results ≡ appends r)

as_option-nat : (o : Option ℕ) → as_option as_nat (or_null nat o) ≡ ok o
as_option-nat none = refl
as_option-nat (some n) = refl

as_option-str : (o : Option String) → as_option as_str (or_null str o) ≡ ok o
as_option-str none = refl
as_option-str (some s) = refl

as_option-bool : (o : Option Bool) → as_option as_bool (or_null bool o) ≡ ok o
as_option-bool none = refl
as_option-bool (some b) = refl

as_option-entry : (o : Option Entry) → as_option as_entry (or_null entry_dict o) ≡ ok o
unfolding get
as_option-entry none = refl
as_option-entry (some e) = refl

un_jsonify_votes-jsonify :
    (r : RequestVotesResults) → un_jsonify_votes (jsonify_results (votes r)) ≡ ok (votes r)
unfolding un_jsonify_votes get
un_jsonify_votes-jsonify r = rw (as_option-nat r.term, as_option-bool r.vote_granted)

un_jsonify_appends-jsonify :
    (r : AppendEntriesResults) → un_jsonify_appends (jsonify_results (appends r)) ≡ ok (appends r)
unfolding un_jsonify_appends get
un_jsonify_appends-jsonify r = rw (as_option-nat r.term, as_option-bool r.success)

-- The results come back, by the class that the type stands for.
abbrev HasResults : BaseMessage → Type 0
HasResults b =
    (if b.type_ == MessageType.request_votes
      then un_jsonify_votes (jsonify_results b.results)
      else un_jsonify_appends (jsonify_results b.results))
    ≡ ok b.results

-- The common part is read back whatever keys follow it.
un_jsonify_base-jsonify :
    (b : BaseMessage) (rest : Fields)
    → HasResults b
    → un_jsonify_base (update (jsonify_base b) rest) ≡ ok b
unfolding un_jsonify_base get update
un_jsonify_base-jsonify b rest h = rw (as_option-str b.receiver) (rw h)

votes-HasResults :
    (b : BaseMessage) (r : RequestVotesResults)
    → b.type_ ≡ MessageType.request_votes
    → b.results ≡ votes r
    → HasResults b
votes-HasResults b r t e = rw (t, e) (un_jsonify_votes-jsonify r)

appends-HasResults :
    (b : BaseMessage) (r : AppendEntriesResults)
    → b.type_ ≢ MessageType.request_votes
    → b.results ≡ appends r
    → HasResults b
appends-HasResults b r t e = rw e (ground (arith, un_jsonify_appends-jsonify r))

un_jsonify_request_votes-jsonify :
    (m : RequestVotesMessage)
    → HasResults m.base
    → un_jsonify_request_votes (jsonify (request_votes_message m)) ≡ ok (request_votes_message m)
unfolding un_jsonify_request_votes jsonify get
un_jsonify_request_votes-jsonify m h = rw (un_jsonify_base-jsonify m.base _ h)

un_jsonify_append_entries-jsonify :
    (m : AppendEntriesMessage)
    → HasResults m.base
    → un_jsonify_append_entries (jsonify (append_entries_message m)) ≡ ok (append_entries_message m)
unfolding un_jsonify_append_entries jsonify get
un_jsonify_append_entries-jsonify m h = rw (
  un_jsonify_base-jsonify m.base _ h,
  as_option-str m.leader_id,
  as_option-nat m.prev_log_index,
  as_option-nat m.prev_log_term,
  as_option-entry m.entries,
)

-- Parsing the dict of a well-typed message gives that message back, field by field.
pub parse_json_message-jsonify :
    (m : Message) → IsWellTyped m → parse_json_message (some (jsonify m)) ≡ ok (some m)
unfolding parse_json_message jsonify get
parse_json_message-jsonify (request_votes_message m) h =
    ground (arith, un_jsonify_request_votes-jsonify m (votes-HasResults m.base h.1 h.0 h.2))
parse_json_message-jsonify (append_entries_message m) h =
    ground (arith, un_jsonify_append_entries-jsonify m (appends-HasResults m.base h.1 h.0 h.2))
