-- ===== src/Tests.antt =====
-- The theorems about the parts around a node on small inputs.
use cs525_project.Common.{
  String, ◌≡◌, refl, some, List, [], ◌∷◌, arith, ok, negsuc, str_eq, eq_iff, ◌≢◌, ◌++◌, ℤ, pos, err,
  key_error, replicate, drop, if◌then◌else◌, true, false,
}
use cs525_project.Common.Text.{space, lines}
use cs525_project.Protocol.{votes, Message, request_votes_message}
use cs525_project.Protocol.MessageType
use cs525_project.Protocol.MessageDirection
use cs525_project.Protocol.Wire.{
  jsonify, parse_json_message, un_jsonify_append_entries, un_jsonify_base,
}
use cs525_project.Protocol.RoundTrip.{parse_json_message-jsonify}
use cs525_project.Json.{get, Fields, end, field, str, num, null}
use cs525_project.Interface.{
  Talker, talker_run, rounds, sends, Listener, ListenerEvent, receives, gets, listener_run,
}
use cs525_project.Interface.Queues.{
  talker_run-handed, HasReceivers, addressed, Holds, listener_run-addressed,
}
use cs525_project.Relay.{
  Attempts, sent, os_error, process_advertisement, process_advertisement-reached,
}
use cs525_project.Common.Parts.{has_no_comma}
use cs525_project.Common.Dict.{lookup, keys, IsDistinct}
use cs525_project.Membership.{
  Table, forget_silent, forget_edge, bluetooth_process_advertisement, maintain_existing_connection,
}
use cs525_project.Membership.Sweep.{forget_silent-lookup}
use cs525_project.Membership.Advertise.{process_advertisement-lookup}
use cs525_project.CommitLog.Slice.{collect, up_to, collect-slice}
use cs525_project.CommitLog.{CommitLog, read_lines, log, read_log, log_replace}
use cs525_project.CommitLog.Reading.{IsClosed, add_last, read_log-log}
use cs525_project.CommitLog.Replacing.{log_lines, log_replace-file}

abbrev vote : Message
vote = request_votes_message (record {
  base = record {
    timestamp = 9;
    type_ = MessageType.request_votes;
    term = 2;
    sender = "b";
    receiver = some "a";
    direction = MessageDirection.response;
    results = votes (record { term = some 2; vote_granted = some true });
  };
  candidate_id = "a";
  last_log_index = 0;
  last_log_term = 1;
})

parse_json_message-jsonify_example : parse_json_message (some (jsonify vote)) ≡ ok (some vote)
parse_json_message-jsonify_example =
    parse_json_message-jsonify vote (refl, record { term = some 2; vote_granted = some true }, refl)

-- A dict without a sender.
parse_json_message-no_sender :
    parse_json_message (
      some (
        field "type"
          (num (pos 1))
          (field "term" (num (pos 1)) (field "timestamp" (num (pos 1)) end))))
    ≡ err key_error
unfolding parse_json_message get un_jsonify_append_entries un_jsonify_base
parse_json_message-no_sender = refl

-- A refusal is reported at the place of "c".
abbrev network : Attempts
network k a = if str_eq a "c" then os_error 111 else sent

abbrev recipients : List String
recipients = "a" ∷ "b" ∷ "c" ∷ []

process_advertisement-reached_example :
    process_advertisement network 0 "a" recipients ≡ record { receivers = "b" ∷ []; errno = [] }
process_advertisement-reached_example =
    process_advertisement-reached network 0 "a" recipients (λ i. (tt, (tt, (refl, tt))))

-- Node "2" is silent at time 100, if the timer is 50.
abbrev table : Table
table = ("1", ("x", 90)) ∷ ("2", ("y", 10)) ∷ []

names_differ : ◌≢◌ {A = String} "2" "1"
names_differ = ground (arith, eq_iff "2" "1")

table-IsDistinct : IsDistinct (keys table)
table-IsDistinct = ((names_differ, tt), (tt, tt))

forget_silent-lookup_example :
    (after : Table) × (forget_silent 50 100 (keys table) table ≡ ok after)
    × IsDistinct (keys after)
    × ((i : String) → lookup i after ≡ forget_edge 50 100 (lookup i table))
forget_silent-lookup_example = forget_silent-lookup 50 100 table table-IsDistinct

process_advertisement-lookup_example :
    (after : Table) × (bluetooth_process_advertisement "z,2" 120 table ≡ ok after)
    × (maintain_existing_connection "z,2" 120 table ≡ ok after)
    × IsDistinct (keys after)
    × ((i : String) → lookup i after ≡ (if str_eq "2" i then some ("z", 120) else lookup i table))
unfolding has_no_comma
process_advertisement-lookup_example =
    process_advertisement-lookup "z" "2" 120 table refl refl table-IsDistinct

-- The file "1, x" with the end of its line.
abbrev one_row : CommitLog
one_row = record { file = 49 ∷ 44 ∷ 32 ∷ 120 ∷ 10 ∷ []; last_term = 49 ∷ []; last_index = negsuc 0 }

read_log-log_example :
    (read_log (log (50 ∷ []) (121 ∷ []) one_row)
      ≡ add_last (50 ∷ [], space ∷ 121 ∷ []) (read_log one_row))
    × IsClosed (log (50 ∷ []) (121 ∷ []) one_row)
read_log-log_example =
    read_log-log 50 [] [] 121 one_row
      (record {
        term_comma = (refl, tt);
        term_newline = (refl, tt);
        command_comma = (refl, tt);
        command_newline = (refl, tt);
        front = refl;
        back = refl;
      })
      (record {
        rows = (49 ∷ 44 ∷ 32 ∷ 120 ∷ []) ∷ [];
        file_eq = refl;
        each = ((refl, (refl, (refl, (refl, tt)))), tt);
      })

-- The row is lost, although it stands before the start.
log_replace-file_example :
    (after : CommitLog) × (log_replace 5 (50 ∷ []) ((121 ∷ []) ∷ []) 1 one_row ≡ some after)
    × (after.file ≡ log_lines (50 ∷ []) ((121 ∷ []) ∷ []))
log_replace-file_example = log_replace-file 5 1 (50 ∷ []) (121 ∷ []) [] one_row (omega arith)

abbrev news : String → Fields
news a = field "receiver" (str a) end

abbrev talker : Talker
talker = record { address = "a"; messages = news "b" ∷ []; stop_event = false }

talker_run-handed_example :
    (talker_run (rounds ∷ sends (news "c") ∷ rounds ∷ sends (news "d") ∷ []) talker).0
      ++ (talker_run (rounds ∷ sends (news "c") ∷ rounds ∷ sends (news "d") ∷ []) talker).1.messages
    ≡ news "b" ∷ news "c" ∷ news "d" ∷ []
talker_run-handed_example =
    talker_run-handed (rounds ∷ sends (news "c") ∷ rounds ∷ sends (news "d") ∷ []) talker

abbrev listener : Listener
listener = record { address_list = "b" ∷ []; my_id = "a"; messages = [] }

abbrev heard : List ListenerEvent
heard = receives (news "b") ∷ receives (news "a") ∷ gets ∷ receives (field "receiver" null end) ∷ []

heard-HasReceivers : HasReceivers heard
unfolding get
heard-HasReceivers = ((str "b", refl), ((str "a", refl), ((null, refl), tt)))

listener_run-addressed_example : Holds (addressed "a" heard) (listener_run heard listener)
listener_run-addressed_example = listener_run-addressed heard listener heard-HasReceivers

-- The list of an object.
abbrev zeros : List ℤ
zeros = replicate 8 (pos 0)

-- Three lines; the last one has no command.
abbrev three_lines : CommitLog
three_lines = record {
  file = 49 ∷ 44 ∷ 120 ∷ 10 ∷ 50 ∷ 44 ∷ 121 ∷ 10 ∷ 51 ∷ 10 ∷ [];
  last_term = 51 ∷ [];
  last_index = pos 2;
}

collect-slice_example :
    collect 1 (some 1) 0 (lines three_lines.file)
    ≡ read_lines (drop 1 (up_to (some 1) (lines three_lines.file)))
collect-slice_example = collect-slice 1 (some 1) three_lines
