-- ===== src/Lib.antt =====
-- A model of the Python program under src/: edge nodes that reach consensus with Raft, and the code
-- that finds the nodes. Its parts, and the files here that model them:
--
-- - Common: names that every file uses; lists and integers over native numbers, Python's exceptions
--   and results (Python), texts (Text, Parts) and dicts (Dict).
-- - Json, Protocol: src/raft/protocol.py. Json has the values that go over the wire; Protocol has the
--   classes of messages as records, Protocol/Wire `jsonify`, `un_jsonify` and `parse_json_message`;
--   Protocol/RoundTrip is about what goes out and comes back, Protocol/Parsing about other dicts.
-- - Interface: src/raft/interface.py, the queues of `Talker` and `Listener`, and runs of both.
-- - Raft: src/raft/raft.py, class RaftNode. Raft/State has its attributes, `__init__` and the type of a
--   method call: a function from a node to a result or an exception and the node after it. Raft/Send
--   has the `_send_` methods, Raft/Log those on the term, the log and the commits, Raft/Client the
--   public methods, Raft/Follower, Raft/Candidate and Raft/Leader the roles, Raft/Committable the
--   choice of the index to commit, and Raft/Thread the loop of `run`. A role's method is cut into what
--   it does before its loop and one round of the loop. Raft/Replication puts the sending of an entry, its
--   handling by the other node and the answer together; Raft/Replication/Committing goes on from the last
--   answer to the commit, and Raft/Replication/Request from a request to it. Raft/Config is `__init__` with an address book.
--   Raft/Cluster has the steps of a group of nodes: a thread makes a step, hears what some node has
--   sent, or is called; Raft/Sane says what the nodes of such a group send and store. Raft/Roles and
--   Raft/AppendOnly are about the role and the log in single steps, and Raft/Hash about what is found under an
--   id.
--   Raft/Ballot has elections as lists of rounds; Raft/Ballot/Voters says which messages are votes, and
--   Raft/Ballot/OneLeader puts the elections of two nodes next to the runs of all nodes.
-- - Framing: src/raft/berkeley_socket_interface.py, the frames on a TCP connection; Framing/Payload the
--   parsing of what they carry, Framing/Connect the attempts to connect and to bind, Framing/Talking the
--   talker with its connections, and Framing/Listening the listener with a thread for each connection.
-- - CommitLog: src/commitlog.py, on the text of the file; CommitLog/Slice has `read_logs_start_end`.
-- - Membership: the tables of neighbours in src/node.py and src/edge.py; Membership/Node and
--   Membership/Edge have the loops of `main` there, and runs of them. Membership/Neighbours puts
--   a sender, the channel and a receiver together.
-- - Consensus: `local_consensus` of src/node.py, which builds a RaftNode from such a table.
-- - ConsensusObject: src/consensusobject.py.
-- - Relay: src/bluetooth_broadcast_node.py and src/edge_broadcast_node.py, which pass messages on.
-- - Tests, and Tests in the folders: small inputs.
--
-- How they interact: `run` reads a message from the listener's queue, parses it, and gives it to the
-- round of the current role; what a node sends is appended to its `outbox`, in the order in which it
-- is handed to the talker. In Raft/Thread an `Event` is a step of the thread, a message that the
-- listener stores, or a call from another thread; `run` there takes a list of events, so that the
-- list is the interleaving. A round of a loop is one step: a call of another thread comes between two
-- rounds and not inside one. In Raft/Cluster a message that was handed to a talker stays there, so that it
-- may be heard never, once, or many times, and in any order. In Membership/Node the threads go on while
-- `local_consensus` keeps the loop of `main` waiting; in Consensus what happens in its pauses is two lists
-- of events.
--
-- How values are represented: counters, terms and indices are natural numbers; an index that the source
-- can make negative does not occur, since a log is never empty and `next_index` is at least 1. Entry
-- ids are integers, as every caller in the repository gives them; the code takes any object, and one that
-- JSON turns into a list ends a thread (TypeError). An address is a text. Times are whole microseconds (nanoseconds in Membership),
-- and a subtraction of a later time gives 0 where Python has a negative number: both are below every
-- limit that they are compared with. Readings of the clock, timestamps of messages and the random
-- election timeout are arguments. A role named 'none' is `paused`. A field of a message that has a
-- type for which the records have no place ends the parsing with `not_modelled`, an error that Python does
-- not have: the code would go on with that value. Parsing gives
-- a message of the type RequestVotes, and no other, the class RequestVotesMessage, so a round looks at
-- the class. A message without a receiver ends the process of the listener; Raft/Thread drops it.
--
-- Fuel: `handle_socket` of Framing takes one unit for each frame, `log_replace` one for each round of its
-- loop, and `bind_socket` one for each attempt; the theorems on them say how much is enough. All
-- other loops are structural.
--
-- Parameters: what the network does to an attempt to send (Relay,
-- Framing/Talking) or to connect (Framing/Connect), and `json.loads` and `json.dumps` (Framing). A `send`
-- that succeeds takes the whole frame, and a `recv` gives all the bytes that it is asked for; sockets may do
-- less, which the code does not look at.
--
-- Not modelled: sockets, processes and threads as such, the reading of the address book from a file, the
-- pauses and the printed text, which are input and output; the network interfaces and the clock in
-- src/utility_functions.py; src/edge/ and src/node/, which are glue to the ns-3 simulator; the scripts that
-- start nodes, and the plots.
pub mod Common
pub mod Json
pub mod Protocol
pub mod Interface
pub mod Raft
pub mod Framing
pub mod CommitLog
pub mod Membership
pub mod Consensus
pub mod ConsensusObject
pub mod Relay
pub mod Tests
