-- ===== src/Raft/State.antt =====
-- src/raft/raft.py: the attributes of a RaftNode, and a method call that returns or raises. What
-- was assigned before a raise stays assigned, so the state comes back beside the error too.
use cs525_project.Common.{
  ℕ, String, Bool, false, Option, none, List, [], ◌∷◌, ℤ, negsuc, Error, Result, ok, err, length,
  replicate,
}
use cs525_project.Json.{str}
use cs525_project.Protocol.{Entry, Message}

-- 'none' is the role of a paused node.
pub data Role : Type 0 where
  follower candidate leader paused : Role

-- `outbox` holds what was handed to the talker, oldest first; `stamps k` is the value of
-- `int(time.time())` when message number k is built. Times are counted in microseconds.
pub record RaftNode : Type 0 where
  pub name : String
  pub all_ids : List String
  pub my_id : String
  pub election_timeout : ℕ
  pub current_num_nodes : ℕ
  pub current_role : Role
  pub leader_id : Option String
  pub current_term : ℕ
  pub voted_for : Option String
  pub log : List Entry
  pub log_hash : List (ℤ × Entry)
  pub commit_index : ℕ
  pub last_applied_index : ℕ
  pub last_applied_term : ℕ
  pub next_index : List (Option ℕ)
  pub match_index : List ℕ
  pub heard_from : List ℕ
  pub client_queue : List Entry
  pub terminate : Bool
  pub outbox : List Message
  pub stamps : ℕ → ℕ

abbrev pub heartbeat_frequency : ℕ
heartbeat_frequency = 10_000

abbrev pub resend_time : ℕ
resend_time = 2_000_000

abbrev pub init_entry : Entry
init_entry = record { term = 1; entry = str "Init Entry"; id = negsuc 0 }

-- `__init__`, for an address book that was read into the addresses of the nodes; `timeout` is
-- the random election timeout.
unfoldable pub init : String → List String → String → ℕ → Role → (ℕ → ℕ) → RaftNode
init name all_ids my_id timeout role stamps = record {
  name = name;
  all_ids = all_ids;
  my_id = my_id;
  election_timeout = timeout;
  current_num_nodes = length all_ids;
  current_role = role;
  leader_id = none;
  current_term = 1;
  voted_for = none;
  log = init_entry ∷ [];
  log_hash = [];
  commit_index = 0;
  last_applied_index = 0;
  last_applied_term = 1;
  next_index = replicate (length all_ids) none;
  match_index = replicate (length all_ids) 0;
  heard_from = replicate (length all_ids) 0;
  client_queue = [];
  terminate = false;
  outbox = [];
  stamps = stamps;
}

abbrev pub Action : Type 0 → Type 0
Action A = RaftNode → Result A × RaftNode

module _ {A : Type 0} where
  unfoldable pub pure : A → Action A
  pure a s = (ok a, s)

  unfoldable pub raise : Error → Action A
  raise e s = (err e, s)

  unfoldable pub gets : (RaftNode → A) → Action A
  gets f s = (ok (f s), s)

  -- what is read may raise
  unfoldable pub reads : (RaftNode → Result A) → Action A
  reads f s = (f s, s)

unfoldable pub modify : (RaftNode → RaftNode) → Action Unit
modify f s = (ok tt, f s)

-- The rest of a block, after a part that returned or raised.
abbrev pub continue : {A B : Type 0} → Result A → (A → Action B) → Action B
continue (ok a) f s = f a s
continue (err e) f s = (err e, s)

-- Opening this opens the actions above too.
infixl 5 ◌>>=◌ ◌>>◌
unfoldable pub ◌>>=◌ : {A B : Type 0} → Action A → (A → Action B) → Action B
unfolding pure raise gets reads modify
◌>>=◌ m f s = let (r, s') = m s in continue r f s'

abbrev pub ◌>>◌ : {A B : Type 0} → Action A → Action B → Action B
m >> k = m >>= λ _. k
