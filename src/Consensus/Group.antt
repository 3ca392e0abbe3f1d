-- ===== src/Consensus/Group.antt =====
-- The group that a node of `local_consensus` belongs to.
use mathlib.Core.Path.{subst}
use cs525_project.Common.{
  ℕ, suc, String, Bool, true, false, ◌≡◌, refl, ◌∙◌, ap, some, List, [], ◌∷◌, length, All, ok,
  str_eq, if◌then◌else◌, arith,
}
use cs525_project.Common.Dict.{
  Dict, lookup, insert, keys, IsDistinct, elem, str_eq_refl, lookup-insert, All-insert,
}
use cs525_project.Membership.{Seen, Table}
use cs525_project.Raft.State.{RaftNode, follower, init}
use cs525_project.Raft.Log.{index_of}
use cs525_project.Raft.Sane.{Known, IsMember}
use cs525_project.Raft.Cluster.Safe.{Known-cons}
use cs525_project.Raft.Config.{Contact, address, addresses, from_config}
use cs525_project.Consensus.{high_power, raft_node}
use cs525_project.Consensus.Book.{contacts, keys-contacts, address_book-contacts}

-- No id is "leader", which `__init__` leaves out.
abbrev pub HasNoLeader : List String → Type 0
HasNoLeader ids = All (λ k. str_eq k "leader" ≡ false) ids

-- Every contact of an address book is one of the nodes.
addresses-Known :
    (d : Dict Contact) (k : String) (c : Contact)
    → HasNoLeader (keys d)
    → lookup k d ≡ some c
    → Known (addresses d) (address c)
unfolding lookup addresses index_of
addresses-Known [] k c h found = cc
addresses-Known ((j, w) ∷ d) k c h found =
    rw h.0 (here (str_eq j k) found (addresses-Known d k c h.1))
  where
    here :
        (b : Bool)
        → (if b then some w else lookup k d) ≡ some c
        → (lookup k d ≡ some c → Known (addresses d) (address c))
        → Known (address w ∷ addresses d) (address c)
    here true e later =
        let same : w ≡ c = cc in
        subst (λ (x : Contact). Known (address w ∷ addresses d) (address x)) same
          (0, rw (str_eq_refl (address w)))
    here false e later = Known-cons (address w) (address c) (addresses d) (later e)

length-addresses : (d : Dict Contact) → HasNoLeader (keys d) → length (addresses d) ≡ length d
unfolding addresses
length-addresses [] h = refl
length-addresses ((j, w) ∷ d) h = rw h.0 (ap suc (length-addresses d h.1))

length-insert :
    (k : String) (v : Contact) (d : Dict Contact)
    → length (insert k v d) ≡ (if elem k (keys d) then length d else suc (length d))
unfolding insert
length-insert k v [] = refl
length-insert k v ((j, w) ∷ d) = ground (arith, length-insert k v d)

lookup-contacts :
    (i : String) (seen : Seen) (group : Table)
    → lookup i group ≡ some seen
    → lookup i (contacts group) ≡ some (high_power seen.0)
unfolding lookup
lookup-contacts i seen [] e = cc
lookup-contacts i seen ((j, w) ∷ group) e = here (str_eq j i) e (lookup-contacts i seen group)
  where
    here :
        (b : Bool)
        → (if b then some w else lookup i group) ≡ some seen
        → (lookup i group ≡ some seen → lookup i (contacts group) ≡ some (high_power seen.0))
        → (if b then some (high_power w.0) else lookup i (contacts group))
          ≡ some (high_power seen.0)
    here true e later = let same : w ≡ seen = cc in ap (λ (x : Seen). some (high_power x.0)) same
    here false e later = later e

length-contacts : (group : Table) → length (contacts group) ≡ length group
length-contacts [] = refl
length-contacts (x ∷ group) = ap suc (length-contacts group)

elem-contacts : (i : String) (group : Table) → elem i (keys (contacts group)) ≡ elem i (keys group)
elem-contacts i [] = refl
elem-contacts i (x ∷ group) = rw (elem-contacts i group)

-- The addresses of the group.
abbrev pub group_ids : String → String → Table → List String
group_ids index ip group = addresses (insert index (high_power ip) (contacts group))

pub raft_node-init :
    (index ip : String) (group : Table) (timeout : ℕ) (stamps : ℕ → ℕ)
    → IsDistinct (keys group)
    → raft_node index ip group timeout stamps
      ≡ ok (init index (group_ids index ip group) (address (high_power ip)) timeout follower stamps)
unfolding raft_node from_config
raft_node-init index ip group timeout stamps d =
    let own : lookup index (insert index (high_power ip) (contacts group)) ≡ some (high_power ip) =
      lookup-insert index index (high_power ip) (contacts group) ∙ rw (str_eq_refl index) in
    rw (address_book-contacts index ip group d, own)

-- Neither an id of the table nor the node's own is "leader".
book_free :
    (index ip : String) (group : Table)
    → str_eq index "leader" ≡ false
    → HasNoLeader (keys group)
    → HasNoLeader (keys (insert index (high_power ip) (contacts group)))
book_free index ip group n h =
    All-insert (λ k. str_eq k "leader" ≡ false) index (high_power ip) (contacts group) n
      (keys-contacts (λ k. str_eq k "leader" ≡ false) group h)

pub own-Known :
    (index ip : String) (group : Table)
    → str_eq index "leader" ≡ false
    → HasNoLeader (keys group)
    → Known (group_ids index ip group) (address (high_power ip))
own-Known index ip group n h =
    addresses-Known (insert index (high_power ip) (contacts group)) index (high_power ip)
      (book_free index ip group n h)
      (lookup-insert index index (high_power ip) (contacts group) ∙ rw (str_eq_refl index))

-- The parts of a result that a node was made of.
pub record IsGrouped (index ip : String) (group : Table) (s : RaftNode) : Type 0 where
  pub member : IsMember s.all_ids s.all_ids s.my_id s.current_num_nodes
  pub own : s.my_id ≡ address (high_power ip)
  pub nodes :
      s.current_num_nodes ≡ (if elem index (keys group) then length group else suc (length group))
  pub neighbours :
      (i : String) (seen : Seen)
      → str_eq index i ≡ false
      → lookup i group ≡ some seen
      → Known s.all_ids (address (high_power seen.0))

-- A node whose table has no double ids, when neither an id of the table nor its own is "leader": the
-- consensus starts with a node, which has its own address among those of its group and the number of
-- these addresses as the number of nodes; that is one more than the table has, or as many, if the table
-- has its id. The address of every neighbour with another id is one of the group.
pub raft_node-IsGrouped :
    (index ip : String) (group : Table) (timeout : ℕ) (stamps : ℕ → ℕ)
    → IsDistinct (keys group)
    → str_eq index "leader" ≡ false
    → HasNoLeader (keys group)
    → (s : RaftNode) × (raft_node index ip group timeout stamps ≡ ok s) × IsGrouped index ip group s
unfolding init
raft_node-IsGrouped index ip group timeout stamps d n h =
    let book = insert index (high_power ip) (contacts group) in
    let free = book_free index ip group n h in
    (
      init index (addresses book) (address (high_power ip)) timeout follower stamps,
      raft_node-init index ip group timeout stamps d,
      record {
        member = record { ids_eq = refl; nodes_eq = refl; known = own-Known index ip group n h };
        own = refl;
        nodes =
            length-addresses book free
            ∙ length-insert index (high_power ip) (contacts group)
            ∙ rw (elem-contacts index group, length-contacts group);
        neighbours = λ i seen differs found. addresses-Known book i (high_power seen.0) free (
            lookup-insert index i (high_power ip) (contacts group)
            ∙ rw differs (lookup-contacts i seen group found));
      },
    )
