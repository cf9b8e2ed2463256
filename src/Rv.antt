-- ===== src/Rv.antt =====
-- pkg/rv/rv.go: rendezvous hashing of keys on the nodes of a plugin.
-- The hash functions are those of the murmur3 package, a parameter of the model; `uint64` values
-- are compared and never computed with. `Add` and `Remove` hold the write lock, so a call is one
-- step; the goroutines that report changed keys need the read lock and run after it.
pub mod Best
pub mod Nodes
pub mod Stability
pub mod Notify
mod Examples
use beskar.Prelude.{
  ℕ, suc, ◌-◌, String, Bool, true, false, Option, none, some, List, [], ◌∷◌, ◌++◌, map, ◌==◌, ltb,
  if◌then◌else◌, length, get_elem?, set, take,
}
use beskar.Prelude.Sort.{stable_sort}

-- murmur3.StringSum64 and murmur3.SeedStringSum64.
pub record Murmur : Type 0 where
  pub string_sum64 : String → ℕ
  pub seed_string_sum64 : ℕ → String → ℕ

pub record Node : Type 0 where
  pub hostname : String
  pub hostport : String
  pub seed : ℕ

-- What a goroutine started by an update does: nothing, a call of the key change function with the
-- old and the new node, or a dereference of the nil node.
pub data KeyChange : Type 0 where
  unchanged : KeyChange
  moved : Option Node → Option Node → KeyChange
  nil_node : KeyChange

-- `on_update` holds the keys that the callback's channel delivers, if there is a callback.
pub record NodeHash : Type 0 where
  pub nodes : List Node
  pub on_update : Option (List String)

unfoldable pub new_node_hash : Option (List String) → NodeHash
new_node_hash on_update = record { nodes = []; on_update = on_update }

-- The comparison of both calls of sort.SliceStable.
abbrev pub seed_less : Node → Node → Bool
seed_less a b = ltb a.seed b.seed

-- The loop of `Add` over the hostnames in use.
unfoldable pub has_host : String → List Node → Bool
has_host hostname [] = false
has_host hostname (node ∷ rest) = if node.hostname == hostname then true else has_host hostname rest

-- The loop of `Remove`: the first node with this hostname, and its index.
unfoldable pub find_host : String → List Node → ℕ → Option (Node × ℕ)
find_host hostname [] idx = none
find_host hostname (n ∷ rest) idx =
    if n.hostname == hostname then some (n, idx) else find_host hostname rest (suc idx)

module _ (m : Murmur) where
  unfoldable pub new_node : String → String → Node
  new_node hostname hostport = record {
    hostname = hostname;
    hostport = hostport;
    seed = m.string_sum64 hostname;
  }

  unfoldable pub hash : Node → String → ℕ
  hash n key = m.seed_string_sum64 n.seed key

  -- The body of the loop of `Get`, over the greatest hash so far and its node.
  unfoldable pub better : String → Node → ℕ × Option Node → ℕ × Option Node
  unfolding hash
  better key n (max_hash, node) =
      if ltb max_hash (hash n key) then (hash n key, some n) else (max_hash, node)

  unfoldable pub get_loop : String → List Node → ℕ × Option Node → ℕ × Option Node
  get_loop key [] s = s
  get_loop key (n ∷ rest) s = get_loop key rest (better key n s)

  unfoldable pub get : NodeHash → String → Option Node
  get h key = (get_loop key h.nodes (0, none)).1

  -- The body of the loop of `getNodes`: `node2, node1 = node1, n`.
  unfoldable pub better2 :
      String → Node → ℕ × Option Node × Option Node → ℕ × Option Node × Option Node
  unfolding hash
  better2 key n (max_hash, node1, node2) =
      if ltb max_hash (hash n key) then (hash n key, some n, node1) else (max_hash, node1, node2)

  unfoldable pub get_nodes_loop :
      String → List Node → ℕ × Option Node × Option Node → ℕ × Option Node × Option Node
  get_nodes_loop key [] s = s
  get_nodes_loop key (n ∷ rest) s = get_nodes_loop key rest (better2 key n s)

  unfoldable pub get_nodes : NodeHash → String → Option Node × Option Node
  get_nodes h key = let s = get_nodes_loop key h.nodes (0, none, none) in (s.1, s.2)

  -- The goroutines of `Add` and of `Remove` for one key.
  unfoldable pub add_change : String → Option Node × Option Node → KeyChange
  add_change hostport (none, node2) = nil_node
  add_change hostport (some node1, node2) =
      if node1.hostport == hostport then moved node2 (some node1) else unchanged

  unfoldable pub remove_change : String → Option Node × Option Node → KeyChange
  remove_change hostport (none, node2) = nil_node
  remove_change hostport (some node1, node2) =
      if node1.hostport == hostport then moved (some node1) node2 else unchanged

  unfoldable pub changes :
      (String → Option Node × Option Node → KeyChange) → String → NodeHash → List KeyChange
  changes change hostport h = elim h.on_update [
    | none ↦ []
    | some keys ↦ map (λ key. change hostport (get_nodes h key)) keys
  ]

  unfoldable pub add : NodeHash → String → String → NodeHash × List KeyChange
  add h hostname hostport = if has_host hostname h.nodes then (h, []) else added
    where
      h' : NodeHash
      h' = record h { nodes = stable_sort seed_less (h.nodes ++ new_node hostname hostport ∷ []) }

      added : NodeHash × List KeyChange
      added = (h', changes add_change hostport h')

-- `h.nodes[nodeIndex] = h.nodes[len(h.nodes)-1]; h.nodes = h.nodes[:len(h.nodes)-1]`
unfoldable pub take_out : ℕ → List Node → List Node
take_out node_index nodes = elim (get_elem? nodes (length nodes - 1)) [
  | none ↦ nodes
  | some last ↦ take (length nodes - 1) (set nodes node_index last)
]

module _ (m : Murmur) where
  unfoldable pub remove : NodeHash → String → NodeHash × List KeyChange
  remove h hostname = elim (find_host hostname h.nodes 0) [
    | none ↦ (h, [])
    | some (node, node_index) ↦
        let h' : NodeHash = record h {
          nodes = stable_sort seed_less (take_out node_index h.nodes);
        } in
        (h', changes m (remove_change m) node.hostport h')
  ]
