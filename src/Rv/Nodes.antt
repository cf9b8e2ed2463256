-- ===== src/Rv/Nodes.antt =====
-- The list of nodes: its invariant, which `Add` and `Remove` keep, and the nodes after each.
use mathlib.Core.Logic.Or
use mathlib.Core.List.{
  Mem, Perm, Nodup, Nodup-cons, Nodup-nil, mem-cons, not-mem-nil, append-nil, perm_middle,
}
use mathlib.Core.List.Perm
use mathlib.Core.Path.{subst}
use beskar.Prelude.{
  ℕ, suc, ◌+◌, ◌-◌, String, ◌≡◌, refl, ◌⊎◌, inl, inr, true, false, Option, none, some, List, [],
  ◌∷◌, ◌++◌, map, arith, eq_iff, Bool-cases, Option-cases, get_elem?, swap_last-perm, length, ◌==◌,
}
use beskar.Prelude.Sort.{IsSorted, IsOrder, stable_sort-perm, stable_sort-IsSorted}
use beskar.Rv.{
  Murmur, Node, NodeHash, seed_less, has_host, find_host, new_node, new_node_hash, add, take_out,
  remove,
}

seed_less-IsOrder : IsOrder seed_less
seed_less-IsOrder = record {
  asym = λ x y h. ground arith;
  not_less_trans = λ x y z h k. ground arith;
}

abbrev pub hosts : List Node → List String
hosts ns = map (λ n. n.hostname) ns

-- Sorted by seed, with one node for each hostname.
pub record IsValid (h : NodeHash) : Type 0 where
  pub by_seed : IsSorted seed_less h.nodes
  pub one_each : Nodup (hosts h.nodes)

pub new_node_hash-IsValid : (on_update : Option (List String)) → IsValid (new_node_hash on_update)
unfolding new_node_hash
new_node_hash-IsValid u = record { by_seed = tt; one_each = Nodup-nil }

-- The loop of `Add` finds a hostname exactly when a node has it.
pub not-has_host-Mem :
    (hostname : String) (ns : List Node) → has_host hostname ns ≡ false → ¬ Mem hostname (hosts ns)
unfolding has_host
not-has_host-Mem hostname [] h i = not-mem-nil i
not-has_host-Mem hostname (n ∷ ns) h i = elim (Bool-cases (n.hostname == hostname)) [
  | inl e ↦ cc
  | inr e ↦
      Or.elim (λ a. absurd a) (mem-cons.0 i) (λ p. ground (arith, eq_iff n.hostname hostname, p))
        (not-has_host-Mem hostname ns (ground arith))
]

not-find_host-Mem :
    (hostname : String) (ns : List Node) (idx : ℕ)
    → find_host hostname ns idx ≡ none
    → ¬ Mem hostname (hosts ns)
unfolding find_host
not-find_host-Mem hostname [] idx h i = not-mem-nil i
not-find_host-Mem hostname (n ∷ ns) idx h i = elim (Bool-cases (n.hostname == hostname)) [
  | inl e ↦ cc
  | inr e ↦
      Or.elim (λ a. absurd a) (mem-cons.0 i) (λ p. ground (arith, eq_iff n.hostname hostname, p))
        (not-find_host-Mem hostname ns (suc idx) (ground arith))
]

-- The loop of `Remove` names a node with the hostname, and its place.
find_host-get_elem? :
    (hostname : String) (ns : List Node) (idx i : ℕ) (n : Node)
    → find_host hostname ns idx ≡ some (n, i)
    → (k : ℕ) × (i ≡ idx + k) × (get_elem? ns k ≡ some n) × (n.hostname ≡ hostname)
unfolding find_host
find_host-get_elem? hostname [] idx i n h = cc
find_host-get_elem? hostname (x ∷ ns) idx i n h = elim (Bool-cases (x.hostname == hostname)) [
  | inl e ↦ (0, ground arith, ground arith, ground (arith, eq_iff x.hostname hostname))
  | inr e ↦
      let (k, p, q, r) = find_host-get_elem? hostname ns (suc idx) i n (ground arith) in
      (suc k, omega arith, q, r)
]

get_elem?-last :
    (x : Node) (xs : List Node) → (l : Node) × (get_elem? (x ∷ xs) (length xs) ≡ some l)
get_elem?-last x [] = (x, refl)
get_elem?-last x (y ∷ ys) = get_elem?-last y ys

-- Swapping with the last node and cutting the list takes out one node.
take_out-perm :
    (i : ℕ) (ns : List Node) (n : Node) → get_elem? ns i ≡ some n → Perm (n ∷ take_out i ns) ns
unfolding take_out
take_out-perm i [] n h = cc
take_out-perm i (x ∷ xs) n h =
    let (l, e) = get_elem?-last x xs in
    let d : length (x ∷ xs) - 1 ≡ length xs = omega arith in
    rw (d, e, take_out) (rw d (swap_last-perm x n l xs i h e))

module _ (m : Murmur) (h : NodeHash) (hostname hostport : String) where
  -- Adding a known hostname changes nothing.
  pub add_known : has_host hostname h.nodes ≡ true → (add m h hostname hostport).0.nodes ≡ h.nodes
  unfolding add
  add_known e = rw e

  pub add_new-perm :
      has_host hostname h.nodes ≡ false
      → Perm (add m h hostname hostport).0.nodes (new_node m hostname hostport ∷ h.nodes)
  unfolding add
  add_new-perm e = rw e (
      Perm.trans (stable_sort-perm seed_less (h.nodes ++ new_node m hostname hostport ∷ [])) (
        subst
          (λ ns.
            Perm (h.nodes ++ new_node m hostname hostport ∷ []) (new_node m hostname hostport ∷ ns))
          (append-nil h.nodes) (perm_middle h.nodes [])))

module _ (m : Murmur) (h : NodeHash) (hostname : String) where
  -- The node that the loop finds is the one that goes.
  pub remove_found-perm :
      (n : Node) (i : ℕ)
      → find_host hostname h.nodes 0 ≡ some (n, i)
      → Perm (n ∷ (remove m h hostname).0.nodes) h.nodes
  unfolding remove
  remove_found-perm n i e =
      let (k, p, q, r) = find_host-get_elem? hostname h.nodes 0 i n e in
      rw (e, remove)
        (Perm.trans (Perm.cons n (stable_sort-perm seed_less (take_out i h.nodes)))
          (take_out-perm i h.nodes n (subst (λ j. get_elem? h.nodes j ≡ some n) (omega arith) q)))

  -- What `Remove` does: nothing, when no node has the hostname, or it takes out one node with it.
  pub remove-cases :
      (((remove m h hostname).0.nodes ≡ h.nodes) × (¬ Mem hostname (hosts h.nodes)))
      ⊎ ((n : Node) × (n.hostname ≡ hostname) × Perm (n ∷ (remove m h hostname).0.nodes) h.nodes)
  unfolding remove
  remove-cases = elim (Option-cases (find_host hostname h.nodes 0)) [
    | inl e ↦ inl (rw (e, remove), not-find_host-Mem hostname h.nodes 0 e)
    | inr (r, e) ↦
        let (k, p, q, host) = find_host-get_elem? hostname h.nodes 0 r.1 r.0 e in
        inr (r.0, host, remove_found-perm r.0 r.1 e)
  ]

  remove-IsSorted : IsSorted seed_less h.nodes → IsSorted seed_less (remove m h hostname).0.nodes
  unfolding remove
  remove-IsSorted s = elim (Option-cases (find_host hostname h.nodes 0)) [
    | inl e ↦ rw (e, remove) s
    | inr (r, e) ↦
        rw (e, remove) (stable_sort-IsSorted seed_less seed_less-IsOrder (take_out r.1 h.nodes))
  ]

module _ (m : Murmur) (h : NodeHash) where
  -- When the nodes are sorted by seed with one node for each hostname, they are so after `Add`.
  pub add-IsValid : (hostname hostport : String) → IsValid h → IsValid (add m h hostname hostport).0
  unfolding add new_node
  add-IsValid hostname hostport v = elim (Bool-cases (has_host hostname h.nodes)) [
    | inl e ↦ rw e v
    | inr e ↦ record {
      by_seed = rw e (
          stable_sort-IsSorted seed_less seed_less-IsOrder
            (h.nodes ++ new_node m hostname hostport ∷ []));
      one_each =
          Perm.nodup (Perm.symm (Perm.map (λ n. n.hostname) (add_new-perm m h hostname hostport e)))
            (Nodup-cons.1 (not-has_host-Mem hostname h.nodes e, v.one_each));
    }
  ]

  -- When the nodes are sorted by seed with one node for each hostname, they are so after `Remove`.
  pub remove-IsValid : (hostname : String) → IsValid h → IsValid (remove m h hostname).0
  remove-IsValid hostname v = record {
    by_seed = remove-IsSorted m h hostname v.by_seed;
    one_each = elim (remove-cases m h hostname) [
      | inl (e, _) ↦ rw e v.one_each
      | inr (n, e, p) ↦
          (Nodup-cons.0 (Perm.nodup (Perm.symm (Perm.map (λ k. k.hostname) p)) v.one_each)).1
    ];
  }
