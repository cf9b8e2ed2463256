-- ===== src/Rv/Stability.antt =====
-- How the owner of a key changes when nodes join and leave, and what `getNodes` returns.
use mathlib.Core.Logic.Or
use mathlib.Core.Logic.{∥∥₁_prop}
use mathlib.Core.List.{Mem, Perm, mem-cons, mem-cons_self, mem-cons_of_mem, mem-map_of_mem}
use mathlib.Core.List.Perm
use mathlib.Core.Path.{subst}
use beskar.Prelude.{String, ◌≡◌, ◌≢◌, ap, ◌∙◌, ◌↔◌, ◌⊎◌, inl, inr, false, Option, none, some, ◌∷◌}
use beskar.Rv.{Murmur, Node, NodeHash, has_host, new_node, get, get_loop, add, remove}
use beskar.Rv.Best.{
  IsBest, DistinctHashes, get-IsBest, IsBest-eq, IsBest-of_same, IsBest-of_fewer,
  IsBest-of_one_more,
}
use beskar.Rv.Nodes.{hosts, not-has_host-Mem, add_new-perm, remove-cases}

-- `Get` reads only the nodes.
get_of_nodes :
    (m : Murmur) (key : String) (h k : NodeHash) → h.nodes ≡ k.nodes → get m h key ≡ get m k key
unfolding get
get_of_nodes m key h k e = ap (λ ns. (get_loop m key ns (0, none)).1) e

module _ (m : Murmur) (key : String) where
  get-eq :
      (h : NodeHash) (r : Option Node)
      → DistinctHashes m key h.nodes
      → IsBest m key h.nodes r
      → get m h key ≡ r
  get-eq h r d p = IsBest-eq m key h.nodes (get m h key) r d (get-IsBest m key h) p

  -- When different nodes have different hashes for a key, removing a node by its hostname leaves
  -- the key with its node if that has another hostname.
  pub get-remove_other :
      (h : NodeHash) (hostname : String) (n : Node)
      → DistinctHashes m key h.nodes
      → get m h key ≡ some n
      → n.hostname ≢ hostname
      → get m (remove m h hostname).0 key ≡ some n
  get-remove_other h hostname n d g ne = elim (remove-cases m h hostname) [
    | inl (e, _) ↦ get_of_nodes m key (remove m h hostname).0 h e ∙ g
    | inr (k, e, p) ↦
        let best : IsBest m key h.nodes (some n) =
          subst (IsBest m key h.nodes) g (get-IsBest m key h) in
        let sub : (a : Node) → Mem a (remove m h hostname).0.nodes → Mem a h.nodes =
          λ a i. (Perm.mem_iff p).0 (mem-cons_of_mem k i) in
        let stays : Mem n (remove m h hostname).0.nodes =
          Or.elim ∥∥₁_prop (mem-cons.0 ((Perm.mem_iff p).1 best.0))
            (λ q. absurd (ne (ap (λ (x : Node). x.hostname) q ∙ e))) (λ i. i) in
        get-eq (remove m h hostname).0 (some n) (λ a b i j. d a b (sub a i) (sub b j))
          (IsBest-of_fewer m key h.nodes (remove m h hostname).0.nodes n sub stays best)
  ]

  -- When a hostname is new and different nodes have different hashes for a key after the node
  -- joined, the key keeps its node or goes to the new one.
  pub get-add :
      (h : NodeHash) (hostname hostport : String)
      → has_host hostname h.nodes ≡ false
      → DistinctHashes m key (add m h hostname hostport).0.nodes
      → (get m (add m h hostname hostport).0 key ≡ get m h key)
        ⊎ (get m (add m h hostname hostport).0 key ≡ some (new_node m hostname hostport))
  get-add h hostname hostport e d =
      let h' : NodeHash = (add m h hostname hostport).0 in
      let k : Node = new_node m hostname hostport in
      let same : (a : Node) → Mem a h'.nodes ↔ Mem a (k ∷ h.nodes) =
        λ a. Perm.mem_iff (add_new-perm m h hostname hostport e) in
      elim (IsBest-of_one_more m key h.nodes k (get m h key) (get-IsBest m key h)) [
        | inl b ↦ inl (
            get-eq h' (get m h key) d
              (IsBest-of_same m key (k ∷ h.nodes) h'.nodes (get m h key) same b))
        | inr b ↦
            inr (get-eq h' (some k) d (IsBest-of_same m key (k ∷ h.nodes) h'.nodes (some k) same b))
      ]

  -- The nodes after a join and a leave are those from before.
  remove-add-perm :
      (h : NodeHash) (hostname hostport : String)
      → has_host hostname h.nodes ≡ false
      → Perm (remove m (add m h hostname hostport).0 hostname).0.nodes h.nodes
  unfolding new_node
  remove-add-perm h hostname hostport e =
      let h' : NodeHash = (add m h hostname hostport).0 in
      let k : Node = new_node m hostname hostport in
      let joined : Perm h'.nodes (k ∷ h.nodes) = add_new-perm m h hostname hostport e in
      elim (remove-cases m h' hostname) [
        | inl (_, absent) ↦
            absurd
              (absent ((Perm.mem_iff (Perm.map (λ (n : Node). n.hostname) joined)).1 mem-cons_self))
        | inr (n, ne, p) ↦
            let q : Perm (n ∷ (remove m h' hostname).0.nodes) (k ∷ h.nodes) = Perm.trans p joined in
            Or.elim ∥∥₁_prop (mem-cons.0 ((Perm.mem_iff q).0 mem-cons_self))
              (λ eq.
                Perm.cons_inv
                  (subst (λ x. Perm (x ∷ (remove m h' hostname).0.nodes) (k ∷ h.nodes)) eq q))
              (λ i. absurd (
                not-has_host-Mem hostname h.nodes e (
                  subst (λ s. Mem s (hosts h.nodes)) ne
                    (mem-map_of_mem (λ (x : Node). x.hostname) i))))
      ]

  -- When a hostname is new and different nodes have different hashes for a key, a node that joins
  -- and leaves again leaves the key where it was.
  pub get-remove-add :
      (h : NodeHash) (hostname hostport : String)
      → has_host hostname h.nodes ≡ false
      → DistinctHashes m key h.nodes
      → get m (remove m (add m h hostname hostport).0 hostname).0 key ≡ get m h key
  get-remove-add h hostname hostport e d =
      let h' : NodeHash = (remove m (add m h hostname hostport).0 hostname).0 in
      let p : Perm h'.nodes h.nodes = remove-add-perm h hostname hostport e in
      get-eq h' (get m h key) (λ a b i j. d a b ((Perm.mem_iff p).0 i) ((Perm.mem_iff p).0 j))
        (IsBest-of_same m key h.nodes h'.nodes (get m h key) (λ a. Perm.mem_iff p)
          (get-IsBest m key h))
