-- ===== src/Rv/Notify.antt =====
-- `getNodes`, and what the key change function of an update is told.
use beskar.Prelude.{
  ℕ, ◌<◌, ◌≤◌, String, ◌≡◌, ◌≢◌, refl, sym, ap, ◌∙◌, Option, none, some, List, [], ◌∷◌,
  String-cases, Option-cases, arith, All, ltb, false, inl, inr, map,
}
use mathlib.Core.Path.{subst}
use mathlib.Core.List.{Mem, Perm, Nodup, Nodup-cons, mem-map_of_mem}
use mathlib.Core.List.Perm
use beskar.Rv.{
  Murmur, Node, NodeHash, KeyChange, moved, hash, get, get_loop, get_nodes, get_nodes_loop, better,
  better2, remove_change, changes, find_host, remove,
}
use beskar.Rv.Nodes.{remove_found-perm}
use beskar.Rv.Best.{IsBest, get-IsBest}

module _ (m : Murmur) (key : String) where
  better2-better :
      (n : Node) (h g : ℕ) (a b c : Option Node)
      → h ≡ g
      → a ≡ c
      → ((better2 m key n (h, a, b)).0 ≡ (better m key n (g, c)).0)
        × ((better2 m key n (h, a, b)).1 ≡ (better m key n (g, c)).1)
  unfolding better better2
  better2-better n h g a b c e f = ground arith

  get_nodes_loop-get_loop :
      (ns : List Node) (s : ℕ × Option Node × Option Node) (t : ℕ × Option Node)
      → s.0 ≡ t.0
      → s.1 ≡ t.1
      → (get_nodes_loop m key ns s).1 ≡ (get_loop m key ns t).1
  unfolding get_nodes_loop get_loop
  get_nodes_loop-get_loop [] s t e f = f
  get_nodes_loop-get_loop (n ∷ ns) (h, a, b) (g, c) e f =
      let (p, q) = better2-better n h g a b c e f in
      get_nodes_loop-get_loop ns (better2 m key n (h, a, b)) (better m key n (g, c)) p q

  -- The first node of `getNodes` is the node of `Get`.
  pub get_nodes-get : (h : NodeHash) → (get_nodes m h key).0 ≡ get m h key
  unfolding get_nodes get
  get_nodes-get h = get_nodes_loop-get_loop h.nodes (0, none, none) (0, none) refl refl

  loop_keeps :
      (ns : List Node) (n : Node) (b : Option Node)
      → All (λ k. hash m k key ≤ hash m n key) ns
      → get_nodes_loop m key ns (hash m n key, some n, b) ≡ (hash m n key, some n, b)
  unfolding get_nodes_loop better2
  loop_keeps [] n b h = refl
  loop_keeps (k ∷ ns) n b h = rw (stays, better2) (loop_keeps ns n b h.1)
    where
      stays : ltb (hash m n key) (hash m k key) ≡ false
      stays = ground arith

  better2_first :
      (n : Node) → 0 < hash m n key → better2 m key n (0, none, none) ≡ (hash m n key, some n, none)
  unfolding better2
  better2_first n pos = ground arith

  first_keeps :
      (ns : List Node) (n : Node)
      → 0 < hash m n key
      → All (λ k. hash m k key ≤ hash m n key) ns
      → get_nodes_loop m key (n ∷ ns) (0, none, none) ≡ (hash m n key, some n, none)
  unfolding get_nodes_loop
  first_keeps ns n pos below =
      ap (get_nodes_loop m key ns) (better2_first n pos) ∙ loop_keeps ns n none below

  -- When the first node in the order of the seeds has a positive and the greatest hash for a key,
  -- `getNodes` returns it with no second node, however many other nodes there are.
  pub get_nodes_no_second :
      (h : NodeHash) (n : Node) (ns : List Node)
      → h.nodes ≡ n ∷ ns
      → 0 < hash m n key
      → All (λ k. hash m k key ≤ hash m n key) ns
      → get_nodes m h key ≡ (some n, none)
  unfolding get_nodes
  get_nodes_no_second h n ns e pos below =
      let s : get_nodes_loop m key h.nodes (0, none, none) ≡ (hash m n key, some n, none) =
        ap (λ (l : List Node). get_nodes_loop m key l (0, none, none)) e
        ∙ first_keeps ns n pos below in
      ap (λ (t : ℕ × Option Node × Option Node). (t.1, t.2)) s

-- No goroutine of `Remove` calls the key change function: it looks for the removed node among the
-- nodes that are left.
abbrev pub IsSilent : KeyChange → Type 0
IsSilent (moved a b) = ⊥
IsSilent _ = Unit

module _ (m : Murmur) where
  remove_change-IsSilent :
      (h : NodeHash) (hostport key : String)
      → ((n : Node) → Mem n h.nodes → n.hostport ≢ hostport)
      → IsSilent (remove_change m hostport (get_nodes m h key))
  unfolding remove_change
  remove_change-IsSilent h hostport key absent = go (get_nodes m h key) (get_nodes-get m key h)
    where
      go :
          (r : Option Node × Option Node)
          → r.0 ≡ get m h key
          → IsSilent (remove_change m hostport r)
      go (none, b) e = tt
      go (some n, b) e = elim (String-cases n.hostport hostport) [
        | inl same ↦
            absurd (absent n (subst (IsBest m key h.nodes) (sym e) (get-IsBest m key h)).0 same)
        | inr differ ↦ rw differ tt
      ]

  changes-IsSilent :
      (h : NodeHash) (hostport : String) (keys : List String)
      → ((n : Node) → Mem n h.nodes → n.hostport ≢ hostport)
      → All IsSilent (map (λ key. remove_change m hostport (get_nodes m h key)) keys)
  changes-IsSilent h hostport [] absent = tt
  changes-IsSilent h hostport (key ∷ keys) absent =
      (remove_change-IsSilent h hostport key absent, changes-IsSilent h hostport keys absent)

  All-IsSilent :
      (h : NodeHash) (hostport : String)
      → ((n : Node) → Mem n h.nodes → n.hostport ≢ hostport)
      → All IsSilent (changes m (remove_change m) hostport h)
  unfolding changes get_nodes
  All-IsSilent h hostport absent = go h.on_update
    where
      go :
          (u : Option (List String))
          → All IsSilent
              (changes m (remove_change m) hostport (record { nodes = h.nodes; on_update = u }))
      go none = tt
      go (some keys) = changes-IsSilent h hostport keys absent

  remove_found-changes :
      (h : NodeHash) (hostname : String) (n : Node) (i : ℕ)
      → find_host hostname h.nodes 0 ≡ some (n, i)
      → (remove m h hostname).1 ≡ changes m (remove_change m) n.hostport (remove m h hostname).0
  unfolding remove
  remove_found-changes h hostname n i e = rw (e, remove)

  remove_absent-changes :
      (h : NodeHash) (hostname : String)
      → find_host hostname h.nodes 0 ≡ none
      → (remove m h hostname).1 ≡ []
  unfolding remove
  remove_absent-changes h hostname e = rw (e, remove)

  -- When the nodes have different hostports, `Remove` reports no key as moved, whichever node
  -- leaves and whatever keys there are.
  pub remove-IsSilent :
      (h : NodeHash) (hostname : String)
      → Nodup (map (λ (n : Node). n.hostport) h.nodes)
      → All IsSilent (remove m h hostname).1
  remove-IsSilent h hostname d = elim (Option-cases (find_host hostname h.nodes 0)) [
    | inl e ↦ subst (All IsSilent) (sym (remove_absent-changes h hostname e)) tt
    | inr (r, e) ↦
        let left : NodeHash = (remove m h hostname).0 in
        let p : Perm (r.0 ∷ left.nodes) h.nodes = remove_found-perm m h hostname r.0 r.1 e in
        let fresh : ¬ Mem r.0.hostport (map (λ (n : Node). n.hostport) left.nodes) =
          (Nodup-cons.0 (Perm.nodup (Perm.symm (Perm.map (λ (n : Node). n.hostport) p)) d)).0 in
        subst (All IsSilent) (sym (remove_found-changes h hostname r.0 r.1 e)) (
          All-IsSilent left r.0.hostport (λ n i same. fresh (
            subst (λ s. Mem s (map (λ (k : Node). k.hostport) left.nodes)) same
              (mem-map_of_mem (λ (k : Node). k.hostport) i))))
  ]
