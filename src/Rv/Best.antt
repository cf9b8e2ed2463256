-- ===== src/Rv/Best.antt =====
-- What `Get` computes: a node of greatest hash, whatever the order of the nodes.
use mathlib.Core.List.{Mem, mem-cons_self, mem-cons_of_mem}
use mathlib.Core.Path.{subst}
use native.Mathlib.Bridge.{le_prop}
use beskar.Prelude.{
  ℕ, ◌<◌, ◌≤◌, String, ◌≡◌, refl, sym, ap, ◌↔◌, ◌⊎◌, inl, inr, true, false, Option, none, some,
  List, [], ◌∷◌, arith, All, Mem-All, All-of_Mem, ltb, ltb→lt, ltb→le, Bool-cases,
}
use beskar.Rv.{Murmur, Node, NodeHash, hash, better, get_loop, get}

module _ (m : Murmur) (key : String) where
  -- The node that a key belongs to: one of the nodes, of positive hash and of the greatest;
  -- no node, when every hash is 0.
  abbrev pub IsBest : List Node → Option Node → Type 0
  IsBest ns none = All (λ n. hash m n key ≤ 0) ns
  IsBest ns (some b) = Mem b ns × (0 < hash m b key) × All (λ n. hash m n key ≤ hash m b key) ns

  weaken :
      (a b : ℕ) (ns : List Node)
      → a ≤ b
      → All (λ n. hash m n key ≤ a) ns
      → All (λ n. hash m n key ≤ b) ns
  weaken a b [] h p = tt
  weaken a b (n ∷ ns) h p = (omega (arith, p.0), weaken a b ns h p.1)

  -- The loop from the state (h, b): it ends at a bound of all hashes, which is the start's or that
  -- of the node it names.
  abbrev Ends : ℕ → Option Node → List Node → ℕ × Option Node → Type 0
  Ends h b ns (h', r) =
      (h ≤ h')
      × All (λ n. hash m n key ≤ h') ns
      × (((r ≡ b) × (h' ≡ h))
          ⊎ ((n : Node) × Mem n ns × (r ≡ some n) × (h' ≡ hash m n key) × (h < hash m n key)))

  better_above :
      (h : ℕ) (b : Option Node) (n : Node)
      → ltb h (hash m n key) ≡ true
      → better m key n (h, b) ≡ (hash m n key, some n)
  unfolding better
  better_above h b n e = ground arith

  better_below :
      (h : ℕ) (b : Option Node) (n : Node)
      → ltb h (hash m n key) ≡ false
      → better m key n (h, b) ≡ (h, b)
  unfolding better
  better_below h b n e = ground arith

  get_loop-Ends :
      (h : ℕ) (b : Option Node) (ns : List Node) → Ends h b ns (get_loop m key ns (h, b))
  unfolding get_loop
  get_loop-Ends h b [] = (omega arith, tt, inl (refl, refl))
  get_loop-Ends h b (n ∷ ns) = elim (Bool-cases (ltb h (hash m n key))) [
    | inl e ↦
        subst (λ s. Ends h b (n ∷ ns) (get_loop m key ns s)) (sym (better_above h b n e))
          (above (ltb→lt _ _ e) (get_loop-Ends (hash m n key) (some n) ns))
    | inr e ↦
        subst (λ s. Ends h b (n ∷ ns) (get_loop m key ns s)) (sym (better_below h b n e))
          (below (ltb→le _ _ e) (get_loop-Ends h b ns))
  ]
    where
      above :
          {s : ℕ × Option Node}
          → h < hash m n key
          → Ends (hash m n key) (some n) ns s
          → Ends h b (n ∷ ns) s
      above lt (low, all, inl (p, q)) = (omega arith, (low, all), inr (n, mem-cons_self, p, q, lt))
      above lt (low, all, inr (k, mem, p, q, gt)) =
          (omega arith, (low, all), inr (k, mem-cons_of_mem n mem, p, q, omega arith))

      below : {s : ℕ × Option Node} → hash m n key ≤ h → Ends h b ns s → Ends h b (n ∷ ns) s
      below le (low, all, inl pq) = (low, (omega arith, all), inl pq)
      below le (low, all, inr (k, mem, p, q, gt)) =
          (low, (omega arith, all), inr (k, mem-cons_of_mem n mem, p, q, gt))

  -- `Get` returns a node of positive and greatest hash for the key among the nodes, or none when
  -- every hash is 0.
  pub get-IsBest : (h : NodeHash) → IsBest h.nodes (get m h key)
  unfolding get
  get-IsBest h =
      let (low, all, r) = get_loop-Ends 0 none h.nodes in
      elim r [
        | inl (p, q) ↦ rw p (rw q at all)
        | inr (k, mem, p, q, lt) ↦ rw p (mem, lt, rw q at all)
      ]

  -- Different nodes have different hashes for the key.
  abbrev pub DistinctHashes : List Node → Type 0
  DistinctHashes ns = (a b : Node) → Mem a ns → Mem b ns → hash m a key ≡ hash m b key → a ≡ b

  at_most :
      (b : ℕ) (ns : List Node) (a : Node)
      → All (λ n. hash m n key ≤ b) ns
      → Mem a ns
      → hash m a key ≤ b
  at_most b ns a = Mem-All (λ n. hash m n key ≤ b) (λ n. le_prop) ns a

  -- Then the owner of a key is unique.
  pub IsBest-eq :
      (ns : List Node) (r s : Option Node) → DistinctHashes ns → IsBest ns r → IsBest ns s → r ≡ s
  IsBest-eq ns none none d p q = refl
  IsBest-eq ns none (some b) d p q = absurd (omega (arith, at_most 0 ns b p q.0, q.1))
  IsBest-eq ns (some a) none d p q = absurd (omega (arith, at_most 0 ns a q p.0, p.1))
  IsBest-eq ns (some a) (some b) d p q = ap some (
      d a b p.0 q.0
        (omega (arith, at_most (hash m a key) ns b p.2 q.0, at_most (hash m b key) ns a q.2 p.0)))

  -- The owner depends on the set of nodes, not on their order.
  pub IsBest-of_same :
      (ns ks : List Node) (r : Option Node)
      → ((a : Node) → Mem a ks ↔ Mem a ns)
      → IsBest ns r
      → IsBest ks r
  IsBest-of_same ns ks none e p =
      All-of_Mem (λ n. hash m n key ≤ 0) ks (λ a i. at_most 0 ns a p ((e a).0 i))
  IsBest-of_same ns ks (some b) e p = (
    (e b).1 p.0,
    p.1,
    All-of_Mem (λ n. hash m n key ≤ hash m b key) ks
        (λ a i. at_most (hash m b key) ns a p.2 ((e a).0 i)),
  )

  -- A node that stays remains the owner when others leave.
  pub IsBest-of_fewer :
      (ns ks : List Node) (b : Node)
      → ((a : Node) → Mem a ks → Mem a ns)
      → Mem b ks
      → IsBest ns (some b)
      → IsBest ks (some b)
  IsBest-of_fewer ns ks b sub i p = (
    i,
    p.1,
    All-of_Mem (λ n. hash m n key ≤ hash m b key) ks
        (λ a j. at_most (hash m b key) ns a p.2 (sub a j)),
  )

  -- One more node takes the key over or leaves it where it was.
  pub IsBest-of_one_more :
      (ns : List Node) (k : Node) (r : Option Node)
      → IsBest ns r
      → IsBest (k ∷ ns) r ⊎ IsBest (k ∷ ns) (some k)
  IsBest-of_one_more ns k none p = elim (Bool-cases (ltb 0 (hash m k key))) [
    | inl e ↦
        inr (mem-cons_self, ltb→lt _ _ e, (omega arith, weaken 0 (hash m k key) ns (omega arith) p))
    | inr e ↦ inl (ltb→le _ _ e, p)
  ]
  IsBest-of_one_more ns k (some b) p = elim (Bool-cases (ltb (hash m b key) (hash m k key))) [
    | inl e ↦ inr (
      mem-cons_self,
      omega (arith, ltb→lt _ _ e),
      (omega arith, weaken (hash m b key) (hash m k key) ns (omega (arith, ltb→lt _ _ e)) p.2),
    )
    | inr e ↦ inl (mem-cons_of_mem k p.0, p.1, (ltb→le _ _ e, p.2))
  ]
