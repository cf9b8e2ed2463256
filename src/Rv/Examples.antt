-- ===== src/Rv/Examples.antt =====
-- The theorems on rendezvous hashing at a concrete hash and concrete nodes.
use mathlib.Core.Logic.Or
use mathlib.Core.List.{Mem, Nodup, Nodup-nil, Nodup-cons, mem-cons, not-mem-nil}
use mathlib.Core.Path.{subst}
use mathlib.Core.HLevel.{hedberg}
use native.Mathlib.Decide.{ℕ_discrete}
use beskar.Prelude.{
  ◌-◌, String, ◌≡◌, ◌≢◌, refl, sym, ap, ◌∙◌, ◌⊎◌, inl, inr, false, none, some, List, [], ◌∷◌, ◌==◌,
  if◌then◌else◌, arith, All, Mem-All, map, eq_iff, String-cases,
}
use beskar.Rv.{
  get_loop, better, Murmur, Node, NodeHash, new_node, hash, get, get_nodes, has_host, add, remove,
}
use beskar.Prelude.Sort.{stable_sort}
use beskar.Rv.Best.{IsBest, get-IsBest, DistinctHashes}
use beskar.Rv.Nodes.{IsValid, add-IsValid, remove-IsValid}
use beskar.Rv.Stability.{get-add}
use beskar.Rv.Notify.{IsSilent, get_nodes-get, get_nodes_no_second, remove-IsSilent}

-- A hash that orders the nodes by name for one key and the other way round for the others.
abbrev murmur : Murmur
murmur = record {
  string_sum64 = λ s. if s == "a" then 10 else if s == "b" then 20 else 30;
  seed_string_sum64 = λ seed key. if key == "x" then seed else 100 - seed;
}

abbrev node_a : Node
node_a = record { hostname = "a"; hostport = "10.0.0.1:80"; seed = 10 }

abbrev node_b : Node
node_b = record { hostname = "b"; hostport = "10.0.0.2:80"; seed = 20 }

abbrev node_c : Node
node_c = record { hostname = "c"; hostport = "10.0.0.3:80"; seed = 30 }

abbrev two_nodes : NodeHash
two_nodes = record { nodes = node_a ∷ node_b ∷ []; on_update = some ("x" ∷ "y" ∷ []) }

String-Discrete : Discrete String
String-Discrete s t = elim (String-cases s t) [
  | inl e ↦ yes e
  | inr e ↦ no (λ p. ground (arith, e, eq_iff s t, p))
]

Node-IsSet : IsSet Node
Node-IsSet = hedberg (λ a b. elim (String-Discrete a.hostname b.hostname) [
  | no d ↦ no (λ p. d (ap (λ x. x.hostname) p))
  | yes e ↦ elim (String-Discrete a.hostport b.hostport) [
    | no d ↦ no (λ p. d (ap (λ x. x.hostport) p))
    | yes f ↦ elim (ℕ_discrete a.seed b.seed) [
      | no d ↦ no (λ p. d (ap (λ x. x.seed) p))
      | yes g ↦ yes (cc)
    ]
  ]
])

distinct_cons :
    (m : Murmur) (key : String) (n : Node) (ns : List Node)
    → All (λ k. hash m n key ≢ hash m k key) ns
    → DistinctHashes m key ns
    → DistinctHashes m key (n ∷ ns)
distinct_cons m key n ns all d a b i j e =
    let apart : (k : Node) → Mem k ns → hash m n key ≢ hash m k key =
      λ k i. Mem-All (λ k. hash m n key ≢ hash m k key) (λ k. hlevel) ns k all i in
    Or.elim (Node-IsSet a b) (mem-cons.0 i)
      (λ p.
        Or.elim (Node-IsSet a b) (mem-cons.0 j) (λ q. p ∙ sym q)
          (λ q. absurd (apart b q (ap (λ x. hash m x key) (sym p) ∙ e))))
      (λ p.
        Or.elim (Node-IsSet a b) (mem-cons.0 j)
          (λ q. absurd (apart a p (ap (λ x. hash m x key) (sym q) ∙ sym e))) (λ q. d a b p q e))

two_nodes-DistinctHashes : DistinctHashes murmur "x" two_nodes.nodes
unfolding hash
two_nodes-DistinctHashes =
    distinct_cons murmur "x" node_a (node_b ∷ []) (λ e. absurd (omega (arith, e)), tt)
      (distinct_cons murmur "x" node_b [] tt (λ a b i. absurd (not-mem-nil i)))

three_nodes : (add murmur two_nodes "c" "10.0.0.3:80").0.nodes ≡ node_a ∷ node_b ∷ node_c ∷ []
unfolding add has_host new_node stable_sort
three_nodes = refl

three_nodes-DistinctHashes : DistinctHashes murmur "x" (node_a ∷ node_b ∷ node_c ∷ [])
unfolding hash
three_nodes-DistinctHashes =
    distinct_cons murmur "x" node_a (node_b ∷ node_c ∷ [])
      (λ e. absurd (omega (arith, e)), (λ e. absurd (omega (arith, e)), tt))
      (distinct_cons murmur "x" node_b (node_c ∷ []) (λ e. absurd (omega (arith, e)), tt)
        (distinct_cons murmur "x" node_c [] tt (λ a b i. absurd (not-mem-nil i))))

owner_of_x : get murmur two_nodes "x" ≡ some node_b
unfolding get hash get_loop better
owner_of_x = refl

text-ne : (s t : String) → (s == t) ≡ false → s ≢ t
text-ne s t e p = ground (arith, e, eq_iff s t, p)

two_nodes-IsValid : IsValid two_nodes
two_nodes-IsValid = record {
  by_seed = ((refl, tt), (tt, tt));
  one_each = Nodup-cons.1 (
    λ i. Or.elim (λ a. absurd a) (mem-cons.0 i) (text-ne "a" "b" refl) (λ j. not-mem-nil j),
    Nodup-cons.1 (λ i. not-mem-nil i, Nodup-nil),
  );
}

two_ports : Nodup (map (λ (n : Node). n.hostport) two_nodes.nodes)
two_ports = Nodup-cons.1 (
  λ i.
      Or.elim (λ a. absurd a) (mem-cons.0 i) (text-ne "10.0.0.1:80" "10.0.0.2:80" refl)
        (λ j. not-mem-nil j),
  Nodup-cons.1 (λ i. not-mem-nil i, Nodup-nil),
)

get-IsBest_example : IsBest murmur "x" two_nodes.nodes (get murmur two_nodes "x")
get-IsBest_example = get-IsBest murmur "x" two_nodes

add-IsValid_example : IsValid (add murmur two_nodes "c" "10.0.0.3:80").0
add-IsValid_example = add-IsValid murmur two_nodes "c" "10.0.0.3:80" two_nodes-IsValid

remove-IsValid_example : IsValid (remove murmur two_nodes "a").0
remove-IsValid_example = remove-IsValid murmur two_nodes "a" two_nodes-IsValid

get-add_example :
    (get murmur (add murmur two_nodes "c" "10.0.0.3:80").0 "x" ≡ get murmur two_nodes "x")
    ⊎ (get murmur (add murmur two_nodes "c" "10.0.0.3:80").0 "x"
        ≡ some (new_node murmur "c" "10.0.0.3:80"))
unfolding has_host
get-add_example =
    get-add murmur "x" two_nodes "c" "10.0.0.3:80" refl
      (subst (DistinctHashes murmur "x") (sym three_nodes) three_nodes-DistinctHashes)

get_nodes-get_example : (get_nodes murmur two_nodes "x").0 ≡ get murmur two_nodes "x"
get_nodes-get_example = get_nodes-get murmur "x" two_nodes

get_nodes_no_second_example : get_nodes murmur two_nodes "y" ≡ (some node_a, none)
unfolding hash
get_nodes_no_second_example =
    get_nodes_no_second murmur "y" two_nodes node_a (node_b ∷ []) refl (omega arith)
      (omega arith, tt)

remove-IsSilent_example : All IsSilent (remove murmur two_nodes "b").1
remove-IsSilent_example = remove-IsSilent murmur two_nodes "b" two_ports
