-- ===== src/Registry/Plugins/Examples.antt =====
-- The theorems on the plugins at a concrete registry with one plugin of two nodes.
use mathlib.Core.Logic.Or
use mathlib.Core.Path.{subst}
use mathlib.Core.Option.{some-injective}
use mathlib.Core.List.{Nodup-nil, Nodup-cons, mem-cons, not-mem-nil}
use beskar.Prelude.{
  ◌-◌, String, ◌≡◌, ◌≢◌, ap, refl, inl, inr, ◌⊎◌, true, false, none, some, [], ◌∷◌, arith, ◌==◌,
  if◌then◌else◌, eq_iff, Bool-cases,
}
use beskar.Prelude.Dict
use beskar.Prelude.Outcome.{done}
use beskar.Prelude.Result.{ok, err}
use beskar.Event.{EventPayload, Action, Origin}
use beskar.Rv.{Murmur, Node}
use beskar.Rv.Best.{IsBest}
use beskar.Rv.Nodes.{IsValid}
use beskar.Registry.Plugins.{
  Plugin, PluginManager, Outside, Member, Request, Router, forward, code, serve_plugin, event_node,
}
use beskar.Registry.Plugins.Routing.{serve-event_node}
use beskar.Registry.Plugins.Members.{HasValidNodes}

abbrev murmur : Murmur
murmur = record {
  string_sum64 = λ s. if s == "a" then 10 else 20;
  seed_string_sum64 = λ seed key. if key == "yum/el9" then seed else 100 - seed;
}

-- The node at 10.0.0.3 offers an upgrade of the plugin; only the router "good" compiles.
abbrev outside : Outside
outside = record {
  murmur = murmur;
  join_host_port = λ host port. host;
  plugin_info = λ hostport. ok (record {
    name = "yum";
    version = "v2";
    mediatypes = "rpm" ∷ "repomd" ∷ [];
    router = some (record { rego = "bad"; content = "" });
  });
  is_older = λ v w. if v == "v1" then w == "v2" else false;
  new_router =
      λ name rego options. if rego == "good" then ok (λ q. err "") else err "rego parse error";
  dir = λ s. if s == "artifacts/yum/el9/packages" then "yum/el9" else s;
  artifacts_match = λ p. some "yum";
}

abbrev node_a : Node
node_a = record { hostname = "a"; hostport = "10.0.0.1"; seed = 10 }

abbrev node_b : Node
node_b = record { hostname = "b"; hostport = "10.0.0.2"; seed = 20 }

abbrev router : Router
router = λ q. ok (record { found = true; redirect_url = ""; repository = "yum/el9" })

abbrev yum : Plugin
yum = record {
  node_hash = record { nodes = node_a ∷ node_b ∷ []; on_update = none };
  name = "yum";
  version = "v1";
  media_types = "rpm" ∷ [];
  router = some router;
}

abbrev registry : PluginManager
registry = record {
  plugins = ("yum", yum) ∷ [];
  nodes_info = ("10.0.0.1", record { plugin_name = "yum"; node_name = "node-a" }) ∷ [];
}

abbrev member : Member
member = record { name = "node-c"; addr = "10.0.0.3"; hostname = "c"; service_port = 443 }

abbrev leaving : Member
leaving = record { name = "node-a"; addr = "10.0.0.1"; hostname = "a"; service_port = 443 }

abbrev request : Request
request = record { path = "/artifacts/yum/el9/repo"; remote_addr = "10.1.1.1:5"; rest = "" }

abbrev event : EventPayload
event = record {
  repository = "artifacts/yum/el9/packages";
  digest = "sha256:aa";
  mediatype = "manifest";
  payload = "m";
  action = Action.put;
  origin = Origin.external;
}

serve-event_node_example :
    ((n : Node) × (serve_plugin outside yum request ≡ done (forward n.hostport))
      × (event_node outside yum event none ≡ ok n)
      × IsBest murmur "yum/el9" yum.node_hash.nodes (some n))
    ⊎ ((serve_plugin outside yum request ≡ done (code 502))
        × (event_node outside yum event none ≡ err "no node found for repository")
        × IsBest murmur "yum/el9" yum.node_hash.nodes none)
serve-event_node_example =
    serve-event_node outside yum request event router
      (record { found = true; redirect_url = ""; repository = "yum/el9" }) refl refl refl refl refl
      refl

text-ne : (s t : String) → (s == t) ≡ false → s ≢ t
text-ne s t e p = ground (arith, e, eq_iff s t, p)

yum-IsValid : IsValid yum.node_hash
yum-IsValid = record {
  by_seed = ((refl, tt), (tt, tt));
  one_each = Nodup-cons.1 (
    λ i. Or.elim (λ a. absurd a) (mem-cons.0 i) (text-ne "a" "b" refl) (λ j. not-mem-nil j),
    Nodup-cons.1 (λ i. not-mem-nil i, Nodup-nil),
  );
}

registry-HasValidNodes : HasValidNodes registry
unfolding Dict.lookup
registry-HasValidNodes = record {
  each = λ name pl e. elim (Bool-cases ("yum" == name)) [
    | inl same ↦
        (let e' : some yum ≡ some pl = ground (arith, e, same) in
          subst IsValid (ap (λ (x : Plugin). x.node_hash) (some-injective yum pl e')) yum-IsValid)
    | inr differ ↦ absurd (ground (arith, e, differ))
  ];
}
