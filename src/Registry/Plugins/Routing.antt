-- ===== src/Registry/Plugins/Routing.antt =====
-- Requests for a repository and the events of the repository go to the same node.
use mathlib.Core.Path.{subst}
use beskar.Prelude.{◌≡◌, ◌∙◌, ap, ◌⊎◌, inl, inr, true, false, none, some, arith, ◌==◌, Option-cases}
use beskar.Prelude.Outcome.{done}
use beskar.Prelude.Result.{ok, err}
use beskar.Event.{EventPayload}
use beskar.Rv.{Node}
use beskar.Rv
use beskar.Rv.Best.{IsBest, get-IsBest}
use beskar.Registry.Plugins.{
  Plugin, Outside, Request, Decision, Router, code, forward, decided, serve_plugin, event_node,
}

serve_plugin-decided :
    (o : Outside) (p : Plugin) (r : Request) (router : Router) (d : Decision)
    → p.router ≡ some router
    → router r ≡ ok d
    → serve_plugin o p r ≡ done (decided o p r d)
unfolding serve_plugin
serve_plugin-decided o p r router d e f = rw (e, f)

-- When the router finds the repository of an event and does not redirect, either some node of the
-- plugin has a greatest hash for the repository that is not zero: then the request is forwarded to
-- it, and the event is sent to it; or there is none: then the request is answered with 502, and the
-- event finds no node.
pub serve-event_node :
    (o : Outside) (p : Plugin) (r : Request) (event : EventPayload) (router : Router) (d : Decision)
    → p.router ≡ some router
    → router r ≡ ok d
    → d.found ≡ true
    → (d.redirect_url == "") ≡ true
    → d.repository ≡ o.dir event.repository
    → (d.repository == "") ≡ false
    → ((n : Node) × (serve_plugin o p r ≡ done (forward n.hostport))
        × (event_node o p event none ≡ ok n)
        × IsBest o.murmur (o.dir event.repository) p.node_hash.nodes (some n))
      ⊎ ((serve_plugin o p r ≡ done (code 502))
          × (event_node o p event none ≡ err "no node found for repository")
          × IsBest o.murmur (o.dir event.repository) p.node_hash.nodes none)
unfolding decided event_node
serve-event_node o p r event router d pr rr f nr same ne =
    let best = get-IsBest o.murmur (o.dir event.repository) p.node_hash in
    let owner = Rv.get o.murmur p.node_hash (o.dir event.repository) in
    let at_d : Rv.get o.murmur p.node_hash d.repository ≡ owner =
      ap (Rv.get o.murmur p.node_hash) same in
    let served = serve_plugin-decided o p r router d pr rr in
    elim (Option-cases owner) [
      | inl g ↦ inr (
        served ∙ ap done (ground (arith, f, nr, ne, at_d, g)),
        ground (arith, g),
        subst (IsBest o.murmur (o.dir event.repository) p.node_hash.nodes) g best,
      )
      | inr (n, g) ↦ inl (
        n,
        served ∙ ap done (ground (arith, f, nr, ne, at_d, g)),
        ground (arith, g),
        subst (IsBest o.murmur (o.dir event.repository) p.node_hash.nodes) g best,
      )
    ]
