-- ===== src/Registry/Plugins/Members.antt =====
-- The nodes of the plugins when members of the cluster join and leave.
use mathlib.Core.Path.{subst}
use mathlib.Core.Option.{some-injective}
use beskar.Prelude.{
  ℕ, String, ◌≡◌, ◌∙◌, ap, sym, refl, inl, inr, none, some, arith, ◌==◌, Option-cases, Bool-cases,
  if◌then◌else◌,
}
use beskar.Prelude.Dict
use beskar.Prelude.Dict.{lookup-insert, Dict}
use beskar.Prelude.Outcome.{Err}
use beskar.Prelude.Result.{Result-cases}
use beskar.Rv.Nodes.{IsValid, new_node_hash-IsValid, add-IsValid, remove-IsValid}
use beskar.Registry.Plugins.{
  Plugin, PluginManager, NodeInfo, Info, Outside, Member, hostport_of, info_of, enter,
  register_info, register, unregister, init_router, router_options, new_plugin, upgrade, add_new,
  add_old,
}

-- The nodes of every plugin are sorted by seed, with one node for each hostname.
pub record HasValidNodes (pm : PluginManager) : Type 0 where
  pub each :
      (name : String) (pl : Plugin) → Dict.lookup name pm.plugins ≡ some pl → IsValid pl.node_hash

insert-HasValidNodes :
    (pm : PluginManager) (infos : Dict NodeInfo) (name : String) (pl : Plugin)
    → HasValidNodes pm
    → IsValid pl.node_hash
    → HasValidNodes (record { plugins = Dict.insert name pl pm.plugins; nodes_info = infos })
insert-HasValidNodes pm infos name pl v w = record {
  each = λ other q e. go other q (sym (lookup-insert name other pl pm.plugins) ∙ e);
}
  where
    go :
        (other : String) (q : Plugin)
        → (if name == other then some pl else Dict.lookup other pm.plugins) ≡ some q
        → IsValid q.node_hash
    go other q e = elim (Bool-cases (name == other)) [
      | inl same ↦
          let e' : some pl ≡ some q = ground (arith, e, same) in
          subst IsValid (ap (λ (x : Plugin). x.node_hash) (some-injective pl q e')) w
      | inr differ ↦ v.each other q (ground (arith, e, differ))
    ]

module _ (o : Outside) (body_limit : ℕ) (node : Member) where
  enter-HasValidNodes :
      (pl : Plugin) (name : String) (pm : PluginManager)
      → IsValid pl.node_hash
      → HasValidNodes pm
      → HasValidNodes (enter o node pl name pm)
  unfolding enter
  enter-HasValidNodes pl name pm w v =
      insert-HasValidNodes pm _ name _ v
        (add-IsValid o.murmur pl.node_hash node.hostname (hostport_of o node) w)

  init_router-node_hash :
      (info : Info) (pl : Plugin) → (init_router o body_limit info pl).1.node_hash ≡ pl.node_hash
  unfolding init_router
  init_router-node_hash info pl = elim (Option-cases info.router) [
    | inl e ↦ rw e refl
    | inr (r, e) ↦
        elim (Result-cases (o.new_router info.name r.rego (router_options r body_limit))) [
          | inl (router, f) ↦ rw (e, init_router, f) refl
          | inr (w, f) ↦ rw (e, init_router, f) refl
        ]
  ]

  init_router-IsValid :
      (info : Info) (pl : Plugin)
      → IsValid pl.node_hash
      → IsValid (init_router o body_limit info pl).1.node_hash
  init_router-IsValid info pl v = subst IsValid (sym (init_router-node_hash info pl)) v

  register_new-HasValidNodes :
      (info : Info) (pm : PluginManager)
      → Dict.lookup info.name pm.plugins ≡ none
      → HasValidNodes pm
      → HasValidNodes (register_info o body_limit node info pm).1
  unfolding register_info new_plugin add_new
  register_new-HasValidNodes info pm l v =
      rw (l, register_info)
        (go (init_router o body_limit info (new_plugin info))
          (init_router-IsValid info (new_plugin info) (new_node_hash-IsValid none)))
    where
      go :
          (r : Err × Plugin)
          → IsValid r.1.node_hash
          → HasValidNodes (add_new o node info.name pm r).1
      go (none, pl) w = enter-HasValidNodes pl info.name pm w v
      go (some e, pl) w = v

  register_old-HasValidNodes :
      (info : Info) (pm : PluginManager) (old : Plugin)
      → Dict.lookup info.name pm.plugins ≡ some old
      → HasValidNodes pm
      → HasValidNodes (register_info o body_limit node info pm).1
  unfolding register_info add_old
  register_old-HasValidNodes info pm old l v =
      elim (Bool-cases (o.is_older old.version info.version)) [
        | inl e ↦
            rw (l, register_info, e)
              (go (init_router o body_limit info (upgrade info old))
                (init_router-IsValid info (upgrade info old) (v.each info.name old l)))
        | inr e ↦
            rw (l, register_info, e)
              (enter-HasValidNodes old info.name pm (v.each info.name old l) v)
      ]
    where
      go :
          (r : Err × Plugin)
          → IsValid r.1.node_hash
          → HasValidNodes (add_old o node info.name pm r).1
      go (none, pl) w = enter-HasValidNodes pl info.name pm w v
      go (some e, pl) w = insert-HasValidNodes pm pm.nodes_info info.name pl v w

  -- When the nodes of every plugin are sorted by seed with one node for each hostname, they are so
  -- after a member has registered, accepted or refused.
  pub register-HasValidNodes :
      (pm : PluginManager) → HasValidNodes pm → HasValidNodes (register o body_limit node pm).1
  unfolding register
  register-HasValidNodes pm v = elim (Result-cases (o.plugin_info (hostport_of o node))) [
    | inr (w, e) ↦ rw (e, register) v
    | inl (info, e) ↦
        rw (e, register)
          (elim (Option-cases (Dict.lookup info.name pm.plugins)) [
            | inl l ↦ register_new-HasValidNodes info pm l v
            | inr (old, l) ↦ register_old-HasValidNodes info pm old l v
          ])
  ]

-- When the nodes of every plugin are sorted by seed with one node for each hostname, they are so
-- after a member has left.
pub unregister-HasValidNodes :
    (o : Outside) (node : Member) (pm : PluginManager)
    → HasValidNodes pm
    → HasValidNodes (unregister o node pm)
unfolding unregister
unregister-HasValidNodes o node pm v =
    elim (Option-cases (Dict.lookup (info_of (hostport_of o node) pm).plugin_name pm.plugins)) [
      | inl l ↦ rw (l, unregister) v
      | inr (pl, l) ↦ elim (Bool-cases ((info_of (hostport_of o node) pm).node_name == node.name)) [
        | inl e ↦
            rw (l, unregister, e)
              (insert-HasValidNodes pm _ _ _ v
                (remove-IsValid o.murmur pl.node_hash node.hostname (v.each _ pl l)))
        | inr e ↦ rw (l, unregister, e) v
      ]
    ]
