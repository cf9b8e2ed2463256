-- ===== src/Registry/Plugins/Upgrade.antt =====
-- An upgrade of a plugin whose new router is refused.
use beskar.Prelude.{ℕ, String, ◌≡◌, ◌∙◌, refl, true, false, none, some}
use beskar.Prelude.Dict
use beskar.Prelude.Dict.{lookup-insert_self}
use beskar.Prelude.Result.{ok, err}
use beskar.Registry.Plugins.{
  Plugin, PluginManager, Info, RouterInfo, Outside, Member, hostport_of, enter, register_info,
  register, init_router, router_options, add_old, upgrade,
}

module _ (o : Outside) (body_limit : ℕ) (node : Member) (info : Info) (pm : PluginManager) where
  refused :
      (old : Plugin) (ri : RouterInfo) (e : String)
      → Dict.lookup info.name pm.plugins ≡ some old
      → o.is_older old.version info.version ≡ true
      → info.router ≡ some ri
      → o.new_router info.name ri.rego (router_options ri body_limit) ≡ err e
      → register_info o body_limit node info pm
        ≡ (some e, record pm { plugins = Dict.insert info.name (upgrade info old) pm.plugins })
  unfolding register_info init_router add_old
  refused old ri e l older r f = rw (l, register_info, older, r, init_router, f)

  register-ok :
      o.plugin_info (hostport_of o node) ≡ ok info
      → register o body_limit node pm ≡ register_info o body_limit node info pm
  unfolding register
  register-ok e = rw (e, register)

  same_version :
      (old : Plugin)
      → Dict.lookup info.name pm.plugins ≡ some old
      → o.is_older old.version info.version ≡ false
      → register_info o body_limit node info pm ≡ (none, enter o node old info.name pm)
  unfolding register_info
  same_version old l older = rw (l, register_info, older)

-- When a member offers a newer version of a known plugin with a router that does not compile, its
-- registration is refused with the error but leaves the new version in place: the same member
-- registering again is accepted, and the plugin then has the new version and media types with the
-- old router.
pub register_again :
    (o : Outside) (body_limit : ℕ) (node : Member) (info : Info) (pm : PluginManager) (old : Plugin)
    (ri : RouterInfo) (e : String)
    → o.plugin_info (hostport_of o node) ≡ ok info
    → Dict.lookup info.name pm.plugins ≡ some old
    → o.is_older old.version info.version ≡ true
    → o.is_older info.version info.version ≡ false
    → info.router ≡ some ri
    → o.new_router info.name ri.rego (router_options ri body_limit) ≡ err e
    → (refused_pm : PluginManager) × (register o body_limit node pm ≡ (some e, refused_pm))
      × (pm' : PluginManager) × (register o body_limit node refused_pm ≡ (none, pm'))
      × (pl : Plugin) × (Dict.lookup info.name pm'.plugins ≡ some pl)
      × (pl.version ≡ info.version)
      × (pl.media_types ≡ info.mediatypes)
      × (pl.router ≡ old.router)
unfolding enter
register_again o body_limit node info pm old ri e pi l older same r f =
    let upgraded : Plugin = upgrade info old in
    let refused_pm : PluginManager = record pm {
      plugins = Dict.insert info.name upgraded pm.plugins;
    } in
    (
      refused_pm,
      register-ok o body_limit node info pm pi
          ∙ refused o body_limit node info pm old ri e l older r f,
      enter o node upgraded info.name refused_pm,
      register-ok o body_limit node info refused_pm pi
          ∙ same_version o body_limit node info refused_pm upgraded
              (lookup-insert_self info.name upgraded pm.plugins) same,
      _,
      lookup-insert_self info.name _ refused_pm.plugins,
      refl,
      refl,
      refl,
    )
