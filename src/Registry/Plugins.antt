-- ===== src/Registry/Plugins.antt =====
-- internal/pkg/beskar/plugin.go: the plugins that the registry knows, the nodes of each, and which
-- node a request or an event goes to.
-- Outside the repository, and so arguments: the network (what a node answers to `/info`), the Rego
-- engine (what compiling a router gives, and what the compiled router decides), semver, net, and
-- path/filepath. `register` and `unregister` hold the write lock but for the call of `/info`, so
-- each is one step.
pub mod Routing
pub mod Members
pub mod Upgrade
mod Examples
use beskar.Prelude.{
  ℕ, ltb, ◌++◌, has, String, Bool, true, false, Option, none, some, List, [], ◌∷◌, if◌then◌else◌,
  ◌==◌,
}
use beskar.Prelude.Dict
use beskar.Prelude.Dict.{Dict}
use beskar.Prelude.Outcome.{Outcome, done, panic, Err}
use beskar.Prelude.Result.{Result, ok, err}
use beskar.Event.{EventPayload}
use beskar.Rv.{Murmur, Node, NodeHash, new_node_hash}
use beskar.Rv

-- The parts of an http.Request that are read; `rest` stands for what only a router reads.
pub record Request : Type 0 where
  pub path : String
  pub remote_addr : String
  pub rest : String

-- router.Result.
pub record Decision : Type 0 where
  pub found : Bool
  pub redirect_url : String
  pub repository : String

-- A compiled router, with the registry that it asks.
abbrev pub Router : Type 0
Router = Request → Result Decision

pub record RouterInfo : Type 0 where
  pub rego : String
  pub content : String

-- pluginv1.Info.
pub record Info : Type 0 where
  pub name : String
  pub version : String
  pub mediatypes : List String
  pub router : Option RouterInfo

pub record Plugin : Type 0 where
  pub node_hash : NodeHash
  pub name : String
  pub version : String
  pub media_types : List String
  pub router : Option Router

pub record NodeInfo : Type 0 where
  pub plugin_name : String
  pub node_name : String

-- The order of `plugins` stands for one iteration order of the map.
pub record PluginManager : Type 0 where
  pub plugins : Dict Plugin
  pub nodes_info : Dict NodeInfo

-- A node of the cluster, and the metadata that it gossips.
pub record Member : Type 0 where
  pub name : String
  pub addr : String
  pub hostname : String
  pub service_port : ℕ

-- router.RegoRouterOption.
pub data RouterOption : Type 0 where
  with_data : String → RouterOption
  with_body_limit : ℕ → RouterOption

pub record Outside : Type 0 where
  pub murmur : Murmur
  pub join_host_port : String → ℕ → String
  pub plugin_info : String → Result Info
  pub is_older : String → String → Bool
  pub new_router : String → String → List RouterOption → Result Router
  pub dir : String → String
  pub artifacts_match : String → Option String

-- The options of `initRouter`.
unfoldable pub router_options : RouterInfo → ℕ → List RouterOption
router_options r body_limit =
    (if r.content == "" then [] else with_data r.content ∷ [])
    ++ (if ltb 0 body_limit then with_body_limit body_limit ∷ [] else [])

-- `initRouter`: no router in the info leaves the one that is there.
unfoldable pub init_router : Outside → ℕ → Info → Plugin → Err × Plugin
init_router o body_limit info pl = elim info.router [
  | none ↦ (none, pl)
  | some r ↦ elim (o.new_router info.name r.rego (router_options r body_limit)) [
    | err e ↦ (some e, pl)
    | ok router ↦ (none, record pl { router = some router })
  ]
]

unfoldable pub new_plugin : Info → Plugin
new_plugin info = record {
  node_hash = new_node_hash none;
  name = info.name;
  version = info.version;
  media_types = info.mediatypes;
  router = none;
}

abbrev pub upgrade : Info → Plugin → Plugin
upgrade info pl = record pl { version = info.version; media_types = info.mediatypes }

abbrev pub hostport_of : Outside → Member → String
hostport_of o node = o.join_host_port node.addr node.service_port

-- The end of `register`: the node's info, and its place among the plugin's nodes.
unfoldable pub enter : Outside → Member → Plugin → String → PluginManager → PluginManager
enter o node pl name pm = record {
  plugins =
      Dict.insert name
        (record pl {
          node_hash = (Rv.add o.murmur pl.node_hash node.hostname (hostport_of o node)).0;
        })
        pm.plugins;
  nodes_info =
      Dict.insert (hostport_of o node) (record { plugin_name = name; node_name = node.name })
        pm.nodes_info;
}

-- The rest of `register` after `initRouter`, for a plugin that is not in the map, and for one that
-- is upgraded: that one is changed in place, also when the new router is refused.
unfoldable pub add_new :
    Outside → Member → String → PluginManager → Err × Plugin → Err × PluginManager
add_new o node name pm (some e, pl) = (some e, pm)
add_new o node name pm (none, pl) = (none, enter o node pl name pm)

unfoldable pub add_old :
    Outside → Member → String → PluginManager → Err × Plugin → Err × PluginManager
add_old o node name pm (some e, pl) =
    (some e, record pm { plugins = Dict.insert name pl pm.plugins })
add_old o node name pm (none, pl) = (none, enter o node pl name pm)

-- `register` with the info that the node gave.
unfoldable pub register_info : Outside → ℕ → Member → Info → PluginManager → Err × PluginManager
unfolding add_new add_old
register_info o body_limit node info pm = elim (Dict.lookup info.name pm.plugins) [
  | none ↦ add_new o node info.name pm (init_router o body_limit info (new_plugin info))
  | some old ↦
      if o.is_older old.version info.version
      then add_old o node info.name pm (init_router o body_limit info (upgrade info old))
      else (none, enter o node old info.name pm)
]

unfoldable pub register : Outside → ℕ → Member → PluginManager → Err × PluginManager
unfolding register_info
register o body_limit node pm = elim (o.plugin_info (hostport_of o node)) [
  | err e ↦ (some e, pm)
  | ok info ↦ register_info o body_limit node info pm
]

-- A hostport with no info reads as the zero value of nodeInfo.
abbrev pub info_of : String → PluginManager → NodeInfo
info_of hostport pm = elim (Dict.lookup hostport pm.nodes_info) [
  | none ↦ record { plugin_name = ""; node_name = "" }
  | some i ↦ i
]

unfoldable pub unregister : Outside → Member → PluginManager → PluginManager
unregister o node pm =
    let hostport = hostport_of o node in
    let i = info_of hostport pm in
    elim (Dict.lookup i.plugin_name pm.plugins) [
      | none ↦ pm
      | some pl ↦
          if i.node_name == node.name
          then record {
            plugins =
                Dict.insert i.plugin_name
                  (record pl { node_hash = (Rv.remove o.murmur pl.node_hash node.hostname).0 })
                  pm.plugins;
            nodes_info = Dict.remove hostport pm.nodes_info;
          }
          else pm
    ]

unfoldable pub contains : String → List String → Bool
contains s [] = false
contains s (t ∷ ts) = if t == s then true else contains s ts

-- The loop of `getPlugin`.
unfoldable pub get_plugin_loop : String → Dict Plugin → Option Plugin
unfolding contains
get_plugin_loop media_type [] = none
get_plugin_loop media_type ((name, pl) ∷ rest) =
    if contains media_type pl.media_types then some pl else get_plugin_loop media_type rest

unfoldable pub get_plugin : String → PluginManager → Option Plugin
unfolding get_plugin_loop
get_plugin media_type pm = get_plugin_loop media_type pm.plugins

unfoldable pub has_plugin : String → PluginManager → Bool
has_plugin name pm = has (Dict.lookup name pm.plugins)

-- What an HTTP request is answered with: a status, a redirection, or what the node at the hostport
-- answers.
pub data Reply : Type 0 where
  code : ℕ → Reply
  redirect : String → Reply
  forward : String → Reply

unfoldable pub decided : Outside → Plugin → Request → Decision → Reply
decided o p r result =
    if result.found
    then if result.redirect_url == ""
      then (let key = if result.repository == "" then r.remote_addr else result.repository in
          elim (Rv.get o.murmur p.node_hash key) [
            | none ↦ code 502
            | some node ↦ forward node.hostport
          ])
      else redirect result.redirect_url
    else code 404

-- `ServeHTTP` of a plugin, which panics on the nil router.
unfoldable pub serve_plugin : Outside → Plugin → Request → Outcome Reply
unfolding decided
serve_plugin o p r = elim p.router [
  | none ↦ panic
  | some router ↦ elim (router r) [
    | err e ↦ done (code 500)
    | ok result ↦ done (decided o p r result)
  ]
]

-- `ServeHTTP` of the manager.
unfoldable pub serve : Outside → PluginManager → Request → Outcome Reply
unfolding serve_plugin
serve o pm r = elim (o.artifacts_match r.path) [
  | none ↦ done (code 404)
  | some name ↦ elim (Dict.lookup name pm.plugins) [
    | none ↦ done (code 404)
    | some pl ↦ serve_plugin o pl r
  ]
]

-- The node that one attempt of `sendEvent` posts to.
unfoldable pub event_node : Outside → Plugin → EventPayload → Option Node → Result Node
event_node o p event (some node) = ok node
event_node o p event none = elim (Rv.get o.murmur p.node_hash (o.dir event.repository)) [
  | none ↦ err "no node found for repository"
  | some node ↦ ok node
]
