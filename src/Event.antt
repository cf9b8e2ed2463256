-- ===== src/Event.antt =====
-- pkg/api/event/v1: the event payload that the registry sends to the plugins. The Go types are
-- generated from api/event/v1/event.proto; the fields are those that the modelled code reads.
use Prim.Native.String.{◌++◌}
use beskar.Prelude.{String, Bool, true, false}

pub data Action : Type 0 where
  unspecified put delete start stop : Action

pub data Origin : Type 0 where
  unspecified external plugin : Origin

pub record EventPayload : Type 0 where
  pub repository : String
  pub digest : String
  pub mediatype : String
  pub payload : String
  pub action : Action
  pub origin : Origin

abbrev pub is_put : Action → Bool
is_put Action.put = true
is_put _ = false

abbrev pub is_delete : Action → Bool
is_delete Action.delete = true
is_delete _ = false

abbrev pub is_plugin : Origin → Bool
is_plugin Origin.plugin = true
is_plugin _ = false

-- `Action.String` of the generated code.
unfoldable pub action_name : Action → String
action_name Action.unspecified = "ACTION_UNSPECIFIED"
action_name Action.put = "ACTION_PUT"
action_name Action.delete = "ACTION_DELETE"
action_name Action.start = "ACTION_START"
action_name Action.stop = "ACTION_STOP"

-- `fmt.Sprintf("%s:%s", event.Digest, event.Action)`
unfoldable pub event_id : EventPayload → String
unfolding action_name
event_id event = event.digest ++ ":" ++ action_name event.action
