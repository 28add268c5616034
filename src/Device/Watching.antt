-- ===== src/Device/Watching.antt =====
-- A client that watches a player, over every event that reaches the device and every read.
use renderer_service_upnp.Prelude.{
  ℕ, String, List, [], Option, none, some, ◌≡◌, refl, ap, ◌∙◌, ◌==◌, ◌&&◌, ◌||◌, string_eq, nat_eq,
  Bool-cases, inl, inr,
}
use renderer_service_upnp.Glib.{Text, GlibText}
use renderer_service_upnp.Task.{Task}
use renderer_service_upnp.Device.Props.{Table, State, interface_player}
use renderer_service_upnp.Device.Metadata.{Didl}
use renderer_service_upnp.Device.Changes.{LastChange, last_change}
use renderer_service_upnp.Device.Update.{Description, rc_last_change}
use renderer_service_upnp.Device.Protocols.{GlibAscii, process_protocol_info, sink_change}
use renderer_service_upnp.Device.Commands.{
  begin_action, get_position_info_call, device_get_prop, device_get_all_props, complete_get_prop,
  complete_get_props,
}
use renderer_service_upnp.Device.Signals.{
  follow_all, sync-Leads, rc_last_change-Leads, last_change-Leads, get_position_info-Leads,
}

module _ (d : Description) (glib : GlibText) (didl : Didl) where
  -- One event that reaches a device: an event of the AV transport, of the rendering control or of the
  -- connection manager, a Get or a GetAll, or the end of the call for the position that one of these waits for.
  pub data Event (s : State) : State → List Table → Type 0 where
    plays :
        (e : Option LastChange)
        → Event s (last_change glib didl e s).0 (last_change glib didl e s).1
    turns :
        (stack : ℕ) (v : Option (Option ℕ))
        → Event s (rc_last_change d stack v s).0 (rc_last_change d stack v s).1
    sinks : (ascii : GlibAscii) (info : Option String) → Event s (sink_change ascii info s) []
    gets :
        (interface name : String) (t : Task)
        → Event s
            (device_get_prop d interface name s t).state
            (device_get_prop d interface name s t).signals
    gets_all :
        (interface : String) (t : Task)
        → Event s
            (device_get_all_props d interface s t).state
            (device_get_all_props d interface s t).signals
    got :
        (rel_pos : Option Text) (t : Task)
        → Event s
            (complete_get_prop glib rel_pos s t).state
            (complete_get_prop glib rel_pos s t).signals
    got_all :
        (rel_pos : Option Text) (t : Task)
        → Event s
            (complete_get_props glib rel_pos s t).state
            (complete_get_props glib rel_pos s t).signals

  -- The states of a device, each with the copy of a client that has seen all signals.
  pub data Watched : State → Table → Type 0 where
    begins : (s : State) → Watched s s.props.player_props
    follows :
        {s s' : State} {copy : Table} {out : List Table}
        → Watched s copy
        → Event s s' out
        → Watched s' (follow_all out copy)

  get_prop-Leads :
      (interface name : String) (s : State) (t : Task)
      → follow_all (device_get_prop d interface name s t).signals s.props.player_props
        ≡ (device_get_prop d interface name s t).state.props.player_props
  unfolding device_get_prop get_position_info_call begin_action follow_all
  get_prop-Leads interface name s t =
      elim (Bool-cases ((interface == interface_player || interface == "") && name == "Position")) [
        | inl e ↦ rw e refl
        | inr e ↦ rw e (sync-Leads d s)
      ]

  get_all_props-Leads :
      (interface : String) (s : State) (t : Task)
      → follow_all (device_get_all_props d interface s t).signals s.props.player_props
        ≡ (device_get_all_props d interface s t).state.props.player_props
  unfolding device_get_all_props get_position_info_call begin_action
  get_all_props-Leads interface s t =
      elim (Bool-cases (interface == interface_player || interface == "")) [
        | inl e ↦ rw e (sync-Leads d s)
        | inr e ↦ rw e (sync-Leads d s)
      ]

  sink_change-Leads :
      (ascii : GlibAscii) (info : Option String) (s : State)
      → follow_all [] s.props.player_props ≡ (sink_change ascii info s).props.player_props
  unfolding sink_change process_protocol_info follow_all
  sink_change-Leads ascii none s = refl
  sink_change-Leads ascii (some info) s = refl

  Event-leads :
      {s s' : State} {out : List Table}
      → Event s s' out
      → follow_all out s.props.player_props ≡ s'.props.player_props
  unfolding complete_get_prop complete_get_props
  Event-leads {s} (plays e) = last_change-Leads glib didl e s
  Event-leads {s} (turns stack v) = rc_last_change-Leads d stack v s
  Event-leads {s} (sinks ascii info) = sink_change-Leads ascii info s
  Event-leads {s} (gets interface name t) = get_prop-Leads interface name s t
  Event-leads {s} (gets_all interface t) = get_all_props-Leads interface s t
  Event-leads {s} (got rel_pos t) = get_position_info-Leads glib rel_pos s
  Event-leads {s} (got_all rel_pos t) = get_position_info-Leads glib rel_pos s

  -- Over any events and any reads: a client that applies the entries of each PropertiesChanged signal,
  -- in their order, to its copy of the player's properties has at all times the properties that the
  -- device has, in the same order too. Setting the rate is not among the events.
  pub Watched-follows : {s : State} {copy : Table} → Watched s copy → copy ≡ s.props.player_props
  Watched-follows (begins s) = refl
  Watched-follows (follows {out = out} w e) =
      ap (follow_all out) (Watched-follows w) ∙ Event-leads e
