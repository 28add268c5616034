-- ===== src/Device/Stable.antt =====
-- What an operation on a device keeps: the events, the reads, and the properties that clients set.
use renderer_service_upnp.Prelude.{
  ℕ, String, false, ◌&&◌, ◌||◌, List, [], Option, none, some, ◌≡◌, refl, ◌==◌, string_eq, nat_eq,
  Bool-cases, inl, inr, some_inj, arith, subst, codes,
}
use renderer_service_upnp.Dict.{lookup}
use renderer_service_upnp.Glib.{Text, GlibText}
use renderer_service_upnp.Task.{Task}
use renderer_service_upnp.Task.Kinds.{Variant, double}
use renderer_service_upnp.Device.Props.{Table, State, interface_player, change_props}
use renderer_service_upnp.Device.Metadata.{Changing, Didl}
use renderer_service_upnp.Device.Changes.{
  LastChange, add_reltime, last_change, get_position_info, emit_changes,
}
use renderer_service_upnp.Device.Update.{
  Description, sync, emit_volume, rc_last_change, device_volume,
}
use renderer_service_upnp.Device.Commands.{
  Done, begin_action, get_position_info_call, device_get_prop, device_get_all_props,
  complete_get_prop, complete_get_props, RateResult, bad_rate, good_rate, put_rate, put_result,
  set_rate, completed_with, volume_of, set_volume_call, is_foreign, device_set_prop,
}
use renderer_service_upnp.Device.Protocols.{GlibAscii, process_protocol_info, sink_change}
use renderer_service_upnp.Device.Watching.{Event, plays, turns, sinks, gets, gets_all, got, got_all}
use renderer_service_upnp.Device.Inserted.{Keeps, change_props-Keeps, change_player-Keeps}

-- A device with no properties, which prv_props_init leaves, and the rate of rsu_device_new.
unfoldable pub state_new : State
state_new = record {
  props = record { root_props = []; player_props = []; device_props = []; synced = false };
  max_volume = 0;
  transport_play_speeds = none;
  rate = codes "1";
}

module _ (d : Description) (glib : GlibText) (didl : Didl) where
  -- The states of a device that is new, under events, reads, and properties that clients set.
  pub data Served : State → Type 0 where
    starts : Served state_new
    follows : {s s' : State} {out : List Table} → Served s → Event d glib didl s s' out → Served s'
    sets :
        {s : State} {done : Done} (interface name : String) (x : Variant) (t : Task)
        → Served s
        → device_set_prop interface name x s t ≡ some done
        → Served done.state

-- What these keep: entries for the player's declared properties but TransportPlaySpeeds, the first
-- look at the description, the rate's text, and the protocol info.
pub record IsStable (P : State → Type 0) : Type 0 where
  pub changes_keep : (f : Changing → Changing) (s : State) → Keeps f → P s → P (emit_changes f s).0
  pub sync_keeps : (d : Description) (s : State) → P s → P (sync d s).0
  pub rate_keeps : (r : Text) (s : State) → P s → P (record s { rate = r })
  pub sink_keeps :
      (ascii : GlibAscii) (info : String) (s : State) → P s → P (process_protocol_info ascii info s)

module _ (P : State → Type 0) (c : IsStable P) where
  emit_volume-stable : (n : ℕ) (s : State) → P s → P (emit_volume n s).0
  unfolding emit_volume lookup
  emit_volume-stable n s v = elim (Bool-cases (s.max_volume == 0)) [
    | inl e ↦ rw e v
    | inr e ↦ rw e (c.changes_keep _ s (change_props-Keeps _ _ refl refl) v)
  ]

  rc_last_change-stable :
      (d : Description) (stack : ℕ) (o : Option (Option ℕ)) (s : State)
      → P s
      → P (rc_last_change d stack o s).0
  unfolding rc_last_change
  rc_last_change-stable d stack none s v = v
  rc_last_change-stable d stack (some volume) s v =
      emit_volume-stable (device_volume stack volume) (sync d s).0 (c.sync_keeps d s v)

  get_position_info-stable :
      (glib : GlibText) (o : Option Text) (s : State) → P s → P (get_position_info glib o s).0
  unfolding get_position_info add_reltime lookup
  get_position_info-stable glib none s v = v
  get_position_info-stable glib (some t) s v =
      c.changes_keep _ s (change_props-Keeps _ _ refl refl) v

  last_change-stable :
      (glib : GlibText) (didl : Didl) (o : Option LastChange) (s : State)
      → P s
      → P (last_change glib didl o s).0
  unfolding last_change
  last_change-stable glib didl none s v = v
  last_change-stable glib didl (some e) s v =
      c.rate_keeps _ _ (c.changes_keep _ s (change_player-Keeps glib didl e) v)

  sink_change-stable :
      (ascii : GlibAscii) (info : Option String) (s : State) → P s → P (sink_change ascii info s)
  unfolding sink_change
  sink_change-stable ascii none s v = v
  sink_change-stable ascii (some info) s v = c.sink_keeps ascii info s v

  put_rate-stable : (r : RateResult) (s : State) (t : Task) → P s → P (put_rate r s t).0
  unfolding put_rate emit_changes change_props lookup
  put_rate-stable (bad_rate e) s t v = v
  put_rate-stable (good_rate r x) s t v =
      let rated = change_props-Keeps "Rate" (double x.0 x.1) refl refl in
      c.rate_keeps r _ (c.changes_keep (change_props "Rate" (double x.0 x.1)) s rated v)

  put_result-stable :
      (o : Option RateResult) (s : State) (t : Task) (out : State × Task)
      → put_result o s t ≡ some out
      → P s
      → P out.0
  unfolding put_result
  put_result-stable none s t out h v = cc
  put_result-stable (some r) s t out h v =
      subst (λ (o : State × Task). P o.0) (some_inj h) (put_rate-stable r s t v)

  set_rate-stable :
      (x : Variant) (s : State) (t : Task) (out : State × Task)
      → set_rate x s t ≡ some out
      → P s
      → P out.0
  unfolding set_rate
  set_rate-stable (double n d) s t out h v = put_result-stable _ s t out h v
  set_rate-stable _ s t out h v = subst (λ (o : State × Task). P o.0) (some_inj h) v

  completed-stable :
      (o : Option (State × Task)) (done : Done)
      → completed_with o ≡ some done
      → ((out : State × Task) → o ≡ some out → P out.0)
      → P done.state
  unfolding completed_with
  completed-stable none done h v = cc
  completed-stable (some out) done h v = subst (λ (x : Done). P x.state) (some_inj h) (v out refl)

  volume-stable :
      (o : Option ℕ) (x : Variant) (s : State) (t : Task) (done : Done)
      → volume_of x s.max_volume ≡ o
      → set_volume_call x s t ≡ some done
      → P s
      → P done.state
  unfolding set_volume_call begin_action
  volume-stable none x s t done e h v = absurd (ground arith)
  volume-stable (some n) x s t done e h v =
      let same : s ≡ done.state = ground arith in subst P same v

  set_prop-stable :
      (interface name : String) (x : Variant) (s : State) (t : Task) (done : Done)
      → device_set_prop interface name x s t ≡ some done
      → P s
      → P done.state
  unfolding device_set_prop completed_with
  set_prop-stable interface name x s t done h v = elim (Bool-cases (is_foreign interface)) [
    | inl e ↦ let same : s ≡ done.state = ground arith in subst P same v
    | inr e ↦ elim (Bool-cases (name == "Rate")) [
      | inl e1 ↦
          completed-stable (set_rate x s t) done (ground arith)
            (λ out ran. set_rate-stable x s t out ran v)
      | inr e1 ↦ elim (Bool-cases (name == "Volume")) [
        | inl e2 ↦ volume-stable (volume_of x s.max_volume) x s t done refl (ground arith) v
        | inr e2 ↦ let same : s ≡ done.state = ground arith in subst P same v
      ]
    ]
  ]

  module _ (d : Description) (glib : GlibText) (didl : Didl) where
    get_prop-stable :
        (interface name : String) (s : State) (t : Task)
        → P s
        → P (device_get_prop d interface name s t).state
    unfolding device_get_prop get_position_info_call begin_action
    get_prop-stable interface name s t v =
        elim (Bool-cases
          ((interface == interface_player || interface == "") && name == "Position")) [
            | inl e ↦ rw e v
            | inr e ↦ rw e (c.sync_keeps d s v)
          ]

    get_all_props-stable :
        (interface : String) (s : State) (t : Task)
        → P s
        → P (device_get_all_props d interface s t).state
    unfolding device_get_all_props get_position_info_call begin_action
    get_all_props-stable interface s t v =
        elim (Bool-cases (interface == interface_player || interface == "")) [
          | inl e ↦ rw e (c.sync_keeps d s v)
          | inr e ↦ rw e (c.sync_keeps d s v)
        ]

    Event-stable : {s s' : State} {out : List Table} → Event d glib didl s s' out → P s → P s'
    unfolding complete_get_prop complete_get_props
    Event-stable {s} (plays e) v = last_change-stable glib didl e s v
    Event-stable {s} (turns stack n) v = rc_last_change-stable d stack n s v
    Event-stable {s} (sinks ascii info) v = sink_change-stable ascii info s v
    Event-stable {s} (gets interface name t) v = get_prop-stable interface name s t v
    Event-stable {s} (gets_all interface t) v = get_all_props-stable interface s t v
    Event-stable {s} (got rel_pos t) v = get_position_info-stable glib rel_pos s v
    Event-stable {s} (got_all rel_pos t) v = get_position_info-stable glib rel_pos s v

    pub Served-stable : P state_new → {s : State} → Served d glib didl s → P s
    Served-stable z starts = z
    Served-stable z (follows h e) = Event-stable e (Served-stable z h)
    Served-stable z (sets {s} {done} interface name x t h ran) =
        set_prop-stable interface name x s t done ran (Served-stable z h)
