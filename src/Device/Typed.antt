-- ===== src/Device/Typed.antt =====
-- The types of the properties that clients read, over every event that reaches a device and every
-- property that a client sets.
use renderer_service_upnp.Prelude.{
  String, [], Option, none, some, refl, string_eq, nat_eq, Bool-cases, inl, inr, sym, ap, some_inj,
  ◌≡◌,
}
use renderer_service_upnp.Dict.{lookup}
use renderer_service_upnp.Glib.{GlibText}
use renderer_service_upnp.Task.Kinds.{doubles, Variant}
use renderer_service_upnp.Device.Rates.{Rates, rational_to_double}
use renderer_service_upnp.Device.Props.{Table, State, change_props}
use renderer_service_upnp.Device.Metadata.{Changing, Didl}
use renderer_service_upnp.Device.Changes.{emit_changes}
use renderer_service_upnp.Device.Update.{
  Description, DeviceInfo, update_device_props, update_root_props, put_value, change_rates,
  rates_of, props_update, sync,
}
use renderer_service_upnp.Device.Protocols.{
  GlibAscii, as_prop_from_hash_table, process_protocol_info,
}
use renderer_service_upnp.Device.Introspection.{
  HasTypes, server_properties, player_properties, device_properties, insert-HasTypes,
  clear-HasTypes, put_text-HasTypes, type_s, type_of,
}
use renderer_service_upnp.Device.Inserted.{
  Inserts, unchanged, puts, Keeps, change_rate-Keeps, add_all_actions-Keeps,
}
use renderer_service_upnp.Device.Stable.{state_new, Served, IsStable, Served-stable}

-- Each interface's table has declared properties only, with values of their types.
pub record PropsTyped (s : State) : Type 0 where
  pub server : HasTypes server_properties s.props.root_props
  pub player : HasTypes player_properties s.props.player_props
  pub device : HasTypes device_properties s.props.device_props

Inserts-HasTypes :
    {a b : Table} → Inserts a b → HasTypes player_properties a → HasTypes player_properties b
Inserts-HasTypes unchanged t = t
Inserts-HasTypes (puts {m} k v w h g) t =
    insert-HasTypes player_properties k v m h (Inserts-HasTypes w t)

Keeps-HasTypes :
    (f : Changing → Changing) (m : Table)
    → Keeps f
    → HasTypes player_properties m
    → HasTypes player_properties (f (m, [])).0
Keeps-HasTypes f m k t = Inserts-HasTypes (k m (m, []) unchanged) t

change_rates-HasTypes :
    (o : Option Rates) (m : Table)
    → HasTypes player_properties m
    → HasTypes player_properties (change_rates o (m, [])).0
unfolding change_rates change_props lookup
change_rates-HasTypes none m t = t
change_rates-HasTypes (some v) m t =
    insert-HasTypes player_properties "TransportPlaySpeeds" (doubles _) _ refl (
      Inserts-HasTypes
        (change_rate-Keeps "MaximumRate" (rational_to_double v.max_rate_str) refl refl m _ (
          change_rate-Keeps "MinimumRate" (rational_to_double v.min_rate_str) refl refl m (m, [])
            unchanged))
        t)

put_identity-HasTypes :
    (o : Option Variant) (m : Table)
    → ((v : Variant) → o ≡ some v → type_of v ≡ type_s)
    → HasTypes server_properties m
    → HasTypes server_properties (put_value "Identity" o m)
unfolding put_value lookup
put_identity-HasTypes none m h t = clear-HasTypes server_properties "Identity" m t
put_identity-HasTypes (some v) m h t =
    insert-HasTypes server_properties "Identity" v m (ap some (sym (h v refl))) t

update_root_props-HasTypes :
    (device_props m : Table)
    → HasTypes device_properties device_props
    → HasTypes server_properties m
    → HasTypes server_properties (update_root_props device_props m)
unfolding update_root_props lookup
update_root_props-HasTypes device_props m named t =
    let puts_in = insert-HasTypes server_properties in
    put_identity-HasTypes (lookup "FriendlyName" device_props) _
      (λ v e. some_inj (sym (named "FriendlyName" v e)))
      (puts_in _ _ _ refl (puts_in _ _ _ refl (puts_in _ _ _ refl (puts_in _ _ _ refl t))))

update_device_props-HasTypes :
    (info : DeviceInfo) (m : Table)
    → HasTypes device_properties m
    → HasTypes device_properties (update_device_props info m)
unfolding update_device_props lookup
update_device_props-HasTypes info m t =
    let puts_in = put_text-HasTypes device_properties in
    let t6 = puts_in _ _ _ refl (
      puts_in _ _ _ refl
        (puts_in _ _ _ refl (puts_in _ _ _ refl (puts_in _ _ _ refl (puts_in _ _ _ refl t))))) in
    puts_in _ _ _ refl
      (puts_in _ _ _ refl (puts_in _ _ _ refl (puts_in _ _ _ refl (puts_in _ _ _ refl t6))))

props_update-PropsTyped :
    (d : Description) (s : State) → PropsTyped s → PropsTyped (props_update d s).0
unfolding props_update emit_changes
props_update-PropsTyped d s t = record {
  server = update_root_props-HasTypes _ _ (update_device_props-HasTypes d.info _ t.device) t.server;
  player =
      Inserts-HasTypes
        (add_all_actions-Keeps _ (change_rates (rates_of d) (s.props.player_props, [])) unchanged)
        (change_rates-HasTypes (rates_of d) s.props.player_props t.player);
  device = update_device_props-HasTypes d.info _ t.device;
}

sync-PropsTyped : (d : Description) (s : State) → PropsTyped s → PropsTyped (sync d s).0
unfolding sync
sync-PropsTyped d s t = elim (Bool-cases s.props.synced) [
  | inl e ↦ simp e t
  | inr e ↦ simp e (props_update-PropsTyped d s t)
]

changes-PropsTyped :
    (f : Changing → Changing) (s : State) → Keeps f → PropsTyped s → PropsTyped (emit_changes f s).0
unfolding emit_changes
changes-PropsTyped f s k t = record {
  server = t.server;
  player = Keeps-HasTypes f s.props.player_props k t.player;
  device = t.device;
}

process_protocol_info-PropsTyped :
    (ascii : GlibAscii) (info : String) (s : State)
    → PropsTyped s
    → PropsTyped (process_protocol_info ascii info s)
unfolding process_protocol_info as_prop_from_hash_table lookup
process_protocol_info-PropsTyped ascii info s t = record {
  server =
      insert-HasTypes server_properties _ _ _ refl
        (insert-HasTypes server_properties _ _ _ refl t.server);
  player = t.player;
  device = insert-HasTypes device_properties _ _ _ refl t.device;
}

PropsTyped-IsStable : IsStable PropsTyped
PropsTyped-IsStable = record {
  changes_keep = changes-PropsTyped;
  sync_keeps = sync-PropsTyped;
  rate_keeps = λ r s t. record { server = t.server; player = t.player; device = t.device };
  sink_keeps = process_protocol_info-PropsTyped;
}

state_new-PropsTyped : PropsTyped state_new
unfolding state_new lookup
state_new-PropsTyped = record {
  server = λ k v e. absurd (cc);
  player = λ k v e. absurd (cc);
  device = λ k v e. absurd (cc);
}

module _ (d : Description) (glib : GlibText) (didl : Didl) where
  -- Whatever has happened to a device, and whichever texts its description leaves out: every value that
  -- a lookup finds in its three tables is under a property that the introspection text declares for the
  -- table's interface, and has the D-Bus type that is declared.
  pub Served-PropsTyped : {s : State} → Served d glib didl s → PropsTyped s
  Served-PropsTyped = Served-stable PropsTyped PropsTyped-IsStable d glib didl state_new-PropsTyped
