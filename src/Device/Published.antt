-- ===== src/Device/Published.antt =====
-- The published play speeds, over every event that reaches a device and every property that a client
-- sets.
use renderer_service_upnp.Prelude.{
  List, [], Option, none, some, ◌≡◌, refl, ap, sym, ◌∙◌, string_eq, nat_eq, Bool-cases, inl, inr,
  map,
}
use renderer_service_upnp.Dict.{lookup, lookup-insert, lookup-insert_self}
use renderer_service_upnp.Glib.{Text}
use renderer_service_upnp.Task.Kinds.{Variant, doubles}
use renderer_service_upnp.Device.Rates.{
  Rates, rational_to_double, get_rates_values, get_rates_values-valid,
}
use renderer_service_upnp.Device.Props.{Table, State, change_props}
use renderer_service_upnp.Device.Metadata.{Changing}
use renderer_service_upnp.Device.Changes.{emit_changes}
use renderer_service_upnp.Device.Update.{
  Description, hundredth, change_rates, rates_of, kept_speeds, props_update, sync,
  av_service_states_values,
}
use renderer_service_upnp.Device.Inserted.{
  Inserts, unchanged, puts, Keeps, speeds_key, add_all_actions-Keeps,
}
use renderer_service_upnp.Device.Speeds.{HasSpeeds, speeds_prop}

abbrev speeds_in : Table → Option Variant
speeds_in props = lookup speeds_key props

Inserts-speeds_in : {a b : Table} → Inserts a b → speeds_in b ≡ speeds_in a
Inserts-speeds_in unchanged = refl
Inserts-speeds_in (puts {m} k v w h g) =
    lookup-insert k speeds_key v m ∙ rw g refl ∙ Inserts-speeds_in w

-- A change that puts in nothing under the speeds' name keeps their agreement with the texts.
pub emit_changes-HasSpeeds :
    (f : Changing → Changing) (s : State) → Keeps f → HasSpeeds s → HasSpeeds (emit_changes f s).0
unfolding emit_changes
emit_changes-HasSpeeds f s k v = record {
  agree = Inserts-speeds_in (k s.props.player_props (s.props.player_props, []) unchanged) ∙ v.agree;
}

-- Rates whose doubles are those of their texts.
abbrev IsAligned : Option Rates → Type 0
IsAligned none = Unit
IsAligned (some v) = v.mpris_tp_speeds ≡ map rational_to_double v.upnp_tp_speeds

values-IsAligned : (list : List Text) (o : Option Rates) → get_rates_values list ≡ o → IsAligned o
values-IsAligned list none h = tt
values-IsAligned list (some v) h =
    let w = get_rates_values-valid list v h in w.1 ∙ ap (map rational_to_double) (sym w.0)

av-IsAligned : (o : Option (List Text)) → IsAligned (av_service_states_values o)
unfolding av_service_states_values
av-IsAligned none = tt
av-IsAligned (some list) = values-IsAligned list (get_rates_values list) refl

rates_of-IsAligned : (d : Description) → IsAligned (rates_of d)
unfolding rates_of
rates_of-IsAligned d = elim (Bool-cases d.service_proxies.has_av) [
  | inl e ↦ rw e (av-IsAligned d.play_speeds)
  | inr e ↦ rw e tt
]

change_rates-agrees :
    (o : Option Rates) (speeds : Option (List Text)) (c : Changing)
    → IsAligned o
    → speeds_in c.0 ≡ speeds_prop speeds
    → speeds_in (change_rates o c).0 ≡ speeds_prop (kept_speeds o speeds)
unfolding change_rates kept_speeds change_props
change_rates-agrees none speeds c a h = h
change_rates-agrees (some v) speeds c a h =
    lookup-insert_self speeds_key (doubles (map hundredth v.mpris_tp_speeds)) _
    ∙ ap (λ l. some (doubles (map hundredth l))) a

props_update-HasSpeeds :
    (d : Description) (s : State) → HasSpeeds s → HasSpeeds (props_update d s).0
unfolding props_update emit_changes
props_update-HasSpeeds d s v = record {
  agree =
      Inserts-speeds_in
        (add_all_actions-Keeps _ (change_rates (rates_of d) (s.props.player_props, [])) unchanged)
      ∙ change_rates-agrees (rates_of d) s.transport_play_speeds (s.props.player_props, [])
          (rates_of-IsAligned d) v.agree;
}

pub sync-HasSpeeds : (d : Description) (s : State) → HasSpeeds s → HasSpeeds (sync d s).0
unfolding sync
sync-HasSpeeds d s v = elim (Bool-cases s.props.synced) [
  | inl e ↦ simp e v
  | inr e ↦ simp e (props_update-HasSpeeds d s v)
]
