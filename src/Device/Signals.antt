-- ===== src/Device/Signals.antt =====
-- A client that keeps a copy of a player's properties and applies every PropertiesChanged signal to it.
use renderer_service_upnp.Prelude.{
  ℕ, String, List, [], ◌∷◌, ◌++◌, Option, none, some, ◌≡◌, refl, ap, ◌∙◌, ◌==◌, string_eq, nat_eq,
  Bool-cases, inl, inr,
}
use renderer_service_upnp.Dict.{insert}
use renderer_service_upnp.Glib.{Text, GlibText}
use renderer_service_upnp.Task.Kinds.{Variant}
use renderer_service_upnp.Device.Rates.{Rates, is_zero}
use renderer_service_upnp.Device.Props.{Table, State, change_props}
use renderer_service_upnp.Device.Metadata.{
  Changing, Didl, Outcome, parsed, empty_node, failed, set_metadata, add_track_meta_data,
  merge_meta_data,
}
use renderer_service_upnp.Device.Changes.{
  LastChange, max_uint, add_parts_of, add_actions, add_all_actions, add_reltime, given,
  given_number, change_metadata, change_player, emit_changes, last_change, get_position_info,
}
use renderer_service_upnp.Device.Update.{
  Description, change_rate, change_rates, rates_of, props_update, sync, emit_volume, device_volume,
  rc_last_change,
}

-- The entries of one signal, in their order; and those of several signals.
unfoldable pub follow : Table → Table → Table
follow [] copy = copy
follow ((k, v) ∷ changed) copy = follow changed (insert k v copy)

unfoldable pub follow_all : List Table → Table → Table
follow_all [] copy = copy
follow_all (changed ∷ rest) copy = follow_all rest (follow changed copy)

-- What a change does to the properties is what it adds to the signal.
abbrev Reports : (Changing → Changing) → Type 0
Reports f = (copy : Table) (c : Changing) → follow c.1 copy ≡ c.0 → follow (f c).1 copy ≡ (f c).0

follow-append :
    (changed : Table) (k : String) (v : Variant) (copy : Table)
    → follow (changed ++ (k, v) ∷ []) copy ≡ insert k v (follow changed copy)
unfolding follow
follow-append [] k v copy = refl
follow-append ((j, w) ∷ changed) k v copy = follow-append changed k v (insert j w copy)

change_props-Reports : (k : String) (v : Variant) → Reports (change_props k v)
unfolding change_props
change_props-Reports k v copy (props, changed) h =
    follow-append changed k v copy ∙ ap (insert k v) h

given-Reports {ℓ} :
    {A : Type ℓ} (o : Option A) (f : A → Changing → Changing)
    → ((a : A) → Reports (f a))
    → Reports (given o f)
unfolding given
given-Reports none f r copy c h = h
given-Reports (some a) f r copy c h = r a copy c h

given_number-Reports : (n : ℕ) (k : String) → Reports (given_number n k)
unfolding given_number
given_number-Reports n k copy c h = elim (Bool-cases (n == max_uint)) [
  | inl e ↦ rw e h
  | inr e ↦ rw e (change_props-Reports k _ copy c h)
]

add_actions-Reports : (glib : GlibText) (t : Text) → Reports (add_actions glib t)
unfolding add_actions add_parts_of
add_actions-Reports glib t copy c h = change_props-Reports _ _ copy _ (
    change_props-Reports _ _ copy _ (
      change_props-Reports _ _ copy _ (
        change_props-Reports _ _ copy _
          (change_props-Reports _ _ copy _ (change_props-Reports _ _ copy c h)))))

add_all_actions-Reports : Reports add_all_actions
unfolding add_all_actions
add_all_actions-Reports copy c h = change_props-Reports _ _ copy _ (
    change_props-Reports _ _ copy _ (
      change_props-Reports _ _ copy _ (
        change_props-Reports _ _ copy _
          (change_props-Reports _ _ copy _ (change_props-Reports _ _ copy c h)))))

change_rate-Reports : (k : String) (z : _) → Reports (change_rate k z)
unfolding change_rate
change_rate-Reports k z copy c h = elim (Bool-cases (is_zero z)) [
  | inl e ↦ rw e h
  | inr e ↦ rw e (change_props-Reports k _ copy c h)
]

change_rates-Reports : (o : Option Rates) → Reports (change_rates o)
unfolding change_rates
change_rates-Reports none copy c h = h
change_rates-Reports (some v) copy c h =
    change_props-Reports _ _ copy _
      (change_rate-Reports _ _ copy _ (change_rate-Reports _ _ copy c h))

set_metadata-Reports : (o : Outcome) (vb : Table) → Reports (set_metadata o vb)
unfolding set_metadata
set_metadata-Reports failed vb copy c h = h
set_metadata-Reports parsed vb copy c h = change_props-Reports _ _ copy c h
set_metadata-Reports empty_node vb copy c h = change_props-Reports _ _ copy c h

merge_meta_data-Reports : (k : String) (v : Variant) → Reports (merge_meta_data k v)
unfolding merge_meta_data
merge_meta_data-Reports k v copy (props, changed) h =
    change_props-Reports _ _ copy (props, changed) h

module _ (glib : GlibText) (didl : Didl) where
  change_metadata-Reports :
      (o : Option String) (t : Option Text) (u : Option String)
      → Reports (change_metadata glib didl o t u)
  unfolding change_metadata add_track_meta_data
  change_metadata-Reports none t u copy c h =
      given-Reports u _ (λ a. merge_meta_data-Reports _ _) copy _
        (given-Reports t _ (λ a. merge_meta_data-Reports _ _) copy c h)
  change_metadata-Reports (some m) t u copy c h = set_metadata-Reports _ _ copy c h

  change_player-Reports : (e : LastChange) → Reports (change_player glib didl e)
  unfolding change_player
  change_player-Reports e copy c h = given_number-Reports e.current_track "CurrentTrack" copy _ (
      given_number-Reports e.tracks_number "NumberOfTracks" copy _ (
        given-Reports e.transport_state _ (λ s. change_props-Reports _ _) copy _
          (given-Reports e.play_speed _ (λ t. change_props-Reports _ _) copy _
            (given-Reports e.actions _ (add_actions-Reports glib) copy _
              (change_metadata-Reports e.meta_data e.duration e.uri copy c h)))))

-- The signals of an operation lead a client's copy to the properties that it leaves.
abbrev pub Leads : State → State × List Table → Type 0
Leads s out = follow_all out.1 s.props.player_props ≡ out.0.props.player_props

emit_changes-Leads : (f : Changing → Changing) (s : State) → Reports f → Leads s (emit_changes f s)
unfolding emit_changes follow_all follow
emit_changes-Leads f s r = r s.props.player_props (s.props.player_props, []) refl

props_update-Leads : (d : Description) (s : State) → Leads s (props_update d s)
unfolding props_update
props_update-Leads d s =
    emit_changes-Leads (λ c. add_all_actions (change_rates (rates_of d) c)) _
      (λ copy c h. add_all_actions-Reports copy _ (change_rates-Reports (rates_of d) copy c h))

pub sync-Leads : (d : Description) (s : State) → Leads s (sync d s)
unfolding sync follow_all props_update
sync-Leads d s = elim (Bool-cases s.props.synced) [
  | inl e ↦ rw e refl
  | inr e ↦ rw e (props_update-Leads d s)
]

follow_all-append :
    (a b : List Table) (copy : Table) → follow_all (a ++ b) copy ≡ follow_all b (follow_all a copy)
unfolding follow_all
follow_all-append [] b copy = refl
follow_all-append (t ∷ a) b copy = follow_all-append a b (follow t copy)

emit_volume-Leads : (v : ℕ) (s : State) → Leads s (emit_volume v s)
unfolding emit_volume follow_all
emit_volume-Leads v s = elim (Bool-cases (s.max_volume == 0)) [
  | inl e ↦ rw e refl
  | inr e ↦ rw e (emit_changes-Leads _ s (change_props-Reports _ _))
]

pub rc_last_change-Leads :
    (d : Description) (stack : ℕ) (o : Option (Option ℕ)) (s : State)
    → Leads s (rc_last_change d stack o s)
unfolding rc_last_change follow_all
rc_last_change-Leads d stack none s = refl
rc_last_change-Leads d stack (some volume) s =
    let v = device_volume stack volume in
    follow_all-append (sync d s).1 (emit_volume v (sync d s).0).1 s.props.player_props
    ∙ ap (follow_all (emit_volume v (sync d s).0).1) (sync-Leads d s)
    ∙ emit_volume-Leads v (sync d s).0

pub last_change-Leads :
    (glib : GlibText) (didl : Didl) (o : Option LastChange) (s : State)
    → Leads s (last_change glib didl o s)
unfolding last_change follow_all
last_change-Leads glib didl none s = refl
last_change-Leads glib didl (some e) s = emit_changes-Leads _ s (change_player-Reports glib didl e)

pub get_position_info-Leads :
    (glib : GlibText) (o : Option Text) (s : State) → Leads s (get_position_info glib o s)
unfolding get_position_info add_reltime follow_all
get_position_info-Leads glib none s = refl
get_position_info-Leads glib (some t) s = emit_changes-Leads _ s (change_props-Reports _ _)
