-- ===== src/Device/Inserted.antt =====
-- src/device.c: what an event puts into the player's properties.
use renderer_service_upnp.Prelude.{
  ℕ, String, false, List, [], ◌∷◌, Option, none, some, ◌≡◌, refl, ap, sym, ◌==◌, string_eq, nat_eq,
  Bool-cases, inl, inr,
}
use renderer_service_upnp.Prelude.Int.{ℤ, pos, negsuc}
use renderer_service_upnp.Dict.{lookup, insert}
use renderer_service_upnp.Glib.{Text, GlibText}
use renderer_service_upnp.Glib.Decimal.{atoi}
use renderer_service_upnp.Task.Kinds.{Variant}
use renderer_service_upnp.Device.Rates.{is_zero}
use renderer_service_upnp.Device.Props.{Table, change_props}
use renderer_service_upnp.Device.Metadata.{
  Changing, Didl, Outcome, parsed, empty_node, failed, set_metadata, add_track_meta_data,
  merge_meta_data,
}
use renderer_service_upnp.Device.Changes.{
  LastChange, max_uint, quotient, speed_of, map_transport_speed, add_parts_of, add_actions,
  add_all_actions, given, given_number, change_metadata, change_player,
}
use renderer_service_upnp.Device.Update.{change_rate}
use renderer_service_upnp.Device.Introspection.{type_of, type_d, type_u, player_properties}

abbrev pub speeds_key : String
speeds_key = "TransportPlaySpeeds"

-- A table that others become by entries of declared properties other than TransportPlaySpeeds, each
-- with a value of the property's type.
pub data Inserts (a : Table) : Table → Type 0 where
  unchanged : Inserts a a
  puts :
      {m : Table} (k : String) (v : Variant)
      → Inserts a m
      → lookup k player_properties ≡ some (type_of v)
      → (k == speeds_key) ≡ false
      → Inserts a (insert k v m)

-- A change that makes such entries.
abbrev pub Keeps : (Changing → Changing) → Type 0
Keeps f = (a : Table) (c : Changing) → Inserts a c.0 → Inserts a (f c).0

pub change_props-Keeps :
    (k : String) (v : Variant)
    → lookup k player_properties ≡ some (type_of v)
    → (k == speeds_key) ≡ false
    → Keeps (change_props k v)
unfolding change_props
change_props-Keeps k v h g a (props, changed) w = puts k v w h g

quotient-type : (n d : ℤ) → type_of (quotient n d) ≡ type_d
unfolding quotient
quotient-type n (pos d) = refl
quotient-type (pos n) (negsuc d) = refl
quotient-type (negsuc n) (negsuc d) = refl

speed_of-type : (strip : Text → Text) (parts : List Text) → type_of (speed_of strip parts) ≡ type_d
unfolding speed_of
speed_of-type strip (n ∷ []) = refl
speed_of-type strip (n ∷ d ∷ []) = elim (Bool-cases (is_zero (atoi (strip d)))) [
  | inl e ↦ rw e refl
  | inr e ↦ rw e (quotient-type (atoi (strip n)) (atoi (strip d)))
]
speed_of-type strip _ = refl

map_transport_speed-type :
    (glib : GlibText) (t : Text) → type_of (map_transport_speed glib t) ≡ type_d
unfolding map_transport_speed
map_transport_speed-type glib [] = refl
map_transport_speed-type glib (c ∷ t) = speed_of-type glib.strstrip _

given-Keeps {ℓ} :
    {A : Type ℓ} (o : Option A) (f : A → Changing → Changing)
    → ((a : A) → Keeps (f a))
    → Keeps (given o f)
unfolding given
given-Keeps none f r a c w = w
given-Keeps (some x) f r a c w = r x a c w

given_number-Keeps :
    (n : ℕ) (k : String)
    → lookup k player_properties ≡ some type_u
    → (k == speeds_key) ≡ false
    → Keeps (given_number n k)
unfolding given_number
given_number-Keeps n k h g a c w = elim (Bool-cases (n == max_uint)) [
  | inl e ↦ rw e w
  | inr e ↦ rw e (change_props-Keeps k _ h g a c w)
]

add_actions-Keeps : (glib : GlibText) (t : Text) → Keeps (add_actions glib t)
unfolding add_actions add_parts_of lookup
add_actions-Keeps glib t a c w = change_props-Keeps _ _ refl refl a _ (
    change_props-Keeps _ _ refl refl a _ (
      change_props-Keeps _ _ refl refl a _ (
        change_props-Keeps _ _ refl refl a _
          (change_props-Keeps _ _ refl refl a _ (change_props-Keeps _ _ refl refl a _ w)))))

pub add_all_actions-Keeps : Keeps add_all_actions
unfolding add_all_actions lookup
add_all_actions-Keeps a c w = change_props-Keeps _ _ refl refl a _ (
    change_props-Keeps _ _ refl refl a _ (
      change_props-Keeps _ _ refl refl a _ (
        change_props-Keeps _ _ refl refl a _
          (change_props-Keeps _ _ refl refl a _ (change_props-Keeps _ _ refl refl a _ w)))))

set_metadata-Keeps : (o : Outcome) (vb : Table) → Keeps (set_metadata o vb)
unfolding set_metadata lookup
set_metadata-Keeps failed vb a c w = w
set_metadata-Keeps parsed vb a c w = change_props-Keeps _ _ refl refl a c w
set_metadata-Keeps empty_node vb a c w = change_props-Keeps _ _ refl refl a c w

merge_meta_data-Keeps : (k : String) (v : Variant) → Keeps (merge_meta_data k v)
unfolding merge_meta_data lookup
merge_meta_data-Keeps k v a (props, changed) w =
    change_props-Keeps _ _ refl refl a (props, changed) w

pub change_rate-Keeps :
    (k : String) (z : ℤ)
    → lookup k player_properties ≡ some type_d
    → (k == speeds_key) ≡ false
    → Keeps (change_rate k z)
unfolding change_rate
change_rate-Keeps k z h g a c w = elim (Bool-cases (is_zero z)) [
  | inl e ↦ rw e w
  | inr e ↦ rw e (change_props-Keeps k _ h g a c w)
]

module _ (glib : GlibText) (didl : Didl) where
  change_metadata-Keeps :
      (o : Option String) (t : Option Text) (u : Option String)
      → Keeps (change_metadata glib didl o t u)
  unfolding change_metadata add_track_meta_data
  change_metadata-Keeps none t u a c w =
      given-Keeps u _ (λ a. merge_meta_data-Keeps _ _) a _
        (given-Keeps t _ (λ a. merge_meta_data-Keeps _ _) a c w)
  change_metadata-Keeps (some m) t u a c w = set_metadata-Keeps _ _ a c w

  pub change_player-Keeps : (e : LastChange) → Keeps (change_player glib didl e)
  unfolding change_player lookup
  change_player-Keeps e a c w =
      let w1 = change_metadata-Keeps e.meta_data e.duration e.uri a c w in
      let w2 = given-Keeps e.actions _ (add_actions-Keeps glib) a _ w1 in
      let w3 =
        given-Keeps e.play_speed _
          (λ t. change_props-Keeps "Rate" _ (ap some (sym (map_transport_speed-type glib t))) refl)
          a _ w2 in
      let w4 = given-Keeps e.transport_state _ (λ s. change_props-Keeps _ _ refl refl) a _ w3 in
      let w5 = given_number-Keeps e.tracks_number "NumberOfTracks" refl refl a _ w4 in
      given_number-Keeps e.current_track "CurrentTrack" refl refl a _ w5
