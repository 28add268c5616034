-- ===== src/Device/Changes.antt =====
-- src/device.c: the properties of the player that the renderer's events change, and the
-- PropertiesChanged signals that tell the clients. GUPnP parses an event: what it holds is an argument.
use renderer_service_upnp.Prelude.{
  ℕ, suc, ◌-◌, ◌^◌, String, Bool, true, false, ◌&&◌, ◌||◌, List, [], ◌∷◌, Option, none, some, ◌==◌,
  string_eq, nat_eq, if◌then◌else◌, codes,
}
use renderer_service_upnp.Prelude.Int.{ℤ, pos, negsuc, negate}
use renderer_service_upnp.Glib.{Text, GlibText}
use renderer_service_upnp.Glib.Decimal.{atoi}
use renderer_service_upnp.Task.Kinds.{Variant, string, boolean, int64, uint32, double}
use renderer_service_upnp.Device.Duration.{duration_to_int64}
use renderer_service_upnp.Device.Props.{Table, State, change_props}
use renderer_service_upnp.Device.Rates.{is_zero}
use renderer_service_upnp.Device.Metadata.{Changing, Didl, add_track_meta_data, merge_meta_data}

abbrev slash : ℕ
slash = 47

abbrev comma : ℕ
comma = 44

abbrev pub max_uint : ℕ
max_uint = 2 ^ 32 - 1

-- strcmp
abbrev same_text : Text → Text → Bool
same_text [] [] = true
same_text (a ∷ s) (b ∷ t) = a == b && same_text s t
same_text _ _ = false

-- prv_map_transport_state
unfoldable pub map_transport_state : String → String
map_transport_state state =
    if state == "PLAYING"
    then "Playing"
    else if state == "PAUSED_PLAYBACK" || state == "PAUSED_RECORDING"
    then "Paused"
    else "Stopped"

-- The double `num / (gdouble) dom`, of a dom that is not 0.
unfoldable pub quotient : ℤ → ℤ → Variant
quotient n (pos d) = double n d
quotient (pos n) (negsuc d) = double (negate n) (suc d)
quotient (negsuc n) (negsuc d) = double (pos (suc n)) (suc d)

unfoldable pub speed_of : (Text → Text) → List Text → Variant
speed_of strip (n ∷ []) = double (atoi (strip n)) 1
speed_of strip (n ∷ d ∷ []) =
    if is_zero (atoi (strip d))
    then double (pos 1) 1
    else quotient (atoi (strip n)) (atoi (strip d))
speed_of strip _ = double (pos 1) 1

-- prv_map_transport_speed; an empty text has no parts
unfoldable pub map_transport_speed : GlibText → Text → Variant
map_transport_speed glib [] = double (pos 1) 1
map_transport_speed glib (c ∷ t) = speed_of glib.strstrip (glib.strsplit slash (c ∷ t))

-- Whether one of the parts of prv_add_actions is the name of an action.
unfoldable pub allows : (Text → Text) → List Text → String → Bool
allows strip [] name = false
allows strip (p ∷ ps) name = same_text (strip p) (codes name) || allows strip ps name

-- prv_add_actions, on the parts of the text
unfoldable pub add_parts_of : (Text → Text) → List Text → Changing → Changing
add_parts_of strip parts c0 =
    let c1 = change_props "CanControl" (boolean false) c0 in
    let c2 = change_props "CanPlay" (boolean (allows strip parts "Play")) c1 in
    let c3 = change_props "CanPause" (boolean (allows strip parts "Pause")) c2 in
    let c4 = change_props "CanSeek" (boolean (allows strip parts "Seek")) c3 in
    let c5 = change_props "CanGoNext" (boolean (allows strip parts "Next")) c4 in
    change_props "CanGoPrevious" (boolean (allows strip parts "Previous")) c5

-- prv_add_actions
unfoldable pub add_actions : GlibText → Text → Changing → Changing
add_actions glib actions c = add_parts_of glib.strstrip (glib.strsplit comma actions) c

-- prv_add_all_actions
unfoldable pub add_all_actions : Changing → Changing
add_all_actions c0 =
    let c1 = change_props "CanPlay" (boolean true) c0 in
    let c2 = change_props "CanPause" (boolean true) c1 in
    let c3 = change_props "CanSeek" (boolean true) c2 in
    let c4 = change_props "CanGoNext" (boolean true) c3 in
    let c5 = change_props "CanGoPrevious" (boolean true) c4 in
    change_props "CanControl" (boolean true) c5

-- prv_add_reltime
unfoldable pub add_reltime : GlibText → Text → Changing → Changing
add_reltime glib reltime c =
    change_props "Position" (int64 (pos (duration_to_int64 glib reltime))) c

-- What gupnp_last_change_parser_parse_last_change finds in an event of the AV transport. A number that
-- is not there keeps its G_MAXUINT.
pub record LastChange : Type 0 where
  pub meta_data : Option String
  pub actions : Option Text
  pub play_speed : Option Text
  pub transport_state : Option String
  pub duration : Option Text
  pub uri : Option String
  pub tracks_number : ℕ
  pub current_track : ℕ

-- What a part of an event does to the properties, if it is there.
unfoldable pub given {ℓ} : {A : Type ℓ} → Option A → (A → Changing → Changing) → Changing → Changing
given none f c = c
given (some a) f c = f a c

unfoldable pub given_number : ℕ → String → Changing → Changing
given_number n key c = if n == max_uint then c else change_props key (uint32 n) c

-- The state after a change of the player's properties, and the signal with the changes.
unfoldable pub emit_changes : (Changing → Changing) → State → State × List Table
emit_changes f s =
    let c = f (s.props.player_props, []) in
    (record s { props = record s.props { player_props = c.0 } }, c.1 ∷ [])

module _ (glib : GlibText) (didl : Didl) where
  unfoldable pub change_metadata : Option String → Option Text → Option String → Changing → Changing
  change_metadata (some meta_data) duration uri c =
      add_track_meta_data glib didl meta_data duration uri c
  change_metadata none duration uri c =
      given uri (λ u. merge_meta_data "xesam:url" (string u))
        (given duration
          (λ t. merge_meta_data "mpris:length" (int64 (pos (duration_to_int64 glib t)))) c)

  -- prv_last_change_cb, on the properties
  unfoldable pub change_player : LastChange → Changing → Changing
  change_player e c0 =
      let c1 = change_metadata e.meta_data e.duration e.uri c0 in
      let c2 = given e.actions (add_actions glib) c1 in
      let c3 = given e.play_speed (λ t. change_props "Rate" (map_transport_speed glib t)) c2 in
      let c4 =
        given e.transport_state
          (λ s. change_props "PlaybackStatus" (string (map_transport_state s))) c3 in
      let c5 = given_number e.tracks_number "NumberOfTracks" c4 in
      given_number e.current_track "CurrentTrack" c5

  -- prv_last_change_cb; an event that cannot be parsed changes nothing
  unfoldable pub last_change : Option LastChange → State → State × List Table
  last_change none s = (s, [])
  last_change (some e) s =
      let out = emit_changes (change_player e) s in
      (record out.0 { rate = elim e.play_speed [ none ↦ s.rate | some t ↦ t ] }, out.1)

module _ (glib : GlibText) where
  -- prv_get_position_info_cb on the properties; `none` where the call has failed
  unfoldable pub get_position_info : Option Text → State → State × List Table
  get_position_info none s = (s, [])
  get_position_info (some rel_pos) s = emit_changes (add_reltime glib (glib.strstrip rel_pos)) s
