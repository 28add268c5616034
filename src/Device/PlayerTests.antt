-- ===== src/Device/PlayerTests.antt =====
-- A player with two speeds, and the theorems on its properties at concrete inputs.
use renderer_service_upnp.Prelude.{
  ◌≡◌, ◌↔◌, ◌*◌, ◌/◌, ◌<◌, ◌^◌, refl, true, [], ◌∷◌, List, none, some, arith, codes, string_eq,
  eq_iff,
}
use renderer_service_upnp.Prelude.Int.{pos, negsuc}
use renderer_service_upnp.Dict.{lookup}
use renderer_service_upnp.Error.{unknown_interface, unknown_property}
use renderer_service_upnp.Glib.{Text}
use renderer_service_upnp.Glib.Tests.{documented}
use renderer_service_upnp.Task.{Task}
use renderer_service_upnp.Task.Kinds.{Invocation, no_entries, entry, string, int64, dict}
use renderer_service_upnp.Task.New.{get_prop_new, get_props_new}
use renderer_service_upnp.Device.Duration.{
  duration_to_int64, int64_to_duration, duration-roundtrip, duration_to_int64-bound,
  duration-sign_lost,
}
use renderer_service_upnp.Device.Fractions.{Keeps, get_rates_values-Keeps}
use renderer_service_upnp.Device.Rates.{
  Rates, get_rates_values, rational_to_double, add_rates, add_rate, is_invalid, is_zero, numerator,
  denominator, after_slash, min_max, is_positive, is_negative, compare_rationals, hundredths,
  same_sign,
}
use renderer_service_upnp.Glib.Decimal.{strtol, signed, skip_spaces, scan, to_int, to_unsigned}
use renderer_service_upnp.Device.Props.{
  Table, Props, State, interface_player, interface_server, get_prop, get_props,
}
use renderer_service_upnp.Device.Answers.{in_answer, get_prop-get_props, get_props-server}
use renderer_service_upnp.Device.Metadata.{Didl, parsed, merge_meta_data, merge_meta_data-entry}
use renderer_service_upnp.Device.Changes.{LastChange, max_uint, last_change}
use renderer_service_upnp.Device.Update.{Description}
use renderer_service_upnp.Device.Commands.{device_get_prop}
use renderer_service_upnp.Device.Watching.{begins, follows, plays, gets, Watched-follows}
use renderer_service_upnp.Device.Signals.{follow_all}
use renderer_service_upnp.Device.Offered
use renderer_service_upnp.Device.Stable

duration-roundtrip_example :
    duration_to_int64 documented (int64_to_duration (pos 5025500000))
    ≡ (5025500000 / 1000000) * 1000000
duration-roundtrip_example = duration-roundtrip documented 5025500000 (omega arith)

duration_to_int64-bound_example : duration_to_int64 documented (codes "-1:99:4294967295") < 2 ^ 63
duration_to_int64-bound_example = duration_to_int64-bound documented (codes "-1:99:4294967295")

duration-sign_lost_example :
    duration_to_int64 documented (int64_to_duration (negsuc 9999999))
    ≡ (10000000 / 1000000) * 1000000
duration-sign_lost_example = duration-sign_lost documented 9999999 (omega arith)

abbrev speeds : List Text
speeds = codes "0" ∷ codes "1" ∷ codes "1/2" ∷ []

abbrev rates : Rates
rates = record {
  min_rate_str = codes "0";
  max_rate_str = codes "1";
  upnp_tp_speeds = codes "1" ∷ codes "1/2" ∷ [];
  mpris_tp_speeds = pos 100 ∷ pos 50 ∷ [];
}

two_rates : get_rates_values speeds ≡ some rates
unfolding get_rates_values rational_to_double add_rates add_rate is_invalid is_zero numerator
    denominator after_slash min_max is_positive is_negative compare_rationals hundredths same_sign
    strtol signed skip_spaces scan to_int to_unsigned
two_rates = refl

get_rates_values-Keeps_example : Keeps speeds rates.upnp_tp_speeds rates.mpris_tp_speeds
get_rates_values-Keeps_example = get_rates_values-Keeps speeds rates two_rates

abbrev playing : Table
playing = ("Metadata", dict (entry "xesam:url" (string "/a.mp3") no_entries)) ∷ []

merge_meta_data-entry_example :
    in_answer "xesam:url"
      (lookup "Metadata" (merge_meta_data "mpris:length" (int64 (pos 7)) (playing, [])).0)
    ≡ in_answer "xesam:url" (lookup "Metadata" playing)
merge_meta_data-entry_example =
    merge_meta_data-entry "mpris:length" "xesam:url" (int64 (pos 7)) (playing, [])

abbrev props : Props
props = record {
  root_props = ("Identity", string "Kitchen") ∷ [];
  player_props = playing;
  device_props = ("UDN", string "uuid:1") ∷ [];
  synced = true;
}

abbrev caller : Invocation
caller = record { serial = 7; sender = ":1.42" }

abbrev asks_one : Task
asks_one = get_prop_new (λ s. s) caller "/dev/0" interface_player "Metadata"

abbrev asks_all : Task
asks_all = get_props_new (λ s. s) caller "/dev/0" interface_player

get_prop-get_props_example :
    (in_answer "Metadata" (get_props props asks_all).result ≡ (get_prop props asks_one).result)
    × (((get_props props asks_all).error ≡ some unknown_interface)
        ↔ ((get_prop props asks_one).error ≡ some unknown_interface))
unfolding get_prop_new get_props_new
get_prop-get_props_example =
    get_prop-get_props interface_player "Metadata" props asks_one asks_all
      (ground (arith, eq_iff interface_player interface_server)) refl refl (refl, refl) (refl, refl)

abbrev asks_udn : Task
asks_udn = get_prop_new (λ s. s) caller "/dev/0" interface_server "UDN"

abbrev asks_server : Task
asks_server = get_props_new (λ s. s) caller "/dev/0" interface_server

get_props-server_example :
    (in_answer "UDN" (get_props props asks_server).result ≡ some (string "uuid:1"))
    × ((get_prop props asks_udn).error ≡ some unknown_property)
unfolding get_prop_new get_props_new lookup
get_props-server_example =
    get_props-server interface_server "UDN" props asks_udn asks_server (string "uuid:1") refl refl
      refl refl refl refl

abbrev pub no_items : Didl
no_items = record { parse_didl = λ s. ([], parsed); track_path = λ n. "/track" }

abbrev pub described : Description
described = record {
  info = record {
    device_type = some "MediaRenderer";
    udn = some "uuid:1";
    friendly_name = some "Kitchen";
    icon_url = none;
    manufacturer = none;
    manufacturer_url = none;
    model_description = none;
    model_name = none;
    model_number = none;
    serial_number = none;
    presentation_url = none;
  };
  service_proxies = record { has_cm = true; has_av = true; has_rc = true };
  play_speeds = some speeds;
  volume_maximum = some 100;
}

abbrev pauses : LastChange
pauses = record {
  meta_data = none;
  actions = some (codes "Play,Stop");
  play_speed = none;
  transport_state = some "PAUSED_PLAYBACK";
  duration = some (codes "0:03:20");
  uri = some "/a.mp3";
  tracks_number = 1;
  current_track = max_uint;
}

abbrev pub asks_rate : Task
asks_rate = get_prop_new (λ s. s) caller "/dev/0" interface_player "Rate"

abbrev pub new_state : State
new_state = Stable.state_new

abbrev pub read_state : State
read_state = (device_get_prop described interface_player "Rate" new_state asks_rate).state

Watched-follows_example :
    follow_all (last_change documented no_items (some pauses) read_state).1 (
      follow_all
        (device_get_prop described interface_player "Rate" new_state asks_rate).signals
        new_state.props.player_props)
    ≡ (last_change documented no_items (some pauses) read_state).0.props.player_props
Watched-follows_example = Watched-follows described documented no_items (
    follows (follows (begins new_state) (gets interface_player "Rate" asks_rate))
      (plays (some pauses)))
