-- ===== src/Device/ServedTests.antt =====
-- What a renderer takes, and the types of its properties, at concrete texts.
use renderer_service_upnp.Prelude.{
  String, List, [], ◌∷◌, some, ◌≡◌, refl, ◌==◌, string_eq, if◌then◌else◌,
}
use renderer_service_upnp.Dict.{insert, lookup}
use renderer_service_upnp.Glib.Tests.{documented}
use renderer_service_upnp.Task.Kinds.{strings}
use renderer_service_upnp.Device.Props.{interface_player}
use renderer_service_upnp.Device.Watching.{gets, sinks}
use renderer_service_upnp.Device.Stable.{Served, starts, follows}
use renderer_service_upnp.Device.Protocols.{
  GlibAscii, cut, scheme_of, type_info, entry_info, add_info, add_infos, keys_of,
  as_prop_from_hash_table, process_protocol_info, sink_change, Takes, process_protocol_info-Takes,
}
use renderer_service_upnp.Device.Typed.{PropsTyped, Served-PropsTyped}
use renderer_service_upnp.Device.PlayerTests.{no_items, described, asks_rate, new_state, read_state}

abbrev sink : String
sink = "http-get:*:audio/mpeg:*,rtsp-rtp-udp:*:audio/L16:*,http-get:*:audio/mpeg:X,bad"

-- GLib on the texts that the sink has.
abbrev split_text : String → String → List String
split_text text separator =
    if text == sink
    then "http-get:*:audio/mpeg:*" ∷ "rtsp-rtp-udp:*:audio/L16:*" ∷ "http-get:*:audio/mpeg:X"
      ∷ "bad" ∷ []
    else if text == "http-get:*:audio/mpeg:*"
    then "http-get" ∷ "*" ∷ "audio/mpeg" ∷ "*" ∷ []
    else if text == "rtsp-rtp-udp:*:audio/L16:*"
    then "rtsp-rtp-udp" ∷ "*" ∷ "audio/L16" ∷ "*" ∷ []
    else if text == "http-get:*:audio/mpeg:X"
    then "http-get" ∷ "*" ∷ "audio/mpeg" ∷ "X" ∷ []
    else text ∷ []

abbrev ascii : GlibAscii
ascii = record {
  split = split_text;
  same_start = λ a b n. b == "http-get";
  strdown = λ s. if s == "audio/L16" then "audio/l16" else s;
}

process_protocol_info-Takes_example :
    Takes ascii sink (process_protocol_info ascii sink new_state).props
process_protocol_info-Takes_example = process_protocol_info-Takes ascii sink new_state

takes_run :
    lookup "SupportedUriSchemes" (process_protocol_info ascii sink new_state).props.root_props
    ≡ some (strings ("http" ∷ "rtsp-rtp-udp" ∷ []))
unfolding process_protocol_info as_prop_from_hash_table keys_of add_infos add_info entry_info
    type_info scheme_of cut insert lookup renderer_service_upnp.Device.Stable.state_new
takes_run = refl

Served-PropsTyped_example : PropsTyped (sink_change ascii (some sink) read_state)
Served-PropsTyped_example =
    Served-PropsTyped described documented no_items
      (follows (follows starts (gets interface_player "Rate" asks_rate)) (sinks ascii (some sink)))
