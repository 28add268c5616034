-- ===== src/Device/Update.antt =====
-- src/device.c: the properties that come from a device's description and from those of its services,
-- and the volume of an event of the rendering control.
use renderer_service_upnp.Prelude.{
  ℕ, String, true, false, List, [], ◌∷◌, ◌++◌, Option, none, some, ◌==◌, string_eq, nat_eq,
  if◌then◌else◌, map,
}
use renderer_service_upnp.Prelude.Int.{ℤ, pos}
use renderer_service_upnp.Dict.{lookup, insert}
use renderer_service_upnp.Glib.{Text}
use renderer_service_upnp.Task.Kinds.{Variant, string, boolean, double, doubles}
use renderer_service_upnp.Device.Contexts.{Proxy}
use renderer_service_upnp.Device.Props.{Table, State, change_props}
use renderer_service_upnp.Device.Rates.{Rates, is_zero, rational_to_double, get_rates_values}
use renderer_service_upnp.Device.Metadata.{Changing}
use renderer_service_upnp.Device.Changes.{emit_changes, add_all_actions}

-- What gupnp_device_info_get_* give for a device's description; `none` is NULL, of an element that the
-- description leaves out.
pub record DeviceInfo : Type 0 where
  pub device_type : Option String
  pub udn : Option String
  pub friendly_name : Option String
  pub icon_url : Option String
  pub manufacturer : Option String
  pub manufacturer_url : Option String
  pub model_description : Option String
  pub model_name : Option String
  pub model_number : Option String
  pub serial_number : Option String
  pub presentation_url : Option String

-- What the network says of a context's device: its description; the allowed values of
-- TransportPlaySpeed and the maximum of Volume, if the service's description can be fetched and has
-- the variable.
pub record Description : Type 0 where
  pub info : DeviceInfo
  pub service_proxies : Proxy
  pub play_speeds : Option (List Text)
  pub volume_maximum : Option ℕ

-- A table with nothing under a key.
unfoldable pub clear : String → Table → Table
clear key [] = []
clear key ((k, v) ∷ m) = let rest = clear key m in if k == key then rest else (k, v) ∷ rest

-- g_variant_new_string of a text, put under a key. Of NULL it is an error of the program for which GLib
-- gives NULL, and no lookup finds a value after it.
unfoldable pub put_text : String → Option String → Table → Table
put_text key none props = clear key props
put_text key (some text) props = insert key (string text) props

-- prv_update_device_props
unfoldable pub update_device_props : DeviceInfo → Table → Table
update_device_props info p0 =
    let p1 = put_text "DeviceType" info.device_type p0 in
    let p2 = put_text "UDN" info.udn p1 in
    let p3 = put_text "FriendlyName" info.friendly_name p2 in
    let p4 = put_text "IconURL" info.icon_url p3 in
    let p5 = put_text "Manufacturer" info.manufacturer p4 in
    let p6 = put_text "ManufacturerUrl" info.manufacturer_url p5 in
    let p7 = put_text "ModelDescription" info.model_description p6 in
    let p8 = put_text "ModelName" info.model_name p7 in
    let p9 = put_text "ModelNumber" info.model_number p8 in
    let p10 = put_text "SerialNumber" info.serial_number p9 in
    put_text "PresentationURL" info.presentation_url p10

-- `val` of FriendlyName, put under Identity too
unfoldable pub put_value : String → Option Variant → Table → Table
put_value key none props = clear key props
put_value key (some value) props = insert key value props

-- The root properties of prv_props_update, with the device's properties that it has just put.
unfoldable pub update_root_props : Table → Table → Table
update_root_props device_props p0 =
    let p1 = insert "CanQuit" (boolean false) p0 in
    let p2 = insert "CanRaise" (boolean false) p1 in
    let p3 = insert "CanSetFullscreen" (boolean false) p2 in
    let p4 = insert "HasTrackList" (boolean false) p3 in
    put_value "Identity" (lookup "FriendlyName" device_props) p4

-- prv_get_av_service_states_values
unfoldable pub av_service_states_values : Option (List Text) → Option Rates
av_service_states_values none = none
av_service_states_values (some allowed) = get_rates_values allowed

-- prv_get_rc_service_states_values
unfoldable pub rc_service_states_values : Option ℕ → ℕ → ℕ
rc_service_states_values none max_volume = max_volume
rc_service_states_values (some n) max_volume = n

unfoldable pub rates_of : Description → Option Rates
rates_of d = if d.service_proxies.has_av then av_service_states_values d.play_speeds else none

unfoldable pub change_rate : String → ℤ → Changing → Changing
change_rate key h c = if is_zero h then c else change_props key (double h 100) c

unfoldable pub hundredth : ℤ → ℤ × ℕ
hundredth h = (h, 100)

unfoldable pub change_rates : Option Rates → Changing → Changing
change_rates none c = c
change_rates (some v) c0 =
    let c1 = change_rate "MinimumRate" (rational_to_double v.min_rate_str) c0 in
    let c2 = change_rate "MaximumRate" (rational_to_double v.max_rate_str) c1 in
    change_props "TransportPlaySpeeds" (doubles (map hundredth v.mpris_tp_speeds)) c2

unfoldable pub kept_speeds : Option Rates → Option (List Text) → Option (List Text)
kept_speeds none speeds = speeds
kept_speeds (some v) speeds = some v.upnp_tp_speeds

-- prv_props_update
unfoldable pub props_update : Description → State → State × List Table
props_update d s =
    let device_props = update_device_props d.info s.props.device_props in
    emit_changes (λ c. add_all_actions (change_rates (rates_of d) c))
      (record s {
        props = record s.props {
          root_props = update_root_props device_props s.props.root_props;
          device_props = device_props;
          synced = true;
        };
        max_volume =
            if d.service_proxies.has_rc
            then rc_service_states_values d.volume_maximum s.max_volume
            else s.max_volume;
        transport_play_speeds = kept_speeds (rates_of d) s.transport_play_speeds;
      })

-- `if (!device->props.synced) prv_props_update(device, task);`
unfoldable pub sync : Description → State → State × List Table
sync d s = if s.props.synced then (s, []) else props_update d s

unfoldable pub emit_volume : ℕ → State → State × List Table
emit_volume v s =
    if s.max_volume == 0
    then (s, [])
    else emit_changes (change_props "Volume" (double (pos v) s.max_volume)) s

-- `device_volume` is not set before the event is parsed.
unfoldable pub device_volume : ℕ → Option ℕ → ℕ
device_volume stack none = stack
device_volume stack (some v) = v

-- prv_rc_last_change_cb, of an event that cannot be parsed, or that names a volume or not. With no
-- volume the number is what `stack` holds.
unfoldable pub rc_last_change : Description → ℕ → Option (Option ℕ) → State → State × List Table
rc_last_change d stack none s = (s, [])
rc_last_change d stack (some volume) s =
    let synced = sync d s in
    let out = emit_volume (device_volume stack volume) synced.0 in (out.0, synced.1 ++ out.1)
