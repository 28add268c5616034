-- ===== src/Device/Props.antt =====
-- src/device.c: the properties of a device, and the answers to Get and GetAll. A GVariant a{sv} keeps
-- its entries in the order of the builder.
use renderer_service_upnp.Prelude.{
  ℕ, String, Bool, ◌||◌, List, [], ◌∷◌, ◌++◌, Option, none, some, ◌==◌, string_eq, if◌then◌else◌,
}
use renderer_service_upnp.Dict.{lookup, insert}
use renderer_service_upnp.Error.{Error, unknown_interface, unknown_property}
use renderer_service_upnp.Glib.{Text}
use renderer_service_upnp.Task.{Task}
use renderer_service_upnp.Task.Kinds.{
  Variant, Entries, no_entries, entry, dict, Payload, get_prop_of, get_props_of,
}

abbrev pub Table : Type 0
Table = List (String × Variant)

-- rsu_props_t
pub record Props : Type 0 where
  pub root_props : Table
  pub player_props : Table
  pub device_props : Table
  pub synced : Bool

-- The part of rsu_device_t that the properties decide.
pub record State : Type 0 where
  pub props : Props
  pub max_volume : ℕ
  pub transport_play_speeds : Option (List Text)
  pub rate : Text

abbrev pub interface_server : String
interface_server = "org.mpris.MediaPlayer2"

abbrev pub interface_player : String
interface_player = "org.mpris.MediaPlayer2.Player"

abbrev pub interface_device : String
interface_device = "com.intel.UPnP.RendererDevice"

-- prv_change_props, with the table and the entries of the builder
unfoldable pub change_props : String → Variant → Table × Table → Table × Table
change_props key value (props, changed) = (insert key value props, changed ++ (key, value) ∷ [])

unfoldable pub or_else : Option Variant → Option Variant → Option Variant
or_else none r = r
or_else (some v) r = some v

-- `res` of prv_get_prop
unfoldable pub prop_of : String → String → Props → Option Variant
prop_of interface name p =
    if interface == interface_device
    then lookup name p.device_props
    else if interface == interface_server
    then lookup name p.root_props
    else if interface == interface_player
    then lookup name p.player_props
    else if interface == ""
    then or_else (or_else (lookup name p.root_props) (lookup name p.player_props))
        (lookup name p.device_props)
    else none

unfoldable pub is_interface : String → Bool
is_interface interface =
    interface == interface_device
    || (interface == interface_server || (interface == interface_player || interface == ""))

-- The error that is there after an unknown interface has replaced it.
unfoldable pub interface_error : String → Option Error → Option Error
interface_error interface e = if is_interface interface then e else some unknown_interface

unfoldable pub or_error : Option Error → Error → Option Error
or_error none e = some e
or_error (some e') e = some e'

unfoldable pub get_prop_result : Option Variant → Task → Task
get_prop_result none t = record t { error = or_error t.error unknown_property }
get_prop_result (some v) t = record t { result = some v }

unfoldable pub get_prop_payload : Payload → Props → Task → Task
get_prop_payload (get_prop_of interface name) p t =
    get_prop_result (prop_of interface name p)
      (record t { error = interface_error interface t.error })
get_prop_payload _ p t = t

-- prv_get_prop
unfoldable pub get_prop : Props → Task → Task
get_prop p t = get_prop_payload t.ut p t

-- prv_add_props, on the entries of the builder
unfoldable pub add_props : Table → Table → Table
add_props props vb = vb ++ props

unfoldable pub props_of : String → Props → Option Table
unfolding add_props
props_of interface p =
    if interface == interface_device
    then some (add_props p.device_props [])
    else if interface == interface_server
    then some (add_props p.device_props (add_props p.root_props []))
    else if interface == interface_player
    then some (add_props p.player_props [])
    else if interface == ""
    then some (add_props p.device_props (add_props p.player_props (add_props p.root_props [])))
    else none

-- g_variant_builder_end
unfoldable pub entries : Table → Entries
entries [] = no_entries
entries ((k, v) ∷ m) = entry k v (entries m)

unfoldable pub get_props_result : Option Table → Task → Task
get_props_result none t = record t { error = some unknown_interface }
get_props_result (some m) t = record t { result = some (dict (entries m)) }

unfoldable pub get_props_payload : Payload → Props → Task → Task
get_props_payload (get_props_of interface) p t = get_props_result (props_of interface p) t
get_props_payload _ p t = t

-- prv_get_props
unfoldable pub get_props : Props → Task → Task
get_props p t = get_props_payload t.ut p t
