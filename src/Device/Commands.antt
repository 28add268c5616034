-- ===== src/Device/Commands.antt =====
-- src/device.c: the functions rsu_device_* that carry out a task. Each gives the device and the task as
-- it leaves them, the signals that it emits, and what comes next: a UPnP call, or the completion, which
-- it has scheduled.
use renderer_service_upnp.Prelude.{
  ℕ, suc, ◌*◌, ◌/◌, ◌^◌, String, Bool, true, false, not, ◌&&◌, ◌||◌, List, [], ◌∷◌, Option, none,
  some, ◌==◌, string_eq, nat_eq, leb, if◌then◌else◌, get_elem?,
}
use renderer_service_upnp.Prelude.Int.{ℤ, pos, negsuc, abs, ◌*ℤ◌, ◌-ℤ◌}
use renderer_service_upnp.Dict.{lookup, insert}
use renderer_service_upnp.Error.{
  Error, operation_failed, bad_query, unknown_interface, unknown_property,
}
use renderer_service_upnp.Glib.{Text, GlibText}
use renderer_service_upnp.Glib.Decimal.{print_unsigned}
use renderer_service_upnp.Task.{Task}
use renderer_service_upnp.Task.Kinds.{Variant, string, double, doubles}
use renderer_service_upnp.Device.Duration.{int64_to_duration}
use renderer_service_upnp.Device.Props.{Table, State, interface_player, get_prop, get_props}
use renderer_service_upnp.Device.Changes.{get_position_info}
use renderer_service_upnp.Device.Update.{Description, sync}

-- An action of UPnP's AVTransport or RenderingControl, with its arguments.
pub data Action : Type 0 where
  play_at : Text → Action
  command : String → Action
  set_uri : String → Action
  seek_target : String → Text → Action
  set_volume : ℕ → Action
  get_position : Action

-- What comes next: the completion, or a UPnP call, whose end schedules it.
pub data Next : Type 0 where
  completion : Next
  call : Action → Next

-- What an operation leaves.
pub record Done : Type 0 where
  pub state : State
  pub task : Task
  pub signals : List Table
  pub next : Next

-- The start of an action, with the task's cancellable connected.
unfoldable pub begin_action : Action → State → Task → Done
begin_action a s t = record {
  state = s;
  task = record t { connected = true };
  signals = [];
  next = call a;
}

-- rsu_device_play
unfoldable pub device_play : State → Task → Done
device_play s t = begin_action (play_at s.rate) s t

-- prv_simple_command
unfoldable pub simple_command : String → State → Task → Done
simple_command name s t = begin_action (command name) s t

-- rsu_device_pause
unfoldable pub device_pause : State → Task → Done
device_pause s t = simple_command "Pause" s t

-- rsu_device_stop
unfoldable pub device_stop : State → Task → Done
device_stop s t = simple_command "Stop" s t

-- rsu_device_next
unfoldable pub device_next : State → Task → Done
device_next s t = simple_command "Next" s t

-- rsu_device_previous
unfoldable pub device_previous : State → Task → Done
device_previous s t = simple_command "Previous" s t

unfoldable pub is_playing : Option Variant → Bool
is_playing (some (string state)) = state == "Playing"
is_playing _ = false

-- rsu_device_play_pause
unfoldable pub device_play_pause : State → Task → Done
device_play_pause s t =
    if is_playing (lookup "PlaybackStatus" s.props.player_props)
    then device_pause s t
    else device_play s t

-- rsu_device_open_uri, of a task for this URI
unfoldable pub device_open_uri : String → State → Task → Done
device_open_uri uri s t = begin_action (set_uri uri) s t

-- prv_device_set_position, of a task with this position and this track
unfoldable pub set_position : String → ℤ → ℕ → State → Task → Done
set_position pos_type position track_number s t =
    begin_action
      (seek_target pos_type (
        if pos_type == "TRACK_NR" then print_unsigned track_number else int64_to_duration position))
      s t

-- rsu_device_seek
unfoldable pub device_seek : ℤ → ℕ → State → Task → Done
device_seek position track_number s t = set_position "REL_TIME" position track_number s t

-- rsu_device_set_position
unfoldable pub device_set_position : ℤ → ℕ → State → Task → Done
device_set_position position track_number s t = set_position "ABS_TIME" position track_number s t

-- rsu_device_goto_track
unfoldable pub device_goto_track : ℤ → ℕ → State → Task → Done
device_goto_track position track_number s t = set_position "TRACK_NR" position track_number s t

-- fabs(n / d - a / b) <= 0.01
unfoldable pub is_near : ℤ → ℕ → ℤ × ℕ → Bool
is_near n d (a, b) = leb (100 * abs (n *ℤ pos b -ℤ a *ℤ pos d)) (d * b)

-- The loop of prv_get_rate_value_from_double: the value, and its place.
unfoldable pub find_rate : ℤ → ℕ → List (ℤ × ℕ) → Option ((ℤ × ℕ) × ℕ)
find_rate n d [] = none
find_rate n d (v ∷ rest) =
    if is_near n d v
    then some (v, 0)
    else elim (find_rate n d rest) [ none ↦ none | some (w, i) ↦ some (w, suc i) ]

-- Of prv_set_rate: an error, or the text of the rate and its double; `none` is a read past the end of
-- transport_play_speeds.
pub data RateResult : Type 0 where
  bad_rate : Error → RateResult
  good_rate : Text → ℤ × ℕ → RateResult

unfoldable pub rate_at : Option (List Text) → ℕ → Option Text
rate_at none i = none
rate_at (some speeds) i = get_elem? speeds i

-- prv_get_rate_value_from_double
unfoldable pub get_rate_value_from_double :
    ℤ → ℕ → Option Variant → Option (List Text) → Option RateResult
get_rate_value_from_double n d (some (doubles tps)) speeds = elim (find_rate n d tps) [
  | none ↦ some (bad_rate bad_query)
  | some (v, i) ↦ elim (rate_at speeds i) [ none ↦ none | some t ↦ some (good_rate t v) ]
]
get_rate_value_from_double n d (some _) speeds = some (bad_rate bad_query)
get_rate_value_from_double n d none speeds = some (bad_rate operation_failed)

unfoldable pub put_rate : RateResult → State → Task → State × Task
put_rate (bad_rate e) s t = (s, record t { error = some e })
put_rate (good_rate text v) s t = (
  record s {
    rate = text;
    props = record s.props { player_props = insert "Rate" (double v.0 v.1) s.props.player_props };
  },
  t,
)

unfoldable pub put_result : Option RateResult → State → Task → Option (State × Task)
put_result none s t = none
put_result (some r) s t = some (put_rate r s t)

-- prv_set_rate
unfoldable pub set_rate : Variant → State → Task → Option (State × Task)
set_rate (double n d) s t =
    put_result
      (get_rate_value_from_double n d (lookup "TransportPlaySpeeds" s.props.player_props)
        s.transport_play_speeds)
      s t
set_rate _ s t = some (s, record t { error = some bad_query })

-- (guint) of a value's product with the maximum; a value that is no double counts as 0. C cuts the
-- product to a whole number, and defines no result where that is negative, or where no guint holds it.
unfoldable pub volume_of : Variant → ℕ → Option ℕ
volume_of (double (pos n) d) max_volume =
    let v = (n * max_volume) / d in if leb (2 ^ 32) v then none else some v
volume_of (double (negsuc n) d) max_volume = if (suc n * max_volume) / d == 0 then some 0 else none
volume_of _ max_volume = some 0

-- prv_set_volume
unfoldable pub set_volume_call : Variant → State → Task → Option Done
set_volume_call params s t = elim (volume_of params s.max_volume) [
  | none ↦ none
  | some v ↦ some (begin_action (set_volume v) s t)
]

unfoldable pub completed_with : Option (State × Task) → Option Done
completed_with none = none
completed_with (some (s, t)) =
    some (record { state = s; task = t; signals = []; next = completion })

-- The interfaces with no property that can be set.
unfoldable pub is_foreign : String → Bool
is_foreign interface = not (interface == interface_player) && not (interface == "")

-- rsu_device_set_prop, of a task with these parameters; `none` where C defines no result
unfoldable pub device_set_prop : String → String → Variant → State → Task → Option Done
device_set_prop interface name params s t =
    if is_foreign interface
    then completed_with (some (s, record t { error = some unknown_interface }))
    else if name == "Rate"
    then completed_with (set_rate params s t)
    else if not (name == "Volume")
    then completed_with (some (s, record t { error = some unknown_property }))
    else set_volume_call params s t

-- prv_get_position_info, with the private data that its caller makes
unfoldable pub get_position_info_call : State → Task → Done
get_position_info_call s t = begin_action get_position s (record t { private_data = true })

module _ (d : Description) where
  -- rsu_device_get_prop
  unfoldable pub device_get_prop : String → String → State → Task → Done
  device_get_prop interface name s t =
      if (interface == interface_player || interface == "") && name == "Position"
      then get_position_info_call s t
      else (let out = sync d s in
          record {
            state = out.0;
            task = get_prop out.0.props t;
            signals = out.1;
            next = completion;
          })

  -- rsu_device_get_all_props
  unfoldable pub device_get_all_props : String → State → Task → Done
  device_get_all_props interface s t =
      let out = sync d s in
      if interface == interface_player || interface == ""
      then record (get_position_info_call out.0 t) { signals = out.1 }
      else record {
        state = out.0;
        task = get_props out.0.props t;
        signals = out.1;
        next = completion;
      }

module _ (glib : GlibText) where
  -- The error of prv_get_position_info_cb, and g_cancellable_disconnect.
  unfoldable pub position_error : Option Text → Task → Task
  position_error none t = record t { error = some operation_failed; connected = false }
  position_error (some rel_pos) t = record t { connected = false }

  -- prv_get_position_info_cb with prv_complete_get_prop; `none` where the call has failed
  unfoldable pub complete_get_prop : Option Text → State → Task → Done
  complete_get_prop rel_pos s t =
      let out = get_position_info glib rel_pos s in
      record {
        state = out.0;
        task = get_prop out.0.props (position_error rel_pos t);
        signals = out.1;
        next = completion;
      }

  -- prv_get_position_info_cb with prv_complete_get_props
  unfoldable pub complete_get_props : Option Text → State → Task → Done
  complete_get_props rel_pos s t =
      let out = get_position_info glib rel_pos s in
      record {
        state = out.0;
        task = get_props out.0.props (position_error rel_pos t);
        signals = out.1;
        next = completion;
      }
