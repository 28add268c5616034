-- ===== src/Task/New.antt =====
-- The constructors of src/task.c. `strstrip` is GLib's g_strstrip, and `version` the VERSION of the
-- build. The parameters of a call come unpacked, as g_variant_get unpacks them; GDBus checks a
-- call's signature before it reaches the program.
use renderer_service_upnp.Prelude.{ℕ, String, Option, none, some, true, false}
use renderer_service_upnp.Prelude.Int.{ℤ, pos}
use renderer_service_upnp.Task.Kinds.{
  TaskType, Variant, Invocation, get_version, get_servers, raise, quit, set_prop, get_all_props,
  get_prop, pause, play, play_pause, stop, next, previous, open_uri, seek, set_position, goto_track,
  host_uri, remove_uri, string, no_params, get_props_of, get_prop_of, set_prop_of, uri_of,
  hosted_uri, seek_to,
}
use renderer_service_upnp.Task.{Task}

-- g_new0(rsu_task_t, 1) of a synchronous task
sync_task : TaskType → Invocation → Task
sync_task type i = record {
  type = type;
  path = none;
  result_format = none;
  result = none;
  invocation = some i;
  synchronous = true;
  ut = no_params;
  cancellable = false;
  connected = false;
  error = none;
  private_data = false;
}

-- rsu_task_get_version_new
unfoldable pub get_version_new : String → Invocation → Task
unfolding sync_task
get_version_new version i = record (sync_task get_version i) {
  result_format = some "(@s)";
  result = some (string version);
}

-- rsu_task_get_servers_new
unfoldable pub get_servers_new : Invocation → Task
unfolding sync_task
get_servers_new i = record (sync_task get_servers i) { result_format = some "(@as)" }

-- rsu_task_raise_new
unfoldable pub raise_new : Invocation → Task
unfolding sync_task
raise_new i = sync_task raise i

-- rsu_task_quit_new
unfoldable pub quit_new : Invocation → Task
unfolding sync_task
quit_new i = sync_task quit i

module _ (strstrip : String → String) where
  -- prv_device_task_new
  device_task_new : TaskType → Invocation → String → Option String → Task
  device_task_new type i path format = record {
    type = type;
    path = some (strstrip path);
    result_format = format;
    result = none;
    invocation = some i;
    synchronous = false;
    ut = no_params;
    cancellable = false;
    connected = false;
    error = none;
    private_data = false;
  }

  unfoldable pub get_prop_new : Invocation → String → String → String → Task
  unfolding device_task_new
  get_prop_new i path interface name = record (device_task_new get_prop i path (some "(v)")) {
    ut = get_prop_of (strstrip interface) (strstrip name);
  }

  unfoldable pub get_props_new : Invocation → String → String → Task
  unfolding device_task_new
  get_props_new i path interface = record (device_task_new get_all_props i path (some "(@a{sv})")) {
    ut = get_props_of (strstrip interface);
  }

  unfoldable pub set_prop_new : Invocation → String → String → String → Variant → Task
  unfolding device_task_new
  set_prop_new i path interface name value = record (device_task_new set_prop i path none) {
    ut = set_prop_of (strstrip interface) (strstrip name) value;
  }

  unfoldable pub play_new : Invocation → String → Task
  unfolding device_task_new
  play_new i path = device_task_new play i path none

  unfoldable pub pause_new : Invocation → String → Task
  unfolding device_task_new
  pause_new i path = device_task_new pause i path none

  unfoldable pub play_pause_new : Invocation → String → Task
  unfolding device_task_new
  play_pause_new i path = device_task_new play_pause i path none

  unfoldable pub stop_new : Invocation → String → Task
  unfolding device_task_new
  stop_new i path = device_task_new stop i path none

  unfoldable pub next_new : Invocation → String → Task
  unfolding device_task_new
  next_new i path = device_task_new next i path none

  unfoldable pub previous_new : Invocation → String → Task
  unfolding device_task_new
  previous_new i path = device_task_new previous i path none

  unfoldable pub seek_new : Invocation → String → ℤ → Task
  unfolding device_task_new
  seek_new i path position = record (device_task_new seek i path none) { ut = seek_to position 0 }

  -- the track id that comes first among the parameters is not read
  unfoldable pub set_position_new : Invocation → String → String → ℤ → Task
  unfolding device_task_new
  set_position_new i path track_id position = record (device_task_new set_position i path none) {
    ut = seek_to position 0;
  }

  unfoldable pub goto_track_new : Invocation → String → ℕ → Task
  unfolding device_task_new
  goto_track_new i path track = record (device_task_new goto_track i path none) {
    ut = seek_to (pos 0) track;
  }

  unfoldable pub open_uri_new : Invocation → String → String → Task
  unfolding device_task_new
  open_uri_new i path uri = record (device_task_new open_uri i path none) {
    ut = uri_of (strstrip uri);
  }

  unfoldable pub host_uri_new : Invocation → String → String → Task
  unfolding device_task_new
  host_uri_new i path uri = record (device_task_new host_uri i path (some "(@s)")) {
    ut = hosted_uri (strstrip uri) i.sender;
  }

  unfoldable pub remove_uri_new : Invocation → String → String → Task
  unfolding device_task_new
  remove_uri_new i path uri = record (device_task_new remove_uri i path none) {
    ut = hosted_uri (strstrip uri) i.sender;
  }
