-- ===== src/Upnp.antt =====
-- src/upnp.c: finding the device of a task, and the switch of prv_process_async_task of
-- src/renderer-service-upnp.c.
pub mod Discovery
pub mod Tables
pub mod Construction
pub mod Servers
pub mod History
pub mod Marks
pub mod Subscribed
pub mod Events
pub mod Tests
use renderer_service_upnp.Prelude.{
  String, Bool, true, false, List, [], ◌∷◌, Option, none, some, ◌≡◌, refl, arith, ◌==◌, string_eq,
  if◌then◌else◌,
}
use renderer_service_upnp.Error.{object_not_found}
use renderer_service_upnp.Task.{Task, return_error, fail}
use renderer_service_upnp.Processor.Run.{async_outcome}
use renderer_service_upnp.Task.Kinds.{
  TaskType, Invocation, get_version, get_servers, raise, quit, set_prop, get_all_props, get_prop,
  pause, play, play_pause, stop, next, previous, open_uri, seek, set_position, goto_track, host_uri,
  remove_uri,
}

-- `server_udn_map`: the paths of the devices by their UDNs
abbrev pub Devices : Type 0
Devices = List (String × String)

-- rsu_device_from_path
unfoldable pub device_from_path : String → Devices → Option String
device_from_path path [] = none
device_from_path path ((udn, p) ∷ rest) = if p == path then some p else device_from_path path rest

-- What the functions of src/device.c do with a task on the device of a path: the task as they leave
-- it, and whether they have scheduled rsu_async_task_complete.
pub record DeviceOps : Type 0 where
  pub device_set_prop : String → Task → Task × Bool
  pub device_get_prop : String → Task → Task × Bool
  pub device_get_all_props : String → Task → Task × Bool
  pub device_play : String → Task → Task × Bool
  pub device_pause : String → Task → Task × Bool
  pub device_play_pause : String → Task → Task × Bool
  pub device_stop : String → Task → Task × Bool
  pub device_next : String → Task → Task × Bool
  pub device_previous : String → Task → Task × Bool
  pub device_open_uri : String → Task → Task × Bool
  pub device_seek : String → Task → Task × Bool
  pub device_set_position : String → Task → Task × Bool
  pub device_goto_track : String → Task → Task × Bool
  pub device_host_uri : String → Task → Task × Bool
  pub device_remove_uri : String → Task → Task × Bool

-- A device that is found runs its function; else the task fails, and its completion is scheduled.
unfoldable pub on_device : (String → Task → Task × Bool) → Option String → Task → Task × Bool
on_device op none t = (record t { error = some object_not_found }, true)
on_device op (some path) t = op path t

-- The device of a task. A synchronous task has no path, and never comes here.
unfoldable pub device_of : Devices → Option String → Option String
device_of m none = none
device_of m (some path) = device_from_path path m

module _ (d : DeviceOps) (m : Devices) where
  unfoldable pub upnp_set_prop : Task → Task × Bool
  upnp_set_prop t = on_device d.device_set_prop (device_of m t.path) t

  unfoldable pub upnp_get_prop : Task → Task × Bool
  upnp_get_prop t = on_device d.device_get_prop (device_of m t.path) t

  unfoldable pub upnp_get_all_props : Task → Task × Bool
  upnp_get_all_props t = on_device d.device_get_all_props (device_of m t.path) t

  unfoldable pub upnp_play : Task → Task × Bool
  upnp_play t = on_device d.device_play (device_of m t.path) t

  unfoldable pub upnp_pause : Task → Task × Bool
  upnp_pause t = on_device d.device_pause (device_of m t.path) t

  unfoldable pub upnp_play_pause : Task → Task × Bool
  upnp_play_pause t = on_device d.device_play_pause (device_of m t.path) t

  unfoldable pub upnp_stop : Task → Task × Bool
  upnp_stop t = on_device d.device_stop (device_of m t.path) t

  unfoldable pub upnp_next : Task → Task × Bool
  upnp_next t = on_device d.device_next (device_of m t.path) t

  unfoldable pub upnp_previous : Task → Task × Bool
  upnp_previous t = on_device d.device_previous (device_of m t.path) t

  unfoldable pub upnp_open_uri : Task → Task × Bool
  upnp_open_uri t = on_device d.device_open_uri (device_of m t.path) t

  unfoldable pub upnp_seek : Task → Task × Bool
  upnp_seek t = on_device d.device_seek (device_of m t.path) t

  unfoldable pub upnp_set_position : Task → Task × Bool
  upnp_set_position t = on_device d.device_set_position (device_of m t.path) t

  unfoldable pub upnp_goto_track : Task → Task × Bool
  upnp_goto_track t = on_device d.device_goto_track (device_of m t.path) t

  unfoldable pub upnp_host_uri : Task → Task × Bool
  upnp_host_uri t = on_device d.device_host_uri (device_of m t.path) t

  unfoldable pub upnp_remove_uri : Task → Task × Bool
  upnp_remove_uri t = on_device d.device_remove_uri (device_of m t.path) t

  -- the switch of prv_process_async_task
  unfoldable pub dispatch : TaskType → Task → Task × Bool
  dispatch get_prop t = upnp_get_prop t
  dispatch get_all_props t = upnp_get_all_props t
  dispatch set_prop t = upnp_set_prop t
  dispatch play t = upnp_play t
  dispatch pause t = upnp_pause t
  dispatch play_pause t = upnp_play_pause t
  dispatch stop t = upnp_stop t
  dispatch next t = upnp_next t
  dispatch previous t = upnp_previous t
  dispatch open_uri t = upnp_open_uri t
  dispatch seek t = upnp_seek t
  dispatch set_position t = upnp_set_position t
  dispatch goto_track t = upnp_goto_track t
  dispatch host_uri t = upnp_host_uri t
  dispatch remove_uri t = upnp_remove_uri t
  dispatch _ t = (t, false)

-- The types of the tasks that prv_device_task_new makes, and that come here.
abbrev pub is_async : TaskType → Bool
is_async get_version = false
is_async get_servers = false
is_async raise = false
is_async quit = false
is_async _ = true

-- The error of a task whose path is no device's.
on_device-lost :
    (op : String → Task → Task × Bool) (o : Option String) (t : Task)
    → o ≡ none
    → on_device op o t ≡ (record t { error = some object_not_found }, true)
unfolding on_device
on_device-lost op none t e = refl
on_device-lost op (some path) t e = cc

module _ (d : DeviceOps) (m : Devices) where
  dispatch-lost :
      (y : TaskType) (t : Task)
      → is_async y ≡ true
      → device_of m t.path ≡ none
      → dispatch d m y t ≡ (record t { error = some object_not_found }, true)
  unfolding upnp_set_prop upnp_get_prop upnp_get_all_props upnp_play upnp_pause upnp_play_pause
      upnp_stop upnp_next upnp_previous upnp_open_uri upnp_seek upnp_set_position upnp_goto_track
      upnp_host_uri upnp_remove_uri dispatch
  dispatch-lost get_version t a e = cc
  dispatch-lost get_servers t a e = cc
  dispatch-lost raise t a e = cc
  dispatch-lost quit t a e = cc
  dispatch-lost _ t a e = on_device-lost _ (device_of m t.path) t e

  -- An asynchronous task of any type whose device is gone when its turn comes: its completion is
  -- scheduled, and when it runs it answers the caller with ObjectNotFound, whatever src/device.c does.
  pub dispatch-ObjectNotFound :
      (y : TaskType) (t : Task) (i : Invocation)
      → is_async y ≡ true
      → device_of m t.path ≡ none
      → t.invocation ≡ some i
      → ((dispatch d m y t).1 ≡ true)
        × ((async_outcome (dispatch d m y t).0).1 ≡ return_error i object_not_found ∷ [])
  unfolding async_outcome fail
  dispatch-ObjectNotFound y t i a e h = rw (dispatch-lost y t a e) (refl, ground arith)
