-- ===== src/Renderer/Calls.antt =====
-- src/renderer-service-upnp.c: the handlers of D-Bus calls.
use renderer_service_upnp.Prelude.{ℕ, String, [], ◌∷◌, Option, none, some}
use renderer_service_upnp.Prelude.Int.{ℤ}
use renderer_service_upnp.Error.{object_not_found}
use renderer_service_upnp.Task.{Task, return_value, return_error}
use renderer_service_upnp.Task.Kinds.{Variant, Invocation}
use renderer_service_upnp.Task.New.{
  get_version_new, get_servers_new, raise_new, quit_new, get_prop_new, get_props_new, set_prop_new,
  play_new, pause_new, play_pause_new, stop_new, next_new, previous_new, seek_new, set_position_new,
  goto_track_new, open_uri_new, host_uri_new, remove_uri_new,
}
use renderer_service_upnp.Processor.State.{Output, Key, task_effect, Processor, emit}
use renderer_service_upnp.Processor.Cancel.{cancel_queue}
use renderer_service_upnp.Processor.Queues.{lookup_queue}
use renderer_service_upnp.Upnp.{device_from_path}
use renderer_service_upnp.Renderer.Context.{Context, remove_client, add_client_task}

-- The methods of each interface, with their parameters unpacked. The last constructor of each is any
-- other name, for which GDBus never calls the handler.
pub data ManagerCall : Type 0 where
  call_release call_get_version call_get_servers unknown_manager : ManagerCall

pub data PropsCall : Type 0 where
  call_get_all : String → PropsCall
  call_get : String → String → PropsCall
  call_set : String → String → Variant → PropsCall
  unknown_props : PropsCall

pub data RootCall : Type 0 where
  call_raise call_quit unknown_root : RootCall

pub data PlayerCall : Type 0 where
  call_play call_pause call_play_pause call_stop call_next call_previous : PlayerCall
  call_open_uri : String → PlayerCall
  call_seek : ℤ → PlayerCall
  call_set_position : String → ℤ → PlayerCall
  call_goto_track : ℕ → PlayerCall
  unknown_player : PlayerCall

pub data PushHostCall : Type 0 where
  call_host_file call_remove_file : String → PushHostCall
  unknown_push_host : PushHostCall

pub data DeviceCall : Type 0 where
  call_cancel unknown_device : DeviceCall

abbrev pub rsu_sink : String
rsu_sink = "renderer-service-upnp"

unfoldable pub answer : Output → Context → Context
answer out c = record c { processor = emit (out ∷ []) c.processor }

-- A method that makes a task has it added; another does nothing.
unfoldable pub add_made : Invocation → Option Task → String → Context → Option Context
add_made i none device_id c = some c
add_made i (some t) device_id c = add_client_task i t device_id c

-- prv_rsu_method_call
unfoldable pub rsu_method_call : String → Invocation → ManagerCall → Context → Option Context
rsu_method_call version i call_release c =
    some (answer (task_effect (return_value i none)) (remove_client i.sender c))
rsu_method_call version i call_get_version c =
    add_client_task i (get_version_new version i) rsu_sink c
rsu_method_call version i call_get_servers c = add_client_task i (get_servers_new i) rsu_sink c
rsu_method_call version i unknown_manager c = some c

-- The start that the handlers of a device's interfaces share: prv_get_device_id, and the error of a
-- path that is no device's.
unfoldable pub on_device_id :
    Invocation → Option String → (String → Context → Option Context) → Context → Option Context
on_device_id i none f c = some (answer (task_effect (return_error i object_not_found)) c)
on_device_id i (some device_id) f c = f device_id c

module _ (strstrip : String → String) (object : String) (i : Invocation) where
  unfoldable pub props_task : PropsCall → Option Task
  props_task (call_get_all interface) = some (get_props_new strstrip i object interface)
  props_task (call_get interface name) = some (get_prop_new strstrip i object interface name)
  props_task (call_set interface name v) = some (set_prop_new strstrip i object interface name v)
  props_task unknown_props = none

  -- prv_props_method_call
  unfoldable pub props_method_call : PropsCall → Context → Option Context
  unfolding props_task
  props_method_call call c =
      on_device_id i (device_from_path object c.devices) (add_made i (props_task call)) c

  unfoldable pub root_task : RootCall → Option Task
  root_task call_raise = some (raise_new i)
  root_task call_quit = some (quit_new i)
  root_task unknown_root = none

  -- prv_rsu_device_method_call
  unfoldable pub device_method_call : RootCall → Context → Option Context
  unfolding root_task
  device_method_call call c =
      on_device_id i (device_from_path object c.devices) (add_made i (root_task call)) c

  unfoldable pub player_task : PlayerCall → Option Task
  player_task call_play = some (play_new strstrip i object)
  player_task call_pause = some (pause_new strstrip i object)
  player_task call_play_pause = some (play_pause_new strstrip i object)
  player_task call_stop = some (stop_new strstrip i object)
  player_task call_next = some (next_new strstrip i object)
  player_task call_previous = some (previous_new strstrip i object)
  player_task (call_open_uri uri) = some (open_uri_new strstrip i object uri)
  player_task (call_seek position) = some (seek_new strstrip i object position)
  player_task (call_set_position track_id position) =
      some (set_position_new strstrip i object track_id position)
  player_task (call_goto_track track) = some (goto_track_new strstrip i object track)
  player_task unknown_player = none

  -- prv_rsu_player_method_call
  unfoldable pub player_method_call : PlayerCall → Context → Option Context
  unfolding player_task
  player_method_call call c =
      on_device_id i (device_from_path object c.devices) (add_made i (player_task call)) c

  unfoldable pub push_host_task : PushHostCall → Option Task
  push_host_task (call_host_file uri) = some (host_uri_new strstrip i object uri)
  push_host_task (call_remove_file uri) = some (remove_uri_new strstrip i object uri)
  push_host_task unknown_push_host = none

  -- prv_rsu_push_host_method_call
  unfoldable pub push_host_method_call : PushHostCall → Context → Option Context
  unfolding push_host_task
  push_host_method_call call c =
      on_device_id i (device_from_path object c.devices) (add_made i (push_host_task call)) c

-- `if (queue_id) rsu_task_processor_cancel_queue(queue_id)`
unfoldable pub cancel_found : Option Key → Processor → Option Processor
cancel_found none s = some s
cancel_found (some k) s = cancel_queue k s

-- prv_renderer_device_method_call, on the device that it finds
unfoldable pub on_renderer_device : Invocation → DeviceCall → String → Context → Option Context
on_renderer_device i unknown_device device_id c = some c
on_renderer_device i call_cancel device_id c =
    elim (cancel_found (lookup_queue c.processor i.sender device_id) c.processor) [
      | none ↦ none
      | some s ↦ some (answer (task_effect (return_value i none)) (record c { processor = s }))
    ]

unfoldable pub renderer_device_method_call :
    String → Invocation → DeviceCall → Context → Option Context
renderer_device_method_call object i call c =
    on_device_id i (device_from_path object c.devices) (on_renderer_device i call) c

-- A call on any of the interfaces; all but the manager's are of an object.
pub data Call : Type 0 where
  manager : ManagerCall → Call
  props : String → PropsCall → Call
  root : String → RootCall → Call
  player : String → PlayerCall → Call
  push_host : String → PushHostCall → Call
  renderer_device : String → DeviceCall → Call

-- The handler of g_root_vtables and g_server_vtables for a call.
unfoldable pub method_call :
    String → (String → String) → Invocation → Call → Context → Option Context
method_call version strstrip i (manager call) c = rsu_method_call version i call c
method_call version strstrip i (props object call) c = props_method_call strstrip object i call c
method_call version strstrip i (root object call) c = device_method_call strstrip object i call c
method_call version strstrip i (player object call) c = player_method_call strstrip object i call c
method_call version strstrip i (push_host object call) c =
    push_host_method_call strstrip object i call c
method_call version strstrip i (renderer_device object call) c =
    renderer_device_method_call object i call c
