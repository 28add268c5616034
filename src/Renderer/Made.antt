-- ===== src/Renderer/Made.antt =====
-- The tasks that the handlers of src/renderer-service-upnp.c make for the methods of an interface.
use renderer_service_upnp.Prelude.{
  ◌≡◌, refl, String, Bool, Option, none, some, true, false, nat_eq, string_eq,
}
use renderer_service_upnp.Task.{Task}
use renderer_service_upnp.Task.Kinds.{Invocation}
use renderer_service_upnp.Task.New.{
  raise_new, quit_new, get_prop_new, get_props_new, set_prop_new, play_new, pause_new,
  play_pause_new, stop_new, next_new, previous_new, seek_new, set_position_new, goto_track_new,
  open_uri_new, host_uri_new, remove_uri_new,
}
use renderer_service_upnp.Processor.State.{key_eq}
use renderer_service_upnp.Renderer.Calls.{
  unknown_manager, call_get_all, call_get, call_set, unknown_props, call_raise, call_quit,
  unknown_root, call_play, call_pause, call_play_pause, call_stop, call_next, call_previous,
  call_open_uri, call_seek, call_set_position, call_goto_track, unknown_player, call_host_file,
  call_remove_file, unknown_push_host, unknown_device, Call, PropsCall, RootCall, PlayerCall,
  PushHostCall, props_task, root_task, player_task, push_host_task, manager, props, root, player,
  push_host, renderer_device,
}

-- Whether the interface of a call has its method.
abbrev pub known : Call → Bool
known (manager unknown_manager) = false
known (props object unknown_props) = false
known (root object unknown_root) = false
known (player object unknown_player) = false
known (push_host object unknown_push_host) = false
known (renderer_device object unknown_device) = false
known _ = true

-- A task was made, and it is to answer the call `i`.
abbrev pub Makes : Invocation → Option Task → Type 0
Makes i none = false ≡ true
Makes i (some t) = t.invocation ≡ some i

module _ (strstrip : String → String) (object : String) (i : Invocation) where
  pub props_task-Makes :
      (call : PropsCall)
      → known (props object call) ≡ true
      → Makes i (props_task strstrip object i call)
  unfolding props_task get_props_new get_prop_new set_prop_new
  props_task-Makes (call_get_all interface) h = refl
  props_task-Makes (call_get interface name) h = refl
  props_task-Makes (call_set interface name x) h = refl
  props_task-Makes unknown_props h = h

  pub root_task-Makes :
      (call : RootCall)
      → known (root object call) ≡ true
      → Makes i (root_task strstrip object i call)
  unfolding root_task raise_new quit_new
  root_task-Makes call_raise h = refl
  root_task-Makes call_quit h = refl
  root_task-Makes unknown_root h = h

  pub player_task-Makes :
      (call : PlayerCall)
      → known (player object call) ≡ true
      → Makes i (player_task strstrip object i call)
  unfolding player_task play_new pause_new play_pause_new stop_new next_new previous_new
      open_uri_new seek_new set_position_new goto_track_new
  player_task-Makes call_play h = refl
  player_task-Makes call_pause h = refl
  player_task-Makes call_play_pause h = refl
  player_task-Makes call_stop h = refl
  player_task-Makes call_next h = refl
  player_task-Makes call_previous h = refl
  player_task-Makes (call_open_uri uri) h = refl
  player_task-Makes (call_seek position) h = refl
  player_task-Makes (call_set_position track_id position) h = refl
  player_task-Makes (call_goto_track track) h = refl
  player_task-Makes unknown_player h = h

  pub push_host_task-Makes :
      (call : PushHostCall)
      → known (push_host object call) ≡ true
      → Makes i (push_host_task strstrip object i call)
  unfolding push_host_task host_uri_new remove_uri_new
  push_host_task-Makes (call_host_file uri) h = refl
  push_host_task-Makes (call_remove_file uri) h = refl
  push_host_task-Makes unknown_push_host h = h
