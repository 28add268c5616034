-- ===== src/Renderer/Tests.antt =====
-- A service with one device and one client, and the theorems at concrete calls.
use renderer_service_upnp.Prelude.{
  ◌≡◌, refl, String, Bool, true, false, not, ◌&&◌, [], ◌∷◌, none, string_eq, ◌↔◌, ◌⊎◌, ◌==◌,
}
use renderer_service_upnp.Error.{object_not_found}
use renderer_service_upnp.Dict.{lookup, remove}
use renderer_service_upnp.Task.{Task, return_error}
use renderer_service_upnp.Task.Kinds.{Invocation, play}
use renderer_service_upnp.Task.New.{play_new}
use renderer_service_upnp.Processor.State.{processor_new}
use renderer_service_upnp.Processor.Run.{async_outcome}
use renderer_service_upnp.Processor.Invariant.{IsSound}
use renderer_service_upnp.Processor.Reach.{new, Reach-IsSound}
use renderer_service_upnp.Host.Invariant.{IsService}
use renderer_service_upnp.Host.View.{hosts}
use renderer_service_upnp.Host.Service.{service_new}
use renderer_service_upnp.Upnp.{DeviceOps, dispatch, dispatch-ObjectNotFound}
use renderer_service_upnp.Renderer.Context.{Context, context_new, found_media_server, remove_client}
use renderer_service_upnp.Renderer.Calls.{player, call_play, method_call}
use renderer_service_upnp.Renderer.Answered.{Pays, method_call-Pays}
use renderer_service_upnp.Renderer.Clients.{remove_client-forgets, remove_client-quits}

abbrev one_device : Context
one_device = found_media_server "uuid:1" "/dev/0" (context_new false)

abbrev one_client : Context
one_client = record one_device { watchers = (":1.42", 1) ∷ []; next_watch = 2 }

abbrev plays : Invocation
plays = record { serial = 7; sender = ":1.42" }

new-IsSound : IsSound processor_new
new-IsSound = Reach-IsSound [] (λ t. (t, false)) (λ t. (none, false)) new

method_call-Pays_example :
    Pays 7 1 one_device (method_call "0.2" (λ s. s) plays (player "/dev/0" call_play) one_device)
unfolding context_new found_media_server
method_call-Pays_example =
    method_call-Pays 7 "0.2" (λ s. s) plays (player "/dev/0" call_play) one_device new-IsSound refl

remove_client-forgets_example :
    IsService (remove_client ":1.42" one_client).host_service
    × (lookup ":1.42" (remove_client ":1.42" one_client).watchers ≡ none)
    × (hosts (remove_client ":1.42" one_client).host_service "10.0.0.1" ":1.42" "/a.mp3"
        ≡ (not true && hosts one_client.host_service "10.0.0.1" ":1.42" "/a.mp3"))
unfolding context_new found_media_server service_new lookup
remove_client-forgets_example =
    remove_client-forgets ":1.42" one_client (refl, tt) ":1.42" "10.0.0.1" ":1.42" "/a.mp3"
      (record { distinct = tt; servers = tt })

remove_client-quits_example : ((remove_client ":1.42" one_client).processor.quitting ≡ true) ↔ (
    (one_client.processor.quitting ≡ true)
    ⊎ ((one_client.never_quit ≡ false)
        × ((other : String)
            → (":1.42" == other) ≡ false
            → lookup other one_client.watchers ≡ none)))
unfolding context_new found_media_server lookup
remove_client-quits_example = remove_client-quits ":1.42" one_client (refl, tt) new-IsSound

abbrev nothing : String → Task → Task × Bool
nothing path t = (t, false)

abbrev idle_ops : DeviceOps
idle_ops = record {
  device_set_prop = nothing;
  device_get_prop = nothing;
  device_get_all_props = nothing;
  device_play = nothing;
  device_pause = nothing;
  device_play_pause = nothing;
  device_stop = nothing;
  device_next = nothing;
  device_previous = nothing;
  device_open_uri = nothing;
  device_seek = nothing;
  device_set_position = nothing;
  device_goto_track = nothing;
  device_host_uri = nothing;
  device_remove_uri = nothing;
}

abbrev lost_play : Task
lost_play = play_new (λ s. s) plays "/dev/9"

dispatch-ObjectNotFound_example :
    ((dispatch idle_ops one_device.devices play lost_play).1 ≡ true)
    × ((async_outcome (dispatch idle_ops one_device.devices play lost_play).0).1
        ≡ return_error plays object_not_found ∷ [])
unfolding context_new found_media_server play_new renderer_service_upnp.Upnp.device_of
    renderer_service_upnp.Upnp.device_from_path renderer_service_upnp.Dict.insert
dispatch-ObjectNotFound_example =
    dispatch-ObjectNotFound idle_ops one_device.devices play lost_play plays refl refl refl
