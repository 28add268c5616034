-- ===== src/Device/Tests.antt =====
-- The theorem on hosting for a device at a concrete file.
use renderer_service_upnp.Prelude.{◌≡◌, refl, none, some, false, string_eq}
use renderer_service_upnp.Error.{object_not_found}
use renderer_service_upnp.Task.{Task}
use renderer_service_upnp.Task.Kinds.{Invocation}
use renderer_service_upnp.Task.New.{host_uri_new, remove_uri_new}
use renderer_service_upnp.Host.Service.{HostService, service_new}
use renderer_service_upnp.Host.View.{hosts}
use renderer_service_upnp.Host.Tests.{music, new-IsService}
use renderer_service_upnp.Device.Hosting.{device_host, device_remove, device_remove-device_host}

abbrev first : Invocation
first = record { serial = 7; sender = ":1.42" }

abbrev second : Invocation
second = record { serial = 8; sender = ":1.42" }

abbrev hosted : HostService × Task
hosted = device_host music service_new "10.0.0.1" (host_uri_new (λ s. s) first "/dev/0" "/a.mp3")

abbrev remove_call : Task
remove_call = remove_uri_new (λ s. s) second "/dev/0" "/a.mp3"

abbrev removed : HostService × Task
removed = device_remove hosted.0 "10.0.0.1" remove_call

hosting_succeeds : hosted.1.error ≡ none
unfolding device_host renderer_service_upnp.Device.Hosting.host_payload host_uri_new
    renderer_service_upnp.Device.Hosting.host_result renderer_service_upnp.Host.Service.service_add
    renderer_service_upnp.Host.Service.add_on renderer_service_upnp.Host.Service.server_for
    renderer_service_upnp.Dict.lookup service_new renderer_service_upnp.Host.Service.host_server_new
    renderer_service_upnp.Host.Service.store renderer_service_upnp.Host.Service.add_new_file
    renderer_service_upnp.Host.Service.add_found renderer_service_upnp.Host.Service.add_fresh
    renderer_service_upnp.Host.File.host_file_new
hosting_succeeds = refl

device_remove-device_host_example :
    (removed.1.error ≡ none)
    × (hosts removed.0 "10.0.0.1" ":1.42" "/a.mp3" ≡ false)
    × ((device_remove removed.0 "10.0.0.1" remove_call).1.error ≡ some object_not_found)
device_remove-device_host_example =
    device_remove-device_host music service_new "10.0.0.1" (λ s. s) "/dev/0" "/a.mp3" first second
      new-IsService refl hosting_succeeds
