-- ===== src/Upnp/Tests.antt =====
-- Renderers that appear and go, and the theorems on the tables of devices.
use renderer_service_upnp.Prelude.{◌≡◌, some, refl, false, inl, inr, arith}
use renderer_service_upnp.Processor.State.{processor_new}
use renderer_service_upnp.Dict.{lookup, insert}
use renderer_service_upnp.Device.ContextTests.{proxy}
use renderer_service_upnp.Upnp.Discovery.{
  Printf, Upnp, upnp_new, server_available, device_chain_end, appear, build_device, building_queue,
  device_tasks, device_new, find_building,
}
use renderer_service_upnp.Processor.Cancel.{cancel_queue}
use renderer_service_upnp.Upnp.Marks.{ToldBy}
use renderer_service_upnp.Upnp.Tables.{HasTables}
use renderer_service_upnp.Upnp.History.{server_available-HasTables}
use renderer_service_upnp.Upnp.Events.{starts, followed, appears, ends, History-HasTables}

abbrev printf : Printf
printf = record { server_path = λ n. "/dev/0"; source_name = λ n. "source" }

abbrev empty : Upnp
empty = upnp_new processor_new

server_available-HasTables_example :
    (u' : Upnp) × (server_available printf (some "uuid:1") "10.0.0.1" proxy empty ≡ some u')
    × HasTables u'
server_available-HasTables_example =
    server_available-HasTables printf (some "uuid:1") "10.0.0.1" proxy empty
      (History-HasTables printf (starts processor_new))

first_seen :
    (u' : Upnp) × (server_available printf (some "uuid:1") "10.0.0.1" proxy empty ≡ some u')
unfolding server_available appear build_device building_queue device_tasks device_new upnp_new
    lookup insert renderer_service_upnp.Device.Contexts.context_new processor_new
    renderer_service_upnp.Processor.Queues.add_queue
    renderer_service_upnp.Processor.Queues.queue_new
    renderer_service_upnp.Processor.Queues.set_finally
    renderer_service_upnp.Processor.Queues.set_user_data
    renderer_service_upnp.Processor.Queues.service_task_add
    renderer_service_upnp.Processor.Queues.add_task renderer_service_upnp.Processor.Queues.enqueue
    renderer_service_upnp.Processor.Queues.is_quiet
    renderer_service_upnp.Processor.Queues.queue_start renderer_service_upnp.Processor.Callbacks.arm
    renderer_service_upnp.Processor.State.put renderer_service_upnp.Processor.State.idle_add
    renderer_service_upnp.Processor.State.key_equal
first_seen = (_, refl)

-- The construction of the device ends, and was not cancelled.
known : (u' : Upnp) × (device_chain_end false 1 first_seen.0 ≡ some u')
unfolding first_seen device_chain_end find_building server_available appear build_device
    building_queue device_tasks device_new upnp_new lookup insert
    renderer_service_upnp.Device.Contexts.context_new processor_new
    renderer_service_upnp.Processor.Queues.add_queue
    renderer_service_upnp.Processor.Queues.queue_new
    renderer_service_upnp.Processor.Queues.set_finally
    renderer_service_upnp.Processor.Queues.set_user_data
    renderer_service_upnp.Processor.Queues.service_task_add
    renderer_service_upnp.Processor.Queues.add_task renderer_service_upnp.Processor.Queues.enqueue
    renderer_service_upnp.Processor.Queues.is_quiet
    renderer_service_upnp.Processor.Queues.queue_start renderer_service_upnp.Processor.Callbacks.arm
    renderer_service_upnp.Processor.State.put renderer_service_upnp.Processor.State.idle_add
    renderer_service_upnp.Processor.State.key_equal
known = (_, refl)

not_cancelled : ToldBy (λ priv. ⊥) empty first_seen.0 1 → ⊥
unfolding upnp_new processor_new cancel_queue lookup
not_cancelled (inl x) = x
not_cancelled (inr (udn, b, at, same, c)) = absurd (ground arith)

History-HasTables_example : HasTables known.0
History-HasTables_example = History-HasTables printf (
    followed
      (followed (starts processor_new) (appears (some "uuid:1") "10.0.0.1" proxy first_seen.1))
      (ends false 1 (λ t. absurd (not_cancelled t)) known.1))
