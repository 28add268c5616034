-- ===== src/Renderer/Context.antt =====
-- src/renderer-service-upnp.c: the state of the service, its clients, and the devices that come and
-- go.
use renderer_service_upnp.Prelude.{
  ℕ, suc, String, Bool, true, false, not, ◌&&◌, List, [], ◌∷◌, ◌++◌, Option, none, some, string_eq,
  if◌then◌else◌,
}
use renderer_service_upnp.Dict.{lookup, insert, remove}
use renderer_service_upnp.Task.{Task}
use renderer_service_upnp.Task.Kinds.{Invocation}
use renderer_service_upnp.Processor.State.{Key, client, Processor, processor_new}
use renderer_service_upnp.Processor.Cancel.{
  set_quitting, remove_queues_for_source, remove_queues_for_sink,
}
use renderer_service_upnp.Processor.Queues.{add_queue, lookup_queue, add_task}
use renderer_service_upnp.Host.Service.{HostService, service_new, lost_client}
use renderer_service_upnp.Upnp.{Devices}

-- The signals of the manager's interface.
pub data Signal : Type 0 where
  found_server lost_server : String → Signal

-- rsu_context_t: the clients that are watched, with the ids of g_bus_watch_name; with the devices
-- and the hosted files of its rsu_upnp_t, the never-quit setting, and the signals so far
pub record Context : Type 0 where
  pub processor : Processor
  pub watchers : List (String × ℕ)
  pub next_watch : ℕ
  pub devices : Devices
  pub host_service : HostService
  pub never_quit : Bool
  pub signals : List Signal

-- prv_rsu_context_init, with the rsu_upnp_t that prv_bus_acquired makes
unfoldable pub context_new : Bool → Context
context_new never_quit = record {
  processor = processor_new;
  watchers = [];
  next_watch = 1;
  devices = [];
  host_service = service_new;
  never_quit = never_quit;
  signals = [];
}

-- g_hash_table_size () == 0
unfoldable pub no_watchers : List (String × ℕ) → Bool
no_watchers [] = true
no_watchers (w ∷ ws) = false

-- prv_remove_client
unfoldable pub remove_client : String → Context → Context
remove_client name c =
    let s = remove_queues_for_source name c.processor in
    let watchers = remove name c.watchers in
    record c {
      processor = if no_watchers watchers && not c.never_quit then set_quitting s else s;
      watchers = watchers;
      host_service = lost_client c.host_service name;
    }

-- The watchers with the client among them, and the next id of g_bus_watch_name.
unfoldable pub watch : String → ℕ → Option ℕ → List (String × ℕ) → List (String × ℕ) × ℕ
watch name next (some id) ws = (ws, next)
watch name next none ws = (insert name next ws, suc next)

-- The queue of a client and a sink, made if it is not there.
unfoldable pub queue_for : Key → Option Key → Processor → Processor
queue_for k none s = add_queue k true false s
queue_for k (some j) s = s

-- prv_add_task for a task of the call `i`; `none` is a queue that is not there
unfoldable pub add_client_task : Invocation → Task → String → Context → Option Context
add_client_task i t sink c =
    let (ws, next) = watch i.sender c.next_watch (lookup i.sender c.watchers) c.watchers in
    let k : Key = record { source = i.sender; sink = sink } in
    let s = queue_for k (lookup_queue c.processor i.sender sink) c.processor in
    elim (add_task k (client t) s) [
      | none ↦ none
      | some s' ↦ some (record c { processor = s'; watchers = ws; next_watch = next })
    ]

-- prv_found_media_server, of a device that prv_device_chain_end has just put into the map
unfoldable pub found_media_server : String → String → Context → Context
found_media_server udn path c = record c {
  devices = insert udn path c.devices;
  signals = c.signals ++ found_server path ∷ [];
}

-- prv_lost_media_server, and the removal from the map that follows it
unfoldable pub lost_media_server : String → String → Context → Context
lost_media_server udn path c = record c {
  processor = remove_queues_for_sink path c.processor;
  devices = remove udn c.devices;
  signals = c.signals ++ lost_server path ∷ [];
}
