-- ===== src/Upnp/Discovery.antt =====
-- src/upnp.c: renderers that appear on a network interface and go from it, and the end of the
-- construction of a device; with rsu_device_new of src/device.c. An operation is `none` where the
-- program follows a pointer that is not there. `timer` is the id that g_timeout_add_seconds gives.
use renderer_service_upnp.Prelude.{
  ℕ, suc, String, Bool, true, false, not, ◌&&◌, ◌||◌, List, [], ◌∷◌, ◌++◌, Option, none, some, ◌==◌,
  nat_eq, string_eq, if◌then◌else◌, get_elem?, ◌>>=◌,
}
use renderer_service_upnp.Dict.{lookup, insert, remove}
use renderer_service_upnp.Processor.State.{Key, Processor, get_protocol_info, subscribe, declare}
use renderer_service_upnp.Processor.Cancel.{cancel_queue, remove_queues_for_sink}
use renderer_service_upnp.Processor.Queues.{
  add_queue, set_finally, set_user_data, service_task_add, queue_start,
}
use renderer_service_upnp.Device.Contexts.{
  Proxy, DeviceContext, context_new, find_index, subscribe_to_service_changes, append_new_context,
  remove_context,
}

-- rsu_device_t, with the part of its state that the network decides
pub record Device : Type 0 where
  pub path : String
  pub contexts : List DeviceContext
  pub timeout_id : ℕ

-- prv_device_new_ct_t; `priv` stands for its address, which is the user data of its queue
pub record Building : Type 0 where
  pub priv : ℕ
  pub device : Device
  pub queue_id : Key

-- What the callbacks `found_server` and `lost_server` emit on D-Bus.
pub data Signal : Type 0 where
  found_server lost_server : String → Signal

-- rsu_upnp_t; with the task processor, the counter of rsu_service_task_create_source, and the signals
-- so far
pub record Upnp : Type 0 where
  pub server_udn_map : List (String × Device)
  pub server_uc_map : List (String × Building)
  pub counter : ℕ
  pub next_source : ℕ
  pub processor : Processor
  pub signals : List Signal

-- rsu_upnp_new
unfoldable pub upnp_new : Processor → Upnp
upnp_new s = record {
  server_udn_map = [];
  server_uc_map = [];
  counter = 0;
  next_source = 1;
  processor = s;
  signals = [];
}

-- printf of a device's path, and of the source of a service task's queue
pub record Printf : Type 0 where
  pub server_path : ℕ → String
  pub source_name : ℕ → String

-- The tasks that rsu_device_new gives to a new device's queue, and its start.
unfoldable pub device_tasks : Key → String → Processor → Option Processor
device_tasks k path s = do
  s1 ← service_task_add k get_protocol_info true false path s
  s2 ← service_task_add k subscribe false false path s1
  s3 ← service_task_add k declare false true path s2
  queue_start k s3

-- rsu_device_new, but for its tasks
unfoldable pub device_new : String → String → Proxy → Device
device_new path ip proxy = record {
  path = path;
  contexts = context_new ip proxy ∷ [];
  timeout_id = 0;
}

-- The queue that builds a device: it goes when it is done, and ends with prv_device_chain_end.
unfoldable pub building_queue : Key → ℕ → String → Processor → Option Processor
building_queue k priv path s = do
  s1 ← set_finally k (add_queue k false true s)
  s2 ← set_user_data k priv s1
  device_tasks k path s2

abbrev pub service_sink : String
service_sink = "renderer-service-upnp"

-- The context of a device on the interface of an address.
unfoldable pub context_at : String → List DeviceContext → Option ℕ
context_at ip cs = find_index (λ c. c.ip_address == ip) cs

-- A device that is there already gains a context, if it has none on this interface.
unfoldable pub add_context : Option ℕ → String → Proxy → Device → Option Device
add_context (some i) ip proxy d = some d
add_context none ip proxy d = elim (append_new_context ip proxy d.contexts) [
  | none ↦ none
  | some out ↦ some (record d { contexts = out.0 })
]

unfoldable pub put_device : String → Upnp → Device → Upnp
put_device udn u d = record u { server_udn_map = insert udn d u.server_udn_map }

unfoldable pub put_building : String → Building → Upnp → Device → Upnp
put_building udn b u d = record u {
  server_uc_map = insert udn (record b { device = d }) u.server_uc_map;
}

module _ (printf : Printf) where
  -- prv_server_available_cb of a UDN that is in neither table
  unfoldable pub build_device : String → String → Proxy → Upnp → Option Upnp
  build_device udn ip proxy u =
      let k : Key = record { source = printf.source_name u.next_source; sink = service_sink } in
      let d = device_new (printf.server_path u.counter) ip proxy in
      elim (building_queue k u.next_source d.path u.processor) [
        | none ↦ none
        | some s ↦ some (record u {
          server_uc_map =
              insert udn (record { priv = u.next_source; device = d; queue_id = k })
                u.server_uc_map;
          counter = suc u.counter;
          next_source = suc u.next_source;
          processor = s;
        })
      ]

  -- prv_server_available_cb, by what its two lookups find
  unfoldable pub appear :
      Option Device → Option Building → String → String → Proxy → Upnp → Option Upnp
  appear (some d) b udn ip proxy u = do
    d' ← add_context (context_at ip d.contexts) ip proxy d
    some (put_device udn u d')
  appear none (some b) udn ip proxy u = do
    d' ← add_context (context_at ip b.device.contexts) ip proxy b.device
    some (put_building udn b u d')
  appear none none udn ip proxy u = build_device udn ip proxy u

  -- prv_server_available_cb
  unfoldable pub server_available : Option String → String → Proxy → Upnp → Option Upnp
  server_available none ip proxy u = some u
  server_available (some udn) ip proxy u =
      appear (lookup udn u.server_udn_map) (lookup udn u.server_uc_map) udn ip proxy u

-- `subscribed` of prv_server_unavailable_cb, which leaves the rendering control out
unfoldable pub was_subscribed : Option DeviceContext → Bool
was_subscribed none = false
was_subscribed (some c) = c.subscribed_av || c.subscribed_cm

unfoldable pub is_empty : List DeviceContext → Bool
is_empty [] = true
is_empty (c ∷ cs) = false

-- The device without the context at a place, and with a timer if that was the subscribed one.
unfoldable pub lose_context : ℕ → ℕ → Device → Device
lose_context timer i d =
    let cs = remove_context i d.contexts in
    record d {
      contexts = cs;
      timeout_id =
          if not (is_empty cs) && (was_subscribed (get_elem? d.contexts i) && d.timeout_id == 0)
          then timer
          else d.timeout_id;
    }

-- `lost_server`, prv_lost_media_server of src/renderer-service-upnp.c
unfoldable pub emit_lost : String → Upnp → Upnp
emit_lost path u = record u {
  processor = remove_queues_for_sink path u.processor;
  signals = u.signals ++ lost_server path ∷ [];
}

-- A device that is not under construction: with its last context it goes.
unfoldable pub leave_device : String → Upnp → Device → Upnp
leave_device udn u d =
    if is_empty d.contexts
    then (let u' = emit_lost d.path u in
        record u' { server_udn_map = remove udn u'.server_udn_map })
    else put_device udn u d

-- A device under construction: with its last context its construction is cancelled.
unfoldable pub leave_building : String → Building → Upnp → Device → Option Upnp
leave_building udn b u d =
    let u' = put_building udn b u d in
    if is_empty d.contexts
    then elim (cancel_queue b.queue_id u'.processor) [
      | none ↦ none
      | some s ↦ some (record u' { processor = s })
    ]
    else some u'

-- prv_server_unavailable_cb, by what its two lookups find, and by the place of the context
unfoldable pub disappear :
    ℕ → Option Device → Option Building → String → String → Upnp → Option Upnp
disappear timer (some d) b udn ip u = elim (context_at ip d.contexts) [
  | none ↦ some u
  | some i ↦ some (leave_device udn u (lose_context timer i d))
]
disappear timer none (some b) udn ip u = elim (context_at ip b.device.contexts) [
  | none ↦ some u
  | some i ↦ leave_building udn b u (lose_context timer i b.device)
]
disappear timer none none udn ip u = some u

-- prv_server_unavailable_cb
unfoldable pub server_unavailable : ℕ → Option String → String → Upnp → Option Upnp
server_unavailable timer none ip u = some u
server_unavailable timer (some udn) ip u =
    disappear timer (lookup udn u.server_udn_map) (lookup udn u.server_uc_map) udn ip u

-- prv_subscribe_to_service_changes, of a device in the table
unfoldable pub resubscribe : String → Option Device → Upnp → Option Upnp
resubscribe udn none u = none
resubscribe udn (some d) u = elim (subscribe_to_service_changes d.contexts) [
  | none ↦ none
  | some out ↦ some (put_device udn u (record d { contexts = out.0; timeout_id = 0 }))
]

-- The device under construction whose queue has the user data `priv`.
unfoldable pub find_building : ℕ → List (String × Building) → Option (String × Building)
find_building priv [] = none
find_building priv ((udn, b) ∷ rest) =
    if b.priv == priv then some (udn, b) else find_building priv rest

-- prv_device_chain_end, on the device that its user data points to
unfoldable pub end_building : Bool → String → Building → Upnp → Upnp
end_building cancelled udn b u = record u {
  server_udn_map = if cancelled then u.server_udn_map else insert udn b.device u.server_udn_map;
  signals = if cancelled then u.signals else u.signals ++ found_server b.device.path ∷ [];
  server_uc_map = remove udn u.server_uc_map;
}

-- prv_device_chain_end
unfoldable pub device_chain_end : Bool → ℕ → Upnp → Option Upnp
device_chain_end cancelled priv u = elim (find_building priv u.server_uc_map) [
  | none ↦ none
  | some found ↦ some (end_building cancelled found.0 found.1 u)
]
