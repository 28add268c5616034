-- ===== src/Device/Contexts.antt =====
-- src/device.c: the contexts of a device, and the subscription to its services through one of them.
-- A function returns the calls that it makes of GUPnP and of the main loop.
use renderer_service_upnp.Prelude.{
  ℕ, zero, suc, String, Bool, true, false, ◌||◌, List, [], ◌∷◌, ◌++◌, Option, none, some, ◌==◌,
  nat_eq, string_eq, if◌then◌else◌, starts_with,
}

pub data Service : Type 0 where
  cm av rc : Service

-- gupnp_service_proxy_set_subscribed, _add_notify and _remove_notify; g_signal_connect of a service's
-- "subscription-lost" to the handler of a service; g_source_remove
pub data Effect : Type 0 where
  set_subscribed : Service → Bool → Effect
  add_notify remove_notify : Service → Effect
  connect_lost : Service → Service → Effect
  source_gone : ℕ → Effect

-- A GUPnPDeviceProxy, with which services it has.
pub record Proxy : Type 0 where
  pub has_cm : Bool
  pub has_av : Bool
  pub has_rc : Bool

-- rsu_device_context_t; a timeout id of 0 is no timeout
pub record DeviceContext : Type 0 where
  pub ip_address : String
  pub service_proxies : Proxy
  pub subscribed_av : Bool
  pub subscribed_cm : Bool
  pub subscribed_rc : Bool
  pub timeout_id_av : ℕ
  pub timeout_id_cm : ℕ
  pub timeout_id_rc : ℕ

-- prv_context_new
unfoldable pub context_new : String → Proxy → DeviceContext
context_new ip proxy = record {
  ip_address = ip;
  service_proxies = proxy;
  subscribed_av = false;
  subscribed_cm = false;
  subscribed_rc = false;
  timeout_id_av = 0;
  timeout_id_cm = 0;
  timeout_id_rc = 0;
}

drop_timeout : ℕ → List Effect
drop_timeout id = if id == 0 then [] else source_gone id ∷ []

drop_subscription : Service → Bool → List Effect
drop_subscription x subscribed =
    if subscribed then remove_notify x ∷ set_subscribed x false ∷ [] else []

-- prv_rsu_context_unsubscribe
unfoldable pub context_unsubscribe : DeviceContext → DeviceContext × List Effect
unfolding drop_timeout drop_subscription
context_unsubscribe c = (
  record c {
    subscribed_av = false;
    subscribed_cm = false;
    subscribed_rc = false;
    timeout_id_av = 0;
    timeout_id_cm = 0;
    timeout_id_rc = 0;
  },
  drop_timeout c.timeout_id_cm
      ++ (drop_timeout c.timeout_id_av
          ++ (drop_timeout c.timeout_id_rc
              ++ (drop_subscription cm c.subscribed_cm
                  ++ (drop_subscription av c.subscribed_av
                      ++ drop_subscription rc c.subscribed_rc)))),
)

-- `handler` is the service whose handler is connected to this one's "subscription-lost".
take_subscription : Service → Service → Bool → List Effect
take_subscription x proxy there =
    if there then set_subscribed x true ∷ add_notify x ∷ connect_lost proxy x ∷ [] else []

-- rsu_device_subscribe_to_service_changes, on the context that it picks. The handler of the rendering
-- control is connected to the AV transport.
unfoldable pub context_subscribe : DeviceContext → DeviceContext × List Effect
unfolding take_subscription
context_subscribe c =
    let p = c.service_proxies in
    (
      record c {
        subscribed_cm = p.has_cm || c.subscribed_cm;
        subscribed_av = p.has_av || c.subscribed_av;
        subscribed_rc = p.has_rc || c.subscribed_rc;
      },
      take_subscription cm cm p.has_cm
          ++ (take_subscription av av p.has_av ++ take_subscription rc av p.has_rc),
    )

-- prv_cm_subscription_lost_cb, with the id that g_timeout_add_seconds gives
unfoldable pub cm_subscription_lost : ℕ → DeviceContext → DeviceContext × List Effect
cm_subscription_lost id c =
    if c.timeout_id_cm == 0
    then (record c { timeout_id_cm = id }, set_subscribed cm true ∷ [])
    else (
      record c { timeout_id_cm = 0; subscribed_cm = false },
      source_gone c.timeout_id_cm ∷ remove_notify cm ∷ [],
    )

-- prv_av_subscription_lost_cb
unfoldable pub av_subscription_lost : ℕ → DeviceContext → DeviceContext × List Effect
av_subscription_lost id c =
    if c.timeout_id_av == 0
    then (record c { timeout_id_av = id }, set_subscribed av true ∷ [])
    else (
      record c { timeout_id_av = 0; subscribed_av = false },
      source_gone c.timeout_id_av ∷ remove_notify av ∷ [],
    )

-- prv_rc_subscription_lost_cb
unfoldable pub rc_subscription_lost : ℕ → DeviceContext → DeviceContext × List Effect
rc_subscription_lost id c =
    if c.timeout_id_rc == 0
    then (record c { timeout_id_rc = id }, set_subscribed rc true ∷ [])
    else (
      record c { timeout_id_rc = 0; subscribed_rc = false },
      source_gone c.timeout_id_rc ∷ remove_notify rc ∷ [],
    )

-- prv_re_enable_cm_subscription, prv_re_enable_av_subscription, prv_re_enable_rc_subscription
unfoldable pub re_enable : Service → DeviceContext → DeviceContext
re_enable cm c = record c { timeout_id_cm = 0 }
re_enable av c = record c { timeout_id_av = 0 }
re_enable rc c = record c { timeout_id_rc = 0 }

-- The three handlers of a lost subscription.
unfoldable pub subscription_lost : Service → ℕ → DeviceContext → DeviceContext × List Effect
unfolding cm_subscription_lost av_subscription_lost rc_subscription_lost
subscription_lost cm id c = cm_subscription_lost id c
subscription_lost av id c = av_subscription_lost id c
subscription_lost rc id c = rc_subscription_lost id c

unfoldable pub is_subscribed : DeviceContext → Bool
is_subscribed c = c.subscribed_av || (c.subscribed_cm || c.subscribed_rc)

unfoldable pub is_local : String → Bool
is_local ip = starts_with "127.0.0." ip || (ip == "::1" || ip == "0:0:0:0:0:0:0:1")

-- The place of the first context that passes a test.
unfoldable pub find_index : (DeviceContext → Bool) → List DeviceContext → Option ℕ
find_index p [] = none
find_index p (c ∷ cs) =
    if p c then some 0 else elim (find_index p cs) [ none ↦ none | some i ↦ some (suc i) ]

-- prv_device_get_subscribed_context
unfoldable pub get_subscribed_context : List DeviceContext → Option ℕ
get_subscribed_context cs = find_index is_subscribed cs

unfoldable pub is_local_context : DeviceContext → Bool
is_local_context c = is_local c.ip_address

-- g_ptr_array_index(device->contexts, 0) where no context was found; `none` is a read past the end
unfoldable pub or_first : Option ℕ → List DeviceContext → Option ℕ
or_first (some i) cs = some i
or_first none [] = none
or_first none (c ∷ cs) = some 0

-- rsu_device_get_context
unfoldable pub get_context : List DeviceContext → Option ℕ
get_context cs = or_first (find_index is_local_context cs) cs

-- A change to the context at a place, and the calls that it makes.
unfoldable pub change :
    ℕ → (DeviceContext → DeviceContext × List Effect) → List DeviceContext → List DeviceContext
change i f [] = []
change zero f (c ∷ cs) = (f c).0 ∷ cs
change (suc i) f (c ∷ cs) = c ∷ change i f cs

unfoldable pub calls_at :
    ℕ → (DeviceContext → DeviceContext × List Effect) → List DeviceContext → List Effect
calls_at i f [] = []
calls_at zero f (c ∷ cs) = (f c).1
calls_at (suc i) f (c ∷ cs) = calls_at i f cs

-- rsu_device_subscribe_to_service_changes
unfoldable pub subscribe_to_service_changes :
    List DeviceContext → Option (List DeviceContext × List Effect)
subscribe_to_service_changes cs = elim (get_context cs) [
  | none ↦ none
  | some i ↦ some (change i context_subscribe cs, calls_at i context_subscribe cs)
]

-- prv_device_subscribe_context, by the subscribed and the preferred context
unfoldable pub switch_subscription :
    Option ℕ → ℕ → List DeviceContext → Option (List DeviceContext × List Effect)
switch_subscription none p cs = subscribe_to_service_changes cs
switch_subscription (some s) p cs =
    if s == p
    then some (cs, [])
    else elim (subscribe_to_service_changes (change s context_unsubscribe cs)) [
      | none ↦ none
      | some (cs', out) ↦ some (cs', calls_at s context_unsubscribe cs ++ out)
    ]

-- prv_device_subscribe_context
unfoldable pub device_subscribe_context :
    List DeviceContext → Option (List DeviceContext × List Effect)
device_subscribe_context cs = elim (get_context cs) [
  | none ↦ none
  | some p ↦ switch_subscription (get_subscribed_context cs) p cs
]

-- rsu_device_append_new_context
unfoldable pub append_new_context :
    String → Proxy → List DeviceContext → Option (List DeviceContext × List Effect)
append_new_context ip proxy cs = device_subscribe_context (cs ++ context_new ip proxy ∷ [])

-- g_ptr_array_remove_index, whose free function prv_rsu_context_delete unsubscribes
unfoldable pub remove_context : ℕ → List DeviceContext → List DeviceContext
remove_context i [] = []
remove_context zero (c ∷ cs) = cs
remove_context (suc i) (c ∷ cs) = c ∷ remove_context i cs

-- rsu_device_unsubscribe
unfoldable pub device_unsubscribe : List DeviceContext → List DeviceContext
device_unsubscribe [] = []
device_unsubscribe (c ∷ cs) = (context_unsubscribe c).0 ∷ device_unsubscribe cs
