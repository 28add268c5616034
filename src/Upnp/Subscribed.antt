-- ===== src/Upnp/Subscribed.antt =====
-- The tables of devices when the subscriptions of a device change (prv_subscribe and the signals of lost
-- subscriptions of src/device.c), and when its construction ends.
use renderer_service_upnp.Prelude.{
  ℕ, String, Bool, true, false, List, [], ◌∷◌, Option, none, some, nat_eq, string_eq, ◌≡◌, refl,
  sym, ◌∙◌, subst, arith, some_inj, Option-cases, Bool-cases, inl, inr, zero, suc, ◌==◌,
}
use renderer_service_upnp.Dict.{
  lookup, remove, lookup-AllValues, insert-AllValues, remove-AllValues,
}
use renderer_service_upnp.Device.Contexts.{
  DeviceContext, Service, Effect, subscription_lost, change, device_subscribe_context,
}
use renderer_service_upnp.Device.Preferred.{
  PreferredOnly, device_subscribe_context-IsSettled, PreferredOnly-Unique,
}
use renderer_service_upnp.Device.Kept
use renderer_service_upnp.Device.Kept.{re_enabled, Event-PreferredOnly}
use renderer_service_upnp.Upnp.Discovery.{
  Device, Building, Upnp, put_device, put_building, is_empty, resubscribe, find_building,
  end_building, device_chain_end,
}
use renderer_service_upnp.Upnp.Tables.{
  IsLive, IsBuilding, HasTables, get_context-nonempty, put_device-IsTables, insert-IsTables,
  find_building-lookup,
}
use renderer_service_upnp.Upnp.History.{device_chain_end-HasTables}
use renderer_service_upnp.Upnp.Marks.{IsMarked, HasMarks, get_context-not_empty}

-- What happens to the subscriptions of one device: prv_subscribe runs for it; a subscription is lost;
-- and it is enabled again.
pub data Subscription (cs : List DeviceContext) : List DeviceContext → Type 0 where
  subscribes :
      {out : List DeviceContext × List Effect}
      → device_subscribe_context cs ≡ some out
      → Subscription cs out.0
  loses : (i : ℕ) (x : Service) (id : ℕ) → Subscription cs (change i (subscription_lost x id) cs)
  enables : (i : ℕ) (x : Service) → Subscription cs (change i (re_enabled x) cs)

Subscription-PreferredOnly :
    {cs cs' : List DeviceContext} → Subscription cs cs' → PreferredOnly cs → PreferredOnly cs'
Subscription-PreferredOnly (subscribes h) v = Event-PreferredOnly (Kept.subscribes h) v
Subscription-PreferredOnly (loses i x id) v = Event-PreferredOnly (Kept.loses i x id) v
Subscription-PreferredOnly (enables i x) v = Event-PreferredOnly (Kept.enables i x) v

is_empty-change :
    (i : ℕ) (f : DeviceContext → DeviceContext × List Effect) (cs : List DeviceContext)
    → is_empty (change i f cs) ≡ is_empty cs
unfolding is_empty change
is_empty-change i f [] = refl
is_empty-change zero f (c ∷ cs) = refl
is_empty-change (suc i) f (c ∷ cs) = refl

-- No context is lost with a subscription.
Subscription-not_empty :
    {cs cs' : List DeviceContext}
    → Subscription cs cs'
    → PreferredOnly cs
    → is_empty cs ≡ false
    → is_empty cs' ≡ false
Subscription-not_empty {cs} (subscribes h) v e =
    let (p, at) = get_context-nonempty cs e in
    let (out, ran, w) = device_subscribe_context-IsSettled p cs at (PreferredOnly-Unique cs v) in
    subst (λ (o : List DeviceContext × List Effect). is_empty o.0 ≡ false) (some_inj (sym ran ∙ h))
      (get_context-not_empty out.0 w.there.0 w.there.1)
Subscription-not_empty {cs} (loses i x id) v e = is_empty-change i (subscription_lost x id) cs ∙ e
Subscription-not_empty {cs} (enables i x) v e = is_empty-change i (re_enabled x) cs ∙ e

-- A device with other contexts.
abbrev pub with_contexts : List DeviceContext → Device → Device
with_contexts cs d = record d { contexts = cs }

find_building-priv :
    (priv : ℕ) (found : String × Building) (m : List (String × Building))
    → find_building priv m ≡ some found
    → found.1.priv ≡ priv
unfolding find_building
find_building-priv priv found [] h = cc
find_building-priv priv found ((udn, b) ∷ m) h = elim (Bool-cases (b.priv == priv)) [
  | inl e ↦ ground arith
  | inr e ↦ find_building-priv priv found m (ground arith)
]

IsLive-not_empty : (d : Device) → IsLive d → is_empty d.contexts ≡ false
IsLive-not_empty d l = get_context-not_empty d.contexts l.there.0 l.there.1

-- A known device of which the subscriptions change.
pub known_changes-HasTables :
    (udn : String) (d : Device) (cs : List DeviceContext) (u : Upnp)
    → lookup udn u.server_udn_map ≡ some d
    → Subscription d.contexts cs
    → HasTables u
    → HasTables (put_device udn u (with_contexts cs d))
known_changes-HasTables udn d cs u found e v =
    let l = lookup-AllValues IsLive udn d u.server_udn_map v.live found in
    put_device-IsTables udn u d (with_contexts cs d) found
      (record {
        there = get_context-nonempty cs (Subscription-not_empty e l.only (IsLive-not_empty d l));
        only = Subscription-PreferredOnly e l.only;
      })
      v

-- A device under construction of which the subscriptions change.
pub built_changes-HasTables :
    (udn : String) (b : Building) (cs : List DeviceContext) (u : Upnp)
    → lookup udn u.server_uc_map ≡ some b
    → Subscription b.device.contexts cs
    → HasTables u
    → HasTables (put_building udn b u (with_contexts cs b.device))
unfolding put_building
built_changes-HasTables udn b cs u found e v =
    insert-IsTables udn (record b { device = with_contexts cs b.device }) u.server_udn_map
      u.server_uc_map (v.apart udn b found)
      (Subscription-PreferredOnly e
        (lookup-AllValues IsBuilding udn b u.server_uc_map v.building found))
      v

-- It still has a context, if it had one.
pub built_changes-HasMarks :
    (told : ℕ → Type 0) (udn : String) (b : Building) (cs : List DeviceContext) (u : Upnp)
    → lookup udn u.server_uc_map ≡ some b
    → Subscription b.device.contexts cs
    → HasTables u
    → HasMarks told u
    → HasMarks told (put_building udn b u (with_contexts cs b.device))
unfolding put_building
built_changes-HasMarks told udn b cs u found e v a =
    insert-AllValues (IsMarked told) udn (record b { device = with_contexts cs b.device })
      u.server_uc_map
      (λ z. elim (Bool-cases (is_empty b.device.contexts)) [
        | inl f ↦ lookup-AllValues (IsMarked told) udn b u.server_uc_map a found f
        | inr f ↦
            let only = lookup-AllValues IsBuilding udn b u.server_uc_map v.building found in
            absurd (cc (Subscription-not_empty e only f))
      ])
      a

pub resubscribe-HasMarks :
    (told : ℕ → Type 0) (udn : String) (o : Option Device) (u u' : Upnp)
    → resubscribe udn o u ≡ some u'
    → HasMarks told u
    → HasMarks told u'
unfolding resubscribe put_device
resubscribe-HasMarks told udn none u u' h a = cc
resubscribe-HasMarks told udn (some d) u u' h a =
    let same : u'.server_uc_map ≡ u.server_uc_map = ground arith in rw same a

-- The end of a construction: the device that enters the table has a context.
pub ends-HasTables :
    (told : ℕ → Type 0) (is_cancelled : Bool) (priv : ℕ) (u u' : Upnp)
    → (told priv → is_cancelled ≡ true)
    → device_chain_end is_cancelled priv u ≡ some u'
    → HasTables u
    → HasMarks told u
    → HasTables u' × HasMarks told u'
unfolding device_chain_end end_building
ends-HasTables told is_cancelled priv u u' tells h v a =
    elim (Option-cases (find_building priv u.server_uc_map)) [
      | inl f ↦ absurd (ground arith)
      | inr ((udn, b), f) ↦
          let found = find_building-lookup priv udn b u.server_uc_map v.built_once f in
          let same : u'.server_uc_map ≡ remove udn u.server_uc_map = ground arith in
          let kept : is_cancelled ≡ false → is_empty b.device.contexts ≡ false = λ no.
            elim (Bool-cases (is_empty b.device.contexts)) [
              | inl z ↦
                  let t = lookup-AllValues (IsMarked told) udn b u.server_uc_map a found z in
                  absurd
                    (cc (tells (subst told (find_building-priv priv (udn, b) u.server_uc_map f) t)))
              | inr z ↦ z
            ] in
          (
            device_chain_end-HasTables is_cancelled priv udn b u u' f kept
                (unfold device_chain_end end_building in h) v,
            rw same (remove-AllValues (IsMarked told) udn u.server_uc_map a),
          )
    ]
