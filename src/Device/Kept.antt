-- ===== src/Device/Kept.antt =====
-- What else happens to the contexts of a device: one goes, a subscription is lost, a timer fires.
use renderer_service_upnp.Prelude.{
  ℕ, zero, suc, ◌-◌, ltb, String, true, false, List, [], ◌∷◌, Option, none, some, ◌≡◌, refl, ◌≢◌,
  nat_eq, arith, if◌then◌else◌, get_elem?, some_inj, Bool-cases, inl, inr, Option-cases, sym, ◌∙◌,
  ap, subst,
}
use renderer_service_upnp.Device.Contexts.{
  Proxy, Service, cm, av, rc, DeviceContext, Effect, context_unsubscribe, subscription_lost,
  re_enable, is_subscribed, is_local_context, find_index, or_first, get_context, change,
  subscribe_to_service_changes, remove_context, device_unsubscribe, context_new, append_new_context,
  device_subscribe_context,
}
use renderer_service_upnp.Device.Positions.{
  Change, get_elem?-change, get_elem?-remove_context, find_index-remove_context,
  find_index-remove_none,
}
use renderer_service_upnp.Device.Preferred.{
  SubscribedAt, PreferredOnly, get_context-change, subscribe-IsSettled,
  device_subscribe_context-IsSettled, append_new_context-IsSettled, PreferredOnly-Unique,
}

-- Where a context stood before the one at `i` was removed.
abbrev place_before : ℕ → ℕ → ℕ
place_before i j = if ltb j i then j else suc j

subscribed_before :
    (i j : ℕ) (cs : List DeviceContext)
    → SubscribedAt j (remove_context i cs)
    → SubscribedAt (place_before i j) cs
subscribed_before i j cs (c, at, sub) = elim (Bool-cases (ltb j i)) [
  | inl e ↦ rw e (c, ground (arith, get_elem?-remove_context i j cs), sub)
  | inr e ↦ rw e (c, ground (arith, get_elem?-remove_context i j cs), sub)
]

first-remove_context :
    (i k : ℕ) (cs : List DeviceContext)
    → or_first none cs ≡ some k
    → k ≢ i
    → (k ≡ 0) × (or_first none (remove_context i cs) ≡ some 0)
unfolding or_first remove_context
first-remove_context i k [] h ne = cc
first-remove_context zero k (c ∷ cs) h ne = absurd (ne (sym (some_inj h)))
first-remove_context (suc i) k (c ∷ cs) h ne = (sym (some_inj h), refl)

-- The preferred context stays the preferred one while it is there.
get_context-remove_context :
    (i k : ℕ) (o : Option ℕ) (cs : List DeviceContext)
    → find_index is_local_context cs ≡ o
    → get_context cs ≡ some k
    → k ≢ i
    → get_context (remove_context i cs) ≡ some (if ltb k i then k else k - 1)
unfolding get_context
get_context-remove_context i k (some l) cs e h ne =
    ap (λ o. or_first o (remove_context i cs))
      (find_index-remove_context is_local_context i l cs e (unfold or_first in ground arith))
    ∙ unfold or_first in ground arith
get_context-remove_context i k none cs e h ne =
    let (z, f) = first-remove_context i k cs (ap (λ o. or_first o cs) (sym e) ∙ h) ne in
    ap (λ o. or_first o (remove_context i cs)) (find_index-remove_none is_local_context i cs e)
    ∙ (f ∙ ground arith)

pub remove_context-PreferredOnly :
    (i : ℕ) (cs : List DeviceContext) → PreferredOnly cs → PreferredOnly (remove_context i cs)
remove_context-PreferredOnly i cs v = record {
  preferred = λ j sub.
      get_context-remove_context i (place_before i j) (find_index is_local_context cs) cs refl
        (v.preferred (place_before i j) (subscribed_before i j cs sub)) (ground arith)
      ∙ ground arith;
}

-- A change that subscribes nothing.
change-PreferredOnly :
    (i : ℕ) (f : Change) (cs : List DeviceContext)
    → ((c : DeviceContext) → (f c).0.ip_address ≡ c.ip_address)
    → ((c : DeviceContext) → is_subscribed (f c).0 ≡ true → is_subscribed c ≡ true)
    → PreferredOnly cs
    → PreferredOnly (change i f cs)
change-PreferredOnly i f cs same less v = record {
  preferred = λ j (c, at, sub).
      get_context-change i f cs same ∙ elim (Option-cases (get_elem? cs j)) [
        | inl e ↦ absurd (ground (arith, get_elem?-change i j f cs))
        | inr (d, e) ↦
            v.preferred j (d, e, ground (arith, get_elem?-change i j f cs, less d, same d))
      ];
}

lost-less :
    (x : Service) (id : ℕ) (c : DeviceContext)
    → is_subscribed (subscription_lost x id c).0 ≡ true
    → is_subscribed c ≡ true
unfolding subscription_lost is_subscribed
lost-less cm id c h = ground arith
lost-less av id c h = ground arith
lost-less rc id c h = ground arith

lost-address :
    (x : Service) (id : ℕ) (c : DeviceContext)
    → (subscription_lost x id c).0.ip_address ≡ c.ip_address
unfolding subscription_lost
lost-address cm id c = ground arith
lost-address av id c = ground arith
lost-address rc id c = ground arith

abbrev pub re_enabled : Service → Change
re_enabled x c = (re_enable x c, [])

enable-less :
    (x : Service) (c : DeviceContext)
    → is_subscribed (re_enable x c) ≡ true
    → is_subscribed c ≡ true
unfolding re_enable is_subscribed
enable-less cm c h = h
enable-less av c h = h
enable-less rc c h = h

enable-address : (x : Service) (c : DeviceContext) → (re_enable x c).ip_address ≡ c.ip_address
unfolding re_enable
enable-address cm c = refl
enable-address av c = refl
enable-address rc c = refl

none_subscribed :
    (i : ℕ) (cs : List DeviceContext) → SubscribedAt i (device_unsubscribe cs) → false ≡ true
unfolding device_unsubscribe context_unsubscribe is_subscribed
none_subscribed i [] (c, at, sub) = cc
none_subscribed zero (d ∷ cs) (c, at, sub) = ground arith
none_subscribed (suc i) (d ∷ cs) (c, at, sub) = none_subscribed i cs (c, at, sub)

-- An event in the life of a device: it is seen on one more interface; prv_subscribe runs; it goes from
-- an interface; a subscription is lost, and enabled again; the timer of prv_server_unavailable_cb
-- fires; the program unsubscribes at its end.
pub data Event (cs : List DeviceContext) : List DeviceContext → Type 0 where
  appears :
      {out : List DeviceContext × List Effect} (ip : String) (proxy : Proxy)
      → append_new_context ip proxy cs ≡ some out
      → Event cs out.0
  subscribes :
      {out : List DeviceContext × List Effect}
      → device_subscribe_context cs ≡ some out
      → Event cs out.0
  goes : (i : ℕ) → Event cs (remove_context i cs)
  loses : (i : ℕ) (x : Service) (id : ℕ) → Event cs (change i (subscription_lost x id) cs)
  enables : (i : ℕ) (x : Service) → Event cs (change i (re_enabled x) cs)
  times_out :
      {out : List DeviceContext × List Effect}
      → subscribe_to_service_changes cs ≡ some out
      → Event cs out.0
  unsubscribes : Event cs (device_unsubscribe cs)

-- The contexts of a device over its life, which begins on one interface with no subscription.
pub data Life : List DeviceContext → Type 0 where
  begins : (ip : String) (proxy : Proxy) → Life (context_new ip proxy ∷ [])
  lives : {cs cs' : List DeviceContext} → Life cs → Event cs cs' → Life cs'

pub begins-PreferredOnly : (ip : String) (proxy : Proxy) → PreferredOnly (context_new ip proxy ∷ [])
unfolding context_new is_subscribed
begins-PreferredOnly ip proxy = record { preferred = λ i (c, at, sub). fresh i c at sub }
  where
    fresh :
        (i : ℕ) (c : DeviceContext)
        → get_elem? (context_new ip proxy ∷ []) i ≡ some c
        → is_subscribed c ≡ true
        → get_context (context_new ip proxy ∷ []) ≡ some i
    fresh zero c at sub = absurd (cc (ap is_subscribed (some_inj at)))
    fresh (suc i) c at sub = cc

subscribes-PreferredOnly :
    (cs : List DeviceContext) (out : List DeviceContext × List Effect) (o : Option ℕ)
    → get_context cs ≡ o
    → device_subscribe_context cs ≡ some out
    → PreferredOnly cs
    → PreferredOnly out.0
unfolding device_subscribe_context
subscribes-PreferredOnly cs out none e h v = absurd (ground arith)
subscribes-PreferredOnly cs out (some p) e h v =
    let (out', ran, w) = device_subscribe_context-IsSettled p cs e (PreferredOnly-Unique cs v) in
    subst (λ (o : List DeviceContext × List Effect). PreferredOnly o.0)
      (some_inj (sym (unfold device_subscribe_context in ran) ∙ h)) w.only

times_out-PreferredOnly :
    (cs : List DeviceContext) (out : List DeviceContext × List Effect) (o : Option ℕ)
    → get_context cs ≡ o
    → subscribe_to_service_changes cs ≡ some out
    → PreferredOnly cs
    → PreferredOnly out.0
unfolding subscribe_to_service_changes
times_out-PreferredOnly cs out none e h v = absurd (ground arith)
times_out-PreferredOnly cs out (some p) e h v =
    let (out', ran, w) =
      subscribe-IsSettled p cs e (λ i sub. some_inj (sym (v.preferred i sub) ∙ e)) in
    subst (λ (o : List DeviceContext × List Effect). PreferredOnly o.0) (some_inj (sym ran ∙ h))
      w.only

pub Event-PreferredOnly :
    {cs cs' : List DeviceContext} → Event cs cs' → PreferredOnly cs → PreferredOnly cs'
Event-PreferredOnly {cs} (appears ip proxy h) v =
    let (out, ran, w) = append_new_context-IsSettled ip proxy cs v in
    subst (λ (o : List DeviceContext × List Effect). PreferredOnly o.0) (some_inj (sym ran ∙ h))
      w.only
Event-PreferredOnly {cs} (subscribes {out} h) v =
    subscribes-PreferredOnly cs out (get_context cs) refl h v
Event-PreferredOnly {cs} (goes i) v = remove_context-PreferredOnly i cs v
Event-PreferredOnly {cs} (loses i x id) v =
    change-PreferredOnly i (subscription_lost x id) cs (lost-address x id) (lost-less x id) v
Event-PreferredOnly {cs} (enables i x) v =
    change-PreferredOnly i (re_enabled x) cs (enable-address x) (enable-less x) v
Event-PreferredOnly {cs} (times_out {out} h) v =
    times_out-PreferredOnly cs out (get_context cs) refl h v
Event-PreferredOnly {cs} unsubscribes v = record {
  preferred = λ i sub. absurd (cc (none_subscribed i cs sub));
}

-- Whatever happens to a device, whichever interfaces it is seen on and lost from, and however its
-- subscriptions are lost: no context is subscribed but the one that rsu_device_get_context gives.
pub Life-PreferredOnly : {cs : List DeviceContext} → Life cs → PreferredOnly cs
Life-PreferredOnly (begins ip proxy) = begins-PreferredOnly ip proxy
Life-PreferredOnly (lives l e) = Event-PreferredOnly e (Life-PreferredOnly l)
