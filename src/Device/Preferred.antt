-- ===== src/Device/Preferred.antt =====
-- A device is subscribed through its preferred context, and through no other.
use renderer_service_upnp.Prelude.{
  ℕ, zero, suc, String, Bool, true, ◌||◌, List, [], ◌∷◌, ◌++◌, Option, none, some, ◌≡◌, refl, ◌≢◌,
  ◌==◌, nat_eq, arith, get_elem?, some_inj, Bool-cases, inl, inr, Option-cases, sym, ◌∙◌, ap,
}
use renderer_service_upnp.Device.Contexts.{
  Proxy, DeviceContext, Effect, context_new, context_unsubscribe, context_subscribe, is_local,
  is_subscribed, is_local_context, find_index, or_first, get_context, get_subscribed_context,
  change, calls_at, subscribe_to_service_changes, switch_subscription, device_subscribe_context,
  append_new_context,
}
use renderer_service_upnp.Device.Positions.{
  Change, get_elem?-change, get_elem?-append, find_index-some, find_index-none, find_index-change,
}

abbrev pub SubscribedAt : ℕ → List DeviceContext → Type 0
SubscribedAt i cs = (c : DeviceContext) × (get_elem? cs i ≡ some c) × (is_subscribed c ≡ true)

-- The subscribed contexts of a device: only the preferred one.
pub record PreferredOnly (cs : List DeviceContext) : Type 0 where
  pub preferred : (i : ℕ) → SubscribedAt i cs → get_context cs ≡ some i

abbrev pub has_service : DeviceContext → Bool
has_service c = c.service_proxies.has_cm || (c.service_proxies.has_av || c.service_proxies.has_rc)

-- Only the preferred context is subscribed, and it is, if it has a service to subscribe to.
pub record IsSettled (cs : List DeviceContext) : Type 0 where
  pub there : (p : ℕ) × (get_context cs ≡ some p)
  pub only : PreferredOnly cs
  pub covered :
      (p : ℕ) (c : DeviceContext)
      → get_context cs ≡ some p
      → get_elem? cs p ≡ some c
      → has_service c ≡ true
      → is_subscribed c ≡ true

-- No two contexts are subscribed.
abbrev pub Unique : List DeviceContext → Type 0
Unique cs = (i j : ℕ) → SubscribedAt i cs → SubscribedAt j cs → i ≡ j

pub PreferredOnly-Unique : (cs : List DeviceContext) → PreferredOnly cs → Unique cs
PreferredOnly-Unique cs v i j a b = some_inj (sym (v.preferred i a) ∙ v.preferred j b)

or_first-change :
    (o : Option ℕ) (i : ℕ) (f : Change) (cs : List DeviceContext)
    → or_first o (change i f cs) ≡ or_first o cs
unfolding or_first change
or_first-change (some k) i f cs = refl
or_first-change none i f [] = refl
or_first-change none zero f (c ∷ cs) = refl
or_first-change none (suc i) f (c ∷ cs) = refl

-- A change that keeps addresses keeps the preferred context.
pub get_context-change :
    (i : ℕ) (f : Change) (cs : List DeviceContext)
    → ((c : DeviceContext) → (f c).0.ip_address ≡ c.ip_address)
    → get_context (change i f cs) ≡ get_context cs
unfolding get_context is_local_context
get_context-change i f cs h =
    ap (λ o. or_first o (change i f cs))
      (find_index-change is_local_context i f cs (λ c. ap is_local (h c)))
    ∙ or_first-change (find_index is_local_context cs) i f cs

covered_at :
    (p q : ℕ) (c : DeviceContext) (cs : List DeviceContext)
    → p ≡ q
    → get_elem? (change p context_subscribe cs) q ≡ some c
    → has_service c ≡ true
    → is_subscribed c ≡ true
unfolding context_subscribe is_subscribed
covered_at p q c cs same at there = elim (Option-cases (get_elem? cs q)) [
  | inl e ↦ ground (arith, get_elem?-change p q context_subscribe cs)
  | inr (d, e) ↦ ground (arith, get_elem?-change p q context_subscribe cs)
]

-- Subscribing the preferred context, where no other is subscribed.
pub subscribe-IsSettled :
    (p : ℕ) (cs : List DeviceContext)
    → get_context cs ≡ some p
    → ((i : ℕ) → SubscribedAt i cs → i ≡ p)
    → (out : List DeviceContext × List Effect) × (subscribe_to_service_changes cs ≡ some out)
      × IsSettled out.0
unfolding subscribe_to_service_changes context_subscribe is_subscribed
subscribe-IsSettled p cs e only = (
  (change p context_subscribe cs, calls_at p context_subscribe cs),
  ground arith,
  record {
    there = (p, get_context-change p context_subscribe cs (λ c. refl) ∙ e);
    only = record {
      preferred = λ i (c, at, sub).
          get_context-change p context_subscribe cs (λ c. refl)
          ∙ e
          ∙ ap some (elim (Bool-cases (p == i)) [
            | inl same ↦ ground arith
            | inr other ↦
                sym (only i (c, ground (arith, get_elem?-change p i context_subscribe cs), sub))
          ]);
    };
    covered = λ q c e' at there.
        let same : p ≡ q =
          some_inj (sym e ∙ (sym (get_context-change p context_subscribe cs (λ c. refl)) ∙ e')) in
        covered_at p q c cs same at there;
  },
)

-- Nothing is subscribed at the place whose context has been unsubscribed.
unsubscribed_at :
    (s i : ℕ) (cs : List DeviceContext)
    → SubscribedAt i (change s context_unsubscribe cs)
    → (s ≢ i) × SubscribedAt i cs
unfolding context_unsubscribe is_subscribed
unsubscribed_at s i cs (c, at, sub) = elim (Option-cases (get_elem? cs i)) [
  | inl e ↦ absurd (ground (arith, get_elem?-change s i context_unsubscribe cs))
  | inr (d, e) ↦ elim (Bool-cases (s == i)) [
    | inl same ↦ absurd (ground (arith, get_elem?-change s i context_unsubscribe cs))
    | inr other ↦
        (ground arith, (c, ground (arith, get_elem?-change s i context_unsubscribe cs), sub))
  ]
]

switch-IsSettled :
    (o : Option ℕ) (p : ℕ) (cs : List DeviceContext)
    → get_subscribed_context cs ≡ o
    → get_context cs ≡ some p
    → Unique cs
    → (out : List DeviceContext × List Effect) × (switch_subscription o p cs ≡ some out)
      × IsSettled out.0
unfolding switch_subscription get_subscribed_context context_unsubscribe
switch-IsSettled none p cs free e u =
    subscribe-IsSettled p cs e
      (λ i (c, at, sub). absurd (ground (arith, find_index-none is_subscribed i c cs free at)))
switch-IsSettled (some s) p cs taken e u =
    let here = find_index-some is_subscribed s cs taken in
    elim (Bool-cases (s == p)) [
      | inl same ↦ (
        (cs, []),
        ground arith,
        record {
          there = (p, e);
          only = record { preferred = λ i sub. e ∙ ap some (ground (arith, u i s sub here)) };
          covered = λ q c e' at there. let same' : q ≡ s = ground arith in ground (arith, here);
        },
      )
      | inr other ↦
          let (out, ran, v) =
            subscribe-IsSettled p (change s context_unsubscribe cs)
              (get_context-change s context_unsubscribe cs (λ c. refl) ∙ e)
              (λ i sub.
                let (ne, sub') = unsubscribed_at s i cs sub in absurd (ne (u s i here sub'))) in
          ((out.0, calls_at s context_unsubscribe cs ++ out.1), ground arith, v)
    ]

-- prv_subscribe, and the end of rsu_device_append_new_context.
pub device_subscribe_context-IsSettled :
    (p : ℕ) (cs : List DeviceContext)
    → get_context cs ≡ some p
    → Unique cs
    → (out : List DeviceContext × List Effect) × (device_subscribe_context cs ≡ some out)
      × IsSettled out.0
unfolding device_subscribe_context
device_subscribe_context-IsSettled p cs e u =
    let (out, ran, v) = switch-IsSettled (get_subscribed_context cs) p cs refl e u in
    (out, ground arith, v)

get_context-append :
    (n : DeviceContext) (cs : List DeviceContext) → (p : ℕ) × (get_context (cs ++ n ∷ []) ≡ some p)
unfolding get_context or_first
get_context-append n cs = found (find_index is_local_context (cs ++ n ∷ [])) cs
  where
    found :
        (o : Option ℕ) (cs : List DeviceContext) → (p : ℕ) × (or_first o (cs ++ n ∷ []) ≡ some p)
    found (some i) cs = (i, refl)
    found none [] = (0, refl)
    found none (c ∷ cs) = (0, refl)

append-Unique :
    (ip : String) (proxy : Proxy) (cs : List DeviceContext)
    → Unique cs
    → Unique (cs ++ context_new ip proxy ∷ [])
unfolding context_new is_subscribed
append-Unique ip proxy cs u i j (c, at, sub) (d, at', sub') =
    u i j (c, get_elem?-append i cs _ c at (λ e. cc (ap is_subscribed e)), sub)
      (d, get_elem?-append j cs _ d at' (λ e. cc (ap is_subscribed e)), sub')

-- A device that is subscribed through its preferred context only: when it is seen on one more
-- interface, rsu_device_append_new_context reads no context that is not there, and then the device is
-- subscribed through the preferred one of its contexts, if that has a service at all, and through no
-- other.
pub append_new_context-IsSettled :
    (ip : String) (proxy : Proxy) (cs : List DeviceContext)
    → PreferredOnly cs
    → (out : List DeviceContext × List Effect) × (append_new_context ip proxy cs ≡ some out)
      × IsSettled out.0
unfolding append_new_context
append_new_context-IsSettled ip proxy cs v =
    let (p, e) = get_context-append (context_new ip proxy) cs in
    device_subscribe_context-IsSettled p (cs ++ context_new ip proxy ∷ []) e
      (append-Unique ip proxy cs (PreferredOnly-Unique cs v))
