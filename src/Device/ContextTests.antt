-- ===== src/Device/ContextTests.antt =====
-- A device on two interfaces, and the theorems on its contexts.
use renderer_service_upnp.Prelude.{◌≡◌, List, [], ◌∷◌, some, true}
use renderer_service_upnp.Device.Contexts.{
  Proxy, DeviceContext, Effect, av, context_new, subscription_lost, change, append_new_context,
}
use renderer_service_upnp.Device.Preferred.{PreferredOnly, IsSettled, append_new_context-IsSettled}
use renderer_service_upnp.Device.Kept.{
  begins, lives, appears, loses, begins-PreferredOnly, Life-PreferredOnly,
}

abbrev pub proxy : Proxy
proxy = record { has_cm = true; has_av = true; has_rc = true }

abbrev wired : List DeviceContext
wired = context_new "10.0.0.1" proxy ∷ []

append_new_context-IsSettled_example :
    (out : List DeviceContext × List Effect) × (append_new_context "127.0.0.1" proxy wired
      ≡ some out)
    × IsSettled out.0
append_new_context-IsSettled_example =
    append_new_context-IsSettled "127.0.0.1" proxy wired (begins-PreferredOnly "10.0.0.1" proxy)

abbrev both :
    (out : List DeviceContext × List Effect) × (append_new_context "127.0.0.1" proxy wired
      ≡ some out)
    × PreferredOnly out.0
both =
    let (out, ran, v) =
      append_new_context-IsSettled "127.0.0.1" proxy wired
        (begins-PreferredOnly "10.0.0.1" proxy) in
    (out, ran, v.only)

Life-PreferredOnly_example : PreferredOnly (change 1 (subscription_lost av 5) both.0.0)
Life-PreferredOnly_example =
    Life-PreferredOnly
      (lives (lives (begins "10.0.0.1" proxy) (appears "127.0.0.1" proxy both.1)) (loses 1 av 5))
