-- ===== src/Task/Tests.antt =====
-- Runs of the task functions at concrete tasks, and the theorems at concrete inputs.
use renderer_service_upnp.Prelude.{◌≡◌, refl, [], ◌∷◌}
use renderer_service_upnp.Error.{operation_failed, cancelled}
use renderer_service_upnp.Task.Kinds.{Invocation}
use renderer_service_upnp.Task.{return_error, cancel}
use renderer_service_upnp.Task.New.{play_new}
use renderer_service_upnp.Task.Replies.{cancels, fails, replies, owes, lifetime, replies-lifetime}

abbrev call : Invocation
call = record { serial = 7; sender = ":1.42" }

cancel_queued : (cancel (play_new (λ s. s) call "/dev/0")).1 ≡ return_error call cancelled ∷ []
unfolding cancel play_new
cancel_queued = refl

replies-lifetime_example :
    replies 7 (lifetime (play_new (λ s. s) call "/dev/0") (cancels ∷ fails operation_failed ∷ []))
    ≡ owes 7 (play_new (λ s. s) call "/dev/0")
replies-lifetime_example =
    replies-lifetime 7 (play_new (λ s. s) call "/dev/0") (cancels ∷ fails operation_failed ∷ [])
