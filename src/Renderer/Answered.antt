-- ===== src/Renderer/Answered.antt =====
-- Every D-Bus call is answered at once, or by the task that it leaves in a queue.
use renderer_service_upnp.Prelude.{
  ℕ, ◌≡◌, refl, String, Option, none, some, inl, inr, true, arith, ◌==◌, nat_eq, string_eq,
  if◌then◌else◌, Bool-cases, not, ◌&&◌, subst,
}
use renderer_service_upnp.Dict.{lookup, remove}
use renderer_service_upnp.Task.{Task, return_value}
use renderer_service_upnp.Task.Kinds.{Invocation}
use renderer_service_upnp.Task.New.{get_version_new, get_servers_new}
use renderer_service_upnp.Task.Replies.{owes, owed_to}
use renderer_service_upnp.Processor.State.{Key, key_eq, task_effect}
use renderer_service_upnp.Processor.Queues.{lookup_queue}
use renderer_service_upnp.Processor.Invariant.{IsSound}
use renderer_service_upnp.Renderer.Context.{
  Context, no_watchers, remove_client, watch, add_client_task,
}
use renderer_service_upnp.Renderer.Calls.{
  call_release, call_get_version, call_get_servers, unknown_manager, call_cancel, unknown_device,
  rsu_sink, answer, add_made, rsu_method_call, on_device_id, props_method_call, device_method_call,
  player_method_call, push_host_method_call, on_renderer_device, renderer_device_method_call, Call,
  ManagerCall, manager, props, root, player, push_host, renderer_device, method_call,
}
use renderer_service_upnp.Renderer.Made.{
  known, Makes, props_task-Makes, root_task-Makes, player_task-Makes, push_host_task-Makes,
}
use renderer_service_upnp.Renderer.Paid.{
  IsPaid, queue_for-IsPaid, cancel_found-IsPaid, remove_source-IsPaid, set_quitting-IsPaid,
  value-IsPaid, error-IsPaid, then-IsPaid, add_task-IsPaid,
}

-- What a handler leads to: it returns, and the processor is sound with `m` more answers.
abbrev pub Pays : ℕ → ℕ → Context → Option Context → Type 0
Pays n m c o = (c' : Context) × (o ≡ some c') × IsPaid n m c.processor c'.processor

module _ (n : ℕ) (c : Context) (v : IsSound c.processor) where
  add_client_task-Pays :
      (i : Invocation) (t : Task) (device_id : String)
      → Pays n (owes n t) c (add_client_task i t device_id c)
  unfolding add_client_task lookup_queue
  add_client_task-Pays i t device_id =
      let k : Key = record { source = i.sender; sink = device_id } in
      let (q, found, ready) =
        queue_for-IsPaid n c.processor v k (lookup k c.processor.task_queues) refl in
      let (s', e, added) = add_task-IsPaid n _ k q t ready.sound found in
      let (ws, next) = watch i.sender c.next_watch (lookup i.sender c.watchers) c.watchers in
      (
        record c { processor = s'; watchers = ws; next_watch = next },
        ground arith,
        then-IsPaid n (owes n t) ready added,
      )

  add_made-Pays :
      (i : Invocation) (t : Option Task) (device_id : String)
      → Makes i t
      → Pays n (owed_to n (some i)) c (add_made i t device_id c)
  unfolding add_made
  add_made-Pays i none device_id h = cc
  add_made-Pays i (some t) device_id h =
      subst (λ o. Pays n (owed_to n o) c (add_client_task i t device_id c)) h
        (add_client_task-Pays i t device_id)

  -- A path that is no device's is answered with an error.
  on_device_id-Pays :
      (i : Invocation) (o : Option String) (f : String → Context → Option Context)
      → ((device_id : String) → Pays n (owed_to n (some i)) c (f device_id c))
      → Pays n (owed_to n (some i)) c (on_device_id i o f c)
  unfolding on_device_id answer
  on_device_id-Pays i none f p = (_, refl, error-IsPaid n c.processor v i)
  on_device_id-Pays i (some device_id) f p = p device_id

  cancel-Pays :
      (i : Invocation) (device_id : String)
      → Pays n (owed_to n (some i)) c (on_renderer_device i call_cancel device_id c)
  unfolding on_renderer_device lookup_queue answer
  cancel-Pays i device_id =
      let k : Key = record { source = i.sender; sink = device_id } in
      let (s', e, gone) =
        cancel_found-IsPaid n c.processor v k (lookup k c.processor.task_queues) refl in
      (
        answer (task_effect (return_value i none)) (record c { processor = s' }),
        ground arith,
        then-IsPaid n _ gone (value-IsPaid n s' gone.sound i),
      )

  remove_client-IsPaid : (name : String) → IsPaid n 0 c.processor (remove_client name c).processor
  unfolding remove_client
  remove_client-IsPaid name =
      let gone = remove_source-IsPaid n c.processor v name in
      elim (Bool-cases (no_watchers (remove name c.watchers) && not c.never_quit)) [
        | inl e ↦ rw e (then-IsPaid n 0 gone (set_quitting-IsPaid n _ gone.sound))
        | inr e ↦ rw e gone
      ]

  rsu_method_call-Pays :
      (version : String) (i : Invocation) (call : ManagerCall)
      → known (manager call) ≡ true
      → Pays n (owed_to n (some i)) c (rsu_method_call version i call c)
  unfolding rsu_method_call get_version_new get_servers_new answer
  rsu_method_call-Pays version i call_release h =
      let gone = remove_client-IsPaid i.sender in
      (_, refl, then-IsPaid n _ gone (value-IsPaid n _ gone.sound i))
  rsu_method_call-Pays version i call_get_version h =
      add_client_task-Pays i (get_version_new version i) rsu_sink
  rsu_method_call-Pays version i call_get_servers h =
      add_client_task-Pays i (get_servers_new i) rsu_sink
  rsu_method_call-Pays version i unknown_manager h = cc

-- A call of a method that its interface has, on any interface and of any path, in a state whose
-- processor is sound: the handler returns, the processor stays sound, and the answers given or owed by
-- tasks in queues grow by exactly one for that call's serial, and by none for any other.
pub method_call-Pays :
    (n : ℕ) (version : String) (strstrip : String → String) (i : Invocation) (call : Call)
    (c : Context)
    → IsSound c.processor
    → known call ≡ true
    → Pays n (if i.serial == n then 1 else 0) c (method_call version strstrip i call c)
unfolding method_call props_method_call device_method_call player_method_call push_host_method_call
    renderer_device_method_call
method_call-Pays n version strstrip i (manager call) c v h =
    rsu_method_call-Pays n c v version i call h
method_call-Pays n version strstrip i (props object call) c v h =
    on_device_id-Pays n c v i _ _
      (λ d. add_made-Pays n c v i _ d (props_task-Makes strstrip object i call h))
method_call-Pays n version strstrip i (root object call) c v h =
    on_device_id-Pays n c v i _ _
      (λ d. add_made-Pays n c v i _ d (root_task-Makes strstrip object i call h))
method_call-Pays n version strstrip i (player object call) c v h =
    on_device_id-Pays n c v i _ _
      (λ d. add_made-Pays n c v i _ d (player_task-Makes strstrip object i call h))
method_call-Pays n version strstrip i (push_host object call) c v h =
    on_device_id-Pays n c v i _ _
      (λ d. add_made-Pays n c v i _ d (push_host_task-Makes strstrip object i call h))
method_call-Pays n version strstrip i (renderer_device object call_cancel) c v h =
    on_device_id-Pays n c v i _ _ (cancel-Pays n c v i)
method_call-Pays n version strstrip i (renderer_device object unknown_device) c v h = cc
