-- ===== src/Processor/Run.antt =====
-- Running a task, and what comes back: prv_task_queue_process_task of src/task-processor.c, the
-- process callbacks of src/renderer-service-upnp.c and src/service-task.c, and the completions.
use renderer_service_upnp.Prelude.{
  ℕ, ◌+◌, ◌%◌, Bool, true, false, List, [], ◌∷◌, map, Option, none, some, String, if◌then◌else◌,
}
use renderer_service_upnp.Error.{Error, not_supported}
use renderer_service_upnp.Dict.{lookup}
use renderer_service_upnp.Task.{Task}
use renderer_service_upnp.Task
use renderer_service_upnp.Task.Kinds.{TaskType, strings, get_version, get_servers, raise, quit}
use renderer_service_upnp.Processor.State.{
  Key, key_eq, Atom, client, service, ServiceTask, Queue, complete_on, task_effect,
  service_callback, Processor, idle_add, emit, put,
}
use renderer_service_upnp.Processor.Callbacks.{uint_mod, completed}
use renderer_service_upnp.Processor.Cancel.{queue_cancel}

-- The current task becomes `t`, and answers with `out`.
unfoldable pub put_client : Key → Queue → Task × List Task.Effect → Processor → Processor
put_client k q (t, out) s =
    put k (record q { current_task = some (client t) }) (emit (map task_effect out) s)

-- The task answers and is completed.
unfoldable pub answer_and_complete : Key → Queue → Task × List Task.Effect → Processor → Processor
unfolding put_client
answer_and_complete k q (t, out) s =
    completed k (record q { current_task = some (client t) }) (put_client k q (t, out) s)

-- What the upper layers do with a task: `server_ids` is the answer of rsu_upnp_get_server_ids;
-- `upnp` is the rsu_upnp_ function of the task's type, which returns the task as it leaves it and
-- whether it has scheduled rsu_async_task_complete; `run_action` is a service task's action,
-- which returns the UPnP call that it has started and whether it failed.
module _ (server_ids : List String) (upnp : Task → Task × Bool)
    (run_action : ServiceTask → Option ℕ × Bool) where
  -- prv_process_sync_task
  unfoldable pub process_sync_task : Key → Queue → TaskType → Task → Processor → Processor
  process_sync_task k q get_version t s = answer_and_complete k q (Task.complete t) s
  process_sync_task k q get_servers t s =
      answer_and_complete k q (Task.complete (record t { result = some (strings server_ids) })) s
  process_sync_task k q raise t s = answer_and_complete k q (Task.fail t not_supported) s
  process_sync_task k q quit t s = answer_and_complete k q (Task.fail t not_supported) s
  process_sync_task k q _ t s = s

  -- prv_process_async_task
  unfoldable pub process_async_task : Key → Queue → Task → Processor → Processor
  process_async_task k q t s =
      let (t', scheduled) = upnp (record t { cancellable = true }) in
      let s' = put k (record q { current_task = some (client t') }) s in
      if scheduled then idle_add (complete_on k) s' else s'

  -- prv_process_task, rsu_service_task_process_cb
  unfoldable pub process_cb : Key → Queue → Atom → Processor → Processor
  process_cb k q (client t) s =
      if t.synchronous then process_sync_task k q t.type t s else process_async_task k q t s
  process_cb k q (service t) s =
      let (action, failed) = run_action t in
      let q' = record q { current_task = some (service (record t { p_action = action })) } in
      let s' = put k q' s in
      if failed
      then queue_cancel k q' s'
      else elim action [ none ↦ completed k q' s' | some n ↦ s' ]

  -- prv_task_queue_process_task; `none` is a queue or a task that is not there
  unfoldable pub start_first : Key → Queue → List Atom → Processor → Option Processor
  start_first k q [] s = none
  start_first k q (a ∷ rest) s =
      let q' = record q { cancelled = false; idle_id = 0; current_task = some a; tasks = rest } in
      some (
        process_cb k q' a
          (put k q' (record s { running_tasks = (s.running_tasks + 1) % uint_mod })))

  unfoldable pub process_task : Key → Processor → Option Processor
  unfolding start_first
  process_task k s = elim (lookup k s.task_queues) [
    | none ↦ none
    | some q ↦ start_first k q q.tasks s
  ]

-- prv_async_task_complete, which rsu_async_task_complete calls with the task's error
unfoldable pub async_outcome : Task → Task × List Task.Effect
async_outcome t = elim t.error [ none ↦ Task.complete t | some e ↦ Task.fail t e ]

-- The task of the callback is the current task of its queue.
unfoldable pub complete_current : Key → Queue → Option Atom → Processor → Option Processor
complete_current k q (some (client t)) s = some (answer_and_complete k q (async_outcome t) s)
complete_current k q _ s = none

unfoldable pub async_task_complete : Key → Processor → Option Processor
unfolding complete_current
async_task_complete k s = elim (lookup k s.task_queues) [
  | none ↦ none
  | some q ↦ complete_current k q q.current_task s
]

-- rsu_service_task_begin_action_cb
unfoldable pub action_done : Key → Queue → Option Atom → Processor → Option Processor
action_done k q (some (service t)) s =
    let t' = record t { p_action = none } in
    let q' = record q { current_task = some (service t') } in
    some (completed k q' (put k q' (emit (service_callback t' ∷ []) s)))
action_done k q _ s = none

unfoldable pub begin_action_cb : Key → Processor → Option Processor
unfolding action_done
begin_action_cb k s = elim (lookup k s.task_queues) [
  | none ↦ none
  | some q ↦ action_done k q q.current_task s
]

-- The end of a client's UPnP call (prv_simple_call_cb, prv_complete_get_prop and their like): the
-- outcome is stored, the completion scheduled, and cancelling does nothing more.
unfoldable pub call_done : Key → Queue → Option Error → Option Atom → Processor → Option Processor
call_done k q e (some (client t)) s = some (
    idle_add (complete_on k) (
      put k (record q { current_task = some (client (record t { error = e; connected = false })) })
        s))
call_done k q e _ s = none

unfoldable pub simple_call_cb : Key → Option Error → Processor → Option Processor
unfolding call_done
simple_call_cb k e s = elim (lookup k s.task_queues) [
  | none ↦ none
  | some q ↦ call_done k q e q.current_task s
]
