-- ===== src/Processor/Cancel.antt =====
-- src/task-processor.c: cancelling a queue, or all; with the cancel callbacks, prv_cancel_task of
-- src/renderer-service-upnp.c, rsu_async_task_cancelled of src/async.c and
-- rsu_service_task_cancel_cb of src/service-task.c.
use renderer_service_upnp.Prelude.{
  ltb, Bool, true, false, ◌&&◌, not, List, [], ◌∷◌, ◌++◌, map, Option, none, some, ◌==◌, nat_eq,
  string_eq, String, if◌then◌else◌,
}
use renderer_service_upnp.Error.{cancelled}
use renderer_service_upnp.Dict.{lookup}
use renderer_service_upnp.Task.{Task}
use renderer_service_upnp.Task
use renderer_service_upnp.Processor.State.{
  Key, key_eq, Atom, client, service, Queue, on_quit, complete_on, Output, task_effect,
  cancel_action, Processor, idle_add, source_remove, emit, put,
}
use renderer_service_upnp.Processor.Callbacks.{delete_cb, remove_queue, completed}

-- What g_cancellable_cancel sets off, rsu_async_task_cancelled, does to the task.
unfoldable pub async_cancelled : Task → Task
async_cancelled t = record t {
  error = elim t.error [ none ↦ some cancelled | some e ↦ some e ];
  connected = false;
}

-- Whether rsu_task_cancel reaches rsu_async_task_cancelled.
unfoldable pub reaches_cancelled : Task → Bool
reaches_cancelled t = not t.synchronous && t.cancellable && t.connected

-- `task_cancel_cb` of a task that waits in the queue: no call of it is in flight.
unfoldable pub cancel_waiting : Atom → List Output
cancel_waiting (client t) = map task_effect (Task.cancel t).1
cancel_waiting (service t) = []

-- prv_task_cancel_and_free_cb
unfoldable pub cancel_and_free : Atom → List Output
unfolding cancel_waiting
cancel_and_free (client t) = cancel_waiting (client t) ++ delete_cb (client (Task.cancel t).0)
cancel_and_free (service t) = cancel_waiting (service t) ++ delete_cb (service t)

unfoldable pub cancel_and_free_all : List Atom → List Output
cancel_and_free_all [] = []
cancel_and_free_all (a ∷ rest) = cancel_and_free a ++ cancel_and_free_all rest

-- `task_cancel_cb` of the current task, which the queue `q` under `k` has.
unfoldable pub cancel_current : Key → Queue → Atom → Processor → Processor
cancel_current k q (client t) s =
    let (t', out) = Task.cancel t in
    let told = emit (map task_effect out) s in
    if reaches_cancelled t'
    then idle_add (complete_on k)
        (put k (record q { current_task = some (client (async_cancelled t')) }) told)
    else put k (record q { current_task = some (client t') }) told
cancel_current k q (service t) s = elim t.p_action [
  | none ↦ s
  | some n ↦
      let q' = record q { current_task = some (service (record t { p_action = none })) } in
      completed k q' (put k q' (emit (cancel_action n ∷ []) s))
]

-- The queue with its tasks and its source gone.
unfoldable pub stopped : Queue → Queue
stopped q = record q { cancelled = true; tasks = []; idle_id = 0 }

-- `if (task_queue->idle_id) g_source_remove(task_queue->idle_id)`
unfoldable pub unsource : Queue → Processor → Processor
unsource q s = if q.idle_id == 0 then s else source_remove q.idle_id s

-- The end of prv_task_queue_cancel, by the current task.
unfoldable pub cancel_running : Key → Queue → Option Atom → Processor → Processor
cancel_running k q none s = if q.auto_remove then remove_queue k q s else s
cancel_running k q (some a) s = cancel_current k q a s

-- prv_task_queue_cancel
unfoldable pub queue_cancel : Key → Queue → Processor → Processor
unfolding stopped
queue_cancel k q s =
    cancel_running k (stopped q) q.current_task
      (put k (stopped q) (unsource q (emit (cancel_and_free_all q.tasks) s)))

-- rsu_task_processor_cancel_queue
unfoldable pub cancel_queue : Key → Processor → Option Processor
cancel_queue k s = elim (lookup k s.task_queues) [
  | none ↦ none
  | some q ↦ some (queue_cancel k q s)
]

-- prv_cancel_all_queues. GLib forbids to take entries out during g_hash_table_foreach, but
-- prv_task_queue_cancel does so with a queue that goes when it is done; here the walk goes on over the
-- entries that it started with.
unfoldable pub cancel_queues : List (Key × Queue) → Processor → Processor
cancel_queues [] s = s
cancel_queues ((k, q) ∷ rest) s = cancel_queues rest (queue_cancel k q s)

-- rsu_task_processor_set_quitting
unfoldable pub set_quitting : Processor → Processor
set_quitting s =
    let s' = record s { quitting = true } in
    if ltb 0 s.running_tasks then cancel_queues s.task_queues s' else idle_add on_quit s'

-- g_hash_table_foreach_remove takes out the entry for which it got TRUE.
unfoldable pub remove_found : Key → Option Queue → Processor → Processor
remove_found k none s = s
remove_found k (some q) s = remove_queue k q s

-- The body of prv_free_queue_for_source and of prv_free_queue_for_sink, for a queue that matches
-- and by its current task, with the removal that a result of TRUE asks for. A queue that goes when it
-- is done would be removed twice, by prv_task_queue_cancel and by the result; here the second removal
-- finds nothing. The queues that the program gives a client's name or a renderer's path as source or
-- sink are not of that kind.
unfoldable pub free_queue : Key → Queue → Option Atom → Processor → Processor
free_queue k q none s =
    let q' = record q { defer_remove = false } in
    let s' = queue_cancel k q' (put k q' s) in remove_found k (lookup k s'.task_queues) s'
free_queue k q (some a) s =
    let q' = record q { defer_remove = true } in queue_cancel k q' (put k q' s)

-- g_hash_table_foreach_remove with prv_free_queue_for_source
unfoldable pub free_queues_for_source : String → List (Key × Queue) → Processor → Processor
free_queues_for_source name [] s = s
free_queues_for_source name ((k, q) ∷ rest) s =
    free_queues_for_source name rest
      (if name == k.source && not q.defer_remove then free_queue k q q.current_task s else s)

-- rsu_task_processor_remove_queues_for_source
unfoldable pub remove_queues_for_source : String → Processor → Processor
remove_queues_for_source name s = free_queues_for_source name s.task_queues s

-- g_hash_table_foreach_remove with prv_free_queue_for_sink
unfoldable pub free_queues_for_sink : String → List (Key × Queue) → Processor → Processor
free_queues_for_sink name [] s = s
free_queues_for_sink name ((k, q) ∷ rest) s =
    free_queues_for_sink name rest
      (if name == k.sink && not q.defer_remove then free_queue k q q.current_task s else s)

-- rsu_task_processor_remove_queues_for_sink
unfoldable pub remove_queues_for_sink : String → Processor → Processor
remove_queues_for_sink name s = free_queues_for_sink name s.task_queues s
