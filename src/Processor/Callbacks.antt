-- ===== src/Processor/Callbacks.antt =====
-- The callbacks that a queue has no other way to call back into the processor from: deletion of a
-- task, and src/task-processor.c's prv_task_queue_free_cb and rsu_task_queue_task_completed.
use renderer_service_upnp.Prelude.{
  ℕ, ◌+◌, ◌-◌, ◌%◌, ◌^◌, Bool, true, false, ◌&&◌, List, [], ◌∷◌, ◌++◌, map, Option, none, some,
  ◌==◌, nat_eq, if◌then◌else◌,
}
use renderer_service_upnp.Dict.{lookup, remove}
use renderer_service_upnp.Task.{Task}
use renderer_service_upnp.Task
use renderer_service_upnp.Processor.State.{
  Key, key_eq, Atom, client, service, Queue, process_on, finally_of, on_quit, Output, task_effect,
  free_user_data, Processor, idle_add, emit, put,
}

-- prv_delete_task, rsu_service_task_delete_cb
unfoldable pub delete_cb : Atom → List Output
delete_cb (client t) = map task_effect (Task.delete t)
delete_cb (service t) = if t.has_free_func then free_user_data t ∷ [] else []

unfoldable pub delete_all : List Atom → List Output
delete_all [] = []
delete_all (a ∷ rest) = delete_cb a ++ delete_all rest

-- prv_task_queue_free_cb
unfoldable pub queue_free : Queue → Processor → Processor
queue_free q s =
    let freed = emit (delete_all q.tasks) s in
    if q.has_finally then idle_add (finally_of q.cancelled q.user_data) freed else freed

-- g_hash_table_remove of a queue that is there
unfoldable pub remove_queue : Key → Queue → Processor → Processor
remove_queue k q s = queue_free q (record s { task_queues = remove k s.task_queues })

abbrev pub uint_mod : ℕ
uint_mod = 2 ^ 32

-- `queue->idle_id = g_idle_add(prv_task_queue_process_task, queue_id)`
unfoldable pub arm : Key → Queue → Processor → Processor
arm k q s = put k (record q { idle_id = s.next_id }) (idle_add (process_on k) s)

unfoldable pub has_tasks : List Atom → Bool
has_tasks [] = false
has_tasks (a ∷ rest) = true

-- The end of rsu_task_queue_task_completed, after `running_tasks--`.
unfoldable pub after_completion : Key → Queue → Processor → Processor
after_completion k q s =
    if s.quitting && s.running_tasks == 0
    then idle_add on_quit s
    else if q.defer_remove
    then remove_queue k q s
    else if has_tasks q.tasks
    then arm k q s
    else if q.auto_remove
    then remove_queue k q s
    else s

-- `delete_cb` of the current task, if there is one
unfoldable pub delete_current : Option Atom → List Output
delete_current none = []
delete_current (some a) = delete_cb a

-- rsu_task_queue_task_completed, on the queue that its lookup finds
unfoldable pub completed : Key → Queue → Processor → Processor
completed k q s =
    let q' = record q { current_task = none } in
    after_completion k q' (
      put k q' (
        emit (delete_current q.current_task)
          (record s { running_tasks = (s.running_tasks + uint_mod - 1) % uint_mod })))

-- A queue that is not there is a null pointer dereference: `none`.
unfoldable pub task_completed : Key → Processor → Option Processor
task_completed k s = elim (lookup k s.task_queues) [ none ↦ none | some q ↦ some (completed k q s) ]
