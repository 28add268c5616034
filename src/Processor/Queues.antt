-- ===== src/Processor/Queues.antt =====
-- src/task-processor.c: making a queue, and giving it tasks.
use renderer_service_upnp.Prelude.{
  ℕ, Bool, true, false, ◌&&◌, not, [], ◌∷◌, ◌++◌, Option, none, some, ◌==◌, nat_eq, String,
  if◌then◌else◌,
}
use renderer_service_upnp.Dict.{lookup}
use renderer_service_upnp.Processor.State.{
  Key, key_eq, Atom, service, Action, Queue, Processor, put,
}
use renderer_service_upnp.Processor.Callbacks.{arm}

-- g_malloc0 of a queue, with its flags
unfoldable pub queue_new : Bool → Bool → Queue
queue_new auto_start auto_remove = record {
  tasks = [];
  current_task = none;
  idle_id = 0;
  defer_remove = false;
  auto_start = auto_start;
  auto_remove = auto_remove;
  has_finally = false;
  user_data = 0;
  cancelled = false;
}

-- rsu_task_processor_add_queue. Its callers make no key that is there already.
unfoldable pub add_queue : Key → Bool → Bool → Processor → Processor
unfolding queue_new
add_queue k auto_start auto_remove s = put k (queue_new auto_start auto_remove) s

unfoldable pub has_key : Option Queue → Bool
has_key none = false
has_key (some q) = true

-- rsu_task_processor_lookup_queue
unfoldable pub lookup_queue : Processor → String → String → Option Key
lookup_queue s source sink =
    let key : Key = record { source = source; sink = sink } in
    if has_key (lookup key s.task_queues) then some key else none

unfoldable pub is_free : Option Atom → Bool
is_free none = true
is_free (some a) = false

-- `!queue->current_task && !queue->idle_id`
unfoldable pub is_quiet : Queue → Bool
unfolding is_free
is_quiet q = is_free q.current_task && q.idle_id == 0

-- rsu_task_queue_start
unfoldable pub queue_start : Key → Processor → Option Processor
unfolding is_quiet
queue_start k s = elim (lookup k s.task_queues) [
  | none ↦ none
  | some q ↦ some (if not q.defer_remove && is_quiet q then arm k q s else s)
]

-- rsu_task_queue_add_task, on the queue that its lookup finds
unfoldable pub enqueue : Key → Atom → Queue → Processor → Processor
unfolding is_quiet
enqueue k a q s =
    let q' = record q { tasks = q.tasks ++ a ∷ [] } in
    let s' = put k q' s in
    if q'.defer_remove then s' else if q'.auto_start && is_quiet q' then arm k q' s' else s'

-- rsu_task_queue_add_task
unfoldable pub add_task : Key → Atom → Processor → Option Processor
add_task k a s = elim (lookup k s.task_queues) [ none ↦ none | some q ↦ some (enqueue k a q s) ]

-- rsu_task_queue_set_finally
unfoldable pub set_finally : Key → Processor → Option Processor
set_finally k s = elim (lookup k s.task_queues) [
  | none ↦ none
  | some q ↦ some (put k (record q { has_finally = true }) s)
]

-- rsu_task_queue_set_user_data
unfoldable pub set_user_data : Key → ℕ → Processor → Option Processor
set_user_data k d s = elim (lookup k s.task_queues) [
  | none ↦ none
  | some q ↦ some (put k (record q { user_data = d }) s)
]

-- rsu_task_queue_get_user_data
unfoldable pub get_user_data : Key → Processor → Option ℕ
get_user_data k s = elim (lookup k s.task_queues) [ none ↦ none | some q ↦ some q.user_data ]

-- rsu_service_task_add
unfoldable pub service_task_add : Key → Action → Bool → Bool → String → Processor → Option Processor
service_task_add k action has_callback has_free_func device s =
    add_task k
      (service (record {
        t_action = action;
        has_callback = has_callback;
        has_free_func = has_free_func;
        p_action = none;
        device = device;
      }))
      s
