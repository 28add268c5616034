-- ===== src/Processor/Finally.antt =====
-- The finally callback of a queue that was cancelled (prv_task_queue_finally_cb of
-- src/task-processor.c).
use renderer_service_upnp.Prelude.{
  ℕ, ◌+◌, ◌-◌, ◌%◌, ◌≡◌, ◌&&◌, refl, sym, ap, subst, true, false, Bool, inl, inr, nat_eq, ◌==◌,
  string_eq, Option, none, some, [], map, arith, if◌then◌else◌, Option-cases,
}
use renderer_service_upnp.Dict.{Distinct, lookup-remove_self, insert-Distinct}
use renderer_service_upnp.Task
use renderer_service_upnp.Processor.State.{
  Key, key_eq, Atom, client, service, Queue, Processor, put, emit, idle_add, finally_of,
  source_remove, complete_on, task_effect, on_quit, Source,
}
use renderer_service_upnp.Processor.Callbacks.{
  queue_free, remove_queue, after_completion, completed, delete_current, uint_mod, has_tasks,
}
use renderer_service_upnp.Processor.Cancel.{
  stopped, unsource, cancel_and_free_all, cancel_running, cancel_current, queue_cancel,
  cancel_queue, reaches_cancelled, async_cancelled,
}
use renderer_service_upnp.Processor.Invariant.{IsSound}
use renderer_service_upnp.Processor.Sound.{Found, put-Found}
use renderer_service_upnp.Processor.Frame.{at}

-- The finally callback with the user data `d` is to get TRUE: the queue is still there, and cancelled;
-- or it is gone, and the idle source waits that calls it so.
pub data Told (k : Key) (d : ℕ) (s : Processor) : Type 0 where
  still :
      (q : Queue)
      → Found k q s
      → q.cancelled ≡ true
      → q.has_finally ≡ true
      → q.user_data ≡ d
      → Told k d s
  gone : (i : ℕ) → at k s ≡ none → s.sources i ≡ some (finally_of true d) → Told k d s

-- A queue that was cancelled, with a finally callback.
record IsOver (q : Queue) : Type 0 where
  over : q.cancelled ≡ true
  ends : q.has_finally ≡ true

put-Told : (k : Key) (q : Queue) (s : Processor) → IsOver q → Told k q.user_data (put k q s)
put-Told k q s o = still q (put-Found k q s) o.over o.ends refl

idle_add-Told :
    (k : Key) (q : Queue) (f : Source) (s : Processor)
    → Found k q s
    → IsOver q
    → Told k q.user_data (idle_add f s)
unfolding idle_add
idle_add-Told k q f s found o = still q found o.over o.ends refl

remove_queue-Told :
    (k : Key) (q : Queue) (s : Processor)
    → Distinct s.task_queues
    → IsOver q
    → Told k q.user_data (remove_queue k q s)
unfolding remove_queue queue_free emit idle_add
remove_queue-Told k q s d o =
    rw o.ends (gone s.next_id (lookup-remove_self k s.task_queues d) (ground (arith, o.over)))

if-Told :
    (b : Bool) (k : Key) (d : ℕ) (s t : Processor)
    → Told k d s
    → Told k d t
    → Told k d (if b then s else t)
if-Told true k d s t h h' = h
if-Told false k d s t h h' = h'

after_completion-Told :
    (k : Key) (q : Queue) (s : Processor)
    → q.tasks ≡ []
    → Found k q s
    → Distinct s.task_queues
    → IsOver q
    → Told k q.user_data (after_completion k q s)
unfolding after_completion has_tasks
after_completion-Told k q s e found d o =
    let stays : Told k q.user_data s = still q found o.over o.ends refl in
    let has_none : has_tasks q.tasks ≡ false = ap has_tasks e in
    let goes = remove_queue-Told k q s d o in
    if-Told (s.quitting && s.running_tasks == 0) k q.user_data _ _
      (idle_add-Told k q on_quit s found o)
      (if-Told q.defer_remove k q.user_data _ _ goes
        (rw has_none (if-Told q.auto_remove k q.user_data _ _ goes stays)))

completed-Told :
    (k : Key) (q : Queue) (s : Processor)
    → q.tasks ≡ []
    → Distinct s.task_queues
    → IsOver q
    → Told k q.user_data (completed k q s)
unfolding completed put emit
completed-Told k q s e d o =
    let q' = record q { current_task = none } in
    let counted = record s { running_tasks = (s.running_tasks + uint_mod - 1) % uint_mod } in
    let told = emit (delete_current q.current_task) counted in
    after_completion-Told k q' (put k q' told) e (put-Found k q' told)
      (insert-Distinct k q' s.task_queues d) (record { over = o.over; ends = o.ends })

cancel_current-Told :
    (k : Key) (q : Queue) (a : Atom) (s : Processor)
    → q.tasks ≡ []
    → Found k q s
    → Distinct s.task_queues
    → IsOver q
    → Told k q.user_data (cancel_current k q a s)
unfolding cancel_current put emit
cancel_current-Told k q (client t) s e found d o =
    let t' = (Task.cancel t).0 in
    let told = emit (map task_effect (Task.cancel t).1) s in
    let q1 = record q { current_task = some (client (async_cancelled t')) } in
    let q2 = record q { current_task = some (client t') } in
    if-Told (reaches_cancelled t') k q.user_data _ _
      (idle_add-Told k q1 (complete_on k) (put k q1 told) (put-Found k q1 told)
        (record { over = o.over; ends = o.ends }))
      (put-Told k q2 told (record { over = o.over; ends = o.ends }))
cancel_current-Told k q (service t) s e found d o = elim (Option-cases t.p_action) [
  | inl f ↦ rw f (still q found o.over o.ends refl)
  | inr (n, f) ↦
      let q' = record q { current_task = some (service (record t { p_action = none })) } in
      rw f (
        completed-Told k q' _ e (insert-Distinct k q' s.task_queues d)
          (record { over = o.over; ends = o.ends }))
]

cancel_running-Told :
    (k : Key) (q : Queue) (c : Option Atom) (s : Processor)
    → q.tasks ≡ []
    → Found k q s
    → Distinct s.task_queues
    → IsOver q
    → Told k q.user_data (cancel_running k q c s)
unfolding cancel_running
cancel_running-Told k q none s e found d o =
    if-Told q.auto_remove k q.user_data _ _ (remove_queue-Told k q s d o)
      (still q found o.over o.ends refl)
cancel_running-Told k q (some a) s e found d o = cancel_current-Told k q a s e found d o

unsource-tables : (q : Queue) (s : Processor) → (unsource q s).task_queues ≡ s.task_queues
unfolding unsource source_remove
unsource-tables q s = ground arith

queue_cancel-Told :
    (k : Key) (q : Queue) (s : Processor)
    → Distinct s.task_queues
    → q.has_finally ≡ true
    → Told k q.user_data (queue_cancel k q s)
unfolding queue_cancel stopped put emit
queue_cancel-Told k q s d h =
    let told = emit (cancel_and_free_all q.tasks) s in
    cancel_running-Told k (stopped q) q.current_task (put k (stopped q) (unsource q told)) refl
      (put-Found k (stopped q) (unsource q told))
      (insert-Distinct k (stopped q) _ (subst Distinct (sym (unsource-tables q told)) d))
      (record { over = refl; ends = h })

-- A queue that is there and has a finally callback, in a processor that is in order: after
-- rsu_task_processor_cancel_queue the queue is still there, cancelled, with the same callback and user
-- data, or it is gone and an idle source waits that calls the callback with TRUE and the user data.
pub cancel_queue-Told :
    (k : Key) (q : Queue) (s : Processor)
    → IsSound s
    → Found k q s
    → q.has_finally ≡ true
    → (s' : Processor) × (cancel_queue k s ≡ some s') × Told k q.user_data s'
unfolding cancel_queue
cancel_queue-Told k q s v found h =
    (queue_cancel k q s, ground arith, queue_cancel-Told k q s v.distinct h)
