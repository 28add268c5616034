-- ===== src/Processor/Steps.antt =====
-- Adding, starting, running and completing tasks keep the queues and their sources in agreement.
use renderer_service_upnp.Prelude.{
  String, some_inj, ℕ, ◌≡◌, refl, subst, ◌≢◌, List, [], ◌∷◌, ◌++◌, Option, none, some, arith, true,
  Bool, ◌&&◌, not, ◌==◌, nat_eq, string_eq, if◌then◌else◌, Bool-cases, Option-cases, inl, inr,
}
use renderer_service_upnp.Error.{Error}
use renderer_service_upnp.Dict.{lookup, lookup-insert_self}
use renderer_service_upnp.Task.{Task}
use renderer_service_upnp.Task
use renderer_service_upnp.Task.Kinds.{TaskType, get_version, get_servers, raise, quit}
use renderer_service_upnp.Processor.State.{
  Key, key_eq, Atom, client, service, ServiceTask, Queue, process_on, Processor, source_remove,
  emit, put,
}
use renderer_service_upnp.Processor.Callbacks.{has_tasks, arm, completed}
use renderer_service_upnp.Processor.Queues.{is_quiet, enqueue}
use renderer_service_upnp.Processor.Run.{
  answer_and_complete, process_sync_task, process_async_task, process_cb, start_first, process_task,
  complete_current, action_done, call_done,
}
use renderer_service_upnp.Processor.Invariant.{IsSound, keep-Inv, disarm-Inv}
use renderer_service_upnp.Processor.Sound.{
  Found, put-Found, put-IsSound, if-IsSound, arm-IsSound, completed-IsSound, complete_on-IsSound,
  queue_cancel-IsSound,
}

-- A queue that runs a task has no source.
pub busy_off :
    (k : Key) (q : Queue) (a : Atom) (s : Processor)
    → Found k q s
    → q.current_task ≡ some a
    → IsSound s
    → q.idle_id ≡ 0
busy_off k q a s found e v = elim (Bool-cases (q.idle_id == 0)) [
  | inl z ↦ ground arith
  | inr z ↦ absurd (ground (arith, (v.ready k q found (λ n. ground arith)).free))
]

-- The outcome of a run that did not go through a null pointer, and the state that it leaves.
abbrev pub Runs : Option Processor → Type 0
Runs o = (s : Processor) × (o ≡ some s) × IsSound s

has_tasks-append : (xs : List Atom) (a : Atom) → has_tasks (xs ++ a ∷ []) ≡ true
unfolding has_tasks
has_tasks-append [] a = refl
has_tasks-append (x ∷ xs) a = refl

-- What the guard of queue_start and enqueue tests.
pub is_quiet_lem : (q : Queue) → is_quiet q ≡ true → (q.current_task ≡ none) × (q.idle_id ≡ 0)
unfolding is_quiet
is_quiet_lem q h = (ground arith, ground arith)

pub enqueue-IsSound :
    (k : Key) (a : Atom) (q : Queue) (s : Processor)
    → Found k q s
    → IsSound s
    → IsSound (enqueue k a q s)
unfolding enqueue
enqueue-IsSound k a q s found v =
    if-IsSound q.defer_remove _ _ added (elim (Bool-cases (q.auto_start && is_quiet q')) [
      | inl e ↦ rw e (
          arm-IsSound k q' _ (put-Found k q' s) (quiet e).1
            (record { waiting = has_tasks-append q.tasks a; free = (quiet e).0 }) added)
      | inr e ↦ rw e added
    ])
  where
    q' : Queue
    q' = record q { tasks = q.tasks ++ a ∷ [] }

    added : IsSound (put k q' s)
    added =
        unfold put in
        keep-Inv _ _ _ k q q' found refl
          (λ n. record { waiting = has_tasks-append q.tasks a; free = (v.ready k q found n).free })
          v

    quiet : (q.auto_start && is_quiet q') ≡ true → (q'.current_task ≡ none) × (q'.idle_id ≡ 0)
    quiet e = is_quiet_lem q' (ground arith)

-- rsu_task_queue_start on a queue that has a task.
pub start-IsSound :
    (k : Key) (q : Queue) (s : Processor)
    → Found k q s
    → has_tasks q.tasks ≡ true
    → IsSound s
    → IsSound (if not q.defer_remove && is_quiet q then arm k q s else s)
start-IsSound k q s found some_task v = elim (Bool-cases (not q.defer_remove && is_quiet q)) [
  | inl e ↦
      let quiet = is_quiet_lem q (ground arith) in
      rw e (arm-IsSound k q s found quiet.1 (record { waiting = some_task; free = quiet.0 }) v)
  | inr e ↦ rw e v
]

answer-IsSound :
    (k : Key) (q : Queue) (r : Task × List Task.Effect) (s : Processor)
    → Found k q s
    → q.idle_id ≡ 0
    → IsSound s
    → IsSound (answer_and_complete k q r s)
unfolding answer_and_complete emit
answer-IsSound k q (t, out) s found off v =
    completed-IsSound k _ _ (put-Found k _ _) off (put-IsSound k q _ _ found off off v)

module _ (server_ids : List String) (upnp : Task → Task × Bool)
    (run_action : ServiceTask → Option ℕ × Bool) where
  sync-IsSound :
      (k : Key) (q : Queue) (y : TaskType) (t : Task) (s : Processor)
      → Found k q s
      → q.idle_id ≡ 0
      → IsSound s
      → IsSound (process_sync_task server_ids upnp run_action k q y t s)
  unfolding process_sync_task
  sync-IsSound k q get_version t s found off v = answer-IsSound k q _ s found off v
  sync-IsSound k q get_servers t s found off v = answer-IsSound k q _ s found off v
  sync-IsSound k q raise t s found off v = answer-IsSound k q _ s found off v
  sync-IsSound k q quit t s found off v = answer-IsSound k q _ s found off v
  sync-IsSound k q _ t s found off v = v

  async-IsSound :
      (k : Key) (q : Queue) (t : Task) (s : Processor)
      → Found k q s
      → q.idle_id ≡ 0
      → IsSound s
      → IsSound (process_async_task server_ids upnp run_action k q t s)
  unfolding process_async_task
  async-IsSound k q t s found off v =
      let stored = put-IsSound k q _ s found off off v in
      if-IsSound (upnp (record t { cancellable = true })).1 _ _ (complete_on-IsSound k _ stored)
        stored

  after_action-IsSound :
      (k : Key) (q : Queue) (o : Option ℕ) (s : Processor)
      → Found k q s
      → q.idle_id ≡ 0
      → IsSound s
      → IsSound (elim o [ none ↦ completed k q s | some n ↦ s ])
  after_action-IsSound k q none s found off v = completed-IsSound k q s found off v
  after_action-IsSound k q (some n) s found off v = v

  process_cb-IsSound :
      (k : Key) (q : Queue) (a : Atom) (s : Processor)
      → Found k q s
      → q.idle_id ≡ 0
      → IsSound s
      → IsSound (process_cb server_ids upnp run_action k q a s)
  unfolding process_cb
  process_cb-IsSound k q (client t) s found off v =
      if-IsSound t.synchronous _ _ (sync-IsSound k q t.type t s found off v)
        (async-IsSound k q t s found off v)
  process_cb-IsSound k q (service t) s found off v =
      let stored = put-IsSound k q _ s found off off v in
      if-IsSound (run_action t).1 _ _ (queue_cancel-IsSound k _ _ (put-Found k _ _) stored)
        (after_action-IsSound k _ (run_action t).0 _ (put-Found k _ _) off stored)

  start_first-Runs :
      (k : Key) (q : Queue) (ts : List Atom) (s : Processor)
      → has_tasks ts ≡ true
      → Found k q s
      → IsSound s
      → Runs (start_first server_ids upnp run_action k q ts (source_remove q.idle_id s))
  unfolding start_first source_remove put has_tasks
  start_first-Runs k q [] s h found v = cc
  start_first-Runs k q (a ∷ rest) s h found v = (
    _,
    refl,
    process_cb-IsSound k _ a _ (lookup-insert_self k _ _) refl
        (disarm-Inv _ _ _ k q _ found refl v),
  )

  -- When the source of a queue fires, the queue is there and has a task, and running the task leaves
  -- queues and sources in agreement.
  pub process_task-Runs :
      (i : ℕ) (k : Key) (s : Processor)
      → IsSound s
      → s.sources i ≡ some (process_on k)
      → Runs (process_task server_ids upnp run_action k (source_remove i s))
  unfolding process_task source_remove
  process_task-Runs i k s v fires = elim (Option-cases (lookup k s.task_queues)) [
    | inl e ↦ absurd (ground (arith, v.aimed i k fires, v.zero_free))
    | inr (q, e) ↦
        let at_i : q.idle_id ≡ i = ground (arith, v.aimed i k fires) in
        let armed : q.idle_id ≢ 0 = λ z. ground (arith, v.zero_free) in
        rw (e, process_task)
          (subst
            (λ n. Runs (start_first server_ids upnp run_action k q q.tasks (source_remove n s)))
            at_i (start_first-Runs k q q.tasks s (v.ready k q e armed).waiting e v))
  ]

-- rsu_async_task_complete, a UPnP call that ends, and a service task's call that ends, on a queue
-- with a current task.
pub complete_current-IsSound :
    (k : Key) (q : Queue) (o : Option Atom) (s s' : Processor)
    → Found k q s
    → q.current_task ≡ o
    → IsSound s
    → complete_current k q o s ≡ some s'
    → IsSound s'
unfolding complete_current
complete_current-IsSound k q none s s' found e v h = cc
complete_current-IsSound k q (some (service t)) s s' found e v h = cc
complete_current-IsSound k q (some (client t)) s s' found e v h =
    subst IsSound (some_inj h) (answer-IsSound k q _ s found (busy_off k q _ s found e v) v)

pub call_done-IsSound :
    (k : Key) (q : Queue) (x : Option Error) (o : Option Atom) (s s' : Processor)
    → Found k q s
    → q.current_task ≡ o
    → IsSound s
    → call_done k q x o s ≡ some s'
    → IsSound s'
unfolding call_done
call_done-IsSound k q x none s s' found e v h = cc
call_done-IsSound k q x (some (service t)) s s' found e v h = cc
call_done-IsSound k q x (some (client t)) s s' found e v h =
    let off = busy_off k q _ s found e v in
    subst IsSound (some_inj h) (complete_on-IsSound k _ (put-IsSound k q _ s found off off v))

pub action_done-IsSound :
    (k : Key) (q : Queue) (o : Option Atom) (s s' : Processor)
    → Found k q s
    → q.current_task ≡ o
    → IsSound s
    → action_done k q o s ≡ some s'
    → IsSound s'
unfolding action_done emit
action_done-IsSound k q none s s' found e v h = cc
action_done-IsSound k q (some (client t)) s s' found e v h = cc
action_done-IsSound k q (some (service t)) s s' found e v h =
    let off = busy_off k q _ s found e v in
    subst IsSound (some_inj h)
      (completed-IsSound k _ _ (put-Found k _ _) off (put-IsSound k q _ _ found off off v))
