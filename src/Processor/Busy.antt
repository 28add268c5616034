-- ===== src/Processor/Busy.antt =====
-- The counter of running tasks, and the queues that have a current task.
use renderer_service_upnp.Prelude.{
  ℕ, ◌+◌, ◌-◌, ◌*◌, ◌%◌, ap, ◌≡◌, refl, ◌∙◌, List, [], ◌∷◌, Option, none, some, arith, nat_eq,
  Bool-cases, Option-cases, inl, inr, ◌==◌, map,
}
use renderer_service_upnp.Dict.{lookup, remove, total, total-insert-some, total-remove}
use renderer_service_upnp.Task
use renderer_service_upnp.Processor.State.{
  Key, key_eq, Atom, client, service, Queue, Source, cancel_action, Processor, idle_add,
  source_remove, emit, put, task_effect, complete_on,
}
use renderer_service_upnp.Processor.Callbacks.{
  uint_mod, queue_free, remove_queue, arm, after_completion, delete_current, completed,
}
use renderer_service_upnp.Processor.Cancel.{
  async_cancelled, cancel_and_free_all, stopped, unsource, cancel_running, cancel_current,
  queue_cancel, reaches_cancelled,
}
use renderer_service_upnp.Processor.Sound.{Found, put-Found}
use renderer_service_upnp.Processor.Conserved.{IsConserved}

abbrev pub one_if : Option Atom → ℕ
one_if none = 0
one_if (some a) = 1

abbrev pub is_busy : Queue → ℕ
is_busy q = one_if q.current_task

-- How many queues have a current task.
abbrev pub busy : Processor → ℕ
busy s = total is_busy s.task_queues

-- How far `running_tasks` is ahead of the busy queues, modulo 2 ^ 32.
abbrev pub ahead : Processor → ℕ
ahead s = (s.running_tasks + (uint_mod - 1) * busy s) % uint_mod

pub busy-put :
    (k : Key) (q q' : Queue) (s : Processor)
    → Found k q s
    → busy (put k q' s) + is_busy q ≡ busy s + is_busy q'
unfolding put
busy-put k q q' s found = total-insert-some is_busy k q' q s.task_queues found

-- A queue that stays busy, or stays idle.
pub ahead-put :
    (k : Key) (q q' : Queue) (s : Processor)
    → Found k q s
    → is_busy q' ≡ is_busy q
    → ahead (put k q' s) ≡ ahead s
unfolding put
ahead-put k q q' s found same = omega (arith, total-insert-some is_busy k q' q s.task_queues found)

pub ahead-idle_add : (f : Source) (s : Processor) → ahead (idle_add f s) ≡ ahead s
unfolding idle_add
ahead-idle_add f s = refl

pub ahead-emit : (out : List _) (s : Processor) → ahead (emit out s) ≡ ahead s
unfolding emit
ahead-emit out s = refl

queue_free-ahead : (q : Queue) (s : Processor) → ahead (queue_free q s) ≡ ahead s
unfolding queue_free idle_add emit
queue_free-ahead q s = elim (Bool-cases q.has_finally) [ inl e ↦ rw e refl | inr e ↦ rw e refl ]

pub remove_queue-ahead :
    (k : Key) (q : Queue) (s : Processor)
    → Found k q s
    → q.current_task ≡ none
    → ahead (remove_queue k q s) ≡ ahead s
unfolding remove_queue
remove_queue-ahead k q s found e = omega (
  arith,
  queue_free-ahead q (record s { task_queues = remove k s.task_queues }),
  total-remove is_busy k q s.task_queues found,
  ap one_if e,
)

pub arm-ahead : (k : Key) (q : Queue) (s : Processor) → Found k q s → ahead (arm k q s) ≡ ahead s
unfolding arm put idle_add
arm-ahead k q s found =
    omega
      (arith, total-insert-some is_busy k (record q { idle_id = s.next_id }) q s.task_queues found)

after_completion-ahead :
    (k : Key) (q : Queue) (s : Processor)
    → Found k q s
    → q.current_task ≡ none
    → ahead (after_completion k q s) ≡ ahead s
unfolding after_completion idle_add
after_completion-ahead k q s found e =
    ground (arith, remove_queue-ahead k q s found e, arm-ahead k q s found)

-- The end of a task: one running task and one busy queue less.
pub completed-ahead :
    (k : Key) (q : Queue) (a : Atom) (s : Processor)
    → Found k q s
    → q.current_task ≡ some a
    → ahead (completed k q s) ≡ ahead s
unfolding completed emit put
completed-ahead k q a s found e =
    let q' = record q { current_task = none } in
    let counted = record s { running_tasks = (s.running_tasks + uint_mod - 1) % uint_mod } in
    let told = emit (delete_current q.current_task) counted in
    omega (
      arith,
      after_completion-ahead k q' (put k q' told) (put-Found k q' told) refl,
      total-insert-some is_busy k q' q s.task_queues found,
      ap one_if e,
    )

cancel_current-ahead :
    (k : Key) (q : Queue) (a : Atom) (s : Processor)
    → Found k q s
    → q.current_task ≡ some a
    → ahead (cancel_current k q a s) ≡ ahead s
unfolding cancel_current
cancel_current-ahead k q (client t) s found e =
    let told = emit (map task_effect (Task.cancel t).1) s in
    let q1 = record q { current_task = some (client (async_cancelled (Task.cancel t).0)) } in
    let q2 = record q { current_task = some (client (Task.cancel t).0) } in
    elim (Bool-cases (reaches_cancelled (Task.cancel t).0)) [
      | inl r ↦ rw r (
          ahead-idle_add (complete_on k) (put k q1 told)
          ∙ ahead-put k q q1 told (unfold emit in found) (rw e refl)
          ∙ ahead-emit _ s)
      | inr r ↦ rw r (ahead-put k q q2 told (unfold emit in found) (rw e refl) ∙ ahead-emit _ s)
    ]
cancel_current-ahead k q (service t) s found e = elim (Option-cases t.p_action) [
  | inl p ↦ rw p refl
  | inr (n, p) ↦
      let t' = record t { p_action = none } in
      let q' = record q { current_task = some (service t') } in
      let told = emit (cancel_action n ∷ []) s in
      simp p (
        completed-ahead k q' (service t') (put k q' told) (put-Found k q' told) refl
        ∙ ahead-put k q q' told (unfold emit in found) (rw e refl)
        ∙ ahead-emit _ s)
]

cancel_running-ahead :
    (k : Key) (q : Queue) (o : Option Atom) (s : Processor)
    → Found k q s
    → q.current_task ≡ o
    → ahead (cancel_running k q o s) ≡ ahead s
unfolding cancel_running
cancel_running-ahead k q (some a) s found e = cancel_current-ahead k q a s found e
cancel_running-ahead k q none s found e = elim (Bool-cases q.auto_remove) [
  | inl r ↦ simp r (remove_queue-ahead k q s found e)
  | inr r ↦ simp r
]

unsource-ahead : (q : Queue) (s : Processor) → ahead (unsource q s) ≡ ahead s
unfolding unsource source_remove
unsource-ahead q s = elim (Bool-cases (q.idle_id == 0)) [ inl e ↦ rw e refl | inr e ↦ rw e refl ]

unsource-tables : (q : Queue) (s : Processor) → (unsource q s).task_queues ≡ s.task_queues
unfolding unsource source_remove
unsource-tables q s = ground arith

pub queue_cancel-ahead :
    (k : Key) (q : Queue) (s : Processor) → Found k q s → ahead (queue_cancel k q s) ≡ ahead s
unfolding queue_cancel stopped
queue_cancel-ahead k q s found =
    let told = emit (cancel_and_free_all q.tasks) s in
    let quiet = unsource q told in
    cancel_running-ahead k (stopped q) q.current_task (put k (stopped q) quiet)
      (put-Found k (stopped q) quiet) refl
    ∙ ahead-put k q (stopped q) quiet
        (ap (lookup k) (unsource-tables q told) ∙ (unfold emit in found)) refl
    ∙ unsource-ahead q told
    ∙ ahead-emit _ s

pub ahead-IsConserved : IsConserved ahead
ahead-IsConserved = record {
  cancel_keeps = queue_cancel-ahead;
  remove_keeps = remove_queue-ahead;
  defer_keeps = λ k q b s found. ahead-put k q (record q { defer_remove = b }) s found refl;
  quit_keeps = λ s. refl;
  idle_keeps = ahead-idle_add;
}
