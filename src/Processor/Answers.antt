-- ===== src/Processor/Answers.antt =====
-- Answers to D-Bus calls across the processor: a call is answered when its task pays what it owes,
-- and no operation loses a task or answers twice.
use renderer_service_upnp.Prelude.{
  ℕ, ◌+◌, ◌-◌, ◌%◌, ap, ◌≡◌, refl, ◌∙◌, List, [], ◌∷◌, ◌++◌, map, Option, none, some, arith, nat_eq,
  Option-cases, inl, inr,
}
use renderer_service_upnp.Dict.{lookup, remove, total, total-insert-some, total-remove}
use renderer_service_upnp.Task.{Task}
use renderer_service_upnp.Task
use renderer_service_upnp.Task.Replies.{replies, owes, is_reply, owes-cancel, owes-delete}
use renderer_service_upnp.Processor.State.{
  Key, key_eq, Atom, client, service, ServiceTask, Queue, Output, task_effect, cancel_action,
  Processor, idle_add, source_remove, emit, put,
}
use renderer_service_upnp.Processor.Callbacks.{
  uint_mod, delete_cb, delete_all, queue_free, remove_queue, arm, after_completion, delete_current,
  completed,
}
use renderer_service_upnp.Processor.Cancel.{
  async_cancelled, cancel_and_free, cancel_and_free_all, stopped, unsource, cancel_running,
  cancel_current, queue_cancel,
}
use renderer_service_upnp.Processor.Sound.{Found, put-Found}

module _ (n : ℕ) where
  abbrev pub out_reply : Output → ℕ
  out_reply (task_effect e) = is_reply n e
  out_reply _ = 0

  -- How many times call `n` has been answered in an output.
  abbrev pub out_replies : List Output → ℕ
  out_replies [] = 0
  out_replies (o ∷ os) = out_reply o + out_replies os

  abbrev pub atom_owes : Atom → ℕ
  atom_owes (client t) = owes n t
  atom_owes (service t) = 0

  abbrev pub all_owe : List Atom → ℕ
  all_owe [] = 0
  all_owe (a ∷ rest) = atom_owes a + all_owe rest

  abbrev pub current_owes : Option Atom → ℕ
  current_owes none = 0
  current_owes (some a) = atom_owes a

  abbrev pub queue_owes : Queue → ℕ
  queue_owes q = all_owe q.tasks + current_owes q.current_task

  -- The answers to call `n` given so far, and those still owed by tasks in the queues.
  abbrev pub balance : Processor → ℕ
  balance s = out_replies s.outputs + total queue_owes s.task_queues

  out_replies-append :
      (xs ys : List Output) → out_replies (xs ++ ys) ≡ out_replies xs + out_replies ys
  out_replies-append [] ys = omega arith
  out_replies-append (x ∷ xs) ys = omega (arith, out_replies-append xs ys)

  pub out_replies-map : (es : List Task.Effect) → out_replies (map task_effect es) ≡ replies n es
  out_replies-map [] = refl
  out_replies-map (e ∷ es) = omega (arith, out_replies-map es)

  pub all_owe-append : (xs ys : List Atom) → all_owe (xs ++ ys) ≡ all_owe xs + all_owe ys
  all_owe-append [] ys = omega arith
  all_owe-append (x ∷ xs) ys = omega (arith, all_owe-append xs ys)

  delete_cb-pays : (a : Atom) → out_replies (delete_cb a) ≡ atom_owes a
  unfolding delete_cb
  delete_cb-pays (client t) = out_replies-map (Task.delete t) ∙ owes-delete n t
  delete_cb-pays (service t) = ground arith

  delete_all-pays : (ts : List Atom) → out_replies (delete_all ts) ≡ all_owe ts
  unfolding delete_all
  delete_all-pays [] = refl
  delete_all-pays (a ∷ rest) = omega (
    arith,
    out_replies-append (delete_cb a) (delete_all rest),
    delete_cb-pays a,
    delete_all-pays rest,
  )

  delete_current-pays : (o : Option Atom) → out_replies (delete_current o) ≡ current_owes o
  unfolding delete_current
  delete_current-pays none = refl
  delete_current-pays (some a) = delete_cb-pays a

  cancel_and_free-pays : (a : Atom) → out_replies (cancel_and_free a) ≡ atom_owes a
  unfolding cancel_and_free
  cancel_and_free-pays (client t) = omega (
    arith,
    out_replies-append (map task_effect (Task.cancel t).1) (delete_cb (client (Task.cancel t).0)),
    out_replies-map (Task.cancel t).1,
    owes-cancel n t,
    delete_cb-pays (client (Task.cancel t).0),
  )
  cancel_and_free-pays (service t) = delete_cb-pays (service t)

  cancel_all-pays : (ts : List Atom) → out_replies (cancel_and_free_all ts) ≡ all_owe ts
  unfolding cancel_and_free_all
  cancel_all-pays [] = refl
  cancel_all-pays (a ∷ rest) = omega (
    arith,
    out_replies-append (cancel_and_free a) (cancel_and_free_all rest),
    cancel_and_free-pays a,
    cancel_all-pays rest,
  )

  pub balance-emit :
      (out : List Output) (s : Processor) → balance (emit out s) ≡ balance s + out_replies out
  unfolding emit
  balance-emit out s = omega (arith, out_replies-append s.outputs out)

  pub balance-put :
      (k : Key) (q q' : Queue) (s : Processor)
      → Found k q s
      → balance (put k q' s) + queue_owes q ≡ balance s + queue_owes q'
  unfolding put
  balance-put k q q' s found =
      omega (arith, total-insert-some queue_owes k q' q s.task_queues found)

  queue_free-balance :
      (q : Queue) (s : Processor) → balance (queue_free q s) ≡ balance s + all_owe q.tasks
  unfolding queue_free idle_add
  queue_free-balance q s =
      ground (arith, balance-emit (delete_all q.tasks) s, delete_all-pays q.tasks)

  -- A queue that runs nothing is taken out.
  pub remove_queue-balance :
      (k : Key) (q : Queue) (s : Processor)
      → Found k q s
      → q.current_task ≡ none
      → balance (remove_queue k q s) ≡ balance s
  unfolding remove_queue
  remove_queue-balance k q s found e = ground (
    arith,
    queue_free-balance q (record s { task_queues = remove k s.task_queues }),
    total-remove queue_owes k q s.task_queues found,
  )

  pub arm-balance :
      (k : Key) (q : Queue) (s : Processor) → Found k q s → balance (arm k q s) ≡ balance s
  unfolding arm put idle_add
  arm-balance k q s found = omega (
    arith,
    total-insert-some queue_owes k (record q { idle_id = s.next_id }) q s.task_queues found,
  )

  after_completion-balance :
      (k : Key) (q : Queue) (s : Processor)
      → Found k q s
      → q.current_task ≡ none
      → balance (after_completion k q s) ≡ balance s
  unfolding after_completion idle_add
  after_completion-balance k q s found e =
      ground (arith, remove_queue-balance k q s found e, arm-balance k q s found)

  pub completed-balance :
      (k : Key) (q : Queue) (s : Processor) → Found k q s → balance (completed k q s) ≡ balance s
  unfolding completed
  completed-balance k q s found =
      let q' = record q { current_task = none } in
      let counted = record s { running_tasks = (s.running_tasks + uint_mod - 1) % uint_mod } in
      let told = emit (delete_current q.current_task) counted in
      omega (
        arith,
        after_completion-balance k q' (put k q' told) (put-Found k q' told) refl,
        balance-put k q q' told (unfold emit in found),
        balance-emit (delete_current q.current_task) counted,
        delete_current-pays q.current_task,
      )

  async_cancelled-owes : (t : Task) → owes n (async_cancelled t) ≡ owes n t
  unfolding async_cancelled
  async_cancelled-owes t = refl

  service_cancelled :
      (k : Key) (q : Queue) (t : ServiceTask) (m : ℕ) (s : Processor)
      → Found k q s
      → q.current_task ≡ some (service t)
      → let q' = record q { current_task = some (service (record t { p_action = none })) } in
        balance (completed k q' (put k q' (emit (cancel_action m ∷ []) s))) ≡ balance s
  service_cancelled k q t m s found e =
      let q' = record q { current_task = some (service (record t { p_action = none })) } in
      let told = emit (cancel_action m ∷ []) s in
      omega (
        arith,
        completed-balance k q' (put k q' told) (put-Found k q' told),
        balance-put k q q' told (unfold emit in found),
        balance-emit (cancel_action m ∷ []) s,
        ap (current_owes) e,
      )

  -- The current task is told to stop, and answers if it has not.
  pub cancel_current-balance :
      (k : Key) (q : Queue) (a : Atom) (s : Processor)
      → Found k q s
      → q.current_task ≡ some a
      → balance (cancel_current k q a s) ≡ balance s
  unfolding cancel_current idle_add
  cancel_current-balance k q (client t) s found e =
      let out = map task_effect (Task.cancel t).1 in
      let told = emit out s in
      let q1 = record q { current_task = some (client (async_cancelled (Task.cancel t).0)) } in
      let q2 = record q { current_task = some (client (Task.cancel t).0) } in
      ground (
        arith,
        balance-put k q q1 told (unfold emit in found),
        balance-put k q q2 told (unfold emit in found),
        balance-emit out s,
        out_replies-map (Task.cancel t).1,
        owes-cancel n t,
        ap (current_owes) e,
        async_cancelled-owes (Task.cancel t).0,
      )
  cancel_current-balance k q (service t) s found e = elim (Option-cases t.p_action) [
    | inl p ↦ simp p
    | inr (m, p) ↦ simp p (service_cancelled k q t m s found e)
  ]

  cancel_running-balance :
      (k : Key) (q : Queue) (o : Option Atom) (s : Processor)
      → Found k q s
      → q.current_task ≡ o
      → balance (cancel_running k q o s) ≡ balance s
  unfolding cancel_running
  cancel_running-balance k q (some a) s found e = cancel_current-balance k q a s found e
  cancel_running-balance k q none s found e = ground (arith, remove_queue-balance k q s found e)

  unsource-balance : (q : Queue) (s : Processor) → balance (unsource q s) ≡ balance s
  unfolding unsource source_remove
  unsource-balance q s = ground arith

  unsource-tables : (q : Queue) (s : Processor) → (unsource q s).task_queues ≡ s.task_queues
  unfolding unsource source_remove
  unsource-tables q s = ground arith

  stopped-owes : (q : Queue) → queue_owes (stopped q) ≡ current_owes q.current_task
  unfolding stopped
  stopped-owes q = omega arith

  -- The waiting tasks answer as they are deleted.
  pub queue_cancel-balance :
      (k : Key) (q : Queue) (s : Processor) → Found k q s → balance (queue_cancel k q s) ≡ balance s
  unfolding queue_cancel
  queue_cancel-balance k q s found =
      let told = emit (cancel_and_free_all q.tasks) s in
      let quiet = unsource q told in
      omega (
        arith,
        cancel_running-balance k (stopped q) q.current_task (put k (stopped q) quiet)
            (put-Found k (stopped q) quiet) (unfold stopped in refl),
        balance-put k q (stopped q) quiet
            (ap (lookup k) (unsource-tables q told) ∙ (unfold emit in found)),
        stopped-owes q,
        unsource-balance q told,
        balance-emit (cancel_and_free_all q.tasks) s,
        cancel_all-pays q.tasks,
      )
