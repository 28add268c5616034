-- ===== src/Processor/Stall.antt =====
-- A service task whose action fails: rsu_service_task_process_cb of src/service-task.c cancels its
-- queue, but prv_task_queue_cancel leaves a queue with a current task to that task's completion,
-- and rsu_service_task_cancel_cb completes only a task that has a call in flight.
use renderer_service_upnp.Prelude.{
  String, ℕ, ◌+◌, ◌%◌, ◌≡◌, refl, sym, subst, List, [], ◌∷◌, Option, none, some, arith, true, Bool,
  nat_eq,
}
use renderer_service_upnp.Task.{Task}
use renderer_service_upnp.Processor.State.{
  Key, key_eq, Atom, service, ServiceTask, Queue, Processor, source_remove, emit, put,
}
use renderer_service_upnp.Processor.Callbacks.{uint_mod}
use renderer_service_upnp.Processor.Cancel.{
  stopped, unsource, cancel_and_free_all, cancel_running, cancel_current, queue_cancel,
}
use renderer_service_upnp.Processor.Run.{process_cb, start_first}
use renderer_service_upnp.Processor.Sound.{Found, put-Found}

-- A queue that runs a service task with no call in flight, and has nothing else.
pub record IsStalled (t : ServiceTask) (q : Queue) : Type 0 where
  pub running : q.current_task ≡ some (service t)
  pub no_call : t.p_action ≡ none
  pub nothing_waits : q.tasks ≡ []
  pub no_source : q.idle_id ≡ 0

-- A queue under `k` is stalled, and `n` tasks run.
abbrev pub StalledAt : Key → ServiceTask → ℕ → Processor → Type 0
StalledAt k t n s = (q : Queue) × Found k q s × IsStalled t q × (s.running_tasks ≡ n)

unsource_running : (q : Queue) (s : Processor) → (unsource q s).running_tasks ≡ s.running_tasks
unfolding unsource source_remove
unsource_running q s = ground arith

cancel_running_idle :
    (k : Key) (q : Queue) (t : ServiceTask) (o : Option Atom) (s : Processor)
    → o ≡ some (service t)
    → t.p_action ≡ none
    → cancel_running k q o s ≡ s
unfolding cancel_running cancel_current
cancel_running_idle k q t o s e idle = ground arith

-- Cancelling a queue whose current task is a service task with no call in flight leaves it in the
-- table with that task still current, nothing waiting, no source and no call in flight, and with as
-- many tasks counted as running as before.
queue_cancel-StalledAt :
    (k : Key) (t : ServiceTask) (q : Queue) (s : Processor)
    → q.current_task ≡ some (service t)
    → t.p_action ≡ none
    → StalledAt k t s.running_tasks (queue_cancel k q s)
unfolding queue_cancel stopped
queue_cancel-StalledAt k t q s e idle =
    let told = emit (cancel_and_free_all q.tasks) s in
    let quiet = put k (stopped q) (unsource q told) in
    subst (StalledAt k t s.running_tasks) (sym (cancel_running_idle k (stopped q) t _ quiet e idle))
      (
        stopped q,
        put-Found k (stopped q) (unsource q told),
        record { running = e; no_call = idle; nothing_waits = refl; no_source = refl },
        unfold put emit in unsource_running q told,
      )

module _ (server_ids : List String) (upnp : Task → Task × Bool)
    (run_action : ServiceTask → Option ℕ × Bool) where
  -- When the action of a service task fails, with no call started, its queue stays in the table with
  -- that task as its current one, nothing waiting, no source and no call in flight, and the task
  -- counted as running.
  pub failed_action-StalledAt :
      (k : Key) (q : Queue) (t : ServiceTask) (rest : List Atom) (s : Processor)
      → run_action t ≡ (none, true)
      → (s' : Processor) × (start_first server_ids upnp run_action k q (service t ∷ rest) s
          ≡ some s')
        × StalledAt k (record t { p_action = none }) ((s.running_tasks + 1) % uint_mod) s'
  unfolding start_first process_cb put
  failed_action-StalledAt k q t rest s fails =
      (_, refl, rw fails (queue_cancel-StalledAt k (record t { p_action = none }) _ _ refl refl))
