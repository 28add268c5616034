-- ===== src/Processor/Running.antt =====
-- Running a task, and its end, leave the answers given and owed as many as they were.
use renderer_service_upnp.Prelude.{
  String, some_inj, ℕ, ◌+◌, ◌%◌, ap, sym, ◌≡◌, refl, ◌∙◌, List, [], ◌∷◌, map, Option, none, some,
  arith, true, false, Bool, nat_eq, string_eq,
}
use renderer_service_upnp.Error.{Error, not_supported}
use renderer_service_upnp.Dict.{lookup, total-insert-none}
use renderer_service_upnp.Task.{Task}
use renderer_service_upnp.Task
use renderer_service_upnp.Task.Kinds.{TaskType, strings, get_version, get_servers, raise, quit}
use renderer_service_upnp.Task.Replies.{replies, owes, owed_to, owes-complete, owes-fail}
use renderer_service_upnp.Processor.State.{
  Key, key_eq, Atom, client, service, ServiceTask, Queue, task_effect, service_callback, Processor,
  idle_add, emit, put,
}
use renderer_service_upnp.Processor.Callbacks.{uint_mod}
use renderer_service_upnp.Processor.Queues.{queue_new, add_queue}
use renderer_service_upnp.Processor.Run.{
  answer_and_complete, process_sync_task, process_async_task, process_cb, start_first,
  async_outcome, complete_current, action_done, call_done,
}
use renderer_service_upnp.Processor.Sound.{Found, put-Found}
use renderer_service_upnp.Processor.Answers.{
  all_owe, current_owes, queue_owes, balance, out_replies-map, balance-emit, balance-put,
  completed-balance, queue_cancel-balance,
}

module _ (n : ℕ) where
  -- The current task answers, and is completed.
  pub answer-balance :
      (k : Key) (q : Queue) (t u : Task) (r : Task × List Task.Effect) (s : Processor)
      → Found k q s
      → q.current_task ≡ some (client t)
      → replies n r.1 + owes n r.0 ≡ owes n t
      → balance n (answer_and_complete k q r s) ≡ balance n s
  unfolding answer_and_complete
  answer-balance k q t u (t', out) s found e pays =
      let told = emit (map task_effect out) s in
      let q' = record q { current_task = some (client t') } in
      omega (
        arith,
        completed-balance n k q' (put k q' told) (put-Found k q' told),
        balance-put n k q q' told (unfold emit in found),
        balance-emit n (map task_effect out) s,
        out_replies-map n out,
        ap (current_owes n) e,
      )

  module _ (server_ids : List String) (upnp : Task → Task × Bool)
      (run_action : ServiceTask → Option ℕ × Bool)
      (keeps : (t : Task) → (upnp t).0.invocation ≡ t.invocation) where
    pub sync-balance :
        (k : Key) (q : Queue) (y : TaskType) (t : Task) (s : Processor)
        → Found k q s
        → q.current_task ≡ some (client t)
        → balance n (process_sync_task server_ids upnp run_action k q y t s) ≡ balance n s
    unfolding process_sync_task
    sync-balance k q get_version t s found e =
        answer-balance k q t t _ s found e (owes-complete n t)
    sync-balance k q get_servers t s found e =
        answer-balance k q t t _ s found e
          (owes-complete n (record t { result = some (strings server_ids) }))
    sync-balance k q raise t s found e =
        answer-balance k q t t _ s found e (owes-fail n t not_supported)
    sync-balance k q quit t s found e =
        answer-balance k q t t _ s found e (owes-fail n t not_supported)
    sync-balance k q _ t s found e = refl

    pub async-balance :
        (k : Key) (q : Queue) (t : Task) (s : Processor)
        → Found k q s
        → q.current_task ≡ some (client t)
        → balance n (process_async_task server_ids upnp run_action k q t s) ≡ balance n s
    unfolding process_async_task idle_add
    async-balance k q t s found e =
        let t' = record t { cancellable = true } in
        let q' = record q { current_task = some (client (upnp t').0) } in
        ground
          (arith, balance-put n k q q' s found, ap (current_owes n) e, ap (owed_to n) (keeps t'))

    pub service-balance :
        (k : Key) (q : Queue) (t : ServiceTask) (s : Processor)
        → Found k q s
        → q.current_task ≡ some (service t)
        → balance n (process_cb server_ids upnp run_action k q (service t) s) ≡ balance n s
    unfolding process_cb
    service-balance k q t s found e =
        let t' = record t { p_action = (run_action t).0 } in
        let q' = record q { current_task = some (service t') } in
        ground (
          arith,
          balance-put n k q q' s found,
          ap (current_owes n) e,
          queue_cancel-balance n k q' (put k q' s) (put-Found k q' s),
          completed-balance n k q' (put k q' s) (put-Found k q' s),
        )

    pub process_cb-balance :
        (k : Key) (q : Queue) (a : Atom) (s : Processor)
        → Found k q s
        → q.current_task ≡ some a
        → balance n (process_cb server_ids upnp run_action k q a s) ≡ balance n s
    unfolding process_cb
    process_cb-balance k q (client t) s found e =
        ground (arith, sync-balance k q t.type t s found e, async-balance k q t s found e)
    process_cb-balance k q (service t) s found e = service-balance k q t s found e

    pub add_queue-balance :
        (k : Key) (start remove : Bool) (s : Processor)
        → lookup k s.task_queues ≡ none
        → balance n (add_queue k start remove s) ≡ balance n s + 0
    unfolding add_queue put
    add_queue-balance k start remove s missing =
        omega
          (arith, total-insert-none (queue_owes n) k (queue_new start remove) s.task_queues missing)

    pub start_first-balance :
        (k : Key) (q : Queue) (ts : List Atom) (s s' : Processor)
        → q.tasks ≡ ts
        → Found k q s
        → q.current_task ≡ none
        → start_first server_ids upnp run_action k q ts s ≡ some s'
        → balance n s' ≡ balance n s
    unfolding start_first
    start_first-balance k q [] s s' e found idle h = cc
    start_first-balance k q (a ∷ rest) s s' e found idle h =
        let q' = record q { cancelled = false; idle_id = 0; current_task = some a; tasks = rest } in
        let counted = record s { running_tasks = (s.running_tasks + 1) % uint_mod } in
        omega (
          arith,
          ap (balance n) (some_inj h),
          process_cb-balance k q' a (put k q' counted) (put-Found k q' counted) refl,
          balance-put n k q q' counted found,
          ap (current_owes n) idle,
          ap (all_owe n) e,
        )

    outcome_pays :
        (t : Task) → replies n (async_outcome t).1 + owes n (async_outcome t).0 ≡ owes n t
    unfolding async_outcome
    outcome_pays t = grind (arith, owes-complete, owes-fail)

    pub complete-balance :
        (k : Key) (q : Queue) (o : Option Atom) (s s' : Processor)
        → Found k q s
        → q.current_task ≡ o
        → complete_current k q o s ≡ some s'
        → balance n s' ≡ balance n s
    unfolding complete_current
    complete-balance k q none s s' found e h = cc
    complete-balance k q (some (service t)) s s' found e h = cc
    complete-balance k q (some (client t)) s s' found e h =
        ap (balance n) (sym (some_inj h))
        ∙ answer-balance k q t t (async_outcome t) s found e (outcome_pays t)

    pub call_done-balance :
        (k : Key) (q : Queue) (x : Option Error) (o : Option Atom) (s s' : Processor)
        → Found k q s
        → q.current_task ≡ o
        → call_done k q x o s ≡ some s'
        → balance n s' ≡ balance n s
    unfolding call_done idle_add
    call_done-balance k q x none s s' found e h = cc
    call_done-balance k q x (some (service t)) s s' found e h = cc
    call_done-balance k q x (some (client t)) s s' found e h =
        let q' = record q {
          current_task = some (client (record t { error = x; connected = false }));
        } in
        omega
          (arith, ap (balance n) (some_inj h), balance-put n k q q' s found, ap (current_owes n) e)

    pub action_done-balance :
        (k : Key) (q : Queue) (o : Option Atom) (s s' : Processor)
        → Found k q s
        → q.current_task ≡ o
        → action_done k q o s ≡ some s'
        → balance n s' ≡ balance n s
    unfolding action_done
    action_done-balance k q none s s' found e h = cc
    action_done-balance k q (some (client t)) s s' found e h = cc
    action_done-balance k q (some (service t)) s s' found e h =
        let t' = record t { p_action = none } in
        let q' = record q { current_task = some (service t') } in
        let told = emit (service_callback t' ∷ []) s in
        omega (
          arith,
          ap (balance n) (some_inj h),
          completed-balance n k q' (put k q' told) (put-Found k q' told),
          balance-put n k q q' told (unfold emit in found),
          balance-emit n (service_callback t' ∷ []) s,
          ap (current_owes n) e,
        )
