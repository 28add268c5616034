-- ===== src/Processor/Counted.antt =====
-- `running_tasks` counts the busy queues, over any sequence of events of the processor.
use renderer_service_upnp.Prelude.{
  String, some_inj, ℕ, ◌+◌, ◌%◌, ap, sym, ◌≡◌, refl, ◌≢◌, ◌∙◌, List, [], ◌∷◌, ◌++◌, Option, none,
  some, arith, true, false, Bool, nat_eq, string_eq, Bool-cases, inl, inr, map,
}
use renderer_service_upnp.Error.{Error}
use renderer_service_upnp.Dict.{lookup, total-insert-none, total-insert-some}
use renderer_service_upnp.Task.{Task}
use renderer_service_upnp.Task
use renderer_service_upnp.Task.Kinds.{TaskType, get_version, get_servers, raise, quit}
use renderer_service_upnp.Processor.State.{
  Key, key_eq, Atom, client, service, ServiceTask, Queue, Processor, processor_new, source_remove,
  emit, put, complete_on, task_effect, service_callback,
}
use renderer_service_upnp.Processor.Callbacks.{uint_mod}
use renderer_service_upnp.Processor.Cancel.{cancel_queue}
use renderer_service_upnp.Processor.Queues.{
  queue_new, add_queue, queue_start, add_task, enqueue, set_finally, set_user_data,
}
use renderer_service_upnp.Processor.Run.{
  answer_and_complete, process_sync_task, process_async_task, process_cb, start_first, process_task,
  async_task_complete, complete_current, begin_action_cb, action_done, simple_call_cb, call_done,
  async_outcome,
}
use renderer_service_upnp.Processor.Invariant.{IsSound}
use renderer_service_upnp.Processor.Sound.{Found, put-Found}
use renderer_service_upnp.Processor.Conserved.{
  set_quitting-keeps, remove_queues_for_source-keeps, remove_queues_for_sink-keeps,
}
use renderer_service_upnp.Processor.Busy.{
  one_if, is_busy, busy, ahead, ahead-put, ahead-idle_add, ahead-emit, arm-ahead, completed-ahead,
  queue_cancel-ahead, ahead-IsConserved,
}
use renderer_service_upnp.Processor.Reach.{
  Step, Reach, adds_queue, sets_finally, sets_user_data, adds_task, starts, processes, completes,
  runs_finally, runs_quit, call_ends, action_ends, cancels, loses_source, loses_sink, quits, new,
  after, found_inv, Reach-IsSound,
}

enqueue-ahead :
    (k : Key) (a : Atom) (q : Queue) (s : Processor)
    → Found k q s
    → ahead (enqueue k a q s) ≡ ahead s
unfolding enqueue
enqueue-ahead k a q s found =
    let q' = record q { tasks = q.tasks ++ a ∷ [] } in
    ground (arith, ahead-put k q q' s found refl, arm-ahead k q' (put k q' s) (put-Found k q' s))

answer-ahead :
    (k : Key) (q : Queue) (a : Atom) (r : Task × List Task.Effect) (s : Processor)
    → Found k q s
    → q.current_task ≡ some a
    → ahead (answer_and_complete k q r s) ≡ ahead s
unfolding answer_and_complete
answer-ahead k q a (t', out) s found e =
    let told = emit (map task_effect out) s in
    let q' = record q { current_task = some (client t') } in
    completed-ahead k q' (client t') (put k q' told) (put-Found k q' told) refl
    ∙ ahead-put k q q' told (unfold emit in found) (rw e refl)
    ∙ ahead-emit _ s

module _ (server_ids : List String) (upnp : Task → Task × Bool)
    (run_action : ServiceTask → Option ℕ × Bool) where
  sync-ahead :
      (k : Key) (q : Queue) (y : TaskType) (t : Task) (s : Processor)
      → Found k q s
      → q.current_task ≡ some (client t)
      → ahead (process_sync_task server_ids upnp run_action k q y t s) ≡ ahead s
  unfolding process_sync_task
  sync-ahead k q get_version t s found e = answer-ahead k q _ _ s found e
  sync-ahead k q get_servers t s found e = answer-ahead k q _ _ s found e
  sync-ahead k q raise t s found e = answer-ahead k q _ _ s found e
  sync-ahead k q quit t s found e = answer-ahead k q _ _ s found e
  sync-ahead k q _ t s found e = refl

  async-ahead :
      (k : Key) (q : Queue) (t : Task) (s : Processor)
      → Found k q s
      → q.current_task ≡ some (client t)
      → ahead (process_async_task server_ids upnp run_action k q t s) ≡ ahead s
  unfolding process_async_task
  async-ahead k q t s found e =
      let t' = record t { cancellable = true } in
      let q' = record q { current_task = some (client (upnp t').0) } in
      let same = ahead-put k q q' s found (rw e refl) in
      elim (Bool-cases (upnp t').1) [
        | inl c ↦ rw c (ahead-idle_add (complete_on k) (put k q' s) ∙ same)
        | inr c ↦ rw c same
      ]

  process_cb-ahead :
      (k : Key) (q : Queue) (a : Atom) (s : Processor)
      → Found k q s
      → q.current_task ≡ some a
      → ahead (process_cb server_ids upnp run_action k q a s) ≡ ahead s
  unfolding process_cb
  process_cb-ahead k q (client t) s found e = elim (Bool-cases t.synchronous) [
    | inl c ↦ simp c (sync-ahead k q t.type t s found e)
    | inr c ↦ simp c (async-ahead k q t s found e)
  ]
  process_cb-ahead k q (service t) s found e =
      let t' = record t { p_action = (run_action t).0 } in
      let q' = record q { current_task = some (service t') } in
      ground (
        arith,
        ahead-put k q q' s found (ap (λ (o : Option Atom). 1) e ∙ ap one_if (sym e)),
        queue_cancel-ahead k q' (put k q' s) (put-Found k q' s),
        completed-ahead k q' (service t') (put k q' s) (put-Found k q' s) refl,
      )

  -- The start of a task: one running task and one busy queue more.
  start_first-ahead :
      (k : Key) (q : Queue) (ts : List Atom) (s s' : Processor)
      → Found k q s
      → q.current_task ≡ none
      → start_first server_ids upnp run_action k q ts s ≡ some s'
      → ahead s' ≡ ahead s
  unfolding start_first put
  start_first-ahead k q [] s s' found idle h = cc
  start_first-ahead k q (a ∷ rest) s s' found idle h =
      let q' = record q { cancelled = false; idle_id = 0; current_task = some a; tasks = rest } in
      let counted = record s { running_tasks = (s.running_tasks + 1) % uint_mod } in
      omega (
        arith,
        ap ahead (some_inj h),
        process_cb-ahead k q' a (put k q' counted) (put-Found k q' counted) refl,
        total-insert-some is_busy k q' q s.task_queues found,
        ap one_if idle,
      )

  complete-ahead :
      (k : Key) (q : Queue) (o : Option Atom) (s s' : Processor)
      → Found k q s
      → q.current_task ≡ o
      → complete_current k q o s ≡ some s'
      → ahead s' ≡ ahead s
  unfolding complete_current
  complete-ahead k q none s s' found e h = cc
  complete-ahead k q (some (service t)) s s' found e h = cc
  complete-ahead k q (some (client t)) s s' found e h =
      ap ahead (sym (some_inj h)) ∙ answer-ahead k q (client t) (async_outcome t) s found e

  call_done-ahead :
      (k : Key) (q : Queue) (x : Option Error) (o : Option Atom) (s s' : Processor)
      → Found k q s
      → q.current_task ≡ o
      → call_done k q x o s ≡ some s'
      → ahead s' ≡ ahead s
  unfolding call_done
  call_done-ahead k q x none s s' found e h = cc
  call_done-ahead k q x (some (service t)) s s' found e h = cc
  call_done-ahead k q x (some (client t)) s s' found e h =
      let q' = record q {
        current_task = some (client (record t { error = x; connected = false }));
      } in
      ap ahead (sym (some_inj h))
      ∙ ahead-idle_add (complete_on k) (put k q' s)
      ∙ ahead-put k q q' s found (rw e refl)

  action_done-ahead :
      (k : Key) (q : Queue) (o : Option Atom) (s s' : Processor)
      → Found k q s
      → q.current_task ≡ o
      → action_done k q o s ≡ some s'
      → ahead s' ≡ ahead s
  unfolding action_done
  action_done-ahead k q none s s' found e h = cc
  action_done-ahead k q (some (client t)) s s' found e h = cc
  action_done-ahead k q (some (service t)) s s' found e h =
      let t' = record t { p_action = none } in
      let q' = record q { current_task = some (service t') } in
      let told = emit (service_callback t' ∷ []) s in
      ap ahead (sym (some_inj h))
      ∙ completed-ahead k q' (service t') (put k q' told) (put-Found k q' told) refl
      ∙ ahead-put k q q' told (unfold emit in found) (rw e refl)
      ∙ ahead-emit _ s

  add_queue-ahead :
      (k : Key) (start remove : Bool) (s : Processor)
      → lookup k s.task_queues ≡ none
      → ahead (add_queue k start remove s) ≡ ahead s
  unfolding add_queue put queue_new
  add_queue-ahead k start remove s missing =
      omega (arith, total-insert-none is_busy k (queue_new start remove) s.task_queues missing)

  pub Step-ahead :
      {s s' : Processor} → Step server_ids upnp run_action s s' → IsSound s → ahead s' ≡ ahead s
  unfolding set_finally set_user_data add_task queue_start process_task async_task_complete
      begin_action_cb simple_call_cb cancel_queue source_remove
  Step-ahead {s} (adds_queue k start remove missing) v = add_queue-ahead k start remove s missing
  Step-ahead {s} (sets_finally k h) v =
      let (q, found, e) = found_inv (lookup k s.task_queues) _ h in
      ap ahead (sym (some_inj e)) ∙ ahead-put k q (record q { has_finally = true }) s found refl
  Step-ahead {s} (sets_user_data k d h) v =
      let (q, found, e) = found_inv (lookup k s.task_queues) _ h in
      ap ahead (sym (some_inj e)) ∙ ahead-put k q (record q { user_data = d }) s found refl
  Step-ahead {s} (adds_task k a h) v =
      let (q, found, e) = found_inv (lookup k s.task_queues) _ h in
      ap ahead (sym (some_inj e)) ∙ enqueue-ahead k a q s found
  Step-ahead {s} (starts k r there some_task h) v =
      let (q, found, e) = found_inv (lookup k s.task_queues) _ h in
      ground (arith, ap ahead (some_inj e), arm-ahead k q s found)
  Step-ahead {s} (processes i k fires h) v =
      let (q, found, e) = found_inv (lookup k s.task_queues) _ h in
      let at_i : q.idle_id ≡ i = ground (arith, v.aimed i k fires) in
      let armed : q.idle_id ≢ 0 = λ z. ground (arith, v.zero_free) in
      start_first-ahead k q q.tasks (source_remove i s) _ found (v.ready k q found armed).free e
  Step-ahead {s} (completes i k fires h) v =
      let (q, found, e) = found_inv (lookup k s.task_queues) _ h in
      complete-ahead k q q.current_task (source_remove i s) _ found refl e
  Step-ahead {s} (runs_finally i c d fires) v = ahead-emit _ (source_remove i s)
  Step-ahead {s} (runs_quit i fires) v = ahead-emit _ (source_remove i s)
  Step-ahead {s} (call_ends k x h) v =
      let (q, found, e) = found_inv (lookup k s.task_queues) _ h in
      call_done-ahead k q x q.current_task s _ found refl e
  Step-ahead {s} (action_ends k h) v =
      let (q, found, e) = found_inv (lookup k s.task_queues) _ h in
      action_done-ahead k q q.current_task s _ found refl e
  Step-ahead {s} (cancels k h) v =
      let (q, found, e) = found_inv (lookup k s.task_queues) _ h in
      ap ahead (sym (some_inj e)) ∙ queue_cancel-ahead k q s found
  Step-ahead {s} (loses_source name) v =
      remove_queues_for_source-keeps ahead ahead-IsConserved name s v
  Step-ahead {s} (loses_sink name) v = remove_queues_for_sink-keeps ahead ahead-IsConserved name s v
  Step-ahead {s} quits v = set_quitting-keeps ahead ahead-IsConserved s v

  pub Reach-ahead : {s : Processor} → Reach server_ids upnp run_action s → ahead s ≡ 0
  unfolding processor_new
  Reach-ahead new = refl
  Reach-ahead (after r st) =
      Step-ahead st (Reach-IsSound server_ids upnp run_action r) ∙ Reach-ahead r

  -- In every state that a sequence of events leads to, `running_tasks` is the number of queues that
  -- have a current task, modulo 2 ^ 32.
  pub Reach-counted :
      {s : Processor}
      → Reach server_ids upnp run_action s
      → s.running_tasks % uint_mod ≡ busy s % uint_mod
  Reach-counted r = omega (arith, Reach-ahead r)
