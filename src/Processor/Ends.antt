-- ===== src/Processor/Ends.antt =====
-- The quit callback of a processor that quits, where a task starts, ends or is added.
use renderer_service_upnp.Prelude.{
  String, some_inj, ℕ, ◌+◌, ◌%◌, ap, sym, subst, ◌≡◌, refl, ◌∙◌, List, [], ◌∷◌, ◌++◌, Option, none,
  some, arith, true, false, Bool, nat_eq, ◌&&◌, Bool-cases, inl, inr, map,
}
use renderer_service_upnp.Error.{Error}
use renderer_service_upnp.Dict.{lookup, total-insert-none}
use renderer_service_upnp.Task.{Task}
use renderer_service_upnp.Task
use renderer_service_upnp.Task.Kinds.{TaskType, get_version, get_servers, raise, quit}
use renderer_service_upnp.Processor.State.{
  Key, key_eq, Atom, client, service, ServiceTask, Queue, Processor, idle_add, emit, put,
  complete_on, task_effect, service_callback,
}
use renderer_service_upnp.Processor.Callbacks.{uint_mod, completed}
use renderer_service_upnp.Processor.Queues.{queue_new, add_queue, enqueue, is_quiet}
use renderer_service_upnp.Processor.Run.{
  answer_and_complete, process_sync_task, process_async_task, process_cb, start_first,
  complete_current, action_done, call_done, async_outcome,
}
use renderer_service_upnp.Processor.Sound.{Found, put-Found}
use renderer_service_upnp.Processor.Busy.{one_if, is_busy, busy, ahead, busy-put, ahead-IsConserved}
use renderer_service_upnp.Processor.Kept.{IsKept}
use renderer_service_upnp.Processor.Quitting.{
  Quits, pending, IsWell, Leads-trans, put-Leads, count-Leads,
}
use renderer_service_upnp.Processor.Lively.{
  Lively, Steady, Steady-refl, Steady-trans, Steady-Lively, Steady-led, busy-led, if-Steady,
  if-Lively, armed-IsOwn, completed-Lively, idle_add-Steady, put-Steady, told-Steady,
  remove_queue-Steady, arm-Steady, queue_cancel-Lively,
}

pub enqueue-Steady :
    (k : Key) (a : Atom) (q : Queue) (s : Processor) → Found k q s → Steady s (enqueue k a q s)
unfolding enqueue
enqueue-Steady k a q s found =
    let q' = record q { tasks = q.tasks ++ a ∷ [] } in
    let first = put-Steady k q q' s found refl in
    if-Steady q.defer_remove s _ _ first (
      if-Steady (q.auto_start && is_quiet q') s _ _
        (Steady-trans first (arm-Steady k q' (put k q' s) (put-Found k q' s))) first)

answer-Lively :
    (k : Key) (q : Queue) (a : Atom) (r : Task × List Task.Effect) (s : Processor)
    → Found k q s
    → q.current_task ≡ some a
    → Lively s (answer_and_complete k q r s)
unfolding answer_and_complete
answer-Lively k q a (t', out) s found e =
    let q' = record q { current_task = some (client t') } in
    Steady-led (told-Steady (map task_effect out) k q q' s found (rw e refl))
      (completed-Lively k q' (put k q' (emit (map task_effect out) s)))

module _ (server_ids : List String) (upnp : Task → Task × Bool)
    (run_action : ServiceTask → Option ℕ × Bool) where
  sync-Lively :
      (k : Key) (q : Queue) (y : TaskType) (t : Task) (s : Processor)
      → Found k q s
      → q.current_task ≡ some (client t)
      → Lively s (process_sync_task server_ids upnp run_action k q y t s)
  unfolding process_sync_task
  sync-Lively k q get_version t s found e = answer-Lively k q _ _ s found e
  sync-Lively k q get_servers t s found e = answer-Lively k q _ _ s found e
  sync-Lively k q raise t s found e = answer-Lively k q _ _ s found e
  sync-Lively k q quit t s found e = answer-Lively k q _ _ s found e
  sync-Lively k q _ t s found e = Steady-Lively (Steady-refl s)

  async-Steady :
      (k : Key) (q : Queue) (t : Task) (s : Processor)
      → Found k q s
      → q.current_task ≡ some (client t)
      → Steady s (process_async_task server_ids upnp run_action k q t s)
  unfolding process_async_task
  async-Steady k q t s found e =
      let t' = record t { cancellable = true } in
      let q' = record q { current_task = some (client (upnp t').0) } in
      let same = put-Steady k q q' s found (rw e refl) in
      elim (Bool-cases (upnp t').1) [
        | inl c ↦ rw c (Steady-trans same (idle_add-Steady (complete_on k) (put k q' s)))
        | inr c ↦ rw c same
      ]

  after_action-Lively :
      (k : Key) (q : Queue) (o : Option ℕ) (s : Processor)
      → Lively s (elim o [ none ↦ completed k q s | some n ↦ s ])
  after_action-Lively k q none s = completed-Lively k q s
  after_action-Lively k q (some n) s = Steady-Lively (Steady-refl s)

  process_cb-Lively :
      (k : Key) (q : Queue) (a : Atom) (s : Processor)
      → Found k q s
      → q.current_task ≡ some a
      → q.idle_id ≡ 0
      → Lively s (process_cb server_ids upnp run_action k q a s)
  unfolding process_cb
  process_cb-Lively k q (client t) s found e off =
      if-Lively t.synchronous s _ _ (sync-Lively k q t.type t s found e)
        (Steady-Lively (async-Steady k q t s found e))
  process_cb-Lively k q (service t) s found e off =
      let t' = record t { p_action = (run_action t).0 } in
      let q' = record q { current_task = some (service t') } in
      let s1 = put k q' s in
      let same = put-Steady k q q' s found (rw e refl) in
      if-Lively (run_action t).1 s _ _
        (Steady-led same (queue_cancel-Lively k q' s1 (put-Found k q' s) (λ n. absurd (n off))))
        (Steady-led same (after_action-Lively k q' (run_action t).0 s1))

  -- A task that starts makes its queue busy.
  pub start_first-Lively :
      (k : Key) (q : Queue) (ts : List Atom) (s s' : Processor)
      → Found k q s
      → q.current_task ≡ none
      → start_first server_ids upnp run_action k q ts s ≡ some s'
      → Lively s s'
  unfolding start_first
  start_first-Lively k q [] s s' found idle h = cc
  start_first-Lively k q (a ∷ rest) s s' found idle h =
      let q' = record q { cancelled = false; idle_id = 0; current_task = some a; tasks = rest } in
      let counted = record s { running_tasks = (s.running_tasks + 1) % uint_mod } in
      let starts =
        Leads-trans (count-Leads ((s.running_tasks + 1) % uint_mod) s (omega arith))
          (put-Leads k q' counted) in
      subst (Lively s) (some_inj h) (
        busy-led starts (λ z. omega (arith, busy-put k q q' counted found, ap one_if idle, z))
          (process_cb-Lively k q' a (put k q' counted) (put-Found k q' counted) refl refl))

  pub complete-Lively :
      (k : Key) (q : Queue) (o : Option Atom) (s s' : Processor)
      → Found k q s
      → q.current_task ≡ o
      → complete_current k q o s ≡ some s'
      → Lively s s'
  unfolding complete_current
  complete-Lively k q none s s' found e h = cc
  complete-Lively k q (some (service t)) s s' found e h = cc
  complete-Lively k q (some (client t)) s s' found e h =
      subst (Lively s) (some_inj h) (answer-Lively k q (client t) (async_outcome t) s found e)

  pub call_done-Lively :
      (k : Key) (q : Queue) (x : Option Error) (o : Option Atom) (s s' : Processor)
      → Found k q s
      → q.current_task ≡ o
      → call_done k q x o s ≡ some s'
      → Lively s s'
  unfolding call_done
  call_done-Lively k q x none s s' found e h = cc
  call_done-Lively k q x (some (service t)) s s' found e h = cc
  call_done-Lively k q x (some (client t)) s s' found e h =
      let q' = record q {
        current_task = some (client (record t { error = x; connected = false }));
      } in
      subst (Lively s) (some_inj h) (
        Steady-Lively (
          Steady-trans (put-Steady k q q' s found (rw e refl)) (idle_add-Steady (complete_on k) _)))

  pub action_done-Lively :
      (k : Key) (q : Queue) (o : Option Atom) (s s' : Processor)
      → Found k q s
      → q.current_task ≡ o
      → action_done k q o s ≡ some s'
      → Lively s s'
  unfolding action_done
  action_done-Lively k q none s s' found e h = cc
  action_done-Lively k q (some (client t)) s s' found e h = cc
  action_done-Lively k q (some (service t)) s s' found e h =
      let t' = record t { p_action = none } in
      let q' = record q { current_task = some (service t') } in
      subst (Lively s) (some_inj h) (
        Steady-led (told-Steady (service_callback t' ∷ []) k q q' s found (rw e refl))
          (completed-Lively k q' _))

  pub add_queue-Steady :
      (k : Key) (start remove : Bool) (s : Processor)
      → lookup k s.task_queues ≡ none
      → Steady s (add_queue k start remove s)
  unfolding add_queue put queue_new
  add_queue-Steady k start remove s missing = record {
    leads = unfold put in put-Leads k (queue_new start remove) s;
    same_busy =
        omega (arith, total-insert-none is_busy k (queue_new start remove) s.task_queues missing);
  }

-- What holds of a processor's counter and its quit callback.
pub record IsLive (s : Processor) : Type 0 where
  pub well : IsWell s
  pub counted : ahead s ≡ 0
  pub quits_idle : s.quitting ≡ true → busy s ≡ 0 → Quits s

pub Lively-IsLive : {s s' : Processor} → Lively s s' → ahead s' ≡ ahead s → IsLive s → IsLive s'
Lively-IsLive w e l = record {
  well = w.leads.well l.well;
  counted = e ∙ l.counted;
  quits_idle = λ t z. elim (w.ends t (e ∙ l.counted) z) [
    | inl y ↦ y
    | inr y ↦ w.leads.kept l.well (l.quits_idle (sym w.leads.same_quitting ∙ t) y)
  ];
}

pub IsLive-IsKept : IsKept IsLive
unfolding idle_add
IsLive-IsKept = record {
  spared = record {
    cancel_keeps = λ k q s found v l.
        Lively-IsLive (queue_cancel-Lively k q s found (armed-IsOwn k q s found v))
          (ahead-IsConserved.cancel_keeps k q s found) l;
    remove_keeps = λ k q s found idle l.
        Lively-IsLive (Steady-Lively (remove_queue-Steady k q s found idle))
          (ahead-IsConserved.remove_keeps k q s found idle) l;
    defer_keeps = λ k q b s found l.
        Lively-IsLive (Steady-Lively (put-Steady k q (record q { defer_remove = b }) s found refl))
          (ahead-IsConserved.defer_keeps k q b s found) l;
  };
  quit_running_keeps = λ s h l. record {
    well = record { fresh = l.well.fresh; small = l.well.small };
    counted = l.counted;
    quits_idle = λ t z. absurd (ground (arith, l.counted, l.well.small));
  };
  quit_idle_keeps = λ s h l. record {
    well = record { fresh = λ i g. ground (arith, l.well.fresh i); small = l.well.small };
    counted = l.counted;
    quits_idle = λ t z. pending s.next_id (ground arith);
  };
}
