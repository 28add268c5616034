-- ===== src/Processor/Quits.antt =====
-- A processor that was told to quit quits when nothing runs, over any sequence of events.
use renderer_service_upnp.Prelude.{
  String, some_inj, ℕ, subst, sym, ◌≡◌, ◌≢◌, refl, ◌∙◌, List, [], ◌∷◌, Option, some, arith, true,
  Bool, nat_eq, ◌&&◌, not,
}
use renderer_service_upnp.Dict.{lookup}
use renderer_service_upnp.Task.{Task}
use renderer_service_upnp.Processor.State.{
  Key, key_eq, ServiceTask, Queue, Processor, processor_new, source_remove, emit, put, process_on,
  complete_on, on_quit, run_finally, finally_of, Source,
}
use renderer_service_upnp.Processor.State
use renderer_service_upnp.Processor.Cancel.{cancel_queue}
use renderer_service_upnp.Processor.Queues.{
  queue_start, add_task, set_finally, set_user_data, is_quiet,
}
use renderer_service_upnp.Processor.Run.{
  process_task, async_task_complete, begin_action_cb, simple_call_cb,
}
use renderer_service_upnp.Processor.Invariant.{IsSound}
use renderer_service_upnp.Processor.Busy.{busy}
use renderer_service_upnp.Processor.Kept.{
  set_quitting-kept, remove_queues_for_source-kept, remove_queues_for_sink-kept,
}
use renderer_service_upnp.Processor.Counted.{Step-ahead}
use renderer_service_upnp.Processor.Quitting.{Quits, ran, source_remove-Leads, has_quit-append}
use renderer_service_upnp.Processor.Lively.{
  Lively, Steady, Steady-refl, Steady-trans, Steady-Lively, Steady-led, emit-Steady, put-Steady,
  arm-Steady, queue_cancel-Lively, armed-IsOwn, if-Steady,
}
use renderer_service_upnp.Processor.Ends.{
  enqueue-Steady, start_first-Lively, complete-Lively, call_done-Lively, action_done-Lively,
  add_queue-Steady, IsLive, Lively-IsLive, IsLive-IsKept,
}
use renderer_service_upnp.Processor.Reach.{
  Step, Reach, adds_queue, sets_finally, sets_user_data, adds_task, starts, processes, completes,
  runs_finally, runs_quit, call_ends, action_ends, cancels, loses_source, loses_sink, quits, new,
  after, found_inv, Reach-IsSound,
}

-- A source that fires and is not the quit callback.
fires-Steady :
    (i : ℕ) (f : Source) (s : Processor)
    → s.sources i ≡ some f
    → f ≢ on_quit
    → Steady s (source_remove i s)
unfolding source_remove
fires-Steady i f s fires other = record {
  leads = unfold source_remove in source_remove-Leads i s (λ e. other (some_inj (sym fires ∙ e)));
  same_busy = refl;
}

runs_quit-IsLive :
    (i : ℕ) (s : Processor) → IsLive s → IsLive (emit (State.quit ∷ []) (source_remove i s))
unfolding emit source_remove
runs_quit-IsLive i s l = record {
  well = record { fresh = λ j h. ground (arith, l.well.fresh j); small = l.well.small };
  counted = l.counted;
  quits_idle = λ t z. ran (ground (arith, has_quit-append s.outputs (State.quit ∷ [])));
}

module _ (server_ids : List String) (upnp : Task → Task × Bool)
    (run_action : ServiceTask → Option ℕ × Bool) where
  Step-IsLive :
      {s s' : Processor} → Step server_ids upnp run_action s s' → IsSound s → IsLive s → IsLive s'
  unfolding set_finally set_user_data add_task queue_start process_task async_task_complete
      begin_action_cb simple_call_cb cancel_queue source_remove
  Step-IsLive {s} (adds_queue k start remove missing) v l =
      Lively-IsLive
        (Steady-Lively (add_queue-Steady server_ids upnp run_action k start remove s missing))
        (Step-ahead server_ids upnp run_action (adds_queue k start remove missing) v) l
  Step-IsLive {s} (sets_finally {s'} k h) v l =
      let (q, found, e) = found_inv (lookup k s.task_queues) _ h in
      let w = put-Steady k q (record q { has_finally = true }) s found refl in
      Lively-IsLive (subst (Lively s) (some_inj e) (Steady-Lively w))
        (Step-ahead server_ids upnp run_action (sets_finally k h) v) l
  Step-IsLive {s} (sets_user_data k d h) v l =
      let (q, found, e) = found_inv (lookup k s.task_queues) _ h in
      let w = put-Steady k q (record q { user_data = d }) s found refl in
      Lively-IsLive (subst (Lively s) (some_inj e) (Steady-Lively w))
        (Step-ahead server_ids upnp run_action (sets_user_data k d h) v) l
  Step-IsLive {s} (adds_task k a h) v l =
      let (q, found, e) = found_inv (lookup k s.task_queues) _ h in
      Lively-IsLive (subst (Lively s) (some_inj e) (Steady-Lively (enqueue-Steady k a q s found)))
        (Step-ahead server_ids upnp run_action (adds_task k a h) v) l
  Step-IsLive {s} (starts k r there some_task h) v l =
      let (q, found, e) = found_inv (lookup k s.task_queues) _ h in
      let w =
        if-Steady (not q.defer_remove && is_quiet q) s _ _ (arm-Steady k q s found)
          (Steady-refl s) in
      Lively-IsLive (subst (Lively s) (some_inj e) (Steady-Lively w))
        (Step-ahead server_ids upnp run_action (starts k r there some_task h) v) l
  Step-IsLive {s} (processes i k fires h) v l =
      let (q, found, e) = found_inv (lookup k s.task_queues) _ h in
      let at_i : q.idle_id ≡ i = ground (arith, v.aimed i k fires) in
      let armed : q.idle_id ≢ 0 = λ z. ground (arith, v.zero_free) in
      Lively-IsLive
        (Steady-led (fires-Steady i (process_on k) s fires (λ p. cc)) (
          start_first-Lively server_ids upnp run_action k q q.tasks (source_remove i s) _ found
            (v.ready k q found armed).free e))
        (Step-ahead server_ids upnp run_action (processes i k fires h) v) l
  Step-IsLive {s} (completes i k fires h) v l =
      let (q, found, e) = found_inv (lookup k s.task_queues) _ h in
      Lively-IsLive
        (Steady-led (fires-Steady i (complete_on k) s fires (λ p. cc)) (
          complete-Lively server_ids upnp run_action k q q.current_task (source_remove i s) _ found
            refl e))
        (Step-ahead server_ids upnp run_action (completes i k fires h) v) l
  Step-IsLive {s} (runs_finally i c d fires) v l =
      Lively-IsLive
        (Steady-Lively
          (Steady-trans (fires-Steady i (finally_of c d) s fires (λ p. cc)) (emit-Steady _ _)))
        (Step-ahead server_ids upnp run_action (runs_finally i c d fires) v) l
  Step-IsLive {s} (runs_quit i fires) v l = runs_quit-IsLive i s l
  Step-IsLive {s} (call_ends k x h) v l =
      let (q, found, e) = found_inv (lookup k s.task_queues) _ h in
      Lively-IsLive
        (call_done-Lively server_ids upnp run_action k q x q.current_task s _ found refl e)
        (Step-ahead server_ids upnp run_action (call_ends k x h) v) l
  Step-IsLive {s} (action_ends k h) v l =
      let (q, found, e) = found_inv (lookup k s.task_queues) _ h in
      Lively-IsLive
        (action_done-Lively server_ids upnp run_action k q q.current_task s _ found refl e)
        (Step-ahead server_ids upnp run_action (action_ends k h) v) l
  Step-IsLive {s} (cancels k h) v l =
      let (q, found, e) = found_inv (lookup k s.task_queues) _ h in
      Lively-IsLive
        (subst (Lively s) (some_inj e)
          (queue_cancel-Lively k q s found (armed-IsOwn k q s found v)))
        (Step-ahead server_ids upnp run_action (cancels k h) v) l
  Step-IsLive {s} (loses_source name) v l =
      remove_queues_for_source-kept IsLive IsLive-IsKept.spared name s v l
  Step-IsLive {s} (loses_sink name) v l =
      remove_queues_for_sink-kept IsLive IsLive-IsKept.spared name s v l
  Step-IsLive {s} quits v l = set_quitting-kept IsLive IsLive-IsKept s v l

  Reach-IsLive : {s : Processor} → Reach server_ids upnp run_action s → IsLive s
  unfolding processor_new
  Reach-IsLive new = record {
    well = record { fresh = λ i h. refl; small = omega arith };
    counted = refl;
    quits_idle = λ t z. cc;
  }
  Reach-IsLive (after r st) =
      Step-IsLive st (Reach-IsSound server_ids upnp run_action r) (Reach-IsLive r)

  -- In every state that a sequence of events leads to, if the processor has been told to quit and no
  -- queue has a current task, then the quit callback is a pending source of the main loop, or it has
  -- run.
  pub Reach-Quits :
      {s : Processor}
      → Reach server_ids upnp run_action s
      → s.quitting ≡ true
      → busy s ≡ 0
      → Quits s
  Reach-Quits r t z = (Reach-IsLive r).quits_idle t z
