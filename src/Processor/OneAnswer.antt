-- ===== src/Processor/OneAnswer.antt =====
-- Each D-Bus call is answered once, over any sequence of events of the processor.
use renderer_service_upnp.Prelude.{
  String, some_inj, ℕ, ◌+◌, ap, sym, ◌≡◌, refl, ◌≢◌, ◌∙◌, List, [], ◌∷◌, Option, arith, true, Bool,
  nat_eq, string_eq,
}
use renderer_service_upnp.Dict.{lookup, total}
use renderer_service_upnp.Task.{Task}
use renderer_service_upnp.Processor.State.{
  key_eq, ServiceTask, Processor, processor_new, source_remove, run_finally, quit as quit_output,
}
use renderer_service_upnp.Processor.Cancel.{cancel_queue}
use renderer_service_upnp.Processor.Queues.{
  add_queue, queue_start, add_task, set_finally, set_user_data,
}
use renderer_service_upnp.Processor.Run.{
  process_task, async_task_complete, begin_action_cb, simple_call_cb,
}
use renderer_service_upnp.Processor.Invariant.{IsSound}
use renderer_service_upnp.Processor.Answers.{
  out_replies, atom_owes, queue_owes, balance, balance-emit, balance-put, queue_cancel-balance,
  arm-balance,
}
use renderer_service_upnp.Processor.Balance.{balance-IsConserved, enqueue-balance}
use renderer_service_upnp.Processor.Conserved.{
  set_quitting-keeps, remove_queues_for_source-keeps, remove_queues_for_sink-keeps,
}
use renderer_service_upnp.Processor.Reach.{
  Step, Reach, adds_queue, sets_finally, sets_user_data, adds_task, starts, processes, completes,
  runs_finally, runs_quit, call_ends, action_ends, cancels, loses_source, loses_sink, quits, new,
  after, found_inv, Reach-IsSound,
}
use renderer_service_upnp.Processor.Running.{
  add_queue-balance, start_first-balance, complete-balance, call_done-balance, action_done-balance,
}

module _ (n : ℕ) where
  module _ (server_ids : List String) (upnp : Task → Task × Bool)
      (run_action : ServiceTask → Option ℕ × Bool)
      (keeps : (t : Task) → (upnp t).0.invocation ≡ t.invocation) where
    -- What an event asks of the service: the answer that a task comes with.
    abbrev pub asks : {s s' : Processor} → Step server_ids upnp run_action s s' → ℕ
    asks (adds_task k a h) = atom_owes n a
    asks _ = 0

    pub Step-balance :
        {s s' : Processor} (st : Step server_ids upnp run_action s s')
        → IsSound s
        → balance n s' ≡ balance n s + asks st
    unfolding add_queue set_finally set_user_data add_task queue_start process_task
        async_task_complete begin_action_cb simple_call_cb cancel_queue source_remove
    Step-balance {s} (adds_queue k start remove missing) v =
        add_queue-balance n server_ids upnp run_action keeps k start remove s missing
    Step-balance {s} {s'} (sets_finally k h) v =
        let (q, found, e) = found_inv (lookup k s.task_queues) _ h in
        omega (
          arith,
          ap (balance n) (some_inj e),
          balance-put n k q (record q { has_finally = true }) s found,
        )
    Step-balance {s} (sets_user_data k d h) v =
        let (q, found, e) = found_inv (lookup k s.task_queues) _ h in
        omega (
          arith,
          ap (balance n) (some_inj e),
          balance-put n k q (record q { user_data = d }) s found,
        )
    Step-balance {s} (adds_task k a h) v =
        let (q, found, e) = found_inv (lookup k s.task_queues) _ h in
        ap (balance n) (sym (some_inj e)) ∙ enqueue-balance n k a q s found
    Step-balance {s} (starts k r there some_task h) v =
        let (q, found, e) = found_inv (lookup k s.task_queues) _ h in
        ground (arith, ap (balance n) (some_inj e), arm-balance n k q s found)
    Step-balance {s} (processes i k fires h) v =
        let (q, found, e) = found_inv (lookup k s.task_queues) _ h in
        let at_i : q.idle_id ≡ i = ground (arith, v.aimed i k fires) in
        let armed : q.idle_id ≢ 0 = λ z. ground (arith, v.zero_free) in
        omega (
          arith,
          start_first-balance n server_ids upnp run_action keeps k q q.tasks (source_remove i s) _
              refl found (v.ready k q found armed).free e,
        )
    Step-balance {s} (completes i k fires h) v =
        let (q, found, e) = found_inv (lookup k s.task_queues) _ h in
        omega (
          arith,
          complete-balance n server_ids upnp run_action keeps k q q.current_task (source_remove i s)
              _ found refl e,
        )
    Step-balance {s} (runs_finally i c d fires) v =
        omega (arith, balance-emit n (run_finally c d ∷ []) (source_remove i s))
    Step-balance {s} (runs_quit i fires) v =
        omega (arith, balance-emit n (quit_output ∷ []) (source_remove i s))
    Step-balance {s} (call_ends k x h) v =
        let (q, found, e) = found_inv (lookup k s.task_queues) _ h in
        omega (
          arith,
          call_done-balance n server_ids upnp run_action keeps k q x q.current_task s _ found refl
              e,
        )
    Step-balance {s} (action_ends k h) v =
        let (q, found, e) = found_inv (lookup k s.task_queues) _ h in
        omega (
          arith,
          action_done-balance n server_ids upnp run_action keeps k q q.current_task s _ found refl
              e,
        )
    Step-balance {s} (cancels k h) v =
        let (q, found, e) = found_inv (lookup k s.task_queues) _ h in
        omega (arith, ap (balance n) (some_inj e), queue_cancel-balance n k q s found)
    Step-balance {s} (loses_source name) v =
        omega (arith, remove_queues_for_source-keeps (balance n) (balance-IsConserved n) name s v)
    Step-balance {s} (loses_sink name) v =
        omega (arith, remove_queues_for_sink-keeps (balance n) (balance-IsConserved n) name s v)
    Step-balance {s} quits v =
        omega (arith, set_quitting-keeps (balance n) (balance-IsConserved n) s v)

    -- What a history asks.
    abbrev pub asked : {s : Processor} → Reach server_ids upnp run_action s → ℕ
    asked new = 0
    asked (after r st) = asked r + asks st

    -- In every state that a sequence of events leads to, the answers that the D-Bus call of a
    -- serial has been given, and those that the tasks in the queues still owe it, are together as
    -- many as the history has asked for by adding tasks of that call, if the functions of the UPnP
    -- layer leave a task's invocation as it is.
    pub answers-Reach :
        {s : Processor} (r : Reach server_ids upnp run_action s)
        → out_replies n s.outputs + total (queue_owes n) s.task_queues ≡ asked r
    unfolding processor_new
    answers-Reach new = refl
    answers-Reach (after r st) =
        omega (arith, answers-Reach r, Step-balance st (Reach-IsSound server_ids upnp run_action r))
