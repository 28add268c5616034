-- ===== src/Processor/Reach.antt =====
-- Everything that can happen to the processor, in any order, and what holds after it.
use renderer_service_upnp.Prelude.{
  String, some_inj, ℕ, ◌≡◌, ◌∙◌, refl, sym, subst, ◌≢◌, List, [], ◌∷◌, Option, none, some, arith,
  true, Bool, nat_eq,
}
use renderer_service_upnp.Error.{Error}
use renderer_service_upnp.Dict.{lookup}
use renderer_service_upnp.Task.{Task}
use renderer_service_upnp.Processor.State.{
  Key, key_eq, Atom, ServiceTask, Queue, Source, process_on, finally_of, on_quit, complete_on,
  run_finally, quit, Processor, processor_new, source_remove, emit, put,
}
use renderer_service_upnp.Processor.Callbacks.{has_tasks}
use renderer_service_upnp.Processor.Cancel.{
  cancel_queue, set_quitting, remove_queues_for_source, remove_queues_for_sink,
}
use renderer_service_upnp.Processor.Queues.{
  add_queue, queue_start, add_task, set_finally, set_user_data,
}
use renderer_service_upnp.Processor.Run.{
  process_task, async_task_complete, begin_action_cb, simple_call_cb,
}
use renderer_service_upnp.Processor.Invariant.{IsSound, keep-Inv, add-Inv, unfire-Inv}
use renderer_service_upnp.Processor.Sound.{Found, queue_cancel-IsSound}
use renderer_service_upnp.Processor.Walks.{
  set_quitting-IsSound, remove_queues_for_source-IsSound, remove_queues_for_sink-IsSound,
}
use renderer_service_upnp.Processor.Steps.{
  Runs, enqueue-IsSound, start-IsSound, process_task-Runs, complete_current-IsSound,
  call_done-IsSound, action_done-IsSound,
}

-- What a lookup that led to a result found.
pub found_inv {ℓ} :
    {A : Type 0} {B : Type ℓ} (o : Option A) (f : A → Option B) {b : B}
    → (elim o [ none ↦ none | some q ↦ f q ]) ≡ some b
    → (q : A) × (o ≡ some q) × (f q ≡ some b)
found_inv none f h = cc
found_inv (some q) f h = (q, refl, h)

-- A queue that changes nothing but its settings stays ready.
settled :
    (s : Processor)
    → IsSound s
    → (k : Key) (q : Queue) → Found k q s
    → q.idle_id ≢ 0
    → (has_tasks q.tasks ≡ true) × (q.current_task ≡ none)
settled s v k q found n = ((v.ready k q found n).waiting, (v.ready k q found n).free)

unfire :
    (s : Processor) {i : ℕ} {f : Source}
    → IsSound s
    → s.sources i ≡ some f
    → ((k : Key) → f ≢ process_on k)
    → IsSound (source_remove i s)
unfolding source_remove
unfire s {i} v fires other = unfire-Inv _ _ _ i (λ k p. other k (some_inj (sym fires ∙ p))) v

module _ (server_ids : List String) (upnp : Task → Task × Bool)
    (run_action : ServiceTask → Option ℕ × Bool) where
  -- One event. Its source is gone from the main loop when a source's function runs.
  pub data Step (s : Processor) : Processor → Type 0 where
    adds_queue :
        (k : Key) (start remove : Bool)
        → lookup k s.task_queues ≡ none
        → Step s (add_queue k start remove s)
    sets_finally : {s' : Processor} (k : Key) → set_finally k s ≡ some s' → Step s s'
    sets_user_data : {s' : Processor} (k : Key) (d : ℕ) → set_user_data k d s ≡ some s' → Step s s'
    adds_task : {s' : Processor} (k : Key) (a : Atom) → add_task k a s ≡ some s' → Step s s'
    starts :
        {s' : Processor} (k : Key) (q : Queue)
        → Found k q s
        → has_tasks q.tasks ≡ true
        → queue_start k s ≡ some s'
        → Step s s'
    processes :
        {s' : Processor} (i : ℕ) (k : Key)
        → s.sources i ≡ some (process_on k)
        → process_task server_ids upnp run_action k (source_remove i s) ≡ some s'
        → Step s s'
    completes :
        {s' : Processor} (i : ℕ) (k : Key)
        → s.sources i ≡ some (complete_on k)
        → async_task_complete k (source_remove i s) ≡ some s'
        → Step s s'
    runs_finally :
        (i : ℕ) (c : Bool) (d : ℕ)
        → s.sources i ≡ some (finally_of c d)
        → Step s (emit (run_finally c d ∷ []) (source_remove i s))
    runs_quit : (i : ℕ) → s.sources i ≡ some on_quit → Step s (emit (quit ∷ []) (source_remove i s))
    call_ends :
        {s' : Processor} (k : Key) (e : Option Error) → simple_call_cb k e s ≡ some s' → Step s s'
    action_ends : {s' : Processor} (k : Key) → begin_action_cb k s ≡ some s' → Step s s'
    cancels : {s' : Processor} (k : Key) → cancel_queue k s ≡ some s' → Step s s'
    loses_source : (name : String) → Step s (remove_queues_for_source name s)
    loses_sink : (name : String) → Step s (remove_queues_for_sink name s)
    quits : Step s (set_quitting s)

  pub data Reach : Processor → Type 0 where
    new : Reach processor_new
    after : {s s' : Processor} → Reach s → Step s s' → Reach s'

  pub Step-IsSound : {s s' : Processor} → Step s s' → IsSound s → IsSound s'
  unfolding add_queue set_finally set_user_data add_task queue_start async_task_complete
      begin_action_cb simple_call_cb cancel_queue put emit source_remove
  Step-IsSound (adds_queue k start remove missing) v = add-Inv _ _ _ k _ missing refl v
  Step-IsSound {s} (sets_finally k h) v =
      let (q, found, e) = found_inv (lookup k s.task_queues) _ h in
      subst IsSound (some_inj e) (
        keep-Inv _ _ _ k q _ found refl
          (λ n. record {
            waiting = (settled s v k q found n).0;
            free = (settled s v k q found n).1;
          })
          v)
  Step-IsSound {s} (sets_user_data k d h) v =
      let (q, found, e) = found_inv (lookup k s.task_queues) _ h in
      subst IsSound (some_inj e) (
        keep-Inv _ _ _ k q _ found refl
          (λ n. record {
            waiting = (settled s v k q found n).0;
            free = (settled s v k q found n).1;
          })
          v)
  Step-IsSound {s} (adds_task k a h) v =
      let (q, found, e) = found_inv (lookup k s.task_queues) _ h in
      subst IsSound (some_inj e) (enqueue-IsSound k a q s found v)
  Step-IsSound {s} (starts k r there some_task h) v =
      let (q, found, e) = found_inv (lookup k s.task_queues) _ h in
      subst IsSound (some_inj e) (start-IsSound k q s found (ground arith) v)
  Step-IsSound {s} (processes i k fires h) v =
      let (s', e, w) = process_task-Runs server_ids upnp run_action i k s v fires in
      subst IsSound (some_inj (sym e ∙ h)) w
  Step-IsSound {s} (completes i k fires h) v =
      let (q, found, e) = found_inv (lookup k s.task_queues) _ h in
      complete_current-IsSound k q q.current_task _ _ found refl (unfire s v fires (λ j p. cc)) e
  Step-IsSound {s} (runs_finally i c d fires) v = unfire s v fires (λ j p. cc)
  Step-IsSound {s} (runs_quit i fires) v = unfire s v fires (λ j p. cc)
  Step-IsSound {s} (call_ends k x h) v =
      let (q, found, e) = found_inv (lookup k s.task_queues) _ h in
      call_done-IsSound k q x q.current_task s _ found refl v e
  Step-IsSound {s} (action_ends k h) v =
      let (q, found, e) = found_inv (lookup k s.task_queues) _ h in
      action_done-IsSound k q q.current_task s _ found refl v e
  Step-IsSound {s} (cancels k h) v =
      let (q, found, e) = found_inv (lookup k s.task_queues) _ h in
      subst IsSound (some_inj e) (queue_cancel-IsSound k q s found v)
  Step-IsSound (loses_source name) v = remove_queues_for_source-IsSound name _ v
  Step-IsSound (loses_sink name) v = remove_queues_for_sink-IsSound name _ v
  Step-IsSound quits v = set_quitting-IsSound _ v

  -- In every state that a sequence of events leads to, queues and idle sources agree: the source
  -- of a queue is pending, will run that queue, and stands only where the queue has a task waiting
  -- and none running; and no pending source runs a queue that is gone.
  pub Reach-IsSound : {s : Processor} → Reach s → IsSound s
  unfolding processor_new lookup
  Reach-IsSound new = record {
    distinct = tt;
    fresh = λ i h. refl;
    zero_free = refl;
    positive = omega arith;
    armed = λ k q h n. cc;
    ready = λ k q h n. cc;
    aimed = λ i k h. cc;
  }
  Reach-IsSound (after r st) = Step-IsSound st (Reach-IsSound r)

  -- In every state that a sequence of events leads to, when the idle source of a queue fires,
  -- prv_task_queue_process_task finds its queue and a first task in it, so that it returns, and queues
  -- and sources agree after it.
  pub process_task-safe :
      (s : Processor) (i : ℕ) (k : Key)
      → Reach s
      → s.sources i ≡ some (process_on k)
      → Runs (process_task server_ids upnp run_action k (source_remove i s))
  process_task-safe s i k r fires =
      process_task-Runs server_ids upnp run_action i k s (Reach-IsSound r) fires
