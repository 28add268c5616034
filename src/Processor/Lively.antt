-- ===== src/Processor/Lively.antt =====
-- No operation but rsu_task_processor_set_quitting ends the last running task of a processor that
-- quits without scheduling the quit callback.
use renderer_service_upnp.Prelude.{
  ◌+◌, ◌-◌, ◌%◌, ◌≡◌, ◌≢◌, ◌⊎◌, ap, sym, refl, ◌∙◌, List, [], ◌∷◌, Option, none, some, arith, true,
  false, Bool, nat_eq, Bool-cases, Option-cases, inl, inr, if◌then◌else◌, map,
}
use renderer_service_upnp.Dict.{lookup, remove, total-remove}
use renderer_service_upnp.Task.{Task}
use renderer_service_upnp.Task
use renderer_service_upnp.Processor.State.{
  on_quit, Key, key_eq, Atom, client, service, Queue, complete_on, Processor, idle_add, emit, put,
  source_remove, Source, process_on, Output, cancel_action, task_effect,
}
use renderer_service_upnp.Processor.Callbacks.{
  uint_mod, queue_free, remove_queue, arm, delete_current, completed,
}
use renderer_service_upnp.Processor.Cancel.{
  async_cancelled, cancel_and_free_all, stopped, unsource, cancel_running, cancel_current,
  queue_cancel, reaches_cancelled,
}
use renderer_service_upnp.Processor.Invariant.{IsSound}
use renderer_service_upnp.Processor.Sound.{Found, put-Found}
use renderer_service_upnp.Processor.Busy.{one_if, is_busy, busy, ahead, busy-put}
use renderer_service_upnp.Processor.Quitting.{
  Quits, Leads, Leads-refl, Leads-trans, put-Leads, emit-Leads, idle_add-Leads, remove_queue-Leads,
  completed-Leads, after_completion-Leads, after_completion-Quits, after_completion-counts,
  unsource-Leads,
}

-- From `s` to `s'`: where no queue is busy any more, the callback is scheduled or has run, or no queue
-- was busy before.
pub record Lively (s s' : Processor) : Type 0 where
  pub leads : Leads s s'
  pub ends : s'.quitting ≡ true → ahead s' ≡ 0 → busy s' ≡ 0 → Quits s' ⊎ (busy s ≡ 0)

-- As many queues are busy as before.
pub record Steady (s s' : Processor) : Type 0 where
  pub leads : Leads s s'
  pub same_busy : busy s' ≡ busy s

pub Steady-refl : (s : Processor) → Steady s s
Steady-refl s = record { leads = Leads-refl s; same_busy = refl }

pub Steady-trans : {a b c : Processor} → Steady a b → Steady b c → Steady a c
Steady-trans f g = record {
  leads = Leads-trans f.leads g.leads;
  same_busy = g.same_busy ∙ f.same_busy;
}

pub Steady-Lively : {s s' : Processor} → Steady s s' → Lively s s'
Steady-Lively w = record { leads = w.leads; ends = λ t z n. inr (sym w.same_busy ∙ n) }

-- What ends as a lively operation does that starts where as many queues are busy, or some queue is.
pub Steady-led : {a b c : Processor} → Steady a b → Lively b c → Lively a c
Steady-led f w = record {
  leads = Leads-trans f.leads w.leads;
  ends = λ t z n. elim (w.ends t z n) [ inl y ↦ inl y | inr y ↦ inr (sym f.same_busy ∙ y) ];
}

pub busy-led : {a b c : Processor} → Leads a b → busy b ≢ 0 → Lively b c → Lively a c
busy-led l e w = record {
  leads = Leads-trans l w.leads;
  ends = λ t z n. elim (w.ends t z n) [ inl y ↦ inl y | inr y ↦ absurd (e y) ];
}

pub completed-Lively : (k : Key) (q : Queue) (s : Processor) → Lively s (completed k q s)
unfolding completed
completed-Lively k q s = record {
  leads = unfold completed in completed-Leads k q s;
  ends = λ t z n.
      let q' = record q { current_task = none } in
      let counted = record s { running_tasks = (s.running_tasks + uint_mod - 1) % uint_mod } in
      let s1 = put k q' (emit (delete_current q.current_task) counted) in
      let one : s1.running_tasks ≡ (s.running_tasks + uint_mod - 1) % uint_mod =
        unfold put emit in refl in
      inl (
        after_completion-Quits k q' s1 (sym (after_completion-Leads k q' s1).same_quitting ∙ t)
          (omega (arith, after_completion-counts k q' s1, one, z, n)));
}

pub if-Steady :
    (b : Bool) (s t u : Processor) → Steady s t → Steady s u → Steady s (if b then t else u)
if-Steady true s t u f g = f
if-Steady false s t u f g = g

pub if-Lively :
    (b : Bool) (s t u : Processor) → Lively s t → Lively s u → Lively s (if b then t else u)
if-Lively true s t u f g = f
if-Lively false s t u f g = g

pub emit-Steady : (out : List Output) (s : Processor) → Steady s (emit out s)
unfolding emit
emit-Steady out s = record { leads = unfold emit in emit-Leads out s; same_busy = refl }

pub idle_add-Steady : (f : Source) (s : Processor) → Steady s (idle_add f s)
unfolding idle_add
idle_add-Steady f s = record { leads = unfold idle_add in idle_add-Leads f s; same_busy = refl }

-- A queue that stays busy, or stays idle.
pub put-Steady :
    (k : Key) (q q' : Queue) (s : Processor)
    → Found k q s
    → is_busy q' ≡ is_busy q
    → Steady s (put k q' s)
put-Steady k q q' s found same = record {
  leads = put-Leads k q' s;
  same_busy = omega (arith, busy-put k q q' s found, same);
}

-- The same after some output.
pub told-Steady :
    (out : List Output) (k : Key) (q q' : Queue) (s : Processor)
    → Found k q s
    → is_busy q' ≡ is_busy q
    → Steady s (put k q' (emit out s))
told-Steady out k q q' s found same =
    Steady-trans (emit-Steady out s) (put-Steady k q q' (emit out s) (unfold emit in found) same)

queue_free-busy : (q : Queue) (s : Processor) → busy (queue_free q s) ≡ busy s
unfolding queue_free idle_add emit
queue_free-busy q s = elim (Bool-cases q.has_finally) [ inl e ↦ rw e refl | inr e ↦ rw e refl ]

pub remove_queue-Steady :
    (k : Key) (q : Queue) (s : Processor)
    → Found k q s
    → q.current_task ≡ none
    → Steady s (remove_queue k q s)
unfolding remove_queue
remove_queue-Steady k q s found idle = record {
  leads = unfold remove_queue in remove_queue-Leads k q s;
  same_busy = omega (
    arith,
    queue_free-busy q (record s { task_queues = remove k s.task_queues }),
    total-remove is_busy k q s.task_queues found,
    ap one_if idle,
  );
}

pub arm-Steady : (k : Key) (q : Queue) (s : Processor) → Found k q s → Steady s (arm k q s)
unfolding arm
arm-Steady k q s found =
    Steady-trans (idle_add-Steady (process_on k) s)
      (put-Steady k q (record q { idle_id = s.next_id }) _ (unfold idle_add in found) refl)

cancel_current-Lively :
    (k : Key) (q : Queue) (a : Atom) (s : Processor)
    → Found k q s
    → q.current_task ≡ some a
    → Lively s (cancel_current k q a s)
unfolding cancel_current
cancel_current-Lively k q (client t) s found e =
    let out = map task_effect (Task.cancel t).1 in
    let q1 = record q { current_task = some (client (async_cancelled (Task.cancel t).0)) } in
    let q2 = record q { current_task = some (client (Task.cancel t).0) } in
    elim (Bool-cases (reaches_cancelled (Task.cancel t).0)) [
      | inl r ↦ rw r (
          Steady-Lively (
            Steady-trans (told-Steady out k q q1 s found (rw e refl))
              (idle_add-Steady (complete_on k) _)))
      | inr r ↦ rw r (Steady-Lively (told-Steady out k q q2 s found (rw e refl)))
    ]
cancel_current-Lively k q (service t) s found e = elim (Option-cases t.p_action) [
  | inl p ↦ rw p (Steady-Lively (Steady-refl s))
  | inr (n, p) ↦
      let q' = record q { current_task = some (service (record t { p_action = none })) } in
      rw p (
        Steady-led (told-Steady (cancel_action n ∷ []) k q q' s found (rw e refl))
          (completed-Lively k q' (put k q' (emit (cancel_action n ∷ []) s))))
]

cancel_running-Lively :
    (k : Key) (q : Queue) (o : Option Atom) (s : Processor)
    → Found k q s
    → q.current_task ≡ o
    → Lively s (cancel_running k q o s)
unfolding cancel_running
cancel_running-Lively k q none s found e = elim (Bool-cases q.auto_remove) [
  | inl r ↦ simp r (Steady-Lively (remove_queue-Steady k q s found e))
  | inr r ↦ simp r (Steady-Lively (Steady-refl s))
]
cancel_running-Lively k q (some a) s found e = cancel_current-Lively k q a s found e

-- The source of a queue is not that of the quit callback.
abbrev pub IsOwn : Queue → Processor → Type 0
IsOwn q s = q.idle_id ≢ 0 → s.sources q.idle_id ≢ some on_quit

pub armed-IsOwn : (k : Key) (q : Queue) (s : Processor) → Found k q s → IsSound s → IsOwn q s
armed-IsOwn k q s found v n e = ground (arith, v.armed k q found n)

unsource-Steady : (q : Queue) (s : Processor) → IsOwn q s → Steady s (unsource q s)
unfolding unsource source_remove
unsource-Steady q s own = record {
  leads = unfold unsource in unsource-Leads q s own;
  same_busy = ground arith;
}

unsource-tables : (q : Queue) (s : Processor) → (unsource q s).task_queues ≡ s.task_queues
unfolding unsource source_remove
unsource-tables q s = ground arith

pub queue_cancel-Lively :
    (k : Key) (q : Queue) (s : Processor) → Found k q s → IsOwn q s → Lively s (queue_cancel k q s)
unfolding queue_cancel stopped
queue_cancel-Lively k q s found own =
    let told = emit (cancel_and_free_all q.tasks) s in
    let quiet = unsource q told in
    Steady-led
      (Steady-trans (emit-Steady (cancel_and_free_all q.tasks) s) (
        Steady-trans (unsource-Steady q told (unfold emit in own)) (
          put-Steady k q (stopped q) quiet
            (ap (lookup k) (unsource-tables q told) ∙ (unfold emit in found)) refl)))
      (cancel_running-Lively k (stopped q) q.current_task (put k (stopped q) quiet)
        (put-Found k (stopped q) quiet) refl)
