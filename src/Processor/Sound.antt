-- ===== src/Processor/Sound.antt =====
-- Completing and cancelling keep the queues and their sources in agreement.
use renderer_service_upnp.Prelude.{
  ◌≡◌, refl, Option, none, some, arith, true, false, Bool, ◌==◌, nat_eq, if◌then◌else◌, Bool-cases,
  Option-cases, inl, inr,
}
use renderer_service_upnp.Dict.{lookup, lookup-insert_self}
use renderer_service_upnp.Processor.State.{
  Key, key_eq, Atom, client, service, Queue, finally_of, on_quit, complete_on, Processor, idle_add,
  source_remove, emit, put,
}
use renderer_service_upnp.Processor.Callbacks.{
  queue_free, remove_queue, arm, after_completion, completed,
}
use renderer_service_upnp.Task
use renderer_service_upnp.Processor.Cancel.{
  reaches_cancelled, cancel_and_free_all, stopped, unsource, cancel_running, cancel_current,
  queue_cancel,
}
use renderer_service_upnp.Processor.Invariant.{
  IsReady, IsSound, keep-Inv, disarm-Inv, arm-Inv, remove-Inv, other-Inv,
}

-- The table has `q` under `k`.
abbrev pub Found : Key → Queue → Processor → Type 0
Found k q s = lookup k s.task_queues ≡ some q

pub if-IsSound : (b : Bool) (s t : Processor) → IsSound s → IsSound t → IsSound (if b then s else t)
if-IsSound true s t v w = v
if-IsSound false s t v w = w

module _ (k : Key) (q : Queue) (s : Processor) where
  pub put-Found : Found k q (put k q s)
  unfolding put
  put-Found = lookup-insert_self k q s.task_queues

  pub queue_free-IsSound : IsSound s → IsSound (queue_free q s)
  unfolding queue_free emit idle_add
  queue_free-IsSound v = elim (Bool-cases q.has_finally) [
    | inl e ↦ rw e (other-Inv _ _ _ (finally_of q.cancelled q.user_data) (λ j e. cc) v)
    | inr e ↦ rw e v
  ]

pub remove_queue-IsSound :
    (k : Key) (q q' : Queue) (s : Processor)
    → Found k q s
    → q.idle_id ≡ 0
    → IsSound s
    → IsSound (remove_queue k q' s)
unfolding remove_queue
remove_queue-IsSound k q q' s found off v =
    queue_free-IsSound k q' _ (remove-Inv _ _ _ k q found off v)

pub arm-IsSound :
    (k : Key) (q : Queue) (s : Processor)
    → Found k q s
    → q.idle_id ≡ 0
    → IsReady q
    → IsSound s
    → IsSound (arm k q s)
unfolding arm put idle_add
arm-IsSound k q s found off ok v =
    arm-Inv _ _ _ k q _ found off refl (record { waiting = ok.waiting; free = ok.free }) v

pub after_completion-IsSound :
    (k : Key) (q : Queue) (s : Processor)
    → Found k q s
    → q.idle_id ≡ 0
    → q.current_task ≡ none
    → IsSound s
    → IsSound (after_completion k q s)
unfolding after_completion idle_add
after_completion-IsSound k q s found off idle v = ground (
  arith,
  remove_queue-IsSound k q q s found off v,
  arm-IsSound k q s found off,
  other-Inv s.task_queues s.sources s.next_id on_quit (λ j e. cc) v,
)

-- A queue without source changes its current task or what else it likes, and still has none.
pub put-IsSound :
    (k : Key) (q q' : Queue) (s : Processor)
    → Found k q s
    → q.idle_id ≡ 0
    → q'.idle_id ≡ 0
    → IsSound s
    → IsSound (put k q' s)
unfolding put
put-IsSound k q q' s found off off' v =
    keep-Inv _ _ _ k q q' found (ground arith) (λ n. absurd (n off')) v

pub completed-IsSound :
    (k : Key) (q : Queue) (s : Processor)
    → Found k q s
    → q.idle_id ≡ 0
    → IsSound s
    → IsSound (completed k q s)
unfolding completed emit
completed-IsSound k q s found off v =
    after_completion-IsSound k _ _ (put-Found k _ _) off refl
      (put-IsSound k q (record q { current_task = none }) _ found off off v)

pub complete_on-IsSound :
    (k : Key) (s : Processor) → IsSound s → IsSound (idle_add (complete_on k) s)
unfolding idle_add
complete_on-IsSound k s v = other-Inv _ _ _ (complete_on k) (λ j e. cc) v

pub cancel_current-IsSound :
    (k : Key) (q : Queue) (a : Atom) (s : Processor)
    → Found k q s
    → q.idle_id ≡ 0
    → IsSound s
    → IsSound (cancel_current k q a s)
unfolding cancel_current emit
cancel_current-IsSound k q (client t) s found off v =
    elim (Bool-cases (reaches_cancelled (Task.cancel t).0)) [
      | inl e ↦ rw e (complete_on-IsSound k _ (put-IsSound k q _ _ found off off v))
      | inr e ↦ rw e (put-IsSound k q _ _ found off off v)
    ]
cancel_current-IsSound k q (service t) s found off v = elim (Option-cases t.p_action) [
  | inl e ↦ rw e v
  | inr (n, e) ↦
      rw e (completed-IsSound k _ _ (put-Found k _ _) off (put-IsSound k q _ _ found off off v))
]

pub cancel_running-IsSound :
    (k : Key) (q : Queue) (o : Option Atom) (s : Processor)
    → Found k q s
    → q.idle_id ≡ 0
    → IsSound s
    → IsSound (cancel_running k q o s)
unfolding cancel_running
cancel_running-IsSound k q (some a) s found off v = cancel_current-IsSound k q a s found off v
cancel_running-IsSound k q none s found off v =
    if-IsSound q.auto_remove _ _ (remove_queue-IsSound k q q s found off v) v

stop-IsSound :
    (k : Key) (q : Queue) (s : Processor)
    → Found k q s
    → IsSound s
    → IsSound (put k (stopped q) (unsource q s))
unfolding stopped unsource put source_remove
stop-IsSound k q s found v = elim (Bool-cases (q.idle_id == 0)) [
  | inl e ↦ rw e (keep-Inv _ _ _ k q (stopped q) found (ground arith) (λ n. absurd (n refl)) v)
  | inr e ↦ rw e (disarm-Inv _ _ _ k q (stopped q) found refl v)
]

pub queue_cancel-IsSound :
    (k : Key) (q : Queue) (s : Processor) → Found k q s → IsSound s → IsSound (queue_cancel k q s)
unfolding queue_cancel emit
queue_cancel-IsSound k q s found v =
    cancel_running-IsSound k (stopped q) q.current_task _ (put-Found k (stopped q) _) refl
      (stop-IsSound k q (emit (cancel_and_free_all q.tasks) s) found v)
