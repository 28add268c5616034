-- ===== src/Processor/Kept.antt =====
-- What the walks over all queues keep, if cancelling one queue and taking out one keep it.
use renderer_service_upnp.Prelude.{
  String, ◌≡◌, refl, [], ◌∷◌, Option, none, some, true, false, Bool, nat_eq, string_eq,
  if◌then◌else◌, ltb, Bool-cases, inl, inr,
}
use renderer_service_upnp.Dict.{lookup, Distinct}
use renderer_service_upnp.Processor.State.{
  Key, key_eq, Atom, Queue, Processor, on_quit, idle_add, put,
}
use renderer_service_upnp.Processor.Cancel.{
  stopped, queue_cancel, cancel_queues, set_quitting, remove_found, free_queue,
  free_queues_for_source, free_queues_for_sink, remove_queues_for_source, remove_queues_for_sink,
}
use renderer_service_upnp.Processor.Callbacks.{remove_queue}
use renderer_service_upnp.Processor.Invariant.{IsSound, Queues}
use renderer_service_upnp.Processor.Sound.{Found, put-Found, queue_cancel-IsSound}
use renderer_service_upnp.Processor.Frame.{at, queue_cancel-frame}
use renderer_service_upnp.Processor.Walks.{
  Listed, Listed-step, Listed-self, queue_cancel-at, defer-IsSound, free_if-IsSound, free_if-frame,
}

-- A predicate that holds on when one queue is cancelled, or taken out where it runs nothing, or marked
-- for later removal.
pub record IsSpared (P : Processor → Type 0) : Type 0 where
  pub cancel_keeps :
      (k : Key) (q : Queue) (s : Processor) → Found k q s → IsSound s → P s → P (queue_cancel k q s)
  pub remove_keeps :
      (k : Key) (q : Queue) (s : Processor)
      → Found k q s
      → q.current_task ≡ none
      → P s
      → P (remove_queue k q s)
  pub defer_keeps :
      (k : Key) (q : Queue) (b : Bool) (s : Processor)
      → Found k q s
      → P s
      → P (put k (record q { defer_remove = b }) s)

-- The same, which also holds on when the processor starts to quit, with tasks running or none.
pub record IsKept (P : Processor → Type 0) : Type 0 where
  pub spared : IsSpared P
  pub quit_running_keeps :
      (s : Processor) → ltb 0 s.running_tasks ≡ true → P s → P (record s { quitting = true })
  pub quit_idle_keeps :
      (s : Processor)
      → ltb 0 s.running_tasks ≡ false
      → P s
      → P (idle_add on_quit (record s { quitting = true }))

module _ (P : Processor → Type 0) (c : IsSpared P) where
  pub cancel_queues-kept :
      (rest : Queues) (s : Processor)
      → Distinct rest
      → Listed rest s.task_queues
      → IsSound s
      → P s
      → P (cancel_queues rest s)
  unfolding cancel_queues
  cancel_queues-kept [] s d l v p = p
  cancel_queues-kept ((k, q) ∷ rest) s d l v p =
      cancel_queues-kept rest (queue_cancel k q s) d.1
        (Listed-step k rest s.task_queues _ d.0 (λ j h. queue_cancel-frame k j h q s) l.1)
        (queue_cancel-IsSound k q s l.0 v) (c.cancel_keeps k q s l.0 v p)

  -- A queue that has stopped and runs nothing is taken out.
  remove_found-kept :
      (k : Key) (b : Bool) (q : Queue) (s : Processor)
      → at k s ≡ (if b then none else some q)
      → q.current_task ≡ none
      → P s
      → P (remove_found k (lookup k s.task_queues) s)
  unfolding remove_found
  remove_found-kept k true q s e idle p = rw (e, remove_found) p
  remove_found-kept k false q s e idle p = rw (e, remove_found) (c.remove_keeps k q s e idle p)

  free_queue-kept :
      (k : Key) (q : Queue) (o : Option Atom) (s : Processor)
      → q.current_task ≡ o
      → Found k q s
      → IsSound s
      → P s
      → P (free_queue k q o s)
  unfolding free_queue
  free_queue-kept k q none s e found v p =
      let q' = record q { defer_remove = false } in
      let s1 = put k q' s in
      let w = defer-IsSound k q false s found v in
      remove_found-kept k q.auto_remove (stopped q') (queue_cancel k q' s1)
        (queue_cancel-at k q' s1 w.distinct e) (unfold stopped in e)
        (c.cancel_keeps k q' s1 (put-Found k q' s) w (c.defer_keeps k q false s found p))
  free_queue-kept k q (some a) s e found v p =
      let q' = record q { defer_remove = true } in
      c.cancel_keeps k q' (put k q' s) (put-Found k q' s) (defer-IsSound k q true s found v)
        (c.defer_keeps k q true s found p)

  free_if-kept :
      (b : Bool) (k : Key) (q : Queue) (s : Processor)
      → Found k q s
      → IsSound s
      → P s
      → P (if b then free_queue k q q.current_task s else s)
  free_if-kept true k q s found v p = free_queue-kept k q q.current_task s refl found v p
  free_if-kept false k q s found v p = p

  free_for_source-kept :
      (name : String) (rest : Queues) (s : Processor)
      → Distinct rest
      → Listed rest s.task_queues
      → IsSound s
      → P s
      → P (free_queues_for_source name rest s)
  unfolding free_queues_for_source
  free_for_source-kept name [] s d l v p = p
  free_for_source-kept name ((k, q) ∷ rest) s d l v p =
      free_for_source-kept name rest _ d.1
        (Listed-step k rest s.task_queues _ d.0 (λ j h. free_if-frame _ k j q s h) l.1)
        (free_if-IsSound _ k q s l.0 v) (free_if-kept _ k q s l.0 v p)

  pub remove_queues_for_source-kept :
      (name : String) (s : Processor) → IsSound s → P s → P (remove_queues_for_source name s)
  unfolding remove_queues_for_source
  remove_queues_for_source-kept name s v p =
      free_for_source-kept name s.task_queues s v.distinct (Listed-self _ v.distinct) v p

  free_for_sink-kept :
      (name : String) (rest : Queues) (s : Processor)
      → Distinct rest
      → Listed rest s.task_queues
      → IsSound s
      → P s
      → P (free_queues_for_sink name rest s)
  unfolding free_queues_for_sink
  free_for_sink-kept name [] s d l v p = p
  free_for_sink-kept name ((k, q) ∷ rest) s d l v p =
      free_for_sink-kept name rest _ d.1
        (Listed-step k rest s.task_queues _ d.0 (λ j h. free_if-frame _ k j q s h) l.1)
        (free_if-IsSound _ k q s l.0 v) (free_if-kept _ k q s l.0 v p)

  pub remove_queues_for_sink-kept :
      (name : String) (s : Processor) → IsSound s → P s → P (remove_queues_for_sink name s)
  unfolding remove_queues_for_sink
  remove_queues_for_sink-kept name s v p =
      free_for_sink-kept name s.task_queues s v.distinct (Listed-self _ v.distinct) v p

module _ (P : Processor → Type 0) (c : IsKept P) where
  pub set_quitting-kept : (s : Processor) → IsSound s → P s → P (set_quitting s)
  unfolding set_quitting
  set_quitting-kept s v p = elim (Bool-cases (ltb 0 s.running_tasks)) [
    | inl e ↦ rw e (
        cancel_queues-kept P c.spared s.task_queues _ v.distinct (Listed-self _ v.distinct) v
          (c.quit_running_keeps s e p))
    | inr e ↦ rw e (c.quit_idle_keeps s e p)
  ]
