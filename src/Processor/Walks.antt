-- ===== src/Processor/Walks.antt =====
-- The walks over all queues: quitting, a client that is lost, a device that is lost.
use renderer_service_upnp.Prelude.{
  String, ltb, ◌≡◌, refl, sym, subst, ◌≢◌, ◌∙◌, [], ◌∷◌, Option, none, some, arith, true, false,
  Bool, ◌==◌, nat_eq, string_eq, if◌then◌else◌, Bool-cases, inl, inr,
}
use renderer_service_upnp.Dict.{lookup, Distinct, insert-Distinct, lookup-remove_self}
use renderer_service_upnp.Processor.State.{
  Key, key_eq, key_equal_iff, Atom, Queue, Processor, on_quit, idle_add, source_remove, emit, put,
}
use renderer_service_upnp.Processor.Callbacks.{queue_free, remove_queue}
use renderer_service_upnp.Processor.Cancel.{
  cancel_and_free_all, stopped, unsource, cancel_running, remove_found, queue_cancel, cancel_queues,
  set_quitting, free_queue, free_queues_for_source, free_queues_for_sink, remove_queues_for_source,
  remove_queues_for_sink,
}
use renderer_service_upnp.Processor.Invariant.{IsSound, Queues, idle_of, keep-Inv, other-Inv}
use renderer_service_upnp.Processor.Sound.{
  Found, put-Found, if-IsSound, remove_queue-IsSound, queue_cancel-IsSound,
}
use renderer_service_upnp.Processor.Frame.{at, put-frame, remove_queue-frame, queue_cancel-frame}

-- The entries that a walk has still to visit are in the table as the walk knows them.
abbrev pub Listed : Queues → Queues → Type 0
Listed [] m = Unit
Listed ((k, q) ∷ rest) m = (lookup k m ≡ some q) × Listed rest m

-- A change at `k` leaves the entries of the rest alone, where `k` is not among them.
pub Listed-step :
    (k : Key) (rest m n : Queues)
    → lookup k rest ≡ none
    → ((j : Key) → k ≢ j → lookup j n ≡ lookup j m)
    → Listed rest m
    → Listed rest n
unfolding lookup
Listed-step k [] m n new same l = tt
Listed-step k ((j, q) ∷ rest) m n new same l = elim (Bool-cases (j == k)) [
  | inl e ↦ absurd (ground arith)
  | inr e ↦ (
    same j (λ p. ground (arith, key_equal_iff j k)) ∙ l.0,
    Listed-step k rest m n (ground arith) same l.1,
  )
]

lookup-cons_ne : (k j : Key) (q : Queue) (m : Queues) → k ≢ j → lookup j ((k, q) ∷ m) ≡ lookup j m
unfolding lookup
lookup-cons_ne k j q m h = ground (arith, key_equal_iff k j)

lookup-cons_self : (k : Key) (q : Queue) (m : Queues) → lookup k ((k, q) ∷ m) ≡ some q
unfolding lookup
lookup-cons_self k q m = ground (arith, key_equal_iff k k)

-- A walk starts with the table itself.
pub Listed-self : (m : Queues) → Distinct m → Listed m m
Listed-self [] d = tt
Listed-self ((k, q) ∷ m) d = (
  lookup-cons_self k q m,
  Listed-step k m m ((k, q) ∷ m) d.0 (λ j h. lookup-cons_ne k j q m h) (Listed-self m d.1),
)

cancel_queues-IsSound :
    (rest : Queues) (s : Processor)
    → Distinct rest
    → Listed rest s.task_queues
    → IsSound s
    → IsSound (cancel_queues rest s)
unfolding cancel_queues
cancel_queues-IsSound [] s d l v = v
cancel_queues-IsSound ((k, q) ∷ rest) s d l v =
    cancel_queues-IsSound rest (queue_cancel k q s) d.1
      (Listed-step k rest s.task_queues _ d.0 (λ j h. queue_cancel-frame k j h q s) l.1)
      (queue_cancel-IsSound k q s l.0 v)

pub set_quitting-IsSound : (s : Processor) → IsSound s → IsSound (set_quitting s)
unfolding set_quitting idle_add
set_quitting-IsSound s v =
    if-IsSound (ltb 0 s.running_tasks) _ _
      (cancel_queues-IsSound s.task_queues _ v.distinct (Listed-self _ v.distinct) v)
      (other-Inv _ _ _ on_quit (λ j e. cc) v)

unsource-tables : (q : Queue) (s : Processor) → (unsource q s).task_queues ≡ s.task_queues
unfolding unsource source_remove
unsource-tables q s = ground arith

-- Cancelling a queue that runs nothing takes it out, or leaves it empty and without source.
cancel_running-at :
    (k : Key) (q : Queue) (o : Option Atom) (s : Processor)
    → o ≡ none
    → Distinct s.task_queues
    → Found k q s
    → at k (cancel_running k q o s) ≡ (if q.auto_remove then none else some q)
unfolding cancel_running remove_queue queue_free emit idle_add
cancel_running-at k q none s e d found = ground (arith, lookup-remove_self k s.task_queues d)
cancel_running-at k q (some a) s e d found = cc

pub queue_cancel-at :
    (k : Key) (q : Queue) (s : Processor)
    → Distinct s.task_queues
    → q.current_task ≡ none
    → at k (queue_cancel k q s) ≡ (if q.auto_remove then none else some (stopped q))
unfolding queue_cancel emit put stopped
queue_cancel-at k q s d e =
    let told = emit (cancel_and_free_all q.tasks) s in
    cancel_running-at k (stopped q) q.current_task (put k (stopped q) (unsource q told)) e
      (insert-Distinct k (stopped q) _ (subst Distinct (sym (unsource-tables q told)) d))
      (put-Found k (stopped q) (unsource q told))

idle_of-queue_cancel :
    (k : Key) (q : Queue) (s : Processor)
    → Distinct s.task_queues
    → q.current_task ≡ none
    → idle_of (at k (queue_cancel k q s)) ≡ 0
unfolding stopped
idle_of-queue_cancel k q s d e = rw (queue_cancel-at k q s d e) (ground arith)

-- Clearing or setting `defer_remove` keeps the source of a queue.
pub defer-IsSound :
    (k : Key) (q : Queue) (b : Bool) (s : Processor)
    → Found k q s
    → IsSound s
    → IsSound (put k (record q { defer_remove = b }) s)
unfolding put
defer-IsSound k q b s found v =
    keep-Inv _ _ _ k q _ found refl
      (λ n. let r = v.ready k q found n in record { waiting = r.waiting; free = r.free }) v

remove_found-IsSound :
    (k : Key) (o : Option Queue) (s : Processor)
    → at k s ≡ o
    → idle_of o ≡ 0
    → IsSound s
    → IsSound (remove_found k o s)
unfolding remove_found
remove_found-IsSound k none s e off v = v
remove_found-IsSound k (some q) s e off v = remove_queue-IsSound k q q s e off v

free_queue-IsSound :
    (k : Key) (q : Queue) (o : Option Atom) (s : Processor)
    → q.current_task ≡ o
    → Found k q s
    → IsSound s
    → IsSound (free_queue k q o s)
unfolding free_queue
free_queue-IsSound k q none s e found v =
    let q' = record q { defer_remove = false } in
    let w = defer-IsSound k q false s found v in
    remove_found-IsSound k _ _ refl (idle_of-queue_cancel k q' (put k q' s) w.distinct e)
      (queue_cancel-IsSound k q' (put k q' s) (put-Found k q' s) w)
free_queue-IsSound k q (some a) s e found v =
    let q' = record q { defer_remove = true } in
    queue_cancel-IsSound k q' (put k q' s) (put-Found k q' s) (defer-IsSound k q true s found v)

module _ (k j : Key) (other : k ≢ j) where
  remove_found-frame : (o : Option Queue) (s : Processor) → at j (remove_found k o s) ≡ at j s
  unfolding remove_found
  remove_found-frame none s = refl
  remove_found-frame (some q) s = remove_queue-frame k j other q s

  free_queue-frame :
      (q : Queue) (o : Option Atom) (s : Processor) → at j (free_queue k q o s) ≡ at j s
  unfolding free_queue
  free_queue-frame q none s =
      remove_found-frame _ _ ∙ queue_cancel-frame k j other _ _ ∙ put-frame k j other _ _
  free_queue-frame q (some a) s = queue_cancel-frame k j other _ _ ∙ put-frame k j other _ _

-- One step of a walk that frees the queues for which a test holds.
pub free_if-IsSound :
    (b : Bool) (k : Key) (q : Queue) (s : Processor)
    → Found k q s
    → IsSound s
    → IsSound (if b then free_queue k q q.current_task s else s)
free_if-IsSound b k q s found v =
    if-IsSound b _ _ (free_queue-IsSound k q q.current_task s refl found v) v

pub free_if-frame :
    (b : Bool) (k j : Key) (q : Queue) (s : Processor)
    → k ≢ j
    → at j (if b then free_queue k q q.current_task s else s) ≡ at j s
free_if-frame true k j q s h = free_queue-frame k j h q q.current_task s
free_if-frame false k j q s h = refl

free_queues_for_source-IsSound :
    (name : String) (rest : Queues) (s : Processor)
    → Distinct rest
    → Listed rest s.task_queues
    → IsSound s
    → IsSound (free_queues_for_source name rest s)
unfolding free_queues_for_source
free_queues_for_source-IsSound name [] s d l v = v
free_queues_for_source-IsSound name ((k, q) ∷ rest) s d l v =
    free_queues_for_source-IsSound name rest _ d.1
      (Listed-step k rest s.task_queues _ d.0 (λ j h. free_if-frame _ k j q s h) l.1)
      (free_if-IsSound _ k q s l.0 v)

pub remove_queues_for_source-IsSound :
    (name : String) (s : Processor) → IsSound s → IsSound (remove_queues_for_source name s)
unfolding remove_queues_for_source
remove_queues_for_source-IsSound name s v =
    free_queues_for_source-IsSound name s.task_queues s v.distinct (Listed-self _ v.distinct) v

free_queues_for_sink-IsSound :
    (name : String) (rest : Queues) (s : Processor)
    → Distinct rest
    → Listed rest s.task_queues
    → IsSound s
    → IsSound (free_queues_for_sink name rest s)
unfolding free_queues_for_sink
free_queues_for_sink-IsSound name [] s d l v = v
free_queues_for_sink-IsSound name ((k, q) ∷ rest) s d l v =
    free_queues_for_sink-IsSound name rest _ d.1
      (Listed-step k rest s.task_queues _ d.0 (λ j h. free_if-frame _ k j q s h) l.1)
      (free_if-IsSound _ k q s l.0 v)

pub remove_queues_for_sink-IsSound :
    (name : String) (s : Processor) → IsSound s → IsSound (remove_queues_for_sink name s)
unfolding remove_queues_for_sink
remove_queues_for_sink-IsSound name s v =
    free_queues_for_sink-IsSound name s.task_queues s v.distinct (Listed-self _ v.distinct) v
