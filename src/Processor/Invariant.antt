-- ===== src/Processor/Invariant.antt =====
-- The idle source of a queue and the queue agree, so that prv_task_queue_process_task always finds
-- its queue, and a task in it.
use renderer_service_upnp.Prelude.{
  ℕ, suc, ◌≤◌, ◌<◌, ◌≡◌, ◌≢◌, List, Option, none, some, arith, true, ◌==◌, nat_eq, if◌then◌else◌,
}
use renderer_service_upnp.Dict.{
  lookup, insert, remove, Distinct, lookup-insert, lookup-remove, insert-Distinct, remove-Distinct,
}
use renderer_service_upnp.Processor.State.{
  Key, key_eq, key_equal_iff, Queue, Source, process_on, Processor,
}
use renderer_service_upnp.Processor.Callbacks.{has_tasks}

-- The idle id of the queue under a key, 0 if there is none.
abbrev pub idle_of : Option Queue → ℕ
idle_of none = 0
idle_of (some q) = q.idle_id

-- A queue with a source has a task for it, and runs none.
pub record IsReady (q : Queue) : Type 0 where
  pub waiting : has_tasks q.tasks ≡ true
  pub free : q.current_task ≡ none

abbrev pub Queues : Type 0
Queues = List (Key × Queue)

abbrev pub Sources : Type 0
Sources = ℕ → Option Source

pub record Inv (qs : Queues) (src : Sources) (next : ℕ) : Type 0 where
  pub distinct : Distinct qs
  -- ids from `next` on, and 0, are not in use
  pub fresh : (i : ℕ) → next ≤ i → src i ≡ none
  pub zero_free : src 0 ≡ none
  pub positive : 0 < next
  -- the source of a queue is there and runs that queue
  pub armed :
      (k : Key) (q : Queue)
      → lookup k qs ≡ some q
      → q.idle_id ≢ 0
      → src q.idle_id ≡ some (process_on k)
  pub ready : (k : Key) (q : Queue) → lookup k qs ≡ some q → q.idle_id ≢ 0 → IsReady q
  -- a source that runs a queue is the source of that queue
  pub aimed : (i : ℕ) (k : Key) → src i ≡ some (process_on k) → idle_of (lookup k qs) ≡ i

abbrev pub IsSound : Processor → Type 0
IsSound s = Inv s.task_queues s.sources s.next_id

-- A queue changes and keeps its source.
pub keep-Inv :
    (qs : Queues) (src : Sources) (next : ℕ) (k : Key) (q q' : Queue)
    → lookup k qs ≡ some q
    → q'.idle_id ≡ q.idle_id
    → (q'.idle_id ≢ 0 → IsReady q')
    → Inv qs src next
    → Inv (insert k q' qs) src next
keep-Inv qs src next k q q' found same ok v = record {
  distinct = insert-Distinct k q' qs v.distinct;
  fresh = v.fresh;
  zero_free = v.zero_free;
  positive = v.positive;
  armed = λ j r h n.
      ground (arith, lookup-insert k j q' qs, key_equal_iff k j, v.armed j r, v.armed j q);
  ready = λ j r h n. ground (arith, lookup-insert k j q' qs, v.ready j r, ok);
  aimed = λ i j h. ground (arith, lookup-insert k j q' qs, key_equal_iff k j, v.aimed i j);
}

-- A queue loses its source.
pub disarm-Inv :
    (qs : Queues) (src : Sources) (next : ℕ) (k : Key) (q q' : Queue)
    → lookup k qs ≡ some q
    → q'.idle_id ≡ 0
    → Inv qs src next
    → Inv (insert k q' qs) (λ i. if i == q.idle_id then none else src i) next
disarm-Inv qs src next k q q' found gone v = record {
  distinct = insert-Distinct k q' qs v.distinct;
  fresh = λ i h. ground (arith, v.fresh i);
  zero_free = ground (arith, v.zero_free);
  positive = v.positive;
  armed = λ j r h n.
      ground (arith, lookup-insert k j q' qs, key_equal_iff k j, v.armed j r, v.armed k q);
  ready = λ j r h n. ground (arith, lookup-insert k j q' qs, v.ready j r);
  aimed = λ i j h. ground (arith, lookup-insert k j q' qs, key_equal_iff k j, v.aimed i j);
}

-- A queue with no source is given the next one.
pub arm-Inv :
    (qs : Queues) (src : Sources) (next : ℕ) (k : Key) (q q' : Queue)
    → lookup k qs ≡ some q
    → q.idle_id ≡ 0
    → q'.idle_id ≡ next
    → IsReady q'
    → Inv qs src next
    → Inv (insert k q' qs) (λ i. if i == next then some (process_on k) else src i) (suc next)
arm-Inv qs src next k q q' found off on ok v = record {
  distinct = insert-Distinct k q' qs v.distinct;
  fresh = λ i h. ground (arith, v.fresh i);
  zero_free = ground (arith, v.zero_free, v.positive);
  positive = omega arith;
  armed = λ j r h n.
      ground (arith, lookup-insert k j q' qs, key_equal_iff k j, v.armed j r, v.fresh r.idle_id);
  ready = λ j r h n. ground (arith, lookup-insert k j q' qs, v.ready j r);
  aimed =
      λ i j h. ground (arith, lookup-insert k j q' qs, key_equal_iff k j, v.aimed i j, v.zero_free);
}

-- A queue with no source goes.
pub remove-Inv :
    (qs : Queues) (src : Sources) (next : ℕ) (k : Key) (q : Queue)
    → lookup k qs ≡ some q
    → q.idle_id ≡ 0
    → Inv qs src next
    → Inv (remove k qs) src next
remove-Inv qs src next k q found off v = record {
  distinct = remove-Distinct k qs v.distinct;
  fresh = v.fresh;
  zero_free = v.zero_free;
  positive = v.positive;
  armed = λ j r h n. ground (arith, lookup-remove k j qs v.distinct, v.armed j r);
  ready = λ j r h n. ground (arith, lookup-remove k j qs v.distinct, v.ready j r);
  aimed = λ i j h.
      ground (arith, lookup-remove k j qs v.distinct, key_equal_iff k j, v.aimed i j, v.zero_free);
}

-- A new queue comes.
pub add-Inv :
    (qs : Queues) (src : Sources) (next : ℕ) (k : Key) (q : Queue)
    → lookup k qs ≡ none
    → q.idle_id ≡ 0
    → Inv qs src next
    → Inv (insert k q qs) src next
add-Inv qs src next k q missing off v = record {
  distinct = insert-Distinct k q qs v.distinct;
  fresh = v.fresh;
  zero_free = v.zero_free;
  positive = v.positive;
  armed = λ j r h n. ground (arith, lookup-insert k j q qs, v.armed j r);
  ready = λ j r h n. ground (arith, lookup-insert k j q qs, v.ready j r);
  aimed = λ i j h. ground (arith, lookup-insert k j q qs, key_equal_iff k j, v.aimed i j);
}

-- A source that runs no queue comes.
pub other-Inv :
    (qs : Queues) (src : Sources) (next : ℕ) (f : Source)
    → ((k : Key) → f ≢ process_on k)
    → Inv qs src next
    → Inv qs (λ i. if i == next then some f else src i) (suc next)
other-Inv qs src next f other v = record {
  distinct = v.distinct;
  fresh = λ i h. ground (arith, v.fresh i);
  zero_free = ground (arith, v.zero_free, v.positive);
  positive = omega arith;
  armed = λ j r h n. ground (arith, v.armed j r, v.fresh r.idle_id);
  ready = v.ready;
  aimed = λ i j h. ground (arith, v.aimed i j, other j);
}

-- A source that runs no queue goes.
pub unfire-Inv :
    (qs : Queues) (src : Sources) (next i : ℕ)
    → ((k : Key) → src i ≢ some (process_on k))
    → Inv qs src next
    → Inv qs (λ j. if j == i then none else src j) next
unfire-Inv qs src next i other v = record {
  distinct = v.distinct;
  fresh = λ j h. ground (arith, v.fresh j);
  zero_free = ground (arith, v.zero_free);
  positive = v.positive;
  armed = λ j r h n. ground (arith, v.armed j r h n, other j);
  ready = v.ready;
  aimed = λ j k h. ground (arith, v.aimed j k);
}
