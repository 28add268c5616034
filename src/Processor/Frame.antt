-- ===== src/Processor/Frame.antt =====
-- Cancelling or completing one queue leaves the others alone.
use renderer_service_upnp.Prelude.{
  ◌≡◌, ◌≢◌, ◌∙◌, Option, none, some, arith, nat_eq, Option-cases, inl, inr,
}
use renderer_service_upnp.Dict.{lookup, lookup-insert, lookup-remove_ne}
use renderer_service_upnp.Processor.State.{
  Key, key_eq, key_equal_iff, Atom, client, service, Queue, Processor, idle_add, source_remove,
  emit, put,
}
use renderer_service_upnp.Processor.Callbacks.{
  queue_free, remove_queue, arm, after_completion, completed,
}
use renderer_service_upnp.Processor.Cancel.{
  stopped, unsource, cancel_running, cancel_current, queue_cancel,
}

-- The queue that a processor has under a key.
abbrev pub at : Key → Processor → Option Queue
at j s = lookup j s.task_queues

module _ (k j : Key) (other : k ≢ j) where
  pub put-frame : (q : Queue) (s : Processor) → at j (put k q s) ≡ at j s
  unfolding put
  put-frame q s = ground (arith, lookup-insert k j q s.task_queues, key_equal_iff k j)

  pub remove_queue-frame : (q : Queue) (s : Processor) → at j (remove_queue k q s) ≡ at j s
  unfolding remove_queue queue_free emit idle_add
  remove_queue-frame q s = ground (arith, lookup-remove_ne k j s.task_queues other)

  pub arm-frame : (q : Queue) (s : Processor) → at j (arm k q s) ≡ at j s
  unfolding arm put idle_add
  arm-frame q s =
      ground (
        arith,
        lookup-insert k j (record q { idle_id = s.next_id }) s.task_queues,
        key_equal_iff k j,
      )

  pub after_completion-frame : (q : Queue) (s : Processor) → at j (after_completion k q s) ≡ at j s
  unfolding after_completion idle_add
  after_completion-frame q s = ground (arith, remove_queue-frame q s, arm-frame q s)

  pub completed-frame : (q : Queue) (s : Processor) → at j (completed k q s) ≡ at j s
  unfolding completed emit
  completed-frame q s = after_completion-frame _ _ ∙ put-frame _ _

  pub cancel_current-frame :
      (q : Queue) (a : Atom) (s : Processor) → at j (cancel_current k q a s) ≡ at j s
  unfolding cancel_current emit idle_add
  cancel_current-frame q (client t) s = grind (arith, put-frame)
  cancel_current-frame q (service t) s = elim (Option-cases t.p_action) [
    | inl e ↦ simp e
    | inr (n, e) ↦ simp e (completed-frame _ _ ∙ put-frame _ _)
  ]

  pub cancel_running-frame :
      (q : Queue) (o : Option Atom) (s : Processor) → at j (cancel_running k q o s) ≡ at j s
  unfolding cancel_running
  cancel_running-frame q (some a) s = cancel_current-frame q a s
  cancel_running-frame q none s = ground (arith, remove_queue-frame q s)

  unsource-frame : (q : Queue) (s : Processor) → at j (unsource q s) ≡ at j s
  unfolding unsource source_remove
  unsource-frame q s = ground arith

  pub queue_cancel-frame : (q : Queue) (s : Processor) → at j (queue_cancel k q s) ≡ at j s
  unfolding queue_cancel emit
  queue_cancel-frame q s =
      cancel_running-frame (stopped q) q.current_task _
      ∙ put-frame (stopped q) _
      ∙ unsource-frame q _
