-- ===== src/Processor/Conserved.antt =====
-- The walks over all queues conserve what cancelling one queue and taking out one conserve.
use renderer_service_upnp.Prelude.{String, ℕ, ◌≡◌, refl, ◌∙◌, none, true, Bool, nat_eq, string_eq}
use renderer_service_upnp.Processor.State.{
  Key, key_eq, Queue, Processor, Source, on_quit, idle_add, put,
}
use renderer_service_upnp.Processor.Cancel.{
  queue_cancel, set_quitting, remove_queues_for_source, remove_queues_for_sink,
}
use renderer_service_upnp.Processor.Callbacks.{remove_queue}
use renderer_service_upnp.Processor.Invariant.{IsSound}
use renderer_service_upnp.Processor.Sound.{Found}
use renderer_service_upnp.Processor.Kept.{
  IsKept, set_quitting-kept, remove_queues_for_source-kept, remove_queues_for_sink-kept,
}

-- A number that stays as it is when one queue is cancelled, or taken out where it runs nothing, or
-- marked for later removal, and when the processor starts to quit or schedules an idle source.
pub record IsConserved (measure : Processor → ℕ) : Type 0 where
  pub cancel_keeps :
      (k : Key) (q : Queue) (s : Processor) → Found k q s → measure (queue_cancel k q s) ≡ measure s
  pub remove_keeps :
      (k : Key) (q : Queue) (s : Processor)
      → Found k q s
      → q.current_task ≡ none
      → measure (remove_queue k q s) ≡ measure s
  pub defer_keeps :
      (k : Key) (q : Queue) (b : Bool) (s : Processor)
      → Found k q s
      → measure (put k (record q { defer_remove = b }) s) ≡ measure s
  pub quit_keeps : (s : Processor) → measure (record s { quitting = true }) ≡ measure s
  pub idle_keeps : (f : Source) (s : Processor) → measure (idle_add f s) ≡ measure s

module _ (measure : Processor → ℕ) (c : IsConserved measure) where
  -- What has the measure that it had in the state `s`.
  IsConserved-IsKept : (s : Processor) → IsKept (λ s'. measure s' ≡ measure s)
  IsConserved-IsKept s = record {
    spared = record {
      cancel_keeps = λ k q s' found v e. c.cancel_keeps k q s' found ∙ e;
      remove_keeps = λ k q s' found idle e. c.remove_keeps k q s' found idle ∙ e;
      defer_keeps = λ k q b s' found e. c.defer_keeps k q b s' found ∙ e;
    };
    quit_running_keeps = λ s' h e. c.quit_keeps s' ∙ e;
    quit_idle_keeps =
        λ s' h e. c.idle_keeps on_quit (record s' { quitting = true }) ∙ c.quit_keeps s' ∙ e;
  }

  pub set_quitting-keeps : (s : Processor) → IsSound s → measure (set_quitting s) ≡ measure s
  set_quitting-keeps s v = set_quitting-kept _ (IsConserved-IsKept s) s v refl

  pub remove_queues_for_source-keeps :
      (name : String) (s : Processor)
      → IsSound s
      → measure (remove_queues_for_source name s) ≡ measure s
  remove_queues_for_source-keeps name s v =
      remove_queues_for_source-kept _ (IsConserved-IsKept s).spared name s v refl

  pub remove_queues_for_sink-keeps :
      (name : String) (s : Processor)
      → IsSound s
      → measure (remove_queues_for_sink name s) ≡ measure s
  remove_queues_for_sink-keeps name s v =
      remove_queues_for_sink-kept _ (IsConserved-IsKept s).spared name s v refl
