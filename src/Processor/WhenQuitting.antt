-- ===== src/Processor/WhenQuitting.antt =====
-- What src/task-processor.c does with `quitting`: rsu_task_processor_set_quitting sets it, and no walk
-- over the queues changes it.
use renderer_service_upnp.Prelude.{
  String, ◌≡◌, refl, ◌∙◌, true, Bool, ltb, Bool-cases, inl, inr, nat_eq, string_eq,
}
use renderer_service_upnp.Processor.State.{key_eq, Processor, idle_add}
use renderer_service_upnp.Processor.Cancel.{set_quitting, remove_queues_for_source}
use renderer_service_upnp.Processor.Invariant.{IsSound}
use renderer_service_upnp.Processor.Quitting.{put-Leads, remove_queue-Leads}
use renderer_service_upnp.Processor.Lively.{queue_cancel-Lively, armed-IsOwn}
use renderer_service_upnp.Processor.Walks.{Listed-self}
use renderer_service_upnp.Processor.Kept.{
  IsSpared, remove_queues_for_source-kept, cancel_queues-kept,
}

abbrev Quitting : Bool → Processor → Type 0
Quitting b s = s.quitting ≡ b

Quitting-IsSpared : (b : Bool) → IsSpared (Quitting b)
Quitting-IsSpared b = record {
  cancel_keeps = λ k q s found v e.
      (queue_cancel-Lively k q s found (armed-IsOwn k q s found v)).leads.same_quitting ∙ e;
  remove_keeps = λ k q s found idle e. (remove_queue-Leads k q s).same_quitting ∙ e;
  defer_keeps =
      λ k q b s found e. (put-Leads k (record q { defer_remove = b }) s).same_quitting ∙ e;
}

pub remove_queues_for_source-quitting :
    (name : String) (s : Processor)
    → IsSound s
    → (remove_queues_for_source name s).quitting ≡ s.quitting
remove_queues_for_source-quitting name s v =
    remove_queues_for_source-kept (Quitting s.quitting) (Quitting-IsSpared s.quitting) name s v refl

pub set_quitting-quitting : (s : Processor) → IsSound s → (set_quitting s).quitting ≡ true
unfolding set_quitting idle_add
set_quitting-quitting s v = elim (Bool-cases (ltb 0 s.running_tasks)) [
  | inl e ↦ rw e (
      cancel_queues-kept (Quitting true) (Quitting-IsSpared true) s.task_queues _ v.distinct
        (Listed-self _ v.distinct) v refl)
  | inr e ↦ rw e refl
]
