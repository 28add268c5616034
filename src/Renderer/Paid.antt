-- ===== src/Renderer/Paid.antt =====
-- What a handler's steps do to the answers that the processor has given and owes.
use renderer_service_upnp.Prelude.{
  ℕ, ◌+◌, ◌≡◌, refl, String, [], ◌∷◌, Option, none, some, true, false, arith, nat_eq, string_eq,
  if◌then◌else◌,
}
use renderer_service_upnp.Dict.{lookup, lookup-insert_self}
use renderer_service_upnp.Error.{object_not_found}
use renderer_service_upnp.Task.{Task, return_value, return_error}
use renderer_service_upnp.Task.Kinds.{Invocation}
use renderer_service_upnp.Task.Replies.{owes, owed_to}
use renderer_service_upnp.Processor.State.{
  Key, key_eq, client, Queue, task_effect, Processor, emit, put,
}
use renderer_service_upnp.Processor.Cancel.{
  set_quitting, remove_queues_for_source, queue_cancel, cancel_queue,
}
use renderer_service_upnp.Processor.Queues.{queue_new, add_queue, has_key, enqueue, add_task}
use renderer_service_upnp.Processor.Invariant.{IsSound}
use renderer_service_upnp.Processor.Sound.{Found, queue_cancel-IsSound}
use renderer_service_upnp.Processor.Walks.{set_quitting-IsSound, remove_queues_for_source-IsSound}
use renderer_service_upnp.Processor.Steps.{enqueue-IsSound}
use renderer_service_upnp.Processor.Answers.{balance, balance-emit, queue_cancel-balance}
use renderer_service_upnp.Processor.Balance.{balance-IsConserved, enqueue-balance}
use renderer_service_upnp.Processor.Conserved.{set_quitting-keeps, remove_queues_for_source-keeps}
use renderer_service_upnp.Processor.Reach.{Step, adds_queue, Step-IsSound}
use renderer_service_upnp.Processor.OneAnswer.{Step-balance}
use renderer_service_upnp.Renderer.Context.{queue_for}
use renderer_service_upnp.Renderer.Calls.{cancel_found}

-- A processor that a call leads to: sound, with `m` more answers given or owed to the call `n`.
pub record IsPaid (n m : ℕ) (s s' : Processor) : Type 0 where
  pub sound : IsSound s'
  pub paid : balance n s' ≡ balance n s + m

module _ (n : ℕ) (s : Processor) (v : IsSound s) where
  pub new_queue-IsPaid :
      (k : Key) → lookup k s.task_queues ≡ none → IsPaid n 0 s (add_queue k true false s)
  new_queue-IsPaid k missing =
      let st : Step [] (λ t. (t, false)) (λ t. (none, false)) s _ =
        adds_queue k true false missing in
      record { sound = Step-IsSound _ _ _ st v; paid = Step-balance n _ _ _ (λ t. refl) st v }

  pub queue_for-IsPaid :
      (k : Key) (o : Option Queue)
      → lookup k s.task_queues ≡ o
      → let s' = queue_for k (if has_key o then some k else none) s in
        (q : Queue) × Found k q s' × IsPaid n 0 s s'
  unfolding has_key queue_for add_queue put
  queue_for-IsPaid k none e =
      (queue_new true false, lookup-insert_self k _ s.task_queues, new_queue-IsPaid k e)
  queue_for-IsPaid k (some q) e = (q, e, record { sound = v; paid = omega arith })

  pub cancel_found-IsPaid :
      (k : Key) (o : Option Queue)
      → lookup k s.task_queues ≡ o
      → (s' : Processor) × (cancel_found (if has_key o then some k else none) s ≡ some s')
        × IsPaid n 0 s s'
  unfolding has_key cancel_found cancel_queue
  cancel_found-IsPaid k none e = (s, refl, record { sound = v; paid = omega arith })
  cancel_found-IsPaid k (some q) e = (
    queue_cancel k q s,
    ground arith,
    record {
      sound = queue_cancel-IsSound k q s e v;
      paid = omega (arith, queue_cancel-balance n k q s e);
    },
  )

  pub remove_source-IsPaid : (name : String) → IsPaid n 0 s (remove_queues_for_source name s)
  remove_source-IsPaid name = record {
    sound = remove_queues_for_source-IsSound name s v;
    paid =
        omega (arith, remove_queues_for_source-keeps (balance n) (balance-IsConserved n) name s v);
  }

  pub set_quitting-IsPaid : IsPaid n 0 s (set_quitting s)
  set_quitting-IsPaid = record {
    sound = set_quitting-IsSound s v;
    paid = omega (arith, set_quitting-keeps (balance n) (balance-IsConserved n) s v);
  }

  pub value-IsPaid :
      (i : Invocation)
      → IsPaid n (owed_to n (some i)) s (emit (task_effect (return_value i none) ∷ []) s)
  unfolding emit
  value-IsPaid i = record {
    sound = v;
    paid = omega (arith, balance-emit n (task_effect (return_value i none) ∷ []) s);
  }

  pub error-IsPaid :
      (i : Invocation)
      → IsPaid n
          (owed_to n (some i))
          s
          (emit (task_effect (return_error i object_not_found) ∷ []) s)
  unfolding emit
  error-IsPaid i = record {
    sound = v;
    paid = omega (arith, balance-emit n (task_effect (return_error i object_not_found) ∷ []) s);
  }

pub then-IsPaid :
    (n m : ℕ) {s s' t : Processor} → IsPaid n 0 s s' → IsPaid n m s' t → IsPaid n m s t
then-IsPaid n m p q = record { sound = q.sound; paid = omega (arith, p.paid, q.paid) }

pub add_task-IsPaid :
    (n : ℕ) (s : Processor) (k : Key) (q : Queue) (t : Task)
    → IsSound s
    → Found k q s
    → (s' : Processor) × (add_task k (client t) s ≡ some s') × IsPaid n (owes n t) s s'
unfolding add_task
add_task-IsPaid n s k q t v found = (
  enqueue k (client t) q s,
  ground arith,
  record {
    sound = enqueue-IsSound k (client t) q s found v;
    paid = enqueue-balance n k (client t) q s found;
  },
)
