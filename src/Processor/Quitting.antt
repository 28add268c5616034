-- ===== src/Processor/Quitting.antt =====
-- The quit callback: what schedules it, and what leaves it pending.
use renderer_service_upnp.Prelude.{
  ℕ, ◌+◌, ◌-◌, ◌%◌, ◌<◌, ◌≤◌, ◌≡◌, ◌≢◌, refl, ◌∙◌, List, [], ◌∷◌, ◌++◌, Option, none, some, arith,
  true, false, Bool, ◌||◌, ◌&&◌, nat_eq, Bool-cases, Option-cases, inl, inr, ◌==◌, if◌then◌else◌,
  map,
}
use renderer_service_upnp.Dict.{remove}
use renderer_service_upnp.Task
use renderer_service_upnp.Processor.State.{
  Key, key_eq, Atom, client, service, Queue, Source, on_quit, finally_of, process_on, complete_on,
  Output, quit, cancel_action, Processor, idle_add, source_remove, emit, put, task_effect,
}
use renderer_service_upnp.Processor.Callbacks.{
  uint_mod, has_tasks, queue_free, remove_queue, arm, after_completion, delete_current, completed,
  delete_all,
}
use renderer_service_upnp.Processor.Cancel.{
  unsource, cancel_running, cancel_current, reaches_cancelled,
}

abbrev is_quit : Output → Bool
is_quit quit = true
is_quit _ = false

abbrev pub has_quit : List Output → Bool
has_quit [] = false
has_quit (o ∷ os) = is_quit o || has_quit os

pub has_quit-append : (a b : List Output) → has_quit (a ++ b) ≡ (has_quit a || has_quit b)
has_quit-append [] b = refl
has_quit-append (o ∷ os) b = ground (arith, has_quit-append os b)

-- The quit callback is scheduled, or has run.
pub data Quits (s : Processor) : Type 0 where
  pending : (i : ℕ) → s.sources i ≡ some on_quit → Quits s
  ran : has_quit s.outputs ≡ true → Quits s

-- Ids from `next_id` on are free, and the counter is a guint.
pub record IsWell (s : Processor) : Type 0 where
  pub fresh : (i : ℕ) → s.next_id ≤ i → s.sources i ≡ none
  pub small : s.running_tasks < uint_mod

-- What becomes of a state when no quit callback is taken out.
pub record Leads (s s' : Processor) : Type 0 where
  pub same_quitting : s'.quitting ≡ s.quitting
  pub well : IsWell s → IsWell s'
  pub kept : IsWell s → Quits s → Quits s'

pub Leads-refl : (s : Processor) → Leads s s
Leads-refl s = record { same_quitting = refl; well = λ w. w; kept = λ w p. p }

pub Leads-trans : {a b c : Processor} → Leads a b → Leads b c → Leads a c
Leads-trans f g = record {
  same_quitting = g.same_quitting ∙ f.same_quitting;
  well = λ w. g.well (f.well w);
  kept = λ w p. g.kept (f.well w) (f.kept w p);
}

pub put-Leads : (k : Key) (q : Queue) (s : Processor) → Leads s (put k q s)
unfolding put
put-Leads k q s = record {
  same_quitting = refl;
  well = λ w. record { fresh = w.fresh; small = w.small };
  kept = λ w p. elim p [ pending i e ↦ pending i e | ran e ↦ ran e ];
}

pub emit-Leads : (out : List Output) (s : Processor) → Leads s (emit out s)
unfolding emit
emit-Leads out s = record {
  same_quitting = refl;
  well = λ w. record { fresh = w.fresh; small = w.small };
  kept = λ w p. elim p [
    | pending i e ↦ pending i e
    | ran e ↦ ran (ground (arith, has_quit-append s.outputs out))
  ];
}

pub idle_add-Leads : (f : Source) (s : Processor) → Leads s (idle_add f s)
unfolding idle_add
idle_add-Leads f s = record {
  same_quitting = refl;
  well = λ w. record { fresh = λ i h. ground (arith, w.fresh i); small = w.small };
  kept = λ w p. elim p [ pending i e ↦ pending i (ground (arith, w.fresh i)) | ran e ↦ ran e ];
}

pub source_remove-Leads :
    (i : ℕ) (s : Processor) → s.sources i ≢ some on_quit → Leads s (source_remove i s)
unfolding source_remove
source_remove-Leads i s other = record {
  same_quitting = refl;
  well = λ w. record { fresh = λ j h. ground (arith, w.fresh j); small = w.small };
  kept = λ w p. elim p [ pending j e ↦ pending j (ground (arith, other)) | ran e ↦ ran e ];
}

pub count-Leads : (n : ℕ) (s : Processor) → n < uint_mod → Leads s (record s { running_tasks = n })
count-Leads n s h = record {
  same_quitting = refl;
  well = λ w. record { fresh = w.fresh; small = h };
  kept = λ w p. elim p [ pending i e ↦ pending i e | ran e ↦ ran e ];
}

tables-Leads : (qs : List (Key × Queue)) (s : Processor) → Leads s (record s { task_queues = qs })
tables-Leads qs s = record {
  same_quitting = refl;
  well = λ w. record { fresh = w.fresh; small = w.small };
  kept = λ w p. elim p [ pending i e ↦ pending i e | ran e ↦ ran e ];
}

queue_free-Leads : (q : Queue) (s : Processor) → Leads s (queue_free q s)
unfolding queue_free
queue_free-Leads q s =
    let told = emit-Leads (delete_all q.tasks) s in
    elim (Bool-cases q.has_finally) [
      | inl e ↦ rw e (Leads-trans told (idle_add-Leads (finally_of q.cancelled q.user_data) _))
      | inr e ↦ rw e told
    ]

pub remove_queue-Leads : (k : Key) (q : Queue) (s : Processor) → Leads s (remove_queue k q s)
unfolding remove_queue
remove_queue-Leads k q s =
    Leads-trans (tables-Leads (remove k s.task_queues) s) (queue_free-Leads q _)

pub arm-Leads : (k : Key) (q : Queue) (s : Processor) → Leads s (arm k q s)
unfolding arm
arm-Leads k q s = Leads-trans (idle_add-Leads (process_on k) s) (put-Leads k _ _)

pub if-Leads : (b : Bool) (s t u : Processor) → Leads s t → Leads s u → Leads s (if b then t else u)
if-Leads true s t u f g = f
if-Leads false s t u f g = g

pub after_completion-Leads :
    (k : Key) (q : Queue) (s : Processor) → Leads s (after_completion k q s)
unfolding after_completion
after_completion-Leads k q s = if-Leads _ s _ _ (idle_add-Leads on_quit s) (
    if-Leads q.defer_remove s _ _ (remove_queue-Leads k q s) (
      if-Leads (has_tasks q.tasks) s _ _ (arm-Leads k q s)
        (if-Leads q.auto_remove s _ _ (remove_queue-Leads k q s) (Leads-refl s))))

pub completed-Leads : (k : Key) (q : Queue) (s : Processor) → Leads s (completed k q s)
unfolding completed
completed-Leads k q s =
    let n = (s.running_tasks + uint_mod - 1) % uint_mod in
    Leads-trans (count-Leads n s (omega arith)) (
      Leads-trans (emit-Leads (delete_current q.current_task) _)
        (Leads-trans (put-Leads k _ _) (after_completion-Leads k _ _)))

pub after_completion-counts :
    (k : Key) (q : Queue) (s : Processor) → (after_completion k q s).running_tasks ≡ s.running_tasks
unfolding after_completion idle_add remove_queue queue_free arm put emit
after_completion-counts k q s = ground arith

-- The last running task of a processor that quits schedules the callback.
pub after_completion-Quits :
    (k : Key) (q : Queue) (s : Processor)
    → s.quitting ≡ true
    → (after_completion k q s).running_tasks ≡ 0
    → Quits (after_completion k q s)
unfolding after_completion idle_add
after_completion-Quits k q s quitting zero =
    let last : (s.quitting && s.running_tasks == 0) ≡ true =
      ground (arith, after_completion-counts k q s) in
    simp last (pending s.next_id (ground arith))

cancel_current-Leads :
    (k : Key) (q : Queue) (a : Atom) (s : Processor) → Leads s (cancel_current k q a s)
unfolding cancel_current
cancel_current-Leads k q (client t) s =
    let told = emit-Leads (map task_effect (Task.cancel t).1) s in
    if-Leads (reaches_cancelled (Task.cancel t).0) s _ _
      (Leads-trans told (Leads-trans (put-Leads k _ _) (idle_add-Leads (complete_on k) _)))
      (Leads-trans told (put-Leads k _ _))
cancel_current-Leads k q (service t) s = elim (Option-cases t.p_action) [
  | inl p ↦ rw p (Leads-refl s)
  | inr (n, p) ↦ rw p (
      Leads-trans (emit-Leads (cancel_action n ∷ []) s)
        (Leads-trans (put-Leads k _ _) (completed-Leads k _ _)))
]

cancel_running-Leads :
    (k : Key) (q : Queue) (o : Option Atom) (s : Processor) → Leads s (cancel_running k q o s)
unfolding cancel_running
cancel_running-Leads k q none s =
    if-Leads q.auto_remove s _ _ (remove_queue-Leads k q s) (Leads-refl s)
cancel_running-Leads k q (some a) s = cancel_current-Leads k q a s

pub unsource-Leads :
    (q : Queue) (s : Processor)
    → (q.idle_id ≢ 0 → s.sources q.idle_id ≢ some on_quit)
    → Leads s (unsource q s)
unfolding unsource
unsource-Leads q s other = elim (Bool-cases (q.idle_id == 0)) [
  | inl e ↦ rw e (Leads-refl s)
  | inr e ↦ rw e (source_remove-Leads q.idle_id s (other (ground arith)))
]
