-- ===== src/Processor/Tests.antt =====
-- Runs of the processor at concrete queues and tasks, and its theorems at concrete inputs.
use renderer_service_upnp.Prelude.{
  ℕ, ◌≡◌, refl, ◌+◌, ◌%◌, Bool, true, false, [], ◌∷◌, Option, none, some,
}
use renderer_service_upnp.Dict.{lookup, insert, total}
use renderer_service_upnp.Task.{Task}
use renderer_service_upnp.Task.New.{play_new}
use renderer_service_upnp.Processor.State.{
  Key, key_eq, Atom, client, service, ServiceTask, declare, Queue, process_on, Processor,
  processor_new, source_remove, put,
}
use renderer_service_upnp.Processor.Callbacks.{uint_mod}
use renderer_service_upnp.Processor.Cancel.{set_quitting, cancel_queue}
use renderer_service_upnp.Processor.Queues.{queue_new, add_queue, enqueue, set_finally}
use renderer_service_upnp.Processor.Run.{process_task, start_first}
use renderer_service_upnp.Processor.Invariant.{IsSound}
use renderer_service_upnp.Processor.Steps.{Runs}
use renderer_service_upnp.Processor.Answers.{out_replies, queue_owes}
use renderer_service_upnp.Processor.Reach.{
  Reach, new, after, adds_queue, adds_task, quits, Reach-IsSound, process_task-safe, sets_finally,
}
use renderer_service_upnp.Processor.OneAnswer.{asked, answers-Reach}
use renderer_service_upnp.Processor.Busy.{busy}
use renderer_service_upnp.Processor.Counted.{Reach-counted}
use renderer_service_upnp.Processor.Quitting.{Quits}
use renderer_service_upnp.Processor.Quits.{Reach-Quits}
use renderer_service_upnp.Processor.Finally.{Told, cancel_queue-Told}
use renderer_service_upnp.Processor.Sound.{put-Found}
use renderer_service_upnp.Processor.Stall.{StalledAt, failed_action-StalledAt}

abbrev play : Task
play = play_new (λ s. s) (record { serial = 7; sender = ":1.42" }) "/dev/0"

abbrev to_device : Key
to_device = record { source = ":1.42"; sink = "/dev/0" }

abbrev upnp : Task → Task × Bool
upnp t = (t, true)

abbrev failing : ServiceTask → Option ℕ × Bool
failing t = (none, true)

abbrev declaring : ServiceTask
declaring = record {
  t_action = declare;
  has_callback = false;
  has_free_func = false;
  p_action = none;
  device = "/dev/0";
}

abbrev with_queue : Processor
with_queue = add_queue to_device true false processor_new

abbrev with_task : Processor
with_task = enqueue to_device (client play) (queue_new true false) with_queue

history : Reach ("/dev/0" ∷ []) upnp failing with_task
unfolding processor_new add_queue enqueue queue_new lookup
    renderer_service_upnp.Processor.Queues.add_task renderer_service_upnp.Processor.State.put insert
    renderer_service_upnp.Processor.State.key_equal
history =
    after (after new (adds_queue to_device true false refl))
      (adds_task to_device (client play) refl)

answers-Reach_example :
    out_replies 7 with_task.outputs + total (queue_owes 7) with_task.task_queues
    ≡ asked 7 ("/dev/0" ∷ []) upnp failing (λ t. refl) history
answers-Reach_example = answers-Reach 7 ("/dev/0" ∷ []) upnp failing (λ t. refl) history

process_task-safe_example :
    Runs (process_task ("/dev/0" ∷ []) upnp failing to_device (source_remove 1 with_task))
unfolding processor_new add_queue enqueue queue_new renderer_service_upnp.Processor.Callbacks.arm
    renderer_service_upnp.Processor.State.put renderer_service_upnp.Processor.State.idle_add
process_task-safe_example =
    process_task-safe ("/dev/0" ∷ []) upnp failing with_task 1 to_device history refl

Reach-IsSound_example : IsSound with_task
Reach-IsSound_example = Reach-IsSound ("/dev/0" ∷ []) upnp failing history

Reach-counted_example : with_task.running_tasks % uint_mod ≡ busy with_task % uint_mod
Reach-counted_example = Reach-counted ("/dev/0" ∷ []) upnp failing history

-- The processor is told to quit while the task waits.
Reach-Quits_example : Quits (set_quitting with_task)
unfolding processor_new add_queue enqueue queue_new set_quitting
    renderer_service_upnp.Processor.Callbacks.arm renderer_service_upnp.Processor.State.put
    renderer_service_upnp.Processor.State.idle_add insert
    renderer_service_upnp.Processor.State.key_equal
Reach-Quits_example = Reach-Quits ("/dev/0" ∷ []) upnp failing (after history quits) refl refl

failed_action-StalledAt_example :
    (s' : Processor) × (start_first
        ("/dev/0" ∷ [])
        upnp
        failing
        to_device
        (queue_new false true)
        (service declaring ∷ [])
        with_queue
      ≡ some s')
    × StalledAt to_device declaring ((with_queue.running_tasks + 1) % uint_mod) s'
failed_action-StalledAt_example =
    failed_action-StalledAt ("/dev/0" ∷ []) upnp failing to_device (queue_new false true) declaring
      [] with_queue refl

abbrev ending : Queue
ending = record (queue_new false true) { has_finally = true }

abbrev with_finally : Processor
with_finally = put to_device ending (add_queue to_device false true processor_new)

finally_history : Reach ("/dev/0" ∷ []) upnp failing with_finally
unfolding processor_new add_queue queue_new lookup insert set_finally
    renderer_service_upnp.Processor.State.put renderer_service_upnp.Processor.State.key_equal
finally_history =
    after (after new (adds_queue to_device false true refl)) (sets_finally to_device refl)

-- The queue runs nothing and goes when it is done.
cancel_queue-Told_example :
    (s' : Processor) × (cancel_queue to_device with_finally ≡ some s') × Told to_device 0 s'
unfolding queue_new
cancel_queue-Told_example =
    cancel_queue-Told to_device ending with_finally
      (Reach-IsSound ("/dev/0" ∷ []) upnp failing finally_history)
      (put-Found to_device ending (add_queue to_device false true processor_new)) refl
