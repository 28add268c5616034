-- ===== src/Processor/State.antt =====
-- src/task-processor.c: the processor, its queues and their keys. The idle sources of GLib's main
-- loop are part of the state: g_idle_add gives a source an id that was never used, and a source is
-- gone once it has fired or was removed.
use renderer_service_upnp.Prelude.{
  ℕ, suc, String, ◌≡◌, ◌↔◌, Bool, true, false, ◌&&◌, List, [], ◌++◌, Option, none, some, arith, Eq,
  ◌==◌, nat_eq, string_eq, eq_iff, if◌then◌else◌,
}
use renderer_service_upnp.Dict.{insert}
use renderer_service_upnp.Task.{Task}
use renderer_service_upnp.Task

-- rsu_task_queue_key_t; its `processor` is the only one that there is
pub record Key : Type 0 where
  pub source : String
  pub sink : String

-- prv_task_queue_key_equal_cb
unfoldable pub key_equal : Key → Key → Bool
key_equal a b = a.source == b.source && a.sink == b.sink

pub key_equal_iff : (a b : Key) → (key_equal a b ≡ true) ↔ (a ≡ b)
unfolding key_equal
key_equal_iff a b = ground (arith, eq_iff a.source b.source, eq_iff a.sink b.sink)

instance abbrev pub key_eq : Eq Key
key_eq = record { beq = key_equal; beq_iff = key_equal_iff }

-- The `t_action` of a service task.
pub data Action : Type 0 where
  get_protocol_info subscribe declare : Action

-- rsu_service_task_t; `p_action` numbers the UPnP call in flight
pub record ServiceTask : Type 0 where
  pub t_action : Action
  pub has_callback : Bool
  pub has_free_func : Bool
  pub p_action : Option ℕ
  pub device : String

-- rsu_task_atom_t. The tasks of one queue are of one kind, so the kind of the task decides which
-- callbacks the queue was given.
pub data Atom : Type 0 where
  client : Task → Atom
  service : ServiceTask → Atom

-- rsu_task_queue_t; the two flags apart, and `idle_id` 0 for no source
pub record Queue : Type 0 where
  pub tasks : List Atom
  pub current_task : Option Atom
  pub idle_id : ℕ
  pub defer_remove : Bool
  pub auto_start : Bool
  pub auto_remove : Bool
  pub has_finally : Bool
  pub user_data : ℕ
  pub cancelled : Bool

-- What an idle source calls: prv_task_queue_process_task, prv_task_queue_finally_cb, `on_quit_cb`,
-- and rsu_async_task_complete for the current task of a queue.
pub data Source : Type 0 where
  process_on : Key → Source
  finally_of : Bool → ℕ → Source
  on_quit : Source
  complete_on : Key → Source

-- What the outside sees.
pub data Output : Type 0 where
  task_effect : Task.Effect → Output
  cancel_action : ℕ → Output
  service_callback : ServiceTask → Output
  free_user_data : ServiceTask → Output
  run_finally : Bool → ℕ → Output
  quit : Output

-- rsu_task_processor_t, with the main loop and the output so far
pub record Processor : Type 0 where
  pub task_queues : List (Key × Queue)
  pub running_tasks : ℕ
  pub quitting : Bool
  pub sources : ℕ → Option Source
  pub next_id : ℕ
  pub outputs : List Output

-- rsu_task_processor_new
unfoldable pub processor_new : Processor
processor_new = record {
  task_queues = [];
  running_tasks = 0;
  quitting = false;
  sources = λ i. none;
  next_id = 1;
  outputs = [];
}

-- g_idle_add; the id is `next_id`
unfoldable pub idle_add : Source → Processor → Processor
idle_add f s = record s {
  sources = λ i. if i == s.next_id then some f else s.sources i;
  next_id = suc s.next_id;
}

-- g_source_remove
unfoldable pub source_remove : ℕ → Processor → Processor
source_remove id s = record s { sources = λ i. if i == id then none else s.sources i }

unfoldable pub emit : List Output → Processor → Processor
emit out s = record s { outputs = s.outputs ++ out }

-- The queue is shared by pointer: a change to it shows in the table.
unfoldable pub put : Key → Queue → Processor → Processor
put k q s = record s { task_queues = insert k q s.task_queues }
