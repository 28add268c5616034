-- ===== src/Upnp/Construction.antt =====
-- The queue that builds a device is set up without a null pointer.
use renderer_service_upnp.Prelude.{
  ℕ, String, Bool, true, false, not, ◌&&◌, [], ◌∷◌, ◌++◌, Option, none, some, nat_eq, ◌≡◌, subst,
  sym, some_inj, if◌then◌else◌, arith, ◌>>=◌,
}
use renderer_service_upnp.Processor.State.{
  Key, key_eq, Atom, service, Action, Queue, Processor, put, get_protocol_info, subscribe, declare,
}
use renderer_service_upnp.Processor.Callbacks.{arm}
use renderer_service_upnp.Processor.Queues.{
  queue_new, add_queue, is_quiet, queue_start, enqueue, add_task, set_finally, set_user_data,
  service_task_add,
}
use renderer_service_upnp.Processor.Sound.{Found, put-Found}
use renderer_service_upnp.Upnp.Discovery.{device_tasks, building_queue}

-- A processor that has the queue of a key.
abbrev Has : Key → Processor → Type 0
Has k s = (q : Queue) × Found k q s

-- A step of the set-up: it returns, and the queue is still there.
abbrev Goes : Key → Option Processor → Type 0
Goes k o = (s : Processor) × (o ≡ some s) × Has k s

put-Has : (k : Key) (q : Queue) (s : Processor) → Has k (put k q s)
put-Has k q s = (q, put-Found k q s)

arm-Has : (k : Key) (q : Queue) (s : Processor) → Has k (arm k q s)
unfolding arm
arm-Has k q s = put-Has k _ _

if-Has : (b : Bool) (k : Key) (s t : Processor) → Has k s → Has k t → Has k (if b then s else t)
if-Has true k s t h h' = h
if-Has false k s t h h' = h'

enqueue-Has : (k : Key) (a : Atom) (q : Queue) (s : Processor) → Has k (enqueue k a q s)
unfolding enqueue
enqueue-Has k a q s =
    let q' = record q { tasks = q.tasks ++ a ∷ [] } in
    if-Has q'.defer_remove k _ _ (put-Has k q' s)
      (if-Has (q'.auto_start && is_quiet q') k _ _ (arm-Has k q' (put k q' s)) (put-Has k q' s))

service_task_add-Goes :
    (k : Key) (action : Action) (callback free : Bool) (path : String) (s : Processor)
    → Has k s
    → Goes k (service_task_add k action callback free path s)
unfolding service_task_add add_task
service_task_add-Goes k action callback free path s (q, found) =
    let a = service (record {
      t_action = action;
      has_callback = callback;
      has_free_func = free;
      p_action = none;
      device = path;
    }) in
    (enqueue k a q s, ground arith, enqueue-Has k a q s)

queue_start-Goes : (k : Key) (s : Processor) → Has k s → Goes k (queue_start k s)
unfolding queue_start
queue_start-Goes k s (q, found) = (
  if not q.defer_remove && is_quiet q then arm k q s else s,
  ground arith,
  if-Has (not q.defer_remove && is_quiet q) k _ _ (arm-Has k q s) (q, found),
)

set_finally-Goes : (k : Key) (s : Processor) → Has k s → Goes k (set_finally k s)
unfolding set_finally
set_finally-Goes k s (q, found) = (
  put k (record q { has_finally = true }) s,
  ground arith,
  put-Has k (record q { has_finally = true }) s,
)

set_user_data-Goes : (k : Key) (d : ℕ) (s : Processor) → Has k s → Goes k (set_user_data k d s)
unfolding set_user_data
set_user_data-Goes k d s (q, found) =
    (put k (record q { user_data = d }) s, ground arith, put-Has k (record q { user_data = d }) s)

-- One step after another.
bind-Goes :
    (k : Key) (o : Option Processor) (f : Processor → Option Processor)
    → Goes k o
    → ((s : Processor) → Has k s → Goes k (f s))
    → Goes k (o >>= f)
bind-Goes k none f (s, e, h) g = cc
bind-Goes k (some t) f (s, e, h) g = g t (subst (Has k) (sym (some_inj e)) h)

device_tasks-Goes :
    (k : Key) (path : String) (s : Processor) → Has k s → Goes k (device_tasks k path s)
unfolding device_tasks
device_tasks-Goes k path s h =
    bind-Goes k _ _ (service_task_add-Goes k get_protocol_info true false path s h) λ s1 h1.
      bind-Goes k _ _ (service_task_add-Goes k subscribe false false path s1 h1) λ s2 h2.
        bind-Goes k _ _ (service_task_add-Goes k declare false true path s2 h2)
          λ s3 h3. queue_start-Goes k s3 h3

pub building_queue-Goes :
    (k : Key) (priv : ℕ) (path : String) (s : Processor) → Goes k (building_queue k priv path s)
unfolding building_queue add_queue
building_queue-Goes k priv path s =
    bind-Goes k _ _ (set_finally-Goes k _ (put-Has k (queue_new false true) s))
      λ s1 h1. bind-Goes k _ _ (set_user_data-Goes k priv s1 h1) (device_tasks-Goes k path)
