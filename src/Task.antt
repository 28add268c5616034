-- ===== src/Task.antt =====
-- src/task.h and src/task.c: a request of a D-Bus client. Every function returns the task as it
-- leaves it, with the effects that the caller of D-Bus or the device can see. Memory is not
-- modelled: a deleted task is one that nothing holds any more.
pub mod Kinds
pub mod New
pub mod Replies
pub mod Tests
use renderer_service_upnp.Prelude.{
  Bool, String, List, [], ◌∷◌, ◌++◌, Option, none, some, if◌then◌else◌,
}
use renderer_service_upnp.Error.{Error, died, cancelled}
use Kinds.{TaskType, Payload, Variant, Invocation}

pub record Task : Type 0 where
  pub type : TaskType
  pub path : Option String
  pub result_format : Option String
  pub result : Option Variant
  -- `none` once the caller has been answered
  pub invocation : Option Invocation
  pub synchronous : Bool
  pub ut : Payload
  -- the fields of rsu_async_task_t that decide behaviour: a GCancellable is there;
  -- rsu_async_task_cancelled is still to run when it is cancelled (`cancel_id`); the outcome so
  -- far; `private` is there
  pub cancellable : Bool
  pub connected : Bool
  pub error : Option Error
  pub private_data : Bool

pub data Effect : Type 0 where
  return_value : Invocation → Option (String × Variant) → Effect
  return_error : Invocation → Error → Effect
  cancel_cancellable : Effect
  free_private : Effect

-- `result_format && result`
reply : Option String → Option Variant → Option (String × Variant)
reply (some f) (some v) = some (f, v)
reply _ _ = none

-- rsu_task_complete
unfoldable pub complete : Task → Task × List Effect
unfolding reply
complete t = elim t.invocation [
  | none ↦ (t, [])
  | some i ↦ (record t { invocation = none }, return_value i (reply t.result_format t.result) ∷ [])
]

-- rsu_task_fail
unfoldable pub fail : Task → Error → Task × List Effect
fail t e = elim t.invocation [
  | none ↦ (t, [])
  | some i ↦ (record t { invocation = none }, return_error i e ∷ [])
]

-- rsu_async_task_cancel
async_task_cancel : Task → List Effect
async_task_cancel t = if t.cancellable then cancel_cancellable ∷ [] else []

-- rsu_task_cancel
unfoldable pub cancel : Task → Task × List Effect
unfolding fail async_task_cancel
cancel t =
    let (t', answer) = fail t cancelled in
    (t', answer ++ (if t'.synchronous then [] else async_task_cancel t'))

-- rsu_async_task_delete
async_task_delete : Task → List Effect
async_task_delete t = if t.private_data then free_private ∷ [] else []

-- prv_rsu_task_delete
task_free : Task → List Effect
unfolding async_task_delete
task_free t = if t.synchronous then [] else async_task_delete t

-- rsu_task_delete
unfoldable pub delete : Task → List Effect
unfolding task_free
delete t = elim t.invocation [ none ↦ task_free t | some i ↦ return_error i died ∷ task_free t ]
