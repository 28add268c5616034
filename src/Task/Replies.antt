-- ===== src/Task/Replies.antt =====
-- A caller gets one answer, whatever happens to its task.
use renderer_service_upnp.Prelude.{
  ℕ, ◌+◌, ◌≡◌, List, [], ◌∷◌, ◌++◌, Option, none, some, arith, ◌==◌, nat_eq, if◌then◌else◌,
}
use renderer_service_upnp.Error.{Error}
use renderer_service_upnp.Task.Kinds.{Invocation}
use renderer_service_upnp.Task.{
  Task, Effect, return_value, return_error, complete, fail, cancel, delete,
}

abbrev pub is_reply : ℕ → Effect → ℕ
is_reply n (return_value i v) = if i.serial == n then 1 else 0
is_reply n (return_error i e) = if i.serial == n then 1 else 0
is_reply n _ = 0

-- How many times the call of serial `n` is answered.
abbrev pub replies : ℕ → List Effect → ℕ
replies n [] = 0
replies n (e ∷ es) = is_reply n e + replies n es

-- How many answers a task still owes to the call of serial `n`.
abbrev pub owed_to : ℕ → Option Invocation → ℕ
owed_to n none = 0
owed_to n (some i) = if i.serial == n then 1 else 0

abbrev pub owes : ℕ → Task → ℕ
owes n t = owed_to n t.invocation

pub replies-append :
    (n : ℕ) (xs ys : List Effect) → replies n (xs ++ ys) ≡ replies n xs + replies n ys
replies-append n [] ys = omega arith
replies-append n (x ∷ xs) ys = omega (arith, replies-append n xs ys)

module _ (n : ℕ) (t : Task) where
  pub owes-complete : replies n (complete t).1 + owes n (complete t).0 ≡ owes n t
  unfolding complete
  owes-complete = ground arith

  pub owes-fail : (e : Error) → replies n (fail t e).1 + owes n (fail t e).0 ≡ owes n t
  unfolding fail
  owes-fail e = ground arith

  pub owes-cancel : replies n (cancel t).1 + owes n (cancel t).0 ≡ owes n t
  unfolding cancel
  owes-cancel = ground arith

  -- Deleting a task pays what it owes.
  pub owes-delete : replies n (delete t) ≡ owes n t
  unfolding delete
  owes-delete = ground arith

-- What may happen to a task before it is deleted.
pub data Event : Type 0 where
  completes cancels : Event
  fails : Error → Event

unfoldable pub handle : Task → Event → Task × List Effect
handle t completes = complete t
handle t (fails e) = fail t e
handle t cancels = cancel t

-- The events, then the deletion.
unfoldable pub lifetime : Task → List Event → List Effect
lifetime t [] = delete t
lifetime t (e ∷ es) = (handle t e).1 ++ lifetime (handle t e).0 es

owes-handle :
    (n : ℕ) (t : Task) (e : Event) → replies n (handle t e).1 + owes n (handle t e).0 ≡ owes n t
unfolding handle
owes-handle n t completes = owes-complete n t
owes-handle n t (fails e) = owes-fail n t e
owes-handle n t cancels = owes-cancel n t

-- Over the life of a task each call is answered as often as the task owed it at the start: the
-- caller of a task with a pending invocation is answered exactly once, and nobody else is, whatever
-- completions, failures and cancellations come before the task is deleted, in whatever order.
pub replies-lifetime : (n : ℕ) (t : Task) (es : List Event) → replies n (lifetime t es) ≡ owes n t
unfolding lifetime
replies-lifetime n t [] = owes-delete n t
replies-lifetime n t (e ∷ es) = omega (
  arith,
  replies-append n (handle t e).1 (lifetime (handle t e).0 es),
  replies-lifetime n (handle t e).0 es,
  owes-handle n t e,
)
