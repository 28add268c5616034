-- ===== src/Processor/Balance.antt =====
-- The answers given and the answers owed are conserved.
use renderer_service_upnp.Prelude.{ℕ, ◌+◌, ◌≡◌, refl, [], ◌∷◌, ◌++◌, arith, nat_eq, string_eq}
use renderer_service_upnp.Processor.State.{Key, key_eq, Atom, Queue, Processor, idle_add, put}
use renderer_service_upnp.Processor.Queues.{enqueue}
use renderer_service_upnp.Processor.Sound.{Found, put-Found}
use renderer_service_upnp.Processor.Conserved.{IsConserved}
use renderer_service_upnp.Processor.Answers.{
  atom_owes, balance, all_owe-append, balance-put, remove_queue-balance, queue_cancel-balance,
  arm-balance,
}

module _ (n : ℕ) where
  pub balance-IsConserved : IsConserved (balance n)
  unfolding idle_add
  balance-IsConserved = record {
    cancel_keeps = queue_cancel-balance n;
    remove_keeps = remove_queue-balance n;
    defer_keeps =
        λ k q b s found. omega (arith, balance-put n k q (record q { defer_remove = b }) s found);
    quit_keeps = λ s. refl;
    idle_keeps = λ f s. refl;
  }

  pub enqueue-balance :
      (k : Key) (a : Atom) (q : Queue) (s : Processor)
      → Found k q s
      → balance n (enqueue k a q s) ≡ balance n s + atom_owes n a
  unfolding enqueue
  enqueue-balance k a q s found =
      let q' = record q { tasks = q.tasks ++ a ∷ [] } in
      ground (
        arith,
        balance-put n k q q' s found,
        arm-balance n k q' (put k q' s) (put-Found k q' s),
        all_owe-append n q.tasks (a ∷ []),
      )
