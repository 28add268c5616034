-- ===== src/Renderer/Clients.antt =====
-- What is left of a client that has gone, and when the service quits.
use renderer_service_upnp.Prelude.{
  ℕ, String, ◌≡◌, true, false, List, [], ◌∷◌, none, arith, ◌==◌, string_eq, eq_iff, if◌then◌else◌,
  not, ◌&&◌, ◌↔◌, ◌⊎◌, Bool-cases, inl, inr, refl, sym, ◌∙◌,
}
use renderer_service_upnp.Dict.{lookup, remove, Distinct, lookup-remove}
use renderer_service_upnp.Processor.Cancel.{remove_queues_for_source}
use renderer_service_upnp.Processor.Invariant.{IsSound}
use renderer_service_upnp.Processor.WhenQuitting.{
  remove_queues_for_source-quitting, set_quitting-quitting,
}
use renderer_service_upnp.Processor.Walks.{remove_queues_for_source-IsSound}
use renderer_service_upnp.Host.Invariant.{IsService}
use renderer_service_upnp.Host.Removal.{lost_client-IsService}
use renderer_service_upnp.Host.Triples.{hosts-lost_client}
use renderer_service_upnp.Host.View.{hosts}
use renderer_service_upnp.Renderer.Context.{Context, no_watchers, remove_client}

no_watchers-none :
    (ws : List (String × ℕ)) → ((k : String) → lookup k ws ≡ none) → no_watchers ws ≡ true
unfolding no_watchers lookup
no_watchers-none [] h = ground arith
no_watchers-none ((k, id) ∷ ws) h = ground (arith, h k, eq_iff k k)

no_watchers-lookup :
    (k : String) (ws : List (String × ℕ)) → no_watchers ws ≡ true → lookup k ws ≡ none
unfolding no_watchers lookup
no_watchers-lookup k [] h = refl
no_watchers-lookup k (w ∷ ws) h = cc

module _ (name : String) (c : Context) (d : Distinct c.watchers) where
  -- Of a state whose watched clients are distinct and whose hosted files are well formed: after a
  -- client has gone the files are well formed, the client is not watched and hosts no file, and
  -- any other is watched as it was and hosts what it did.
  pub remove_client-forgets :
      (other device_if client file : String)
      → IsService c.host_service
      → let c' = remove_client name c in
        IsService c'.host_service
        × (lookup other c'.watchers ≡ (if name == other then none else lookup other c.watchers))
        × (hosts c'.host_service device_if client file
            ≡ (not (name == client) && hosts c.host_service device_if client file))
  unfolding remove_client
  remove_client-forgets other device_if client file v = (
    lost_client-IsService name c.host_service v,
    lookup-remove name other c.watchers d,
    hosts-lost_client name client file device_if c.host_service v,
  )

  no_watchers-others :
      no_watchers (remove name c.watchers) ≡ true
      → (other : String) → (name == other) ≡ false
      → lookup other c.watchers ≡ none
  no_watchers-others h other e =
      ground (arith, lookup-remove name other c.watchers d, no_watchers-lookup other _ h)

  -- Of a state whose watched clients are distinct and whose processor is in order: after a client has
  -- gone the processor quits if it did before, or if the settings do not say never and no client but
  -- the one that has gone was watched; and otherwise it does not.
  pub remove_client-quits :
      IsSound c.processor
      → ((remove_client name c).processor.quitting ≡ true) ↔ (
          (c.processor.quitting ≡ true)
          ⊎ ((c.never_quit ≡ false)
              × ((other : String) → (name == other) ≡ false → lookup other c.watchers ≡ none)))
  unfolding remove_client
  remove_client-quits v =
      let same = remove_queues_for_source-quitting name c.processor v in
      let set =
        set_quitting-quitting (remove_queues_for_source name c.processor)
          (remove_queues_for_source-IsSound name c.processor v) in
      elim (Bool-cases (no_watchers (remove name c.watchers))) [
        | inl e ↦ elim (Bool-cases c.never_quit) [
          | inl n ↦
              rw (e, n) (λ h. inl (sym same ∙ h), λ h. elim h [ inl q ↦ same ∙ q | inr w ↦ cc w.0 ])
          | inr n ↦ rw (e, n) (λ h. inr (refl, no_watchers-others e), λ h. set)
        ]
        | inr e ↦ rw e (
          λ h. inl (sym same ∙ h),
          λ h. elim h [
            | inl q ↦ same ∙ q
            | inr w ↦ absurd (
                ground (
                  arith,
                  no_watchers-none (remove name c.watchers)
                      (λ k. ground (arith, lookup-remove name k c.watchers d, w.1 k)),
                ))
          ],
        )
      ]
