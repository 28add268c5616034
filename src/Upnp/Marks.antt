-- ===== src/Upnp/Marks.antt =====
-- Which devices under construction are without a context, and that prv_server_unavailable_cb of
-- src/upnp.c has cancelled the queues of these.
use renderer_service_upnp.Prelude.{
  ℕ, String, true, false, List, [], ◌∷◌, Option, none, some, nat_eq, string_eq, ◌≡◌, refl, sym,
  subst, arith, some_inj, Option-cases, Bool-cases, inl, inr, ◌⊎◌, eq_iff,
}
use renderer_service_upnp.Dict.{
  lookup, insert, AllValues, lookup-AllValues, insert-AllValues, lookup-insert,
}
use renderer_service_upnp.Processor.State.{Key, key_eq}
use renderer_service_upnp.Processor.Cancel.{cancel_queue}
use renderer_service_upnp.Device.Contexts.{Proxy, DeviceContext, find_index, get_context, or_first}
use renderer_service_upnp.Device.Preferred.{append_new_context-IsSettled}
use renderer_service_upnp.Upnp.Discovery.{
  Device, Building, Upnp, Printf, device_new, context_at, put_device, put_building, add_context,
  build_device, appear, server_available, is_empty, lose_context, leave_device, leave_building,
  emit_lost, disappear, server_unavailable, building_queue, service_sink,
}
use renderer_service_upnp.Upnp.Tables.{HasTables, IsBuilding}

-- Between the two states the queue of the device under construction with this `priv` was cancelled.
abbrev pub Cancels : ℕ → Upnp → Upnp → Type 0
Cancels priv u u' =
    (udn : String) × (b : Building) × (lookup udn u'.server_uc_map ≡ some b)
    × (b.priv ≡ priv)
    × (cancel_queue b.queue_id u.processor ≡ some u'.processor)

-- The devices of which the queue has been cancelled, after one more event.
abbrev pub ToldBy : (ℕ → Type 0) → Upnp → Upnp → ℕ → Type 0
ToldBy told u u' priv = told priv ⊎ Cancels priv u u'

-- A device under construction that has no context is one of which the queue has been cancelled.
abbrev pub IsMarked : (ℕ → Type 0) → Building → Type 0
IsMarked told b = is_empty b.device.contexts ≡ true → told b.priv

abbrev pub HasMarks : (ℕ → Type 0) → Upnp → Type 0
HasMarks told u = AllValues (IsMarked told) u.server_uc_map

pub get_context-not_empty :
    (cs : List DeviceContext) (p : ℕ) → get_context cs ≡ some p → is_empty cs ≡ false
unfolding get_context find_index or_first is_empty
get_context-not_empty [] p h = ground arith
get_context-not_empty (c ∷ cs) p h = refl

module _ (P Q : Building → Type 0) (f : (b : Building) → P b → Q b) where
  AllValues-map : (m : List (String × Building)) → AllValues P m → AllValues Q m
  AllValues-map [] a = tt
  AllValues-map ((udn, b) ∷ m) a = (f b a.0, AllValues-map m a.1)

-- The marks stay when more queues are cancelled.
pub more-HasMarks :
    (told : ℕ → Type 0) (u u' v : Upnp) → HasMarks told v → HasMarks (ToldBy told u u') v
more-HasMarks told u u' v a =
    AllValues-map (IsMarked told) (IsMarked (ToldBy told u u')) (λ b h e. inl (h e)) v.server_uc_map
      a

module _ (told : ℕ → Type 0) where
  add_context-IsMarked :
      (o : Option ℕ) (ip : String) (proxy : Proxy) (b : Building) (d' : Device)
      → IsBuilding b
      → add_context o ip proxy b.device ≡ some d'
      → IsMarked told b
      → IsMarked told (record b { device = d' })
  unfolding add_context
  add_context-IsMarked (some i) ip proxy b d' v h m =
      subst (λ d. is_empty d.contexts ≡ true → told b.priv) (some_inj h) m
  add_context-IsMarked none ip proxy b d' v h m =
      let (out, ran, w) = append_new_context-IsSettled ip proxy b.device.contexts v in
      let same : record b.device { contexts = out.0 } ≡ d' = ground arith in
      subst (λ (d : Device). is_empty d.contexts ≡ true → told b.priv) same
        (λ e. absurd (cc (get_context-not_empty out.0 w.there.0 w.there.1)))

  appear-HasMarks :
      (printf : Printf) (o : Option Device) (r : Option Building) (udn ip : String) (proxy : Proxy)
      (u u' : Upnp)
      → lookup udn u.server_uc_map ≡ r
      → appear printf o r udn ip proxy u ≡ some u'
      → HasTables u
      → HasMarks told u
      → HasMarks told u'
  unfolding appear put_device put_building build_device device_new
  appear-HasMarks printf (some d) r udn ip proxy u u' e h v a =
      let same : u'.server_uc_map ≡ u.server_uc_map = ground arith in rw same a
  appear-HasMarks printf none (some b) udn ip proxy u u' e h v a =
      elim (Option-cases (add_context (context_at ip b.device.contexts) ip proxy b.device)) [
        | inl f ↦ absurd (ground arith)
        | inr (d', f) ↦
            let same : u'.server_uc_map ≡ insert udn (record b { device = d' }) u.server_uc_map =
              ground arith in
            rw same (
              insert-AllValues (IsMarked told) udn (record b { device = d' }) u.server_uc_map
                (add_context-IsMarked (context_at ip b.device.contexts) ip proxy b d'
                  (lookup-AllValues IsBuilding udn b u.server_uc_map v.building e) f
                  (lookup-AllValues (IsMarked told) udn b u.server_uc_map a e))
                a)
      ]
  appear-HasMarks printf none none udn ip proxy u u' e h v a =
      let k : Key = record { source = printf.source_name u.next_source; sink = service_sink } in
      let d = device_new (printf.server_path u.counter) ip proxy in
      let b : Building = record { priv = u.next_source; device = d; queue_id = k } in
      elim (Option-cases (building_queue k u.next_source d.path u.processor)) [
        | inl f ↦ absurd (ground arith)
        | inr (t, f) ↦
            let same : u'.server_uc_map ≡ insert udn b u.server_uc_map = ground arith in
            rw same (
              insert-AllValues (IsMarked told) udn b u.server_uc_map
                (unfold is_empty in λ z. absurd cc) a)
      ]

  pub server_available-HasMarks :
      (printf : Printf) (udn : Option String) (ip : String) (proxy : Proxy) (u u' : Upnp)
      → server_available printf udn ip proxy u ≡ some u'
      → HasTables u
      → HasMarks told u
      → HasMarks told u'
  unfolding server_available
  server_available-HasMarks printf none ip proxy u u' h v a = subst (HasMarks told) (some_inj h) a
  server_available-HasMarks printf (some udn) ip proxy u u' h v a =
      appear-HasMarks printf (lookup udn u.server_udn_map) (lookup udn u.server_uc_map) udn ip proxy
        u u' refl h v a

  leave_building-HasMarks :
      (udn : String) (b : Building) (u u' : Upnp) (d : Device)
      → leave_building udn b u d ≡ some u'
      → HasMarks told u
      → HasMarks (ToldBy told u u') u'
  unfolding leave_building put_building
  leave_building-HasMarks udn b u u' d h a = elim (Bool-cases (is_empty d.contexts)) [
    | inl e ↦ elim (Option-cases (cancel_queue b.queue_id u.processor)) [
      | inl f ↦ absurd (ground arith)
      | inr (t, f) ↦
          let same : u'.server_uc_map ≡ insert udn (record b { device = d }) u.server_uc_map =
            ground arith in
          let cancels : Cancels b.priv u u' = (
            udn,
            record b { device = d },
            ground (
              arith,
              lookup-insert udn udn (record b { device = d }) u.server_uc_map,
              eq_iff udn udn,
            ),
            refl,
            ground arith,
          ) in
          subst (AllValues (IsMarked (ToldBy told u u'))) (sym same) (
            insert-AllValues (IsMarked (ToldBy told u u')) udn (record b { device = d })
              u.server_uc_map (λ z. inr cancels) (more-HasMarks told u u' u a))
    ]
    | inr e ↦
        let same : u'.server_uc_map ≡ insert udn (record b { device = d }) u.server_uc_map =
          ground arith in
        subst (AllValues (IsMarked (ToldBy told u u'))) (sym same) (
          insert-AllValues (IsMarked (ToldBy told u u')) udn (record b { device = d })
            u.server_uc_map (λ z. absurd cc) (more-HasMarks told u u' u a))
  ]

  disappear-HasMarks :
      (timer : ℕ) (o : Option Device) (r : Option Building) (udn ip : String) (u u' : Upnp)
      → disappear timer o r udn ip u ≡ some u'
      → HasMarks told u
      → HasMarks (ToldBy told u u') u'
  unfolding disappear leave_device emit_lost put_device
  disappear-HasMarks timer (some d) r udn ip u u' h a =
      let same : u'.server_uc_map ≡ u.server_uc_map = ground arith in
      more-HasMarks told u u' u' (rw same a)
  disappear-HasMarks timer none (some b) udn ip u u' h a =
      elim (Option-cases (context_at ip b.device.contexts)) [
        | inl f ↦
            let same : u ≡ u' = ground arith in
            more-HasMarks told u u' u' (subst (HasMarks told) same a)
        | inr (i, f) ↦
            leave_building-HasMarks udn b u u' (lose_context timer i b.device) (ground arith) a
      ]
  disappear-HasMarks timer none none udn ip u u' h a =
      more-HasMarks told u u' u' (subst (HasMarks told) (some_inj h) a)

  pub server_unavailable-HasMarks :
      (timer : ℕ) (udn : Option String) (ip : String) (u u' : Upnp)
      → server_unavailable timer udn ip u ≡ some u'
      → HasMarks told u
      → HasMarks (ToldBy told u u') u'
  unfolding server_unavailable
  server_unavailable-HasMarks timer none ip u u' h a =
      more-HasMarks told u u' u' (subst (HasMarks told) (some_inj h) a)
  server_unavailable-HasMarks timer (some udn) ip u u' h a =
      disappear-HasMarks timer (lookup udn u.server_udn_map) (lookup udn u.server_uc_map) udn ip u
        u' h a
