-- ===== src/Upnp/History.antt =====
-- The tables of devices when a renderer appears or goes, when a timer fires, and when a construction ends.
use renderer_service_upnp.Prelude.{
  ℕ, suc, String, Bool, false, Option, none, some, nat_eq, string_eq, ◌≡◌, refl, sym, ◌∙◌, subst,
  arith, some_inj, Option-cases, inl, inr,
}
use renderer_service_upnp.Dict.{lookup, insert, lookup-AllValues}
use renderer_service_upnp.Processor.State.{Key, key_eq}
use renderer_service_upnp.Device.Contexts.{Proxy}
use renderer_service_upnp.Device.Preferred.{PreferredOnly, subscribe-IsSettled}
use renderer_service_upnp.Device.Kept.{remove_context-PreferredOnly, begins-PreferredOnly}
use renderer_service_upnp.Upnp.Discovery.{
  Device, Building, Upnp, Printf, device_new, context_at, put_device, put_building, build_device,
  appear, server_available, is_empty, lose_context, leave_device, leave_building, disappear,
  server_unavailable, resubscribe, find_building, end_building, device_chain_end, service_sink,
}
use renderer_service_upnp.Upnp.Tables.{
  IsLive, IsBuilding, HasTables, add_context-IsSettled, add_context-IsLive, put_device-IsTables,
  insert-IsTables, leave_device-IsTables, find_building-lookup, end_building-IsTables,
}
use renderer_service_upnp.Upnp.Construction.{building_queue-Goes}

module _ (printf : Printf) where
  build_device-IsTables :
      (udn ip : String) (proxy : Proxy) (u : Upnp)
      → lookup udn u.server_udn_map ≡ none
      → HasTables u
      → (u' : Upnp) × (build_device printf udn ip proxy u ≡ some u') × HasTables u'
  unfolding build_device device_new
  build_device-IsTables udn ip proxy u free v =
      let k : Key = record { source = printf.source_name u.next_source; sink = service_sink } in
      let d = device_new (printf.server_path u.counter) ip proxy in
      let b : Building = record { priv = u.next_source; device = d; queue_id = k } in
      let (s, ran, h) =
        building_queue-Goes k u.next_source (printf.server_path u.counter) u.processor in
      (
        record u {
          server_uc_map = insert udn b u.server_uc_map;
          counter = suc u.counter;
          next_source = suc u.next_source;
          processor = s;
        },
        ground arith,
        insert-IsTables udn b u.server_udn_map u.server_uc_map free (begins-PreferredOnly ip proxy)
            v,
      )

  appear-IsTables :
      (o : Option Device) (r : Option Building) (udn ip : String) (proxy : Proxy) (u : Upnp)
      → lookup udn u.server_udn_map ≡ o
      → lookup udn u.server_uc_map ≡ r
      → HasTables u
      → (u' : Upnp) × (appear printf o r udn ip proxy u ≡ some u') × HasTables u'
  unfolding appear put_building
  appear-IsTables (some d) r udn ip proxy u e e' v =
      let (d', ran, l) =
        add_context-IsLive (context_at ip d.contexts) ip proxy d
          (lookup-AllValues IsLive udn d u.server_udn_map v.live e) in
      (put_device udn u d', rw ran refl, put_device-IsTables udn u d d' e l v)
  appear-IsTables none (some b) udn ip proxy u e e' v =
      let (d', ran, l) =
        add_context-IsSettled (context_at ip b.device.contexts) ip proxy b.device
          (lookup-AllValues IsBuilding udn b u.server_uc_map v.building e') in
      (
        put_building udn b u d',
        rw ran refl,
        insert-IsTables udn (record b { device = d' }) u.server_udn_map u.server_uc_map e l v,
      )
  appear-IsTables none none udn ip proxy u e e' v = build_device-IsTables udn ip proxy u e v

  -- Of tables in order: when a renderer appears on a network interface, prv_server_available_cb
  -- follows no null pointer and reads no context that is not there, and the tables are in order after
  -- it.
  pub server_available-HasTables :
      (udn : Option String) (ip : String) (proxy : Proxy) (u : Upnp)
      → HasTables u
      → (u' : Upnp) × (server_available printf udn ip proxy u ≡ some u') × HasTables u'
  unfolding server_available
  server_available-HasTables none ip proxy u v = (u, refl, v)
  server_available-HasTables (some udn) ip proxy u v =
      appear-IsTables (lookup udn u.server_udn_map) (lookup udn u.server_uc_map) udn ip proxy u refl
        refl v

leave_building-IsTables :
    (udn : String) (b : Building) (u u' : Upnp) (d : Device)
    → lookup udn u.server_udn_map ≡ none
    → PreferredOnly d.contexts
    → leave_building udn b u d ≡ some u'
    → HasTables u
    → HasTables u'
unfolding leave_building put_building
leave_building-IsTables udn b u u' d free l h v =
    let w =
      insert-IsTables udn (record b { device = d }) u.server_udn_map u.server_uc_map free l v in
    let same : (u'.server_udn_map ≡ u.server_udn_map)
        × (u'.server_uc_map ≡ insert udn (record b { device = d }) u.server_uc_map) =
      ground arith in
    rw (same.0, same.1) w

disappear-IsTables :
    (timer : ℕ) (o : Option Device) (r : Option Building) (udn ip : String) (u u' : Upnp)
    → lookup udn u.server_udn_map ≡ o
    → lookup udn u.server_uc_map ≡ r
    → disappear timer o r udn ip u ≡ some u'
    → HasTables u
    → HasTables u'
unfolding disappear lose_context
disappear-IsTables timer (some d) r udn ip u u' e e' h v =
    let only = (lookup-AllValues IsLive udn d u.server_udn_map v.live e).only in
    elim (Option-cases (context_at ip d.contexts)) [
      | inl f ↦ let same : u ≡ u' = ground arith in subst HasTables same v
      | inr (i, f) ↦
          let same : leave_device udn u (lose_context timer i d) ≡ u' = ground arith in
          subst HasTables same (
            leave_device-IsTables udn u d (lose_context timer i d) e
              (remove_context-PreferredOnly i d.contexts only) v)
    ]
disappear-IsTables timer none (some b) udn ip u u' e e' h v =
    let only = lookup-AllValues IsBuilding udn b u.server_uc_map v.building e' in
    elim (Option-cases (context_at ip b.device.contexts)) [
      | inl f ↦ let same : u ≡ u' = ground arith in subst HasTables same v
      | inr (i, f) ↦
          leave_building-IsTables udn b u u' (lose_context timer i b.device) e
            (remove_context-PreferredOnly i b.device.contexts only) (ground arith) v
    ]
disappear-IsTables timer none none udn ip u u' e e' h v = subst HasTables (some_inj h) v

pub server_unavailable-HasTables :
    (timer : ℕ) (udn : Option String) (ip : String) (u u' : Upnp)
    → server_unavailable timer udn ip u ≡ some u'
    → HasTables u
    → HasTables u'
unfolding server_unavailable
server_unavailable-HasTables timer none ip u u' h v = subst HasTables (some_inj h) v
server_unavailable-HasTables timer (some udn) ip u u' h v =
    disappear-IsTables timer (lookup udn u.server_udn_map) (lookup udn u.server_uc_map) udn ip u u'
      refl refl h v

pub resubscribe-HasTables :
    (udn : String) (o : Option Device) (u u' : Upnp)
    → lookup udn u.server_udn_map ≡ o
    → resubscribe udn o u ≡ some u'
    → HasTables u
    → HasTables u'
unfolding resubscribe
resubscribe-HasTables udn none u u' e h v = cc
resubscribe-HasTables udn (some d) u u' e h v =
    let l = lookup-AllValues IsLive udn d u.server_udn_map v.live e in
    let (out, ran, w) =
      subscribe-IsSettled l.there.0 d.contexts l.there.1
        (λ i sub. some_inj (sym (l.only.preferred i sub) ∙ l.there.1)) in
    let d' : Device = record d { contexts = out.0; timeout_id = 0 } in
    let same : put_device udn u d' ≡ u' = ground arith in
    subst HasTables same
      (put_device-IsTables udn u d d' e (record { there = w.there; only = w.only }) v)

pub device_chain_end-HasTables :
    (cancelled : Bool) (priv : ℕ) (udn : String) (b : Building) (u u' : Upnp)
    → find_building priv u.server_uc_map ≡ some (udn, b)
    → (cancelled ≡ false → is_empty b.device.contexts ≡ false)
    → device_chain_end cancelled priv u ≡ some u'
    → HasTables u
    → HasTables u'
unfolding device_chain_end
device_chain_end-HasTables cancelled priv udn b u u' found kept h v =
    let same : end_building cancelled udn b u ≡ u' = ground arith in
    subst HasTables same (
      end_building-IsTables cancelled udn b u
        (find_building-lookup priv udn b u.server_uc_map v.built_once found) kept v)
