-- ===== src/Upnp/Events.antt =====
-- The tables of devices over everything that the network and the main loop can do.
use renderer_service_upnp.Prelude.{
  ℕ, String, Bool, true, List, Option, some, nat_eq, string_eq, ◌≡◌, refl, sym, ◌∙◌, subst,
  some_inj,
}
use renderer_service_upnp.Dict.{lookup}
use renderer_service_upnp.Processor.State.{Processor}
use renderer_service_upnp.Device.Contexts.{Proxy, DeviceContext}
use renderer_service_upnp.Upnp.Discovery.{
  Device, Building, Upnp, Printf, upnp_new, put_device, put_building, server_available,
  server_unavailable, resubscribe, device_chain_end,
}
use renderer_service_upnp.Upnp.Tables.{HasTables}
use renderer_service_upnp.Upnp.History.{
  server_available-HasTables, server_unavailable-HasTables, resubscribe-HasTables,
}
use renderer_service_upnp.Upnp.Marks.{
  ToldBy, HasMarks, more-HasMarks, server_available-HasMarks, server_unavailable-HasMarks,
}
use renderer_service_upnp.Upnp.Subscribed.{
  Subscription, with_contexts, known_changes-HasTables, built_changes-HasTables,
  built_changes-HasMarks, resubscribe-HasMarks, ends-HasTables,
}

module _ (printf : Printf) where
  -- One event, where the queues of the devices in `told` have been cancelled: a renderer appears on an
  -- interface or goes from it; the timer of a device fires; the subscriptions of a device change; the
  -- construction of a device ends, with TRUE if its queue was cancelled; the task processor moves on.
  pub data Event (told : ℕ → Type 0) (u : Upnp) : Upnp → Type 0 where
    appears :
        {u' : Upnp} (udn : Option String) (ip : String) (proxy : Proxy)
        → server_available printf udn ip proxy u ≡ some u'
        → Event told u u'
    goes :
        {u' : Upnp} (timer : ℕ) (udn : Option String) (ip : String)
        → server_unavailable timer udn ip u ≡ some u'
        → Event told u u'
    times_out :
        {u' : Upnp} (udn : String)
        → resubscribe udn (lookup udn u.server_udn_map) u ≡ some u'
        → Event told u u'
    known_changes :
        {cs : List DeviceContext} (udn : String) (d : Device)
        → lookup udn u.server_udn_map ≡ some d
        → Subscription d.contexts cs
        → Event told u (put_device udn u (with_contexts cs d))
    built_changes :
        {cs : List DeviceContext} (udn : String) (b : Building)
        → lookup udn u.server_uc_map ≡ some b
        → Subscription b.device.contexts cs
        → Event told u (put_building udn b u (with_contexts cs b.device))
    ends :
        {u' : Upnp} (is_cancelled : Bool) (priv : ℕ)
        → (told priv → is_cancelled ≡ true)
        → device_chain_end is_cancelled priv u ≡ some u'
        → Event told u u'
    processes : (s : Processor) → Event told u (record u { processor = s })

  -- The states that events lead to, with the devices of which the queue has been cancelled so far.
  pub data History : (ℕ → Type 0) → Upnp → Type 1 where
    starts : (s : Processor) → History (λ priv. ⊥) (upnp_new s)
    followed :
        {told : ℕ → Type 0} {u u' : Upnp}
        → History told u
        → Event told u u'
        → History (ToldBy told u u') u'

  -- The tables are in order, and a device without context has been told.
  record IsOrdered (told : ℕ → Type 0) (u : Upnp) : Type 0 where
    tables : HasTables u
    marks : HasMarks told u

  Event-IsOrdered :
      {told : ℕ → Type 0} {u u' : Upnp}
      → Event told u u'
      → IsOrdered told u
      → IsOrdered (ToldBy told u u') u'
  Event-IsOrdered {told} {u} {u'} (appears udn ip proxy h) v =
      let (w, ran, t) = server_available-HasTables printf udn ip proxy u v.tables in
      record {
        tables = subst HasTables (some_inj (sym ran ∙ h)) t;
        marks =
            more-HasMarks told u u' u'
              (server_available-HasMarks told printf udn ip proxy u u' h v.tables v.marks);
      }
  Event-IsOrdered {told} {u} {u'} (goes timer udn ip h) v = record {
    tables = server_unavailable-HasTables timer udn ip u u' h v.tables;
    marks = server_unavailable-HasMarks told timer udn ip u u' h v.marks;
  }
  Event-IsOrdered {told} {u} {u'} (times_out udn h) v = record {
    tables = resubscribe-HasTables udn _ u u' refl h v.tables;
    marks = more-HasMarks told u u' u' (resubscribe-HasMarks told udn _ u u' h v.marks);
  }
  Event-IsOrdered {told} {u} {u'} (known_changes {cs} udn d found e) v = record {
    tables = known_changes-HasTables udn d cs u found e v.tables;
    marks = more-HasMarks told u u' u' (unfold put_device in v.marks);
  }
  Event-IsOrdered {told} {u} {u'} (built_changes {cs} udn b found e) v = record {
    tables = built_changes-HasTables udn b cs u found e v.tables;
    marks =
        more-HasMarks told u u' u'
          (built_changes-HasMarks told udn b cs u found e v.tables v.marks);
  }
  Event-IsOrdered {told} {u} {u'} (ends is_cancelled priv tells h) v =
      let (tables, marks) = ends-HasTables told is_cancelled priv u u' tells h v.tables v.marks in
      record { tables = tables; marks = more-HasMarks told u u' u' marks }
  Event-IsOrdered {told} {u} {u'} (processes s) v = record {
    tables = v.tables;
    marks = more-HasMarks told u u' u' v.marks;
  }

  History-IsOrdered : {told : ℕ → Type 0} {u : Upnp} → History told u → IsOrdered told u
  unfolding upnp_new lookup
  History-IsOrdered (starts s) = record {
    tables = record {
      known_once = tt;
      built_once = tt;
      apart = λ udn b h. refl;
      live = tt;
      building = tt;
    };
    marks = tt;
  }
  History-IsOrdered (followed h e) = Event-IsOrdered e (History-IsOrdered h)

  -- Whatever renderers appear and go, and whatever becomes of their subscriptions, provided that the
  -- end of a device's construction gets TRUE if prv_server_unavailable_cb has cancelled its queue: no
  -- UDN stands twice in the tables of known devices and of those under construction, or in both;
  -- every known device has a context, so that rsu_device_get_context reads no context that is not
  -- there; and each is subscribed through that context at most.
  pub History-HasTables : {told : ℕ → Type 0} {u : Upnp} → History told u → HasTables u
  History-HasTables h = (History-IsOrdered h).tables
