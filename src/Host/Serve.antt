-- ===== src/Host/Serve.antt =====
-- How long a hosted file stays mapped.
use renderer_service_upnp.Prelude.{
  ℕ, suc, ltb, ◌+◌, ◌-◌, ◌<◌, false, List, [], ◌∷◌, ◌≡◌, nat_eq, arith,
}
use renderer_service_upnp.Host.File.{HostFile}
use renderer_service_upnp.Host.Http.{Event, gets, heads, finishes, on_event, run_events}

-- The mapping is there exactly while its references are counted.
pub record IsMapped (hf : HostFile) : Type 0 where
  pub counted : hf.mapped ≡ ltb 0 hf.mapped_count

-- `n` answers to GETs are under way, and no more of them end than that.
abbrev pub InFlight : ℕ → List Event → Type 0
InFlight n [] = Unit
InFlight n (gets ∷ es) = InFlight (suc n) es
InFlight n (heads ∷ es) = InFlight n es
InFlight n (finishes ∷ es) = (0 < n) × InFlight (n - 1) es

abbrev pub heads_in : List Event → ℕ
heads_in [] = 0
heads_in (gets ∷ es) = heads_in es
heads_in (heads ∷ es) = suc (heads_in es)
heads_in (finishes ∷ es) = heads_in es

-- How many of `n` answers and of those begun later are still under way at the end.
abbrev pub open_after : ℕ → List Event → ℕ
open_after n [] = n
open_after n (gets ∷ es) = open_after (suc n) es
open_after n (heads ∷ es) = open_after n es
open_after n (finishes ∷ es) = open_after (n - 1) es

on_event-IsMapped : (hf : HostFile) (e : Event) → IsMapped hf → IsMapped (on_event hf e)
unfolding on_event
on_event-IsMapped hf gets v = ground arith
on_event-IsMapped hf heads v = ground arith
on_event-IsMapped hf finishes v = ground arith

run_events-IsMapped : (hf : HostFile) (es : List Event) → IsMapped hf → IsMapped (run_events hf es)
unfolding run_events
run_events-IsMapped hf [] v = v
run_events-IsMapped hf (e ∷ es) v =
    run_events-IsMapped (on_event hf e) es (on_event-IsMapped hf e v)

module _ (hf : HostFile) (v : IsMapped hf) where
  count-gets : (on_event hf gets).mapped_count ≡ suc hf.mapped_count
  unfolding on_event
  count-gets = ground arith

  count-heads : (on_event hf heads).mapped_count ≡ suc hf.mapped_count
  unfolding on_event
  count-heads = ground arith

  count-finishes : (on_event hf finishes).mapped_count ≡ hf.mapped_count - 1
  unfolding on_event
  count-finishes = ground arith

-- Over any sequence of answers to GETs and HEADs and ends of answers to GETs, in which no more
-- answers end than are under way: the references to a file's mapping are the answers to GETs under
-- way, and one for every HEAD answered.
pub count-run_events :
    (hf : HostFile) (n h : ℕ) (es : List Event)
    → IsMapped hf
    → hf.mapped_count ≡ n + h
    → InFlight n es
    → (run_events hf es).mapped_count ≡ open_after n es + (h + heads_in es)
unfolding run_events
count-run_events hf n h [] v c f = omega arith
count-run_events hf n h (gets ∷ es) v c f =
    count-run_events (on_event hf gets) (suc n) h es (on_event-IsMapped hf gets v)
      (omega (arith, count-gets hf v)) f
count-run_events hf n h (heads ∷ es) v c f = omega (
  arith,
  count-run_events (on_event hf heads) n (suc h) es (on_event-IsMapped hf heads v)
      (omega (arith, count-heads hf v)) f,
)
count-run_events hf n h (finishes ∷ es) v c f =
    count-run_events (on_event hf finishes) (n - 1) h es (on_event-IsMapped hf finishes v)
      (omega (arith, count-finishes hf v)) f.1

-- Of a file that was not mapped, when all answers to GETs have ended: it is mapped exactly if a HEAD
-- has been answered, since nothing gives back the reference that a HEAD takes.
pub mapped-run_events :
    (hf : HostFile) (es : List Event)
    → hf.mapped ≡ false
    → hf.mapped_count ≡ 0
    → InFlight 0 es
    → open_after 0 es ≡ 0
    → (run_events hf es).mapped ≡ ltb 0 (heads_in es)
mapped-run_events hf es m c f o = ground (
  arith,
  (run_events-IsMapped hf es (record { counted = ground arith })).counted,
  count-run_events hf 0 0 es (record { counted = ground arith }),
)
