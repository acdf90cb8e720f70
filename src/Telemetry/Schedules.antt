-- ===== src/Telemetry/Schedules.antt =====
-- That what the loop of `monitorInterfaces` (pkg/hal/hal.go) makes of its events does not depend
-- on the schedule of the threads of Channels.
use vmw_tsf.Prelude.{
  ℕ, Str, ◌≡◌, refl, sym, ap, ◌∙◌, Bool, List, [], ◌∷◌, ◌++◌, Option, none, some, map, All,
}
use vmw_tsf.Registry.{InterfaceTelemetry, Registry, find_interface_by_lower}
use vmw_tsf.Registry.Invariant.{IsValid}
use vmw_tsf.Telemetry.{Event, speed_update, stats_update, twamp_results, on_event, on_events}
use vmw_tsf.Telemetry.Updates.{on_event-SameNames, on_events-SameNames}
use vmw_tsf.Telemetry.Channels.{
  Loop, Sends, here, there, Step, send_speed, send_stats, receive_speed, receive_stats,
  TwampResults, ticked, Run, done, step, tick, concat, speed_pending, stats_pending, IsDrained,
}
use vmw_tsf.Telemetry.Commute.{
  Apart, IsByLower, IsByLower-same, on_event-on_event, tick-on_events, on_event-on_events,
  on_events-append,
}
use vmw_tsf.Telemetry.Liveness.{IsUpdate, Sends-All}

-- Each thread sends what `Update` makes, and no two threads send the same kind for one name.
abbrev pub AreApart : List (List Event) → Type 0
AreApart [] = Unit
AreApart (es ∷ ts) =
    All IsUpdate es × All (λ e. IsUpdate e × All (λ f. Apart f e) es) (concat ts) × AreApart ts

narrow :
    (e : Event) (es fs : List Event)
    → All (λ x. IsUpdate x × All (λ f. Apart f x) (e ∷ es)) fs
    → All (λ x. IsUpdate x × All (λ f. Apart f x) es) fs
narrow e es [] h = tt
narrow e es (f ∷ fs) h = ((h.0.0, h.0.1.1), narrow e es fs h.1)

AreApart-Sends : {e : Event} {ts us : List (List Event)} → Sends e ts us → AreApart ts → AreApart us
AreApart-Sends (here {es} {ts}) a = (a.0.1, narrow _ es (concat ts) a.1, a.2)
AreApart-Sends (there {es} s) a =
    (a.0, (Sends-All (λ e. IsUpdate e × All (λ f. Apart f e) es) s a.1).1, AreApart-Sends s a.2)

drop_past :
    (es fs : List Event) → All (λ x. IsUpdate x × All (λ f. Apart f x) es) fs → All IsUpdate fs
drop_past es [] h = tt
drop_past es (f ∷ fs) h = (h.0.0, drop_past es fs h.1)

All-append : (es fs : List Event) → All IsUpdate es → All IsUpdate fs → All IsUpdate (es ++ fs)
All-append [] fs a b = b
All-append (e ∷ es) fs a b = (a.0, All-append es fs a.1 b)

AreApart-IsUpdate : (ts : List (List Event)) → AreApart ts → All IsUpdate (concat ts)
AreApart-IsUpdate [] a = tt
AreApart-IsUpdate (es ∷ ts) a = All-append es (concat ts) a.0 (drop_past es (concat ts) a.1)

speed_pending-IsUpdate : (o : Option (Str × ℕ)) → All IsUpdate (speed_pending o)
speed_pending-IsUpdate none = tt
speed_pending-IsUpdate (some (name, speed)) = (tt, tt)

stats_pending-IsUpdate : (o : Option (Str × InterfaceTelemetry)) → All IsUpdate (stats_pending o)
stats_pending-IsUpdate none = tt
stats_pending-IsUpdate (some (name, stats)) = (tt, tt)

same_some : {n m : Str} → some n ≡ some m → n ≡ m
same_some h = cc

module _ {S : Type 0} (skip : Bool) where
  -- The event that a thread sends may be handled before all that the threads have still to send.
  on_events-Sends :
      {e : Event} {ts us : List (List Event)} (r : Registry S)
      → Sends e ts us
      → AreApart ts
      → IsByLower r
      → on_events skip (concat ts) r ≡ on_events skip (concat us) (on_event skip e r)
  unfolding on_events
  on_events-Sends r here a k = refl
  on_events-Sends {e} r (there {es} {ts} {us} s) a k =
      let (u, h) = (Sends-All (λ e. IsUpdate e × All (λ f. Apart f e) es) s a.1).0 in
      on_events-append skip es (concat ts) r
      ∙ on_events-Sends (on_events skip es r) s a.2
          (IsByLower-same (on_events-SameNames skip es r) k)
      ∙ ap (on_events skip (concat us)) (sym (on_event-on_events skip e es r u a.0 h k))
      ∙ sym (on_events-append skip es (concat us) (on_event skip e r))

  -- The registry, once all that is in the channels and in the threads is handled in a fixed order.
  abbrev pub settled : Loop S → Registry S
  settled s = on_events skip (concat s.threads) (
      on_events skip (stats_pending s.stats_chan)
        (on_events skip (speed_pending s.speed_chan) s.registry))

  -- The value of the full channel may be handled before that of the speed channel, or after.
  stats_first :
      (o : Option (Str × ℕ)) (name : Str) (stats : InterfaceTelemetry) (r : Registry S)
      → IsByLower r
      → on_event skip (stats_update name stats) (on_events skip (speed_pending o) r)
        ≡ on_events skip (speed_pending o) (on_event skip (stats_update name stats) r)
  unfolding on_events
  stats_first none name stats r k = refl
  stats_first (some (m, speed)) name stats r k =
      on_event-on_event skip (stats_update name stats) (speed_update m speed) r tt tt tt k

  speed_first :
      (o : Option (Str × InterfaceTelemetry)) (name : Str) (speed : ℕ) (r : Registry S)
      → IsByLower r
      → on_event skip (speed_update name speed) (on_events skip (stats_pending o) r)
        ≡ on_events skip (stats_pending o) (on_event skip (speed_update name speed) r)
  unfolding on_events
  speed_first none name speed r k = refl
  speed_first (some (m, stats)) name speed r k =
      on_event-on_event skip (speed_update name speed) (stats_update m stats) r tt tt tt k

  Step-settled :
      {s t : Loop S}
      → Step skip s t
      → AreApart s.threads
      → IsByLower s.registry
      → (settled s ≡ settled t) × AreApart t.threads × IsByLower t.registry
  unfolding on_events
  Step-settled {s} (send_speed {name} {speed} {ts} h free e) a k =
      rw (e, free)
        (
          on_events-Sends (on_events skip (stats_pending s.stats_chan) s.registry) h a (
                IsByLower-same (on_events-SameNames skip (stats_pending s.stats_chan) s.registry) k)
              ∙ ap (on_events skip (concat ts)) (speed_first s.stats_chan name speed s.registry k),
          AreApart-Sends h a,
          k,
        )
  Step-settled {s} (send_stats h free e) a k =
      rw (e, free)
        (
          on_events-Sends (on_events skip (speed_pending s.speed_chan) s.registry) h a
              (IsByLower-same (on_events-SameNames skip (speed_pending s.speed_chan) s.registry) k),
          AreApart-Sends h a,
          k,
        )
  Step-settled {s} (receive_speed {name} {speed} full e) a k =
      rw (e, full)
        (refl, a, IsByLower-same (on_event-SameNames skip (speed_update name speed) s.registry) k)
  Step-settled {s} (receive_stats {name} {stats} full e) a k =
      rw (e, full)
        (
          ap (on_events skip (concat s.threads)) (stats_first s.speed_chan name stats s.registry k),
          a,
          IsByLower-same (on_event-SameNames skip (stats_update name stats) s.registry) k,
        )

  ticked-settled :
      (results : TwampResults) (s : Loop S)
      → AreApart s.threads
      → settled (ticked skip results s) ≡ on_event skip (twamp_results results) (settled s)
  ticked-settled results s a =
      let speeds = speed_pending s.speed_chan in
      let stats = stats_pending s.stats_chan in
      let es = concat s.threads in
      let r = on_events skip speeds s.registry in
      sym (
        tick-on_events skip results es (on_events skip stats r) (AreApart-IsUpdate s.threads a)
        ∙ ap (on_events skip es) (
            tick-on_events skip results stats r (stats_pending-IsUpdate s.stats_chan)
            ∙ ap (on_events skip stats) (
                tick-on_events skip results speeds s.registry
                  (speed_pending-IsUpdate s.speed_chan))))

  Run-settled :
      {s u : Loop S} {ticks : List TwampResults}
      → Run skip s ticks u
      → AreApart s.threads
      → IsByLower s.registry
      → settled u ≡ on_events skip (map twamp_results ticks) (settled s)
  unfolding on_events
  Run-settled done a k = refl
  Run-settled (step {s} {t} {ticks} st r) a k =
      let (same, a', k') = Step-settled st a k in
      Run-settled r a' k' ∙ ap (on_events skip (map twamp_results ticks)) (sym same)
  Run-settled (tick {s} {ticks} results r) a k =
      Run-settled r a
        (IsByLower-same (on_event-SameNames skip (twamp_results results) s.registry) k)
      ∙ ap (on_events skip (map twamp_results ticks)) (ticked-settled results s a)

  settled-IsDrained : (u : Loop S) → IsDrained u → settled u ≡ u.registry
  unfolding on_events
  settled-IsDrained u h = rw (h.0, h.1, h.2) refl

  IsValid-IsByLower : (r : Registry S) → IsValid r → IsByLower r
  unfolding find_interface_by_lower
  IsValid-IsByLower r v n m p x y = same_some (sym (v.lowers n p x) ∙ v.lowers m p y)

  -- In a valid registry, when no two threads send the same kind of update for one name: whatever
  -- the order in which the threads send and the loop receives, a schedule that handles everything
  -- leaves the registry as if the loop had handled the threads' updates one thread after the other,
  -- and the ticks last.
  pub Run-one_by_one :
      (ts : List (List Event)) (r : Registry S) (u : Loop S) (ticks : List TwampResults)
      → Run skip
          (record { threads = ts; speed_chan = none; stats_chan = none; registry = r })
          ticks
          u
      → AreApart ts
      → IsValid r
      → IsDrained u
      → u.registry ≡ on_events skip (concat ts ++ map twamp_results ticks) r
  unfolding on_events
  Run-one_by_one ts r u ticks run a v d =
      sym (settled-IsDrained u d)
      ∙ Run-settled run a (IsValid-IsByLower r v)
      ∙ sym (on_events-append skip (concat ts) (map twamp_results ticks) r)
