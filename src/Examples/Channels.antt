-- ===== src/Examples/Channels.antt =====
-- A schedule of two threads and the loop of `monitorInterfaces` (pkg/hal/hal.go).
use vmw_tsf.Prelude.{
  Str, ◌≡◌, ◌≢◌, refl, false, List, [], ◌∷◌, ◌++◌, none, some, map, str, str_eqb_iff, str_eqb,
  if◌then◌else◌,
}
use vmw_tsf.Registry.Lifecycle.{run-init_interfaces-IsValid}
use vmw_tsf.Telemetry.{
  Event, speed_update, stats_update, twamp_results, on_events, update, PathElem,
}
use vmw_tsf.Telemetry.Channels.{
  Loop, here, there, send_speed, send_stats, receive_speed, receive_stats, TwampResults, Run, done,
  step, tick, concat,
}
use vmw_tsf.Telemetry.Subscriptions.{
  subscriptions, path_text, speed_path, counters_path, answers, update-subscriptions,
}
use vmw_tsf.Net.Parse.{parse_uint}
use vmw_tsf.Outcome.{ok}
use vmw_tsf.Telemetry.Schedules.{AreApart, Run-one_by_one}
use vmw_tsf.Registry.{no_telemetry}
use vmw_tsf.Examples.Interfaces.{listing, calls, two_interfaces}

abbrev threads : List (List Event)
threads =
    (speed_update (str "ge100-0/0/1") 10 ∷ stats_update (str "ge100-0/0/1") no_telemetry ∷ [])
    ∷ (speed_update (str "ge100-0/0/2") 20 ∷ [])
    ∷ []

abbrev start : Loop (List Str)
start = record {
  threads = threads;
  speed_chan = none;
  stats_chan = none;
  registry = two_interfaces;
}

distinct : str "ge100-0/0/1" ≢ str "ge100-0/0/2"
distinct e = let same = (str_eqb_iff (str "ge100-0/0/1") (str "ge100-0/0/2")).1 e in cc

threads-AreApart : AreApart threads
threads-AreApart = ((tt, (tt, tt)), ((tt, (distinct, (tt, tt))), tt), ((tt, tt), tt, tt))

abbrev ticks : List TwampResults
ticks = ((str "wan0", 3, 4) ∷ []) ∷ []

-- The second thread sends first; the other's updates wait in both channels at a tick.
abbrev schedule : (u : Loop (List Str)) × Run false start ticks u
schedule = (
  _,
  step (send_speed (there here) refl refl) (
      step (receive_speed refl refl) (
        step (send_speed here refl refl) (
          step (send_stats here refl refl) (
            tick ((str "wan0", 3, 4) ∷ [])
              (step (receive_stats refl refl) (step (receive_speed refl refl) done)))))),
)

Run-one_by_one_example :
    schedule.0.registry ≡ on_events false (concat threads ++ map twamp_results ticks) two_interfaces
Run-one_by_one_example =
    Run-one_by_one false threads two_interfaces schedule.0 ticks schedule.1 threads-AreApart
      (run-init_interfaces-IsValid listing (some []) calls) (refl, refl, refl)

-- `ygot.StringToPath` on the two texts of one interface.
abbrev two_paths : Str → List PathElem
two_paths text =
    if str_eqb text (path_text (speed_path (str "ge0")))
    then speed_path (str "ge0")
    else counters_path (str "ge0")

update-subscriptions_example :
    update
      (λ json. some no_telemetry)
      (answers (subscriptions two_paths 5000000000 (str "ge0")) (str "1000" ∷ str "{}" ∷ []))
    ≡ ok (speed_update (str "ge0") 1000 ∷ stats_update (str "ge0") no_telemetry ∷ [])
update-subscriptions_example =
    update-subscriptions two_paths (λ json. some no_telemetry) 5000000000 (str "ge0") (str "1000")
      (str "{}") 1000 no_telemetry (λ e. cc) refl refl (unfold parse_uint in refl) refl
