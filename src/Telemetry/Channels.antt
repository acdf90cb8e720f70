-- ===== src/Telemetry/Channels.antt =====
-- The threads around `monitorInterfaces` (pkg/hal/hal.go): a thread of the gNMI manager for each
-- target runs `InterfaceMonitor.Update` (pkg/hal/gnmi.go), whose sends wait while the channel is
-- full, and the loop of `monitorInterfaces` receives. The channels hold one value; `select` takes
-- any case that is ready. The registry's calls of other threads are not part of the system.
use vmw_tsf.Prelude.{
  ℕ, suc, Str, ◌≡◌, Bool, List, [], ◌∷◌, ◌++◌, ◌+◌, ◌*◌, Option, none, some, length,
}
use vmw_tsf.Registry.{InterfaceTelemetry, Float64, Registry}
use vmw_tsf.Telemetry.{Event, speed_update, stats_update, twamp_results, on_event}

-- What the threads have still to send, the two channels, and the registry.
pub record Loop (S : Type 0) : Type 0 where
  pub threads : List (List Event)
  pub speed_chan : Option (Str × ℕ)
  pub stats_chan : Option (Str × InterfaceTelemetry)
  pub registry : Registry S

-- A thread takes the event that it sends next from its notifications.
pub data Sends (e : Event) : List (List Event) → List (List Event) → Type 0 where
  here : {es : List Event} {ts : List (List Event)} → Sends e ((e ∷ es) ∷ ts) (es ∷ ts)
  there :
      {es : List Event} {ts us : List (List Event)} → Sends e ts us → Sends e (es ∷ ts) (es ∷ us)

-- A step of a thread, or a round of the loop for a value of a channel.
pub data Step {S : Type 0} (skip : Bool) (s t : Loop S) : Type 0 where
  send_speed :
      {name : Str} {speed : ℕ} {ts : List (List Event)}
      → Sends (speed_update name speed) s.threads ts
      → s.speed_chan ≡ none
      → t ≡ record s { threads = ts; speed_chan = some (name, speed) }
      → Step skip s t
  send_stats :
      {name : Str} {stats : InterfaceTelemetry} {ts : List (List Event)}
      → Sends (stats_update name stats) s.threads ts
      → s.stats_chan ≡ none
      → t ≡ record s { threads = ts; stats_chan = some (name, stats) }
      → Step skip s t
  receive_speed :
      {name : Str} {speed : ℕ}
      → s.speed_chan ≡ some (name, speed)
      → t ≡ record s {
        speed_chan = none;
        registry = on_event skip (speed_update name speed) s.registry;
      }
      → Step skip s t
  receive_stats :
      {name : Str} {stats : InterfaceTelemetry}
      → s.stats_chan ≡ some (name, stats)
      → t ≡ record s {
        stats_chan = none;
        registry = on_event skip (stats_update name stats) s.registry;
      }
      → Step skip s t

abbrev pub TwampResults : Type 0
TwampResults = List (Str × Float64 × Float64)

-- A round of the loop for a tick of the timer.
abbrev pub ticked : {S : Type 0} → Bool → TwampResults → Loop S → Loop S
ticked skip results s = record s { registry = on_event skip (twamp_results results) s.registry }

-- A schedule of steps and ticks, with what each tick measured.
pub data Run {S : Type 0} (skip : Bool) : Loop S → List TwampResults → Loop S → Type 0 where
  done : {s : Loop S} → Run skip s [] s
  step :
      {s t u : Loop S} {ticks : List TwampResults}
      → Step skip s t
      → Run skip t ticks u
      → Run skip s ticks u
  tick :
      {s u : Loop S} {ticks : List TwampResults} (results : TwampResults)
      → Run skip (ticked skip results s) ticks u
      → Run skip s (results ∷ ticks) u

-- The steps of a run, without its ticks.
abbrev pub steps :
    {S : Type 0} {skip : Bool} {s u : Loop S} {ticks : List TwampResults} → Run skip s ticks u → ℕ
steps done = 0
steps (step st r) = suc (steps r)
steps (tick results r) = steps r

abbrev pub concat : {A : Type 0} → List (List A) → List A
concat [] = []
concat (xs ∷ xss) = xs ++ concat xss

abbrev pub speed_pending : Option (Str × ℕ) → List Event
speed_pending none = []
speed_pending (some (name, speed)) = speed_update name speed ∷ []

abbrev pub stats_pending : Option (Str × InterfaceTelemetry) → List Event
stats_pending none = []
stats_pending (some (name, stats)) = stats_update name stats ∷ []

-- Nothing is left to send or to receive.
abbrev pub IsDrained : {S : Type 0} → Loop S → Type 0
IsDrained s = (concat s.threads ≡ []) × (s.speed_chan ≡ none) × (s.stats_chan ≡ none)

-- The steps that are left: two for each event of a thread, one for each value in a channel.
abbrev pub work : {S : Type 0} → Loop S → ℕ
work s =
    2 * length (concat s.threads)
    + length (speed_pending s.speed_chan)
    + length (stats_pending s.stats_chan)
