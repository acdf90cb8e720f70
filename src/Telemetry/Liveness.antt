-- ===== src/Telemetry/Liveness.antt =====
-- That the threads around `monitorInterfaces` (pkg/hal/hal.go) never wait for each other for good:
-- every schedule brings all the events of Channels to the registry.
use vmw_tsf.Prelude.{
  Str, Option, str, str_eqb, Bool-cases, List, [], ◌∷◌, inl, inr, All, Option-cases,
}
use vmw_tsf.Net.Parse.{parse_uint}
use vmw_tsf.Outcome.{Outcome, ok, err, crash, ◌>>=◌}
use vmw_tsf.Registry.{InterfaceTelemetry}
use vmw_tsf.Telemetry.{
  Update, update, update_event, interface_name, last_name, or_crash, Event, speed_update,
  stats_update, twamp_results,
}
use vmw_tsf.Telemetry.Channels.{Sends, here, there, concat}

-- The events that `InterfaceMonitor.Update` makes.
abbrev pub IsUpdate : Event → Type 0
IsUpdate (speed_update name speed) = Unit
IsUpdate (stats_update name stats) = Unit
IsUpdate (twamp_results results) = ⊥

abbrev IsMade : Outcome Event → Type 0
IsMade (ok e) = IsUpdate e
IsMade (err e) = Unit
IsMade crash = Unit

abbrev pub AreMade : Outcome (List Event) → Type 0
AreMade (ok es) = All IsUpdate es
AreMade (err e) = Unit
AreMade crash = Unit

made_first :
    (o : Outcome Event) (p : Outcome (List Event))
    → IsMade o
    → AreMade p
    → AreMade (do event ← o; events ← p; ok (event ∷ events))
made_first (ok e) (ok es) a b = (a, b)
made_first (ok e) (err x) a b = tt
made_first (ok e) crash a b = tt
made_first (err x) p a b = tt
made_first crash p a b = tt

module _ (unmarshal : Str → Option InterfaceTelemetry) where
  update_event-IsMade : (ifname : Str) (u : Update) → IsMade (update_event unmarshal ifname u)
  unfolding update_event or_crash
  update_event-IsMade ifname u =
      elim (Bool-cases (str_eqb (last_name u.path) (str "interface-speed"))) [
        | inl speed ↦ rw (speed) (elim (Option-cases (parse_uint 64 u.json)) [
          | inl bad ↦ rw (bad) tt
          | inr (n, good) ↦ rw (good) tt
        ])
        | inr counters ↦ rw (counters) (elim (Option-cases (unmarshal u.json)) [
          | inl bad ↦ rw (bad) tt
          | inr (t, good) ↦ rw (good) tt
        ])
      ]

  -- What `Update` puts on the channels are speed and counter updates.
  pub update-AreMade : (us : List Update) → AreMade (update unmarshal us)
  unfolding update
  update-AreMade [] = tt
  update-AreMade (u ∷ us) = elim (Bool-cases (str_eqb (interface_name u.path) [])) [
    | inl unnamed ↦ rw (unnamed, update) (update-AreMade us)
    | inr named ↦
        rw (named, update)
          (made_first (update_event unmarshal (interface_name u.path) u) (update unmarshal us)
            (update_event-IsMade (interface_name u.path) u) (update-AreMade us))
  ]

pub Sends-All :
    (P : Event → Type 0) {e : Event} {ts us : List (List Event)}
    → Sends e ts us
    → All P (concat ts)
    → P e × All P (concat us)
Sends-All P here h = h
Sends-All P (there {es = []} s) h = Sends-All P s h
Sends-All P (there {es = f ∷ es} s) h =
    let (p, q) = Sends-All P (there {es = es} s) h.1 in (p, (h.0, q))
