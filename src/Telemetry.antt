-- ===== src/Telemetry.antt =====
-- Interface telemetry: `InterfaceMonitor.Update` of pkg/hal/gnmi.go, the event loop of
-- `monitorInterfaces` and the visitors of pkg/hal/hal.go, and pkg/hal/stats_server.go.
-- A channel receive is one event; the loop's body for an event is one step.
pub mod Updates
pub mod Streams
pub mod Subscriptions
pub mod Channels
pub mod Liveness
pub mod Commute
pub mod Schedules
use vmw_tsf.Prelude.{
  ℕ, zero, suc, Str, ◌≡◌, Bool, true, false, List, [], ◌∷◌, ◌++◌, Option, none, some, map, str,
  str_eqb, length, get_elem?, set, if◌then◌else◌, str_eq,
}
use vmw_tsf.Prelude.Map.{lookup}
use vmw_tsf.Net.Parse.{parse_uint}
use vmw_tsf.Outcome.{Outcome, ok, err, crash, ◌>>=◌}
use vmw_tsf.Registry.{
  Interface, InterfaceTelemetry, LinkTelemetry, Float64, Registry, no_telemetry,
  find_interface_by_lower, copy_lan_interfaces, copy_wan_interfaces,
}

-- An element of a gNMI path: its name, and the value of its key "name" ("" where it has none).
pub record PathElem : Type 0 where
  pub name : Str
  pub key_name : Str

pub record Update : Type 0 where
  pub path : List PathElem
  pub json : Str

-- What the loop of `monitorInterfaces` receives. A tick brings the TWAMP results, each with the
-- delay and the jitter that are computed from it.
pub data Event : Type 0 where
  speed_update : Str → ℕ → Event
  stats_update : Str → InterfaceTelemetry → Event
  twamp_results : List (Str × Float64 × Float64) → Event

unfoldable pub interface_name : List PathElem → Str
interface_name [] = []
interface_name (elm ∷ rest) =
    if str_eqb elm.name (str "interface") then elm.key_name else interface_name rest

unfoldable pub last_name : List PathElem → Str
last_name [] = []
last_name (elm ∷ []) = elm.name
last_name (elm ∷ next ∷ rest) = last_name (next ∷ rest)

unfoldable pub or_crash {ℓ} : {A : Type ℓ} → Option A → Outcome A
or_crash none = crash
or_crash (some a) = ok a

-- The parameter is `json.Unmarshal` into an empty `InterfaceTelemetry`.
module _ (unmarshal : Str → Option InterfaceTelemetry) where
  unfoldable pub update_event : Str → Update → Outcome Event
  unfolding or_crash last_name
  update_event ifname u =
      if str_eqb (last_name u.path) (str "interface-speed")
      then (do speed ← or_crash (parse_uint 64 u.json); ok (speed_update ifname speed))
      else (do stats ← or_crash (unmarshal u.json); ok (stats_update ifname stats))

  -- `Update`: what a notification puts on the channels.
  unfoldable pub update : List Update → Outcome (List Event)
  unfolding update_event interface_name
  update [] = ok []
  update (u ∷ us) =
      let ifname = interface_name u.path in
      let rest = update us in
      if str_eqb ifname []
      then rest
      else do event ← update_event ifname u; events ← rest; ok (event ∷ events)

unfoldable pub modify :
    ℕ → (InterfaceTelemetry → InterfaceTelemetry) → List Interface → List Interface
modify i f [] = []
modify zero f (ifc ∷ rest) = record ifc { stats = f ifc.stats } ∷ rest
modify (suc i) f (ifc ∷ rest) = ifc ∷ modify i f rest

abbrev pub set_speed : ℕ → InterfaceTelemetry → InterfaceTelemetry
set_speed speed t = record t { speed = speed }

abbrev pub set_counters : InterfaceTelemetry → InterfaceTelemetry → InterfaceTelemetry
set_counters u t = record t {
  rx_bytes = u.rx_bytes;
  rx_bps = u.rx_bps;
  tx_bytes = u.tx_bytes;
  tx_bps = u.tx_bps;
}

abbrev pub set_link : Float64 → Float64 → InterfaceTelemetry → InterfaceTelemetry
set_link delay jitter t = record t { link = record { delay = delay; jitter = jitter } }

module _ {S : Type 0} where
  -- A write through a pointer; nil is skipped.
  unfoldable pub write_stats :
      Option ℕ → (InterfaceTelemetry → InterfaceTelemetry) → Registry S → Registry S
  unfolding modify
  write_stats none f r = r
  write_stats (some p) f r = record r { store = modify p f r.store }

  unfoldable pub update_interface_delay_jitter : Str → Float64 → Float64 → Registry S → Registry S
  unfolding write_stats
  update_interface_delay_jitter upper delay jitter r =
      write_stats (lookup upper r.upper2interface) (set_link delay jitter) r

  unfoldable pub update_links : List (Str × Float64 × Float64) → Registry S → Registry S
  unfolding update_interface_delay_jitter
  update_links [] r = r
  update_links ((upper, delay, jitter) ∷ rest) r =
      update_links rest (update_interface_delay_jitter upper delay jitter r)

  -- One round of the loop of `monitorInterfaces`.
  unfoldable pub on_event : Bool → Event → Registry S → Registry S
  unfolding write_stats update_links find_interface_by_lower
  on_event skip_twamp (speed_update name speed) r =
      write_stats (find_interface_by_lower name r) (set_speed speed) r
  on_event skip_twamp (stats_update name stats) r =
      write_stats (find_interface_by_lower name r) (set_counters stats) r
  on_event skip_twamp (twamp_results results) r = if skip_twamp then r else update_links results r

  unfoldable pub on_events : Bool → List Event → Registry S → Registry S
  unfolding on_event
  on_events skip_twamp [] r = r
  on_events skip_twamp (e ∷ es) r = on_events skip_twamp es (on_event skip_twamp e r)

-- An `InterfaceVisitor` over a state of its own; `false` is an error.
abbrev pub Visitor : Type 0 → Type 0
Visitor V = Str → InterfaceTelemetry → V → V × Outcome (Unit {0})

module _ {V : Type 0} (visit : Visitor V) where
  unfoldable pub visit_all : List (Option Interface) → V → V × Outcome (Unit {0})
  visit_all [] v = (v, ok tt)
  visit_all (none ∷ rest) v = (v, crash)
  visit_all (some ifc ∷ rest) v =
      let (v', result) = visit ifc.upper ifc.stats v in
      elim result [ ok _ ↦ visit_all rest v' | err e ↦ (v', err e) | crash ↦ (v', crash) ]

module _ {S V : Type 0} (visit : Visitor V) where
  unfoldable pub get_lan_interfaces : Registry S → V → V × Outcome (Unit {0})
  unfolding visit_all copy_lan_interfaces
  get_lan_interfaces r v = visit_all visit (copy_lan_interfaces r) v

  unfoldable pub get_wan_interfaces : Registry S → V → V × Outcome (Unit {0})
  unfolding visit_all copy_wan_interfaces
  get_wan_interfaces r v = visit_all visit (copy_wan_interfaces r) v

  -- The LAN interfaces, then the WAN ones unless a visit failed.
  unfoldable pub get_interfaces : Registry S → V → V × Outcome (Unit {0})
  unfolding get_lan_interfaces get_wan_interfaces
  get_interfaces r v =
      let (v', result) = get_lan_interfaces r v in
      elim result [ ok _ ↦ get_wan_interfaces r v' | err e ↦ (v', err e) | crash ↦ (v', crash) ]

-- A message of the stream of `StatsServer.GetInterfaces`.
pub record InterfaceRow : Type 0 where
  pub name : Str
  pub stats : InterfaceTelemetry

unfoldable pub send_rows : List (Option Interface) → Outcome (List InterfaceRow)
send_rows [] = ok []
send_rows (none ∷ rest) = crash
send_rows (some ifc ∷ rest) = do
  rows ← send_rows rest
  ok (record { name = ifc.upper; stats = ifc.stats } ∷ rows)

-- `StatsServer.GetInterfaces`; an error of `Send` is ignored.
unfoldable pub stream_interfaces : {S : Type 0} → Registry S → Outcome (List InterfaceRow)
unfolding send_rows copy_lan_interfaces copy_wan_interfaces
stream_interfaces r = do
  lan ← send_rows (copy_lan_interfaces r)
  wan ← send_rows (copy_wan_interfaces r)
  ok (lan ++ wan)
