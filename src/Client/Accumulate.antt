-- ===== src/Client/Accumulate.antt =====
-- The accumulated output of cmd/client/main.go. The operations on float64 are a parameter, of
-- which nothing is assumed.
use vmw_tsf.Prelude.{ℕ, Str, List, [], ◌∷◌, ◌++◌, Option, none, some, str_eq}
use vmw_tsf.Prelude.Int.{ℤ, pos}
use vmw_tsf.Prelude.Map.{Map, lookup, insert}
use vmw_tsf.Registry.{Float64}
use vmw_tsf.Client.Output.{BatchInterfaceOutput, BatchFlowOutput, BatchOutput}

-- Sum, product and quotient, `Duration.Seconds`, and the conversions from and to uint64.
pub record Floats : Type 0 where
  pub add : Float64 → Float64 → Float64
  pub mul : Float64 → Float64 → Float64
  pub div : Float64 → Float64 → Float64
  pub seconds : ℤ → Float64
  pub of_uint64 : ℕ → Float64
  pub to_uint64 : Float64 → ℕ

pub record AccumulatedOutput : Type 0 where
  pub time : Float64
  pub interfaces : Map Str BatchInterfaceOutput
  pub flows : Map Str BatchFlowOutput

abbrev pub new_accumulated_output : AccumulatedOutput
new_accumulated_output = record { time = 0; interfaces = []; flows = [] }

unfoldable pub copy_all : {V : Type 0} → Map Str V → Map Str V → Map Str V
copy_all [] cp = cp
copy_all ((key, val) ∷ rest) cp = copy_all rest (insert key val cp)

-- `Copy`.
unfoldable pub copy : AccumulatedOutput → AccumulatedOutput
unfolding copy_all
copy acc = record {
  time = acc.time;
  interfaces = copy_all acc.interfaces [];
  flows = copy_all acc.flows [];
}

pub record AverageF64 : Type 0 where
  pub weight_a : Float64
  pub weight_b : Float64

-- `fo.Key()`: "%s:%s:%s".
unfoldable pub flow_output_key : BatchFlowOutput → Str
flow_output_key fo = fo.source ++ b':' ∷ (fo.destination ++ b':' ∷ fo.protocol)

-- The two loops of `updateAccInterfaces`, and of `updateAccFlows`: under which key an entry is
-- filed, the entry of the accumulator averaged with a new one, and with nothing.
module _ {V : Type 0} (key : V → Str) (average : V → V → V) (decay : V → V) where
  abbrev pub tracked : Option V → V → V
  tracked (some old) v = average old v
  tracked none v = v

  unfoldable pub track : Map Str V → List V → Map Str V → Map Str V
  track acc [] next = next
  track acc (v ∷ rest) next = track acc rest (insert (key v) (tracked (lookup (key v) acc) v) next)

  abbrev pub fade_entry : Option V → V → Map Str V → Map Str V
  fade_entry (some v) old next = next
  fade_entry none old next = insert (key old) (decay old) next

  unfoldable pub fade : Map Str V → Map Str V → Map Str V
  fade [] next = next
  fade ((k, old) ∷ rest) next = fade rest (fade_entry (lookup (key old) next) old next)

  unfoldable pub merge : Map Str V → List V → Map Str V → Map Str V
  unfolding track fade
  merge acc entries next = fade acc (track acc entries next)

module _ (fl : Floats) where
  unfoldable pub f64 : AverageF64 → Float64 → Float64 → Float64
  f64 avg a b =
      fl.div (fl.add (fl.mul a avg.weight_a) (fl.mul b avg.weight_b))
        (fl.add avg.weight_a avg.weight_b)

  unfoldable pub u64 : AverageF64 → ℕ → ℕ → ℕ
  unfolding f64
  u64 avg a b = fl.to_uint64 (f64 avg (fl.of_uint64 a) (fl.of_uint64 b))

  abbrev pub make_average : ℤ → ℤ → AverageF64
  make_average a b = record { weight_a = fl.seconds a; weight_b = fl.seconds b }

  -- The new entry is built without a time, so its time is 0.
  unfoldable pub average_interface :
      BatchInterfaceOutput → BatchInterfaceOutput → BatchInterfaceOutput
  unfolding u64 f64
  average_interface old ifc =
      let avg = make_average old.time ifc.time in
      record {
        name = ifc.name;
        if_type = ifc.if_type;
        speed = u64 avg old.speed ifc.speed;
        rx_bytes = u64 avg old.rx_bytes ifc.rx_bytes;
        rx_bps = u64 avg old.rx_bps ifc.rx_bps;
        tx_bytes = u64 avg old.tx_bytes ifc.tx_bytes;
        tx_bps = u64 avg old.tx_bps ifc.tx_bps;
        delay = f64 avg old.delay ifc.delay;
        jitter = f64 avg old.jitter ifc.jitter;
        time = pos 0;
      }

  unfoldable pub decay_interface : ℤ → BatchInterfaceOutput → BatchInterfaceOutput
  unfolding u64 f64
  decay_interface interval old =
      let avg = make_average old.time interval in
      record {
        name = old.name;
        if_type = old.if_type;
        speed = u64 avg old.speed 0;
        rx_bytes = u64 avg old.rx_bytes 0;
        rx_bps = u64 avg old.rx_bps 0;
        tx_bytes = u64 avg old.tx_bytes 0;
        tx_bps = u64 avg old.tx_bps 0;
        delay = f64 avg old.delay 0;
        jitter = f64 avg old.jitter 0;
        time = pos 0;
      }

  unfoldable pub average_flow : BatchFlowOutput → BatchFlowOutput → BatchFlowOutput
  unfolding u64
  average_flow old flow =
      let avg = make_average old.time flow.time in
      record {
        source = flow.source;
        destination = flow.destination;
        protocol = flow.protocol;
        ingress = flow.ingress;
        egress = flow.egress;
        rx_pps = u64 avg old.rx_pps flow.rx_pps;
        rx_pkts = u64 avg old.rx_pkts flow.rx_pkts;
        rx_bps = u64 avg old.rx_bps flow.rx_bps;
        rx_bytes = u64 avg old.rx_bytes flow.rx_bytes;
        time = pos 0;
      }

  unfoldable pub decay_flow : ℤ → BatchFlowOutput → BatchFlowOutput
  unfolding u64
  decay_flow interval old =
      let avg = make_average old.time interval in
      record {
        source = old.source;
        destination = old.destination;
        protocol = old.protocol;
        ingress = old.ingress;
        egress = old.egress;
        rx_pps = u64 avg old.rx_pps 0;
        rx_pkts = u64 avg old.rx_pkts 0;
        rx_bps = u64 avg old.rx_bps 0;
        rx_bytes = u64 avg old.rx_bytes 0;
        time = pos 0;
      }

  unfoldable pub update_acc_interfaces :
      Map Str BatchInterfaceOutput → BatchOutput → ℤ → Map Str BatchInterfaceOutput
  unfolding merge average_interface decay_interface
  update_acc_interfaces acc entry interval =
      merge (λ v. v.name) average_interface (decay_interface interval) acc entry.interfaces []

  unfoldable pub update_acc_flows :
      Map Str BatchFlowOutput → BatchOutput → ℤ → Map Str BatchFlowOutput
  unfolding merge average_flow decay_flow flow_output_key
  update_acc_flows acc entry interval =
      merge flow_output_key average_flow (decay_flow interval) acc entry.flows []

  unfoldable pub update_acc_output : AccumulatedOutput → BatchOutput → ℤ → AccumulatedOutput
  unfolding update_acc_interfaces update_acc_flows
  update_acc_output acc entry interval = record {
    time = 0;
    interfaces = update_acc_interfaces acc.interfaces entry interval;
    flows = update_acc_flows acc.flows entry interval;
  }
