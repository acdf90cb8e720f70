-- ===== src/Collector.antt =====
-- The flow collector: `Publish` and `GetFlows` of pkg/hal/hal.go, over the aggregate of flows in
-- `hal.flows`, with the rows that `FlowsDebugger` of pkg/hal/fmt.go gathers. A
-- `flowmessage.FlowMessage` of goflow is the record of the fields that `Publish` reads.
pub mod Histories
pub mod Conservation
pub mod Reports
use vmw_tsf.Prelude.{
  ℕ, ◌+◌, ◌%◌, ◌^◌, Str, ◌≡◌, Bool, true, false, ◌||◌, List, [], ◌∷◌, ◌++◌, Option, none, some, map,
  str, leb, if◌then◌else◌, str_eq,
}
use vmw_tsf.Prelude.Int.{ℤ, ◌-ℤ◌}
use vmw_tsf.Prelude.Map.{Map, lookup, insert}
use vmw_tsf.Net.{Ip}
use vmw_tsf.Registry.{Registry, Interface, find_interface_by_net_flow_id}
use vmw_tsf.Flow.{FlowKey, FlowAggregate, FlowTelemetry, as_key, to_telemetry, u64}

pub record FlowMessage : Type 0 where
  pub proto : ℕ
  pub src_addr : Ip
  pub dst_addr : Ip
  pub src_port : ℕ
  pub dst_port : ℕ
  pub in_if : ℕ
  pub out_if : ℕ
  pub bytes : ℕ
  pub packets : ℕ

pub record Flows : Type 0 where
  pub start : ℤ
  pub aggregate : Map Str FlowAggregate

-- The conversions to `FlowProto` and `uint16` keep the low bits.
unfoldable pub flow_key : FlowMessage → FlowKey
flow_key msg = record {
  protocol = msg.proto % 2 ^ 8;
  src_addr = msg.src_addr;
  dst_addr = msg.dst_addr;
  src_port = msg.src_port % 2 ^ 16;
  dst_port = msg.dst_port % 2 ^ 16;
}

abbrev pub upper_or_na : Option Interface → Str
upper_or_na none = str "N/A"
upper_or_na (some ifc) = ifc.upper

module _ {S : Type 0} (r : Registry S) where
  unfoldable pub label : ℕ → Str
  label nfid = upper_or_na (find_interface_by_net_flow_id nfid r)

  -- The aggregate of a flow after a message, from the one before, if there is one.
  unfoldable pub updated : FlowMessage → Option FlowAggregate → FlowAggregate
  updated msg (some agg) = record agg {
    bytes = u64 (agg.bytes + msg.bytes);
    packets = u64 (agg.packets + msg.packets);
    in_if = label msg.in_if;
    out_if = label msg.out_if;
  }
  updated msg none = record {
    key = flow_key msg;
    in_if = label msg.in_if;
    out_if = label msg.out_if;
    bytes = msg.bytes;
    packets = msg.packets;
  }

  unfoldable pub publish_one : FlowMessage → Flows → Flows
  unfolding updated
  publish_one msg f =
      let key = as_key (flow_key msg) in
      record f { aggregate = insert key (updated msg (lookup key f.aggregate)) f.aggregate }

  -- `Publish` takes no lock: this is a call during which `GetFlows` is not called.
  unfoldable pub publish : List FlowMessage → Flows → Flows
  unfolding publish_one
  publish [] f = f
  publish (msg ∷ msgs) f = publish msgs (publish_one msg f)

-- What the visitor is called with; its result is ignored.
abbrev pub Report : Type 0
Report = FlowKey × FlowTelemetry

unfoldable pub meets : ℕ → FlowTelemetry → Bool
meets threshold stats = leb threshold stats.rx_rate_bps || leb threshold stats.tx_rate_bps

unfoldable pub reports : ℕ → ℤ → Map Str FlowAggregate → List Report
unfolding meets
reports threshold interval [] = []
reports threshold interval ((k, agg) ∷ rest) =
    let stats = to_telemetry agg interval in
    let later = reports threshold interval rest in
    if meets threshold stats then (agg.key, stats) ∷ later else later

-- `FlowsDebugger.Flow` is called for every flow.
unfoldable pub debug_rows : ℤ → Map Str FlowAggregate → List Report
debug_rows interval [] = []
debug_rows interval ((k, agg) ∷ rest) =
    (agg.key, to_telemetry agg interval) ∷ debug_rows interval rest

-- `GetFlows` at the time `now`, with no message stored meanwhile: the reports, the rows of the
-- debugger, and an empty aggregate.
unfoldable pub get_flows : ℕ → Bool → ℤ → Flows → List Report × List Report × Flows
unfolding reports debug_rows
get_flows threshold debug now f =
    let interval = now -ℤ f.start in
    (
      reports threshold interval f.aggregate,
      (if debug then debug_rows interval f.aggregate else []),
      record { start = now; aggregate = [] },
    )
