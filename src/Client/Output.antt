-- ===== src/Client/Output.antt =====
-- The batch output of cmd/client/main.go: what the visitors of the HAL append to it. The text of
-- the JSON document is encoding/json's.
use vmw_tsf.Prelude.{ℕ, Str, List, [], ◌∷◌, ◌++◌, str}
use vmw_tsf.Prelude.Int.{ℤ}
use vmw_tsf.Net.Text.{decimal, ip_text}
use vmw_tsf.Net.{Ip}
use vmw_tsf.Outcome.{Outcome, ok, crash}
use vmw_tsf.Registry.{Registry, Float64, InterfaceTelemetry}
use vmw_tsf.Telemetry.{Visitor, get_lan_interfaces, get_wan_interfaces}
use vmw_tsf.Flow.{FlowKey, FlowTelemetry, proto_text}

pub record BatchInterfaceOutput : Type 0 where
  pub name : Str
  pub if_type : Str
  pub speed : ℕ
  pub rx_bytes : ℕ
  pub rx_bps : ℕ
  pub tx_bytes : ℕ
  pub tx_bps : ℕ
  pub delay : Float64
  pub jitter : Float64
  pub time : ℤ

pub record BatchFlowOutput : Type 0 where
  pub source : Str
  pub destination : Str
  pub protocol : Str
  pub ingress : Str
  pub egress : Str
  pub rx_pps : ℕ
  pub rx_pkts : ℕ
  pub rx_bps : ℕ
  pub rx_bytes : ℕ
  pub time : ℤ

pub record BatchOutput : Type 0 where
  pub time : Float64
  pub interfaces : List BatchInterfaceOutput
  pub flows : List BatchFlowOutput

unfoldable pub interface_output : Str → ℤ → Str → InterfaceTelemetry → BatchInterfaceOutput
interface_output if_type t ifc tm = record {
  name = ifc;
  if_type = if_type;
  speed = tm.speed;
  rx_bytes = tm.rx_bytes;
  rx_bps = tm.rx_bps;
  tx_bytes = tm.tx_bytes;
  tx_bps = tm.tx_bps;
  delay = tm.link.delay;
  jitter = tm.link.jitter;
  time = t;
}

-- `getIfStats` of `jsonInterfaces`, while `ifType` is `if_type`.
unfoldable pub get_if_stats : Str → ℤ → Visitor BatchOutput
unfolding interface_output
get_if_stats if_type t ifc tm b =
    (record b { interfaces = b.interfaces ++ interface_output if_type t ifc tm ∷ [] }, ok tt)

-- The errors of the two visits are dropped; a nil pointer in a list is a panic.
unfoldable pub json_interfaces : {S : Type 0} → Registry S → BatchOutput → ℤ → Outcome BatchOutput
unfolding get_if_stats
json_interfaces r b t =
    let (b1, lan) = get_lan_interfaces (get_if_stats (str "lan") t) r b in
    let (b2, wan) = get_wan_interfaces (get_if_stats (str "wan") t) r b1 in
    elim lan [ crash ↦ crash | _ ↦ elim wan [ crash ↦ crash | _ ↦ ok b2 ] ]

-- "%s:%d".
unfoldable pub endpoint : Ip → ℕ → Str
endpoint addr port = ip_text addr ++ b':' ∷ decimal port

unfoldable pub flow_output : ℤ → FlowKey → FlowTelemetry → BatchFlowOutput
unfolding endpoint
flow_output t key stat = record {
  source = endpoint key.src_addr key.src_port;
  destination = endpoint key.dst_addr key.dst_port;
  protocol = proto_text key.protocol;
  ingress = stat.ingress_if;
  egress = stat.egress_if;
  rx_pps = stat.rx_rate_pps;
  rx_pkts = stat.rx_total_pkts;
  rx_bps = stat.rx_rate_bps;
  rx_bytes = stat.rx_total_bytes;
  time = t;
}

-- `jsonFlows`, on the flows that `GetFlows` reports.
unfoldable pub json_flows : List (FlowKey × FlowTelemetry) → BatchOutput → ℤ → BatchOutput
unfolding flow_output
json_flows [] b t = b
json_flows ((key, stat) ∷ rest) b t =
    json_flows rest (record b { flows = b.flows ++ flow_output t key stat ∷ [] }) t
