-- ===== src/Examples/FlowRuns.antt =====
-- Runs of the flow collector of pkg/hal/hal.go on two messages of one flow.
use vmw_tsf.Prelude.{
  ◌+◌, ◌/◌, Str, ◌≡◌, refl, true, false, List, [], ◌∷◌, none, some, str, arith, str_eq, nat_eq, All,
}
use vmw_tsf.Prelude.Int.{pos, ◌-ℤ◌}
use vmw_tsf.Prelude.Map.{lookup}
use vmw_tsf.Net.{Ip, ipv4, to4}
use vmw_tsf.Net.Text.{decimal, ip_text, join}
use vmw_tsf.Registry.{Registry, init_interfaces}
use vmw_tsf.Flow.{FlowKey, FlowAggregate, as_key, to_telemetry, u64}
use vmw_tsf.Flow.Key.{as_key-injective}
use vmw_tsf.Flow.Rate.{IsRate, to_telemetry_lem}
use vmw_tsf.Collector.{FlowMessage, Flows, flow_key, publish, get_flows}
use vmw_tsf.Collector.Histories.{FlowEvent, arrives, collects, history, sent_in, lost_in}
use vmw_tsf.Collector.Conservation.{pending, reported, conservation}
use vmw_tsf.Collector.Reports.{Has, IsFast, IsReport, get_flows_lem}

abbrev message : FlowMessage
message = record {
  proto = 6;
  src_addr = ipv4 10 0 0 1;
  dst_addr = ipv4 10 0 0 2;
  src_port = 1234;
  dst_port = 443;
  in_if = 7;
  out_if = 9;
  bytes = 1500;
  packets = 3;
}

abbrev no_interfaces : Registry Unit
no_interfaces = init_interfaces none

abbrev no_flows : Flows
no_flows = record { start = pos 0; aggregate = [] }

abbrev key : Str
key = as_key (flow_key message)

abbrev events : List (FlowEvent Unit)
events =
    arrives no_interfaces message []
    ∷ arrives no_interfaces message []
    ∷ collects (pos 2_000_000_000)
    ∷ arrives no_interfaces message (pos 3_000_000_000 ∷ [])
    ∷ arrives no_interfaces message []
    ∷ []

conservation_example :
    let (visits, g) = history 0 false events no_flows in
    u64 (reported key visits + pending key g.aggregate + lost_in key events)
    ≡ u64 (pending key no_flows.aggregate + sent_in key events)
conservation_example = conservation key false events no_flows tt

one_is_lost : (sent_in key events ≡ 6000) × (lost_in key events ≡ 1500)
unfolding as_key flow_key decimal ip_text to4 join
one_is_lost = (refl, refl)

abbrev published : Flows
published = publish no_interfaces (message ∷ message ∷ []) no_flows

get_flows_lem_example :
    let (visits, rows, g) = get_flows 100 true (pos 2_000_000_000) published in
    All
      (λ x. IsFast 100 x.1 × IsReport (pos 2_000_000_000 -ℤ published.start) published.aggregate x)
      visits
    × ((k : Str) (agg : FlowAggregate)
        → lookup k published.aggregate ≡ some agg
        → IsFast 100 (to_telemetry agg (pos 2_000_000_000 -ℤ published.start))
        → Has (agg.key, to_telemetry agg (pos 2_000_000_000 -ℤ published.start)) visits)
    × (g.start ≡ pos 2_000_000_000)
    × (g.aggregate ≡ [])
get_flows_lem_example = get_flows_lem 100 true (pos 2_000_000_000) published

abbrev short_form : FlowKey
short_form = record (flow_key message) { src_addr = 10 ∷ 0 ∷ 0 ∷ 1 ∷ [] }

as_key-injective_example :
    ((flow_key message).protocol ≡ short_form.protocol)
    × (◌≡◌ {A = Ip} (10 ∷ 0 ∷ 0 ∷ 1 ∷ []) (10 ∷ 0 ∷ 0 ∷ 1 ∷ []))
    × (◌≡◌ {A = Ip} (10 ∷ 0 ∷ 0 ∷ 2 ∷ []) (10 ∷ 0 ∷ 0 ∷ 2 ∷ []))
    × ((flow_key message).src_port ≡ short_form.src_port)
    × ((flow_key message).dst_port ≡ short_form.dst_port)
unfolding as_key flow_key to4 ip_text
as_key-injective_example = as_key-injective (flow_key message) short_form refl refl refl refl refl

abbrev aggregate : FlowAggregate
aggregate = record {
  key = flow_key message;
  in_if = str "lan0";
  out_if = str "wan0";
  packets = 10;
  bytes = 15000;
}

to_telemetry_lem_example :
    let t = to_telemetry aggregate (pos 2_000_000_000) in
    IsRate t.rx_rate_pps 10 (2_000_000_000 / 1_000_000)
    × IsRate t.rx_rate_bps 15000 (2_000_000_000 / 1_000_000)
    × (t.rx_total_pkts ≡ 10)
    × (t.rx_total_bytes ≡ 15000)
    × (t.ingress_if ≡ str "lan0")
    × (t.egress_if ≡ str "wan0")
    × (t.tx_rate_pps + t.tx_rate_bps + t.tx_total_pkts + t.tx_total_bytes ≡ 0)
to_telemetry_lem_example =
    to_telemetry_lem aggregate 2_000_000_000 (omega arith) (omega arith) (omega arith) (omega arith)
