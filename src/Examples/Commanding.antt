-- ===== src/Examples/Commanding.antt =====
-- Runs of the commands and of the batch loop of cmd/client/main.go.
use vmw_tsf.Prelude.{
  ℕ, ◌+◌, ◌*◌, ◌/◌, Str, ◌≡◌, refl, true, [], ◌∷◌, Option, none, some, str, str_eqb, str_eq, arith,
  if◌then◌else◌,
}
use vmw_tsf.Prelude.Int.{ℤ, pos}
use vmw_tsf.Prelude.Map.{lookup}
use vmw_tsf.Net.{Ip, ipv4, to4}
use vmw_tsf.Net.Text.{ip_text, decimal, join}
use vmw_tsf.Net.Parse.{parse_uint, split}
use vmw_tsf.Outcome.{ok}
use vmw_tsf.Registry.{find_interface_by_next_hop, no_telemetry}
use vmw_tsf.Flow.{FlowTelemetry}
use vmw_tsf.Netconf.{request_and_commit, request, commit_changes}
use vmw_tsf.Steering.{steer, build_batch, add_rule, find_rule_id, next_hop_address, apply_batch}
use vmw_tsf.Loading.{get_steer_interface, response_map, hop_interfaces}
use vmw_tsf.Loading.Fresh.{empty_acl}
use vmw_tsf.Client.Output.{
  BatchInterfaceOutput, BatchFlowOutput, BatchOutput, endpoint, flow_output, interface_output,
}
use vmw_tsf.Client.Accumulate.{
  Floats, AccumulatedOutput, update_acc_output, average_interface, decay_interface, average_flow,
  decay_flow, flow_output_key,
}
use vmw_tsf.Client.Tracking.{newest, described}
use vmw_tsf.Client.Averages.{IsTracking, update_acc_output_lem, accumulated_time_is_lost}
use vmw_tsf.Client.Batch.{Options, Round}
use vmw_tsf.Client.Commands.{
  SteerOptions, TunnelOptions, handle_steer, handle_tunnel_add, steer_flow, parse_flow,
  parse_endpoint, parse_proto,
}
use vmw_tsf.Client.Requests.{is_tcp, steer_options}
use vmw_tsf.Client.Checks.{
  SteersOnly, AddsOnly, handle_steer-SteersOnly, handle_tunnel_add-AddsOnly,
}
use vmw_tsf.Client.Backend.{TunnelCalls, router_hal, handle_steer-HasSteered}
use vmw_tsf.Client.Steered.{HasSteered}
use vmw_tsf.Examples.Steers.{registry, accepts, flow, empty-IsFresh}

abbrev parse_ip : Str → Ip
parse_ip s =
    if str_eqb s (str "192.168.0.1")
    then ipv4 192 168 0 1
    else if str_eqb s (str "192.168.0.2")
    then ipv4 192 168 0 2
    else []

abbrev tunnels : TunnelCalls ℕ ℕ
tunnels = record {
  add_tunnel = λ name source destination t addr net d. (ok tt, d);
  delete_tunnel = λ name t d. (ok tt, d);
}

abbrev no_cidr : Str → Option Ip
no_cidr s = none

src_back : parse_ip (ip_text flow.src_addr) ≡ flow.src_addr
unfolding ip_text decimal to4 join
src_back = refl

dst_back : parse_ip (ip_text flow.dst_addr) ≡ flow.dst_addr
unfolding ip_text decimal to4 join
dst_back = refl

src_v4 : to4 flow.src_addr ≡ some (192 ∷ 168 ∷ 0 ∷ 1 ∷ [])
unfolding to4
src_v4 = refl

dst_v4 : to4 flow.dst_addr ≡ some (192 ∷ 168 ∷ 0 ∷ 2 ∷ [])
unfolding to4
dst_v4 = refl

steered :
    (handle_steer
      (router_hal tunnels no_cidr accepts registry)
      parse_ip
      (steer_options flow is_tcp (str "wan0"))
      (empty_acl 10, 0)).0
    ≡ ok tt
unfolding handle_steer steer_flow parse_flow parse_endpoint parse_proto split parse_uint endpoint
    ip_text decimal to4 join steer build_batch next_hop_address find_interface_by_next_hop lookup
    add_rule find_rule_id apply_batch request_and_commit request commit_changes get_steer_interface
    response_map hop_interfaces
steered = refl

handle_steer-HasSteered_example :
    HasSteered accepts registry
      (record { rule = flow; next_hop = str "wan0" })
      (empty_acl 10)
      0
      (handle_steer
        (router_hal tunnels no_cidr accepts registry)
        parse_ip
        (steer_options flow is_tcp (str "wan0"))
        (empty_acl 10, 0)).1
handle_steer-HasSteered_example =
    handle_steer-HasSteered tunnels no_cidr accepts registry parse_ip flow (str "wan0")
      (empty_acl 10) 0 src_v4 dst_v4 src_back dst_back (omega arith) (omega arith) is_tcp (λ e. cc)
      empty-IsFresh steered

abbrev by_hand : SteerOptions
by_hand = record {
  from = str "192.168.0.1:1000";
  to = str "192.168.0.2:443";
  proto = str "udp";
  next_hop = [];
}

handle_steer-SteersOnly_example :
    SteersOnly
      (router_hal tunnels no_cidr accepts registry)
      parse_ip
      by_hand
      (empty_acl 10, 0)
      (handle_steer
        (router_hal tunnels no_cidr accepts registry)
        parse_ip
        by_hand
        (empty_acl 10, 0))
handle_steer-SteersOnly_example =
    handle_steer-SteersOnly (router_hal tunnels no_cidr accepts registry) parse_ip by_hand
      (empty_acl 10, 0)

abbrev tunnel : TunnelOptions
tunnel = record {
  name = str "t1";
  tunnel_type = str "rsvp";
  src = str "192.168.0.1";
  dst = str "192.168.0.2";
  halo_ifc = str "10.1.0.1/24";
}

abbrev some_net : Str → Option (Ip × ℕ)
some_net s = some (ipv4 10 1 0 1, 24)

handle_tunnel_add-AddsOnly_example :
    AddsOnly
      (router_hal tunnels no_cidr accepts registry)
      parse_ip
      some_net
      tunnel
      (empty_acl 10, 0)
      (handle_tunnel_add
        (router_hal tunnels no_cidr accepts registry)
        parse_ip
        some_net
        tunnel
        (empty_acl 10, 0))
handle_tunnel_add-AddsOnly_example =
    handle_tunnel_add-AddsOnly (router_hal tunnels no_cidr accepts registry) parse_ip some_net
      tunnel (empty_acl 10, 0)

-- Whole numbers for floats, and microseconds for seconds.
abbrev microseconds : ℤ → ℕ
microseconds (pos n) = n
microseconds _ = 0

abbrev whole : Floats
whole = record {
  add = λ a b. a + b;
  mul = λ a b. a * b;
  div = λ a b. a / b;
  seconds = microseconds;
  of_uint64 = λ n. n;
  to_uint64 = λ n. n;
}

abbrev wan_entry : BatchInterfaceOutput
wan_entry = record {
  name = str "wan0";
  if_type = str "wan";
  speed = 100;
  rx_bytes = 10;
  rx_bps = 20;
  tx_bytes = 30;
  tx_bps = 40;
  delay = 1;
  jitter = 2;
  time = pos 5;
}

abbrev known : AccumulatedOutput
known = record { time = 5; interfaces = (str "wan0", wan_entry) ∷ []; flows = [] }

known-IsTracking : IsTracking known
unfolding lookup
known-IsTracking = record { interfaces = ((refl, tt), (refl, tt)); flows = (tt, tt) }

abbrev one_round : BatchOutput
one_round = record { time = 6; interfaces = record wan_entry { speed = 200 } ∷ []; flows = [] }

update_acc_output_lem_example :
    ((name : Str)
      → lookup name (update_acc_output whole known one_round (pos 1)).interfaces
        ≡ described
            (λ v. v.name)
            (average_interface whole)
            (decay_interface whole (pos 1))
            (newest (λ v. v.name) name one_round.interfaces)
            (lookup name known.interfaces))
    × ((key : Str)
        → lookup key (update_acc_output whole known one_round (pos 1)).flows
          ≡ described flow_output_key
              (average_flow whole)
              (decay_flow whole (pos 1))
              (newest flow_output_key key one_round.flows)
              (lookup key known.flows))
    × IsTracking (update_acc_output whole known one_round (pos 1))
update_acc_output_lem_example = update_acc_output_lem whole known one_round (pos 1) known-IsTracking

accumulated_time_is_lost_example :
    ((name : Str) (a : BatchInterfaceOutput)
      → lookup name known.interfaces ≡ some a
      → (b : BatchInterfaceOutput) × (lookup name
            (update_acc_output whole known one_round (pos 1)).interfaces
          ≡ some b)
        × (b.time ≡ pos 0))
    × ((key : Str) (a : BatchFlowOutput)
        → lookup key known.flows ≡ some a
        → (b : BatchFlowOutput) × (lookup key
              (update_acc_output whole known one_round (pos 1)).flows
            ≡ some b)
          × (b.time ≡ pos 0))
accumulated_time_is_lost_example =
    accumulated_time_is_lost whole known one_round (pos 1) known-IsTracking

abbrev stat : FlowTelemetry
stat = record {
  rx_rate_pps = 1;
  tx_rate_pps = 0;
  rx_rate_bps = 8;
  tx_rate_bps = 0;
  rx_total_pkts = 1;
  tx_total_pkts = 0;
  rx_total_bytes = 8;
  tx_total_bytes = 0;
  ingress_if = str "lan0";
  egress_if = str "wan0";
}

abbrev first : Round Unit
first = record { elapsed = pos 6; tick = pos 1; registry = registry; reports = (flow, stat) ∷ [] }

abbrev all_on : Options
all_on = record { mon_ifc = true; mon_flows = true }

abbrev idle_wan : BatchInterfaceOutput
idle_wan = interface_output (str "wan") (pos 1) (str "wan0") no_telemetry

abbrev entry : BatchOutput
entry = record { time = 6; interfaces = idle_wan ∷ []; flows = flow_output (pos 1) flow stat ∷ [] }

abbrev logged : AccumulatedOutput
logged = record {
  time = 6;
  interfaces = (str "wan0", idle_wan) ∷ [];
  flows = (str "192.168.0.1:1000:192.168.0.2:443:tcp(0x06)", flow_output (pos 1) flow stat) ∷ [];
}
