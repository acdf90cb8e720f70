-- ===== src/Mock.antt =====
-- The mock of the HAL for tests of clients: pkg/hal/mock.go. What it prints is left out; the order
-- of its maps stands for the order of a `range`.
use vmw_tsf.Prelude.{Str, Bool, true, false, List, [], ◌∷◌, str}
use vmw_tsf.Net.{ipv4}
use vmw_tsf.Outcome.{Outcome, ok, err, crash}
use vmw_tsf.Registry.{InterfaceTelemetry}
use vmw_tsf.Telemetry.{Visitor}
use vmw_tsf.Flow.{FlowKey, FlowTelemetry, tcp}
use vmw_tsf.Client.Commands.{DnHal}

pub record DnHalMock : Type 0 where
  pub initialized : Bool

unfoldable pub mock_init : DnHalMock → DnHalMock
mock_init hal = record hal { initialized = true }

-- `NewDnHalMock`, on the package's one mock.
unfoldable pub new_dn_hal_mock : DnHalMock → DnHalMock
unfolding mock_init
new_dn_hal_mock mock = elim mock.initialized [ true ↦ mock | false ↦ mock_init mock ]

-- The delays and jitters are the float64 values 30.84, 6.57, 20.91 and 8.22.
abbrev pub itl : List (Str × InterfaceTelemetry)
itl =
    (
      str "halo1",
      record {
        speed = 10;
        rx_bytes = 1000;
        rx_bps = 100;
        tx_bytes = 2000;
        tx_bps = 200;
        link = record { delay = 4629373905963885527; jitter = 4619083180815343944 };
      },
    )
    ∷ (
      str "halo2",
      record {
        speed = 11;
        rx_bytes = 1100;
        rx_bps = 110;
        tx_bytes = 2100;
        tx_bps = 210;
        link = record { delay = 4626578859445148713; jitter = 4620817066671881585 };
      },
    )
    ∷ []

abbrev pub ftl : List (FlowKey × FlowTelemetry)
ftl =
    (
      record {
        protocol = tcp;
        src_addr = ipv4 10 10 0 2;
        dst_addr = ipv4 10 11 0 2;
        src_port = 8081;
        dst_port = 8082;
      },
      record {
        rx_rate_pps = 100;
        tx_rate_pps = 200;
        rx_rate_bps = 1000;
        tx_rate_bps = 1000;
        rx_total_pkts = 1000;
        tx_total_pkts = 2000;
        rx_total_bytes = 10000;
        tx_total_bytes = 20000;
        ingress_if = str "halo1";
        egress_if = str "halo2";
      },
    )
    ∷ (
      record {
        protocol = tcp;
        src_addr = ipv4 10 10 0 3;
        dst_addr = ipv4 10 11 0 3;
        src_port = 8181;
        dst_port = 8182;
      },
      record {
        rx_rate_pps = 110;
        tx_rate_pps = 210;
        rx_rate_bps = 1100;
        tx_rate_bps = 1100;
        rx_total_pkts = 1100;
        tx_total_pkts = 2100;
        rx_total_bytes = 11000;
        tx_total_bytes = 21000;
        ingress_if = str "halo2";
        egress_if = str "halo1";
      },
    )
    ∷ []

-- A loop over a map that stops at the visitor's first error.
unfoldable pub visit_entries :
    {K T V : Type 0}
    → (K → T → V → V × Outcome (Unit {0}))
    → List (K × T)
    → V
    → V × Outcome (Unit {0})
visit_entries visit [] v = (v, ok tt)
visit_entries visit ((k, t) ∷ rest) v =
    let (v', result) = visit k t v in
    elim result [ ok _ ↦ visit_entries visit rest v' | err e ↦ (v', err e) | crash ↦ (v', crash) ]

unfoldable pub mock_get_interfaces : {V : Type 0} → Visitor V → V → V × Outcome (Unit {0})
unfolding visit_entries
mock_get_interfaces visit v = visit_entries visit itl v

unfoldable pub mock_get_lan_interfaces : {V : Type 0} → Visitor V → V → V × Outcome (Unit {0})
mock_get_lan_interfaces visit v = (v, crash)

unfoldable pub mock_get_wan_interfaces : {V : Type 0} → Visitor V → V → V × Outcome (Unit {0})
mock_get_wan_interfaces visit v = (v, crash)

unfoldable pub mock_get_flows :
    {V : Type 0}
    → (FlowKey → FlowTelemetry → V → V × Outcome (Unit {0}))
    → V
    → V × Outcome (Unit {0})
unfolding visit_entries
mock_get_flows visit v = visit_entries visit ftl v

-- The calls of the mock that the client's commands make: those of tunnels panic.
unfoldable pub mock_hal : {N : Type 0} → DnHal DnHalMock N
mock_hal = record {
  steer = λ rules hal. (ok tt, hal);
  remove_steer = λ fk hal. (ok tt, hal);
  get_steer_interface = λ rules hal. (ok (true, [] ∷ []), hal);
  add_tunnel = λ name source destination t halo_addr halo_net hal. (crash, hal);
  delete_tunnel = λ name t hal. (crash, hal);
}
