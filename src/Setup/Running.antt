-- ===== src/Setup/Running.antt =====
-- `Init` and `NewDnHal` of pkg/hal/hal.go: the order in which the registry, the rules on the
-- device, the flows and the rule cache are set up. The connection to the router is I/O.
use vmw_tsf.Prelude.{ℕ, Str, Bool, true, false, List, [], Option, if◌then◌else◌}
use vmw_tsf.Prelude.Int.{ℤ}
use vmw_tsf.Net.{Ip}
use vmw_tsf.Outcome.{Outcome, ok, err, crash, proceed}
use vmw_tsf.Registry.{Registry, Manager}
use vmw_tsf.Startup.{start_interfaces}
use vmw_tsf.Netconf.{Device}
use vmw_tsf.Steering.{Acl}
use vmw_tsf.Loading.{init_net_conf, steering_acl_cleanup}
use vmw_tsf.Collector.{Flows}
use vmw_tsf.Setup.{SetUp, OptionHal, System, configure, interfaces_cfg}

-- `hal`, with the variable `accessListID` in `acl`.
pub record Hal (S : Type 0) : Type 0 where
  pub initialized : Bool
  pub set_up : SetUp
  pub registry : Registry S
  pub acl : Acl
  pub flows : Flows

-- `InitFlows`, at the time `now`.
unfoldable pub init_flows : ℤ → Flows
init_flows now = record { start = now; aggregate = [] }

-- What the environment gives: the gNMI manager and the answers of `getDnIfIndex`, Go's parsers of
-- addresses and networks, the router, the names of the system's interfaces, and the time.
pub record Surroundings (S D : Type 0) : Type 0 where
  pub manager : Manager S
  pub monitor : Option S
  pub index_of : Str → Outcome ℕ
  pub parse_ip : Str → Ip
  pub parse_cidr : Str → Option Ip
  pub exec : Device D
  pub names : List Str
  pub now : ℤ

module _ {S D : Type 0} (env : Surroundings S D) where
  -- An error of the cleanup is only logged.
  abbrev pub logged : Outcome (Unit {0}) × D → Outcome (Unit {0}) × D
  logged (ok _, d) = (ok tt, d)
  logged (err e, d) = (ok tt, d)
  logged (crash, d) = (crash, d)

  unfoldable pub flush : Bool → D → Outcome (Unit {0}) × D
  flush true d = logged (steering_acl_cleanup env.exec d)
  flush false d = (ok tt, d)

  -- `Init` after `InitInterfaces`.
  unfoldable pub init_rules : Hal S → Registry S → D → Outcome (Hal S) × D
  unfolding flush init_flows
  init_rules h r d = proceed (flush h.set_up.config.flush_steer d) λ _ d₁.
      proceed (init_net_conf env.parse_cidr env.exec (record h.acl { rules = [] }) d₁) λ acl d₂. (
        ok (record {
          initialized = true;
          set_up = h.set_up;
          registry = r;
          acl = acl;
          flows = init_flows env.now;
        }),
        d₂,
      )

  -- `Init`.
  unfoldable pub init : Hal S → D → Outcome (Hal S) × D
  unfolding init_rules
  init h d =
      let cfg = interfaces_cfg h.set_up.config in
      proceed (start_interfaces env.manager env.index_of env.parse_ip cfg env.names env.monitor, d)
        (init_rules h)

  module _ {V : Type 0} (sys : System V) where
    -- `NewDnHal`.
    unfoldable pub new_dn_hal : List OptionHal → Hal S → D → Outcome (Hal S) × D
    unfolding init
    new_dn_hal options h d =
        if h.initialized
        then (ok h, d)
        else proceed (configure sys options h.set_up, d) λ s d₁. init (record h { set_up = s }) d₁
