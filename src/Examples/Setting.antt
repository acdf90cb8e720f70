-- ===== src/Examples/Setting.antt =====
-- A first call of `NewDnHal` (pkg/hal/hal.go) with the options of the client's commands.
use vmw_tsf.Prelude.{ℕ, true, false, List, [], ◌∷◌, none, some, str, str_eq, nat_eq}
use vmw_tsf.Prelude.Int.{pos}
use vmw_tsf.Outcome.{Outcome, ok}
use vmw_tsf.Registry.{init_interfaces}
use vmw_tsf.Startup.{InterfaceCfg}
use vmw_tsf.Setup.{HalCfg, OptionHal, option_hal_flush_steer, option_hal_stats_server, System}
use vmw_tsf.Setup.Running.{Hal, Surroundings, new_dn_hal}
use vmw_tsf.Examples.Steers.{accepts}
use vmw_tsf.Examples.Starting.{quiet, lan, wan, index_of, parse_ip, names}

abbrev no_ifc : InterfaceCfg
no_ifc = record { upper = []; lower = []; hw_addr = []; ipv4_addr = [] }

abbrev zero_cfg : HalCfg
zero_cfg = record {
  netconf = record { user = []; password = [] };
  dnos_addr = [];
  local_ifname = [];
  ifc_sampling_interval = 0;
  flow_threshold = 0;
  skip_twamp = false;
  flush_steer = false;
  stats_server = false;
  debug = false;
  lan = no_ifc;
  wan = [];
  topo = record { next_hop = []; twamp = []; peer = [] };
}

-- The address of the WAN interface is found by its hardware address, that of its neighbour under a
-- key with dashes.
abbrev sys : System Unit
sys = record {
  file = some tt;
  unmarshal = λ file c. record c {
    lan = lan;
    wan = record wan { upper = []; hw_addr = str "02:00:00:00:00:01" } ∷ [];
    flush_steer = true;
    topo = record { next_hop = (str "10-0-0-2", str "10.0.0.1") ∷ []; twamp = []; peer = [] };
  };
  dnos_addr = some (str "192.168.50.36");
  interfaces = some ((str "02:00:00:00:00:01", str "wan0") ∷ []);
}

abbrev env : Surroundings Unit ℕ
env = record {
  manager = quiet;
  monitor = none;
  index_of = index_of;
  parse_ip = parse_ip;
  parse_cidr = λ s. none;
  exec = accepts;
  names = names;
  now = pos 7;
}

abbrev blank : Hal Unit
blank = record {
  initialized = false;
  set_up = record { config = zero_cfg; config_required = true };
  registry = init_interfaces none;
  acl = record { rules = []; access_list_id = 10 };
  flows = record { start = pos 0; aggregate = [] };
}

abbrev options : List OptionHal
options = option_hal_flush_steer false ∷ option_hal_stats_server false ∷ []

abbrev value : Outcome (Hal Unit) → Hal Unit
value (ok h) = h
value _ = blank

abbrev running : Hal Unit
running = value (new_dn_hal env sys options blank 0).0
