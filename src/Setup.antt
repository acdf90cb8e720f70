-- ===== src/Setup.antt =====
-- The set-up of the HAL: the configuration of pkg/hal/config.go, and the options and `NewDnHal` of
-- pkg/hal/hal.go. The reading of the file is viper's, and a parameter; the background routines that
-- `Init` starts are modelled as operations of their own.
pub mod Options
pub mod Running
pub mod Starts
use vmw_tsf.Prelude.{
  ℕ, Str, Bool, true, false, List, [], ◌∷◌, ◌++◌, Option, none, some, map, str, eqb, str_eqb,
  str_eq, length, if◌then◌else◌,
}
use vmw_tsf.Prelude.Map.{Map, lookup, insert}
use vmw_tsf.Outcome.{Outcome, ok, err, crash, ◌>>=◌}
use vmw_tsf.Registry.{Float64}
use vmw_tsf.Startup.{InterfaceCfg, TwampCfg, InterfacesCfg}

pub record NetconfCfg : Type 0 where
  pub user : Str
  pub password : Str

pub record TopoCfg : Type 0 where
  pub next_hop : Map Str Str
  pub twamp : Map Str TwampCfg
  pub peer : Map Str Str

pub record HalCfg : Type 0 where
  pub netconf : NetconfCfg
  pub dnos_addr : Str
  pub local_ifname : Str
  pub ifc_sampling_interval : Float64
  pub flow_threshold : ℕ
  pub skip_twamp : Bool
  pub flush_steer : Bool
  pub stats_server : Bool
  pub debug : Bool
  pub lan : InterfaceCfg
  pub wan : List InterfaceCfg
  pub topo : TopoCfg

abbrev pub default_flow_threshold : ℕ
default_flow_threshold = 100_000

-- The part of `DnHalImpl` that the set-up writes before `Init`, and the variable `configRequired`.
pub record SetUp : Type 0 where
  pub config : HalCfg
  pub config_required : Bool

-- `OptionHal`; none of the options returns an error.
pub data OptionHal : Type 0 where
  option_hal_flush_steer : Bool → OptionHal
  option_hal_stats_server : Bool → OptionHal
  option_hal_flow_threshold : ℕ → OptionHal
  option_hal_config_required : Bool → OptionHal

unfoldable pub apply_option : OptionHal → SetUp → SetUp
apply_option (option_hal_flush_steer opt) s = record s {
  config = record s.config { flush_steer = opt };
}
apply_option (option_hal_stats_server opt) s = record s {
  config = record s.config { stats_server = opt };
}
apply_option (option_hal_flow_threshold t) s = record s {
  config = record s.config { flow_threshold = t };
}
apply_option (option_hal_config_required opt) s = record s { config_required = opt }

unfoldable pub apply_options : List OptionHal → SetUp → SetUp
unfolding apply_option
apply_options [] s = s
apply_options (op ∷ ops) s = apply_options ops (apply_option op s)

-- `strings.ReplaceAll(key, "-", ".")`.
unfoldable pub dotted_key : Str → Str
dotted_key [] = []
dotted_key (c ∷ s) = (if eqb c b'-' then b'.' else c) ∷ dotted_key s

unfoldable pub dotted_keys {ℓ} : {V : Type ℓ} → Map Str V → Map Str V → Map Str V
unfolding dotted_key
dotted_keys [] fixed = fixed
dotted_keys ((key, value) ∷ rest) fixed = dotted_keys rest (insert (dotted_key key) value fixed)

unfoldable pub workaround_viper_dict_dot_key_issue : HalCfg → HalCfg
unfolding dotted_keys
workaround_viper_dict_dot_key_issue c = record c {
  topo = record {
    next_hop = dotted_keys c.topo.next_hop [];
    twamp = dotted_keys c.topo.twamp [];
    peer = dotted_keys c.topo.peer [];
  };
}

-- `UpdateUpperByMac`: the text of each address of the system's interfaces, and its name.
unfoldable pub mac_to_if_name : List (Str × Str) → Map Str Str → Map Str Str
mac_to_if_name [] m = m
mac_to_if_name ((mac, name) ∷ ifs) m = mac_to_if_name ifs (insert mac name m)

abbrev pub renamed : Option Str → InterfaceCfg → InterfaceCfg
renamed none ifc = ifc
renamed (some name) ifc = record ifc { upper = name }

unfoldable pub update_wan : Map Str Str → List InterfaceCfg → List InterfaceCfg
update_wan m [] = []
update_wan m (ifc ∷ wan) =
    (if str_eqb ifc.hw_addr [] then ifc else renamed (lookup ifc.hw_addr m) ifc) ∷ update_wan m wan

unfoldable pub update_upper_by_mac : List (Str × Str) → HalCfg → HalCfg
unfolding mac_to_if_name update_wan
update_upper_by_mac ifs c = record c { wan = update_wan (mac_to_if_name ifs []) c.wan }

-- viper: the content of the file, if it can be read, and `Unmarshal`, which writes the file's
-- settings and the defaults over a configuration; the variable DNOS_ADDR; the system's interfaces.
pub record System (V : Type 0) : Type 0 where
  pub file : Option V
  pub unmarshal : Option V → HalCfg → HalCfg
  pub dnos_addr : Option Str
  pub interfaces : Option (List (Str × Str))

abbrev pub env_text : Option Str → Str
env_text none = []
env_text (some s) = s

module _ {V : Type 0} (sys : System V) where
  abbrev pub loaded : Option V → HalCfg → HalCfg
  loaded file c =
      workaround_viper_dict_dot_key_issue
        (sys.unmarshal file (record c { dnos_addr = env_text sys.dnos_addr }))

  abbrev pub load_file : Option V → SetUp → Outcome SetUp
  load_file (some file) s = ok (record s { config = loaded (some file) s.config })
  load_file none s =
      if s.config_required then crash else ok (record s { config = loaded none s.config })

  -- `LoadConfig`.
  unfoldable pub load_config : SetUp → Outcome SetUp
  unfolding workaround_viper_dict_dot_key_issue
  load_config s = load_file sys.file s

  -- Without the list of interfaces `UpdateUpperByMac` ends the process.
  abbrev pub with_upper : Option (List (Str × Str)) → SetUp → Outcome SetUp
  with_upper none s = crash
  with_upper (some ifs) s = ok (record s { config = update_upper_by_mac ifs s.config })

  -- `NewDnHal` up to `Init`: the options come before the file, and again after it.
  unfoldable pub configure : List OptionHal → SetUp → Outcome SetUp
  unfolding apply_options load_config update_upper_by_mac
  configure options s = do
    c ← load_config (apply_options options s)
    upper ← with_upper sys.interfaces c
    ok (apply_options options upper)

-- What `InitInterfaces` reads of the configuration.
abbrev pub interfaces_cfg : HalCfg → InterfacesCfg
interfaces_cfg c = record {
  lan = c.lan;
  wan = c.wan;
  next_hop = c.topo.next_hop;
  twamp = c.topo.twamp;
}

-- `NewDnCredentials` and `Lookup` of pkg/hal/gnmi.go.
unfoldable pub lookup_credentials : HalCfg → Str → Option Str
lookup_credentials c user = if str_eqb user c.netconf.user then some c.netconf.password else none
