-- ===== src/Registry.antt =====
-- The interface registry of pkg/hal/hal.go: the type `Interface`, the maps under
-- `hal.interfaces.Map` and the functions that keep them. Go shares one `*Interface` among the
-- maps, so the maps hold pointers, places in a store of interfaces that only grows.
-- `sync.RWMutex` makes each function one step; the gNMI manager is a parameter.
pub mod Invariant
pub mod Lifecycle
use vmw_tsf.Prelude.{
  ℕ, zero, suc, ◌+◌, Str, ◌≡◌, Bool, true, false, not, ◌&&◌, List, [], ◌∷◌, ◌++◌, Option, none,
  some, map, str, eqb, str_eqb, length, get_elem?, set, if◌then◌else◌, nat_eq, str_eq,
}
use vmw_tsf.Prelude.Map.{Map, lookup, insert, delete}
use vmw_tsf.Prelude.Sort.{sort}
use vmw_tsf.Net.{Ip, to4, equal, ipv4_zero, ipv6_zero}
use vmw_tsf.Outcome.{Outcome, ok, err, crash, ◌>>=◌, Error, already_exists, monitor_not_removed}

-- A float64, by its bit pattern; this module only moves them.
abbrev pub Float64 : Type 0
Float64 = ℕ

pub record LinkTelemetry : Type 0 where
  pub delay : Float64
  pub jitter : Float64

pub record InterfaceTelemetry : Type 0 where
  pub speed : ℕ
  pub rx_bytes : ℕ
  pub rx_bps : ℕ
  pub tx_bytes : ℕ
  pub tx_bps : ℕ
  pub link : LinkTelemetry

abbrev pub netflow_id_invalid : ℕ
netflow_id_invalid = 0xffff_ffff

pub record Interface : Type 0 where
  pub upper : Str
  pub lower : Str
  pub net_flow_id : ℕ
  pub next_hop : Ip
  pub stats : InterfaceTelemetry
  pub twamp_peer : Str
  pub twamp_port : ℕ

abbrev pub no_telemetry : InterfaceTelemetry
no_telemetry = record {
  speed = 0;
  rx_bytes = 0;
  rx_bps = 0;
  tx_bytes = 0;
  tx_bps = 0;
  link = record { delay = 0; jitter = 0 };
}

abbrev pub default_interface : Interface
default_interface = record {
  upper = [];
  lower = [];
  net_flow_id = netflow_id_invalid;
  next_hop = ipv4_zero;
  stats = no_telemetry;
  twamp_peer = [];
  twamp_port = 0;
}

abbrev pub OptionInterface : Type 0
OptionInterface = Interface → Outcome Interface

abbrev pub option_interface_upper : Str → OptionInterface
option_interface_upper name ifc = ok (record ifc { upper = name })

abbrev pub option_interface_lower : Str → OptionInterface
option_interface_lower name ifc = ok (record ifc { lower = name })

abbrev pub option_interface_net_flow_id : ℕ → OptionInterface
option_interface_net_flow_id nfid ifc = ok (record ifc { net_flow_id = nfid })

-- The argument is what `getDnIfIndex` answers for the lower name.
abbrev pub option_interface_update_net_flow_id : (Str → Outcome ℕ) → OptionInterface
option_interface_update_net_flow_id get_dn_if_index ifc = do
  nfid ← get_dn_if_index ifc.lower
  ok (record ifc { net_flow_id = nfid })

-- The argument is what `net.ParseIP` returns, nil for a text that is no address.
abbrev pub option_interface_next_hop : Ip → OptionInterface
option_interface_next_hop nh ifc = ok (record ifc { next_hop = nh })

abbrev pub option_interface_twamp : Str → ℕ → OptionInterface
option_interface_twamp peer port ifc = ok (record ifc { twamp_peer = peer; twamp_port = port })

unfoldable pub is_wan : Interface → Bool
unfolding to4 equal
is_wan ifc = elim (to4 ifc.next_hop) [
  | some ip4 ↦ not (equal ifc.next_hop ipv4_zero)
  | none ↦ not (equal ifc.next_hop ipv6_zero)
]

-- The manager of gNMI subscriptions: `add` with its error ignored, `remove` with its success.
pub record Manager (S : Type 0) : Type 0 where
  pub add : Str → S → S
  pub remove : Str → S → S × Bool

pub record Registry (S : Type 0) : Type 0 where
  pub store : List Interface
  pub lan : List Str
  pub wan : List Str
  pub upper2interface : Map Str ℕ
  pub lower2interface : Map Str ℕ
  pub net_flow2interface : Map ℕ ℕ
  pub next_hop2interface : Map Str ℕ
  pub monitor : Option S

abbrev pub init_interfaces : {S : Type 0} → Option S → Registry S
init_interfaces m = record {
  store = [];
  lan = [];
  wan = [];
  upper2interface = [];
  lower2interface = [];
  net_flow2interface = [];
  next_hop2interface = [];
  monitor = m;
}

unfoldable pub apply_options : List OptionInterface → Interface → Outcome Interface
apply_options [] ifc = ok ifc
apply_options (op ∷ ops) ifc = do ifc' ← op ifc; apply_options ops ifc'

-- `remove`: drops the first occurrence.
unfoldable pub remove : List Str → Str → List Str
remove [] needle = []
remove (item ∷ rest) needle = if str_eqb item needle then rest else item ∷ remove rest needle

module _ {S : Type 0} (mgr : Manager S) where
  abbrev monitor_add : Str → Option S → Option S
  monitor_add lower none = none
  monitor_add lower (some m) = some (mgr.add lower m)

  -- The writes of `NewInterface` once the upper name is known to be new.
  unfoldable pub register : Interface → Registry S → Registry S
  register ifc r =
      let p = length r.store in
      record r {
        store = r.store ++ ifc ∷ [];
        lower2interface = insert ifc.lower p r.lower2interface;
        upper2interface = insert ifc.upper p r.upper2interface;
        net_flow2interface =
            if eqb ifc.net_flow_id netflow_id_invalid
            then r.net_flow2interface
            else insert ifc.net_flow_id p r.net_flow2interface;
        next_hop2interface =
            if is_wan ifc then insert ifc.upper p r.next_hop2interface else r.next_hop2interface;
        wan = if is_wan ifc then sort (r.wan ++ ifc.upper ∷ []) else r.wan;
        lan = if is_wan ifc then r.lan else sort (r.lan ++ ifc.upper ∷ []);
        monitor = monitor_add ifc.lower r.monitor;
      }

  unfoldable pub add_unless_known : Interface → Registry S → Option ℕ → Outcome ℕ × Registry S
  add_unless_known ifc r (some p) = (err (already_exists ifc.upper), r)
  add_unless_known ifc r none = (ok (length r.store), register ifc r)

  unfoldable pub add_configured : Registry S → Outcome Interface → Outcome ℕ × Registry S
  unfolding add_unless_known
  add_configured r (ok ifc) = add_unless_known ifc r (lookup ifc.upper r.upper2interface)
  add_configured r (err e) = (err e, r)
  add_configured r crash = (crash, r)

  -- `NewInterface`: the new pointer, or an error.
  unfoldable pub new_interface : List OptionInterface → Registry S → Outcome ℕ × Registry S
  unfolding add_configured
  new_interface options r = add_configured r (apply_options options default_interface)

  abbrev monitor_remove : Str → Option S → Option S × Bool
  monitor_remove lower none = (none, true)
  monitor_remove lower (some m) = let (m', done) = mgr.remove lower m in (some m', done)

  -- The deletions of `RemoveInterface`, for the interface that the upper name leads to.
  unfoldable pub unregister : Interface → Registry S → Registry S
  unregister ifc r = record r {
    lower2interface = delete ifc.lower r.lower2interface;
    upper2interface = delete ifc.upper r.upper2interface;
    net_flow2interface =
        if eqb ifc.net_flow_id netflow_id_invalid
        then r.net_flow2interface
        else delete ifc.net_flow_id r.net_flow2interface;
    next_hop2interface = delete ifc.upper r.next_hop2interface;
    wan = remove r.wan ifc.upper;
    lan = remove r.lan ifc.upper;
    monitor = (monitor_remove ifc.lower r.monitor).0;
  }

  abbrev removal_result : Str → Bool → Outcome (Unit {0})
  removal_result lower true = ok tt
  removal_result lower false = err (monitor_not_removed lower)

  -- A pointer outside the store is a nil pointer, whose use panics.
  unfoldable pub remove_found : Registry S → Option Interface → Outcome (Unit {0}) × Registry S
  unfolding unregister
  remove_found r none = (crash, r)
  remove_found r (some ifc) =
      (removal_result ifc.lower (monitor_remove ifc.lower r.monitor).1, unregister ifc r)

  unfoldable pub remove_at : Registry S → Option ℕ → Outcome (Unit {0}) × Registry S
  unfolding remove_found
  remove_at r none = (ok tt, r)
  remove_at r (some p) = remove_found r (get_elem? r.store p)

  -- `RemoveInterface`: an unknown name is skipped without an error.
  unfoldable pub remove_interface : Str → Registry S → Outcome (Unit {0}) × Registry S
  unfolding remove_at
  remove_interface upper r = remove_at r (lookup upper r.upper2interface)

module _ {S : Type 0} where
  abbrev pub deref : Registry S → Option ℕ → Option Interface
  deref r none = none
  deref r (some p) = get_elem? r.store p

  unfoldable pub copy_interfaces : List Str → Registry S → List (Option Interface)
  copy_interfaces [] r = []
  copy_interfaces (u ∷ us) r = deref r (lookup u r.upper2interface) ∷ copy_interfaces us r

  -- `none` in the list is a nil pointer.
  unfoldable pub copy_lan_interfaces : Registry S → List (Option Interface)
  unfolding copy_interfaces
  copy_lan_interfaces r = copy_interfaces r.lan r

  unfoldable pub copy_wan_interfaces : Registry S → List (Option Interface)
  unfolding copy_interfaces
  copy_wan_interfaces r = copy_interfaces r.wan r

  unfoldable pub find_interface_by_lower : Str → Registry S → Option ℕ
  find_interface_by_lower lower r = lookup lower r.lower2interface

  unfoldable pub find_interface_by_net_flow_id : ℕ → Registry S → Option Interface
  find_interface_by_net_flow_id nfid r = deref r (lookup nfid r.net_flow2interface)

  unfoldable pub find_interface_by_next_hop : Str → Registry S → Option Interface
  find_interface_by_next_hop nh r = deref r (lookup nh r.next_hop2interface)
