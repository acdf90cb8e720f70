-- ===== src/Management.antt =====
-- The management service, pkg/hal/mgmt_server.go: interfaces that are added and removed at run
-- time. The gRPC connection to the router and what `getDnIfIndex` answers over it are parameters.
pub mod Interfaces
use vmw_tsf.Prelude.{ℕ, Str, ◌≡◌, List, [], ◌∷◌, Option, none, some, str}
use vmw_tsf.Net.{Ip}
use vmw_tsf.Net.Parse.{parse_uint, split}
use vmw_tsf.Outcome.{Outcome, ok, err, crash, bad_address}
use vmw_tsf.Registry.{
  Registry, Manager, OptionInterface, option_interface_upper, option_interface_lower,
  option_interface_update_net_flow_id, option_interface_next_hop, option_interface_twamp,
  new_interface, remove_interface,
}

pub record AddLanInterfaceArgs : Type 0 where
  pub upper : Str
  pub lower : Str

pub record AddWanInterfaceArgs : Type 0 where
  pub upper : Str
  pub lower : Str
  pub next_hop : Str
  pub twamp : Str

abbrev pub default_twamp_port : ℕ
default_twamp_port = 862

abbrev pub with_port : Str → Str → Option ℕ → Outcome (Str × ℕ)
with_port addr peer none = err (bad_address addr)
with_port addr peer (some port) = ok (peer, port)

unfoldable pub twamp_tokens : Str → List Str → Outcome (Str × ℕ)
twamp_tokens addr [] = err (bad_address addr)
twamp_tokens addr (peer ∷ []) = ok (peer, default_twamp_port)
twamp_tokens addr (peer ∷ port ∷ more) = with_port addr peer (parse_uint 16 port)

-- `parseTwampAddr`.
unfoldable pub parse_twamp_addr : Str → Outcome (Str × ℕ)
unfolding twamp_tokens
parse_twamp_addr addr = twamp_tokens addr (split b':' addr)

abbrev pub answer : {S : Type 0} → Outcome ℕ × Registry S → Outcome (Unit {0}) × Registry S
answer (ok p, r) = (ok tt, r)
answer (err e, r) = (err e, r)
answer (crash, r) = (crash, r)

module _ {S : Type 0} (mgr : Manager S) (get_dn_if_index : Str → Outcome ℕ)
    (parse_ip : Str → Ip) where
  unfoldable pub lan_options : AddLanInterfaceArgs → List OptionInterface
  lan_options args =
      option_interface_upper args.upper
      ∷ option_interface_lower args.lower
      ∷ option_interface_update_net_flow_id get_dn_if_index
      ∷ []

  unfoldable pub wan_options : AddWanInterfaceArgs → Str → ℕ → List OptionInterface
  wan_options args peer port =
      option_interface_upper args.upper
      ∷ option_interface_lower args.lower
      ∷ option_interface_twamp peer port
      ∷ option_interface_next_hop (parse_ip args.next_hop)
      ∷ option_interface_update_net_flow_id get_dn_if_index
      ∷ []

  -- `AddLanInterface`; the first argument is the result of dialling the router.
  unfoldable pub add_lan_interface :
      Outcome (Unit {0}) → AddLanInterfaceArgs → Registry S → Outcome (Unit {0}) × Registry S
  unfolding lan_options
  add_lan_interface (ok _) args r = answer (new_interface mgr (lan_options args) r)
  add_lan_interface (err e) args r = (err e, r)
  add_lan_interface crash args r = (crash, r)

  unfoldable pub add_wan_parsed :
      Outcome (Unit {0})
      → AddWanInterfaceArgs
      → Outcome (Str × ℕ)
      → Registry S
      → Outcome (Unit {0}) × Registry S
  unfolding wan_options
  add_wan_parsed (ok _) args (ok (peer, port)) r =
      answer (new_interface mgr (wan_options args peer port) r)
  add_wan_parsed (err e) args (ok (peer, port)) r = (err e, r)
  add_wan_parsed crash args (ok (peer, port)) r = (crash, r)
  add_wan_parsed dial args (err e) r = (err e, r)
  add_wan_parsed dial args crash r = (crash, r)

  -- `AddWanInterface`.
  unfoldable pub add_wan_interface :
      Outcome (Unit {0}) → AddWanInterfaceArgs → Registry S → Outcome (Unit {0}) × Registry S
  unfolding add_wan_parsed parse_twamp_addr
  add_wan_interface dial args r = add_wan_parsed dial args (parse_twamp_addr args.twamp) r

  -- `DeleteInterface`.
  unfoldable pub delete_interface : Str → Registry S → Outcome (Unit {0}) × Registry S
  delete_interface upper r = remove_interface mgr upper r
