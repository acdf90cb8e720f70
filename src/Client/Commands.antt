-- ===== src/Client/Commands.antt =====
-- The commands of cmd/client/main.go that act once: `handleSteer`, the tunnels and the interfaces.
-- They use the HAL through the interface `DnHal` of pkg/hal/api.go and the management service
-- through its client, both records here.
use vmw_tsf.Prelude.{
  ℕ, Str, Bool, not, ◌||◌, List, [], ◌∷◌, Option, none, some, str, str_eqb, eqb, length,
  if◌then◌else◌,
}
use vmw_tsf.Net.{Ip}
use vmw_tsf.Net.Parse.{parse_uint, split}
use vmw_tsf.Outcome.{Outcome, ok, err, crash, ◌>>=◌, empty_argument, bad_address, unsupported}
use vmw_tsf.Flow.{FlowKey, tcp, udp}
use vmw_tsf.Steering.{SteerItem}
use vmw_tsf.Tunnels.{TunnelType, vxlan}
use vmw_tsf.Management.{AddLanInterfaceArgs, AddWanInterfaceArgs}

-- The calls of `DnHal` that the commands make, on a state `H`; `N` is `net.IPNet`.
pub record DnHal (H N : Type 0) : Type 0 where
  pub steer : List SteerItem → H → Outcome (Unit {0}) × H
  pub remove_steer : List FlowKey → H → Outcome (Unit {0}) × H
  pub get_steer_interface : List SteerItem → H → Outcome (Bool × List Str) × H
  pub add_tunnel : Str → Ip → Ip → TunnelType → Ip → N → H → Outcome (Unit {0}) × H
  pub delete_tunnel : Str → TunnelType → H → Outcome (Unit {0}) × H

pub record SteerOptions : Type 0 where
  pub from : Str
  pub to : Str
  pub proto : Str
  pub next_hop : Str

pub record TunnelOptions : Type 0 where
  pub name : Str
  pub tunnel_type : Str
  pub src : Str
  pub dst : Str
  pub halo_ifc : Str

abbrev pub is_empty : Str → Bool
is_empty s = str_eqb s []

-- `net.ParseIP`, whose nil is the empty list, is a parameter.
module _ (parse_ip : Str → Ip) where
  abbrev pub with_port : Str → Option ℕ → Outcome (Ip × ℕ)
  with_port addr none = crash
  with_port addr (some port) = ok (parse_ip addr, port)

  abbrev pub from_tokens : List Str → Outcome (Ip × ℕ)
  from_tokens (addr ∷ port ∷ []) = with_port addr (parse_uint 16 port)
  from_tokens _ = crash

  unfoldable pub parse_endpoint : Str → Outcome (Ip × ℕ)
  parse_endpoint s = from_tokens (split b':' s)

  unfoldable pub parse_proto : Str → Outcome ℕ
  parse_proto s =
      if str_eqb s (str "tcp") then ok tcp else if str_eqb s (str "udp") then ok udp else crash

  unfoldable pub parse_flow : SteerOptions → Outcome FlowKey
  unfolding parse_endpoint parse_proto
  parse_flow o = do
    (src_addr, src_port) ← parse_endpoint o.from
    (dst_addr, dst_port) ← parse_endpoint o.to
    protocol ← parse_proto o.proto
    ok (record {
      protocol = protocol;
      src_addr = src_addr;
      dst_addr = dst_addr;
      src_port = src_port;
      dst_port = dst_port;
    })

-- `panic(err)`.
abbrev pub or_panic : Outcome (Unit {0}) → Outcome (Unit {0})
or_panic (ok _) = ok tt
or_panic (err e) = crash
or_panic crash = crash

module _ {H N : Type 0} (hal : DnHal H N) where
  abbrev pub verified : Outcome (Unit {0}) → Outcome (Bool × List Str) × H → Outcome (Unit {0}) × H
  verified steered (ok _, h) = (or_panic steered, h)
  verified steered (err e, h) = (or_panic steered, h)
  verified steered (crash, h) = (crash, h)

  -- The rule is looked up, and the answer printed, whether or not `Steer` has failed.
  abbrev pub verify : SteerItem → Outcome (Unit {0}) × H → Outcome (Unit {0}) × H
  verify item (ok _, h) = verified (ok tt) (hal.get_steer_interface (item ∷ []) h)
  verify item (err e, h) = verified (err e) (hal.get_steer_interface (item ∷ []) h)
  verify item (crash, h) = (crash, h)

  unfoldable pub steer_flow : FlowKey → Str → H → Outcome (Unit {0}) × H
  steer_flow fk next_hop h =
      if is_empty next_hop
      then (let (removed, h') = hal.remove_steer (fk ∷ []) h in (or_panic removed, h'))
      else let item : SteerItem = record { rule = fk; next_hop = next_hop } in
        verify item (hal.steer (item ∷ []) h)

  abbrev pub steer_parsed : Outcome FlowKey → Str → H → Outcome (Unit {0}) × H
  steer_parsed (ok fk) next_hop h = steer_flow fk next_hop h
  steer_parsed (err e) next_hop h = (err e, h)
  steer_parsed crash next_hop h = (crash, h)

  module _ (parse_ip : Str → Ip) where
    -- `handleSteer`.
    unfoldable pub handle_steer : SteerOptions → H → Outcome (Unit {0}) × H
    unfolding parse_flow steer_flow
    handle_steer o h =
        if is_empty o.from
        then (ok tt, h)
        else if is_empty o.to
        then (crash, h)
        else steer_parsed (parse_flow parse_ip o) o.next_hop h

    abbrev pub known_type : Str → Bool
    known_type t = str_eqb t (str "vxlan") || str_eqb t (str "rsvp")

    -- `net.ParseCIDR` is a parameter.
    module _ (parse_cidr : Str → Option (Ip × N)) where
      abbrev pub add_with_net :
          TunnelOptions → Ip → Ip → Option (Ip × N) → H → Outcome (Unit {0}) × H
      add_with_net o src dst none h = (err (bad_address o.halo_ifc), h)
      add_with_net o src dst (some (halo_addr, halo_net)) h =
          hal.add_tunnel o.name src dst vxlan halo_addr halo_net h

      -- `handleTunnelAdd`. The error for a bad destination names the source.
      unfoldable pub handle_tunnel_add : TunnelOptions → H → Outcome (Unit {0}) × H
      handle_tunnel_add o h =
          let src = parse_ip o.src in
          let dst = parse_ip o.dst in
          if is_empty o.name || is_empty o.src
          then (err empty_argument, h)
          else if eqb (length src) 0
          then (err (bad_address o.src), h)
          else if is_empty o.dst
          then (err empty_argument, h)
          else if eqb (length dst) 0
          then (err (bad_address o.src), h)
          else if not (known_type o.tunnel_type)
          then (err unsupported, h)
          else if is_empty o.halo_ifc
          then (err empty_argument, h)
          else add_with_net o src dst (parse_cidr o.halo_ifc) h

    -- `handleTunnelDelete`.
    unfoldable pub handle_tunnel_delete : TunnelOptions → H → Outcome (Unit {0}) × H
    handle_tunnel_delete o h =
        if is_empty o.name
        then (err empty_argument, h)
        else if not (known_type o.tunnel_type)
        then (err unsupported, h)
        else hal.delete_tunnel o.name vxlan h

-- The client of the management service, on a state `R`.
pub record MgmtClient (R : Type 0) : Type 0 where
  pub add_lan_interface : AddLanInterfaceArgs → R → Outcome (Unit {0}) × R
  pub add_wan_interface : AddWanInterfaceArgs → R → Outcome (Unit {0}) × R
  pub delete_interface : Str → R → Outcome (Unit {0}) × R

-- `handleInterfaceAddWan`, `handleInterfaceAddLan` and `handleInterfaceDelete`.
module _ {R : Type 0} (mgr : MgmtClient R) where
  unfoldable pub handle_interface_add_wan : AddWanInterfaceArgs → R → Outcome (Unit {0}) × R
  handle_interface_add_wan args r =
      if is_empty args.upper || is_empty args.lower || is_empty args.next_hop || is_empty args.twamp
      then (err empty_argument, r)
      else mgr.add_wan_interface args r

  unfoldable pub handle_interface_add_lan : AddLanInterfaceArgs → R → Outcome (Unit {0}) × R
  handle_interface_add_lan args r =
      if is_empty args.upper || is_empty args.lower
      then (err empty_argument, r)
      else mgr.add_lan_interface args r

  unfoldable pub handle_interface_delete : Str → R → Outcome (Unit {0}) × R
  handle_interface_delete upper r =
      if is_empty upper then (err empty_argument, r) else mgr.delete_interface upper r
