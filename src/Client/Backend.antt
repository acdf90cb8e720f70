-- ===== src/Client/Backend.antt =====
-- The interface `DnHal` of the commands, filled by the models of pkg/hal/hal.go, and one command
-- from its arguments to the rule on the device.
use vmw_tsf.Prelude.{
  if_false, ◌≡◌, ◌≢◌, refl, ap, sym, ◌∙◌, ◌<◌, ◌^◌, Str, Bool, List, [], ◌∷◌, Option, some, arith,
  str_eqb_iff, Bool-cases, inl, inr, nat_eq, subst,
}
use vmw_tsf.Net.{Ip, to4}
use vmw_tsf.Net.Text.{ip_text}
use vmw_tsf.Outcome.{Outcome, ok, err, crash}
use vmw_tsf.Flow.{FlowKey}
use vmw_tsf.Registry.{Registry}
use vmw_tsf.Netconf.{Device}
use vmw_tsf.Steering.{SteerItem, Acl, steer, remove_steer}
use vmw_tsf.Steering.Ids.{IsFresh}
use vmw_tsf.Client.Steered.{HasSteered, steer-HasSteered}
use vmw_tsf.Loading.{get_steer_interface}
use vmw_tsf.Tunnels.{TunnelType}
use vmw_tsf.Client.Commands.{DnHal, verify, verified, steer_flow, handle_steer, is_empty}
use vmw_tsf.Client.Requests.{IsSteerable, steer_options, handle_steer-endpoint}

-- The calls for tunnels, which have their own requests.
pub record TunnelCalls (D N : Type 0) : Type 0 where
  pub add_tunnel : Str → Ip → Ip → TunnelType → Ip → N → D → Outcome (Unit {0}) × D
  pub delete_tunnel : Str → TunnelType → D → Outcome (Unit {0}) × D

module _ {S D N : Type 0} (tunnels : TunnelCalls D N) (parse_cidr : Str → Option Ip)
    (exec : Device D) (r : Registry S) where
  -- The state is the rule cache and the device.
  abbrev pub router_hal : DnHal (Acl × D) N
  router_hal = record {
    steer = λ items h. let (answer, acl, d) = steer exec r items h.0 h.1 in (answer, (acl, d));
    remove_steer =
        λ fks h. let (answer, acl, d) = remove_steer exec fks h.0 h.1 in (answer, (acl, d));
    get_steer_interface = λ items h.
        let (answer, d) = get_steer_interface parse_cidr exec r items h.1 in (answer, (h.0, d));
    add_tunnel = λ name source destination t addr net h.
        let (answer, d) = tunnels.add_tunnel name source destination t addr net h.1 in
        (answer, (h.0, d));
    delete_tunnel =
        λ name t h. let (answer, d) = tunnels.delete_tunnel name t h.1 in (answer, (h.0, d));
  }

module _ {H N : Type 0} (hal : DnHal H N) where
  verified_ok :
      (steered : Outcome (Unit {0})) (found : Outcome (Bool × List Str) × H)
      → (verified hal steered found).0 ≡ ok tt
      → (steered ≡ ok tt) × ((verified hal steered found).1 ≡ found.1)
  verified_ok (ok _) (ok a, h) e = (refl, refl)
  verified_ok (ok _) (err x, h) e = (refl, refl)
  verified_ok (err y) (ok a, h) e = cc
  verified_ok (err y) (err x, h) e = cc
  verified_ok crash (ok a, h) e = cc
  verified_ok crash (err x, h) e = cc
  verified_ok steered (crash, h) e = cc

  -- The command returns normally only if `Steer` has succeeded.
  verify_ok :
      (item : SteerItem) (s : Outcome (Unit {0}) × H)
      → (verify hal item s).0 ≡ ok tt
      → (s.0 ≡ ok tt) × ((verify hal item s).1 ≡ (hal.get_steer_interface (item ∷ []) s.1).1)
  verify_ok item (ok _, h) e =
      (refl, (verified_ok (ok tt) (hal.get_steer_interface (item ∷ []) h) e).1)
  verify_ok item (err x, h) e =
      absurd (ground (arith, (verified_ok (err x) (hal.get_steer_interface (item ∷ []) h) e).0))
  verify_ok item (crash, h) e = cc

  steer_flow_given :
      (item : SteerItem) (h : H)
      → item.next_hop ≢ []
      → steer_flow hal item.rule item.next_hop h ≡ verify hal item (hal.steer (item ∷ []) h)
  unfolding steer_flow
  steer_flow_given item h given = elim (Bool-cases (is_empty item.next_hop)) [
    | inl e ↦ absurd (given ((str_eqb_iff item.next_hop []).0 e))
    | inr e ↦ if_false (is_empty item.next_hop) _ _ e
  ]

module _ {S D N : Type 0} (tunnels : TunnelCalls D N) (parse_cidr : Str → Option Ip)
    (exec : Device D) (r : Registry S) where
  steer_flow-HasSteered :
      (item : SteerItem) (acl : Acl) (d : D)
      → IsFresh acl
      → item.next_hop ≢ []
      → (steer_flow (router_hal tunnels parse_cidr exec r) item.rule item.next_hop (acl, d)).0
        ≡ ok tt
      → HasSteered exec r item acl d
          (steer_flow (router_hal tunnels parse_cidr exec r) item.rule item.next_hop (acl, d)).1
  unfolding steer_flow get_steer_interface
  steer_flow-HasSteered item acl d f given e =
      let hal = router_hal tunnels parse_cidr exec r in
      let way = steer_flow_given hal item (acl, d) given in
      let (steered, left) =
        verify_ok hal item (hal.steer (item ∷ []) (acl, d)) (ap (λ x. x.0) (sym way) ∙ e) in
      subst (HasSteered exec r item acl d) (sym (ap (λ x. x.1) way ∙ left))
        (steer-HasSteered exec r item acl d f given steered)

  -- The steering command, end to end, for a TCP or UDP flow between two IPv4 addresses that
  -- `net.ParseIP` reads back from their texts, with ports of 16 bits, a next hop that is not empty,
  -- and a fresh rule cache. When it returns normally, one edit with one rule, then a commit,
  -- were carried out on the device, which was then asked for its rules, and this is the state the
  -- device is left in. The rule has the flow's hosts, ports and protocol, and the address of the
  -- interface registered under the next hop; the cache holds the flow under the rule's id, keeps
  -- its rules, and is fresh again.
  pub handle_steer-HasSteered :
      (parse_ip : Str → Ip) (fk : FlowKey) (next_hop : Str) (acl : Acl) (d : D) {src dst : Ip}
      → to4 fk.src_addr ≡ some src
      → to4 fk.dst_addr ≡ some dst
      → parse_ip (ip_text fk.src_addr) ≡ fk.src_addr
      → parse_ip (ip_text fk.dst_addr) ≡ fk.dst_addr
      → fk.src_port < 2 ^ 16
      → fk.dst_port < 2 ^ 16
      → (s : IsSteerable fk.protocol) → next_hop ≢ []
      → IsFresh acl
      → (handle_steer
          (router_hal tunnels parse_cidr exec r)
          parse_ip
          (steer_options fk s next_hop)
          (acl, d)).0
        ≡ ok tt
      → HasSteered exec r
          (record { rule = fk; next_hop = next_hop })
          acl
          d
          (handle_steer
            (router_hal tunnels parse_cidr exec r)
            parse_ip
            (steer_options fk s next_hop)
            (acl, d)).1
  handle_steer-HasSteered parse_ip fk next_hop acl d v4_src v4_dst src dst fits_src fits_dst s given
        f e =
      let hal = router_hal tunnels parse_cidr exec r in
      let item : SteerItem = record { rule = fk; next_hop = next_hop } in
      let asked =
        handle_steer-endpoint hal parse_ip fk next_hop (acl, d) v4_src v4_dst src dst fits_src
          fits_dst s in
      subst (λ x. HasSteered exec r item acl d x.1) (sym asked)
        (steer_flow-HasSteered item acl d f given (ap (λ x. x.0) (sym asked) ∙ e))
