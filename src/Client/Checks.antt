-- ===== src/Client/Checks.antt =====
-- The checks of the commands of cmd/client/main.go: nothing is asked of the HAL before they pass.
use vmw_tsf.Prelude.{
  ℕ, ◌≡◌, ◌≢◌, refl, ◌<◌, ◌^◌, Str, Bool, true, false, not, ◌||◌, List, [], ◌∷◌, Option, none, some,
  arith, str, str_eqb, str_eqb_iff, eqb, length, ◌⊎◌, inl, inr, if◌then◌else◌, Bool-cases,
  Option-cases,
}
use vmw_tsf.Net.{Ip}
use vmw_tsf.Net.Parse.{parse_uint, parse_uint-lt, split}
use vmw_tsf.Outcome.{
  Outcome, ok, err, crash, ◌>>=◌, Error, bad_address, empty_argument, unsupported,
}
use vmw_tsf.Flow.{FlowKey, tcp, udp}
use vmw_tsf.Tunnels.{vxlan}
use vmw_tsf.Client.Commands.{
  DnHal, SteerOptions, TunnelOptions, parse_endpoint, from_tokens, with_port, parse_proto,
  parse_flow, steer_flow, steer_parsed, handle_steer, handle_tunnel_add, add_with_net, is_empty,
  known_type,
}

-- A flow that a rule can be written for.
abbrev pub IsRuleFlow : FlowKey → Type 0
IsRuleFlow fk =
    ((fk.protocol ≡ tcp) ⊎ (fk.protocol ≡ udp)) × (fk.src_port < 2 ^ 16) × (fk.dst_port < 2 ^ 16)

module _ (parse_ip : Str → Ip) where
  abbrev HasPort : Outcome (Ip × ℕ) → Type 0
  HasPort (ok (addr, port)) = port < 2 ^ 16
  HasPort (err e) = true ≡ false
  HasPort crash = Unit

  with_port-HasPort : (addr text : Str) → HasPort (with_port parse_ip addr (parse_uint 16 text))
  with_port-HasPort addr text = elim (Option-cases (parse_uint 16 text)) [
    | inl e ↦ rw e tt
    | inr (n, e) ↦ rw e (parse_uint-lt 16 text n e)
  ]

  from_tokens-HasPort : (tokens : List Str) → HasPort (from_tokens parse_ip tokens)
  from_tokens-HasPort [] = tt
  from_tokens-HasPort (addr ∷ []) = tt
  from_tokens-HasPort (addr ∷ port ∷ []) = with_port-HasPort addr port
  from_tokens-HasPort (addr ∷ port ∷ other ∷ more) = tt

  abbrev IsProto : Outcome ℕ → Type 0
  IsProto (ok p) = (p ≡ tcp) ⊎ (p ≡ udp)
  IsProto (err e) = true ≡ false
  IsProto crash = Unit

  parse_proto-IsProto : (s : Str) → IsProto (parse_proto parse_ip s)
  unfolding parse_proto
  parse_proto-IsProto s = elim (Bool-cases (str_eqb s (str "tcp"))) [
    | inl e ↦ rw (e, parse_proto) (inl refl)
    | inr e ↦ elim (Bool-cases (str_eqb s (str "udp"))) [
      | inl q ↦ rw (e, q, parse_proto) (inr refl)
      | inr q ↦ rw (e, q, parse_proto) tt
    ]
  ]

  abbrev IsFlow : Outcome FlowKey → Type 0
  IsFlow (ok fk) = IsRuleFlow fk
  IsFlow (err e) = true ≡ false
  IsFlow crash = Unit

  put_together : Outcome (Ip × ℕ) → Outcome (Ip × ℕ) → Outcome ℕ → Outcome FlowKey
  put_together from to proto = do
    (src_addr, src_port) ← from
    (dst_addr, dst_port) ← to
    protocol ← proto
    ok (record {
      protocol = protocol;
      src_addr = src_addr;
      dst_addr = dst_addr;
      src_port = src_port;
      dst_port = dst_port;
    })

  put_together-IsFlow :
      (from to : Outcome (Ip × ℕ)) (proto : Outcome ℕ)
      → HasPort from
      → HasPort to
      → IsProto proto
      → IsFlow (put_together from to proto)
  unfolding put_together
  put_together-IsFlow (ok (src, sp)) (ok (dst, dp)) (ok p) a b c = (c, a, b)
  put_together-IsFlow (ok s) (ok d) (err e) a b c = c
  put_together-IsFlow (ok s) (ok d) crash a b c = tt
  put_together-IsFlow (ok s) (err e) proto a b c = b
  put_together-IsFlow (ok s) crash proto a b c = tt
  put_together-IsFlow (err e) to proto a b c = a
  put_together-IsFlow crash to proto a b c = tt

  parse_flow-IsFlow : (o : SteerOptions) → IsFlow (parse_flow parse_ip o)
  unfolding parse_flow parse_endpoint put_together
  parse_flow-IsFlow o =
      put_together-IsFlow (parse_endpoint parse_ip o.from) (parse_endpoint parse_ip o.to)
        (parse_proto parse_ip o.proto) (from_tokens-HasPort (split b':' o.from))
        (from_tokens-HasPort (split b':' o.to)) (parse_proto-IsProto o.proto)

module _ {H N : Type 0} (hal : DnHal H N) (parse_ip : Str → Ip) where
  -- The command ended before it reached the HAL, or it asked for one flow.
  abbrev pub SteersOnly : SteerOptions → H → Outcome (Unit {0}) × H → Type 0
  SteersOnly o h done =
      ((o.from ≡ []) × (done ≡ (ok tt, h)))
      ⊎ (done ≡ (crash, h))
      ⊎ ((fk : FlowKey) × IsRuleFlow fk × (done ≡ steer_flow hal fk o.next_hop h))

  steer_parsed-SteersOnly :
      (o : SteerOptions) (h : H) (parsed : Outcome FlowKey)
      → IsFlow parse_ip parsed
      → SteersOnly o h (steer_parsed hal parsed o.next_hop h)
  steer_parsed-SteersOnly o h (ok fk) f = inr (inr (fk, f, refl))
  steer_parsed-SteersOnly o h (err e) f = absurd (ground (arith, f))
  steer_parsed-SteersOnly o h crash f = inr (inl refl)

  -- The steering command does nothing without a source; else it ends the process before it has
  -- asked anything of the HAL, or it asks to steer, or to stop steering, one flow, which is TCP or
  -- UDP and has ports of 16 bits.
  pub handle_steer-SteersOnly :
      (o : SteerOptions) (h : H) → SteersOnly o h (handle_steer hal parse_ip o h)
  unfolding handle_steer
  handle_steer-SteersOnly o h = elim (Bool-cases (is_empty o.from)) [
    | inl e ↦ rw (e, handle_steer) (inl ((str_eqb_iff o.from []).0 e, refl))
    | inr e ↦ elim (Bool-cases (is_empty o.to)) [
      | inl q ↦ rw (e, q, handle_steer) (inr (inl refl))
      | inr q ↦
          rw (e, q, handle_steer)
            (steer_parsed-SteersOnly o h (parse_flow parse_ip o) (parse_flow-IsFlow parse_ip o))
    ]
  ]

  module _ (parse_cidr : Str → Option (Ip × N)) where
    -- The command was refused, or it asked for one VXLAN tunnel.
    abbrev pub AddsOnly : TunnelOptions → H → Outcome (Unit {0}) × H → Type 0
    AddsOnly o h done =
        ((e : Error) × (done ≡ (err e, h)))
        ⊎ ((halo_addr : Ip) × (halo_net : N) × (o.name ≢ [])
            × (parse_ip o.src ≢ [])
            × (parse_ip o.dst ≢ [])
            × (parse_cidr o.halo_ifc ≡ some (halo_addr, halo_net))
            × (done
                ≡ hal.add_tunnel o.name (parse_ip o.src) (parse_ip o.dst) vxlan halo_addr halo_net
                    h))

    guarded :
        (o : TunnelOptions) (h : H) (b : Bool) (e : Error) (rest : Outcome (Unit {0}) × H)
        → (b ≡ false → AddsOnly o h rest)
        → AddsOnly o h (if b then (err e, h) else rest)
    guarded o h true e rest k = inl (e, refl)
    guarded o h false e rest k = k refl

    not_nil : (ip : Ip) → eqb (length ip) 0 ≡ false → ip ≢ []
    not_nil [] e = λ p. cc
    not_nil (b ∷ ip) e = λ p. cc

    left_false : (o : TunnelOptions) → (is_empty o.name || is_empty o.src) ≡ false → o.name ≢ []
    left_false o e p = ground (arith, str_eqb_iff o.name [])

    add_with_net-AddsOnly :
        (o : TunnelOptions) (h : H) (net : Option (Ip × N))
        → parse_cidr o.halo_ifc ≡ net
        → o.name ≢ []
        → parse_ip o.src ≢ []
        → parse_ip o.dst ≢ []
        → AddsOnly o h
            (add_with_net hal parse_ip parse_cidr o (parse_ip o.src) (parse_ip o.dst) net h)
    add_with_net-AddsOnly o h none e name src dst = inl (bad_address o.halo_ifc, refl)
    add_with_net-AddsOnly o h (some (addr, net)) e name src dst =
        inr (addr, net, name, src, dst, e, refl)

    -- The command that adds a tunnel either returns an error before it has asked anything of the
    -- HAL, or its name is not empty, its addresses and its network parse, and it asks for one
    -- tunnel of these, whose type is VXLAN, also where the command line says "rsvp".
    pub handle_tunnel_add-AddsOnly :
        (o : TunnelOptions) (h : H) → AddsOnly o h (handle_tunnel_add hal parse_ip parse_cidr o h)
    unfolding handle_tunnel_add
    handle_tunnel_add-AddsOnly o h =
        guarded o h (is_empty o.name || is_empty o.src) empty_argument _ λ given.
          guarded o h (eqb (length (parse_ip o.src)) 0) (bad_address o.src) _ λ src.
            guarded o h (is_empty o.dst) empty_argument _ λ _.
              guarded o h (eqb (length (parse_ip o.dst)) 0) (bad_address o.src) _ λ dst.
                guarded o h (not (known_type hal parse_ip o.tunnel_type)) unsupported _ λ _.
                  guarded o h (is_empty o.halo_ifc) empty_argument _ λ _.
                    add_with_net-AddsOnly o h (parse_cidr o.halo_ifc) refl (left_false o given)
                      (not_nil (parse_ip o.src) src) (not_nil (parse_ip o.dst) dst)
