-- ===== src/Client/Requests.antt =====
-- What the commands of cmd/client/main.go ask the HAL for.
use vmw_tsf.Prelude.{ℕ, ◌≡◌, refl, ◌<◌, ◌^◌, Str, false, [], ◌∷◌, ◌++◌, Option, some, arith, str}
use vmw_tsf.Net.{Ip, to4}
use vmw_tsf.Net.Text.{ip_text, decimal}
use vmw_tsf.Net.Text.Injective.{Lacks, ip_text-Lacks, Lacks-of_digits, decimal-AreDigits}
use vmw_tsf.Net.Parse.RoundTrip.{parse_uint-decimal, split-Lacks, split-append}
use vmw_tsf.Outcome.{ok}
use vmw_tsf.Flow.{FlowKey, tcp, udp}
use vmw_tsf.Client.Output.{endpoint}
use vmw_tsf.Client.Commands.{
  DnHal, SteerOptions, TunnelOptions, parse_endpoint, parse_proto, parse_flow, steer_flow,
  handle_steer, handle_tunnel_add, handle_tunnel_delete, is_empty,
}

pub data IsSteerable : ℕ → Type 0 where
  is_tcp : IsSteerable tcp
  is_udp : IsSteerable udp

-- The name of a protocol on the command line, and the options that describe a flow.
abbrev pub proto_name : {p : ℕ} → IsSteerable p → Str
proto_name is_tcp = str "tcp"
proto_name is_udp = str "udp"

abbrev pub steer_options : (fk : FlowKey) → IsSteerable fk.protocol → Str → SteerOptions
steer_options fk s next_hop = record {
  from = endpoint fk.src_addr fk.src_port;
  to = endpoint fk.dst_addr fk.dst_port;
  proto = proto_name s;
  next_hop = next_hop;
}

module _ (parse_ip : Str → Ip) where
  parse_endpoint-endpoint :
      (addr : Ip) (port : ℕ)
      → parse_ip (ip_text addr) ≡ addr
      → Lacks b':' (ip_text addr)
      → port < 2 ^ 16
      → parse_endpoint parse_ip (endpoint addr port) ≡ ok (addr, port)
  unfolding parse_endpoint endpoint
  parse_endpoint-endpoint addr port back lacks fits =
      rw
        (
          split-append b':' (ip_text addr) (decimal port) lacks,
          split-Lacks b':' (decimal port)
              (Lacks-of_digits b':' (decimal port) (omega arith) (decimal-AreDigits port)),
          parse_uint-decimal 16 port fits,
          back,
        )
        refl

  parse_proto-name : {p : ℕ} (s : IsSteerable p) → parse_proto parse_ip (proto_name s) ≡ ok p
  unfolding parse_proto
  parse_proto-name is_tcp = refl
  parse_proto-name is_udp = refl

endpoint_not_empty : (addr : Ip) (port : ℕ) → is_empty (endpoint addr port) ≡ false
unfolding endpoint
endpoint_not_empty addr port = no_text (ip_text addr)
  where
    no_text : (s : Str) → is_empty (s ++ b':' ∷ decimal port) ≡ false
    no_text [] = refl
    no_text (c ∷ s) = refl

module _ {H N : Type 0} (hal : DnHal H N) (parse_ip : Str → Ip) where
  -- A TCP or UDP flow between two IPv4 addresses, in 4 bytes or in 16, which `net.ParseIP` reads
  -- back from their texts, and with ports of 16 bits: given as the texts of its ends and the name
  -- of its protocol, the command steers exactly this flow to the next hop, or stops steering it
  -- when the next hop is empty.
  pub handle_steer-endpoint :
      (fk : FlowKey) (next_hop : Str) (h : H) {src dst : Ip}
      → to4 fk.src_addr ≡ some src
      → to4 fk.dst_addr ≡ some dst
      → parse_ip (ip_text fk.src_addr) ≡ fk.src_addr
      → parse_ip (ip_text fk.dst_addr) ≡ fk.dst_addr
      → fk.src_port < 2 ^ 16
      → fk.dst_port < 2 ^ 16
      → (s : IsSteerable fk.protocol)
      → handle_steer hal parse_ip (steer_options fk s next_hop) h ≡ steer_flow hal fk next_hop h
  unfolding handle_steer parse_flow
  handle_steer-endpoint fk next_hop h v4_src v4_dst src dst fits_src fits_dst s =
      rw
        (
          endpoint_not_empty fk.src_addr fk.src_port,
          endpoint_not_empty fk.dst_addr fk.dst_port,
          parse_endpoint-endpoint parse_ip fk.src_addr fk.src_port src
              (ip_text-Lacks b':' fk.src_addr (omega arith) v4_src) fits_src,
          parse_endpoint-endpoint parse_ip fk.dst_addr fk.dst_port dst
              (ip_text-Lacks b':' fk.dst_addr (omega arith) v4_dst) fits_dst,
          parse_proto-name parse_ip s,
        )
        refl

  -- The tunnel's type is checked and then forgotten: both commands make the same calls for "rsvp"
  -- as for "vxlan".
  pub tunnel_type_is_ignored :
      (o : TunnelOptions) (parse_cidr : Str → Option (Ip × N)) (h : H)
      → (handle_tunnel_add hal parse_ip parse_cidr (record o { tunnel_type = str "rsvp" }) h
          ≡ handle_tunnel_add hal parse_ip parse_cidr (record o { tunnel_type = str "vxlan" }) h)
        × (handle_tunnel_delete hal parse_ip (record o { tunnel_type = str "rsvp" }) h
            ≡ handle_tunnel_delete hal parse_ip (record o { tunnel_type = str "vxlan" }) h)
  unfolding handle_tunnel_add handle_tunnel_delete
  tunnel_type_is_ignored o parse_cidr h = (refl, refl)
