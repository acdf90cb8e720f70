-- ===== src/Loading/RoundTrip.antt =====
-- What `InitNetConf` (pkg/hal/hal.go) reads back from a rule that `Steer` wrote.
use vmw_tsf.Prelude.{ℕ, Str, ◌≡◌, ◌++◌, Option, some, str, ◌⊎◌, inl, inr}
use vmw_tsf.Net.{Ip, to4}
use vmw_tsf.Net.Text.{ip_text}
use vmw_tsf.Net.Text.Injective.{to4_nonempty}
use vmw_tsf.Outcome.{ok}
use vmw_tsf.Flow.{FlowKey, as_key, proto_text, tcp, udp}
use vmw_tsf.Steering.{steer_rule}
use vmw_tsf.Loading.{protocol_of, loaded_flow}

ip_text-to4 : (a b : Ip) {s : Ip} → to4 a ≡ some s → to4 b ≡ some s → ip_text a ≡ ip_text b
unfolding ip_text
ip_text-to4 a b h k = rw (to4_nonempty a _ h, to4_nonempty b _ k, h, k)

protocol_of-proto_text : (p : ℕ) → (p ≡ tcp) ⊎ (p ≡ udp) → protocol_of (proto_text p) ≡ p
unfolding protocol_of proto_text
protocol_of-proto_text p (inl e) = rw (e)
protocol_of-proto_text p (inr e) = rw (e)

abbrev with_addresses : FlowKey → Ip → Ip → FlowKey
with_addresses fk src dst = record fk { src_addr = src; dst_addr = dst }

module _ (parse_cidr : Str → Option Ip) where
  reads_back :
      (id : ℕ) (fk : FlowKey) (hop src dst : Ip)
      → protocol_of (proto_text fk.protocol) ≡ fk.protocol
      → parse_cidr (ip_text fk.src_addr ++ str "/32") ≡ some src
      → parse_cidr (ip_text fk.dst_addr ++ str "/32") ≡ some dst
      → loaded_flow parse_cidr (steer_rule id fk hop) ≡ ok (some (with_addresses fk src dst))
  unfolding loaded_flow steer_rule
  reads_back id fk hop src dst p s d = rw (s, d, p)

  same_key :
      (fk : FlowKey) (src dst : Ip) {s d : Ip}
      → to4 fk.src_addr ≡ some s
      → to4 fk.dst_addr ≡ some d
      → to4 src ≡ some s
      → to4 dst ≡ some d
      → as_key (with_addresses fk src dst) ≡ as_key fk
  unfolding as_key
  same_key fk src dst hs hd ks kd =
      rw (ip_text-to4 src fk.src_addr ks hs, ip_text-to4 dst fk.dst_addr kd hd)

  -- The rule that `Steer` writes for a TCP or UDP flow between two IPv4 addresses is read back by
  -- `InitNetConf` as a flow of the same key, when `net.ParseCIDR` reads the text of each address
  -- with "/32" as that address, in 4 bytes or in 16.
  pub loaded_flow-steer_rule :
      (id : ℕ) (fk : FlowKey) (hop src dst : Ip) {s d : Ip}
      → (fk.protocol ≡ tcp) ⊎ (fk.protocol ≡ udp)
      → to4 fk.src_addr ≡ some s
      → to4 fk.dst_addr ≡ some d
      → parse_cidr (ip_text fk.src_addr ++ str "/32") ≡ some src
      → parse_cidr (ip_text fk.dst_addr ++ str "/32") ≡ some dst
      → to4 src ≡ some s
      → to4 dst ≡ some d
      → (fk' : FlowKey) × (loaded_flow parse_cidr (steer_rule id fk hop) ≡ ok (some fk'))
        × (as_key fk' ≡ as_key fk)
  loaded_flow-steer_rule id fk hop src dst known hs hd ps pd ks kd = (
    with_addresses fk src dst,
    reads_back id fk hop src dst (protocol_of-proto_text fk.protocol known) ps pd,
    same_key fk src dst hs hd ks kd,
  )
