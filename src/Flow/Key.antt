-- ===== src/Flow/Key.antt =====
-- `FlowKey.AsKey` (pkg/hal/hal.go) names a flow of IPv4 addresses.
use vmw_tsf.Prelude.{ℕ, ◌≡◌, some, arith}
use vmw_tsf.Net.{Ip, to4}
use vmw_tsf.Net.Text.{decimal, ip_text}
use vmw_tsf.Net.Text.Injective.{
  Lacks, cut, decimal-AreDigits, Lacks-of_digits, decimal-injective, ip_text-injective,
  ip_text-Lacks,
}
use vmw_tsf.Flow.{FlowKey, as_key}

decimal-Lacks : (n : ℕ) → Lacks b':' (decimal n)
decimal-Lacks n = Lacks-of_digits b':' (decimal n) (omega arith) (decimal-AreDigits n)

-- Two flow keys whose addresses are IPv4 addresses, in 4 bytes or in 16, have the same text only if
-- they have the same protocol, the same 4-byte addresses and the same ports.
pub as_key-injective :
    (a b : FlowKey) {src src' dst dst' : Ip}
    → to4 a.src_addr ≡ some src
    → to4 b.src_addr ≡ some src'
    → to4 a.dst_addr ≡ some dst
    → to4 b.dst_addr ≡ some dst'
    → as_key a ≡ as_key b
    → (a.protocol ≡ b.protocol)
      × (src ≡ src')
      × (dst ≡ dst')
      × (a.src_port ≡ b.src_port)
      × (a.dst_port ≡ b.dst_port)
unfolding as_key
as_key-injective a b s s' d d' h =
    let (p, h₁) =
      cut b':' (decimal a.protocol) (decimal b.protocol) _ _ (decimal-Lacks a.protocol)
        (decimal-Lacks b.protocol) h in
    let (q, h₂) =
      cut b':' (ip_text a.src_addr) (ip_text b.src_addr) _ _
        (ip_text-Lacks b':' a.src_addr (omega arith) s)
        (ip_text-Lacks b':' b.src_addr (omega arith) s') h₁ in
    let (r, h₃) =
      cut b':' (ip_text a.dst_addr) (ip_text b.dst_addr) _ _
        (ip_text-Lacks b':' a.dst_addr (omega arith) d)
        (ip_text-Lacks b':' b.dst_addr (omega arith) d') h₂ in
    let (t, u) =
      cut b':' (decimal a.src_port) (decimal b.src_port) _ _ (decimal-Lacks a.src_port)
        (decimal-Lacks b.src_port) h₃ in
    (
      decimal-injective a.protocol b.protocol p,
      ip_text-injective a.src_addr b.src_addr s s' q,
      ip_text-injective a.dst_addr b.dst_addr d d' r,
      decimal-injective a.src_port b.src_port t,
      decimal-injective a.dst_port b.dst_port u,
    )
