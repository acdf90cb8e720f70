-- ===== src/Flow/Rate.antt =====
-- The rates of `FlowAggregate.ToTelemetry` (pkg/hal/hal.go).
use vmw_tsf.Prelude.{ℕ, ◌+◌, ◌*◌, ◌/◌, ◌^◌, ◌≤◌, ◌<◌, ◌≡◌, refl, ap, arith, ltb, if◌then◌else◌}
use native.Mathlib.Nat.{div-add-mod, mod-lt}
use vmw_tsf.Prelude.Int.{pos}
use vmw_tsf.Flow.{FlowAggregate, rate, milliseconds, to_telemetry, u64}

-- Where nothing wraps, the rate is the quotient of 1000 * total + 999.
rate-exact :
    (total millis : ℕ)
    → total * 1000 + 1000 < 2 ^ 64
    → rate total millis ≡ (total * 1000 + 999) / millis
unfolding rate
rate-exact total millis h = ap (λ (n : ℕ). n / millis) (omega arith)

-- `r` is the rate, in units a second, of `total` units in `millis` ms, rounded by adding 999.
abbrev pub IsRate : ℕ → ℕ → ℕ → Type 0
IsRate r total millis = (r * millis ≤ total * 1000 + 999) × (total * 1000 + 999 < (r + 1) * millis)

quotient_within : (n d : ℕ) → 0 < d → (n / d * d ≤ n) × (n < (n / d + 1) * d)
quotient_within n d h = (grind arith, grind (arith, mod-lt n h, div-add-mod n d))

rate-IsRate :
    (total millis : ℕ)
    → 0 < millis
    → total * 1000 + 1000 < 2 ^ 64
    → IsRate (rate total millis) total millis
rate-IsRate total millis p h =
    rw (rate-exact total millis h) (quotient_within (total * 1000 + 999) millis p)

millis_pos : (ns : ℕ) → 1_000_000 ≤ ns → 0 < ns / 1_000_000
millis_pos ns h = omega arith

millis_of :
    (ns : ℕ)
    → 1_000_000 ≤ ns
    → ns < 2 ^ 63
    → (if ltb (u64 (ns / 1_000_000)) 1 then 1 else u64 (ns / 1_000_000)) ≡ ns / 1_000_000
millis_of ns h k = ground arith

-- Over an interval of at least a millisecond that an int64 can hold, and for counters whose
-- thousandfold still fits 64 bits, both rates of the telemetry are the thousandfold counter plus
-- 999, divided by the whole milliseconds of the interval and rounded down; the totals and the
-- interfaces are the aggregate's own, and nothing is reported for the transmit side.
pub to_telemetry_lem :
    (agg : FlowAggregate) (ns : ℕ)
    → 1_000_000 ≤ ns
    → ns < 2 ^ 63
    → agg.packets * 1000 + 1000 < 2 ^ 64
    → agg.bytes * 1000 + 1000 < 2 ^ 64
    → let t = to_telemetry agg (pos ns) in
      IsRate t.rx_rate_pps agg.packets (ns / 1_000_000)
      × IsRate t.rx_rate_bps agg.bytes (ns / 1_000_000)
      × (t.rx_total_pkts ≡ agg.packets)
      × (t.rx_total_bytes ≡ agg.bytes)
      × (t.ingress_if ≡ agg.in_if)
      × (t.egress_if ≡ agg.out_if)
      × (t.tx_rate_pps + t.tx_rate_bps + t.tx_total_pkts + t.tx_total_bytes ≡ 0)
unfolding to_telemetry milliseconds
to_telemetry_lem agg ns long fits pkts octets =
    let e = millis_of ns long fits in
    let pos_ms = millis_pos ns long in
    rw e (
      rate-IsRate agg.packets (ns / 1_000_000) pos_ms pkts,
      rate-IsRate agg.bytes (ns / 1_000_000) pos_ms octets,
      refl,
      refl,
      refl,
      refl,
      refl,
    )
