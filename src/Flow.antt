-- ===== src/Flow.antt =====
-- Flows: `FlowKey`, `FlowProto` and the telemetry of a flow, of pkg/hal/api.go, pkg/hal/fmt.go and
-- pkg/hal/hal.go. A `uint64` is a number below 2 ^ 64 with its wrap-around written out; a
-- `time.Duration` is an integer of nanoseconds.
pub mod Key
pub mod Rate
pub mod Debugger
use vmw_tsf.Prelude.{
  ℕ, ◌+◌, ◌-◌, ◌*◌, ◌/◌, ◌%◌, ◌^◌, ◌<◌, Str, ◌≡◌, refl, Bool, List, [], ◌∷◌, ◌++◌, str, ltb, eqb,
  if◌then◌else◌,
}
use vmw_tsf.Prelude.Int.{ℤ, pos, negsuc}
use vmw_tsf.Net.{Ip}
use vmw_tsf.Net.Text.{decimal, ip_text}

abbrev pub u64 : ℕ → ℕ
u64 n = n % 2 ^ 64

abbrev pub tcp : ℕ
tcp = 0x06

abbrev pub udp : ℕ
udp = 0x11

pub record FlowKey : Type 0 where
  pub protocol : ℕ
  pub src_addr : Ip
  pub dst_addr : Ip
  pub src_port : ℕ
  pub dst_port : ℕ

-- `FlowKey.AsKey`: "%d:%s:%s:%d:%d".
unfoldable pub as_key : FlowKey → Str
as_key fk =
    decimal fk.protocol
    ++ b':'
      ∷ (ip_text fk.src_addr
          ++ b':'
            ∷ (ip_text fk.dst_addr ++ b':' ∷ (decimal fk.src_port ++ b':' ∷ decimal fk.dst_port)))

-- `FlowProto.String`.
unfoldable pub proto_text : ℕ → Str
proto_text p =
    if eqb p tcp then str "tcp(0x06)" else if eqb p udp then str "udp(0x11)" else decimal p

-- `FlowKey.String`.
unfoldable pub key_text : FlowKey → Str
unfolding proto_text
key_text fk =
    ip_text fk.src_addr
    ++ b':'
      ∷ (decimal fk.src_port
          ++ (str " -> "
              ++ (ip_text fk.dst_addr
                  ++ b':'
                    ∷ (decimal fk.dst_port ++ (str " (" ++ (proto_text fk.protocol ++ str ")"))))))

pub record FlowTelemetry : Type 0 where
  pub rx_rate_pps : ℕ
  pub tx_rate_pps : ℕ
  pub rx_rate_bps : ℕ
  pub tx_rate_bps : ℕ
  pub rx_total_pkts : ℕ
  pub tx_total_pkts : ℕ
  pub rx_total_bytes : ℕ
  pub tx_total_bytes : ℕ
  pub ingress_if : Str
  pub egress_if : Str

pub record FlowAggregate : Type 0 where
  pub key : FlowKey
  pub in_if : Str
  pub out_if : Str
  pub packets : ℕ
  pub bytes : ℕ

-- `uint64(interval.Milliseconds())`: the quotient is rounded towards zero, and a negative one
-- wraps.
unfoldable pub milliseconds : ℤ → ℕ
milliseconds (pos ns) = u64 (ns / 1_000_000)
milliseconds (negsuc n) = u64 (2 ^ 64 - (n + 1) / 1_000_000)

-- `(((total + 1) * 1000) - 1) / millis` in uint64.
unfoldable pub rate : ℕ → ℕ → ℕ
rate total millis = u64 (u64 (u64 (total + 1) * 1000) + (2 ^ 64 - 1)) / millis

-- `FlowAggregate.ToTelemetry`.
unfoldable pub to_telemetry : FlowAggregate → ℤ → FlowTelemetry
unfolding milliseconds rate
to_telemetry agg interval =
    let raw = milliseconds interval in
    let millis = if ltb raw 1 then 1 else raw in
    record {
      rx_rate_pps = rate agg.packets millis;
      tx_rate_pps = 0;
      rx_rate_bps = rate agg.bytes millis;
      tx_rate_bps = 0;
      rx_total_pkts = agg.packets;
      tx_total_pkts = 0;
      rx_total_bytes = agg.bytes;
      tx_total_bytes = 0;
      ingress_if = agg.in_if;
      egress_if = agg.out_if;
    }
