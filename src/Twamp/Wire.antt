-- ===== src/Twamp/Wire.antt =====
-- Where the fields of the client's messages stand (pkg/twamp/connection.go and test.go): what a
-- server reads at the offsets of RFC 5357.
use vmw_tsf.Prelude.{ℕ, ◌+◌, ◌%◌, ◌^◌, ◌≡◌, refl, arith, length, drop}
use vmw_tsf.Twamp.{Bytes, uint16, uint32, value, number, TwampTimestamp}
use vmw_tsf.Twamp.Control.{TwampSessionConfig, encode}
use vmw_tsf.Twamp.Probes.{test_message}

value-uint16 : (n : ℕ) → value 0 (uint16 n) ≡ n % 2 ^ 16
value-uint16 n = omega arith

value-uint32 : (n : ℕ) → value 0 (uint32 n) ≡ n % 2 ^ 32
value-uint32 n = omega arith

-- The request for a session has 112 bytes and the command number 5; at the offsets of the standard
-- stand the ports modulo 2 ^ 16, and the two addresses, the padding, the time stamp of the start,
-- the timeout and the type of service modulo 2 ^ 32.
pub encode_lem :
    (config : TwampSessionConfig) (local remote : ℕ) (start : TwampTimestamp)
    → let pdu = encode config local remote start in
      (length pdu ≡ 112)
      × (number 0 1 pdu ≡ 5)
      × (number 12 2 pdu ≡ config.sender_port % 2 ^ 16)
      × (number 14 2 pdu ≡ config.receiver_port % 2 ^ 16)
      × (number 16 4 pdu ≡ local % 2 ^ 32)
      × (number 32 4 pdu ≡ remote % 2 ^ 32)
      × (number 64 4 pdu ≡ config.padding % 2 ^ 32)
      × (number 68 4 pdu ≡ start.integer % 2 ^ 32)
      × (number 72 4 pdu ≡ start.fraction % 2 ^ 32)
      × (number 76 4 pdu ≡ config.timeout % 2 ^ 32)
      × (number 84 4 pdu ≡ config.tos % 2 ^ 32)
unfolding encode
encode_lem config local remote start = (
  refl,
  refl,
  value-uint16 config.sender_port,
  value-uint16 config.receiver_port,
  value-uint32 local,
  value-uint32 remote,
  value-uint32 config.padding,
  value-uint32 start.integer,
  value-uint32 start.fraction,
  value-uint32 config.timeout,
  value-uint32 config.tos,
)

-- A probe is 14 bytes longer than its padding and begins with the sequence number and the time
-- stamp, modulo 2 ^ 32; the padding stands at the end.
pub test_message_lem :
    (seq : ℕ) (now : TwampTimestamp) (padding : Bytes)
    → let pdu = test_message seq now padding in
      (length pdu ≡ 14 + length padding)
      × (number 0 4 pdu ≡ seq % 2 ^ 32)
      × (number 4 4 pdu ≡ now.integer % 2 ^ 32)
      × (number 8 4 pdu ≡ now.fraction % 2 ^ 32)
      × (drop 14 pdu ≡ padding)
unfolding test_message
test_message_lem seq now padding =
    (omega arith, value-uint32 seq, value-uint32 now.integer, value-uint32 now.fraction, refl)
