-- ===== src/Twamp.antt =====
-- The TWAMP client of pkg/twamp, which measures the delay of a link: bytes on the wire here, the
-- control connection in Control, the probes and their statistics in Probes. Sockets, clock and
-- random numbers are a parameter, the environment. An `int` of a configuration is a natural number.
pub mod Control
pub mod Probes
pub mod Wire
pub mod Handshake
pub mod Rounds
pub mod Statistics
pub mod Ping
pub mod Sessions
pub mod Tests
use vmw_tsf.Prelude.{
  ℕ, ◌+◌, ◌*◌, ◌/◌, ◌%◌, ◌^◌, Str, ◌≡◌, refl, Bool, List, [], ◌∷◌, ◌++◌, Option, none, some, length,
  take, drop, replicate, str,
}
use vmw_tsf.Prelude.Int.{ℤ, pos, negsuc}
use vmw_tsf.Outcome.{Outcome, ok, err, crash, request_failed}

abbrev pub Bytes : Type 0
Bytes = List ℕ

-- `binary.BigEndian.PutUint16` and `PutUint32` of a number converted to that width.
abbrev pub uint16 : ℕ → Bytes
uint16 n = n / 2 ^ 8 % 2 ^ 8 ∷ n % 2 ^ 8 ∷ []

abbrev pub uint32 : ℕ → Bytes
uint32 n = n / 2 ^ 24 % 2 ^ 8 ∷ n / 2 ^ 16 % 2 ^ 8 ∷ n / 2 ^ 8 % 2 ^ 8 ∷ n % 2 ^ 8 ∷ []

-- `binary.BigEndian.Uint16` and `Uint32`, as the value of the bytes.
abbrev pub value : ℕ → Bytes → ℕ
value acc [] = acc
value acc (b ∷ bs) = value (acc * 2 ^ 8 + b) bs

-- The `n` bytes at an offset.
abbrev pub field : ℕ → ℕ → Bytes → Bytes
field offset n buf = take n (drop offset buf)

abbrev pub number : ℕ → ℕ → Bytes → ℕ
number offset n buf = value 0 (field offset n buf)

-- A write into a slice at an offset.
abbrev pub put : ℕ → Bytes → Bytes → Bytes
put offset bs buf = take offset buf ++ (bs ++ drop (offset + length bs) buf)

-- What the client uses of the host: its two sockets behind one state, the clock, random bytes.
-- A read yields the bytes read and the text of its error, if there is one.
pub record Host (C T : Type 0) : Type 0 where
  pub write : Bytes → C → C
  pub read : ℕ → C → (Bytes × Option Str) × C
  pub now : C → T × C
  pub random : ℕ → C → Bytes × C

-- What is used of Go's `time.Time`.
pub record Clock (T : Type 0) : Type 0 where
  pub unix_time : ℕ → ℕ → T
  pub add_years : ℤ → T → T
  pub unix : T → ℕ
  pub nanosecond : T → ℕ
  pub sub : T → T → ℤ

abbrev pub received : ℕ → Bytes × Option Str → Outcome Bytes
received size (bs, none) = ok (take size (bs ++ replicate size 0))
received size (bs, some e) = err (request_failed e)

pub record TwampTimestamp : Type 0 where
  pub integer : ℕ
  pub fraction : ℕ

module _ {C T : Type 0} (host : Host C T) where
  -- `readFromSocket`: bytes that a short read leaves are zero; any error is an error.
  unfoldable pub read_from_socket : ℕ → C → Outcome Bytes × C
  read_from_socket size c = let (got, c') = host.read size c in (received size got, c')

module _ {T : Type 0} (clock : Clock T) where
  -- `NewTwampTimestamp`.
  unfoldable pub new_twamp_timestamp : T → TwampTimestamp
  new_twamp_timestamp t =
      let later = clock.add_years (pos 70) t in
      record { integer = clock.unix later % 2 ^ 32; fraction = clock.nanosecond later % 2 ^ 32 }

  -- `NewTimestamp`.
  unfoldable pub new_timestamp : ℕ → ℕ → T
  new_timestamp sec nsec = clock.add_years (negsuc 69) (clock.unix_time sec nsec)
