-- ===== src/Twamp/Control.antt =====
-- The control connection: pkg/twamp/client.go, connection.go and session.go.
use vmw_tsf.Prelude.{ℕ, [], ◌∷◌, ◌++◌, eqb, leb, replicate, if◌then◌else◌}
use vmw_tsf.Outcome.{proceed, Outcome, ok, err, refused, unsupported}
use vmw_tsf.Twamp.{
  Bytes, uint16, uint32, field, number, put, Host, read_from_socket, TwampTimestamp,
}

pub record TwampServerGreeting : Type 0 where
  pub mode : ℕ
  pub challenge : Bytes
  pub salt : Bytes
  pub count : ℕ

pub record TwampServerStart : Type 0 where
  pub accept : ℕ
  pub server_iv : Bytes
  pub start_time : TwampTimestamp

pub record TwampSessionConfig : Type 0 where
  pub sender_port : ℕ
  pub receiver_port : ℕ
  pub padding : ℕ
  pub timeout : ℕ
  pub tos : ℕ

pub record TwampAcceptSession : Type 0 where
  pub accept : ℕ
  pub port : ℕ
  pub sid : Bytes

pub record TwampSession : Type 0 where
  pub port : ℕ
  pub config : TwampSessionConfig

unfoldable pub decode_greeting : Bytes → TwampServerGreeting
decode_greeting buf = record {
  mode = number 12 4 buf;
  challenge = field 16 16 buf;
  salt = field 32 16 buf;
  count = number 48 4 buf;
}

unfoldable pub decode_start : Bytes → TwampServerStart
decode_start buf = record {
  accept = number 15 1 buf;
  server_iv = field 16 16 buf;
  start_time = record { integer = number 32 4 buf; fraction = number 36 4 buf };
}

-- `NewTwampAcceptSession`.
unfoldable pub new_twamp_accept_session : Bytes → TwampAcceptSession
new_twamp_accept_session buf = record {
  accept = number 0 1 buf;
  port = number 2 2 buf;
  sid = field 4 16 buf;
}

-- `checkAcceptStatus`: a code above 5 is no error.
unfoldable pub check_accept_status : ℕ → Outcome (Unit {0})
check_accept_status accept =
    if eqb accept 0 then ok tt else if leb accept 5 then err (refused accept) else ok tt

-- The client's answer: the mode, then an empty key id, token and vector.
unfoldable pub setup_response : Bytes
setup_response = uint32 1 ++ replicate 160 0

-- `RequestTwSession.Encode` into a new slice of 112 bytes.
unfoldable pub encode : TwampSessionConfig → ℕ → ℕ → TwampTimestamp → Bytes
encode config local remote start = put 84 (uint32 config.tos) (
    put 80 (uint32 0) (
      put 76 (uint32 config.timeout) (
        put 72 (uint32 start.fraction) (
          put 68 (uint32 start.integer) (
            put 64 (uint32 config.padding) (
              put 32 (uint32 remote) (
                put 16 (uint32 local) (
                  put 14 (uint16 config.receiver_port)
                    (put 12 (uint16 config.sender_port) (put 0 (5 ∷ []) (replicate 112 0)))))))))))

-- The checks on the mode of the greeting.
unfoldable pub check_mode : ℕ → Outcome (Unit {0})
check_mode mode =
    if eqb mode 0
    then err unsupported
    else if eqb mode 2
    then err unsupported
    else if eqb mode 4
    then err unsupported
    else ok tt

module _ {C T : Type 0} (host : Host C T) where
  -- `Connect`, on the connection that was dialled.
  unfoldable pub connect : C → Outcome (Unit {0}) × C
  unfolding read_from_socket check_mode decode_greeting decode_start check_accept_status
  connect c = proceed (read_from_socket host 64 c) λ buf c₁.
      proceed (check_mode (decode_greeting buf).mode, c₁)
        λ _ c₂.
          proceed (read_from_socket host 48 (host.write setup_response c₂))
            λ start c₃. (check_accept_status (decode_start start).accept, c₃)

  -- `CreateSession`, once its request is encoded.
  unfoldable pub request_session : TwampSessionConfig → Bytes → C → Outcome TwampSession × C
  unfolding read_from_socket new_twamp_accept_session check_accept_status
  request_session config pdu c = proceed (read_from_socket host 48 (host.write pdu c)) λ buf c₁.
      proceed (check_accept_status (new_twamp_accept_session buf).accept, c₁)
        λ _ c₂. (ok (record { port = (new_twamp_accept_session buf).port; config = config }), c₂)

  -- The control messages of `CreateTest`; the UDP socket is opened when they succeed.
  unfoldable pub start_sessions : C → Outcome (Unit {0}) × C
  unfolding read_from_socket check_accept_status
  start_sessions c =
      proceed (read_from_socket host 32 (host.write (put 0 (2 ∷ []) (replicate 32 0)) c))
        λ buf c₁. (check_accept_status (number 0 1 buf), c₁)

  -- `Stop`.
  unfoldable pub stop : C → C
  stop c = host.write (put 4 (uint16 1) (put 1 (0 ∷ []) (put 0 (3 ∷ []) (replicate 32 0)))) c
