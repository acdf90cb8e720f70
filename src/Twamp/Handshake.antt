-- ===== src/Twamp/Handshake.antt =====
-- How the control connection of pkg/twamp (client.go, connection.go) answers each reply.
use vmw_tsf.Prelude.{ℕ, ◌≤◌, ◌<◌, Str, ◌≡◌, ◌⊎◌, inl, inr, ◌++◌, none, some, arith, take, replicate}
use vmw_tsf.Outcome.{ok, err, refused, unsupported, request_failed}
use vmw_tsf.Twamp.{Bytes, number, Host, read_from_socket}
use vmw_tsf.Twamp.Control.{
  TwampSessionConfig, check_mode, check_accept_status, decode_greeting, decode_start,
  setup_response, connect, request_session, new_twamp_accept_session,
}

-- The status codes that end a conversation.
abbrev pub IsRefusal : ℕ → Type 0
IsRefusal accept = (0 < accept) × (accept ≤ 5)

-- The modes that the client takes a greeting for a refusal.
abbrev pub IsOtherMode : ℕ → Type 0
IsOtherMode mode = (mode ≡ 0) ⊎ ((mode ≡ 2) ⊎ (mode ≡ 4))

mode_cases :
    (mode : ℕ)
    → (IsOtherMode mode × (check_mode mode ≡ err unsupported))
      ⊎ ((¬ IsOtherMode mode) × (check_mode mode ≡ ok tt))
unfolding check_mode
mode_cases mode = ground arith

accept_cases :
    (a : ℕ)
    → (IsRefusal a × (check_accept_status a ≡ err (refused a)))
      ⊎ ((¬ IsRefusal a) × (check_accept_status a ≡ ok tt))
unfolding check_accept_status
accept_cases a = ground arith

-- What a read of `size` bytes leaves in the buffer.
abbrev pub padded : ℕ → Bytes → Bytes
padded size bs = take size (bs ++ replicate size 0)

module _ {C T : Type 0} (host : Host C T) where
  -- When both reads succeed: a greeting of the mode 0, 2 or 4 ends the connection before anything
  -- is written; otherwise the answer is written, a status from 1 to 5 in the server's
  -- start message ends it, and any other status is accepted.
  pub connect_lem :
      (c c₁ c₂ : C) (g s : Bytes)
      → host.read 64 c ≡ ((g, none), c₁)
      → host.read 48 (host.write setup_response c₁) ≡ ((s, none), c₂)
      → let mode = number 12 4 (padded 64 g) in
        let accept = number 15 1 (padded 48 s) in
        (IsOtherMode mode × (connect host c ≡ (err unsupported, c₁)))
        ⊎ (((¬ IsOtherMode mode) × IsRefusal accept × (connect host c ≡ (err (refused accept), c₂)))
            ⊎ ((¬ IsOtherMode mode) × (¬ IsRefusal accept) × (connect host c ≡ (ok tt, c₂))))
  unfolding connect read_from_socket decode_greeting decode_start
  connect_lem c c₁ c₂ g s h k = elim (mode_cases (number 12 4 (padded 64 g))) [
    | inl (other, e) ↦ inl (other, rw (h, e))
    | inr (plain, e) ↦ elim (accept_cases (number 15 1 (padded 48 s))) [
      | inl (refusal, e') ↦ inr (inl (plain, refusal, rw (h, e, k, e')))
      | inr (accepted, e') ↦ inr (inr (plain, accepted, rw (h, e, k, e')))
    ]
  ]

  -- When the read succeeds, `CreateSession` has sent the request that it has encoded. A status from
  -- 1 to 5 in the reply is an error; any other gives the session of the port in the reply and of
  -- the configuration.
  pub request_session_lem :
      (config : TwampSessionConfig) (pdu : Bytes) (c c₁ : C) (b : Bytes)
      → host.read 48 (host.write pdu c) ≡ ((b, none), c₁)
      → let accept = number 0 1 (padded 48 b) in
        (IsRefusal accept × (request_session host config pdu c ≡ (err (refused accept), c₁)))
        ⊎ ((¬ IsRefusal accept)
            × (request_session host config pdu c
                ≡ (ok (record { port = number 2 2 (padded 48 b); config = config }), c₁)))
  unfolding request_session read_from_socket new_twamp_accept_session
  request_session_lem config pdu c c₁ b k = elim (accept_cases (number 0 1 (padded 48 b))) [
    | inl (refusal, e) ↦ inl (refusal, rw (k, e))
    | inr (accepted, e) ↦ inr (accepted, rw (k, e))
  ]

  -- A read that fails ends `Connect`, before anything is written, and `CreateSession`, with no
  -- session.
  pub failed_reads :
      (config : TwampSessionConfig) (pdu : Bytes) (c c₁ d : C) (g b : Bytes) (e f : Str)
      → host.read 64 c ≡ ((g, some e), c₁)
      → host.read 48 (host.write pdu c) ≡ ((b, some f), d)
      → (connect host c ≡ (err (request_failed e), c₁))
        × (request_session host config pdu c ≡ (err (request_failed f), d))
  unfolding connect request_session read_from_socket
  failed_reads config pdu c c₁ d g b e f h k = (rw (h), rw (k))
