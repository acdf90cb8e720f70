-- ===== src/Examples/Probing.antt =====
-- Runs of the TWAMP client of pkg/twamp against a host with fixed replies.
use vmw_tsf.Prelude.{
  ℕ, suc, ◌≡◌, refl, ◌⊎◌, [], ◌∷◌, false, true, ◌++◌, none, some, str, arith, length, replicate,
  eqb, if◌then◌else◌, str_eqb,
}
use vmw_tsf.Prelude.Int.{ℤ, pos, quot, i64, ◌+ℤ◌}
use vmw_tsf.Outcome.{Outcome, ok, err, crash, refused, unsupported, request_failed}
use vmw_tsf.Twamp.{Bytes, number, uint32, Host, Clock, TwampTimestamp, read_from_socket}
use vmw_tsf.Twamp.Control.{
  TwampSessionConfig, TwampSession, encode, connect, start_sessions, request_session, check_mode,
  check_accept_status, decode_greeting, decode_start, new_twamp_accept_session,
}
use vmw_tsf.Twamp.Probes.{Tally, empty_tally, get_rtt, run, rounds, run_x}
use vmw_tsf.Twamp.Wire.{encode_lem}
use vmw_tsf.Twamp.Handshake.{IsOtherMode, IsRefusal, padded, connect_lem}
use vmw_tsf.Twamp.Rounds.{IsTally, AreNonneg, sum_rtt, run_x_lem, run_x_min}
use vmw_tsf.Prelude.Map.{insert}
use vmw_tsf.Net.{ipv4, to4}
use vmw_tsf.Registry.{Interface, default_interface}
use vmw_tsf.Twamp.Ping.{ping, bangs, results_of, ping-run_x}
use vmw_tsf.Twamp.Sessions.{
  Network, create_session, local_addr_uint32, remote_addr_uint32, v4_number, open_test, create_test,
  set_up_tests, twamp_tests,
}

-- The state counts the reads; every reply is of zeros, but the mode of a greeting is 1.
abbrev replies : Host ℕ ℕ
replies = record {
  write = λ bs c. c;
  read = λ size c. ((replicate 12 0 ++ uint32 1, none), suc c);
  now = λ c. (c, c);
  random = λ n c. (replicate n 7, c);
}

abbrev silent : Host ℕ ℕ
silent = record {
  write = λ bs c. c;
  read = λ size c. (([], some (str "timeout")), suc c);
  now = λ c. (c, c);
  random = λ n c. (replicate n 7, c);
}

abbrev ticks : Clock ℕ
ticks = record {
  unix_time = λ sec nsec. sec;
  add_years = λ n t. t;
  unix = λ t. t;
  nanosecond = λ t. 0;
  sub = λ t u. pos t;
}

abbrev config : TwampSessionConfig
config = record { sender_port = 2000; receiver_port = 2001; padding = 42; timeout = 1; tos = 0 }

abbrev session : TwampSession
session = record { port = 2001; config = config }

abbrev start : TwampTimestamp
start = record { integer = 5; fraction = 6 }

encode_lem_example :
    let pdu = encode config 167772161 167772162 start in
    (length pdu ≡ 112)
    × (number 0 1 pdu ≡ 5)
    × (number 12 2 pdu ≡ 2000)
    × (number 14 2 pdu ≡ 2001)
    × (number 16 4 pdu ≡ 167772161)
    × (number 32 4 pdu ≡ 167772162)
    × (number 64 4 pdu ≡ 42)
    × (number 68 4 pdu ≡ 5)
    × (number 72 4 pdu ≡ 6)
    × (number 76 4 pdu ≡ 1)
    × (number 84 4 pdu ≡ 0)
encode_lem_example = encode_lem config 167772161 167772162 start

abbrev reply : Bytes
reply = replicate 12 0 ++ uint32 1

connect_lem_example :
    let mode = number 12 4 (padded 64 reply) in
    let accept = number 15 1 (padded 48 reply) in
    (IsOtherMode mode × (connect replies 0 ≡ (err unsupported, 1)))
    ⊎ (((¬ IsOtherMode mode) × IsRefusal accept × (connect replies 0 ≡ (err (refused accept), 2)))
        ⊎ ((¬ IsOtherMode mode) × (¬ IsRefusal accept) × (connect replies 0 ≡ (ok tt, 2))))
connect_lem_example = connect_lem replies 0 1 2 reply reply refl refl

run_x_lem_example :
    (s : Tally ℕ) × (c' : ℕ) × (run_x replies ticks session 3 0 0
      ≡ (ok (s, quot (i64 (sum_rtt ticks (pos 0) s.results)) 3), 3, c'))
    × IsTally ticks s
    × (s.transmitted ≡ 3)
run_x_lem_example = run_x_lem replies ticks session 2 0 0 (omega arith)

-- The first probe times out; the later ones are answered.
abbrev late : Host ℕ ℕ
late = record {
  write = λ bs c. c;
  read = λ size c.
      ((uint32 c ++ replicate 60 0, if eqb c 0 then some (str "timeout") else none), suc c);
  now = λ c. (c, c);
  random = λ n c. (replicate n 7, c);
}

abbrev late_run : Outcome (Tally ℕ × ℤ) × ℕ × ℕ
late_run = run_x late ticks session 3 0 0

abbrev late_tally : Outcome (Tally ℕ × ℤ) → Tally ℕ
late_tally (ok (s, avg)) = s
late_tally (err e) = empty_tally
late_tally crash = empty_tally

run-late : (run late ticks session 0 0).0.0 ≡ err (request_failed (str "timeout"))
unfolding run read_from_socket
run-late = refl

run_x-late : late_run.0 ≡ ok (late_tally late_run.0, pos 1)
unfolding run_x rounds run read_from_socket quot i64 ◌+ℤ◌
run_x-late = refl

AreNonneg-late : AreNonneg ticks (late_tally late_run.0).results
unfolding run_x rounds run read_from_socket get_rtt
AreNonneg-late = (omega arith, (omega arith, tt))

run_x_min_example : (late_tally late_run.0).min ≡ pos 0
run_x_min_example =
    run_x_min late ticks session 2 0 0 (request_failed (str "timeout")) (late_tally late_run.0)
      (pos 1) run-late run_x-late AreNonneg-late

abbrev wire : Network ℕ
wire = record {
  dial = λ peer c. (ok tt, c);
  local_addr = λ c. str "10.0.0.2:40000";
  remote_addr = λ c. str "10.0.0.1:862";
  dial_udp = λ s c. (ok tt, c);
  close = λ c. c;
  split_host_port =
      λ s. if str_eqb s (str "10.0.0.1:862") then some (str "10.0.0.1") else some (str "10.0.0.2");
  parse_ip = λ s.
      if str_eqb s (str "10.0.0.1")
      then ipv4 10 0 0 1
      else if str_eqb s (str "10.0.0.2")
      then ipv4 10 0 0 2
      else [];
}

abbrev measured_wan : Interface
measured_wan = record default_interface {
  upper = str "wan0";
  twamp_peer = str "10.0.0.1";
  twamp_port = 862;
}

ping-run_x_example :
    let (end, printed) = ping replies ticks (λ n c. c) session true 1 3 0 0 in
    (end ≡ run_x replies ticks session 3 0 0)
    × (length printed ≡ 3)
    × (bangs printed ≡ results_of end.0)
ping-run_x_example = ping-run_x replies ticks (λ n c. c) session 1 3 0 0

-- A server whose greeting has a high bit in its mode, and which accepts everything.
abbrev grants : Host ℕ ℕ
grants = record {
  write = λ bs c. c;
  read = λ size c. ((replicate 12 0 ++ 1 ∷ 0 ∷ 0 ∷ 0 ∷ [], none), suc c);
  now = λ c. (c, c);
  random = λ n c. (replicate n 7, c);
}

one_test :
    (twamp_tests wire grants ticks false (some measured_wan ∷ []) 0).0
    ≡ ok (
        (
          str "wan0",
          record {
            port = 0;
            config = record {
              sender_port = 862;
              receiver_port = 863;
              padding = 42;
              timeout = 1;
              tos = 0;
            };
          },
        )
        ∷ [])
unfolding twamp_tests set_up_tests open_test create_test connect create_session request_session
    local_addr_uint32 remote_addr_uint32 v4_number to4 start_sessions insert read_from_socket
    check_mode check_accept_status decode_greeting decode_start new_twamp_accept_session
one_test = refl
