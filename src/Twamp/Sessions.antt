-- ===== src/Twamp/Sessions.antt =====
-- Whole sessions: the set-up of the tests in `monitorInterfaces` (pkg/hal/hal.go), and the command
-- cmd/twamp/main.go. A connection is dialled by a parameter; its state is part of `C`.
use vmw_tsf.Prelude.{
  ℕ, ◌+◌, Str, Bool, true, false, List, [], ◌∷◌, Option, none, some, str, str_eq, str_eqb,
  if◌then◌else◌,
}
use vmw_tsf.Prelude.Int.{ℤ}
use vmw_tsf.Prelude.Map.{Map, insert}
use vmw_tsf.Outcome.{Outcome, ok, err, crash, proceed}
use vmw_tsf.Net.{Ip, to4}
use vmw_tsf.Registry.{Interface}
use vmw_tsf.Twamp.{Host, Clock, number, new_twamp_timestamp}
use vmw_tsf.Twamp.Control.{
  TwampSessionConfig, TwampSession, connect, encode, request_session, start_sessions, stop,
}
use vmw_tsf.Twamp.Probes.{Tally, run_x}
use vmw_tsf.Twamp.Ping.{Mark, ping}

-- What is used of package net: `Dial`, the texts of the two addresses of a connection, `DialUDP`,
-- `Close`, and the pure functions `SplitHostPort`, for the host, and `ParseIP`.
pub record Network (C : Type 0) : Type 0 where
  pub dial : Str → C → Outcome (Unit {0}) × C
  pub local_addr : C → Str
  pub remote_addr : C → Str
  pub dial_udp : TwampSession → C → Outcome (Unit {0}) × C
  pub close : C → C
  pub split_host_port : Str → Option Str
  pub parse_ip : Str → Ip

-- `binary.BigEndian.Uint32` of what `To4` returns: of nil, it panics.
unfoldable pub v4_number : Option Ip → Outcome ℕ
v4_number none = crash
v4_number (some ip) = ok (number 0 4 ip)

module _ {C : Type 0} (net : Network C) where
  abbrev host_number : Option Str → Outcome ℕ
  host_number none = ok 0
  host_number (some h) = v4_number (to4 (net.parse_ip h))

  unfoldable pub local_addr_uint32 : C → Outcome ℕ
  unfolding v4_number
  local_addr_uint32 c = host_number (net.split_host_port (net.local_addr c))

  unfoldable pub remote_addr_uint32 : C → Outcome ℕ
  unfolding v4_number
  remote_addr_uint32 c = host_number (net.split_host_port (net.remote_addr c))

module _ {C T : Type 0} (net : Network C) (host : Host C T) (clock : Clock T) where
  -- `CreateTest`.
  unfoldable pub create_test : TwampSession → C → Outcome TwampSession × C
  unfolding start_sessions
  create_test s c =
      proceed (start_sessions host c) λ _ c₁. proceed (net.dial_udp s c₁) λ _ c₂. (ok s, c₂)

  -- `CreateSession`: the time and the addresses, which panic unless they are IPv4, are read while
  -- the request is encoded.
  unfoldable pub create_session : TwampSessionConfig → C → Outcome TwampSession × C
  unfolding local_addr_uint32 remote_addr_uint32 encode new_twamp_timestamp request_session
  create_session config c =
      let (t, c₀) = host.now c in
      proceed (local_addr_uint32 net c₀, c₀)
        λ local c₁.
          proceed (remote_addr_uint32 net c₁, c₁)
            λ remote c₂.
              request_session host config (encode config local remote (new_twamp_timestamp clock t))
                c₂

  -- `Connect`, `CreateSession` and `CreateTest`, one after the other.
  unfoldable pub open_test : Str → TwampSessionConfig → C → Outcome TwampSession × C
  unfolding create_test connect create_session
  open_test peer config c =
      proceed (net.dial peer c)
        λ _ c₁. proceed (connect host c₁) λ _ c₂. proceed (create_session config c₂) create_test

  abbrev pub test_config : Interface → TwampSessionConfig
  test_config ifc = record {
    sender_port = ifc.twamp_port;
    receiver_port = ifc.twamp_port + 1;
    padding = 42;
    timeout = 1;
    tos = 0;
  }

  abbrev pub Tests : Type 0
  Tests = Map Str TwampSession

  -- A test that cannot be set up is logged and skipped.
  abbrev pub add_test : Interface → Outcome TwampSession → Tests → Outcome Tests
  add_test ifc (ok s) tests = ok (insert ifc.upper s tests)
  add_test ifc (err e) tests = ok tests
  add_test ifc crash tests = crash

  -- The loop over the copies of the WAN interfaces; a nil pointer is a panic.
  unfoldable pub set_up_tests : List (Option Interface) → Tests → C → Outcome Tests × C
  unfolding open_test
  set_up_tests [] tests c = (ok tests, c)
  set_up_tests (none ∷ wans) tests c = (crash, c)
  set_up_tests (some ifc ∷ wans) tests c =
      let (s, c₁) = open_test ifc.twamp_peer (test_config ifc) c in
      proceed (add_test ifc s tests, c₁) (set_up_tests wans)

  unfoldable pub twamp_tests : Bool → List (Option Interface) → C → Outcome Tests × C
  unfolding set_up_tests
  twamp_tests true wans c = (ok [], c)
  twamp_tests false wans c = set_up_tests wans [] c

-- The flags of cmd/twamp/main.go.
pub record TwampOptions : Type 0 where
  pub interval : ℕ
  pub count : ℕ
  pub rapid : Bool
  pub size : ℕ
  pub tos : ℕ
  pub wait : ℕ
  pub sport : ℕ
  pub rport : ℕ
  pub mode : Str

abbrev pub or_fatal : {A C : Type 0} → Outcome A × C → Outcome A × C
or_fatal (ok a, c) = (ok a, c)
or_fatal (err e, c) = (crash, c)
or_fatal (crash, c) = (crash, c)

module _ {C T : Type 0} (net : Network C) (host : Host C T) (clock : Clock T)
    (sleep : ℕ → C → C) where
  abbrev pub Measured : Type 0
  Measured = Option (Tally T × ℤ) × List (Mark T)

  abbrev pub measured : Outcome (Tally T × ℤ) × ℕ × C → List (Mark T) → Outcome Measured × C
  measured (ok a, seq, c) printed = (ok (some a, printed), c)
  measured (err e, seq, c) printed = (err e, c)
  measured (crash, seq, c) printed = (crash, c)

  -- The `switch` on the mode; another mode measures nothing.
  unfoldable pub measure : TwampOptions → TwampSession → C → Outcome Measured × C
  unfolding run_x ping
  measure o s c =
      if str_eqb o.mode (str "json")
      then measured (run_x host clock s o.count 0 c) []
      else if str_eqb o.mode (str "ping")
      then (let (end, printed) = ping host clock sleep s o.rapid o.interval o.count 0 c in
          measured end printed)
      else (ok (none, []), c)

  abbrev pub command_config : TwampOptions → TwampSessionConfig
  command_config o = record {
    sender_port = o.sport;
    receiver_port = o.rport;
    padding = o.size;
    timeout = o.wait;
    tos = o.tos;
  }

  -- The command: the test is measured, stopped, and the connection closed.
  unfoldable pub twamp_command : Str → TwampOptions → C → Outcome Measured × C
  unfolding measure open_test stop
  twamp_command remote_server o c =
      proceed (or_fatal (open_test net host clock remote_server (command_config o) c))
        λ s c₁. proceed (measure o s c₁) λ result c₂. (ok result, net.close (stop host c₂))
