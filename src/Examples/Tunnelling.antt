-- ===== src/Examples/Tunnelling.antt =====
-- Runs of the tunnel calls of pkg/hal/hal.go against a router that knows one interface.
use vmw_tsf.Prelude.{ℕ, suc, Str, ◌≡◌, refl, Bool, true, [], ◌∷◌, some, str, str_eqb}
use vmw_tsf.Net.{Ip, ipv4}
use vmw_tsf.Outcome.{ok}
use vmw_tsf.Netconf.{Reply, done}
use vmw_tsf.Tunnels.{
  TunnelRequest, Answer, rsvp, name_element, config_items, add_tunnel, find_described,
  add_si_environment,
}
use vmw_tsf.Tunnels.Commits.{logged, Ends, add_tunnel-Ends}

abbrev answer : Answer
answer = record {
  tokens =
      name_element (some (str "ge100-0/0/4"))
      ∷ config_items
          (some (record { ip = str "10.1.0.1"; prefix_length = str "24"; description = str "tun" }))
      ∷ [];
  explicit_address = some (str "10.1.0.2");
}

abbrev router : TunnelRequest → ℕ → Reply Answer × ℕ
router q n = (done answer, suc n)

abbrev parse_ip : Str → Ip
parse_ip s = ipv4 10 1 0 2

abbrev parses : Str → Bool
parses s = true

abbrev contains : Str → Ip → Bool
contains net ip = str_eqb net (str "10.1.0.1/24")

found_by_description : find_described (str "tun") [] answer.tokens ≡ ok (str "ge100-0/0/4")
unfolding find_described
found_by_description = refl

entry_is_not_sent :
    add_si_environment
      (logged router)
      parse_ip
      parses
      contains
      (str "halo")
      (str "A=1" ∷ [])
      (0, [])
    ≡ add_si_environment
        (logged router)
        parse_ip
        parses
        contains
        (str "halo")
        (str "B=2" ∷ [])
        (0, [])
unfolding add_si_environment
entry_is_not_sent = refl

add_tunnel-Ends_example : Ends (
    add_tunnel
      (logged router)
      parse_ip
      parses
      contains
      (str "tun")
      (ipv4 10 0 0 1)
      (ipv4 10 0 0 2)
      rsvp
      (str "10.2.0.1/24")
      (0, []))
add_tunnel-Ends_example =
    add_tunnel-Ends router parse_ip parses contains (str "tun") (ipv4 10 0 0 1) (ipv4 10 0 0 2) rsvp
      (str "10.2.0.1/24") 0
