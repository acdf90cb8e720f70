-- ===== src/Examples/Managing.antt =====
-- Runs of the management service of pkg/hal/mgmt_server.go.
use vmw_tsf.Prelude.{ℕ, Str, ◌≡◌, refl, ◌⊎◌, none, some, str, str_eq, nat_eq, true}
use vmw_tsf.Prelude.Map.{lookup}
use vmw_tsf.Net.{Ip, ipv4}
use vmw_tsf.Net.Parse.{split, parse_uint}
use vmw_tsf.Outcome.{Outcome, ok, err, already_exists}
use vmw_tsf.Registry.{Registry, Manager, init_interfaces, register}
use vmw_tsf.Management.{AddWanInterfaceArgs, parse_twamp_addr, add_wan_interface}
use vmw_tsf.Management.Interfaces.{wan_interface, add_wan_interface_lem}

abbrev quiet : Manager Unit
quiet = record { add = λ l m. m; remove = λ l m. (m, true) }

abbrev args : AddWanInterfaceArgs
args = record {
  upper = str "wan0";
  lower = str "ge100-0/0/2";
  next_hop = str "10.0.0.1";
  twamp = str "10.0.0.1:5000";
}

abbrev registry : Registry Unit
registry = init_interfaces none

abbrev index_of : Str → Outcome ℕ
index_of lower = ok 9

abbrev parse_ip : Str → Ip
parse_ip s = ipv4 10 0 0 1

args_parse : parse_twamp_addr args.twamp ≡ ok (str "10.0.0.1", 5000)
unfolding parse_twamp_addr split parse_uint
args_parse = refl

add_wan_interface_lem_example :
    let result = add_wan_interface quiet index_of parse_ip (ok tt) args registry in
    ((lookup (str "wan0") registry.upper2interface ≡ none)
      × (result
          ≡ (ok tt, register quiet (wan_interface parse_ip args (str "10.0.0.1") 5000 9) registry)))
    ⊎ ((p : ℕ) × (lookup (str "wan0") registry.upper2interface ≡ some p)
        × (result ≡ (err (already_exists (str "wan0")), registry)))
add_wan_interface_lem_example =
    add_wan_interface_lem quiet index_of parse_ip args (str "10.0.0.1") 5000 9 registry args_parse
      refl
