-- ===== src/Examples/Starting.antt =====
-- A start of the registry of pkg/hal/hal.go with one LAN and one WAN interface.
use vmw_tsf.Prelude.{
  ℕ, Str, ◌≡◌, refl, List, [], ◌∷◌, Option, none, some, str, str_eq, nat_eq, true,
}
use vmw_tsf.Prelude.Map.{lookup, insert}
use vmw_tsf.Net.{Ip, ipv4}
use vmw_tsf.Outcome.{Outcome, ok}
use vmw_tsf.Prelude.Sort.{sort}
use vmw_tsf.Registry.{Registry, Manager, new_interface, register, is_wan, apply_options}
use vmw_tsf.Startup.{InterfaceCfg, InterfacesCfg, start_interfaces}

abbrev unmarshal : Str → Option ℕ
unmarshal s = some 9

abbrev get : Str → Option (List (List Str))
get lower = some ((str "9" ∷ []) ∷ [])

abbrev pub quiet : Manager Unit
quiet = record { add = λ l m. m; remove = λ l m. (m, true) }

abbrev pub lan : InterfaceCfg
lan = record { upper = str "lan0"; lower = str "ge100-0/0/1"; hw_addr = []; ipv4_addr = [] }

abbrev pub wan : InterfaceCfg
wan = record {
  upper = str "wan0";
  lower = str "ge100-0/0/2";
  hw_addr = [];
  ipv4_addr = str "10.0.0.2";
}

abbrev cfg : InterfacesCfg
cfg = record {
  lan = lan;
  wan = wan ∷ [];
  next_hop = (str "10.0.0.2", str "10.0.0.1") ∷ [];
  twamp = [];
}

abbrev pub index_of : Str → Outcome ℕ
index_of lower = ok 9

abbrev pub parse_ip : Str → Ip
parse_ip s = ipv4 10 0 0 1

abbrev pub names : List Str
names = str "lo" ∷ str "lan0" ∷ str "wan0" ∷ []

abbrev upper_names : Outcome (Registry Unit) → List Str × List Str
upper_names (ok r) = (r.lan, r.wan)
upper_names _ = ([], [])

both_registered :
    upper_names (start_interfaces quiet index_of parse_ip cfg names none)
    ≡ (str "lan0" ∷ [], str "wan0" ∷ [])
unfolding start_interfaces new_interface register apply_options lookup insert sort is_wan
both_registered = refl
