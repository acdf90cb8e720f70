-- ===== src/Examples/Interfaces.antt =====
-- Runs on a small registry of pkg/hal/hal.go: a LAN and a WAN interface.
use vmw_tsf.Prelude.{ℕ, Str, ◌≡◌, refl, true, false, List, [], ◌∷◌, none, some, str, str_eq, nat_eq}
use vmw_tsf.Prelude.Map.{lookup, insert}
use vmw_tsf.Prelude.Sort.{sort}
use vmw_tsf.Net.{ipv4}
use vmw_tsf.Registry.{
  Interface, Registry, Manager, OptionInterface, option_interface_upper, option_interface_lower,
  option_interface_net_flow_id, option_interface_next_hop, init_interfaces, new_interface,
  remove_interface, register, apply_options, default_interface, is_wan, find_interface_by_lower,
}
use vmw_tsf.Registry.Invariant.{IsValid}
use vmw_tsf.Registry.Lifecycle.{
  Call, adds, removes, run, step, run-init_interfaces-IsValid, SameAnswers,
  remove_interface-new_interface, shared_lower_is_lost,
}
use vmw_tsf.Telemetry.{Event, speed_update, twamp_results, on_events}
use vmw_tsf.Telemetry.Updates.{telemetry, over, effects, SameNames, on_events-telemetry}

abbrev pub listing : Manager (List Str)
listing = record { add = λ l m. l ∷ m; remove = λ l m. (m, true) }

abbrev lan_options : List OptionInterface
lan_options =
    option_interface_upper (str "lan0")
    ∷ option_interface_lower (str "ge100-0/0/1")
    ∷ option_interface_net_flow_id 7
    ∷ []

abbrev wan_options : List OptionInterface
wan_options =
    option_interface_upper (str "wan0")
    ∷ option_interface_lower (str "ge100-0/0/2")
    ∷ option_interface_net_flow_id 9
    ∷ option_interface_next_hop (ipv4 10 0 0 1)
    ∷ []

abbrev pub calls : List Call
calls =
    adds wan_options
    ∷ adds (option_interface_upper (str "lan1") ∷ lan_options)
    ∷ removes (str "lan9")
    ∷ []

abbrev pub two_interfaces : Registry (List Str)
two_interfaces = run listing (init_interfaces (some [])) calls

lists_of_two : (two_interfaces.lan ≡ str "lan0" ∷ []) × (two_interfaces.wan ≡ str "wan0" ∷ [])
unfolding run step new_interface register apply_options remove_interface lookup insert sort is_wan
lists_of_two = (refl, refl)

run-init_interfaces-IsValid_example : IsValid two_interfaces
run-init_interfaces-IsValid_example = run-init_interfaces-IsValid listing (some []) calls

abbrev third_options : List OptionInterface
third_options =
    option_interface_upper (str "wan3")
    ∷ option_interface_lower (str "ge100-0/0/3")
    ∷ option_interface_net_flow_id 11
    ∷ option_interface_next_hop (ipv4 10 0 0 3)
    ∷ []

abbrev third : Interface
third = record default_interface {
  upper = str "wan3";
  lower = str "ge100-0/0/3";
  net_flow_id = 11;
  next_hop = ipv4 10 0 0 3;
}

third_is_new :
    (lookup third.upper two_interfaces.upper2interface ≡ none)
    × (lookup third.lower two_interfaces.lower2interface ≡ none)
    × (lookup third.net_flow_id two_interfaces.net_flow2interface ≡ none)
unfolding run step new_interface register apply_options remove_interface lookup insert sort is_wan
third_is_new = (refl, refl, refl)

remove_interface-new_interface_example :
    SameAnswers
      (remove_interface listing
        (str "wan3")
        (new_interface listing third_options two_interfaces).1).1
      two_interfaces
remove_interface-new_interface_example =
    remove_interface-new_interface listing third_options third two_interfaces
      (run-init_interfaces-IsValid listing (some []) calls) (unfold apply_options in refl)
      third_is_new.0 third_is_new.1 third_is_new.2

abbrev shared_options : List OptionInterface
shared_options =
    option_interface_upper (str "lan4") ∷ option_interface_lower (str "ge100-0/0/1") ∷ []

abbrev shared : Interface
shared = record default_interface { upper = str "lan4"; lower = str "ge100-0/0/1" }

abbrev first : Interface
first = record default_interface { upper = str "lan0"; lower = str "ge100-0/0/1"; net_flow_id = 7 }

first_is_there :
    (lookup (str "lan0") two_interfaces.upper2interface ≡ some 1)
    × (lookup (str "lan4") two_interfaces.upper2interface ≡ none)
unfolding run step new_interface register apply_options remove_interface lookup insert sort is_wan
first_is_there = (refl, refl)

shared_lower_is_lost_example :
    let q =
      (remove_interface listing
        (str "lan4")
        (new_interface listing shared_options two_interfaces).1).1 in
    (lookup (str "lan0") q.upper2interface ≡ some 1)
    × (find_interface_by_lower (str "ge100-0/0/1") q ≡ none)
shared_lower_is_lost_example =
    shared_lower_is_lost listing shared_options first shared 1 two_interfaces first_is_there.0
      (unfold apply_options in refl) first_is_there.1 refl

abbrev events : List Event
events =
    speed_update (str "ge100-0/0/2") 1000
    ∷ twamp_results ((str "wan0", 3, 4) ∷ [])
    ∷ speed_update (str "ge100-0/0/8") 10
    ∷ []

on_events-telemetry_example :
    ((p : ℕ)
      → telemetry (on_events false events two_interfaces) p
        ≡ over
            (effects two_interfaces.upper2interface two_interfaces.lower2interface p false events)
            (telemetry two_interfaces p))
    × SameNames (on_events false events two_interfaces) two_interfaces
on_events-telemetry_example = on_events-telemetry false events two_interfaces
