-- ===== src/Examples/Steers.antt =====
-- Runs of steering (pkg/hal/hal.go) on a device that accepts every request, or refuses it.
use vmw_tsf.Prelude.{
  ℕ, suc, Str, ◌≡◌, ◌≢◌, ◌↔◌, ◌⊎◌, inl, refl, Bool, true, List, [], ◌∷◌, ◌++◌, Option, none, some,
  map, str, arith, str_eq, nat_eq, All, if◌then◌else◌, str_eqb,
}
use vmw_tsf.Prelude.Map.{lookup, insert, IsMap}
use vmw_tsf.Net.{Ip, ipv4, to4, equal}
use vmw_tsf.Net.Text.{ip_text, decimal, join}
use vmw_tsf.Outcome.{ok}
use vmw_tsf.Registry.{
  Interface, Registry, default_interface, find_interface_by_next_hop, init_interfaces,
}
use vmw_tsf.Flow.{FlowKey, as_key, tcp, proto_text}
use vmw_tsf.Netconf.{
  Rule, Device, done, failed, edit_acl_rules, request_and_commit, request, commit_changes,
}
use vmw_tsf.Steering.{
  SteerItem, Acl, steer_rule, steer, remove_steer, build_batch, add_rule, find_rule_id,
  next_hop_address, apply_batch, ids_to_remove, ids_of, remove_ids,
}
use vmw_tsf.Steering.Ids.{IsFresh}
use vmw_tsf.Steering.Rules.{AreRulesFor}
use vmw_tsf.Steering.Cache.{steer_failed, steer-IsFresh, steer_lem}
use vmw_tsf.Steering.Removal.{IsKeyOf, remove_steer_lem}
use vmw_tsf.Loading.{
  loaded_flow, init_net_conf, get_steer_interface, response_map, hop_interfaces, flow_of,
  protocol_of,
}
use vmw_tsf.Loading.Fresh.{empty_acl, init_net_conf-IsFresh, unordered_load_is_stale}
use vmw_tsf.Loading.Answers.{IsSteered, confirmed, get_steer_interface_lem}
use vmw_tsf.Loading.RoundTrip.{loaded_flow-steer_rule}

abbrev wan : Interface
wan = record default_interface { upper = str "wan0"; next_hop = ipv4 10 0 0 1 }

abbrev pub registry : Registry Unit
registry = record (init_interfaces {S = Unit} none) {
  store = wan ∷ [];
  wan = str "wan0" ∷ [];
  upper2interface = (str "wan0", 0) ∷ [];
  next_hop2interface = (str "wan0", 0) ∷ [];
}

-- The state counts the requests.
abbrev pub accepts : Device ℕ
accepts q n = (done [], suc n)

abbrev refuses : Device ℕ
refuses q n = (failed (str "timeout"), suc n)

abbrev pub flow : FlowKey
flow = record {
  protocol = tcp;
  src_addr = ipv4 192 168 0 1;
  dst_addr = ipv4 192 168 0 2;
  src_port = 1000;
  dst_port = 443;
}

abbrev items : List SteerItem
items = record { rule = flow; next_hop = str "wan0" } ∷ []

abbrev unknown : List SteerItem
unknown = record { rule = flow; next_hop = str "wan9" } ∷ []

pub empty-IsFresh : IsFresh (empty_acl 10)
unfolding lookup
empty-IsFresh = record { is_map = tt; below = λ id v h. ground (arith, h) }

steer_accepted : (steer accepts registry items (empty_acl 10) 0).0 ≡ ok tt
unfolding steer build_batch next_hop_address find_interface_by_next_hop lookup add_rule find_rule_id
    apply_batch request_and_commit request commit_changes
steer_accepted = refl

steer_lem_example :
    let (answer, acl', d') = steer accepts registry items (empty_acl 10) 0 in
    ((id : ℕ) (v : Str) → lookup id (empty_acl 10).rules ≡ some v → lookup id acl'.rules ≡ some v)
    × ((rules : List Rule) × AreRulesFor registry items acl'.rules rules
        × ((rules ≡ []) × (d' ≡ 0)
            ⊎ (request_and_commit accepts (edit_acl_rules rules) 0 ≡ (ok tt, d'))))
steer_lem_example = steer_lem accepts registry items (empty_acl 10) 0 empty-IsFresh steer_accepted

steer-IsFresh_example : IsFresh (steer accepts registry items (empty_acl 10) 0).1
steer-IsFresh_example = steer-IsFresh accepts registry items (empty_acl 10) 0 empty-IsFresh

steer_refused : (steer refuses registry items (empty_acl 10) 0).0 ≢ ok tt
unfolding steer build_batch next_hop_address find_interface_by_next_hop lookup add_rule find_rule_id
    apply_batch request_and_commit request commit_changes
steer_refused h = cc

steer_failed_example :
    (steer refuses registry items (empty_acl 10) 0).1.rules ≡ (empty_acl 10).rules
steer_failed_example = steer_failed refuses registry items (empty_acl 10) 0 steer_refused

abbrev loaded : Acl
loaded = record { rules = (10, as_key flow) ∷ (20, str "other") ∷ []; access_list_id = 30 }

loaded-IsMap : IsMap loaded.rules
unfolding lookup
loaded-IsMap = (refl, (refl, tt))

removal_accepted : (remove_steer accepts (flow ∷ []) loaded 0).0 ≡ ok tt
unfolding remove_steer ids_to_remove ids_of remove_ids request_and_commit request commit_changes
    as_key ip_text decimal to4 join
removal_accepted = refl

remove_steer_lem_example :
    let acl' = (remove_steer accepts (flow ∷ []) loaded 0).1 in
    ((id : ℕ) (v : Str)
      → (lookup id acl'.rules ≡ some v)
        ↔ ((lookup id loaded.rules ≡ some v) × ¬ IsKeyOf v (flow ∷ [])))
    × (acl'.access_list_id ≡ 30)
remove_steer_lem_example =
    remove_steer_lem accepts (flow ∷ []) loaded 0 loaded-IsMap removal_accepted

removal_refused : (remove_steer refuses (flow ∷ []) loaded 0).0 ≢ ok tt
unfolding remove_steer ids_to_remove ids_of remove_ids request_and_commit request commit_changes
    as_key ip_text decimal to4 join
removal_refused h = cc

-- Reads the two texts of the flow.
abbrev parse_cidr : Str → Option Ip
parse_cidr s =
    if str_eqb s (str "192.168.0.1/32")
    then some (ipv4 192 168 0 1)
    else if str_eqb s (str "192.168.0.2/32")
    then some (ipv4 192 168 0 2)
    else none

parses_addresses :
    (parse_cidr (ip_text flow.src_addr ++ str "/32") ≡ some (ipv4 192 168 0 1))
    × (parse_cidr (ip_text flow.dst_addr ++ str "/32") ≡ some (ipv4 192 168 0 2))
unfolding ip_text decimal to4 join
parses_addresses = (refl, refl)

loaded_flow-steer_rule_example :
    (fk : FlowKey) × (loaded_flow parse_cidr (steer_rule 10 flow (ipv4 10 0 0 1)) ≡ ok (some fk))
    × (as_key fk ≡ as_key flow)
unfolding to4
loaded_flow-steer_rule_example =
    loaded_flow-steer_rule parse_cidr 10 flow (ipv4 10 0 0 1) (ipv4 192 168 0 1) (ipv4 192 168 0 2)
      (inl refl) refl refl parses_addresses.0 parses_addresses.1 refl refl

abbrev two_rules : List Rule
two_rules = steer_rule 20 flow (ipv4 10 0 0 1) ∷ steer_rule 30 flow (ipv4 10 0 0 1) ∷ []

abbrev answers : Device ℕ
answers q n = (done two_rules, suc n)

init_net_conf-IsFresh_example :
    (acl' : Acl) × (init_net_conf parse_cidr answers (empty_acl 10) 0 ≡ (ok acl', 1)) × IsFresh acl'
unfolding steer_rule
init_net_conf-IsFresh_example =
    init_net_conf-IsFresh parse_cidr answers 10 two_rules 0 1 refl
      (((_, refl), (_, refl)), omega arith, (((_, refl), (_, refl)), omega arith, tt))

abbrev falling : Device ℕ
falling q n =
    (done (steer_rule 40 flow (ipv4 10 0 0 1) ∷ steer_rule 20 flow (ipv4 10 0 0 1) ∷ []), suc n)

unordered_load_is_stale_example :
    (acl' : Acl) × (init_net_conf parse_cidr falling (empty_acl 10) 0 ≡ (ok acl', 1))
    × (acl'.access_list_id ≡ 30)
    × (¬ IsFresh acl')
unfolding steer_rule loaded_flow flow_of protocol_of proto_text ip_text decimal to4 join
unordered_load_is_stale_example =
    unordered_load_is_stale parse_cidr falling 10 (steer_rule 40 flow (ipv4 10 0 0 1))
      (steer_rule 20 flow (ipv4 10 0 0 1)) flow flow 0 1 refl refl refl refl refl (omega arith)
      (omega arith)

response_of_two :
    response_map parse_cidr (hop_interfaces registry.store registry.next_hop2interface) two_rules []
    ≡ ok ((as_key flow, str "wan0") ∷ [])
unfolding response_map steer_rule hop_interfaces equal insert as_key decimal proto_text ip_text to4
    join
response_of_two = refl

get_steer_interface_lem_example :
    (status : Bool) × (get_steer_interface parse_cidr answers registry items 0
      ≡ (ok (status, map (confirmed ((as_key flow, str "wan0") ∷ [])) items), 1))
    × ((status ≡ true) ↔ All (IsSteered ((as_key flow, str "wan0") ∷ [])) items)
get_steer_interface_lem_example =
    get_steer_interface_lem parse_cidr answers registry items two_rules
      ((as_key flow, str "wan0") ∷ []) 0 1 refl response_of_two
