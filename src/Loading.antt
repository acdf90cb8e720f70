-- ===== src/Loading.antt =====
-- Rules read from the device: the loading of `InitNetConf`, `GetSteerInterface` and
-- `SteeringAclCleanup` of pkg/hal/hal.go. The XML decoding is the device's reply; the parameter
-- `parse_cidr` is the address that `net.ParseCIDR` returns, `none` on its error.
pub mod Fresh
pub mod Answers
pub mod RoundTrip
use vmw_tsf.Prelude.{
  ℕ, suc, ◌+◌, Str, ◌≡◌, refl, Bool, true, false, ◌&&◌, List, [], ◌∷◌, ◌++◌, Option, none, some,
  str, eqb, ltb, str_eqb, length, get_elem?, if◌then◌else◌, str_eq, nat_eq,
}
use vmw_tsf.Prelude.Map.{Map, lookup, insert}
use vmw_tsf.Net.{Ip, equal}
use vmw_tsf.Outcome.{Outcome, ok, err, crash, ◌>>=◌}
use vmw_tsf.Registry.{Interface, Registry}
use vmw_tsf.Flow.{FlowKey, as_key, tcp, udp}
use vmw_tsf.Netconf.{
  Ipv4Matches, L4AclMatch, RuleConfigItems, Rule, Device, Reply, done, failed, edit_acl_rules,
  get_acl_rules, delete_acl_rules, request_and_commit, request, default_rule_id,
}
use vmw_tsf.Steering.{SteerItem, Acl, acl_rule_cache_add}

-- The map `protocols`; a missing key reads 0.
unfoldable pub protocol_of : Str → ℕ
protocol_of p =
    if str_eqb p (str "tcp(0x06)") then tcp else if str_eqb p (str "udp(0x11)") then udp else 0

-- A nil pointer, whose use panics.
abbrev pub deref {ℓ} : {A : Type ℓ} → Option A → Outcome A
deref none = crash
deref (some a) = ok a

unfoldable pub flow_of : RuleConfigItems → L4AclMatch → Ip → Ip → FlowKey
unfolding protocol_of
flow_of c ports src dst = record {
  protocol = protocol_of c.protocol;
  src_addr = src;
  dst_addr = dst;
  src_port = ports.source_lower_port;
  dst_port = ports.destination_lower_port;
}

module _ (parse_cidr : Str → Option Ip) where
  abbrev with_address {ℓ} :
      {A : Type ℓ} → Option Ip → (Ip → Outcome (Option A)) → Outcome (Option A)
  with_address none k = ok none
  with_address (some ip) k = k ip

  -- The flow of a rule; `none` is a rule that is skipped with a warning.
  unfoldable pub loaded_flow : Rule → Outcome (Option FlowKey)
  unfolding flow_of
  loaded_flow v = do
    c ← deref v.config_items
    ips ← deref c.ipv4_matches
    with_address (parse_cidr ips.source_ipv4) (λ src.
        with_address (parse_cidr ips.destination_ipv4)
          (λ dst. deref c.matches >>= λ ports. ok (some (flow_of c ports src dst))))

  unfoldable pub cache_rule : ℕ → ℕ → Option FlowKey → Acl → Acl
  unfolding acl_rule_cache_add
  cache_rule max_id id none acl = acl
  cache_rule max_id id (some fk) acl = record (acl_rule_cache_add fk id acl) {
    access_list_id = if ltb max_id id then id + 10 else acl.access_list_id;
  }

  -- The loop of `InitNetConf`; `max_id` is `maxID`, which the loop never changes.
  unfoldable pub load_rules : ℕ → List Rule → Acl → Outcome Acl
  unfolding loaded_flow cache_rule
  load_rules max_id [] acl = ok acl
  load_rules max_id (v ∷ vs) acl =
      let later = λ (acl' : Acl). load_rules max_id vs acl' in
      if eqb v.rule_id default_rule_id
      then later acl
      else loaded_flow v >>= λ fk. later (cache_rule max_id v.rule_id fk acl)

  -- `InitNetConf`: a refused request panics.
  unfoldable pub load_reply : Reply (List Rule) → Acl → Outcome Acl
  unfolding load_rules
  load_reply (done rules) acl = load_rules acl.access_list_id rules acl
  load_reply (failed e) acl = crash

  unfoldable pub init_net_conf : {D : Type 0} → Device D → Acl → D → Outcome Acl × D
  unfolding load_reply
  init_net_conf exec acl d = let (reply, d') = exec get_acl_rules d in (load_reply reply acl, d')

  abbrev or_nil : Option Ip → Ip
  or_nil none = []
  or_nil (some ip) = ip

  -- The flow of a rule in `GetSteerInterface`, where an address that does not parse is nil.
  unfoldable pub answered_flow : RuleConfigItems → Outcome FlowKey
  unfolding flow_of
  answered_flow c = do
    ips ← deref c.ipv4_matches
    ports ← deref c.matches
    ok (
        flow_of c ports (or_nil (parse_cidr ips.source_ipv4))
          (or_nil (parse_cidr ips.destination_ipv4)))

-- The interfaces of `NextHop2Interface` whose address is the rule's: the last one visited stays.
unfoldable pub record_hops : List Interface → Ip → Str → Map Str Str → Map Str Str
record_hops [] ip key m = m
record_hops (ifc ∷ rest) ip key m =
    record_hops rest ip key (if equal ifc.next_hop ip then insert key ifc.upper m else m)

unfoldable pub record_rule : List Interface → Option Ip → Str → Map Str Str → Map Str Str
unfolding record_hops
record_rule hops none key m = insert key [] m
record_rule hops (some ip) key m = record_hops hops ip key m

module _ (parse_cidr : Str → Option Ip) (hops : List Interface) where
  -- `responseMap`, from the rules of the reply; `hops` are the interfaces of the next-hop map, in
  -- the order of the `range` over it.
  unfoldable pub response_map : List Rule → Map Str Str → Outcome (Map Str Str)
  unfolding answered_flow record_rule
  response_map [] m = ok m
  response_map (v ∷ vs) m =
      let later = λ (m' : Map Str Str). response_map vs m' in
      do
        c ← deref v.config_items
        fk ← answered_flow parse_cidr c
        later (record_rule hops c.nexthop1 (as_key fk) m)

abbrev is_hop : Option Str → Str → Bool
is_hop none nh = false
is_hop (some found) nh = str_eqb found nh

-- Whether the response gives an item the wanted next hop.
unfoldable pub matched : Map Str Str → SteerItem → Bool
matched m item = is_hop (lookup (as_key item.rule) m) item.next_hop

-- The loop over the items: `matchSum` and `ruleNxs`.
unfoldable pub compare_items : Map Str Str → List SteerItem → ℕ × List Str
unfolding matched
compare_items m [] = (0, [])
compare_items m (item ∷ items) =
    let (sum, names) = compare_items m items in
    if matched m item then (suc sum, item.next_hop ∷ names) else (sum, [] ∷ names)

unfoldable pub steer_answer : Map Str Str → List SteerItem → Bool × List Str
unfolding compare_items
steer_answer m items = let (sum, names) = compare_items m items in (eqb sum (length items), names)

unfoldable pub answer_reply :
    (Str → Option Ip)
    → List Interface
    → List SteerItem
    → Reply (List Rule)
    → Outcome (Bool × List Str)
unfolding response_map steer_answer
answer_reply parse_cidr hops items (done rules) = do
  m ← response_map parse_cidr hops rules []
  ok (steer_answer m items)
answer_reply parse_cidr hops items (failed e) = crash

-- The interfaces that a `range` over `NextHop2Interface` visits.
unfoldable pub hop_interfaces : List Interface → Map Str ℕ → List Interface
hop_interfaces store [] = []
hop_interfaces store ((upper, p) ∷ rest) = elim (get_elem? store p) [
  | none ↦ hop_interfaces store rest
  | some ifc ↦ ifc ∷ hop_interfaces store rest
]

-- `GetSteerInterface`.
unfoldable pub get_steer_interface :
    {S D : Type 0}
    → (Str → Option Ip)
    → Device D
    → Registry S
    → List SteerItem
    → D
    → Outcome (Bool × List Str) × D
unfolding answer_reply hop_interfaces
get_steer_interface parse_cidr exec r items d =
    let (reply, d') = exec get_acl_rules d in
    (answer_reply parse_cidr (hop_interfaces r.store r.next_hop2interface) items reply, d')

abbrev default_rule : Rule
default_rule = record {
  config_items = some (record {
    ipv4_matches = some (record { destination_ipv4 = str "any"; source_ipv4 = str "any" });
    matches = some (record { destination_lower_port = 0; source_lower_port = 0 });
    nexthop1 = none;
    protocol = str "any";
    rule_type = str "allow";
  });
  operation = [];
  rule_id = default_rule_id;
}

-- `SteeringAclCleanup`: all rules go, and the default rule comes back.
unfoldable pub steering_acl_cleanup : {D : Type 0} → Device D → D → Outcome (Unit {0}) × D
unfolding request request_and_commit
steering_acl_cleanup exec d =
    let (answer, d') = request exec delete_acl_rules d in
    elim answer [
      | ok _ ↦ request_and_commit exec (edit_acl_rules (default_rule ∷ [])) d'
      | err e ↦ (err e, d')
      | crash ↦ (crash, d')
    ]
