-- ===== src/Steering.antt =====
-- Steering of flows by access-list rules: `Steer`, `RemoveSteer`, `GetSteerInterface`, the rule
-- loading of `InitNetConf`, `SteeringAclCleanup` and the rule cache, of pkg/hal/hal.go, with
-- `accessListID` of pkg/hal/netconf_api.go and `GetAclCacheSize` of pkg/hal/stats_server.go.
pub mod Ids
pub mod Rules
pub mod Apply
pub mod Cache
pub mod Removal
use vmw_tsf.Prelude.{
  ℕ, ◌+◌, Str, ◌≡◌, refl, Bool, true, false, ◌&&◌, List, [], ◌∷◌, ◌++◌, Option, none, some, str,
  eqb, ltb, str_eqb, length, if◌then◌else◌, str_eq, nat_eq,
}
use vmw_tsf.Prelude.Map.{Map, lookup, insert, delete}
use vmw_tsf.Net.{Ip, equal}
use vmw_tsf.Net.Text.{ip_text}
use vmw_tsf.Outcome.{Outcome, ok, err, crash, no_interface_with_next_hop}
use vmw_tsf.Registry.{Interface, Registry, find_interface_by_next_hop}
use vmw_tsf.Flow.{FlowKey, as_key, proto_text, tcp, udp}
use vmw_tsf.Netconf.{
  Ipv4Matches, L4AclMatch, RuleConfigItems, Rule, Request, Device, edit_acl_rules, get_acl_rules,
  delete_acl_rules, commit_changes, request, request_and_commit, default_rule_id, Reply, done,
  failed,
}

pub record SteerItem : Type 0 where
  pub rule : FlowKey
  pub next_hop : Str

-- `hal.aclRules` and `accessListID`.
pub record Acl : Type 0 where
  pub rules : Map ℕ Str
  pub access_list_id : ℕ

-- What the loop of `Steer` builds: `accessListID`, `ruleIdxMap` and `rulesList`.
pub record Batch : Type 0 where
  pub next_id : ℕ
  pub rule_idx_map : Map ℕ Str
  pub rules_list : List Rule

-- The first rule with the given key that a `range` over the cache meets.
unfoldable pub find_rule_id : Str → Map ℕ Str → Option ℕ
find_rule_id key [] = none
find_rule_id key ((k, v) ∷ rest) = if str_eqb v key then some k else find_rule_id key rest

unfoldable pub steer_rule : ℕ → FlowKey → Ip → Rule
steer_rule id fk next_hop1 = record {
  rule_id = id;
  operation = [];
  config_items = some (record {
    ipv4_matches = some (record {
      destination_ipv4 = ip_text fk.dst_addr ++ str "/32";
      source_ipv4 = ip_text fk.src_addr ++ str "/32";
    });
    matches =
        some (record { destination_lower_port = fk.dst_port; source_lower_port = fk.src_port });
    nexthop1 = some next_hop1;
    protocol = proto_text fk.protocol;
    rule_type = str "allow";
  });
}

-- A known rule keeps its id; another takes the next one.
unfoldable pub add_rule : FlowKey → Ip → Option ℕ → Batch → Batch
unfolding steer_rule
add_rule fk next_hop1 (some id) b = record b {
  rule_idx_map = insert id (as_key fk) b.rule_idx_map;
  rules_list = b.rules_list ++ steer_rule id fk next_hop1 ∷ [];
}
add_rule fk next_hop1 none b = record {
  next_id = b.next_id + 10;
  rule_idx_map = insert b.next_id (as_key fk) b.rule_idx_map;
  rules_list = b.rules_list ++ steer_rule b.next_id fk next_hop1 ∷ [];
}

module _ {S : Type 0} (r : Registry S) where
  abbrev pub hop_address : Option Interface → Option Ip
  hop_address none = none
  hop_address (some ifc) = some ifc.next_hop

  -- The address for a next hop: nil for "", and `none` for an unknown one.
  unfoldable pub next_hop_address : Str → Option Ip
  next_hop_address nh =
      if str_eqb nh [] then some [] else hop_address (find_interface_by_next_hop nh r)

  -- The loop of `Steer`: the batch so far, and the error that ends it.
  unfoldable pub build_batch : Map ℕ Str → List SteerItem → Batch → Batch × Outcome (Unit {0})
  unfolding add_rule
  build_batch cache [] b = (b, ok tt)
  build_batch cache (item ∷ items) b = elim (next_hop_address item.next_hop) [
    | none ↦ (b, err (no_interface_with_next_hop item.next_hop))
    | some ip ↦
        build_batch cache items (add_rule item.rule ip (find_rule_id (as_key item.rule) cache) b)
  ]

-- `for k, v := range ruleIdxMap { hal.aclRules[k] = v }`.
unfoldable pub insert_all : Map ℕ Str → Map ℕ Str → Map ℕ Str
insert_all [] cache = cache
insert_all ((k, v) ∷ rest) cache = insert_all rest (insert k v cache)

abbrev pub empty_batch : ℕ → Batch
empty_batch id = record { next_id = id; rule_idx_map = []; rules_list = [] }

abbrev pub on_ok {ℓ} : {A : Type ℓ} → Outcome (Unit {0}) → A → A → A
on_ok (ok _) new old = new
on_ok (err e) new old = old
on_ok crash new old = old

module _ {D : Type 0} (exec : Device D) where
  -- `Steer` after its loop.
  unfoldable pub apply_batch : Acl → Batch → Outcome (Unit {0}) → D → Outcome (Unit {0}) × Acl × D
  unfolding insert_all request_and_commit
  apply_batch acl b (err e) d = (err e, record acl { access_list_id = b.next_id }, d)
  apply_batch acl b crash d = (crash, record acl { access_list_id = b.next_id }, d)
  apply_batch acl b (ok _) d = elim b.rules_list [
    | [] ↦ (ok tt, record acl { access_list_id = b.next_id }, d)
    | rule ∷ more ↦
        let (answer, d') = request_and_commit exec (edit_acl_rules (rule ∷ more)) d in
        (
          answer,
          record {
            rules = on_ok answer (insert_all b.rule_idx_map acl.rules) acl.rules;
            access_list_id = b.next_id;
          },
          d',
        )
  ]

module _ {S D : Type 0} (exec : Device D) (r : Registry S) where
  -- `Steer`.
  unfoldable pub steer : List SteerItem → Acl → D → Outcome (Unit {0}) × Acl × D
  unfolding apply_batch build_batch
  steer items acl d =
      let (b, built) = build_batch r acl.rules items (empty_batch acl.access_list_id) in
      apply_batch exec acl b built d

abbrev pub delete_rule : ℕ → Rule
delete_rule id = record { config_items = none; operation = str "delete"; rule_id = id }

unfoldable pub ids_of : Str → Map ℕ Str → List ℕ
ids_of target [] = []
ids_of target ((k, v) ∷ rest) =
    let more = ids_of target rest in if str_eqb target v then k ∷ more else more

unfoldable pub ids_to_remove : List FlowKey → Map ℕ Str → List ℕ
unfolding ids_of
ids_to_remove [] cache = []
ids_to_remove (fk ∷ fks) cache = ids_of (as_key fk) cache ++ ids_to_remove fks cache

unfoldable pub delete_all : List ℕ → Map ℕ Str → Map ℕ Str
delete_all [] cache = cache
delete_all (id ∷ ids) cache = delete_all ids (delete id cache)

unfoldable pub rules_of_ids : List ℕ → List Rule
rules_of_ids [] = []
rules_of_ids (id ∷ ids) = delete_rule id ∷ rules_of_ids ids

module _ {D : Type 0} (exec : Device D) where
  unfoldable pub remove_ids : List ℕ → Acl → D → Outcome (Unit {0}) × Acl × D
  unfolding delete_all request_and_commit
  remove_ids [] acl d = (ok tt, acl, d)
  remove_ids (id ∷ ids) acl d =
      let (answer, d') = request_and_commit exec (edit_acl_rules (rules_of_ids (id ∷ ids))) d in
      (answer, record acl { rules = on_ok answer (delete_all (id ∷ ids) acl.rules) acl.rules }, d')

  -- `RemoveSteer`.
  unfoldable pub remove_steer : List FlowKey → Acl → D → Outcome (Unit {0}) × Acl × D
  unfolding remove_ids ids_to_remove
  remove_steer fks acl d = remove_ids (ids_to_remove fks acl.rules) acl d

-- `AclRuleCacheAdd`, `SetAclRuleIndex`, and `StatsServer.GetAclCacheSize`.
unfoldable pub acl_rule_cache_add : FlowKey → ℕ → Acl → Acl
acl_rule_cache_add fk id acl = record acl { rules = insert id (as_key fk) acl.rules }

unfoldable pub set_acl_rule_index : ℕ → Acl → Acl
set_acl_rule_index id acl = record acl { access_list_id = id }

unfoldable pub get_acl_cache_size : Acl → ℕ
get_acl_cache_size acl = length acl.rules
