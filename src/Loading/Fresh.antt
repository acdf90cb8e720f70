-- ===== src/Loading/Fresh.antt =====
-- Which ids `InitNetConf` (pkg/hal/hal.go) leaves free for `Steer` after it has loaded the rules.
use vmw_tsf.Prelude.{
  ℕ, ◌+◌, ◌<◌, ◌≤◌, Str, ◌≡◌, refl, ◌∙◌, true, false, List, [], ◌∷◌, Option, none, some, arith, eqb,
  if◌then◌else◌, nat_eq, str_eq, Bool-cases, inl, inr, subst,
}
use vmw_tsf.Prelude.Map.{lookup, lookup-insert, insert_cases, IsMap, insert-IsMap}
use vmw_tsf.Net.{Ip}
use vmw_tsf.Outcome.{ok}
use vmw_tsf.Flow.{FlowKey, as_key}
use vmw_tsf.Netconf.{
  Device, get_acl_rules, done, Rule, RuleConfigItems, Ipv4Matches, L4AclMatch, default_rule_id,
}
use vmw_tsf.Steering.{Acl, acl_rule_cache_add}
use vmw_tsf.Steering.Ids.{IsFresh}
use vmw_tsf.Loading.{loaded_flow, cache_rule, load_rules, load_reply, init_net_conf, flow_of}

-- The parts of a rule that the loading reads are there.
abbrev pub HasMatches : Option RuleConfigItems → Type 0
HasMatches none = ⊥
HasMatches (some c) =
    ((ips : Ipv4Matches) × (c.ipv4_matches ≡ some ips))
    × ((ports : L4AclMatch) × (c.matches ≡ some ports))

-- The rules but the default one have their parts, and ids above `lo` that rise along the list.
abbrev pub IsRising : ℕ → List Rule → Type 0
IsRising lo [] = Unit
IsRising lo (v ∷ vs) =
    if eqb v.rule_id default_rule_id
    then IsRising lo vs
    else HasMatches v.config_items × (lo < v.rule_id) × IsRising v.rule_id vs

-- Ids are at most `lo` and below `accessListID`.
record IsBelow (lo : ℕ) (acl : Acl) : Type 0 where
  is_map : IsMap acl.rules
  small : (id : ℕ) (v : Str) → lookup id acl.rules ≡ some v → id ≤ lo
  below : (id : ℕ) (v : Str) → lookup id acl.rules ≡ some v → id < acl.access_list_id

abbrev pub empty_acl : ℕ → Acl
empty_acl n = record { rules = []; access_list_id = n }

module _ (parse_cidr : Str → Option Ip) where
  loaded_flow-total :
      (v : Rule)
      → HasMatches v.config_items
      → (o : Option FlowKey) × (loaded_flow parse_cidr v ≡ ok o)
  unfolding loaded_flow
  loaded_flow-total v h = by_items v.config_items refl h
    where
      by_addresses :
          (c : RuleConfigItems) (ips : Ipv4Matches) (ports : L4AclMatch) (src dst : Option Ip)
          → v.config_items ≡ some c
          → c.ipv4_matches ≡ some ips
          → c.matches ≡ some ports
          → parse_cidr ips.source_ipv4 ≡ src
          → parse_cidr ips.destination_ipv4 ≡ dst
          → (o : Option FlowKey) × (loaded_flow parse_cidr v ≡ ok o)
      by_addresses c ips ports none dst e i p s d = (none, rw (e, i, s))
      by_addresses c ips ports (some src) none e i p s d = (none, rw (e, i, s, d))
      by_addresses c ips ports (some src) (some dst) e i p s d =
          (some (flow_of c ports src dst), rw (e, i, s, d, p))

      by_items :
          (o : Option RuleConfigItems)
          → v.config_items ≡ o
          → HasMatches o
          → (o : Option FlowKey) × (loaded_flow parse_cidr v ≡ ok o)
      by_items none e h = absurd h
      by_items (some c) e ((ips, i), (ports, p)) =
          by_addresses c ips ports (parse_cidr ips.source_ipv4) (parse_cidr ips.destination_ipv4) e
            i p refl refl

  cache_rule-IsBelow :
      (max_id lo id : ℕ) (o : Option FlowKey) (acl : Acl)
      → max_id ≤ lo
      → lo < id
      → IsBelow lo acl
      → IsBelow id (cache_rule parse_cidr max_id id o acl)
  unfolding cache_rule acl_rule_cache_add
  cache_rule-IsBelow max_id lo id none acl m k b = record {
    is_map = b.is_map;
    small = λ i v h. omega (arith, b.small i v h);
    below = b.below;
  }
  cache_rule-IsBelow max_id lo id (some fk) acl m k b = record {
    is_map = insert-IsMap id (as_key fk) acl.rules b.is_map;
    small = λ i v h. elim (insert_cases id i (as_key fk) v acl.rules h) [
      | inl (same, _) ↦ omega arith
      | inr old ↦ omega (arith, b.small i v old)
    ];
    below = λ i v h. elim (insert_cases id i (as_key fk) v acl.rules h) [
      | inl (same, _) ↦ ground arith
      | inr old ↦ ground (arith, b.small i v old)
    ];
  }

  loads_skip :
      (max_id : ℕ) (v : Rule) (vs : List Rule) (acl : Acl)
      → eqb v.rule_id default_rule_id ≡ true
      → load_rules parse_cidr max_id (v ∷ vs) acl ≡ load_rules parse_cidr max_id vs acl
  unfolding load_rules
  loads_skip max_id v vs acl skip = rw (skip)

  loads_rule :
      (max_id : ℕ) (v : Rule) (vs : List Rule) (acl : Acl) (o : Option FlowKey)
      → eqb v.rule_id default_rule_id ≡ false
      → loaded_flow parse_cidr v ≡ ok o
      → load_rules parse_cidr max_id (v ∷ vs) acl
        ≡ load_rules parse_cidr max_id vs (cache_rule parse_cidr max_id v.rule_id o acl)
  unfolding load_rules
  loads_rule max_id v vs acl o real e = rw (real, e)

  IsRising-rest :
      (lo : ℕ) (v : Rule) (vs : List Rule)
      → eqb v.rule_id default_rule_id ≡ true
      → IsRising lo (v ∷ vs)
      → IsRising lo vs
  IsRising-rest lo v vs skip up =
      subst
        (λ b.
          if b
          then IsRising lo vs
          else HasMatches v.config_items × (lo < v.rule_id) × IsRising v.rule_id vs)
        skip up

  IsRising-parts :
      (lo : ℕ) (v : Rule) (vs : List Rule)
      → eqb v.rule_id default_rule_id ≡ false
      → IsRising lo (v ∷ vs)
      → HasMatches v.config_items × (lo < v.rule_id) × IsRising v.rule_id vs
  IsRising-parts lo v vs real up =
      subst
        (λ b.
          if b
          then IsRising lo vs
          else HasMatches v.config_items × (lo < v.rule_id) × IsRising v.rule_id vs)
        real up

  load_rules-IsBelow :
      (max_id lo : ℕ) (vs : List Rule) (acl : Acl)
      → max_id ≤ lo
      → IsRising lo vs
      → IsBelow lo acl
      → (acl' : Acl) × (load_rules parse_cidr max_id vs acl ≡ ok acl') × IsFresh acl'
  load_rules-IsBelow max_id lo [] acl m up b =
      unfold load_rules in (acl, refl, record { is_map = b.is_map; below = b.below })
  load_rules-IsBelow max_id lo (v ∷ vs) acl m up b =
      elim (Bool-cases (eqb v.rule_id default_rule_id)) [
        | inl skip ↦
            let (acl', e, f) =
              load_rules-IsBelow max_id lo vs acl m (IsRising-rest lo v vs skip up) b in
            (acl', loads_skip max_id v vs acl skip ∙ e, f)
        | inr real ↦
            let (parts, k, later) = IsRising-parts lo v vs real up in
            let (o, found) = loaded_flow-total v parts in
            let (acl', e, f) =
              load_rules-IsBelow max_id v.rule_id vs (cache_rule parse_cidr max_id v.rule_id o acl)
                (omega (arith, m, k)) later (cache_rule-IsBelow max_id lo v.rule_id o acl m k b) in
            (acl', loads_rule max_id v vs acl o real found ∙ e, f)
      ]

  load_reply-IsFresh :
      (n : ℕ) (vs : List Rule)
      → IsRising n vs
      → (acl' : Acl) × (load_reply parse_cidr (done vs) (empty_acl n) ≡ ok acl') × IsFresh acl'
  unfolding load_reply lookup
  load_reply-IsFresh n vs up =
      load_rules-IsBelow n n vs (empty_acl n) (omega arith) up
        (record { is_map = tt; small = λ i v h. cc; below = λ i v h. cc })

  -- When the device answers with rules that have their parts and whose ids, but for the default
  -- rule, rise above `accessListID`, `InitNetConf` on an empty cache does not panic, and
  -- leaves an `accessListID` above every id of the cache.
  pub init_net_conf-IsFresh :
      {D : Type 0} (exec : Device D) (n : ℕ) (vs : List Rule) (d d' : D)
      → exec get_acl_rules d ≡ (done vs, d')
      → IsRising n vs
      → (acl' : Acl) × (init_net_conf parse_cidr exec (empty_acl n) d ≡ (ok acl', d'))
        × IsFresh acl'
  unfolding init_net_conf
  init_net_conf-IsFresh exec n vs d d' h up =
      let (acl', e, f) = load_reply-IsFresh n vs up in (acl', rw (h, e), f)

  stale :
      (max_id id : ℕ) (fk : FlowKey) (w : Rule) (v : Str) (acl : Acl)
      → lookup id acl.rules ≡ some v
      → w.rule_id + 10 ≤ id
      → max_id < w.rule_id
      → ¬ IsFresh (cache_rule parse_cidr max_id w.rule_id (some fk) acl)
  unfolding cache_rule acl_rule_cache_add
  stale max_id id fk w v acl h k up f =
      ground (arith, f.below id v, lookup-insert w.rule_id id (as_key fk) acl.rules)

  cached :
      (n id : ℕ) (fk : FlowKey)
      → lookup id (cache_rule parse_cidr n id (some fk) (empty_acl n)).rules ≡ some (as_key fk)
  unfolding cache_rule acl_rule_cache_add
  cached n id fk = ground (arith, lookup-insert id id (as_key fk) [])

  load_two :
      (n : ℕ) (v w : Rule) (fv fw : FlowKey)
      → loaded_flow parse_cidr v ≡ ok (some fv)
      → loaded_flow parse_cidr w ≡ ok (some fw)
      → eqb v.rule_id default_rule_id ≡ false
      → eqb w.rule_id default_rule_id ≡ false
      → load_reply parse_cidr (done (v ∷ w ∷ [])) (empty_acl n)
        ≡ ok (
            cache_rule parse_cidr n w.rule_id
              (some fw)
              (cache_rule parse_cidr n v.rule_id (some fv) (empty_acl n)))
  unfolding load_reply
  load_two n v w fv fw ev ew rv rw' =
      loads_rule n v (w ∷ []) (empty_acl n) (some fv) rv ev
      ∙ loads_rule n w [] (cache_rule parse_cidr n v.rule_id (some fv) (empty_acl n)) (some fw) rw'
          ew
      ∙ unfold load_rules in refl

  -- `maxID` stays at the first `accessListID`: when the device answers with two rules, neither of
  -- them the default one, whose flows parse, and the second has an id above the first
  -- `accessListID` but at least 10 below the id of the first rule, `InitNetConf` on an empty cache
  -- sets `accessListID` to 10 above the second rule's id. It is then not above every id of the
  -- cache.
  pub unordered_load_is_stale :
      {D : Type 0} (exec : Device D) (n : ℕ) (v w : Rule) (fv fw : FlowKey) (d d' : D)
      → exec get_acl_rules d ≡ (done (v ∷ w ∷ []), d')
      → loaded_flow parse_cidr v ≡ ok (some fv)
      → loaded_flow parse_cidr w ≡ ok (some fw)
      → eqb v.rule_id default_rule_id ≡ false
      → eqb w.rule_id default_rule_id ≡ false
      → n < w.rule_id
      → w.rule_id + 10 ≤ v.rule_id
      → (acl' : Acl) × (init_net_conf parse_cidr exec (empty_acl n) d ≡ (ok acl', d'))
        × (acl'.access_list_id ≡ w.rule_id + 10)
        × (¬ IsFresh acl')
  unfolding init_net_conf
  unordered_load_is_stale exec n v w fv fw d d' h ev ew rv rw' up below =
      let first = cache_rule parse_cidr n v.rule_id (some fv) (empty_acl n) in
      (
        cache_rule parse_cidr n w.rule_id (some fw) first,
        rw (h, load_two n v w fv fw ev ew rv rw') refl,
        unfold cache_rule in ground arith,
        stale n v.rule_id fw w (as_key fv) first (cached n v.rule_id fv) below up,
      )
