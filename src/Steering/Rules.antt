-- ===== src/Steering/Rules.antt =====
-- The rules that the loop of `Steer` (pkg/hal/hal.go) sends, item by item.
use mathlib.Core.List.{append_assoc, append-nil}
use vmw_tsf.Prelude.{
  ℕ, Str, ◌≡◌, refl, sym, ap, ◌∙◌, List, [], ◌∷◌, ◌++◌, none, some, Option-cases, inl, inr, str_eq,
  nat_eq,
}
use vmw_tsf.Prelude.Map.{Map, lookup, lookup-insert_self, IsMap}
use vmw_tsf.Net.{Ip}
use vmw_tsf.Outcome.{ok, err, no_interface_with_next_hop}
use vmw_tsf.Registry.{Registry}
use vmw_tsf.Flow.{as_key}
use vmw_tsf.Netconf.{Rule}
use vmw_tsf.Steering.{
  SteerItem, Batch, find_rule_id, steer_rule, add_rule, next_hop_address, build_batch,
}
use vmw_tsf.Steering.Ids.{
  IsGood, Grows, Grows-refl, Grows-trans, add_rule-IsGood, add_rule-Grows, add_rule_fields, id_for,
}

module _ {S : Type 0} (r : Registry S) where
  -- A rule for an item: under an id that stands for its flow, with the address of its next hop.
  abbrev pub IsRuleFor : SteerItem → Map ℕ Str → Rule → Type 0
  IsRuleFor item idx rule =
      (id : ℕ) × (ip : Ip) × (lookup id idx ≡ some (as_key item.rule))
      × (next_hop_address r item.next_hop ≡ some ip)
      × (rule ≡ steer_rule id item.rule ip)

  -- One rule for each item, in order.
  abbrev pub AreRulesFor : List SteerItem → Map ℕ Str → List Rule → Type 0
  AreRulesFor [] idx [] = Unit
  AreRulesFor [] idx (rule ∷ rules) = ⊥
  AreRulesFor (item ∷ items) idx [] = ⊥
  AreRulesFor (item ∷ items) idx (rule ∷ rules) =
      IsRuleFor item idx rule × AreRulesFor items idx rules

  module _ (cache : Map ℕ Str) (m : IsMap cache) where
    abbrev step_batch : SteerItem → Ip → Batch → Batch
    step_batch item ip b = add_rule item.rule ip (find_rule_id (as_key item.rule) cache) b

    -- One round of the loop, by what the next hop leads to.
    build_stops :
        (item : SteerItem) (items : List SteerItem) (b : Batch)
        → next_hop_address r item.next_hop ≡ none
        → build_batch r cache (item ∷ items) b ≡ (b, err (no_interface_with_next_hop item.next_hop))
    unfolding build_batch
    build_stops item items b e = rw (e, build_batch)

    build_goes_on :
        (item : SteerItem) (items : List SteerItem) (b : Batch) (ip : Ip)
        → next_hop_address r item.next_hop ≡ some ip
        → build_batch r cache (item ∷ items) b ≡ build_batch r cache items (step_batch item ip b)
    unfolding build_batch
    build_goes_on item items b ip e = rw (e, build_batch)

    pub build-IsGood :
        (items : List SteerItem) (b : Batch)
        → IsGood cache b
        → IsGood cache (build_batch r cache items b).0 × Grows b (build_batch r cache items b).0
    unfolding build_batch
    build-IsGood [] b g = (g, Grows-refl b)
    build-IsGood (item ∷ items) b g = elim (Option-cases (next_hop_address r item.next_hop)) [
      | inl e ↦ rw (build_stops item items b e) (g, Grows-refl b)
      | inr (ip, e) ↦
          let (g', grows) =
            build-IsGood items (step_batch item ip b) (add_rule-IsGood cache m item.rule ip b g) in
          rw (build_goes_on item items b ip e)
            (g', Grows-trans (add_rule-Grows cache m item.rule ip b g) grows)
    ]

    rule_added :
        (item : SteerItem) (ip : Ip) (b : Batch)
        → next_hop_address r item.next_hop ≡ some ip
        → (rule : Rule) × ((step_batch item ip b).rules_list ≡ b.rules_list ++ rule ∷ [])
          × IsRuleFor item (step_batch item ip b).rule_idx_map rule
    rule_added item ip b e =
        let o = find_rule_id (as_key item.rule) cache in
        let id = id_for o b in
        rw (add_rule_fields item.rule ip o b) (
          steer_rule id item.rule ip,
          refl,
          (id, ip, lookup-insert_self id (as_key item.rule) b.rule_idx_map, e, refl),
        )

    pub build-AreRulesFor :
        (items : List SteerItem) (b : Batch)
        → IsGood cache b
        → (build_batch r cache items b).1 ≡ ok tt
        → (new : List Rule) × ((build_batch r cache items b).0.rules_list ≡ b.rules_list ++ new)
          × AreRulesFor items (build_batch r cache items b).0.rule_idx_map new
    unfolding build_batch
    build-AreRulesFor [] b g h = ([], sym (append-nil b.rules_list), tt)
    build-AreRulesFor (item ∷ items) b g h =
        elim (Option-cases (next_hop_address r item.next_hop)) [
          | inl e ↦ absurd (cc (ap (λ x. x.1) (build_stops item items b e)))
          | inr (ip, e) ↦
              let b' = step_batch item ip b in
              let g' = add_rule-IsGood cache m item.rule ip b g in
              let goes = build_goes_on item items b ip e in
              let (rule, added, what) = rule_added item ip b e in
              let (id, ip', known, hop, made) = what in
              let (new, all, rules) =
                build-AreRulesFor items b' g' (ap (λ x. x.1) (sym goes) ∙ h) in
              let kept = (build-IsGood items b' g').1 in
              rw goes (
                rule ∷ new,
                all ∙ ap (λ l. l ++ new) added ∙ append_assoc b.rules_list (rule ∷ []) new,
                ((id, ip', kept.entries id (as_key item.rule) known, hop, made), rules),
              )
        ]
