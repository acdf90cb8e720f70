-- ===== src/Steering/Cache.antt =====
-- What `Steer` (pkg/hal/hal.go) does to the rule cache, on success and on failure.
use vmw_tsf.Prelude.{
  ℕ, Str, ◌≡◌, ◌≢◌, refl, sym, ◌∙◌, List, [], ◌∷◌, some, arith, str_eq, nat_eq, Option-cases, inl,
  inr, ◌⊎◌,
}
use vmw_tsf.Prelude.Map.{Map, lookup}
use vmw_tsf.Outcome.{Outcome, ok}
use vmw_tsf.Registry.{Registry}
use vmw_tsf.Flow.{as_key}
use vmw_tsf.Netconf.{Rule, Device, edit_acl_rules, request_and_commit}
use vmw_tsf.Steering.{SteerItem, Acl, Batch, build_batch, insert_all, empty_batch, steer}
use vmw_tsf.Steering.Ids.{IsFresh, IsGood}
use vmw_tsf.Steering.Rules.{AreRulesFor, build-IsGood, build-AreRulesFor}
use vmw_tsf.Steering.Apply.{
  lookup-insert_all, insert_all_cases, insert_all-IsMap, empty_batch-IsGood, IsFresh-at, Applied,
  apply_batch-Applied,
}

module _ {S D : Type 0} (exec : Device D) (r : Registry S) where
  abbrev built : List SteerItem → Acl → Batch × Outcome (Unit {0})
  built items acl = build_batch r acl.rules items (empty_batch acl.access_list_id)

  steered :
      (items : List SteerItem) (acl : Acl) (d : D)
      → Applied exec acl (built items acl).0 (built items acl).1 d (steer exec r items acl d)
  unfolding steer
  steered items acl d = apply_batch-Applied exec acl (built items acl).0 (built items acl).1 d

  -- A call of `Steer` that does not succeed, whether for an unknown next hop, a refused edit or a
  -- refused commit, leaves the rule cache as it was.
  pub steer_failed :
      (items : List SteerItem) (acl : Acl) (d : D)
      → (steer exec r items acl d).0 ≢ ok tt
      → (steer exec r items acl d).1.rules ≡ acl.rules
  steer_failed items acl d h = elim (steered items acl d).1 [
    | inl failure ↦ failure.1
    | inr (inl skipped) ↦ absurd (h skipped.1)
    | inr (inr success) ↦ absurd (h success.1)
  ]

  merged-IsFresh :
      (items : List SteerItem) (acl : Acl)
      → IsFresh acl
      → IsFresh (record {
        rules = insert_all (built items acl).0.rule_idx_map acl.rules;
        access_list_id = (built items acl).0.next_id;
      })
  merged-IsFresh items acl f =
      let (good, grows) = build-IsGood r acl.rules f.is_map items _ (empty_batch-IsGood acl f) in
      let b = (built items acl).0 in
      record {
        is_map = insert_all-IsMap b.rule_idx_map acl.rules f.is_map;
        below = λ id v h. elim (insert_all_cases b.rule_idx_map acl.rules id v good.is_map h) [
          | inl new ↦ good.below id v new
          | inr old ↦ good.cache_below id v old
        ];
      }

  grown-IsFresh :
      (items : List SteerItem) (acl : Acl)
      → IsFresh acl
      → IsFresh (record { rules = acl.rules; access_list_id = (built items acl).0.next_id })
  grown-IsFresh items acl f =
      let grows = (build-IsGood r acl.rules f.is_map items _ (empty_batch-IsGood acl f)).1 in
      record { is_map = f.is_map; below = λ id v h. omega (arith, f.below id v h, grows.ids) }

  -- `Steer`, succeeding or not, keeps the rule cache a map all of whose ids lie below
  -- `accessListID`.
  pub steer-IsFresh :
      (items : List SteerItem) (acl : Acl) (d : D)
      → IsFresh acl
      → IsFresh (steer exec r items acl d).1
  steer-IsFresh items acl d f =
      let (id, ends) = steered items acl d in
      let grown = grown-IsFresh items acl f in
      elim ends [
        | inl failure ↦ IsFresh-at _ _ _ failure.1 id grown
        | inr (inl skipped) ↦ IsFresh-at _ _ _ skipped.3 id grown
        | inr (inr success) ↦ IsFresh-at _ _ _ success.2 id (merged-IsFresh items acl f)
      ]

  AreRulesFor-mono :
      (items : List SteerItem) (idx m : Map ℕ Str) (rules : List Rule)
      → ((id : ℕ) (v : Str) → lookup id idx ≡ some v → lookup id m ≡ some v)
      → AreRulesFor r items idx rules
      → AreRulesFor r items m rules
  AreRulesFor-mono [] idx m [] h a = tt
  AreRulesFor-mono [] idx m (rule ∷ rules) h a = a
  AreRulesFor-mono (item ∷ items) idx m [] h a = a
  AreRulesFor-mono (item ∷ items) idx m (rule ∷ rules) h ((id, ip, known, hop, made), others) = (
    (id, ip, h id (as_key item.rule) known, hop, made),
    AreRulesFor-mono items idx m rules h others,
  )

  AreRulesFor-nil :
      (items : List SteerItem) (idx m : Map ℕ Str)
      → AreRulesFor r items idx []
      → AreRulesFor r items m []
  AreRulesFor-nil [] idx m a = tt
  AreRulesFor-nil (item ∷ items) idx m a = a

  kept_by_merge :
      (cache : Map ℕ Str) (b : Batch)
      → IsGood cache b
      → ((id : ℕ) (v : Str)
          → lookup id cache ≡ some v
          → lookup id (insert_all b.rule_idx_map cache) ≡ some v)
        × ((id : ℕ) (v : Str)
            → lookup id b.rule_idx_map ≡ some v
            → lookup id (insert_all b.rule_idx_map cache) ≡ some v)
  kept_by_merge cache b g = (
    (λ id v h. elim (Option-cases (lookup id b.rule_idx_map)) [
      | inl e ↦ ground (arith, lookup-insert_all b.rule_idx_map cache id g.is_map)
      | inr (w, e) ↦
          ground (arith, lookup-insert_all b.rule_idx_map cache id g.is_map, g.agrees id w v e h)
    ]),
    (λ id v h. ground (arith, lookup-insert_all b.rule_idx_map cache id g.is_map)),
  )

  -- A successful call of `Steer` on a fresh cache, a map whose ids lie below `accessListID`, keeps
  -- every rule of the cache under its id. There are rules, one for each item in order, each under
  -- an id that the cache now holds for the item's flow and with the address of its next hop; either
  -- there are none and the device was left alone, or one edit with exactly these rules and a commit
  -- were carried out on the device.
  pub steer_lem :
      (items : List SteerItem) (acl : Acl) (d : D)
      → IsFresh acl
      → (steer exec r items acl d).0 ≡ ok tt
      → let (answer, acl', d') = steer exec r items acl d in
        ((id : ℕ) (v : Str) → lookup id acl.rules ≡ some v → lookup id acl'.rules ≡ some v)
        × ((rules : List Rule) × AreRulesFor r items acl'.rules rules
            × ((rules ≡ []) × (d' ≡ d)
                ⊎ (request_and_commit exec (edit_acl_rules rules) d ≡ (ok tt, d'))))
  steer_lem items acl d f h =
      let start = empty_batch acl.access_list_id in
      let good₀ = empty_batch-IsGood acl f in
      let b = (built items acl).0 in
      let good = (build-IsGood r acl.rules f.is_map items start good₀).0 in
      let (old, new) = kept_by_merge acl.rules b good in
      elim (steered items acl d).1 [
        | inl failure ↦ absurd (failure.0 h)
        | inr (inl skipped) ↦
            let (rules, all, made) =
              build-AreRulesFor r acl.rules f.is_map items start good₀ skipped.0 in
            let none_made : rules ≡ [] = sym all ∙ skipped.2 in
            (
              (λ id v k. rw skipped.3 k),
              (
                [],
                AreRulesFor-nil items b.rule_idx_map _ (rw none_made at made),
                inl (refl, skipped.4),
              ),
            )
        | inr (inr success) ↦
            let (rules, all, made) =
              build-AreRulesFor r acl.rules f.is_map items start good₀ success.0 in
            (
              (λ id v k. rw success.2 (old id v k)),
              (
                rules,
                rw success.2 (AreRulesFor-mono items b.rule_idx_map _ rules new made),
                inr (rw (← all) success.3),
              ),
            )
      ]
