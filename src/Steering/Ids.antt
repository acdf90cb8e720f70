-- ===== src/Steering/Ids.antt =====
-- The loop of `Steer` (pkg/hal/hal.go): the ids it gives, and what the batch keeps.
use vmw_tsf.Prelude.{
  ℕ, ◌+◌, ◌<◌, ◌≤◌, Str, ◌≡◌, refl, sym, ap, ◌∙◌, [], ◌∷◌, ◌++◌, Option, none, some, arith,
  str_eqb_iff, str_eq, nat_eq, inl, inr,
}
use vmw_tsf.Prelude.Map.{Map, lookup, insert, lookup-insert, insert_cases, IsMap, insert-IsMap}
use vmw_tsf.Net.{Ip}
use vmw_tsf.Flow.{FlowKey, as_key}
use vmw_tsf.Steering.{Acl, Batch, find_rule_id, steer_rule, add_rule}

-- The cache is a map, and its ids lie below `accessListID`.
pub record IsFresh (acl : Acl) : Type 0 where
  pub is_map : IsMap acl.rules
  pub below : (id : ℕ) (v : Str) → lookup id acl.rules ≡ some v → id < acl.access_list_id

-- A batch never gives an id of the cache to another flow.
pub record IsGood (cache : Map ℕ Str) (b : Batch) : Type 0 where
  pub is_map : IsMap b.rule_idx_map
  pub agrees :
      (id : ℕ) (v w : Str) → lookup id b.rule_idx_map ≡ some v → lookup id cache ≡ some w → v ≡ w
  pub below : (id : ℕ) (v : Str) → lookup id b.rule_idx_map ≡ some v → id < b.next_id
  pub cache_below : (id : ℕ) (v : Str) → lookup id cache ≡ some v → id < b.next_id

lookup_found :
    (key : Str) (id : ℕ) (cache : Map ℕ Str)
    → IsMap cache
    → find_rule_id key cache ≡ some id
    → lookup id cache ≡ some key
unfolding find_rule_id lookup
lookup_found key id [] m h = cc
lookup_found key id ((k, v) ∷ rest) m h =
    ground (arith, lookup_found key id rest m.1, str_eqb_iff v key)

-- The id that `add_rule` uses.
abbrev pub id_for : Option ℕ → Batch → ℕ
id_for none b = b.next_id
id_for (some id) b = id

abbrev next_after : Option ℕ → Batch → ℕ
next_after none b = b.next_id + 10
next_after (some id) b = b.next_id

pub add_rule_fields :
    (fk : FlowKey) (ip : Ip) (o : Option ℕ) (b : Batch)
    → add_rule fk ip o b ≡ record {
      next_id = next_after o b;
      rule_idx_map = insert (id_for o b) (as_key fk) b.rule_idx_map;
      rules_list = b.rules_list ++ steer_rule (id_for o b) fk ip ∷ [];
    }
unfolding add_rule
add_rule_fields fk ip none b = refl
add_rule_fields fk ip (some id) b = refl

-- The id of a flow is its own: in the cache, it already stands for that flow or for none.
pub id_for_own :
    (cache : Map ℕ Str) (b : Batch) (key : Str) (o : Option ℕ)
    → IsMap cache
    → IsGood cache b
    → find_rule_id key cache ≡ o
    → ((w : Str) → lookup (id_for o b) cache ≡ some w → key ≡ w)
      × ((w : Str) → lookup (id_for o b) b.rule_idx_map ≡ some w → key ≡ w)
      × (id_for o b < next_after o b)
      × (b.next_id ≤ next_after o b)
id_for_own cache b key none m g h = (
  (λ w e. absurd (omega (arith, g.cache_below b.next_id w e))),
  (λ w e. absurd (omega (arith, g.below b.next_id w e))),
  omega arith,
  omega arith,
)
id_for_own cache b key (some id) m g h =
    let found = lookup_found key id cache m h in
    ((λ w e. cc), (λ w e. sym (g.agrees id w key e found)), g.cache_below id key found, omega arith)

-- What the batch already says of an id stays.
pub record Grows (b b' : Batch) : Type 0 where
  pub ids : b.next_id ≤ b'.next_id
  pub entries :
      (id : ℕ) (v : Str) → lookup id b.rule_idx_map ≡ some v → lookup id b'.rule_idx_map ≡ some v

pub Grows-refl : (b : Batch) → Grows b b
Grows-refl b = record { ids = omega arith; entries = λ id v h. h }

pub Grows-trans : {a b c : Batch} → Grows a b → Grows b c → Grows a c
Grows-trans h k = record {
  ids = omega (arith, h.ids, k.ids);
  entries = λ id v e. k.entries id v (h.entries id v e);
}

module _ (cache : Map ℕ Str) (m : IsMap cache) where
  pub add_rule-IsGood :
      (fk : FlowKey) (ip : Ip) (b : Batch)
      → IsGood cache b
      → IsGood cache (add_rule fk ip (find_rule_id (as_key fk) cache) b)
  add_rule-IsGood fk ip b g =
      let o = find_rule_id (as_key fk) cache in
      let (own, free, under, grows) = id_for_own cache b (as_key fk) o m g refl in
      rw (add_rule_fields fk ip o b) (record {
        is_map = insert-IsMap (id_for o b) (as_key fk) b.rule_idx_map g.is_map;
        agrees = λ id v w h k. elim (insert_cases (id_for o b) id (as_key fk) v b.rule_idx_map h) [
          | inl (same, e) ↦ sym e ∙ own w (ap (λ j. lookup j cache) same ∙ k)
          | inr old ↦ g.agrees id v w old k
        ];
        below = λ id v h. elim (insert_cases (id_for o b) id (as_key fk) v b.rule_idx_map h) [
          | inl (same, e) ↦ omega arith
          | inr old ↦ omega (arith, g.below id v old)
        ];
        cache_below = λ id v h. omega (arith, g.cache_below id v h);
      })

  pub add_rule-Grows :
      (fk : FlowKey) (ip : Ip) (b : Batch)
      → IsGood cache b
      → Grows b (add_rule fk ip (find_rule_id (as_key fk) cache) b)
  add_rule-Grows fk ip b g =
      let o = find_rule_id (as_key fk) cache in
      let (own, free, under, grows) = id_for_own cache b (as_key fk) o m g refl in
      rw (add_rule_fields fk ip o b) (record {
        ids = grows;
        entries = λ id v h. ground (
          arith,
          lookup-insert (id_for o b) id (as_key fk) b.rule_idx_map,
          free v,
          ap (λ j. lookup j b.rule_idx_map) {x = id_for o b} {y = id},
        );
      })
