-- ===== src/Steering/Apply.antt =====
-- The last part of `Steer` (pkg/hal/hal.go): how the batch is sent, and merged into the cache.
use vmw_tsf.Prelude.{
  ℕ, Str, ◌≡◌, ◌≢◌, refl, ap, List, [], ◌∷◌, Option, none, some, arith, str_eq, nat_eq, inl, inr,
  ◌⊎◌,
}
use vmw_tsf.Prelude.Map.{Map, lookup, insert, lookup-insert, IsMap, insert-IsMap}
use vmw_tsf.Outcome.{Outcome, ok, err, crash}
use vmw_tsf.Netconf.{Rule, Device, edit_acl_rules, request_and_commit}
use vmw_tsf.Steering.{Acl, Batch, insert_all, empty_batch, apply_batch, on_ok}
use vmw_tsf.Steering.Ids.{IsFresh, IsGood}

abbrev pub or_else : Option Str → Option Str → Option Str
or_else (some v) o = some v
or_else none o = o

pub lookup-insert_all :
    (idx cache : Map ℕ Str) (id : ℕ)
    → IsMap idx
    → lookup id (insert_all idx cache) ≡ or_else (lookup id idx) (lookup id cache)
unfolding insert_all lookup
lookup-insert_all [] cache id m = refl
lookup-insert_all ((k, v) ∷ rest) cache id m = ground (
  arith,
  lookup-insert_all rest (insert k v cache) id m.1,
  lookup-insert k id v cache,
  ap (λ j. lookup j rest) {x = k} {y = id},
)

pub insert_all_cases :
    (idx cache : Map ℕ Str) (id : ℕ) (v : Str)
    → IsMap idx
    → lookup id (insert_all idx cache) ≡ some v
    → (lookup id idx ≡ some v) ⊎ (lookup id cache ≡ some v)
insert_all_cases idx cache id v m h = ground (arith, lookup-insert_all idx cache id m)

pub insert_all-IsMap : (idx cache : Map ℕ Str) → IsMap cache → IsMap (insert_all idx cache)
unfolding insert_all
insert_all-IsMap [] cache m = m
insert_all-IsMap ((k, v) ∷ rest) cache m =
    insert_all-IsMap rest (insert k v cache) (insert-IsMap k v cache m)

pub empty_batch-IsGood :
    (acl : Acl) → IsFresh acl → IsGood acl.rules (empty_batch acl.access_list_id)
unfolding lookup
empty_batch-IsGood acl f = record {
  is_map = tt;
  agrees = λ id v w h k. cc;
  below = λ id v h. cc;
  cache_below = f.below;
}

pub IsFresh-at :
    (acl : Acl) (rules : Map ℕ Str) (id : ℕ)
    → acl.rules ≡ rules
    → acl.access_list_id ≡ id
    → IsFresh (record { rules = rules; access_list_id = id })
    → IsFresh acl
IsFresh-at acl rules id p q f = record {
  is_map = rw p f.is_map;
  below = λ i v h. rw q (f.below i v (rw p at h));
}

module _ {D : Type 0} (exec : Device D) where
  -- How `apply_batch` can end: it failed, with the cache as before; there was nothing to send; or
  -- one edit with all the rules and a commit were carried out, and the batch is in the cache.
  abbrev pub Failed : Acl → Outcome (Unit {0}) → Acl → Type 0
  Failed acl answer acl' = (answer ≢ ok tt) × (acl'.rules ≡ acl.rules)

  abbrev pub Skipped : Acl → Batch → Outcome (Unit {0}) → D → Outcome (Unit {0}) → Acl → D → Type 0
  Skipped acl b built d answer acl' d' =
      (built ≡ ok tt) × (answer ≡ ok tt) × (b.rules_list ≡ []) × (acl'.rules ≡ acl.rules) × (d' ≡ d)

  abbrev pub Done : Acl → Batch → Outcome (Unit {0}) → D → Outcome (Unit {0}) → Acl → D → Type 0
  Done acl b built d answer acl' d' =
      (built ≡ ok tt)
      × (answer ≡ ok tt)
      × (acl'.rules ≡ insert_all b.rule_idx_map acl.rules)
      × (request_and_commit exec (edit_acl_rules b.rules_list) d ≡ (ok tt, d'))

  abbrev pub Applied : Acl → Batch → Outcome (Unit {0}) → D → Outcome (Unit {0}) × Acl × D → Type 0
  Applied acl b built d (answer, acl', d') =
      (acl'.access_list_id ≡ b.next_id)
      × (Failed acl answer acl'
          ⊎ Skipped acl b built d answer acl' d'
          ⊎ Done acl b built d answer acl' d')

  answered :
      (acl : Acl) (b : Batch) (rule : Rule) (more : List Rule) (d d' : D)
      (answer : Outcome (Unit {0}))
      → b.rules_list ≡ rule ∷ more
      → request_and_commit exec (edit_acl_rules (rule ∷ more)) d ≡ (answer, d')
      → apply_batch exec acl b (ok tt) d ≡ (
        answer,
        record {
          rules = on_ok answer (insert_all b.rule_idx_map acl.rules) acl.rules;
          access_list_id = b.next_id;
        },
        d',
      )
  unfolding apply_batch
  answered acl b rule more d d' answer e q = rw (e, apply_batch) (cc)

  pub apply_batch-Applied :
      (acl : Acl) (b : Batch) (o : Outcome (Unit {0})) (d : D)
      → Applied acl b o d (apply_batch exec acl b o d)
  unfolding apply_batch
  apply_batch-Applied acl b (err e) d = (refl, inl ((λ h. cc), refl))
  apply_batch-Applied acl b crash d = (refl, inl ((λ h. cc), refl))
  apply_batch-Applied acl b (ok _) d = by_rules b.rules_list refl
    where
      by_answer :
          (rule : Rule) (more : List Rule) (answer : Outcome (Unit {0})) (d' : D)
          → b.rules_list ≡ rule ∷ more
          → request_and_commit exec (edit_acl_rules (rule ∷ more)) d ≡ (answer, d')
          → Applied acl b (ok tt) d (apply_batch exec acl b (ok tt) d)
      by_answer rule more (ok _) d' e q =
          rw (answered acl b rule more d d' (ok tt) e q)
            (refl, inr (inr (refl, refl, refl, rw e q)))
      by_answer rule more (err x) d' e q =
          rw (answered acl b rule more d d' (err x) e q) (refl, inl ((λ h. cc), refl))
      by_answer rule more crash d' e q =
          rw (answered acl b rule more d d' crash e q) (refl, inl ((λ h. cc), refl))

      by_rules :
          (rules : List Rule)
          → b.rules_list ≡ rules
          → Applied acl b (ok tt) d (apply_batch exec acl b (ok tt) d)
      by_rules [] e = rw (e, apply_batch) (refl, inr (inl (refl, refl, refl, refl, refl)))
      by_rules (rule ∷ more) e =
          let (answer, d') = request_and_commit exec (edit_acl_rules (rule ∷ more)) d in
          by_answer rule more answer d' e refl
