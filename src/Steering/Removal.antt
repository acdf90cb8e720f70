-- ===== src/Steering/Removal.antt =====
-- What `RemoveSteer` (pkg/hal/hal.go) does to the rule cache, on success and on failure.
use vmw_tsf.Prelude.{
  ℕ, Str, ◌≡◌, ◌≢◌, refl, ap, ◌∙◌, Bool, true, false, List, [], ◌∷◌, ◌++◌, some, arith, eqb,
  str_eqb, str_eqb_iff, if◌then◌else◌, str_eq, nat_eq, Bool-cases, inl, inr, ◌⊎◌, ◌↔◌,
}
use vmw_tsf.Prelude.Map.{Map, lookup, delete, lookup-delete, IsMap}
use vmw_tsf.Outcome.{Outcome, ok, err, crash}
use vmw_tsf.Flow.{FlowKey, as_key}
use vmw_tsf.Netconf.{Device, edit_acl_rules, request_and_commit}
use vmw_tsf.Steering.{
  Acl, ids_of, ids_to_remove, delete_all, rules_of_ids, remove_ids, remove_steer, on_ok,
}

abbrev Among : ℕ → List ℕ → Type 0
Among id [] = ⊥
Among id (i ∷ is) = (id ≡ i) ⊎ Among id is

-- The key of one of the flows.
abbrev pub IsKeyOf : Str → List FlowKey → Type 0
IsKeyOf v [] = ⊥
IsKeyOf v (fk ∷ fks) = (v ≡ as_key fk) ⊎ IsKeyOf v fks

Among-append_left : (id : ℕ) (is js : List ℕ) → Among id is → Among id (is ++ js)
Among-append_left id [] js h = absurd h
Among-append_left id (i ∷ is) js (inl h) = inl h
Among-append_left id (i ∷ is) js (inr h) = inr (Among-append_left id is js h)

Among-append_right : (id : ℕ) (is js : List ℕ) → Among id js → Among id (is ++ js)
Among-append_right id [] js h = h
Among-append_right id (i ∷ is) js h = inr (Among-append_right id is js h)

Among-cases : (id : ℕ) (is js : List ℕ) → Among id (is ++ js) → Among id is ⊎ Among id js
Among-cases id [] js h = inr h
Among-cases id (i ∷ is) js (inl h) = inl (inl h)
Among-cases id (i ∷ is) js (inr h) = elim (Among-cases id is js h) [
  | inl l ↦ inl (inr l)
  | inr r ↦ inr r
]

-- The ids of a key are those that the cache holds for it.
ids_of_complete :
    (key : Str) (m : Map ℕ Str) (id : ℕ) → lookup id m ≡ some key → Among id (ids_of key m)
unfolding ids_of lookup
ids_of_complete key [] id h = absurd (cc)
ids_of_complete key ((k, v) ∷ rest) id h = elim (Bool-cases (eqb k id)) [
  | inl here ↦ rw (own here, ids_of) (inl (ground arith))
  | inr there ↦ later (str_eqb key v) (ids_of_complete key rest id (ground arith))
]
  where
    own : eqb k id ≡ true → str_eqb key v ≡ true
    own here = ground (arith, str_eqb_iff key v)

    later :
        (b : Bool)
        → Among id (ids_of key rest)
        → Among id (if b then k ∷ ids_of key rest else ids_of key rest)
    later true a = inr a
    later false a = a

Among-if :
    (b : Bool) (k id : ℕ) (is : List ℕ)
    → Among id (if b then k ∷ is else is)
    → ((b ≡ true) × (id ≡ k)) ⊎ Among id is
Among-if true k id is (inl e) = inl (refl, e)
Among-if true k id is (inr a) = inr a
Among-if false k id is a = inr a

ids_of_sound :
    (key : Str) (m : Map ℕ Str) (id : ℕ)
    → IsMap m
    → Among id (ids_of key m)
    → lookup id m ≡ some key
unfolding ids_of lookup
ids_of_sound key [] id im h = absurd h
ids_of_sound key ((k, v) ∷ rest) id im h =
    elim (Among-if (str_eqb key v) k id (ids_of key rest) h) [
      | inl (same, e) ↦ ground (arith, str_eqb_iff key v)
      | inr later ↦ ground (
        arith,
        ids_of_sound key rest id im.1 later,
        im.0,
        ap (λ j. lookup j rest) {x = k} {y = id},
      )
    ]

ids_to_remove_complete :
    (fks : List FlowKey) (m : Map ℕ Str) (id : ℕ) (v : Str)
    → lookup id m ≡ some v
    → IsKeyOf v fks
    → Among id (ids_to_remove fks m)
unfolding ids_to_remove
ids_to_remove_complete [] m id v h k = absurd k
ids_to_remove_complete (fk ∷ fks) m id v h (inl e) =
    Among-append_left id (ids_of (as_key fk) m) _ (ids_of_complete (as_key fk) m id (h ∙ ap some e))
ids_to_remove_complete (fk ∷ fks) m id v h (inr k) =
    Among-append_right id (ids_of (as_key fk) m) _ (ids_to_remove_complete fks m id v h k)

pub ids_to_remove_sound :
    (fks : List FlowKey) (m : Map ℕ Str) (id : ℕ) (v : Str)
    → IsMap m
    → lookup id m ≡ some v
    → Among id (ids_to_remove fks m)
    → IsKeyOf v fks
unfolding ids_to_remove
ids_to_remove_sound [] m id v im h a = absurd a
ids_to_remove_sound (fk ∷ fks) m id v im h a = elim (Among-cases id (ids_of (as_key fk) m) _ a) [
  | inl mine ↦ inl (ground (arith, ids_of_sound (as_key fk) m id im mine))
  | inr others ↦ inr (ids_to_remove_sound fks m id v im h others)
]

lookup-delete_all_kept :
    (ids : List ℕ) (m : Map ℕ Str) (id : ℕ)
    → ¬ Among id ids
    → lookup id (delete_all ids m) ≡ lookup id m
unfolding delete_all
lookup-delete_all_kept [] m id h = refl
lookup-delete_all_kept (i ∷ is) m id h =
    lookup-delete_all_kept is (delete i m) id (λ a. h (inr a)) ∙ elim (Bool-cases (eqb i id)) [
      | inl same ↦ absurd (h (inl (ground arith)))
      | inr other ↦ ground (arith, lookup-delete i id m)
    ]

lookup-delete_all_left :
    (ids : List ℕ) (m : Map ℕ Str) (id : ℕ) (v : Str)
    → lookup id (delete_all ids m) ≡ some v
    → (lookup id m ≡ some v) × ¬ Among id ids
unfolding delete_all
lookup-delete_all_left [] m id v h = (h, λ a. a)
lookup-delete_all_left (i ∷ is) m id v h =
    let (e, others) = lookup-delete_all_left is (delete i m) id v h in
    let (there, ne) = still i e in
    (there, λ a. elim a [ inl same ↦ ne same | inr later ↦ others later ])
  where
    still : (i : ℕ) → lookup id (delete i m) ≡ some v → (lookup id m ≡ some v) × ¬ (id ≡ i)
    still i e = (ground (arith, lookup-delete i id m), λ same. ground (arith, lookup-delete i id m))

module _ {D : Type 0} (exec : Device D) where
  -- The end of `RemoveSteer`, by the answer of the device.
  abbrev Ended : List ℕ → Acl → Outcome (Unit {0}) × Acl × D → Type 0
  Ended ids acl (answer, acl', d') =
      ((answer ≢ ok tt) × (acl' ≡ acl))
      ⊎ ((answer ≡ ok tt) × (acl' ≡ record acl { rules = delete_all ids acl.rules }))

  remove_ids-Ended : (ids : List ℕ) (acl : Acl) (d : D) → Ended ids acl (remove_ids exec ids acl d)
  unfolding remove_ids
  remove_ids-Ended [] acl d = inr (refl, refl)
  remove_ids-Ended (id ∷ ids) acl d =
      by_answer (request_and_commit exec (edit_acl_rules (rules_of_ids (id ∷ ids))) d).0
    where
      by_answer :
          (o : Outcome (Unit {0}))
          → ((o ≢ ok tt)
              × (◌≡◌ {A = Acl}
                  (record acl { rules = on_ok o (delete_all (id ∷ ids) acl.rules) acl.rules })
                  acl))
            ⊎ ((o ≡ ok tt)
                × (◌≡◌ {A = Acl}
                    (record acl { rules = on_ok o (delete_all (id ∷ ids) acl.rules) acl.rules })
                    (record acl { rules = delete_all (id ∷ ids) acl.rules })))
      by_answer (ok tt) = inr (refl, refl)
      by_answer (err e) = inl ((λ h. cc), refl)
      by_answer crash = inl ((λ h. cc), refl)

  -- A call of `RemoveSteer` that does not succeed changes neither the rule cache nor
  -- `accessListID`.
  pub remove_steer_failed :
      (fks : List FlowKey) (acl : Acl) (d : D)
      → (remove_steer exec fks acl d).0 ≢ ok tt
      → (remove_steer exec fks acl d).1 ≡ acl
  unfolding remove_steer
  remove_steer_failed fks acl d h = elim (remove_ids-Ended (ids_to_remove fks acl.rules) acl d) [
    | inl failure ↦ failure.1
    | inr success ↦ absurd (h success.0)
  ]

  -- A successful call of `RemoveSteer`, on a cache that holds each id once, removes exactly the
  -- rules of the given flows, under all their ids, and leaves `accessListID` alone.
  pub remove_steer_lem :
      (fks : List FlowKey) (acl : Acl) (d : D)
      → IsMap acl.rules
      → (remove_steer exec fks acl d).0 ≡ ok tt
      → let acl' = (remove_steer exec fks acl d).1 in
        ((id : ℕ) (v : Str)
          → (lookup id acl'.rules ≡ some v) ↔ ((lookup id acl.rules ≡ some v) × ¬ IsKeyOf v fks))
        × (acl'.access_list_id ≡ acl.access_list_id)
  unfolding remove_steer
  remove_steer_lem fks acl d im h =
      let ids = ids_to_remove fks acl.rules in
      elim (remove_ids-Ended ids acl d) [
        | inl failure ↦ absurd (failure.0 h)
        | inr success ↦ rw success.1 ((λ id v. (left id v, kept id v)), refl)
      ]
    where
      left :
          (id : ℕ) (v : Str)
          → lookup id (delete_all (ids_to_remove fks acl.rules) acl.rules) ≡ some v
          → (lookup id acl.rules ≡ some v) × ¬ IsKeyOf v fks
      left id v e =
          let (there, not_removed) =
            lookup-delete_all_left (ids_to_remove fks acl.rules) acl.rules id v e in
          (there, λ k. not_removed (ids_to_remove_complete fks acl.rules id v there k))

      kept :
          (id : ℕ) (v : Str)
          → (lookup id acl.rules ≡ some v) × ¬ IsKeyOf v fks
          → lookup id (delete_all (ids_to_remove fks acl.rules) acl.rules) ≡ some v
      kept id v (e, other) =
          lookup-delete_all_kept (ids_to_remove fks acl.rules) acl.rules id
            (λ a. other (ids_to_remove_sound fks acl.rules id v im e a))
          ∙ e
