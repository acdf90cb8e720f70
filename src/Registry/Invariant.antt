-- ===== src/Registry/Invariant.antt =====
-- The invariant of the interface registry of pkg/hal/hal.go, kept by `NewInterface` and
-- `RemoveInterface` whatever the options, the manager and the outcome.
use vmw_tsf.Prelude.{
  ℕ, ◌+◌, ◌-◌, Str, ◌≡◌, refl, ap, ◌∙◌, List, [], ◌∷◌, ◌++◌, Option, none, some, arith, eqb,
  str_eqb, str_eqb_iff, length, get_elem?, get_elem?-append_last, get_elem?-append_some,
  if◌then◌else◌, str_eq, nat_eq, Option-cases, Bool-cases, inl, inr,
}
use vmw_tsf.Prelude.Map.{Map, lookup, insert, lookup-insert, lookup-delete}
use vmw_tsf.Prelude.Sort.{IsSorted, From, sort, sort-IsSorted, count, count-sort, count-append}
use vmw_tsf.Outcome.{Outcome, ok, err, crash}
use vmw_tsf.Registry.{
  Interface, Registry, Manager, OptionInterface, register, unregister, new_interface,
  remove_interface, apply_options, default_interface, add_configured, add_unless_known, remove_at,
  remove_found, remove, init_interfaces,
}

abbrev pub known : Option ℕ → ℕ
known none = 0
known (some p) = 1

abbrev pub name_of : (Interface → Str) → Option Interface → Option Str
name_of name none = none
name_of name (some ifc) = some (name ifc)

abbrev pub upper_of : Option Interface → Option Str
upper_of = name_of (λ ifc. ifc.upper)

-- Every upper name is listed once, as LAN or as WAN, exactly when it is registered; its pointer
-- leads to the interface of that name, and the pointer of a lower name to an interface on it; the
-- WAN names are those with a next hop; the lists are sorted.
pub record IsValid {S : Type 0} (r : Registry S) : Type 0 where
  pub names : (u : Str) → count u r.lan + count u r.wan ≡ known (lookup u r.upper2interface)
  pub owned :
      (u : Str) (p : ℕ)
      → lookup u r.upper2interface ≡ some p
      → upper_of (get_elem? r.store p) ≡ some u
  pub lowers :
      (l : Str) (p : ℕ)
      → lookup l r.lower2interface ≡ some p
      → name_of (λ ifc. ifc.lower) (get_elem? r.store p) ≡ some l
  pub hops :
      (u : Str)
      → lookup u r.next_hop2interface
        ≡ (if eqb (count u r.wan) 0 then none else lookup u r.upper2interface)
  pub lan_sorted : IsSorted r.lan
  pub wan_sorted : IsSorted r.wan

name_of-append :
    (name : Interface → Str) (store : List Interface) (ifc : Interface) (p : ℕ) (u : Str)
    → name_of name (get_elem? store p) ≡ some u
    → name_of name (get_elem? (store ++ ifc ∷ []) p) ≡ some u
name_of-append name store ifc p u h = elim (Option-cases (get_elem? store p)) [
  | inl e ↦ absurd (cc)
  | inr (x, e) ↦ ap (name_of name) (get_elem?-append_some store (ifc ∷ []) p e) ∙ ground arith
]

-- The new entry of a map by names leads to the new place of the store; the others lead where they
-- did.
name_of-insert :
    (name : Interface → Str) (ifc : Interface) (store : List Interface) (m : Map Str ℕ)
    → ((u : Str) (p : ℕ) → lookup u m ≡ some p → name_of name (get_elem? store p) ≡ some u)
    → (u : Str) (p : ℕ) → lookup u (insert (name ifc) (length store) m) ≡ some p
    → name_of name (get_elem? (store ++ ifc ∷ []) p) ≡ some u
name_of-insert name ifc store m v u p h =
    let l = lookup-insert (name ifc) u (length store) m in
    elim (Bool-cases (str_eqb (name ifc) u)) [
      | inl same ↦
          ap (λ q. name_of name (get_elem? (store ++ ifc ∷ []) q)) {x = p} {y = length store}
            (ground arith)
          ∙ ap (name_of name) (get_elem?-append_last store ifc)
          ∙ ap some ((str_eqb_iff (name ifc) u).0 same)
      | inr other ↦ name_of-append name store ifc p u (v u p (ground arith))
    ]

pub count-snoc :
    (u s : Str) (ss : List Str) → count u (sort (ss ++ s ∷ [])) ≡ count u ss + count u (s ∷ [])
count-snoc u s ss = count-sort u (ss ++ s ∷ []) ∙ count-append u ss (s ∷ [])

pub count-remove :
    (u s : Str) (ss : List Str) → count u (remove ss s) ≡ count u ss - count u (s ∷ [])
unfolding remove
count-remove u s [] = ground arith
count-remove u s (t ∷ ts) =
    ground (arith, count-remove u s ts, str_eqb_iff t s, str_eqb_iff s u, str_eqb_iff t u)

From-remove : (t s : Str) (ss : List Str) → From t ss → From t (remove ss s)
unfolding remove
From-remove t s [] h = tt
From-remove t s (u ∷ us) h = ground (arith, From-remove t s us h.1)

pub remove-IsSorted : (s : Str) (ss : List Str) → IsSorted ss → IsSorted (remove ss s)
unfolding remove
remove-IsSorted s [] h = tt
remove-IsSorted s (t ∷ ts) h = ground (arith, From-remove t s ts h.0, remove-IsSorted s ts h.1)

module _ {S : Type 0} (mgr : Manager S) where
  register-hops :
      (ifc : Interface) (r : Registry S)
      → lookup ifc.upper r.upper2interface ≡ none
      → IsValid r
      → (u : Str)
      → lookup u (register mgr ifc r).next_hop2interface ≡ (
          if eqb (count u (register mgr ifc r).wan) 0
          then none
          else lookup u (register mgr ifc r).upper2interface)
  unfolding register
  register-hops ifc r new v u = ground (
    arith,
    v.hops u,
    v.names u,
    str_eqb_iff ifc.upper u,
    count-snoc u ifc.upper r.wan,
    lookup-insert ifc.upper u (length r.store) r.upper2interface,
    lookup-insert ifc.upper u (length r.store) r.next_hop2interface,
  )

  register-IsValid :
      (ifc : Interface) (r : Registry S)
      → lookup ifc.upper r.upper2interface ≡ none
      → IsValid r
      → IsValid (register mgr ifc r)
  unfolding register
  register-IsValid ifc r new v = record {
    names = λ u. rw lookup-insert (
        ground (
          arith,
          v.names u,
          str_eqb_iff ifc.upper u,
          count-snoc u ifc.upper r.wan,
          count-snoc u ifc.upper r.lan,
        ));
    owned = name_of-insert (λ x. x.upper) ifc r.store r.upper2interface v.owned;
    lowers = name_of-insert (λ x. x.lower) ifc r.store r.lower2interface v.lowers;
    hops = λ u. register-hops ifc r new v u;
    lan_sorted = ground (arith, sort-IsSorted (r.lan ++ ifc.upper ∷ []), v.lan_sorted);
    wan_sorted = ground (arith, sort-IsSorted (r.wan ++ ifc.upper ∷ []), v.wan_sorted);
  }

  unregister-IsValid :
      (ifc : Interface) (r : Registry S) → IsValid r → IsValid (unregister mgr ifc r)
  unfolding unregister
  unregister-IsValid ifc r v = record {
    names = λ u. ground (
      arith,
      v.names u,
      lookup-delete ifc.upper u r.upper2interface,
      str_eqb_iff ifc.upper u,
      count-remove u ifc.upper r.wan,
      count-remove u ifc.upper r.lan,
    );
    owned = λ u p h. v.owned u p (ground (arith, lookup-delete ifc.upper u r.upper2interface));
    lowers = λ l p h. v.lowers l p (ground (arith, lookup-delete ifc.lower l r.lower2interface));
    hops = λ u. ground (
      arith,
      v.hops u,
      v.names u,
      lookup-delete ifc.upper u r.upper2interface,
      lookup-delete ifc.upper u r.next_hop2interface,
      count-remove u ifc.upper r.wan,
    );
    lan_sorted = remove-IsSorted ifc.upper r.lan v.lan_sorted;
    wan_sorted = remove-IsSorted ifc.upper r.wan v.wan_sorted;
  }

  -- `NewInterface` keeps the registry valid, whatever the options do.
  pub new_interface-IsValid :
      (options : List OptionInterface) (r : Registry S)
      → IsValid r
      → IsValid (new_interface mgr options r).1
  unfolding new_interface
  new_interface-IsValid options r v = configured (apply_options options default_interface)
    where
      known_or_new :
          (ifc : Interface) (o : Option ℕ)
          → lookup ifc.upper r.upper2interface ≡ o
          → IsValid (add_unless_known mgr ifc r o).1
      known_or_new ifc none e = register-IsValid ifc r e v
      known_or_new ifc (some p) e = v

      configured : (o : Outcome Interface) → IsValid (add_configured mgr r o).1
      configured (ok ifc) = known_or_new ifc (lookup ifc.upper r.upper2interface) refl
      configured (err e) = v
      configured crash = v

  -- `RemoveInterface` keeps the registry valid, also when the monitor refuses the removal.
  pub remove_interface-IsValid :
      (upper : Str) (r : Registry S) → IsValid r → IsValid (remove_interface mgr upper r).1
  unfolding remove_interface
  remove_interface-IsValid upper r v = at (lookup upper r.upper2interface)
    where
      found : (o : Option Interface) → IsValid (remove_found mgr r o).1
      found none = v
      found (some ifc) = unregister-IsValid ifc r v

      at : (o : Option ℕ) → IsValid (remove_at mgr r o).1
      at none = v
      at (some p) = found (get_elem? r.store p)

pub init_interfaces-IsValid : {S : Type 0} (m : Option S) → IsValid (init_interfaces m)
unfolding lookup
init_interfaces-IsValid m = record {
  names = λ u. refl;
  owned = λ u p h. cc;
  lowers = λ l p h. cc;
  hops = λ u. refl;
  lan_sorted = tt;
  wan_sorted = tt;
}
