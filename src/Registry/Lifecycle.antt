-- ===== src/Registry/Lifecycle.antt =====
-- What a client of the registry of pkg/hal/hal.go sees over the life of an interface: the copies
-- of the lists, a removal after an addition, and two interfaces on one lower name.
use vmw_tsf.Prelude.{
  ℕ, ◌+◌, ◌≤◌, Str, ◌≡◌, refl, List, [], ◌∷◌, ◌++◌, Option, none, some, map, arith, str_eqb_iff,
  str_eqb_refl, length, get_elem?, get_elem?-append_last, str_eq, nat_eq, Option-cases, inl, inr,
}
use vmw_tsf.Prelude.Map.{lookup, insert, lookup-insert, lookup-delete}
use vmw_tsf.Prelude.Sort.{IsSorted, sort, sort-IsSorted, count, sorted_unique}
use vmw_tsf.Outcome.{ok}
use vmw_tsf.Registry.{
  Interface, Registry, Manager, OptionInterface, register, unregister, new_interface,
  remove_interface, remove, init_interfaces, copy_interfaces, copy_wan_interfaces,
  copy_lan_interfaces, apply_options, default_interface, find_interface_by_lower, remove_at,
  remove_found,
}
use vmw_tsf.Registry.Invariant.{
  IsValid, upper_of, new_interface-IsValid, remove_interface-IsValid, init_interfaces-IsValid,
  count-snoc, count-remove, remove-IsSorted,
}

-- One call on the registry.
pub data Call : Type 0 where
  adds : List OptionInterface → Call
  removes : Str → Call

module _ {S : Type 0} (mgr : Manager S) where
  unfoldable pub step : Registry S → Call → Registry S
  step r (adds options) = (new_interface mgr options r).1
  step r (removes upper) = (remove_interface mgr upper r).1

  unfoldable pub run : Registry S → List Call → Registry S
  unfolding step
  run r [] = r
  run r (c ∷ cs) = run (step r c) cs

  run-IsValid : (r : Registry S) (cs : List Call) → IsValid r → IsValid (run r cs)
  unfolding run
  run-IsValid r [] v = v
  run-IsValid r (adds options ∷ cs) v =
      run-IsValid (new_interface mgr options r).1 cs (new_interface-IsValid mgr options r v)
  run-IsValid r (removes upper ∷ cs) v =
      run-IsValid (remove_interface mgr upper r).1 cs (remove_interface-IsValid mgr upper r v)

  -- After any sequence of `NewInterface` and `RemoveInterface` calls on the empty registry, with
  -- any options, names and manager, and whatever the calls answer, the registry is valid: the LAN
  -- and WAN lists are sorted and together name each registered interface once, each registered
  -- upper name leads to the interface of that name, each known lower name to an interface on it,
  -- and the next hops are the registered WAN interfaces.
  pub run-init_interfaces-IsValid :
      (m : Option S) (cs : List Call) → IsValid (run (init_interfaces m) cs)
  run-init_interfaces-IsValid m cs = run-IsValid _ cs (init_interfaces-IsValid m)

module _ {S : Type 0} (r : Registry S) (v : IsValid r) where
  copied :
      (us : List Str)
      → ((u : Str) → count u us ≤ count u r.lan + count u r.wan)
      → map upper_of (copy_interfaces us r) ≡ map some us
  unfolding copy_interfaces
  copied [] h = refl
  copied (u ∷ us) h = elim (Option-cases (lookup u r.upper2interface)) [
    | inl e ↦ absurd (ground (arith, h u, v.names u, str_eqb_refl u))
    | inr (p, e) ↦
        rw (e, copy_interfaces) (cc (v.owned u p e, copied us (λ w. ground (arith, h w))))
  ]

  -- In a valid registry the copies of the LAN and WAN lists hold no nil pointer, and are the
  -- interfaces of the listed names, in the order of the lists.
  pub copies_are_listed :
      (map upper_of (copy_lan_interfaces r) ≡ map some r.lan)
      × (map upper_of (copy_wan_interfaces r) ≡ map some r.wan)
  unfolding copy_lan_interfaces copy_wan_interfaces
  copies_are_listed = (copied r.lan (λ u. omega arith), copied r.wan (λ u. omega arith))

-- Two registries that answer every query alike.
pub record SameAnswers {S : Type 0} (a b : Registry S) : Type 0 where
  pub lan : a.lan ≡ b.lan
  pub wan : a.wan ≡ b.wan
  pub upper : (u : Str) → lookup u a.upper2interface ≡ lookup u b.upper2interface
  pub lower : (l : Str) → lookup l a.lower2interface ≡ lookup l b.lower2interface
  pub flow : (i : ℕ) → lookup i a.net_flow2interface ≡ lookup i b.net_flow2interface
  pub hop : (u : Str) → lookup u a.next_hop2interface ≡ lookup u b.next_hop2interface

remove-sort : (s : Str) (ss : List Str) → IsSorted ss → remove (sort (ss ++ s ∷ [])) s ≡ ss
remove-sort s ss h =
    sorted_unique _ ss (remove-IsSorted s _ (sort-IsSorted (ss ++ s ∷ []))) h
      λ u. omega (arith, count-remove u s (sort (ss ++ s ∷ [])), count-snoc u s ss)

remove_absent : (s : Str) (ss : List Str) → count s ss ≡ 0 → remove ss s ≡ ss
unfolding remove
remove_absent s [] h = refl
remove_absent s (t ∷ ts) h = ground (arith, remove_absent s ts)

module _ {S : Type 0} (mgr : Manager S) where
  unregister-register :
      (ifc : Interface) (r : Registry S)
      → IsValid r
      → lookup ifc.upper r.upper2interface ≡ none
      → lookup ifc.lower r.lower2interface ≡ none
      → lookup ifc.net_flow_id r.net_flow2interface ≡ none
      → SameAnswers (unregister mgr ifc (register mgr ifc r)) r
  unfolding register unregister
  unregister-register ifc r v new free unused =
      let p = length r.store in
      let absent = v.names ifc.upper in
      record {
        lan = ground (
          arith,
          absent,
          remove-sort ifc.upper r.lan v.lan_sorted,
          remove_absent ifc.upper r.lan,
        );
        wan = ground (
          arith,
          absent,
          remove-sort ifc.upper r.wan v.wan_sorted,
          remove_absent ifc.upper r.wan,
        );
        upper = λ u. ground (
          arith,
          lookup-delete ifc.upper u (insert ifc.upper p r.upper2interface),
          lookup-insert ifc.upper u p r.upper2interface,
          str_eqb_iff ifc.upper u,
        );
        lower = λ l. ground (
          arith,
          lookup-delete ifc.lower l (insert ifc.lower p r.lower2interface),
          lookup-insert ifc.lower l p r.lower2interface,
          str_eqb_iff ifc.lower l,
        );
        flow = λ i. ground (
          arith,
          lookup-delete ifc.net_flow_id i (insert ifc.net_flow_id p r.net_flow2interface),
          lookup-insert ifc.net_flow_id i p r.net_flow2interface,
        );
        hop = λ u. ground (
          arith,
          v.hops u,
          v.hops ifc.upper,
          absent,
          lookup-delete ifc.upper u (insert ifc.upper p r.next_hop2interface),
          lookup-delete ifc.upper u r.next_hop2interface,
          lookup-insert ifc.upper u p r.next_hop2interface,
          str_eqb_iff ifc.upper u,
        );
      }

  added :
      (options : List OptionInterface) (ifc : Interface) (r : Registry S)
      → apply_options options default_interface ≡ ok ifc
      → lookup ifc.upper r.upper2interface ≡ none
      → (new_interface mgr options r).1 ≡ register mgr ifc r
  unfolding new_interface
  added options ifc r h new = rw (h, new)

  registered :
      (ifc : Interface) (r : Registry S)
      → lookup ifc.upper (register mgr ifc r).upper2interface ≡ some (length r.store)
  unfolding register
  registered ifc r = ground (
    arith,
    lookup-insert ifc.upper ifc.upper (length r.store) r.upper2interface,
    str_eqb_refl ifc.upper,
  )

  stored :
      (ifc : Interface) (r : Registry S)
      → get_elem? (register mgr ifc r).store (length r.store) ≡ some ifc
  unfolding register
  stored ifc r = get_elem?-append_last r.store ifc

  removed :
      (ifc : Interface) (r : Registry S)
      → (remove_interface mgr ifc.upper (register mgr ifc r)).1
        ≡ unregister mgr ifc (register mgr ifc r)
  unfolding remove_interface
  removed ifc r = rw (registered ifc r, remove_at) (rw (stored ifc r, remove_found))

  -- Adding an interface to a valid registry that knows neither its upper name, nor its lower
  -- name, nor its NetFlow id, and removing it by its upper name, leaves the lists and every
  -- answer of the four maps as they were.
  pub remove_interface-new_interface :
      (options : List OptionInterface) (ifc : Interface) (r : Registry S)
      → IsValid r
      → apply_options options default_interface ≡ ok ifc
      → lookup ifc.upper r.upper2interface ≡ none
      → lookup ifc.lower r.lower2interface ≡ none
      → lookup ifc.net_flow_id r.net_flow2interface ≡ none
      → SameAnswers (remove_interface mgr ifc.upper (new_interface mgr options r).1).1 r
  remove_interface-new_interface options ifc r v h new free unused =
      rw (added options ifc r h new)
        (rw (removed ifc r) (unregister-register ifc r v new free unused))

  others_kept :
      (ifc : Interface) (r : Registry S) (u : Str) {p : ℕ}
      → lookup u r.upper2interface ≡ some p
      → lookup ifc.upper r.upper2interface ≡ none
      → lookup u (unregister mgr ifc (register mgr ifc r)).upper2interface ≡ some p
  unfolding register unregister
  others_kept ifc r u h new = ground (
    arith,
    lookup-delete ifc.upper u (insert ifc.upper (length r.store) r.upper2interface),
    lookup-insert ifc.upper u (length r.store) r.upper2interface,
    str_eqb_iff ifc.upper u,
  )

  lower_lost :
      (ifc : Interface) (r : Registry S) (l : Str)
      → ifc.lower ≡ l
      → lookup l (unregister mgr ifc (register mgr ifc r)).lower2interface ≡ none
  unfolding register unregister
  lower_lost ifc r l e = ground (
    arith,
    lookup-delete ifc.lower l (insert ifc.lower (length r.store) r.lower2interface),
    str_eqb_iff ifc.lower l,
  )

  -- `NewInterface` accepts a second interface on a lower name in use. If an interface `a` is
  -- registered, and one with another upper name and the lower name of `a` is added and removed
  -- again, then `a` is still registered, but no interface is found by its lower name.
  pub shared_lower_is_lost :
      (options : List OptionInterface) (a ifc : Interface) (p : ℕ) (r : Registry S)
      → lookup a.upper r.upper2interface ≡ some p
      → apply_options options default_interface ≡ ok ifc
      → lookup ifc.upper r.upper2interface ≡ none
      → ifc.lower ≡ a.lower
      → let q = (remove_interface mgr ifc.upper (new_interface mgr options r).1).1 in
        (lookup a.upper q.upper2interface ≡ some p) × (find_interface_by_lower a.lower q ≡ none)
  unfolding find_interface_by_lower
  shared_lower_is_lost options a ifc p r known_a h new same =
      rw (added options ifc r h new)
        (rw (removed ifc r) (others_kept ifc r a.upper known_a new, lower_lost ifc r a.lower same))
