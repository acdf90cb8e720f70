-- ===== src/Loading/Answers.antt =====
-- What `GetSteerInterface` (pkg/hal/hal.go) answers from the rules of the device.
use vmw_tsf.Prelude.{
  suc, ◌≤◌, Str, ◌≡◌, refl, ◌↔◌, Bool, true, List, [], ◌∷◌, Option, some, map, arith, eqb,
  str_eqb_iff, length, All, if◌then◌else◌, str_eq, Bool-cases, Option-cases, inl, inr,
}
use vmw_tsf.Prelude.Map.{Map, lookup}
use vmw_tsf.Net.{Ip}
use vmw_tsf.Outcome.{ok}
use vmw_tsf.Registry.{Registry}
use vmw_tsf.Flow.{as_key}
use vmw_tsf.Netconf.{Rule, Device, done, get_acl_rules}
use vmw_tsf.Steering.{SteerItem}
use vmw_tsf.Loading.{
  matched, compare_items, steer_answer, response_map, hop_interfaces, get_steer_interface,
}

abbrev pub IsSteered : Map Str Str → SteerItem → Type 0
IsSteered m item = lookup (as_key item.rule) m ≡ some item.next_hop

-- The wanted next hop of a steered item, and "" for another.
abbrev pub confirmed : Map Str Str → SteerItem → Str
confirmed m item = if matched m item then item.next_hop else []

matched_iff : (m : Map Str Str) (item : SteerItem) → (matched m item ≡ true) ↔ IsSteered m item
unfolding matched
matched_iff m item = elim (Option-cases (lookup (as_key item.rule) m)) [
  | inl e ↦ ground (arith, e)
  | inr (v, e) ↦ ground (arith, e, str_eqb_iff v item.next_hop)
]

sum-bound : (m : Map Str Str) (items : List SteerItem) → (compare_items m items).0 ≤ length items
unfolding compare_items
sum-bound m [] = omega arith
sum-bound m (item ∷ items) = ground (arith, sum-bound m items)

names_lem :
    (m : Map Str Str) (items : List SteerItem) → (compare_items m items).1 ≡ map (confirmed m) items
unfolding compare_items
names_lem m [] = refl
names_lem m (item ∷ items) = elim (Bool-cases (matched m item)) [
  | inl e ↦ rw (e, names_lem m items) refl
  | inr e ↦ rw (e, names_lem m items) refl
]

sum_of :
    (m : Map Str Str) (item : SteerItem) (items : List SteerItem)
    → (compare_items m (item ∷ items)).0
      ≡ (if matched m item then suc (compare_items m items).0 else (compare_items m items).0)
unfolding compare_items
sum_of m item items = elim (Bool-cases (matched m item)) [
  | inl e ↦ rw (e) refl
  | inr e ↦ rw (e) refl
]

All-matched :
    (m : Map Str Str) (items : List SteerItem)
    → ((compare_items m items).0 ≡ length items) ↔ All (IsSteered m) items
All-matched m [] = (λ h. tt, λ h. unfold compare_items in refl)
All-matched m (item ∷ items) =
    let one = matched_iff m item in
    let more = All-matched m items in
    let bound = sum-bound m items in
    (
      λ h. ground (arith, sum_of m item items, one, more, bound),
      λ (now, later). ground (arith, sum_of m item items, one.1 now, more.1 later),
    )

-- When the rules of the device's reply make up the response `m`, the status of
-- `GetSteerInterface` is true exactly when `m` gives every item its wanted next hop; the
-- names in the answer stand in the order of the items, each the wanted next hop where `m` gives
-- it, and "" otherwise.
pub get_steer_interface_lem :
    {S D : Type 0} (parse_cidr : Str → Option Ip) (exec : Device D) (r : Registry S)
    (items : List SteerItem) (rules : List Rule) (m : Map Str Str) (d d' : D)
    → exec get_acl_rules d ≡ (done rules, d')
    → response_map parse_cidr (hop_interfaces r.store r.next_hop2interface) rules [] ≡ ok m
    → (status : Bool) × (get_steer_interface parse_cidr exec r items d
        ≡ (ok (status, map (confirmed m) items), d'))
      × ((status ≡ true) ↔ All (IsSteered m) items)
unfolding get_steer_interface steer_answer
get_steer_interface_lem parse_cidr exec r items rules m d d' h k = (
  eqb (compare_items m items).0 (length items),
  rw (h, k, names_lem m items),
  (
    (λ e. (All-matched m items).0 (ground (arith, e))),
    (λ a. ground (arith, (All-matched m items).1 a)),
  ),
)
