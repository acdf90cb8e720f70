-- ===== src/Client/Tracking.antt =====
-- The loops of `updateAccInterfaces` and `updateAccFlows` (cmd/client/main.go) by key: what the new
-- accumulator holds under a key, whatever the order in which the maps are visited.
use vmw_tsf.Prelude.{
  ◌≡◌, refl, ap, sym, ◌∙◌, Str, Bool, true, false, List, [], ◌∷◌, Option, none, some, arith, str_eq,
  str_eqb, str_eqb_iff, Option-cases, inl, inr, if◌then◌else◌,
}
use vmw_tsf.Prelude.Map.{Map, lookup, insert, lookup-insert, IsMap, insert-IsMap}
use vmw_tsf.Client.Accumulate.{track, tracked, fade, merge}

module _ {V : Type 0} (key : V → Str) where
  abbrev pub or_last : Option V → Option V → Option V
  or_last (some v) o = some v
  or_last none o = o

  -- The last of the entries with a key.
  unfoldable pub newest : Str → List V → Option V
  newest k [] = none
  newest k (v ∷ rest) = or_last (newest k rest) (if str_eqb (key v) k then some v else none)

  -- Every entry is filed under its own key.
  abbrev pub IsKeyed : Map Str V → Type 0
  IsKeyed [] = Unit
  IsKeyed ((k, v) ∷ m) = (key v ≡ k) × IsKeyed m

  pub insert-IsKeyed :
      (k : Str) (v : V) (m : Map Str V) → key v ≡ k → IsKeyed m → IsKeyed (insert k v m)
  unfolding insert
  insert-IsKeyed k v [] e q = (e, tt)
  insert-IsKeyed k v ((j, w) ∷ m) e q = ground (arith, insert-IsKeyed k v m e q.1)

module _ {V : Type 0} (key : V → Str) (average : V → V → V) (decay : V → V) where
  -- An entry is averaged with the accumulator's, or new; without one the accumulator's decays.
  unfoldable pub described : Option V → Option V → Option V
  described (some v) old = some (tracked key average decay old v)
  described none (some old) = some (decay old)
  described none none = none

  abbrev or_kept : Option V → Option V → Option V → Option V
  or_kept (some v) old kept = some (tracked key average decay old v)
  or_kept none old kept = kept

  or_kept-if :
      (o : Option V) (same : Bool) (v w : V) (old kept : Option V)
      → (same ≡ true → w ≡ tracked key average decay old v)
      → or_kept o old (if same then some w else kept)
        ≡ or_kept (or_last key o (if same then some v else none)) old kept
  or_kept-if (some u) same v w old kept h = refl
  or_kept-if none true v w old kept h = ap some (h refl)
  or_kept-if none false v w old kept h = refl

  lookup-track :
      (k : Str) (acc : Map Str V) (entries : List V) (next : Map Str V)
      → lookup k (track key average decay acc entries next)
        ≡ or_kept (newest key k entries) (lookup k acc) (lookup k next)
  unfolding track newest
  lookup-track k acc [] next = refl
  lookup-track k acc (v ∷ rest) next =
      let w = tracked key average decay (lookup (key v) acc) v in
      lookup-track k acc rest (insert (key v) w next)
      ∙ ap (or_kept (newest key k rest) (lookup k acc)) (lookup-insert (key v) k w next)
      ∙ or_kept-if (newest key k rest) (str_eqb (key v) k) v w (lookup k acc) (lookup k next)
          (λ e. ap (λ j. tracked key average decay (lookup j acc) v) ((str_eqb_iff (key v) k).0 e))

  or_faded : Option V → Option V → Option V
  or_faded (some v) old = some v
  or_faded none (some old) = some (decay old)
  or_faded none none = none

  or_faded-none : (o : Option V) → or_faded o none ≡ o
  unfolding or_faded
  or_faded-none (some v) = refl
  or_faded-none none = refl

  or_faded-new :
      (same : Bool) (old : V) (o rest : Option V)
      → (same ≡ true → o ≡ none)
      → or_faded (if same then some (decay old) else o) rest
        ≡ or_faded o (if same then some old else rest)
  unfolding or_faded
  or_faded-new true old o rest h = rw (h refl) refl
  or_faded-new false old o rest h = refl

  or_faded-known :
      (same : Bool) (old w : V) (o rest : Option V)
      → (same ≡ true → o ≡ some w)
      → or_faded o rest ≡ or_faded o (if same then some old else rest)
  unfolding or_faded
  or_faded-known true old w o rest h = rw (h refl) refl
  or_faded-known false old w o rest h = refl

  lookup-fade :
      (k : Str) (acc : Map Str V) (next : Map Str V)
      → IsMap acc
      → IsKeyed key acc
      → lookup k (fade key average decay acc next) ≡ or_faded (lookup k next) (lookup k acc)
  unfolding fade lookup
  lookup-fade k [] next m q = sym (or_faded-none (lookup k next))
  lookup-fade k ((j, old) ∷ rest) next m (named, q) =
      let at_k =
        λ (e : str_eqb j k ≡ true). ap (λ i. lookup i next) (sym ((str_eqb_iff j k).0 e)) in
      elim (Option-cases (lookup j next)) [
        | inl e ↦
            rw (ap (λ i. lookup i next) named ∙ e, fade, named)
              (lookup-fade k rest (insert j (decay old) next) m.1 q
                ∙ ap (λ o. or_faded o (lookup k rest)) (lookup-insert j k (decay old) next)
                ∙ or_faded-new (str_eqb j k) old (lookup k next) (lookup k rest) (λ h. at_k h ∙ e))
        | inr (w, e) ↦
            rw (ap (λ i. lookup i next) named ∙ e, fade)
              (lookup-fade k rest next m.1 q
                ∙ or_faded-known (str_eqb j k) old w (lookup k next) (lookup k rest)
                    (λ h. at_k h ∙ e))
      ]

  key-tracked :
      ((old v : V) → key (average old v) ≡ key v)
      → (o : Option V) (v : V) → key (tracked key average decay o v) ≡ key v
  key-tracked same (some old) v = same old v
  key-tracked same none v = refl

  track-IsKeyed :
      (acc : Map Str V) (entries : List V) (next : Map Str V)
      → ((old v : V) → key (average old v) ≡ key v)
      → IsKeyed key next
      → IsKeyed key (track key average decay acc entries next)
  unfolding track
  track-IsKeyed acc [] next same q = q
  track-IsKeyed acc (v ∷ rest) next same q =
      let w = tracked key average decay (lookup (key v) acc) v in
      track-IsKeyed acc rest (insert (key v) w next) same
        (insert-IsKeyed key (key v) w next (key-tracked same (lookup (key v) acc) v) q)

  fade-IsKeyed :
      (acc next : Map Str V)
      → ((old : V) → key (decay old) ≡ key old)
      → IsKeyed key next
      → IsKeyed key (fade key average decay acc next)
  unfolding fade
  fade-IsKeyed [] next same q = q
  fade-IsKeyed ((j, old) ∷ rest) next same q = elim (Option-cases (lookup (key old) next)) [
    | inl e ↦
        rw (e, fade)
          (fade-IsKeyed rest (insert (key old) (decay old) next) same
            (insert-IsKeyed key (key old) (decay old) next (same old) q))
    | inr (w, e) ↦ rw (e, fade) (fade-IsKeyed rest next same q)
  ]

  track-IsMap :
      (acc : Map Str V) (entries : List V) (next : Map Str V)
      → IsMap next
      → IsMap (track key average decay acc entries next)
  unfolding track
  track-IsMap acc [] next m = m
  track-IsMap acc (v ∷ rest) next m =
      let w = tracked key average decay (lookup (key v) acc) v in
      track-IsMap acc rest (insert (key v) w next) (insert-IsMap (key v) w next m)

  fade-IsMap : (acc next : Map Str V) → IsMap next → IsMap (fade key average decay acc next)
  unfolding fade
  fade-IsMap [] next m = m
  fade-IsMap ((j, old) ∷ rest) next m = elim (Option-cases (lookup (key old) next)) [
    | inl e ↦
        rw (e, fade)
          (fade-IsMap rest (insert (key old) (decay old) next)
            (insert-IsMap (key old) (decay old) next m))
    | inr (w, e) ↦ rw (e, fade) (fade-IsMap rest next m)
  ]

  described_by : (o old : Option V) → or_faded (or_kept o old none) old ≡ described o old
  unfolding or_faded described
  described_by (some v) old = refl
  described_by none (some u) = refl
  described_by none none = refl

  pub lookup-merge :
      (k : Str) (acc : Map Str V) (entries : List V)
      → IsMap acc
      → IsKeyed key acc
      → lookup k (merge key average decay acc entries [])
        ≡ described (newest key k entries) (lookup k acc)
  unfolding merge lookup
  lookup-merge k acc entries m q =
      lookup-fade k acc (track key average decay acc entries []) m q
      ∙ ap (λ o. or_faded o (lookup k acc)) (lookup-track k acc entries [])
      ∙ described_by (newest key k entries) (lookup k acc)

  -- The new accumulator is a map with every entry under its key.
  pub merge-IsKeyed :
      (acc : Map Str V) (entries : List V)
      → ((old v : V) → key (average old v) ≡ key v)
      → ((old : V) → key (decay old) ≡ key old)
      → IsMap (merge key average decay acc entries [])
        × IsKeyed key (merge key average decay acc entries [])
  unfolding merge
  merge-IsKeyed acc entries same_average same_decay =
      let next = track key average decay acc entries [] in
      (
        fade-IsMap acc next (track-IsMap acc entries [] tt),
        fade-IsKeyed acc next same_decay (track-IsKeyed acc entries [] same_average tt),
      )
