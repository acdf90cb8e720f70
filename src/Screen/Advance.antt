-- ===== src/Screen/Advance.antt =====
-- How the samples of a round move the windows of cmd/stats/main.go: `shift` for every interface.
use vmw_tsf.Prelude.{
  ◌≡◌, ◌≢◌, refl, ◌∙◌, Str, List, [], ◌∷◌, ◌++◌, Option, none, some, arith, drop, str_eq,
  Option-cases, Bool-cases, str_eqb, str_eqb_refl, inl, inr, str_eqb_iff,
}
use vmw_tsf.Prelude.Map.{Map, lookup, insert, IsMap, lookup-insert, insert_cases}
use vmw_tsf.Outcome.{ok}
use vmw_tsf.Screen.{IfcStats, IfcStatSample, shift, shift_sample, shift_all}
use vmw_tsf.Screen.Window.{push, shift-push}

module _ {F : Type 0} where
  -- What one sample makes of an interface's windows.
  unfoldable pub pushed : List F → F → List F
  pushed s e = drop 1 s ++ e ∷ []

  unfoldable pub pushed_stats : IfcStatSample F → IfcStats F → IfcStats F
  unfolding pushed
  pushed_stats v st = record st {
    rx_bps = pushed st.rx_bps v.rx_bps;
    tx_bps = pushed st.tx_bps v.tx_bps;
  }

  unfoldable pub advance : Option (IfcStatSample F) → Option (IfcStats F) → Option (IfcStats F)
  unfolding pushed_stats
  advance none st = st
  advance (some v) none = none
  advance (some v) (some st) = some (pushed_stats v st)

  pub shift-pushed : (s : List F) (e : F) → s ≢ [] → shift s e ≡ ok (pushed s e)
  unfolding pushed push
  shift-pushed [] e h = absurd (h refl)
  shift-pushed (x ∷ s) e h = shift-push (x ∷ s) e

  -- No window is empty.
  abbrev pub IsOpen : Map Str (IfcStats F) → Type 0
  IsOpen ifcs =
      (name : Str) (st : IfcStats F)
      → lookup name ifcs ≡ some st
      → (st.rx_bps ≢ []) × (st.tx_bps ≢ [])

  shift_sample-advance :
      (name : Str) (v : IfcStatSample F) (ifcs : Map Str (IfcStats F)) (st : IfcStats F)
      → lookup name ifcs ≡ some st
      → (st.rx_bps ≢ []) × (st.tx_bps ≢ [])
      → shift_sample name v ifcs ≡ ok (insert name (pushed_stats v st) ifcs)
  unfolding shift_sample pushed_stats
  shift_sample-advance name v ifcs st e (rx, tx) =
      rw (e, shift_sample, shift-pushed st.rx_bps v.rx_bps rx, shift-pushed st.tx_bps v.tx_bps tx)
        refl

  pushed_not_empty : (s : List F) (e : F) → pushed s e ≢ []
  unfolding pushed
  pushed_not_empty [] e h = cc
  pushed_not_empty (x ∷ []) e h = cc
  pushed_not_empty (x ∷ y ∷ s) e h = cc

  insert-IsOpen :
      (name : Str) (st : IfcStats F) (ifcs : Map Str (IfcStats F))
      → (st.rx_bps ≢ []) × (st.tx_bps ≢ [])
      → IsOpen ifcs
      → IsOpen (insert name st ifcs)
  insert-IsOpen name st ifcs o all other other_st e =
      elim (insert_cases name other st other_st ifcs e) [
        | inl (p, q) ↦ rw (← q) o
        | inr old ↦ all other other_st old
      ]

  advance_step :
      (k name : Str) (v : IfcStatSample F) (samples : Map Str (IfcStatSample F)) (st : IfcStats F)
      (ifcs : Map Str (IfcStats F))
      → lookup k samples ≡ none
      → lookup k ifcs ≡ some st
      → advance (lookup name samples) (lookup name (insert k (pushed_stats v st) ifcs))
        ≡ advance (lookup name ((k, v) ∷ samples)) (lookup name ifcs)
  unfolding advance lookup
  advance_step k name v samples st ifcs fresh e = elim (Bool-cases (str_eqb k name)) [
    | inl same ↦
        rw
          (
            lookup-insert k name (pushed_stats v st) ifcs,
            same,
            ← (str_eqb_iff k name).0 same,
            fresh,
            e,
          )
          refl
    | inr other ↦ rw (lookup-insert k name (pushed_stats v st) ifcs, other) refl
  ]

  abbrev pub IsAdvanced :
      Map Str (IfcStatSample F) → Map Str (IfcStats F) → Map Str (IfcStats F) → Type 0
  IsAdvanced samples ifcs ifcs' =
      (name : Str) → lookup name ifcs' ≡ advance (lookup name samples) (lookup name ifcs)

  pub shift_all-IsAdvanced :
      (samples : Map Str (IfcStatSample F)) (ifcs : Map Str (IfcStats F))
      → IsMap samples
      → IsOpen ifcs
      → ((name : Str) → lookup name ifcs ≡ none → lookup name samples ≡ none)
      → (ifcs' : Map Str (IfcStats F)) × (shift_all samples ifcs ≡ ok ifcs')
        × IsAdvanced samples ifcs ifcs'
  unfolding shift_all advance lookup pushed_stats
  shift_all-IsAdvanced [] ifcs m o c = (ifcs, refl, λ name. refl)
  shift_all-IsAdvanced ((k, v) ∷ samples) ifcs m o c = elim (Option-cases (lookup k ifcs)) [
    | inl e ↦ absurd (ground (arith, c k e, str_eqb_refl k))
    | inr (st, e) ↦
        let (ifcs', shifted, all) =
          shift_all-IsAdvanced samples (insert k (pushed_stats v st) ifcs) m.1
            (insert-IsOpen k (pushed_stats v st) ifcs
              (pushed_not_empty st.rx_bps v.rx_bps, pushed_not_empty st.tx_bps v.tx_bps) o)
            (λ name q. ground (arith, c name, lookup-insert k name (pushed_stats v st) ifcs)) in
        (
          ifcs',
          rw (shift_sample-advance k v ifcs st e (o k st e)) shifted,
          λ name. all name ∙ advance_step k name v samples st ifcs m.0 e,
        )
  ]
