-- ===== src/Collector/Reports.antt =====
-- Which flows `GetFlows` (pkg/hal/hal.go) reports, and on which interfaces.
use vmw_tsf.Prelude.{
  ℕ, ◌≤◌, ◌↔◌, Str, ◌≡◌, refl, sym, Bool, true, false, List, [], ◌∷◌, ◌++◌, Option, none, some,
  arith, str_eqb, str_eqb_refl, if◌then◌else◌, str_eq, Bool-cases, inl, inr, ◌⊎◌, All, subst,
}
use vmw_tsf.Prelude.Int.{ℤ, ◌-ℤ◌}
use vmw_tsf.Prelude.Map.{Map, lookup, lookup-insert}
use vmw_tsf.Registry.{Registry}
use vmw_tsf.Flow.{FlowTelemetry, FlowAggregate, as_key, to_telemetry}
use vmw_tsf.Collector.{
  FlowMessage, Flows, Report, flow_key, label, updated, publish_one, publish, meets, reports,
  get_flows,
}

abbrev pub Has : Report → List Report → Type 0
Has x [] = ⊥
Has x (y ∷ ys) = (x ≡ y) ⊎ Has x ys

Has-later :
    (x y : Report) (ys : List Report) (b : Bool) → Has x ys → Has x (if b then y ∷ ys else ys)
Has-later x y ys true h = inr h
Has-later x y ys false h = h

Has-here : (x : Report) (ys : List Report) (b : Bool) → b ≡ true → Has x (if b then x ∷ ys else ys)
Has-here x ys true h = inl refl
Has-here x ys false h = absurd (cc)

-- A rate in either direction is at least the threshold.
abbrev pub IsFast : ℕ → FlowTelemetry → Type 0
IsFast threshold stats = (threshold ≤ stats.rx_rate_bps) ⊎ (threshold ≤ stats.tx_rate_bps)

meets_iff :
    (threshold : ℕ) (stats : FlowTelemetry)
    → (meets threshold stats ≡ true) ↔ IsFast threshold stats
unfolding meets
meets_iff threshold stats = ground arith

-- The report on one of the aggregated flows.
abbrev pub IsReport : ℤ → Map Str FlowAggregate → Report → Type 0
IsReport interval [] x = ⊥
IsReport interval ((k, agg) ∷ rest) x =
    (x ≡ (agg.key, to_telemetry agg interval)) ⊎ IsReport interval rest x

reports_meet :
    (threshold : ℕ) (interval : ℤ) (whole m : Map Str FlowAggregate)
    → ((x : Report) → IsReport interval m x → IsReport interval whole x)
    → All (λ x. IsFast threshold x.1 × IsReport interval whole x) (reports threshold interval m)
unfolding reports
reports_meet threshold interval whole [] embed = tt
reports_meet threshold interval whole ((k, agg) ∷ rest) embed =
    let later = reports_meet threshold interval whole rest (λ x h. embed x (inr h)) in
    elim (Bool-cases (meets threshold (to_telemetry agg interval))) [
      | inl e ↦
          rw (e, reports)
            (
              (
                (meets_iff threshold (to_telemetry agg interval)).0 e,
                embed (agg.key, to_telemetry agg interval) (inl refl),
              ),
              later,
            )
      | inr e ↦ rw (e, reports) later
    ]

reports_complete :
    (threshold : ℕ) (interval : ℤ) (m : Map Str FlowAggregate) (k : Str) (agg : FlowAggregate)
    → lookup k m ≡ some agg
    → meets threshold (to_telemetry agg interval) ≡ true
    → Has (agg.key, to_telemetry agg interval) (reports threshold interval m)
unfolding reports lookup
reports_complete threshold interval [] k agg h e = absurd (cc)
reports_complete threshold interval ((j, a) ∷ rest) k agg h e = elim (Bool-cases (str_eqb j k)) [
  | inl here ↦
      subst (λ x. Has (x.key, to_telemetry x interval) (reports threshold interval ((j, a) ∷ rest)))
        (found here)
        (Has-here _ (reports threshold interval rest) (meets threshold (to_telemetry a interval))
          (subst (λ x. meets threshold (to_telemetry x interval) ≡ true) (sym (found here)) e))
  | inr there ↦
      Has-later _ _ (reports threshold interval rest) _
        (reports_complete threshold interval rest k agg (ground arith) e)
]
  where
    found : str_eqb j k ≡ true → a ≡ agg
    found here = ground arith

-- `GetFlows` reports only aggregated flows of which the rate of received or of sent bytes is at
-- least the threshold, and every such flow, with its telemetry over the time since the last call,
-- and leaves an empty aggregate that starts now.
pub get_flows_lem :
    (threshold : ℕ) (debug : Bool) (now : ℤ) (f : Flows)
    → let (visits, rows, g) = get_flows threshold debug now f in
      All (λ x. IsFast threshold x.1 × IsReport (now -ℤ f.start) f.aggregate x) visits
      × ((k : Str) (agg : FlowAggregate)
          → lookup k f.aggregate ≡ some agg
          → IsFast threshold (to_telemetry agg (now -ℤ f.start))
          → Has (agg.key, to_telemetry agg (now -ℤ f.start)) visits)
      × (g.start ≡ now)
      × (g.aggregate ≡ [])
unfolding get_flows
get_flows_lem threshold debug now f = (
  reports_meet threshold (now -ℤ f.start) f.aggregate f.aggregate (λ x h. h),
  λ k agg h fast.
      reports_complete threshold (now -ℤ f.start) f.aggregate k agg h
        ((meets_iff threshold (to_telemetry agg (now -ℤ f.start))).1 fast),
  refl,
  refl,
)

abbrev pub interfaces_of : Option FlowAggregate → Option (Str × Str)
interfaces_of none = none
interfaces_of (some agg) = some (agg.in_if, agg.out_if)

module _ {S : Type 0} (r : Registry S) where
  publish-append :
      (xs ys : List FlowMessage) (f : Flows)
      → publish r (xs ++ ys) f ≡ publish r ys (publish r xs f)
  unfolding publish
  publish-append [] ys f = refl
  publish-append (x ∷ xs) ys f = publish-append xs ys (publish_one r x f)

  labels-updated :
      (msg : FlowMessage) (o : Option FlowAggregate)
      → interfaces_of (some (updated r msg o)) ≡ some (label r msg.in_if, label r msg.out_if)
  unfolding updated
  labels-updated msg none = refl
  labels-updated msg (some agg) = refl

  publish_one-labels :
      (msg : FlowMessage) (f : Flows)
      → interfaces_of (lookup (as_key (flow_key msg)) (publish_one r msg f).aggregate)
        ≡ some (label r msg.in_if, label r msg.out_if)
  unfolding publish_one
  publish_one-labels msg f =
      let key = as_key (flow_key msg) in
      let agg = updated r msg (lookup key f.aggregate) in
      rw (lookup-insert key key agg f.aggregate, str_eqb_refl key)
        (labels-updated msg (lookup key f.aggregate))

  -- The interfaces of a flow are those of the last message for it, as the registry names them.
  pub publish_labels_last :
      (msgs : List FlowMessage) (msg : FlowMessage) (f : Flows)
      → interfaces_of (lookup (as_key (flow_key msg)) (publish r (msgs ++ msg ∷ []) f).aggregate)
        ≡ some (label r msg.in_if, label r msg.out_if)
  publish_labels_last msgs msg f =
      rw (publish-append msgs (msg ∷ []) f)
        (unfold publish in publish_one-labels msg (publish r msgs f))
