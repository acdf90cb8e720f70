-- ===== src/Collector/Conservation.antt =====
-- No byte is lost or counted twice between `Publish` and `GetFlows` (pkg/hal/hal.go).
use vmw_tsf.Prelude.{
  ℕ, ◌+◌, Str, ◌≡◌, refl, ap, Bool, List, [], ◌∷◌, ◌++◌, Option, none, some, arith, str_eqb,
  str_eqb_iff, str_eq,
}
use vmw_tsf.Prelude.Int.{ℤ, ◌-ℤ◌}
use vmw_tsf.Prelude.Map.{Map, lookup, insert}
use vmw_tsf.Registry.{Registry}
use vmw_tsf.Flow.{FlowAggregate, as_key, to_telemetry, u64}
use vmw_tsf.Collector.{
  FlowMessage, Flows, Report, flow_key, updated, publish_one, publish, reports, get_flows,
}
use vmw_tsf.Collector.Histories.{
  when, FlowEvent, arrives, collects, collect_all, history, sent_in, lost_in,
}

-- The bytes of the flow with the text `k`: in an aggregate, in messages, in reports.
abbrev pub pending : Str → Map Str FlowAggregate → ℕ
pending k [] = 0
pending k ((j, agg) ∷ rest) = when j k agg.bytes + pending k rest

abbrev pub sent : Str → List FlowMessage → ℕ
sent k [] = 0
sent k (msg ∷ msgs) = when (as_key (flow_key msg)) k msg.bytes + sent k msgs

abbrev pub reported : Str → List Report → ℕ
reported k [] = 0
reported k ((fk, stats) ∷ rest) = when (as_key fk) k stats.rx_total_bytes + reported k rest

-- Each flow is filed under its own text.
abbrev pub IsKeyed : Map Str FlowAggregate → Type 0
IsKeyed [] = Unit
IsKeyed ((k, agg) ∷ rest) = (as_key agg.key ≡ k) × IsKeyed rest

bytes_of : Option FlowAggregate → ℕ
bytes_of none = 0
bytes_of (some agg) = agg.bytes

pending-insert :
    (k key : Str) (agg : FlowAggregate) (m : Map Str FlowAggregate)
    → pending k (insert key agg m) + when key k (bytes_of (lookup key m))
      ≡ pending k m + when key k agg.bytes
unfolding insert lookup bytes_of
pending-insert k key agg [] = ground arith
pending-insert k key agg ((j, a) ∷ rest) =
    ground (arith, pending-insert k key agg rest, str_eqb_iff j key)

lookup-IsKeyed :
    (key : Str) (m : Map Str FlowAggregate) (agg : FlowAggregate)
    → IsKeyed m
    → lookup key m ≡ some agg
    → as_key agg.key ≡ key
unfolding lookup
lookup-IsKeyed key [] agg h e = cc
lookup-IsKeyed key ((j, a) ∷ rest) agg h e =
    ground (arith, str_eqb_iff j key, lookup-IsKeyed key rest agg h.1)

insert-IsKeyed :
    (key : Str) (agg : FlowAggregate) (m : Map Str FlowAggregate)
    → IsKeyed m
    → as_key agg.key ≡ key
    → IsKeyed (insert key agg m)
unfolding insert
insert-IsKeyed key agg [] h e = (e, tt)
insert-IsKeyed key agg ((j, a) ∷ rest) h e = ground (arith, insert-IsKeyed key agg rest h.1)

module _ {S : Type 0} (r : Registry S) where
  bytes-updated :
      (msg : FlowMessage) (o : Option FlowAggregate)
      → u64 (updated r msg o).bytes ≡ u64 (bytes_of o + msg.bytes)
  unfolding updated bytes_of
  bytes-updated msg none = omega arith
  bytes-updated msg (some agg) = omega arith

  publish_one-pending :
      (k : Str) (msg : FlowMessage) (f : Flows)
      → u64 (pending k (publish_one r msg f).aggregate)
        ≡ u64 (pending k f.aggregate + when (as_key (flow_key msg)) k msg.bytes)
  unfolding publish_one
  publish_one-pending k msg f =
      let key = as_key (flow_key msg) in
      let old = lookup key f.aggregate in
      ground (arith, pending-insert k key (updated r msg old) f.aggregate, bytes-updated msg old)

  pub publish-pending :
      (k : Str) (msgs : List FlowMessage) (f : Flows)
      → u64 (pending k (publish r msgs f).aggregate) ≡ u64 (pending k f.aggregate + sent k msgs)
  unfolding publish
  publish-pending k [] f = omega arith
  publish-pending k (msg ∷ msgs) f =
      omega (arith, publish-pending k msgs (publish_one r msg f), publish_one-pending k msg f)

  key-updated :
      (msg : FlowMessage) (o : Option FlowAggregate)
      → ((agg : FlowAggregate) → o ≡ some agg → as_key agg.key ≡ as_key (flow_key msg))
      → as_key (updated r msg o).key ≡ as_key (flow_key msg)
  unfolding updated
  key-updated msg none h = refl
  key-updated msg (some agg) h = h agg refl

  publish_one-IsKeyed :
      (msg : FlowMessage) (f : Flows)
      → IsKeyed f.aggregate
      → IsKeyed (publish_one r msg f).aggregate
  unfolding publish_one
  publish_one-IsKeyed msg f h =
      let key = as_key (flow_key msg) in
      insert-IsKeyed key _ f.aggregate h
        (key-updated msg (lookup key f.aggregate) (λ agg e. lookup-IsKeyed key f.aggregate agg h e))

  publish-IsKeyed :
      (msgs : List FlowMessage) (f : Flows)
      → IsKeyed f.aggregate
      → IsKeyed (publish r msgs f).aggregate
  unfolding publish
  publish-IsKeyed [] f h = h
  publish-IsKeyed (msg ∷ msgs) f h =
      publish-IsKeyed msgs (publish_one r msg f) (publish_one-IsKeyed msg f h)

reported-reports :
    (k : Str) (interval : ℤ) (m : Map Str FlowAggregate)
    → IsKeyed m
    → reported k (reports 0 interval m) ≡ pending k m
unfolding reports to_telemetry
reported-reports k interval [] h = refl
reported-reports k interval ((j, agg) ∷ rest) h =
    ground (arith, reported-reports k interval rest h.1, ap (λ t. str_eqb t k) h.0)

reported-append :
    (k : Str) (xs ys : List Report) → reported k (xs ++ ys) ≡ reported k xs + reported k ys
reported-append k [] ys = omega arith
reported-append k ((fk, stats) ∷ xs) ys = omega (arith, reported-append k xs ys)

-- Calls of `GetFlows` move the pending bytes to the reports.
collect_all-conserves :
    (k : Str) (debug : Bool) (nows : List ℤ) (f : Flows)
    → IsKeyed f.aggregate
    → let (visits, g) = collect_all 0 debug nows f in
      (reported k visits + pending k g.aggregate ≡ pending k f.aggregate) × IsKeyed g.aggregate
unfolding collect_all get_flows
collect_all-conserves k debug [] f h = (omega arith, h)
collect_all-conserves k debug (now ∷ nows) f h =
    let f' : Flows = record { start = now; aggregate = [] } in
    let (kept, keyed) = collect_all-conserves k debug nows f' tt in
    (
      omega (
        arith,
        kept,
        reported-append k (reports 0 (now -ℤ f.start) f.aggregate) (collect_all 0 debug nows f').0,
        reported-reports k (now -ℤ f.start) f.aggregate h,
      ),
      keyed,
    )

module _ {S : Type 0} where
  -- With no threshold, with every pending flow filed under its own text, and modulo 2 ^ 64 as the
  -- counters are kept: over any history of messages that one thread publishes and calls of
  -- `GetFlows`, one after another, which may come between the steps of `Publish` for a message, the
  -- bytes that are reported for a flow, those still pending, and those of its messages during which
  -- `GetFlows` was called are together those that were pending before and those of its messages. So
  -- the bytes of the former messages are lost, and no others.
  pub conservation :
      (k : Str) (debug : Bool) (es : List (FlowEvent S)) (f : Flows)
      → IsKeyed f.aggregate
      → let (visits, g) = history 0 debug es f in
        u64 (reported k visits + pending k g.aggregate + lost_in k es)
        ≡ u64 (pending k f.aggregate + sent_in k es)
  unfolding history
  conservation k debug [] f h = omega arith
  conservation k debug (arrives r msg [] ∷ es) f h = omega (
    arith,
    conservation k debug es (publish_one r msg f) (publish_one-IsKeyed r msg f h),
    publish_one-pending r k msg f,
  )
  conservation k debug (arrives r msg (now ∷ nows) ∷ es) f h =
      let (kept, keyed) = collect_all-conserves k debug (now ∷ nows) f h in
      let (visits, f') = collect_all 0 debug (now ∷ nows) f in
      omega (
        arith,
        kept,
        conservation k debug es f' keyed,
        reported-append k visits (history 0 debug es f').0,
      )
  conservation k debug (collects now ∷ es) f h =
      let (kept, keyed) = collect_all-conserves k debug (now ∷ []) f h in
      let (visits, f') = collect_all 0 debug (now ∷ []) f in
      omega (
        arith,
        kept,
        conservation k debug es f' keyed,
        reported-append k visits (history 0 debug es f').0,
      )
