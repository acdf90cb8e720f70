-- ===== src/Collector/Histories.antt =====
-- The calls of `Publish` and `GetFlows` (pkg/hal/hal.go) one after the other and in between.
use vmw_tsf.Prelude.{ℕ, ◌+◌, Str, ◌≡◌, refl, Bool, List, [], ◌∷◌, ◌++◌, map, str_eqb, if◌then◌else◌}
use vmw_tsf.Prelude.Int.{ℤ}
use vmw_tsf.Registry.{Registry}
use vmw_tsf.Flow.{as_key}
use vmw_tsf.Collector.{FlowMessage, Flows, Report, flow_key, publish_one, publish, get_flows}

abbrev pub when : Str → Str → ℕ → ℕ
when j k n = if str_eqb j k then n else 0

-- What happens to the collector: a message is filed under the registry of that moment, or
-- `GetFlows` is called, at a time. No lock keeps the two apart: `GetFlows` may be called, at some
-- times, after `Publish` has fetched the aggregate for a message and before it stores the message
-- there. A message that is stored after the swap of `GetFlows`, but before its flow is visited, is
-- reported as one stored before the swap, and stands before the call. One thread publishes, and
-- calls of `GetFlows` do not overlap each other.
pub data FlowEvent (S : Type 0) : Type 0 where
  arrives : Registry S → FlowMessage → List ℤ → FlowEvent S
  collects : ℤ → FlowEvent S

-- Calls of `GetFlows`, one after the other.
unfoldable pub collect_all : ℕ → Bool → List ℤ → Flows → List Report × Flows
collect_all threshold debug [] f = ([], f)
collect_all threshold debug (now ∷ nows) f =
    let (visits, rows, f') = get_flows threshold debug now f in
    let (later, g) = collect_all threshold debug nows f' in (visits ++ later, g)

-- The reports of a history, and the state after it. A message whose aggregate was taken meanwhile
-- is stored in a map that nothing reads any more.
unfoldable pub history : {S : Type 0} → ℕ → Bool → List (FlowEvent S) → Flows → List Report × Flows
unfolding collect_all
history threshold debug [] f = ([], f)
history threshold debug (arrives r msg [] ∷ es) f = history threshold debug es (publish_one r msg f)
history threshold debug (arrives r msg (now ∷ nows) ∷ es) f =
    let (visits, f') = collect_all threshold debug (now ∷ nows) f in
    let (later, g) = history threshold debug es f' in (visits ++ later, g)
history threshold debug (collects now ∷ es) f =
    let (visits, f') = collect_all threshold debug (now ∷ []) f in
    let (later, g) = history threshold debug es f' in (visits ++ later, g)

-- A call of `Publish` during which `GetFlows` is not called is a history.
pub history-publish :
    {S : Type 0} (r : Registry S) (threshold : ℕ) (debug : Bool) (msgs : List FlowMessage)
    (f : Flows)
    → history threshold debug (map (λ msg. arrives r msg []) msgs) f ≡ ([], publish r msgs f)
unfolding history publish
history-publish r threshold debug [] f = refl
history-publish r threshold debug (msg ∷ msgs) f =
    history-publish r threshold debug msgs (publish_one r msg f)

-- The bytes of a flow that arrive, and those of the messages during which `GetFlows` was called.
abbrev pub sent_in : {S : Type 0} → Str → List (FlowEvent S) → ℕ
sent_in k [] = 0
sent_in k (arrives r msg nows ∷ es) = when (as_key (flow_key msg)) k msg.bytes + sent_in k es
sent_in k (collects now ∷ es) = sent_in k es

abbrev pub lost_in : {S : Type 0} → Str → List (FlowEvent S) → ℕ
lost_in k [] = 0
lost_in k (arrives r msg [] ∷ es) = lost_in k es
lost_in k (arrives r msg (now ∷ nows) ∷ es) =
    when (as_key (flow_key msg)) k msg.bytes + lost_in k es
lost_in k (collects now ∷ es) = lost_in k es
