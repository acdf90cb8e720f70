-- ===== src/Client/Batch.antt =====
-- The batch loop of cmd/client/main.go. What the HAL and the clock give in a round is a parameter:
-- the registry, the flows that `GetFlows` reports, and the times. Both lists are printed as JSON.
use vmw_tsf.Prelude.{Bool, List, [], ◌∷◌, if◌then◌else◌}
use vmw_tsf.Prelude.Int.{ℤ}
use vmw_tsf.Outcome.{Outcome, ok, ◌>>=◌}
use vmw_tsf.Registry.{Registry}
use vmw_tsf.Flow.{FlowKey, FlowTelemetry}
use vmw_tsf.Client.Output.{BatchOutput, json_interfaces, json_flows}
use vmw_tsf.Client.Accumulate.{Floats, AccumulatedOutput, update_acc_output, copy}

pub record Round (S : Type 0) : Type 0 where
  pub elapsed : ℤ
  pub tick : ℤ
  pub registry : Registry S
  pub reports : List (FlowKey × FlowTelemetry)

pub record Options : Type 0 where
  pub mon_ifc : Bool
  pub mon_flows : Bool

module _ {S : Type 0} (fl : Floats) (opts : Options) where
  unfoldable pub with_interfaces : Round S → BatchOutput → Outcome BatchOutput
  unfolding json_interfaces
  with_interfaces round entry =
      if opts.mon_ifc then json_interfaces round.registry entry round.tick else ok entry

  unfoldable pub with_flows : Round S → BatchOutput → BatchOutput
  unfolding json_flows
  with_flows round entry =
      if opts.mon_flows then json_flows round.reports entry round.tick else entry

  unfoldable pub batch_entry : Round S → Outcome BatchOutput
  unfolding with_interfaces with_flows
  batch_entry round = do
    entry ←
        with_interfaces round
          (record { time = fl.seconds round.elapsed; interfaces = []; flows = [] })
    ok (with_flows round entry)

  unfoldable pub accumulate : AccumulatedOutput → BatchOutput → Round S → AccumulatedOutput
  unfolding update_acc_output
  accumulate acc entry round = record (update_acc_output fl acc entry round.tick) {
    time = fl.seconds round.elapsed;
  }

  -- The loop with `accOpt`: the entries, and a copy of the accumulator after each.
  unfoldable pub batch_loop :
      AccumulatedOutput → List (Round S) → Outcome (List BatchOutput × List AccumulatedOutput)
  unfolding batch_entry accumulate copy
  batch_loop acc [] = ok ([], [])
  batch_loop acc (round ∷ rounds) = do
    entry ← batch_entry round
    (entries, log) ← batch_loop (accumulate acc entry round) rounds
    ok (entry ∷ entries, copy (accumulate acc entry round) ∷ log)
