-- ===== src/Client/Averages.antt =====
-- What the accumulator of cmd/client/main.go holds after an update, and over a batch.
use vmw_tsf.Prelude.{◌≡◌, refl, ◌∙◌, Str, Option, none, some, str_eq}
use vmw_tsf.Prelude.Int.{ℤ, pos}
use vmw_tsf.Prelude.Map.{lookup, IsMap}
use vmw_tsf.Client.Output.{BatchInterfaceOutput, BatchFlowOutput, BatchOutput}
use vmw_tsf.Client.Accumulate.{
  Floats, AccumulatedOutput, update_acc_output, update_acc_interfaces, update_acc_flows,
  average_interface, decay_interface, average_flow, decay_flow, flow_output_key,
}
use vmw_tsf.Client.Tracking.{newest, described, IsKeyed, lookup-merge, merge-IsKeyed}

-- Both maps have each key once, and each entry under its own key.
pub record IsTracking (acc : AccumulatedOutput) : Type 0 where
  pub interfaces : IsMap acc.interfaces × IsKeyed (λ v. v.name) acc.interfaces
  pub flows : IsMap acc.flows × IsKeyed flow_output_key acc.flows

module _ (fl : Floats) where
  update-IsTracking :
      (acc : AccumulatedOutput) (entry : BatchOutput) (interval : ℤ)
      → IsTracking (update_acc_output fl acc entry interval)
  unfolding update_acc_output update_acc_interfaces update_acc_flows flow_output_key
      average_interface decay_interface average_flow decay_flow
  update-IsTracking acc entry interval = record {
    interfaces =
        merge-IsKeyed (λ v. v.name) (average_interface fl) (decay_interface fl interval)
          acc.interfaces entry.interfaces (λ old v. refl) (λ old. refl);
    flows =
        merge-IsKeyed flow_output_key (average_flow fl) (decay_flow fl interval) acc.flows
          entry.flows (λ old v. refl) (λ old. refl);
  }

  -- When the accumulator's entries stand under their keys, each key once, the updated one holds
  -- under each name, and under each flow's key: the last entry of the round, averaged with the
  -- accumulator's if it has one; without an entry in the round, the accumulator's, averaged with
  -- zero; and else nothing. Its entries stand under their keys again.
  pub update_acc_output_lem :
      (acc : AccumulatedOutput) (entry : BatchOutput) (interval : ℤ)
      → IsTracking acc
      → let next = update_acc_output fl acc entry interval in
        ((name : Str)
          → lookup name next.interfaces
            ≡ described
                (λ v. v.name)
                (average_interface fl)
                (decay_interface fl interval)
                (newest (λ v. v.name) name entry.interfaces)
                (lookup name acc.interfaces))
        × ((key : Str)
            → lookup key next.flows
              ≡ described flow_output_key
                  (average_flow fl)
                  (decay_flow fl interval)
                  (newest flow_output_key key entry.flows)
                  (lookup key acc.flows))
        × IsTracking next
  unfolding update_acc_output update_acc_interfaces update_acc_flows
  update_acc_output_lem acc entry interval t = (
    (λ name.
        lookup-merge (λ v. v.name) (average_interface fl) (decay_interface fl interval) name
          acc.interfaces entry.interfaces t.interfaces.0 t.interfaces.1),
    (λ key.
        lookup-merge flow_output_key (average_flow fl) (decay_flow fl interval) key acc.flows
          entry.flows t.flows.0 t.flows.1),
    update-IsTracking acc entry interval,
  )

  known_interface :
      (interval : ℤ) (o : Option BatchInterfaceOutput) (a : BatchInterfaceOutput)
      → (b : BatchInterfaceOutput) × (described
            (λ v. v.name)
            (average_interface fl)
            (decay_interface fl interval)
            o
            (some a)
          ≡ some b)
        × (b.time ≡ pos 0)
  unfolding described average_interface decay_interface
  known_interface interval (some v) a = (average_interface fl a v, refl, refl)
  known_interface interval none a = (decay_interface fl interval a, refl, refl)

  known_flow :
      (interval : ℤ) (o : Option BatchFlowOutput) (a : BatchFlowOutput)
      → (b : BatchFlowOutput) × (described flow_output_key
            (average_flow fl)
            (decay_flow fl interval)
            o
            (some a)
          ≡ some b)
        × (b.time ≡ pos 0)
  unfolding described average_flow decay_flow
  known_flow interval (some v) a = (average_flow fl a v, refl, refl)
  known_flow interval none a = (decay_flow fl interval a, refl, refl)

  -- An update forgets how long an entry has been measured: when the accumulator's entries stand
  -- under their keys, every interface and every flow that it knows is in the updated one with the
  -- time 0, and so with the weight of 0 seconds in the average of the next update.
  pub accumulated_time_is_lost :
      (acc : AccumulatedOutput) (entry : BatchOutput) (interval : ℤ)
      → IsTracking acc
      → let next = update_acc_output fl acc entry interval in
        ((name : Str) (a : BatchInterfaceOutput)
          → lookup name acc.interfaces ≡ some a
          → (b : BatchInterfaceOutput) × (lookup name next.interfaces ≡ some b) × (b.time ≡ pos 0))
        × ((key : Str) (a : BatchFlowOutput)
            → lookup key acc.flows ≡ some a
            → (b : BatchFlowOutput) × (lookup key next.flows ≡ some b) × (b.time ≡ pos 0))
  accumulated_time_is_lost acc entry interval t =
      let (ifcs, flows, keyed) = update_acc_output_lem acc entry interval t in
      (
        (λ name a e.
            let (b, q, z) =
              known_interface interval (newest (λ v. v.name) name entry.interfaces) a in
            (b, ifcs name ∙ rw e q, z)),
        (λ key a e.
            let (b, q, z) = known_flow interval (newest flow_output_key key entry.flows) a in
            (b, flows key ∙ rw e q, z)),
      )
