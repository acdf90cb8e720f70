-- ===== src/Examples/Mocking.antt =====
-- Runs of pkg/hal/mock.go and of the table of flows of pkg/hal/fmt.go.
use vmw_tsf.Prelude.{Str, ◌≡◌, refl, true, false, List, [], ◌∷◌, str}
use vmw_tsf.Outcome.{Outcome, err, unsupported}
use vmw_tsf.Registry.{InterfaceTelemetry}
use vmw_tsf.Flow.Debugger.{debugger_print}
use vmw_tsf.Mock.{new_dn_hal_mock, mock_init, mock_get_interfaces, visit_entries}

initialized_once :
    new_dn_hal_mock (new_dn_hal_mock (record { initialized = false }))
    ≡ record { initialized = true }
unfolding new_dn_hal_mock mock_init
initialized_once = refl

-- A visitor that gives up at once sees one interface.
abbrev refuse : Str → InterfaceTelemetry → List Str → List Str × Outcome (Unit {0})
refuse name stats seen = (name ∷ seen, err unsupported)

stops_at_an_error : mock_get_interfaces refuse [] ≡ (str "halo1" ∷ [], err unsupported)
unfolding mock_get_interfaces visit_entries
stops_at_an_error = refl

rows_in_order :
    debugger_print (str "b\n" ∷ str "a\n" ∷ [])
    ≡ str
        "Source\tDestination\tProto\tIngress\tEgress\tPkt/sec\tPkt/total\tBytes/sec\tBytes/total\t\n"
      ∷ str
          "------\t-----------\t-----\t-------\t------\t-------\t---------\t---------\t-----------\t\n"
      ∷ str "a\n"
      ∷ str "b\n"
      ∷ []
unfolding debugger_print
rows_in_order = refl
