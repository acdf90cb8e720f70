-- ===== src/Telemetry/Subscriptions.antt =====
-- The subscriptions of `InterfaceMonitor.Add` (pkg/hal/gnmi.go) with the paths of
-- `interfaceOperPaths` (pkg/hal/hal.go), and that `Update` understands what arrives for them. The
-- parameter is `ygot.StringToPath`, whose error is dropped.
use vmw_tsf.Prelude.{ℕ, Str, ◌≡◌, ◌≢◌, refl, List, [], ◌∷◌, ◌++◌, Option, some, str, ◌%◌, ◌^◌}
use vmw_tsf.Net.Parse.{parse_uint}
use vmw_tsf.Outcome.{ok}
use vmw_tsf.Registry.{InterfaceTelemetry}
use vmw_tsf.Telemetry.{
  PathElem, Update, speed_update, stats_update, update, update_event, interface_name, last_name,
  or_crash,
}

-- One subscription of a request; the request asks for a stream of JSON values.
pub record Subscription : Type 0 where
  pub path : List PathElem
  pub sample_interval : ℕ

module _ (string_to_path : Str → List PathElem) where
  -- The paths of the speed and of the counters.
  unfoldable pub interface_oper_paths : Str → List PathElem × List PathElem
  interface_oper_paths lower = (
    string_to_path (
        str "/drivenets-top/interfaces/interface[name="
        ++ lower
        ++ str "]/oper-items/interface-speed"),
    string_to_path (
        str "/drivenets-top/interfaces/interface[name="
        ++ lower
        ++ str "]/oper-items/counters/ethernet-counters"),
  )

  -- What `Add` subscribes to for a target, with the interval in nanoseconds.
  unfoldable pub subscriptions : ℕ → Str → List Subscription
  unfolding interface_oper_paths
  subscriptions update_interval name =
      let (speed, counters) = interface_oper_paths name in
      record { path = speed; sample_interval = update_interval % 2 ^ 64 }
      ∷ record { path = counters; sample_interval = update_interval % 2 ^ 64 }
      ∷ []

-- The text of a path, with the key "name" in brackets where an element has it.
abbrev key_text : Str → Str → Str
key_text [] rest = rest
key_text (c ∷ cs) rest = str "[name=" ++ (c ∷ cs) ++ b']' ∷ rest

abbrev pub path_text : List PathElem → Str
path_text [] = []
path_text (e ∷ es) = b'/' ∷ e.name ++ key_text e.key_name (path_text es)

abbrev plain_elem : Str → PathElem
plain_elem name = record { name = name; key_name = [] }

abbrev oper_items : Str → List PathElem → List PathElem
oper_items lower rest =
    plain_elem (str "drivenets-top")
    ∷ plain_elem (str "interfaces")
    ∷ record { name = str "interface"; key_name = lower }
    ∷ plain_elem (str "oper-items")
    ∷ rest

abbrev pub speed_path : Str → List PathElem
speed_path lower = oper_items lower (plain_elem (str "interface-speed") ∷ [])

abbrev pub counters_path : Str → List PathElem
counters_path lower =
    oper_items lower (plain_elem (str "counters") ∷ plain_elem (str "ethernet-counters") ∷ [])

-- The device's answer to each subscription, with the values in order.
abbrev pub answers : List Subscription → List Str → List Update
answers [] js = []
answers (s ∷ ss) [] = []
answers (s ∷ ss) (j ∷ js) = record { path = s.path; json = j } ∷ answers ss js

module _ (string_to_path : Str → List PathElem) (unmarshal : Str → Option InterfaceTelemetry) where
  -- When `ygot.StringToPath` reads back the texts of the two paths, and the values parse: what
  -- arrives for the subscriptions that `Add` makes for a target of a name that is not empty becomes
  -- a speed update and then a counter update of that very name.
  pub update-subscriptions :
      (update_interval : ℕ) (lower speed_json stats_json : Str) (speed : ℕ)
      (stats : InterfaceTelemetry)
      → lower ≢ []
      → string_to_path (path_text (speed_path lower)) ≡ speed_path lower
      → string_to_path (path_text (counters_path lower)) ≡ counters_path lower
      → parse_uint 64 speed_json ≡ some speed
      → unmarshal stats_json ≡ some stats
      → update unmarshal (
          answers
            (subscriptions string_to_path update_interval lower)
            (speed_json ∷ stats_json ∷ []))
        ≡ ok (speed_update lower speed ∷ stats_update lower stats ∷ [])
  unfolding subscriptions interface_oper_paths update update_event interface_name last_name or_crash
  update-subscriptions interval [] sj cj speed stats n a b p q = absurd (n refl)
  update-subscriptions interval (c ∷ cs) sj cj speed stats n a b p q = rw (a, b, p, q) refl
