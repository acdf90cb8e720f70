-- ===== src/Twamp/Tests.antt =====
-- Which tests the set-up in `monitorInterfaces` (pkg/hal/hal.go) leaves.
use vmw_tsf.Prelude.{◌≡◌, ◌⊎◌, Str, true, false, List, [], ◌∷◌, Option, none, some, str_eq}
use vmw_tsf.Prelude.Map.{Map, lookup}
use vmw_tsf.Outcome.{Outcome, ok, err, crash}
use vmw_tsf.Registry.{Interface}
use vmw_tsf.Twamp.{Host, Clock}
use vmw_tsf.Twamp.Control.{TwampSession, connect, start_sessions}
use vmw_tsf.Twamp.Sessions.{Network, create_session, open_test, test_config}

module _ {C T : Type 0} (net : Network C) (host : Host C T) (clock : Clock T) where
  -- The set-up for an interface, begun in a state, got through its steps, each from where the one
  -- before ended: its peer was dialled, the connection accepted, the session granted for its ports
  -- and then started, and the UDP socket opened.
  abbrev pub IsGranted : Interface → C → TwampSession → Type 0
  IsGranted ifc c s =
      (c₁ : C) × (c₂ : C) × (c₃ : C) × (c₄ : C) × (net.dial ifc.twamp_peer c ≡ (ok tt, c₁))
      × (connect host c₁ ≡ (ok tt, c₂))
      × (create_session net host clock (test_config net host clock ifc) c₂ ≡ (ok s, c₃))
      × (start_sessions host c₃ ≡ (ok tt, c₄))
      × ((net.dial_udp s c₄).0 ≡ ok tt)

  -- One of the interfaces has the name, and was granted the session in its turn; each begins
  -- where the set-up for the one before has ended.
  abbrev pub HasGranted : List (Option Interface) → C → Str → TwampSession → Type 0
  HasGranted [] c upper s = true ≡ false
  HasGranted (none ∷ wans) c upper s = true ≡ false
  HasGranted (some ifc ∷ wans) c upper s =
      ((ifc.upper ≡ upper) × IsGranted ifc c s)
      ⊎ HasGranted wans
          (open_test net host clock ifc.twamp_peer (test_config net host clock ifc) c).1 upper s

  abbrev pub Leaves :
      List (Option Interface) → C → Map Str TwampSession → Outcome (Map Str TwampSession) → Type 0
  Leaves wans c tests (ok tests') =
      (upper : Str) (s : TwampSession)
      → lookup upper tests' ≡ some s
      → HasGranted wans c upper s ⊎ (lookup upper tests ≡ some s)
  Leaves wans c tests (err e) = true ≡ false
  Leaves wans c tests crash = Unit
