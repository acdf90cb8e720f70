-- ===== src/Client/Coverage.antt =====
-- Over a batch of cmd/client/main.go nothing that was seen is dropped from the accumulated output.
use vmw_tsf.Prelude.{◌≡◌, Str, Bool, true, false, ◌||◌, List, [], ◌∷◌, Option, none, some, str_eq}
use vmw_tsf.Prelude.Map.{Map, lookup}
use vmw_tsf.Client.Output.{BatchInterfaceOutput, BatchFlowOutput, BatchOutput}
use vmw_tsf.Client.Accumulate.{AccumulatedOutput, flow_output_key}
use vmw_tsf.Client.Tracking.{newest}

unfoldable pub is_some {ℓ} : {A : Type ℓ} → Option A → Bool
is_some none = false
is_some (some a) = true

module _ {V : Type 0} where
  abbrev or_else : Option V → Option V → Option V
  or_else (some v) o = some v
  or_else none o = o

-- An accumulator that has an entry exactly for the names and keys that were seen.
abbrev pub Shows : (Str → Bool) → (Str → Bool) → AccumulatedOutput → Type 0
Shows ifcs flows acc =
    ((name : Str) → is_some (lookup name acc.interfaces) ≡ ifcs name)
    × ((key : Str) → is_some (lookup key acc.flows) ≡ flows key)

abbrev pub with_names : List BatchInterfaceOutput → (Str → Bool) → Str → Bool
with_names vs seen name = is_some (newest (λ v. v.name) name vs) || seen name

abbrev pub with_keys : List BatchFlowOutput → (Str → Bool) → Str → Bool
with_keys vs seen key = is_some (newest flow_output_key key vs) || seen key

-- Each accumulator of a log has an entry exactly for what was seen before the batch or in one of
-- the rounds up to its own.
abbrev pub ShowsAll :
    (Str → Bool) → (Str → Bool) → List BatchOutput → List AccumulatedOutput → Type 0
ShowsAll ifcs flows [] [] = Unit
ShowsAll ifcs flows (e ∷ es) (a ∷ more) =
    Shows (with_names e.interfaces ifcs) (with_keys e.flows flows) a
    × ShowsAll (with_names e.interfaces ifcs) (with_keys e.flows flows) es more
ShowsAll ifcs flows [] (a ∷ more) = true ≡ false
ShowsAll ifcs flows (e ∷ es) [] = true ≡ false
