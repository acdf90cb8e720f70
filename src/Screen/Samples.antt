-- ===== src/Screen/Samples.antt =====
-- The samples of a round of `HostStats.Update` (cmd/stats/main.go): one for each interface.
use vmw_tsf.Prelude.{
  ℕ, ◌≡◌, refl, Str, Bool, true, false, List, [], ◌∷◌, Option, none, some, arith, str_eq,
  Option-cases, inl, inr, str_eqb_iff,
}
use vmw_tsf.Prelude.Map.{Map, lookup, insert, IsMap, insert-IsMap, lookup-insert}
use vmw_tsf.Screen.{
  Received, message, no_message, end_of_stream, failure, IfcStats, IfcStatSample, empty_samples,
  no_sample, take_message, take_received,
}
use vmw_tsf.Screen.Receiving.{take_all}

unfoldable pub is_some {ℓ} : {A : Type ℓ} → Option A → Bool
is_some none = false
is_some (some a) = true

module _ {F : Type 0} where
  -- The samples are a map, with the names of the interfaces.
  pub record IsSampled (ifcs : Map Str (IfcStats F)) (s : Map Str (IfcStatSample F)) : Type 0 where
    pub is_map : IsMap s
    pub covers : (name : Str) → is_some (lookup name s) ≡ is_some (lookup name ifcs)

  empty_samples-IsMap :
      (nought : F) (ifcs : Map Str (IfcStats F)) → IsMap (empty_samples nought ifcs)
  unfolding empty_samples
  empty_samples-IsMap nought [] = tt
  empty_samples-IsMap nought ((name, st) ∷ ifcs) =
      insert-IsMap name _ (empty_samples nought ifcs) (empty_samples-IsMap nought ifcs)

  is_some-empty_samples :
      (nought : F) (ifcs : Map Str (IfcStats F)) (name : Str)
      → is_some (lookup name (empty_samples nought ifcs)) ≡ is_some (lookup name ifcs)
  unfolding empty_samples lookup is_some
  is_some-empty_samples nought [] name = refl
  is_some-empty_samples nought ((k, st) ∷ ifcs) name = ground (
    arith,
    lookup-insert k name (no_sample nought) (empty_samples nought ifcs),
    is_some-empty_samples nought ifcs name,
  )

  pub empty_samples-IsSampled :
      (nought : F) (ifcs : Map Str (IfcStats F)) → IsSampled ifcs (empty_samples nought ifcs)
  empty_samples-IsSampled nought ifcs = record {
    is_map = empty_samples-IsMap nought ifcs;
    covers = is_some-empty_samples nought ifcs;
  }

  overwrite-IsSampled :
      (ifcs : Map Str (IfcStats F)) (s : Map Str (IfcStatSample F)) (name : Str)
      (v w : IfcStatSample F)
      → IsSampled ifcs s
      → lookup name s ≡ some v
      → IsSampled ifcs (insert name w s)
  unfolding is_some
  overwrite-IsSampled ifcs s name v w i e = record {
    is_map = insert-IsMap name w s i.is_map;
    covers = λ other.
        ground (arith, lookup-insert name other w s, i.covers other, e, str_eqb_iff name other);
  }

  take_received-IsSampled :
      (of_uint64 : ℕ → F) (got : Received) (ifcs : Map Str (IfcStats F))
      (s : Map Str (IfcStatSample F))
      → IsSampled ifcs s
      → IsSampled ifcs (take_received of_uint64 got s)
  unfolding take_received take_message
  take_received-IsSampled of_uint64 (message m) ifcs s i = elim (Option-cases (lookup m.name s)) [
    | inl e ↦ rw (e, take_received, take_message) i
    | inr (v, e) ↦ rw (e, take_received, take_message) (overwrite-IsSampled ifcs s m.name v _ i e)
  ]
  take_received-IsSampled of_uint64 no_message ifcs s i = i
  take_received-IsSampled of_uint64 end_of_stream ifcs s i = i
  take_received-IsSampled of_uint64 failure ifcs s i = i

  pub take_all-IsSampled :
      (of_uint64 : ℕ → F) (got : List Received) (ifcs : Map Str (IfcStats F))
      (s : Map Str (IfcStatSample F))
      → IsSampled ifcs s
      → IsSampled ifcs (take_all of_uint64 got s)
  unfolding take_all
  take_all-IsSampled of_uint64 [] ifcs s i = i
  take_all-IsSampled of_uint64 (got ∷ more) ifcs s i =
      take_all-IsSampled of_uint64 more ifcs (take_received of_uint64 got s)
        (take_received-IsSampled of_uint64 got ifcs s i)
