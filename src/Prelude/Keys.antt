-- ===== src/Prelude/Keys.antt =====
-- Go strings, as lists of bytes, and the equality test that map keys need.
-- Models no code of its own.
use Prim.Native.Char.{code}
use Prim.Native.Nat.{ℕ}
use Prim.Native.String.{String}
use mathlib.Core.Path.{◌≡◌, refl}
use mathlib.Core.Logic.{◌↔◌}
use mathlib.Core.Bool.{Bool, true, false, ◌&&◌}
use mathlib.Core.List.{List, [], ◌∷◌}
use native.Mathlib.Omega.{arith}
use vmw_tsf.Prelude.Tests.{eqb, eqb_iff}

-- A Go string: its bytes.
abbrev pub Str : Type 0
Str = List ℕ

-- The bytes of an ASCII literal.
abbrev pub str : String → Str
str String.[] = []
str (String.◌∷◌ c s) = code c ∷ str s

-- What a type of map keys has: a test that decides equality.
pub record MapKey {ℓ} (K : Type ℓ) : Type ℓ where
  pub same : K → K → Bool
  pub same_iff : (i j : K) → (same i j ≡ true) ↔ (i ≡ j)

instance abbrev pub nat_eq : MapKey ℕ
nat_eq = record { same_iff = eqb_iff; same = eqb }

abbrev pub str_eqb : Str → Str → Bool
str_eqb [] [] = true
str_eqb [] (c ∷ t) = false
str_eqb (b ∷ s) [] = false
str_eqb (b ∷ s) (c ∷ t) = eqb b c && str_eqb s t

pub str_eqb_sound : (s t : Str) → str_eqb s t ≡ true → s ≡ t
str_eqb_sound [] [] h = refl
str_eqb_sound [] (c ∷ t) h = cc
str_eqb_sound (b ∷ s) [] h = cc
str_eqb_sound (b ∷ s) (c ∷ t) h = ground (arith, str_eqb_sound s t)

pub str_eqb_refl : (s : Str) → str_eqb s s ≡ true
str_eqb_refl [] = refl
str_eqb_refl (b ∷ s) = ground (arith, str_eqb_refl s)

pub str_eqb_complete : (s t : Str) → s ≡ t → str_eqb s t ≡ true
str_eqb_complete s t h = rw (← h) (str_eqb_refl s)

pub str_eqb_iff : (s t : Str) → (str_eqb s t ≡ true) ↔ (s ≡ t)
str_eqb_iff s t = (str_eqb_sound s t, str_eqb_complete s t)

instance abbrev pub str_eq : MapKey Str
str_eq = record { same_iff = str_eqb_iff; same = str_eqb }
