-- ===== src/Outcome.antt =====
-- How an operation of the repository ends: with a value, with an error value, or with the end of
-- the process (`log.Fatal`, a `panic` that nothing recovers).
use vmw_tsf.Prelude.{Str, ℕ, ◌≡◌, refl}

pub data Error : Type 0 where
  already_exists : Str → Error
  no_interface_with_next_hop : Str → Error
  monitor_not_removed : Str → Error
  request_failed : Str → Error
  bad_count : Error
  bad_address : Str → Error
  bad_reply : Str → Error
  not_found : Str → Error
  unsupported : Error
  refused : ℕ → Error
  empty_argument : Error

pub data Outcome {ℓ} (A : Type ℓ) : Type ℓ where
  ok : A → Outcome A
  err : Error → Outcome A
  crash : Outcome A

infixl 5 ◌>>=◌ ◌>>◌
abbrev pub ◌>>=◌ {ℓ κ} : {A : Type ℓ} {B : Type κ} → Outcome A → (A → Outcome B) → Outcome B
ok a >>= f = f a
err e >>= f = err e
crash >>= f = crash

abbrev pub ◌>>◌ {ℓ} : {B : Type ℓ} → Outcome (Unit {0}) → Outcome B → Outcome B
m >> k = m >>= λ _. k

-- To go on with the next step of a conversation, or end with its error.
abbrev pub proceed : {A B C : Type 0} → Outcome A × C → (A → C → Outcome B × C) → Outcome B × C
proceed (ok a, c) k = k a c
proceed (err e, c) k = (err e, c)
proceed (crash, c) k = (crash, c)

-- A chain of steps gives a value only if each step does.
pub bind_ok {ℓ κ} :
    {A : Type ℓ} {B : Type κ} (m : Outcome A) (f : A → Outcome B) (b : B)
    → (m >>= f) ≡ ok b
    → (a : A) × (m ≡ ok a) × (f a ≡ ok b)
bind_ok (ok a) f b h = (a, refl, h)
bind_ok (err e) f b h = cc
bind_ok crash f b h = cc
