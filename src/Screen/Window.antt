-- ===== src/Screen/Window.antt =====
-- `shift` of cmd/stats/main.go as a queue of fixed length: what a window holds after many samples.
use vmw_tsf.Prelude.{
  ℕ, zero, suc, ◌-◌, ◌≡◌, ap, refl, List, [], ◌∷◌, ◌++◌, arith, length, set, get_elem?,
  Option-cases, inl, inr,
}
use vmw_tsf.Outcome.{Outcome, ok, crash, ◌>>=◌}
use vmw_tsf.Screen.{shift, copy_down, copy_next, write_last}

module _ {F : Type 0} where
  -- A queue that loses its oldest sample for the newest; there must be an oldest one.
  unfoldable pub push : List F → F → Outcome (List F)
  push [] e = crash
  push (x ∷ s) e = ok (s ++ e ∷ [])

  -- What the loop leaves: every sample in its predecessor's place, and the last one twice.
  copied : F → List F → List F
  copied x [] = x ∷ []
  copied x (y ∷ s) = y ∷ copied y s

  copy_down-under :
      (k i : ℕ) (y : F) (s t : List F)
      → copy_down i k s ≡ ok t
      → copy_down (suc i) k (y ∷ s) ≡ ok (y ∷ t)
  unfolding copy_down copy_next
  copy_down-under zero i y s t h = cc
  copy_down-under (suc k) i y s t h = elim (Option-cases (get_elem? s (suc i))) [
    | inl e ↦ ground (arith, e)
    | inr (v, e) ↦
        rw (e, copy_down, copy_next)
          (copy_down-under k (suc i) y (set s i v) t (rw (e, copy_down, copy_next) at h))
  ]

  copy_down-copied : (x : F) (s : List F) → copy_down 0 (length s) (x ∷ s) ≡ ok (copied x s)
  unfolding copy_down copied copy_next
  copy_down-copied x [] = refl
  copy_down-copied x (y ∷ s) =
      copy_down-under (length s) 0 y (y ∷ s) (copied y s) (copy_down-copied y s)

  length-copied : (x : F) (s : List F) → length (copied x s) ≡ suc (length s)
  unfolding copied
  length-copied x [] = refl
  length-copied x (y ∷ s) = ap suc (length-copied y s)

  set-copied : (x : F) (s : List F) (e : F) → set (copied x s) (length s) e ≡ s ++ e ∷ []
  unfolding copied
  set-copied x [] e = refl
  set-copied x (y ∷ s) e = ap (λ t. y ∷ t) (set-copied y s e)

  write_last-copied : (x : F) (s : List F) (e : F) → write_last (copied x s) e ≡ ok (s ++ e ∷ [])
  unfolding write_last copied
  write_last-copied x [] e = refl
  write_last-copied x (y ∷ s) e = rw (length-copied y s) (ap (λ t. ok (y ∷ t)) (set-copied y s e))

  shift_unfolds :
      (x : F) (s : List F) (e : F)
      → shift (x ∷ s) e ≡ (copy_down 0 (length s) (x ∷ s) >>= λ t. write_last t e)
  unfolding shift
  shift_unfolds x s e =
      let one_less : suc (length s) - 1 ≡ length s = omega arith in
      ap (λ n. copy_down 0 n (x ∷ s) >>= λ t. write_last t e) one_less

  -- The loop of `shift`, which copies each sample into the place before it and then writes the
  -- last place, is the queue: the oldest sample goes, the new one comes last, and a slice without
  -- samples is a panic.
  pub shift-push : (s : List F) (e : F) → shift s e ≡ push s e
  unfolding shift push copy_down write_last
  shift-push [] e = refl
  shift-push (x ∷ s) e = rw (shift_unfolds x s e, copy_down-copied x s) (write_last-copied x s e)
