-- ===== src/Twamp/Rounds.antt =====
-- The tally of `RunX` (pkg/twamp/test.go).
use vmw_tsf.Prelude.{
  ℕ, zero, suc, ◌+◌, ◌%◌, ◌^◌, ◌≤◌, ◌<◌, ◌≡◌, refl, sym, ap, ◌∙◌, subst, Bool, true, false, List,
  [], ◌∷◌, ◌++◌, arith, length, length-append,
}
use vmw_tsf.Prelude.Int.{ℤ, pos, ◌+ℤ◌, ◌≤ℤ◌, quot, i64, i64-add}
use vmw_tsf.Outcome.{Outcome, ok, err, crash, Error}
use vmw_tsf.Twamp.{Host, Clock}
use vmw_tsf.Twamp.Control.{TwampSession}
use vmw_tsf.Twamp.Probes.{
  TwampResults, Tally, empty_tally, get_rtt, lesser, greater, count_result, count_round, run,
  rounds, run_x,
}

module _ {T : Type 0} (clock : Clock T) where
  -- The sum of the round-trip times, from the left.
  abbrev pub sum_rtt : ℤ → List (TwampResults T) → ℤ
  sum_rtt acc [] = acc
  sum_rtt acc (r ∷ rs) = sum_rtt (acc +ℤ get_rtt clock r) rs

  -- Every round-trip time lies between two bounds.
  abbrev pub AreWithin : ℤ → ℤ → List (TwampResults T) → Type 0
  AreWithin lo hi [] = Unit
  AreWithin lo hi (r ∷ rs) = (lo ≤ℤ get_rtt clock r) × (get_rtt clock r ≤ℤ hi) × AreWithin lo hi rs

  abbrev pub AreNonneg : List (TwampResults T) → Type 0
  AreNonneg [] = Unit
  AreNonneg (r ∷ rs) = (pos 0 ≤ℤ get_rtt clock r) × AreNonneg rs

  -- The counters agree with the results, the bounds hold for them, and the total is their sum as
  -- an int64.
  pub record IsTally (s : Tally T) : Type 0 where
    pub counted : s.received ≡ length s.results
    pub summed : s.total_rtt ≡ i64 (sum_rtt (pos 0) s.results)
    pub bounded : AreWithin s.min s.max s.results
    pub fewer : s.received ≤ s.transmitted

  sum_rtt-snoc :
      (acc : ℤ) (rs : List (TwampResults T)) (r : TwampResults T)
      → sum_rtt acc (rs ++ r ∷ []) ≡ sum_rtt acc rs +ℤ get_rtt clock r
  sum_rtt-snoc acc [] r = refl
  sum_rtt-snoc acc (q ∷ rs) r = sum_rtt-snoc (acc +ℤ get_rtt clock q) rs r

  AreWithin-snoc :
      (lo hi lo' hi' : ℤ) (rs : List (TwampResults T)) (r : TwampResults T)
      → lo' ≤ℤ lo
      → hi ≤ℤ hi'
      → lo' ≤ℤ get_rtt clock r
      → get_rtt clock r ≤ℤ hi'
      → AreWithin lo hi rs
      → AreWithin lo' hi' (rs ++ r ∷ [])
  AreWithin-snoc lo hi lo' hi' [] r l h p q w = (p, q, tt)
  AreWithin-snoc lo hi lo' hi' (x ∷ rs) r l h p q (a, b, w) =
      (omega (arith, l, a), omega (arith, h, b), AreWithin-snoc lo hi lo' hi' rs r l h p q w)

  lesser-le : (rtt min : ℤ) → (lesser rtt min ≤ℤ rtt) × (lesser rtt min ≤ℤ min)
  lesser-le rtt min = ground arith

  le-greater : (rtt max : ℤ) → (rtt ≤ℤ greater rtt max) × (max ≤ℤ greater rtt max)
  le-greater rtt max = ground arith

  later-IsTally :
      (o : Outcome (TwampResults T)) (s : Tally T)
      → IsTally s
      → IsTally (count_round clock false o s)
  unfolding count_round count_result
  later-IsTally (ok r) s t =
      let (a, b) = lesser-le (get_rtt clock r) s.min in
      let (d, e) = le-greater (get_rtt clock r) s.max in
      record {
        counted = omega (arith, t.counted, length-append s.results (r ∷ []));
        summed =
            ap (λ x. i64 (x +ℤ get_rtt clock r)) t.summed
            ∙ i64-add (sum_rtt (pos 0) s.results) (get_rtt clock r)
            ∙ ap i64 (sym (sum_rtt-snoc (pos 0) s.results r));
        bounded = AreWithin-snoc s.min s.max _ _ s.results r b e a d t.bounded;
        fewer = omega (arith, t.fewer);
      }
  later-IsTally (err e) s t = record {
    counted = t.counted;
    summed = t.summed;
    bounded = t.bounded;
    fewer = omega (arith, t.fewer);
  }
  later-IsTally crash s t = record {
    counted = t.counted;
    summed = t.summed;
    bounded = t.bounded;
    fewer = omega (arith, t.fewer);
  }

  first-IsTally : (o : Outcome (TwampResults T)) → IsTally (count_round clock true o empty_tally)
  unfolding count_round count_result i64
  first-IsTally (ok r) =
      let (a, b) = lesser-le (get_rtt clock r) (get_rtt clock r) in
      let (d, e) = le-greater (get_rtt clock r) (get_rtt clock r) in
      record { counted = refl; summed = refl; bounded = (a, d, tt); fewer = omega arith }
  first-IsTally (err e) = record {
    counted = refl;
    summed = refl;
    bounded = tt;
    fewer = omega arith;
  }
  first-IsTally crash = record { counted = refl; summed = refl; bounded = tt; fewer = omega arith }

  transmitted-count :
      (first : Bool) (o : Outcome (TwampResults T)) (s : Tally T)
      → (count_round clock first o s).transmitted ≡ s.transmitted + 1
  unfolding count_round count_result
  transmitted-count true (ok r) s = refl
  transmitted-count false (ok r) s = refl
  transmitted-count first (err e) s = refl
  transmitted-count first crash s = refl

  -- The minimum is still 0 when no round-trip time of the results is negative.
  abbrev IsUnset : Tally T → Type 0
  IsUnset s = AreNonneg s.results → s.min ≡ pos 0

  AreNonneg-snoc :
      (rs : List (TwampResults T)) (r : TwampResults T)
      → AreNonneg (rs ++ r ∷ [])
      → AreNonneg rs × (pos 0 ≤ℤ get_rtt clock r)
  AreNonneg-snoc [] r (a, w) = (tt, a)
  AreNonneg-snoc (x ∷ rs) r (a, w) = let (v, b) = AreNonneg-snoc rs r w in ((a, v), b)

  min_kept :
      (o : Outcome (TwampResults T)) (s : Tally T)
      → IsUnset s
      → IsUnset (count_round clock false o s)
  unfolding count_round count_result
  min_kept (ok r) s e w = let (v, b) = AreNonneg-snoc s.results r w in ground (arith, e v, b)
  min_kept (err x) s e w = e w
  min_kept crash s e w = e w

module _ {C T : Type 0} (host : Host C T) (clock : Clock T) (session : TwampSession) where
  abbrev after : ℕ → C → (Outcome (TwampResults T) × C) × ℕ
  after seq c = run host clock session seq c

  -- What the later rounds keep, and how they count.
  rounds-IsTally :
      (n seq : ℕ) (s : Tally T) (c : C)
      → IsTally clock s
      → seq < 2 ^ 32
      → let ((s', seq'), c') = rounds host clock session n false seq s c in
        IsTally clock s' × (s'.transmitted ≡ s.transmitted + n) × (seq' ≡ (seq + n) % 2 ^ 32)
  unfolding rounds run
  rounds-IsTally zero seq s c t k = (t, omega arith, omega (arith, k))
  rounds-IsTally (suc n) seq s c t k =
      let o = (after seq c).0.0 in
      let (t', sent, numbered) =
        rounds-IsTally n ((seq + 1) % 2 ^ 32) (count_round clock false o s) (after seq c).0.1
          (later-IsTally clock o s t) (omega arith) in
      (t', omega (arith, sent, transmitted-count clock false o s), omega (arith, numbered))

  rounds_min :
      (n seq : ℕ) (s : Tally T) (c : C)
      → IsUnset clock s
      → IsUnset clock (rounds host clock session n false seq s c).0.0
  unfolding rounds run
  rounds_min zero seq s c e = e
  rounds_min (suc n) seq s c e =
      rounds_min n ((seq + 1) % 2 ^ 32) (count_round clock false (after seq c).0.0 s)
        (after seq c).0.1 (min_kept clock (after seq c).0.0 s e)

  -- `RunX` over at least one round, from a sequence number below 2 ^ 32, returns. It counts every
  -- round as transmitted and each result as received; every round-trip time of the results lies
  -- between the minimum and the maximum; the average is the quotient of their sum, wrapped as an
  -- int64, by the number of rounds, answered or not; and the sequence number has grown by the
  -- number of rounds, modulo 2 ^ 32.
  pub run_x_lem :
      (n seq : ℕ) (c : C)
      → seq < 2 ^ 32
      → (s : Tally T) × (c' : C) × (run_x host clock session (suc n) seq c ≡ (
        ok (s, quot (i64 (sum_rtt clock (pos 0) s.results)) (suc n)),
        (seq + suc n) % 2 ^ 32,
        c',
      ))
        × IsTally clock s
        × (s.transmitted ≡ suc n)
  unfolding run_x rounds run
  run_x_lem n seq c k =
      let o = (after seq c).0.0 in
      let start = count_round clock true o empty_tally in
      let (t, sent, numbered) =
        rounds-IsTally n ((seq + 1) % 2 ^ 32) start (after seq c).0.1 (first-IsTally clock o)
          (omega arith) in
      let end = rounds host clock session n false ((seq + 1) % 2 ^ 32) start (after seq c).0.1 in
      (
        end.0.0,
        end.1,
        pair_up _ _ _ _ _ _ t.summed (omega (arith, numbered)),
        t,
        omega (arith, sent, transmitted-count clock true o empty_tally),
      )
    where
      pair_up :
          (s : Tally T) (x y : ℤ) (p q : ℕ) (c' : C)
          → x ≡ y
          → p ≡ q
          → ◌≡◌ {A = Outcome (Tally T × ℤ) × ℕ × C}
              (ok (s, quot x (suc n)), p, c')
              (ok (s, quot y (suc n)), q, c')
      pair_up s x y p q c' e f = cc

  -- The minimum is set in the first round only: when the first probe fails and none of the
  -- round-trip times of the results that `RunX` returns is negative, the minimum it returns is 0,
  -- whatever those times are.
  pub run_x_min :
      (n seq : ℕ) (c : C) (e : Error) (s : Tally T) (avg : ℤ)
      → (run host clock session seq c).0.0 ≡ err e
      → (run_x host clock session (suc n) seq c).0 ≡ ok (s, avg)
      → AreNonneg clock s.results
      → s.min ≡ pos 0
  unfolding run_x rounds
  run_x_min n seq c e s avg h returned =
      let (o, seq') = run host clock session seq c in
      let start = count_round clock true o.0 empty_tally in
      subst (IsUnset clock) (tally_of _ s _ avg returned)
        (rounds_min n seq' start o.1 (unset o.0 h))
    where
      tally_of :
          (s s' : Tally T) (x y : ℤ)
          → ◌≡◌ {A = Outcome (Tally T × ℤ)} (ok (s, x)) (ok (s', y))
          → s ≡ s'
      tally_of s s' x y q = cc

      unset :
          (o : Outcome (TwampResults T))
          → o ≡ err e
          → IsUnset clock (count_round clock true o empty_tally)
      unset o h = rw h (unfold count_round in λ w. refl)
