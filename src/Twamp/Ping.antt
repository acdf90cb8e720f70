-- ===== src/Twamp/Ping.antt =====
-- `Ping` of pkg/twamp/test.go, and that it measures what `RunX` measures.
use vmw_tsf.Prelude.{
  ℕ, zero, suc, ◌+◌, ◌≡◌, refl, ap, Bool, true, false, List, [], ◌∷◌, ◌++◌, arith, length,
  length-append, if◌then◌else◌,
}
use vmw_tsf.Prelude.Int.{ℤ, quot}
use vmw_tsf.Outcome.{Outcome, ok, err, crash}
use vmw_tsf.Twamp.{Host, Clock}
use vmw_tsf.Twamp.Control.{TwampSession}
use vmw_tsf.Twamp.Probes.{
  TwampResults, Tally, empty_tally, count_result, count_round, run, rounds, run_x,
}

-- What a round prints.
pub data Mark (T : Type 0) : Type 0 where
  dot : Mark T
  bang : Mark T
  line : TwampResults T → Mark T

unfoldable pub marks : {T : Type 0} → Bool → Outcome (TwampResults T) → List (Mark T)
marks true (ok r) = bang ∷ []
marks false (ok r) = line r ∷ []
marks true (err e) = dot ∷ []
marks true crash = dot ∷ []
marks false (err e) = []
marks false crash = []

module _ {T : Type 0} where
  abbrev pub bangs : List (Mark T) → ℕ
  bangs [] = 0
  bangs (bang ∷ ms) = suc (bangs ms)
  bangs (dot ∷ ms) = bangs ms
  bangs (line r ∷ ms) = bangs ms

  -- The results counted at the end of a run.
  abbrev pub results_of : Outcome (Tally T × ℤ) → ℕ
  results_of (ok (s, avg)) = s.received
  results_of (err e) = 0
  results_of crash = 0

  bangs-append : (ms ns : List (Mark T)) → bangs (ms ++ ns) ≡ bangs ms + bangs ns
  bangs-append [] ns = omega arith
  bangs-append (bang ∷ ms) ns = omega (arith, bangs-append ms ns)
  bangs-append (dot ∷ ms) ns = bangs-append ms ns
  bangs-append (line r ∷ ms) ns = bangs-append ms ns

  length-marks : (o : Outcome (TwampResults T)) → length (marks true o) ≡ 1
  unfolding marks
  length-marks (ok r) = refl
  length-marks (err e) = refl
  length-marks crash = refl

  received_marks :
      (clock : Clock T) (first : Bool) (o : Outcome (TwampResults T)) (s : Tally T)
      → (count_round clock first o s).received ≡ s.received + bangs (marks true o)
  unfolding count_round count_result marks
  received_marks clock true (ok r) s = refl
  received_marks clock false (ok r) s = refl
  received_marks clock first (err e) s = omega arith
  received_marks clock first crash s = omega arith

-- `sleep` is `time.Sleep` for a number of seconds.
module _ {C T : Type 0} (host : Host C T) (clock : Clock T) (sleep : ℕ → C → C)
    (session : TwampSession) where
  unfoldable pub pings : Bool → ℕ → ℕ → Bool → ℕ → Tally T → C → ((Tally T × ℕ) × C) × List (Mark T)
  unfolding run count_round marks
  pings rapid interval zero first seq s c = (((s, seq), c), [])
  pings rapid interval (suc n) first seq s c =
      let ((answer, c'), seq') = run host clock session seq c in
      let slept = if rapid then c' else sleep interval c' in
      let (end, later) =
        pings rapid interval n false seq' (count_round clock first answer s) slept in
      (end, marks rapid answer ++ later)

  -- `Ping`, as `RunX`, with what it prints.
  unfoldable pub ping : Bool → ℕ → ℕ → ℕ → C → (Outcome (Tally T × ℤ) × ℕ × C) × List (Mark T)
  unfolding pings
  ping rapid interval zero seq c = ((crash, seq, c), [])
  ping rapid interval (suc n) seq c =
      let (((s, seq'), c'), printed) = pings rapid interval (suc n) true seq empty_tally c in
      ((ok (s, quot s.total_rtt (suc n)), seq', c'), printed)

  pings_rapid :
      (interval n : ℕ) (first : Bool) (seq : ℕ) (s : Tally T) (c : C)
      → let (end, printed) = pings true interval n first seq s c in
        (end ≡ rounds host clock session n first seq s c)
        × (length printed ≡ n)
        × (end.0.0.received ≡ s.received + bangs printed)
  unfolding pings rounds
  pings_rapid interval zero first seq s c = (refl, refl, omega arith)
  pings_rapid interval (suc n) first seq s c =
      let ((answer, c'), seq') = run host clock session seq c in
      let next = count_round clock first answer s in
      let (end, counted, got) = pings_rapid interval n false seq' next c' in
      let later = (pings true interval n false seq' next c').1 in
      (
        end,
        omega (arith, length-append (marks true answer) later, length-marks answer, counted),
        omega (
          arith,
          got,
          bangs-append (marks true answer) later,
          received_marks clock first answer s,
        ),
      )

  -- `Ping` in rapid mode measures exactly what `RunX` does: it returns the same tally and average,
  -- or panics at the count zero like it, and leaves the connection and the sequence number in the
  -- same state, whatever the interval. It prints one mark for each round, and as many "!" as it has
  -- results.
  pub ping-run_x :
      (interval n seq : ℕ) (c : C)
      → let (end, printed) = ping true interval n seq c in
        (end ≡ run_x host clock session n seq c)
        × (length printed ≡ n)
        × (bangs printed ≡ results_of end.0)
  unfolding ping run_x rounds pings
  ping-run_x interval zero seq c = (refl, refl, refl)
  ping-run_x interval (suc n) seq c =
      let (end, counted, got) = pings_rapid interval (suc n) true seq empty_tally c in
      (
        ap (λ e. (ok (e.0.0, quot e.0.0.total_rtt (suc n)), e.0.1, e.1)) end,
        counted,
        omega (arith, got),
      )
