-- ===== src/Twamp/Statistics.antt =====
-- The statistics of pkg/twamp/results.go and test.go that are computed in floating point. The
-- operations on float64 are a parameter, of which nothing is assumed.
use vmw_tsf.Prelude.{ℕ, Bool, List, [], ◌∷◌, length, if◌then◌else◌}
use vmw_tsf.Prelude.Int.{ℤ, pos, ◌-ℤ◌, sub_ℕ}
use vmw_tsf.Twamp.{Clock}
use vmw_tsf.Twamp.Probes.{TwampResults, Tally, get_rtt}

-- `float64` and `time.Duration` of a number, and package math.
pub record Floating (F : Type 0) : Type 0 where
  pub of_int : ℤ → F
  pub to_duration : F → ℤ
  pub add : F → F → F
  pub sub : F → F → F
  pub mul : F → F → F
  pub div : F → F → F
  pub pow : F → F → F
  pub sqrt : F → F
  pub abs : F → F

pub record PingResultStats (F : Type 0) : Type 0 where
  pub min : ℤ
  pub max : ℤ
  pub avg : ℤ
  pub std_dev : ℤ
  pub transmitted : ℕ
  pub received : ℕ
  pub loss : F
  pub jitter : ℤ

module _ {F T : Type 0} (fl : Floating F) (clock : Clock T) where
  unfoldable pub squares : ℤ → F → List (TwampResults T) → F
  squares mean total [] = total
  squares mean total (r ∷ rs) =
      squares mean (fl.add total (fl.pow (fl.of_int (get_rtt clock r -ℤ mean)) (fl.of_int (pos 2))))
        rs

  -- `stdDev`; for no result the divisor is -1.
  unfoldable pub std_dev : ℤ → List (TwampResults T) → ℤ
  unfolding squares
  std_dev mean rs =
      fl.to_duration
        (fl.sqrt (fl.div (squares mean (fl.of_int (pos 0)) rs) (fl.of_int (sub_ℕ (length rs) 1))))

  -- The loop of `jitter` after its first round.
  unfoldable pub steps : F → F → List (TwampResults T) → F
  steps last total [] = total
  steps last total (r ∷ rs) =
      let rtt = fl.of_int (get_rtt clock r) in
      steps rtt (fl.add total (fl.abs (fl.sub last rtt))) rs

  unfoldable pub jitter : List (TwampResults T) → ℤ
  unfolding steps
  jitter [] = pos 0
  jitter (r ∷ []) = pos 0
  jitter (r ∷ next ∷ rs) = fl.to_duration (
      fl.div (steps (fl.of_int (get_rtt clock r)) (fl.of_int (pos 0)) (next ∷ rs))
        (fl.of_int (sub_ℕ (length (r ∷ next ∷ rs)) 1)))

  unfoldable pub loss : Tally T → F
  loss s =
      fl.mul (fl.div (fl.of_int (sub_ℕ s.transmitted s.received)) (fl.of_int (pos s.transmitted)))
        (fl.of_int (pos 100))

  -- The end of `RunX` and, without the jitter, of `Ping`.
  unfoldable pub run_stats : Bool → Tally T → ℤ → PingResultStats F
  unfolding std_dev jitter loss
  run_stats with_jitter s avg = record {
    min = s.min;
    max = s.max;
    avg = avg;
    std_dev = std_dev avg s.results;
    transmitted = s.transmitted;
    received = s.received;
    loss = loss s;
    jitter = if with_jitter then jitter s.results else pos 0;
  }
