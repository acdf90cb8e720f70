-- ===== src/Twamp/Probes.antt =====
-- The probes: pkg/twamp/test.go and results.go. Of the statistics, those in whole nanoseconds and
-- counts; the loss, the deviation and the jitter, computed in floating point, are in Statistics.
use vmw_tsf.Prelude.{
  ℕ, zero, suc, ◌+◌, ◌%◌, ◌^◌, Bool, true, false, List, [], ◌∷◌, ◌++◌, eqb, if◌then◌else◌,
}
use vmw_tsf.Prelude.Int.{ℤ, pos, ◌+ℤ◌, ltb_ℤ, quot, i64}
use vmw_tsf.Outcome.{proceed, Outcome, ok, err, crash, refused}
use vmw_tsf.Twamp.{
  Bytes, uint32, number, Host, Clock, read_from_socket, TwampTimestamp, new_twamp_timestamp,
  new_timestamp,
}
use vmw_tsf.Twamp.Control.{TwampSession}

pub record TwampResults (T : Type 0) : Type 0 where
  pub seq_num : ℕ
  pub timestamp : T
  pub error_estimate : ℕ
  pub receive_timestamp : T
  pub sender_seq_num : ℕ
  pub sender_timestamp : T
  pub sender_error_estimate : ℕ
  pub sender_ttl : ℕ
  pub finished_timestamp : T
  pub sender_size : ℕ

-- The probe of `sendTestMessage(false)`: the header, then the padding.
unfoldable pub test_message : ℕ → TwampTimestamp → Bytes → Bytes
test_message seq now padding =
    uint32 seq ++ (uint32 now.integer ++ (uint32 now.fraction ++ 1 ∷ 1 ∷ padding))

module _ {T : Type 0} (clock : Clock T) where
  unfoldable pub get_wait : TwampResults T → ℤ
  get_wait r = clock.sub r.timestamp r.receive_timestamp

  unfoldable pub get_rtt : TwampResults T → ℤ
  get_rtt r = clock.sub r.finished_timestamp r.sender_timestamp

  abbrev pub timestamp_at : ℕ → Bytes → T
  timestamp_at offset buf = new_timestamp clock (number offset 4 buf) (number (offset + 4) 4 buf)

  unfoldable pub decode_results : ℕ → T → Bytes → TwampResults T
  decode_results size finished buf = record {
    seq_num = number 0 4 buf;
    timestamp = timestamp_at 4 buf;
    error_estimate = number 12 2 buf;
    receive_timestamp = timestamp_at 16 buf;
    sender_seq_num = number 24 4 buf;
    sender_timestamp = timestamp_at 28 buf;
    sender_error_estimate = number 36 2 buf;
    sender_ttl = number 40 1 buf;
    finished_timestamp = finished;
    sender_size = size;
  }

abbrev pub expecting : {T : Type 0} → ℕ → TwampResults T → Outcome (TwampResults T)
expecting seq r = if eqb seq r.seq_num then ok r else err (refused r.seq_num)

module _ {C T : Type 0} (host : Host C T) (clock : Clock T) (session : TwampSession) where
  unfoldable pub send_test_message : ℕ → C → C
  unfolding new_twamp_timestamp test_message
  send_test_message seq c =
      let (t, c₁) = host.now c in
      let (padding, c₂) = host.random session.config.padding c₁ in
      host.write (test_message seq (new_twamp_timestamp clock t) padding) c₂

  -- `Run`: the result, and the next sequence number.
  unfoldable pub run : ℕ → C → (Outcome (TwampResults T) × C) × ℕ
  unfolding send_test_message read_from_socket decode_results
  run seq c = (
    proceed (read_from_socket host 64 (send_test_message seq c)) (λ buf c₁.
        let (finished, c₂) = host.now c₁ in
        (expecting seq (decode_results clock (14 + session.config.padding) finished buf), c₂)),
    (seq + 1) % 2 ^ 32,
  )

-- What `RunX` keeps: `Min`, `Max`, `TotalRTT`, `Transmitted`, `Received` and the results.
pub record Tally (T : Type 0) : Type 0 where
  pub min : ℤ
  pub max : ℤ
  pub total_rtt : ℤ
  pub transmitted : ℕ
  pub received : ℕ
  pub results : List (TwampResults T)

abbrev pub empty_tally : {T : Type 0} → Tally T
empty_tally = record {
  min = pos 0;
  max = pos 0;
  total_rtt = pos 0;
  transmitted = 0;
  received = 0;
  results = [];
}

abbrev pub lesser : ℤ → ℤ → ℤ
lesser rtt min = if ltb_ℤ rtt min then rtt else min

abbrev pub greater : ℤ → ℤ → ℤ
greater rtt max = if ltb_ℤ max rtt then rtt else max

module _ {T : Type 0} (clock : Clock T) where
  abbrev pub at_first : Bool → ℤ → Tally T → Tally T
  at_first true rtt s = record s { min = rtt; max = rtt }
  at_first false rtt s = s

  -- A received result, in the first round or a later one. `TotalRTT` is a duration, an int64, and
  -- its sum wraps.
  unfoldable pub count_result : Bool → TwampResults T → Tally T → Tally T
  unfolding get_rtt
  count_result first r s =
      let rtt = get_rtt clock r in
      let s' = at_first first rtt s in
      record s' {
        min = lesser rtt s'.min;
        max = greater rtt s'.max;
        total_rtt = i64 (s'.total_rtt +ℤ rtt);
        received = s'.received + 1;
        results = s'.results ++ r ∷ [];
      }

  -- One round of the loop of `RunX`, by what `Run` returned.
  unfoldable pub count_round : Bool → Outcome (TwampResults T) → Tally T → Tally T
  unfolding count_result
  count_round first (ok r) s = count_result first r (record s { transmitted = s.transmitted + 1 })
  count_round first (err e) s = record s { transmitted = s.transmitted + 1 }
  count_round first crash s = record s { transmitted = s.transmitted + 1 }

module _ {C T : Type 0} (host : Host C T) (clock : Clock T) (session : TwampSession) where
  -- The loop of `RunX`: how many rounds are left, whether this is the first, the sequence number.
  unfoldable pub rounds : ℕ → Bool → ℕ → Tally T → C → (Tally T × ℕ) × C
  unfolding run count_round
  rounds zero first seq s c = ((s, seq), c)
  rounds (suc n) first seq s c =
      let ((answer, c'), seq') = run host clock session seq c in
      rounds n false seq' (count_round clock first answer s) c'

  -- `RunX`: the tally, the average, and the next sequence number; a count of zero panics.
  unfoldable pub run_x : ℕ → ℕ → C → Outcome (Tally T × ℤ) × ℕ × C
  unfolding rounds
  run_x zero seq c = (crash, seq, c)
  run_x (suc n) seq c =
      let ((s, seq'), c') = rounds (suc n) true seq empty_tally c in
      (ok (s, quot s.total_rtt (suc n)), seq', c')
