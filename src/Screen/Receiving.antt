-- ===== src/Screen/Receiving.antt =====
-- When the receive loop of `HostStats.Update` (cmd/stats/main.go) ends, and with which samples.
use vmw_tsf.Prelude.{
  ℕ, zero, suc, ◌<◌, ◌≡◌, ◌≢◌, refl, ap, Str, List, [], ◌∷◌, arith, length, some, ◌↔◌, ◌⊎◌, inl,
  inr, sym, ◌∙◌,
}
use vmw_tsf.Prelude.Map.{Map}
use vmw_tsf.Screen.{
  Received, message, no_message, end_of_stream, failure, StatsClient, IfcStatSample, receive,
  take_received, unless_end,
}

module _ {F : Type 0} (of_uint64 : ℕ → F) where
  -- The samples after the messages of a whole stream.
  unfoldable pub take_all : List Received → Map Str (IfcStatSample F) → Map Str (IfcStatSample F)
  take_all [] s = s
  take_all (got ∷ more) s = take_all more (take_received of_uint64 got s)

module _ {F W : Type 0} (of_uint64 : ℕ → F) (client : StatsClient W) where
  -- The stream answers with these results, one for each call of `Recv`, and then with `io.EOF`.
  abbrev pub Ends : W → List Received → W → Type 0
  Ends w [] w' = client.recv w ≡ (end_of_stream, w')
  Ends w (got ∷ more) w' =
      (w1 : W) × (client.recv w ≡ (got, w1)) × (got ≢ end_of_stream) × Ends w1 more w'

  receive_ended :
      (fuel : ℕ) (w w' : W) (s : Map Str (IfcStatSample F))
      → client.recv w ≡ (end_of_stream, w')
      → receive of_uint64 client (suc fuel) w s ≡ some (s, w')
  unfolding receive unless_end
  receive_ended fuel w w' s e = rw (ap (λ p. p.0) e, ap (λ p. p.1) e, receive) refl

  unless_end_live {ℓ} :
      {A : Type ℓ} (got : Received) (done rest : A)
      → got ≢ end_of_stream
      → unless_end got done rest ≡ rest
  unfolding unless_end
  unless_end_live (message m) done rest live = refl
  unless_end_live no_message done rest live = refl
  unless_end_live end_of_stream done rest live = absurd (live refl)
  unless_end_live failure done rest live = refl

  receive_live :
      (fuel : ℕ) (w w1 : W) (got : Received) (s : Map Str (IfcStatSample F))
      → client.recv w ≡ (got, w1)
      → got ≢ end_of_stream
      → receive of_uint64 client (suc fuel) w s
        ≡ receive of_uint64 client fuel w1 (take_received of_uint64 got s)
  unfolding receive
  receive_live fuel w w1 got s e live =
      rw (ap (λ p. p.0) e, ap (λ p. p.1) e, receive) (unless_end_live got _ _ live)

  receive_enough :
      (fuel : ℕ) (w : W) (s : Map Str (IfcStatSample F)) (got : List Received) (w' : W)
      → Ends w got w'
      → length got < fuel
      → receive of_uint64 client fuel w s ≡ some (take_all of_uint64 got s, w')
  unfolding take_all
  receive_enough zero w s got w' e l = absurd (omega arith)
  receive_enough (suc fuel) w s [] w' e l = receive_ended fuel w w' s e
  receive_enough (suc fuel) w s (got ∷ more) w' (w1, e, live, rest) l =
      rw (receive_live fuel w w1 got s e live)
        (receive_enough fuel w1 (take_received of_uint64 got s) more w' rest (omega arith))

  is_end : (got : Received) → (got ≡ end_of_stream) ⊎ (got ≢ end_of_stream)
  is_end end_of_stream = inl refl
  is_end (message m) = inr λ e. cc
  is_end no_message = inr λ e. cc
  is_end failure = inr λ e. cc

  abbrev pub EndsWith : ℕ → W → Map Str (IfcStatSample F) → Map Str (IfcStatSample F) × W → Type 0
  EndsWith fuel w s (t, w') =
      (got : List Received) × Ends w got w' × (length got < fuel) × (t ≡ take_all of_uint64 got s)

  receive_only :
      (fuel : ℕ) (w : W) (s t : Map Str (IfcStatSample F)) (w' : W)
      → receive of_uint64 client fuel w s ≡ some (t, w')
      → EndsWith fuel w s (t, w')
  unfolding receive take_all
  receive_only zero w s t w' e = cc
  receive_only (suc fuel) w s t w' e = elim (is_end (client.recv w).0) [
    | inl q ↦
        let ended : client.recv w ≡ (end_of_stream, (client.recv w).1) = cc in
        let found = receive_ended fuel w (client.recv w).1 s ended in ([], cc, omega arith, cc)
    | inr live ↦
        let on = receive_live fuel w (client.recv w).1 (client.recv w).0 s refl live in
        let (more, ends, enough, all) =
          receive_only fuel (client.recv w).1 (take_received of_uint64 (client.recv w).0 s) t w'
            (sym on ∙ e) in
        ((client.recv w).0 ∷ more, ((client.recv w).1, refl, live, ends), omega arith, all)
  ]

  -- With enough fuel the receive loop of `Update` ends exactly when the stream reports `io.EOF`
  -- after finitely many calls of `Recv`; any other error only leads to another call. The samples
  -- are then those of all messages before, in their order.
  pub receive_lem :
      (fuel : ℕ) (w : W) (s t : Map Str (IfcStatSample F)) (w' : W)
      → (receive of_uint64 client fuel w s ≡ some (t, w')) ↔ EndsWith fuel w s (t, w')
  receive_lem fuel w s t w' =
      (receive_only fuel w s t w', λ (got, e, l, q). rw q (receive_enough fuel w s got w' e l))
