-- ===== src/Screen/Rounds.antt =====
-- What the rounds of `HostStats.Update` (cmd/stats/main.go) leave in the windows of the screen.
use vmw_tsf.Prelude.{
  ℕ, ◌≡◌, refl, ◌∙◌, Bool, true, false, Option, none, some, arith, str_eq, Option-cases, inl, inr,
  if◌then◌else◌,
}
use vmw_tsf.Screen.{StatsClient, HostStats, HostStatSample, receive, new_host_stat_sample}
use vmw_tsf.Screen.Receiving.{receive_lem}
use vmw_tsf.Screen.Samples.{IsSampled, empty_samples-IsSampled, take_all-IsSampled}
use vmw_tsf.Screen.Polling.{
  connect, disconnect, Polled, poll_stream, poll_interfaces, take_acl, poll_acl, poll, then_acl,
}

module _ {F W : Type 0} (client : StatsClient W) (nought : F) (of_uint64 : ℕ → F) (fuel : ℕ) where
  -- Polling leaves the windows alone, and has a sample for each interface.
  abbrev pub Keeps : HostStats F → Polled client nought of_uint64 fuel → Type 0
  Keeps h none = Unit
  Keeps h (some (h', s, w)) = (h'.ifc ≡ h.ifc) × (h'.acl ≡ h.acl) × IsSampled h.ifc s.ifc

  connect_keeps :
      (h : HostStats F) (w : W)
      → ((connect client h w).0.ifc ≡ h.ifc) × ((connect client h w).0.acl ≡ h.acl)
  unfolding connect
  connect_keeps h w = ground arith

  disconnect_keeps :
      (h : HostStats F) (w : W)
      → ((disconnect client h w).0.ifc ≡ h.ifc) × ((disconnect client h w).0.acl ≡ h.acl)
  unfolding disconnect
  disconnect_keeps h w = ground arith

  poll_stream-Keeps :
      (up : Bool) (h : HostStats F) (s : HostStatSample F) (w : W)
      → IsSampled h.ifc s.ifc
      → Keeps h (poll_stream client nought of_uint64 fuel up h s w)
  unfolding poll_stream
  poll_stream-Keeps false h s w i = let (ifc, acl) = disconnect_keeps h w in (ifc, acl, i)
  poll_stream-Keeps true h s w i = elim (Option-cases (receive of_uint64 client fuel w s.ifc)) [
    | inl e ↦ rw (e, poll_stream) tt
    | inr ((t, w'), e) ↦
        let (got, ends, enough, all) = (receive_lem of_uint64 client fuel w s.ifc t w').0 e in
        rw (e, poll_stream) (refl, refl, rw all (take_all-IsSampled of_uint64 got h.ifc s.ifc i))
  ]

  if-Keeps :
      (h : HostStats F) (b : Bool) (x y : Polled client nought of_uint64 fuel)
      → Keeps h x
      → Keeps h y
      → Keeps h (if b then x else y)
  if-Keeps h true x y k l = k
  if-Keeps h false x y k l = l

  poll_interfaces-Keeps :
      (h : HostStats F) (s : HostStatSample F) (w : W)
      → IsSampled h.ifc s.ifc
      → Keeps h (poll_interfaces client nought of_uint64 fuel h s w)
  unfolding poll_interfaces
  poll_interfaces-Keeps h s w i =
      if-Keeps h h.connected _ _
        (poll_stream-Keeps (client.get_interfaces w).0 h s (client.get_interfaces w).1 i)
        (refl, refl, i)

  take_acl-Keeps :
      (size : Option ℕ) (h : HostStats F) (s : HostStatSample F) (w : W)
      → IsSampled h.ifc s.ifc
      → Keeps h (take_acl client nought of_uint64 fuel size h s w)
  unfolding take_acl
  take_acl-Keeps none h s w i = let (ifc, acl) = disconnect_keeps h w in (ifc, acl, i)
  take_acl-Keeps (some size) h s w i = (refl, refl, i)

  poll_acl-Keeps :
      (h : HostStats F) (s : HostStatSample F) (w : W)
      → IsSampled h.ifc s.ifc
      → Keeps h (poll_acl client nought of_uint64 fuel h s w)
  unfolding poll_acl
  poll_acl-Keeps h s w i =
      if-Keeps h h.connected _ _
        (take_acl-Keeps (client.get_acl_cache_size w).0 h s (client.get_acl_cache_size w).1 i)
        (refl, refl, i)

  Keeps-at :
      (h h' : HostStats F) (o : Polled client nought of_uint64 fuel)
      → h'.ifc ≡ h.ifc
      → h'.acl ≡ h.acl
      → Keeps h' o
      → Keeps h o
  Keeps-at h h' none p q k = tt
  Keeps-at h h' (some (h2, s, w)) p q (ifc, acl, i) = (ifc ∙ p, acl ∙ q, rw p at i)

  then_acl-Keeps :
      (h : HostStats F) (o : Polled client nought of_uint64 fuel)
      → Keeps h o
      → Keeps h (then_acl client nought of_uint64 fuel o)
  then_acl-Keeps h none k = tt
  then_acl-Keeps h (some (h2, s, w2)) (ifc, acl, i) =
      Keeps-at h h2 (poll_acl client nought of_uint64 fuel h2 s w2) ifc acl
        (poll_acl-Keeps h2 s w2 (rw ifc i))

  pub poll-Keeps : (h : HostStats F) (w : W) → Keeps h (poll client nought of_uint64 fuel h w)
  unfolding poll new_host_stat_sample
  poll-Keeps h w =
      let (ifc, acl) = connect_keeps h w in
      let (h1, w1) = connect client h w in
      let s = new_host_stat_sample nought h in
      let sampled = poll_interfaces client nought of_uint64 fuel h1 s w1 in
      Keeps-at h h1 (then_acl client nought of_uint64 fuel sampled) ifc acl (
        then_acl-Keeps h1 sampled
          (poll_interfaces-Keeps h1 s w1 (rw ifc (empty_samples-IsSampled nought h.ifc))))
