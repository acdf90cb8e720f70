-- ===== src/Screen/History.antt =====
-- What the windows of cmd/stats/main.go hold after many rounds of `HostStats.Update`.
use vmw_tsf.Prelude.{
  ℕ, ◌≡◌, ◌≢◌, refl, ap, sym, ◌∙◌, Str, List, [], ◌∷◌, ◌++◌, map, some, arith, subst, length, drop,
  str_eq, Option-cases, inl, inr,
}
use mathlib.Core.List.{append_assoc, append-nil}
use vmw_tsf.Prelude.Map.{lookup}
use vmw_tsf.Outcome.{ok}
use vmw_tsf.Screen.{StatsClient, HostStats, HostStatSample, IfcStats, IfcStatSample}
use vmw_tsf.Screen.Samples.{is_some, IsSampled}
use vmw_tsf.Screen.Advance.{pushed, pushed_stats, advance}
use vmw_tsf.Screen.Polling.{poll, update}
use vmw_tsf.Screen.Full.{HasFull, IsFull, IsShifted, not_empty, update_lem}

module _ {F : Type 0} where
  -- The last samples of a window and those that came after, as many as the window has.
  unfoldable pub window : List F → List F → List F
  window s es = drop (length es) (s ++ es)

  window_step :
      (s : List F) (e : F) (es : List F) → s ≢ [] → window (pushed s e) es ≡ window s (e ∷ es)
  unfolding window pushed
  window_step [] e es h = absurd (h refl)
  window_step (x ∷ s) e es h = rw (append_assoc s (e ∷ []) es) refl

  -- What an interface's windows hold after the samples.
  abbrev pub Shows : Str → List (HostStatSample F) → IfcStats F → HostStats F → Type 0
  Shows name ss st h' =
      (vs : List (IfcStatSample F)) × (st' : IfcStats F) × (map (λ s. lookup name s.ifc) ss
        ≡ map some vs)
      × (lookup name h'.ifc ≡ some st')
      × (st'.rx_bps ≡ window st.rx_bps (map (λ v. v.rx_bps) vs))
      × (st'.tx_bps ≡ window st.tx_bps (map (λ v. v.tx_bps) vs))

  Shows-step :
      (name : Str) (s : HostStatSample F) (ss : List (HostStatSample F)) (v : IfcStatSample F)
      (st : IfcStats F) (h' : HostStats F)
      → lookup name s.ifc ≡ some v
      → HasFull (some st)
      → Shows name ss (pushed_stats v st) h'
      → Shows name (s ∷ ss) st h'
  unfolding pushed_stats HasFull
  Shows-step name s ss v st h' e (rx, tx) (vs, st', all, found, now_rx, now_tx) = (
    v ∷ vs,
    st',
    rw (e, all) refl,
    found,
    now_rx ∙ window_step st.rx_bps v.rx_bps (map (λ u. u.rx_bps) vs) (not_empty st.rx_bps rx),
    now_tx ∙ window_step st.tx_bps v.tx_bps (map (λ u. u.tx_bps) vs) (not_empty st.tx_bps tx),
  )

module _ {F W : Type 0} (client : StatsClient W) (nought : F) (of_uint64 : ℕ → F) (fuel : ℕ) where
  -- Rounds of `Update` that end, with what they sampled.
  abbrev pub Rounds : HostStats F → W → List (HostStatSample F) → HostStats F → W → Type 0
  Rounds h w [] h' w' = (h ≡ h') × (w ≡ w')
  Rounds h w (s ∷ ss) h' w' =
      (h1 : HostStats F) × (h2 : HostStats F) × (w2 : W) × (poll client nought of_uint64 fuel h w
        ≡ some (h1, s, w2))
      × (update client nought of_uint64 fuel h w ≡ some (ok h2, w2))
      × Rounds h2 w2 ss h' w'

  -- A round of a run, seen from the host that it leaves.
  round_moves :
      (h h1 h2 : HostStats F) (s : HostStatSample F) (w w2 : W)
      → IsFull h
      → poll client nought of_uint64 fuel h w ≡ some (h1, s, w2)
      → update client nought of_uint64 fuel h w ≡ some (ok h2, w2)
      → IsSampled h.ifc s.ifc × IsShifted s h h2 × IsFull h2
  round_moves h h1 h2 s w w2 f polled updated =
      let (h3, u, i, sh, f3) = update_lem client nought of_uint64 fuel h h1 s w w2 f polled in
      let same : h3 ≡ h2 = cc in (i, subst (IsShifted s h) same sh, subst IsFull same f3)

  ifc_history :
      (h h' : HostStats F) (w w' : W) (ss : List (HostStatSample F))
      → IsFull h
      → Rounds h w ss h' w'
      → (name : Str) (st : IfcStats F) → lookup name h.ifc ≡ some st
      → Shows name ss st h'
  unfolding advance is_some window
  ifc_history h h' w w' [] f (p, q) name st e =
      ([], st, refl, rw (← p) e, sym (append-nil st.rx_bps), sym (append-nil st.tx_bps))
  ifc_history h h' w w' (s ∷ ss) f (h1, h2, w2, polled, updated, more) name st e =
      let (i, sh, f2) = round_moves h h1 h2 s w w2 f polled updated in
      elim (Option-cases (lookup name s.ifc)) [
        | inl out ↦ absurd (ground (arith, i.covers name))
        | inr (v, got) ↦
            let there : lookup name h2.ifc ≡ some (pushed_stats v st) =
              sh.ifc name ∙ rw (got, e) refl in
            Shows-step name s ss v st h' got (subst HasFull e (f.ifc name))
              (ifc_history h2 h' w2 w' ss f2 more name (pushed_stats v st) there)
      ]

  acl_history :
      (h h' : HostStats F) (w w' : W) (ss : List (HostStatSample F))
      → IsFull h
      → Rounds h w ss h' w'
      → h'.acl ≡ window h.acl (map (λ s. s.acl) ss)
  unfolding window
  acl_history h h' w w' [] f (p, q) = rw (← p) (sym (append-nil h.acl))
  acl_history h h' w w' (s ∷ ss) f (h1, h2, w2, polled, updated, more) =
      let (i, sh, f2) = round_moves h h1 h2 s w w2 f polled updated in
      acl_history h2 h' w2 w' ss f2 more
      ∙ ap (λ a. window a (map (λ u. u.acl) ss)) sh.acl
      ∙ window_step h.acl s.acl (map (λ u. u.acl) ss) (not_empty h.acl f.acl)

  -- After rounds of `Update` whose receive loops end, on a host whose windows have `STATS_LEN`
  -- samples: each of the rounds had a sample for every interface, and its windows hold the last
  -- `STATS_LEN` of what they held and these samples, in the order of the rounds. So does the
  -- window of the access list.
  pub windows_hold_last :
      (h h' : HostStats F) (w w' : W) (ss : List (HostStatSample F))
      → IsFull h
      → Rounds h w ss h' w'
      → ((name : Str) (st : IfcStats F) → lookup name h.ifc ≡ some st → Shows name ss st h')
        × (h'.acl ≡ window h.acl (map (λ s. s.acl) ss))
  windows_hold_last h h' w w' ss f run =
      (ifc_history h h' w w' ss f run, acl_history h h' w w' ss f run)
