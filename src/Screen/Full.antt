-- ===== src/Screen/Full.antt =====
-- A round of `HostStats.Update` (cmd/stats/main.go) on a host whose windows are full.
use vmw_tsf.Prelude.{
  ℕ, ◌≡◌, ◌≢◌, refl, ap, sym, ◌∙◌, Str, List, [], ◌∷◌, Option, none, some, arith, subst, Bool, true,
  false, str_eqb, if◌then◌else◌, length, drop, str_eq, length-append, length-drop, length-replicate,
  str,
}
use vmw_tsf.Prelude.Map.{lookup, insert}
use vmw_tsf.Outcome.{ok}
use vmw_tsf.Screen.{
  StatsClient, HostStats, HostStatSample, IfcStats, IfcStatSample, shift_host, stats_len,
  new_host_stats, new_ifc_stats,
}
use vmw_tsf.Screen.Samples.{is_some, IsSampled}
use vmw_tsf.Screen.Advance.{
  pushed, pushed_stats, advance, IsOpen, IsAdvanced, shift_all-IsAdvanced, shift-pushed,
}
use vmw_tsf.Screen.Polling.{poll, update}
use vmw_tsf.Screen.Rounds.{poll-Keeps, Keeps}

module _ {F : Type 0} where
  -- Every window has `STATS_LEN` samples.
  unfoldable pub HasFull : Option (IfcStats F) → Type 0
  HasFull none = Unit
  HasFull (some st) = (length st.rx_bps ≡ stats_len) × (length st.tx_bps ≡ stats_len)

  pub record IsFull (h : HostStats F) : Type 0 where
    pub ifc : (name : Str) → HasFull (lookup name h.ifc)
    pub acl : length h.acl ≡ stats_len

  pub not_empty : (s : List F) → length s ≡ stats_len → s ≢ []
  not_empty [] e = absurd (omega (arith, e))
  not_empty (x ∷ s) e = λ q. cc

  length-pushed : (s : List F) (e : F) → length s ≡ stats_len → length (pushed s e) ≡ stats_len
  unfolding pushed
  length-pushed s e h = omega (arith, length-append (drop 1 s) (e ∷ []), length-drop 1 s)

  IsFull-IsOpen : (h : HostStats F) → IsFull h → IsOpen h.ifc
  unfolding HasFull
  IsFull-IsOpen h f name st e =
      let (rx, tx) : HasFull (some st) = subst HasFull e (f.ifc name) in
      (not_empty st.rx_bps rx, not_empty st.tx_bps tx)

  -- What a round makes of the windows, for its samples.
  pub record IsShifted (s : HostStatSample F) (h h' : HostStats F) : Type 0 where
    pub ifc : IsAdvanced s.ifc h.ifc h'.ifc
    pub acl : h'.acl ≡ pushed h.acl s.acl

  advance-HasFull :
      (v : Option (IfcStatSample F)) (o : Option (IfcStats F)) → HasFull o → HasFull (advance v o)
  unfolding HasFull advance pushed_stats
  advance-HasFull none o f = f
  advance-HasFull (some v) none f = tt
  advance-HasFull (some v) (some st) (rx, tx) =
      (length-pushed st.rx_bps v.rx_bps rx, length-pushed st.tx_bps v.tx_bps tx)

  IsShifted-IsFull :
      (s : HostStatSample F) (h h' : HostStats F) → IsShifted s h h' → IsFull h → IsFull h'
  IsShifted-IsFull s h h' sh f = record {
    ifc = λ name.
        subst HasFull (sym (sh.ifc name))
          (advance-HasFull (lookup name s.ifc) (lookup name h.ifc) (f.ifc name));
    acl = ap length sh.acl ∙ length-pushed h.acl s.acl f.acl;
  }

  shift_host-IsShifted :
      (s : HostStatSample F) (h : HostStats F)
      → IsFull h
      → IsSampled h.ifc s.ifc
      → (h' : HostStats F) × (shift_host s h ≡ ok h') × IsShifted s h h'
  unfolding shift_host is_some
  shift_host-IsShifted s h f i =
      let (ifcs', e, all) =
        shift_all-IsAdvanced s.ifc h.ifc i.is_map (IsFull-IsOpen h f)
          (λ name q. ground (arith, i.covers name)) in
      let shifted = record h { ifc = ifcs'; acl = pushed h.acl s.acl } in
      (
        shifted,
        rw (e, shift-pushed h.acl s.acl (not_empty h.acl f.acl)) refl,
        record { ifc = all; acl = refl },
      )

module _ {F W : Type 0} (client : StatsClient W) (nought : F) (of_uint64 : ℕ → F) (fuel : ℕ) where
  -- What `update` makes of the host when the receive loop ends: a round without a panic.
  update_unfolds :
      (h h1 h' : HostStats F) (s : HostStatSample F) (w w' : W)
      → poll client nought of_uint64 fuel h w ≡ some (h1, s, w')
      → shift_host s h1 ≡ ok h'
      → update client nought of_uint64 fuel h w ≡ some (ok h', w')
  unfolding update
  update_unfolds h h1 h' s w w' p q = rw (p, update, q) refl

  -- When the receive loop of a round of `Update` ends, on a host whose windows have `STATS_LEN`
  -- samples, the round does not panic. There was one sample for each interface, and in each window,
  -- and that of the access list, it has taken the last place of the oldest one; so the windows
  -- have `STATS_LEN` samples again.
  pub update_lem :
      (h h1 : HostStats F) (s : HostStatSample F) (w w' : W)
      → IsFull h
      → poll client nought of_uint64 fuel h w ≡ some (h1, s, w')
      → (h' : HostStats F) × (update client nought of_uint64 fuel h w ≡ some (ok h', w'))
        × IsSampled h.ifc s.ifc
        × IsShifted s h h'
        × IsFull h'
  update_lem h h1 s w w' f p =
      let (ifc, acl, i) : Keeps client nought of_uint64 fuel h (some (h1, s, w')) =
        subst (Keeps client nought of_uint64 fuel h) p
          (poll-Keeps client nought of_uint64 fuel h w) in
      let f1 : IsFull h1 = record { ifc = λ name. rw ifc (f.ifc name); acl = rw acl f.acl } in
      let (h', q, sh) = shift_host-IsShifted s h1 f1 (rw ifc i) in
      let moved : IsShifted s h h' = record {
        ifc = λ name. sh.ifc name ∙ ap (λ m. advance (lookup name s.ifc) (lookup name m)) ifc;
        acl = sh.acl ∙ ap (λ a. pushed a s.acl) acl;
      } in
      (h', update_unfolds h h1 h' s w w' p q, i, moved, IsShifted-IsFull s h h' moved f)

module _ {F : Type 0} (nought : F) where
  if-HasFull :
      (b : Bool) (name : Str) (o : Option (IfcStats F))
      → HasFull o
      → HasFull (if b then some (new_ifc_stats nought name stats_len) else o)
  unfolding HasFull new_ifc_stats
  if-HasFull true name o f = (length-replicate stats_len nought, length-replicate stats_len nought)
  if-HasFull false name o f = f

  pub new_host_stats-IsFull : (name url : Str) → IsFull (new_host_stats nought name url)
  unfolding new_host_stats insert lookup HasFull
  new_host_stats-IsFull name url = record {
    ifc = λ k. if-HasFull (str_eqb (str "halo_local0") k) (str "local") _ (
        if-HasFull (str_eqb (str "halo0") k) (str "halo0") _
          (if-HasFull (str_eqb (str "halo1") k) (str "halo1") _ tt));
    acl = length-replicate stats_len nought;
  }
