-- ===== src/Telemetry/Commute.antt =====
-- Which events of the loop of `monitorInterfaces` (pkg/hal/hal.go) may change places.
use vmw_tsf.Prelude.{
  ℕ, zero, suc, Str, ◌≡◌, refl, sym, ap, ◌∙◌, ◌≢◌, Bool, true, false, List, [], ◌∷◌, ◌++◌, Option,
  none, some, All, str_eq,
}
use vmw_tsf.Prelude.Map.{lookup}
use vmw_tsf.Registry.{Interface, InterfaceTelemetry, Registry, find_interface_by_lower}
use vmw_tsf.Telemetry.{
  Event, speed_update, stats_update, twamp_results, modify, set_speed, set_counters, set_link,
  write_stats, update_interface_delay_jitter, update_links, on_event, on_events,
}
use vmw_tsf.Telemetry.Updates.{SameNames, write_stats-SameNames, on_event-SameNames}
use vmw_tsf.Telemetry.Channels.{TwampResults}
use vmw_tsf.Telemetry.Liveness.{IsUpdate}

-- Events that may change places: of two kinds, or for two names.
abbrev pub Apart : Event → Event → Type 0
Apart (speed_update n s) (speed_update m t) = n ≢ m
Apart (stats_update n s) (stats_update m t) = n ≢ m
Apart _ _ = Unit

modify-modify :
    (i : ℕ) (f g : InterfaceTelemetry → InterfaceTelemetry) (l : List Interface)
    → ((t : InterfaceTelemetry) → f (g t) ≡ g (f t))
    → (j : ℕ) → modify i f (modify j g l) ≡ modify j g (modify i f l)
unfolding modify
modify-modify i f g [] c j = refl
modify-modify zero f g (ifc ∷ rest) c zero = ap (λ t. record ifc { stats = t } ∷ rest) (c ifc.stats)
modify-modify zero f g (ifc ∷ rest) c (suc j) = refl
modify-modify (suc i) f g (ifc ∷ rest) c zero = refl
modify-modify (suc i) f g (ifc ∷ rest) c (suc j) = ap (◌∷◌ ifc) (modify-modify i f g rest c j)

modify-modify_other :
    (i j : ℕ) (f g : InterfaceTelemetry → InterfaceTelemetry) (l : List Interface)
    → i ≢ j
    → modify i f (modify j g l) ≡ modify j g (modify i f l)
unfolding modify
modify-modify_other i j f g [] h = refl
modify-modify_other zero zero f g (ifc ∷ rest) h = absurd (h refl)
modify-modify_other zero (suc j) f g (ifc ∷ rest) h = refl
modify-modify_other (suc i) zero f g (ifc ∷ rest) h = refl
modify-modify_other (suc i) (suc j) f g (ifc ∷ rest) h =
    ap (◌∷◌ ifc) (modify-modify_other i j f g rest (λ e. h (ap suc e)))

module _ {S : Type 0} where
  -- Each pointer stands under one lower name.
  abbrev pub IsByLower : Registry S → Type 0
  IsByLower r =
      (n m : Str) (p : ℕ)
      → find_interface_by_lower n r ≡ some p
      → find_interface_by_lower m r ≡ some p
      → n ≡ m

  same_lower :
      {a b : Registry S} (n : Str)
      → SameNames a b
      → find_interface_by_lower n a ≡ find_interface_by_lower n b
  unfolding find_interface_by_lower
  same_lower n h = ap (lookup n) h.lower

  pub IsByLower-same : {a b : Registry S} → SameNames a b → IsByLower b → IsByLower a
  IsByLower-same h k n m p x y = k n m p (sym (same_lower n h) ∙ x) (sym (same_lower m h) ∙ y)

  write_stats-write_stats :
      (o q : Option ℕ) (f g : InterfaceTelemetry → InterfaceTelemetry) (r : Registry S)
      → ((t : InterfaceTelemetry) → f (g t) ≡ g (f t))
      → write_stats o f (write_stats q g r) ≡ write_stats q g (write_stats o f r)
  unfolding write_stats
  write_stats-write_stats none q f g r c = refl
  write_stats-write_stats (some p) none f g r c = refl
  write_stats-write_stats (some i) (some j) f g r c =
      ap (λ l. record r { store = l }) (modify-modify i f g r.store c j)

  write_stats-write_stats_other :
      (o q : Option ℕ) (f g : InterfaceTelemetry → InterfaceTelemetry) (r : Registry S)
      → ((p : ℕ) → o ≡ some p → q ≡ some p → ⊥)
      → write_stats o f (write_stats q g r) ≡ write_stats q g (write_stats o f r)
  unfolding write_stats
  write_stats-write_stats_other none q f g r h = refl
  write_stats-write_stats_other (some p) none f g r h = refl
  write_stats-write_stats_other (some i) (some j) f g r h =
      ap (λ l. record r { store = l })
        (modify-modify_other i j f g r.store (λ e. h i refl (ap some (sym e))))

  -- A write to the telemetry of a name and one that it commutes with, or to another name's.
  lower_writes :
      (n m : Str) (f g : InterfaceTelemetry → InterfaceTelemetry) (r : Registry S)
      → IsByLower r
      → n ≢ m
      → write_stats
          (find_interface_by_lower n (write_stats (find_interface_by_lower m r) g r))
          f
          (write_stats (find_interface_by_lower m r) g r)
        ≡ write_stats
            (find_interface_by_lower m (write_stats (find_interface_by_lower n r) f r))
            g
            (write_stats (find_interface_by_lower n r) f r)
  lower_writes n m f g r k h =
      let o = find_interface_by_lower n r in
      let q = find_interface_by_lower m r in
      ap (λ x. write_stats x f (write_stats q g r)) (same_lower n (write_stats-SameNames q g r))
      ∙ write_stats-write_stats_other o q f g r (λ p x y. h (k n m p x y))
      ∙ ap (λ x. write_stats x g (write_stats o f r))
          (sym (same_lower m (write_stats-SameNames o f r)))

  kind_writes :
      (n m : Str) (f g : InterfaceTelemetry → InterfaceTelemetry) (r : Registry S)
      → ((t : InterfaceTelemetry) → f (g t) ≡ g (f t))
      → write_stats
          (find_interface_by_lower n (write_stats (find_interface_by_lower m r) g r))
          f
          (write_stats (find_interface_by_lower m r) g r)
        ≡ write_stats
            (find_interface_by_lower m (write_stats (find_interface_by_lower n r) f r))
            g
            (write_stats (find_interface_by_lower n r) f r)
  kind_writes n m f g r c =
      let o = find_interface_by_lower n r in
      let q = find_interface_by_lower m r in
      ap (λ x. write_stats x f (write_stats q g r)) (same_lower n (write_stats-SameNames q g r))
      ∙ write_stats-write_stats o q f g r c
      ∙ ap (λ x. write_stats x g (write_stats o f r))
          (sym (same_lower m (write_stats-SameNames o f r)))

  pub on_event-on_event :
      (skip : Bool) (f e : Event) (r : Registry S)
      → IsUpdate f
      → IsUpdate e
      → Apart f e
      → IsByLower r
      → on_event skip f (on_event skip e r) ≡ on_event skip e (on_event skip f r)
  unfolding on_event
  on_event-on_event skip (speed_update n s) (speed_update m t) r a b h k =
      lower_writes n m (set_speed s) (set_speed t) r k h
  on_event-on_event skip (speed_update n s) (stats_update m t) r a b h k =
      kind_writes n m (set_speed s) (set_counters t) r (λ x. refl)
  on_event-on_event skip (stats_update n s) (speed_update m t) r a b h k =
      kind_writes n m (set_counters s) (set_speed t) r (λ x. refl)
  on_event-on_event skip (stats_update n s) (stats_update m t) r a b h k =
      lower_writes n m (set_counters s) (set_counters t) r k h
  on_event-on_event skip (twamp_results x) e r a b h k = elim a [ ]
  on_event-on_event skip (speed_update n s) (twamp_results x) r a b h k = elim b [ ]
  on_event-on_event skip (stats_update n s) (twamp_results x) r a b h k = elim b [ ]

  -- A measurement of the links, and a write that leaves the links alone.
  update_links-write_stats :
      (results : TwampResults) (n : Str) (f : InterfaceTelemetry → InterfaceTelemetry)
      (r : Registry S)
      → ((d j : ℕ) (t : InterfaceTelemetry) → set_link d j (f t) ≡ f (set_link d j t))
      → update_links results (write_stats (find_interface_by_lower n r) f r)
        ≡ write_stats
            (find_interface_by_lower n (update_links results r))
            f
            (update_links results r)
  unfolding update_links update_interface_delay_jitter
  update_links-write_stats [] n f r c = refl
  update_links-write_stats ((upper, d, j) ∷ rest) n f r c =
      let o = find_interface_by_lower n r in
      let q = lookup upper r.upper2interface in
      let r' = update_interface_delay_jitter upper d j r in
      ap (λ x. update_links rest (write_stats (lookup upper x) (set_link d j) (write_stats o f r)))
        ((write_stats-SameNames o f r).upper)
      ∙ ap (update_links rest) (write_stats-write_stats q o (set_link d j) f r (c d j))
      ∙ ap (λ x. update_links rest (write_stats x f r'))
          (sym (same_lower n (write_stats-SameNames q (set_link d j) r)))
      ∙ update_links-write_stats rest n f r' c

  tick-on_event :
      (skip : Bool) (results : TwampResults) (e : Event) (r : Registry S)
      → IsUpdate e
      → on_event skip (twamp_results results) (on_event skip e r)
        ≡ on_event skip e (on_event skip (twamp_results results) r)
  unfolding on_event
  tick-on_event true results e r u = refl
  tick-on_event false results (speed_update n s) r u =
      update_links-write_stats results n (set_speed s) r (λ d j t. refl)
  tick-on_event false results (stats_update n s) r u =
      update_links-write_stats results n (set_counters s) r (λ d j t. refl)
  tick-on_event false results (twamp_results x) r u = elim u [ ]

  pub tick-on_events :
      (skip : Bool) (results : TwampResults) (es : List Event) (r : Registry S)
      → All IsUpdate es
      → on_event skip (twamp_results results) (on_events skip es r)
        ≡ on_events skip es (on_event skip (twamp_results results) r)
  unfolding on_events
  tick-on_events skip results [] r u = refl
  tick-on_events skip results (e ∷ es) r u =
      tick-on_events skip results es (on_event skip e r) u.1
      ∙ ap (on_events skip es) (tick-on_event skip results e r u.0)

  pub on_event-on_events :
      (skip : Bool) (e : Event) (es : List Event) (r : Registry S)
      → IsUpdate e
      → All IsUpdate es
      → All (λ f. Apart f e) es
      → IsByLower r
      → on_events skip es (on_event skip e r) ≡ on_event skip e (on_events skip es r)
  unfolding on_events
  on_event-on_events skip e [] r a b h k = refl
  on_event-on_events skip e (f ∷ es) r a b h k =
      ap (on_events skip es) (on_event-on_event skip f e r b.0 a h.0 k)
      ∙ on_event-on_events skip e es (on_event skip f r) a b.1 h.1
          (IsByLower-same (on_event-SameNames skip f r) k)

  pub on_events-append :
      (skip : Bool) (es fs : List Event) (r : Registry S)
      → on_events skip (es ++ fs) r ≡ on_events skip fs (on_events skip es r)
  unfolding on_events
  on_events-append skip [] fs r = refl
  on_events-append skip (e ∷ es) fs r = on_events-append skip es fs (on_event skip e r)
