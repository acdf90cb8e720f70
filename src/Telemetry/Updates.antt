-- ===== src/Telemetry/Updates.antt =====
-- What the event loop of `monitorInterfaces` (pkg/hal/hal.go) does to the telemetry of an
-- interface, and that it leaves the registry itself alone.
use vmw_tsf.Prelude.{
  ℕ, zero, suc, Str, ◌≡◌, refl, ◌∙◌, Bool, true, false, List, [], ◌∷◌, Option, none, some, arith,
  get_elem?, eqb, if◌then◌else◌, str_eq,
}
use vmw_tsf.Prelude.Map.{Map, lookup}
use vmw_tsf.Registry.{Interface, InterfaceTelemetry, Float64, Registry, find_interface_by_lower}
use vmw_tsf.Registry.Invariant.{upper_of}
use vmw_tsf.Telemetry.{
  Event, speed_update, stats_update, twamp_results, modify, set_speed, set_counters, set_link,
  write_stats, update_interface_delay_jitter, update_links, on_event, on_events,
}

abbrev pub stats_of : Option Interface → Option InterfaceTelemetry
stats_of none = none
stats_of (some ifc) = some ifc.stats

abbrev pub over : {A : Type 0} → (A → A) → Option A → Option A
over f none = none
over f (some a) = some (f a)

abbrev pub points : Option ℕ → ℕ → Bool
points none p = false
points (some q) p = eqb q p

stats-modify :
    (q p : ℕ) (f : InterfaceTelemetry → InterfaceTelemetry) (store : List Interface)
    → stats_of (get_elem? (modify q f store) p)
      ≡ (if eqb q p then over f (stats_of (get_elem? store p)) else stats_of (get_elem? store p))
unfolding modify
stats-modify q p f [] = ground arith
stats-modify zero zero f (ifc ∷ rest) = refl
stats-modify zero (suc p) f (ifc ∷ rest) = ground arith
stats-modify (suc q) zero f (ifc ∷ rest) = ground arith
stats-modify (suc q) (suc p) f (ifc ∷ rest) = ground (arith, stats-modify q p f rest)

upper-modify :
    (q p : ℕ) (f : InterfaceTelemetry → InterfaceTelemetry) (store : List Interface)
    → upper_of (get_elem? (modify q f store) p) ≡ upper_of (get_elem? store p)
unfolding modify
upper-modify q p f [] = refl
upper-modify zero zero f (ifc ∷ rest) = refl
upper-modify zero (suc p) f (ifc ∷ rest) = refl
upper-modify (suc q) zero f (ifc ∷ rest) = refl
upper-modify (suc q) (suc p) f (ifc ∷ rest) = upper-modify q p f rest

-- What events mean for the interface behind a pointer, by the two maps that find it: a speed
-- update sets the speed, a counter update the four counters, a tick of the TWAMP timer the delay
-- and the jitter, unless TWAMP is skipped; events for other interfaces mean nothing.
abbrev pub link_effect :
    Map Str ℕ → ℕ → List (Str × Float64 × Float64) → InterfaceTelemetry → InterfaceTelemetry
link_effect uppers p [] t = t
link_effect uppers p ((upper, delay, jitter) ∷ rest) t =
    link_effect uppers p rest
      (if points (lookup upper uppers) p then set_link delay jitter t else t)

module _ (uppers lowers : Map Str ℕ) (p : ℕ) where
  abbrev pub effect : Bool → Event → InterfaceTelemetry → InterfaceTelemetry
  effect skip (speed_update name speed) t =
      if points (lookup name lowers) p then set_speed speed t else t
  effect skip (stats_update name stats) t =
      if points (lookup name lowers) p then set_counters stats t else t
  effect skip (twamp_results results) t = if skip then t else link_effect uppers p results t

  abbrev pub effects : Bool → List Event → InterfaceTelemetry → InterfaceTelemetry
  effects skip [] t = t
  effects skip (e ∷ es) t = effects skip es (effect skip e t)

over-over : {A : Type 0} (f g : A → A) (o : Option A) → over f (over g o) ≡ over (λ t. f (g t)) o
over-over f g none = refl
over-over f g (some t) = refl

over-id : {A : Type 0} (o : Option A) → o ≡ over (λ t. t) o
over-id none = refl
over-id (some t) = refl

module _ {S : Type 0} where
  -- The telemetry behind a pointer.
  abbrev pub telemetry : Registry S → ℕ → Option InterfaceTelemetry
  telemetry r p = stats_of (get_elem? r.store p)

  -- Registries that differ at most in the telemetry.
  pub record SameNames (a b : Registry S) : Type 0 where
    pub lan : a.lan ≡ b.lan
    pub wan : a.wan ≡ b.wan
    pub upper : a.upper2interface ≡ b.upper2interface
    pub lower : a.lower2interface ≡ b.lower2interface
    pub flow : a.net_flow2interface ≡ b.net_flow2interface
    pub hop : a.next_hop2interface ≡ b.next_hop2interface
    pub monitor : a.monitor ≡ b.monitor
    pub uppers : (p : ℕ) → upper_of (get_elem? a.store p) ≡ upper_of (get_elem? b.store p)

  pub write_stats-SameNames :
      (o : Option ℕ) (f : InterfaceTelemetry → InterfaceTelemetry) (r : Registry S)
      → SameNames (write_stats o f r) r
  unfolding write_stats
  write_stats-SameNames none f r = record {
    lan = refl;
    wan = refl;
    upper = refl;
    lower = refl;
    flow = refl;
    hop = refl;
    monitor = refl;
    uppers = λ p. refl;
  }
  write_stats-SameNames (some q) f r = record {
    lan = refl;
    wan = refl;
    upper = refl;
    lower = refl;
    flow = refl;
    hop = refl;
    monitor = refl;
    uppers = λ p. upper-modify q p f r.store;
  }

  SameNames-trans : {a b c : Registry S} → SameNames a b → SameNames b c → SameNames a c
  SameNames-trans h k = record {
    lan = h.lan ∙ k.lan;
    wan = h.wan ∙ k.wan;
    upper = h.upper ∙ k.upper;
    lower = h.lower ∙ k.lower;
    flow = h.flow ∙ k.flow;
    hop = h.hop ∙ k.hop;
    monitor = h.monitor ∙ k.monitor;
    uppers = λ p. h.uppers p ∙ k.uppers p;
  }

  update_links-SameNames :
      (results : List (Str × Float64 × Float64)) (r : Registry S)
      → SameNames (update_links results r) r
  unfolding update_links update_interface_delay_jitter
  update_links-SameNames [] r = write_stats-SameNames none (λ t. t) r
  update_links-SameNames ((upper, delay, jitter) ∷ rest) r =
      SameNames-trans
        (update_links-SameNames rest (update_interface_delay_jitter upper delay jitter r))
        (write_stats-SameNames (lookup upper r.upper2interface) (set_link delay jitter) r)

  pub on_event-SameNames :
      (skip : Bool) (e : Event) (r : Registry S) → SameNames (on_event skip e r) r
  unfolding on_event
  on_event-SameNames skip (speed_update name speed) r =
      write_stats-SameNames (find_interface_by_lower name r) (set_speed speed) r
  on_event-SameNames skip (stats_update name stats) r =
      write_stats-SameNames (find_interface_by_lower name r) (set_counters stats) r
  on_event-SameNames true (twamp_results results) r = write_stats-SameNames none (λ t. t) r
  on_event-SameNames false (twamp_results results) r = update_links-SameNames results r

  pub on_events-SameNames :
      (skip : Bool) (es : List Event) (r : Registry S) → SameNames (on_events skip es r) r
  unfolding on_events
  on_events-SameNames skip [] r = write_stats-SameNames none (λ t. t) r
  on_events-SameNames skip (e ∷ es) r =
      SameNames-trans (on_events-SameNames skip es (on_event skip e r))
        (on_event-SameNames skip e r)

  write_stats-telemetry :
      (o : Option ℕ) (f : InterfaceTelemetry → InterfaceTelemetry) (r : Registry S) (p : ℕ)
      → telemetry (write_stats o f r) p ≡ over (λ t. if points o p then f t else t) (telemetry r p)
  unfolding write_stats
  write_stats-telemetry none f r p = over-id (telemetry r p)
  write_stats-telemetry (some q) f r p = ground (arith, stats-modify q p f r.store)

  then_over :
      (F : Map Str ℕ → Map Str ℕ → InterfaceTelemetry → InterfaceTelemetry)
      (g : InterfaceTelemetry → InterfaceTelemetry) (a b : Registry S)
      (x y : Option InterfaceTelemetry)
      → SameNames a b
      → x ≡ over g y
      → over (F a.upper2interface a.lower2interface) x
        ≡ over (λ t. F b.upper2interface b.lower2interface (g t)) y
  then_over F g a b x y same h =
      (λ i. over (F (same.upper i) (same.lower i)) (h i))
      ∙ over-over (F b.upper2interface b.lower2interface) g y

  update_links-telemetry :
      (results : List (Str × Float64 × Float64)) (r : Registry S) (p : ℕ)
      → telemetry (update_links results r) p
        ≡ over (link_effect r.upper2interface p results) (telemetry r p)
  unfolding update_links update_interface_delay_jitter
  update_links-telemetry [] r p = over-id (telemetry r p)
  update_links-telemetry ((upper, delay, jitter) ∷ rest) r p =
      let to = lookup upper r.upper2interface in
      let r' = update_interface_delay_jitter upper delay jitter r in
      update_links-telemetry rest r' p
      ∙ then_over (λ u _. link_effect u p rest)
          (λ t. if points to p then set_link delay jitter t else t) r' r (telemetry r' p)
          (telemetry r p) (write_stats-SameNames to (set_link delay jitter) r)
          (write_stats-telemetry to (set_link delay jitter) r p)

  on_event-telemetry :
      (skip : Bool) (e : Event) (r : Registry S) (p : ℕ)
      → telemetry (on_event skip e r) p
        ≡ over (effect r.upper2interface r.lower2interface p skip e) (telemetry r p)
  unfolding on_event find_interface_by_lower
  on_event-telemetry skip (speed_update name speed) r p =
      write_stats-telemetry (lookup name r.lower2interface) (set_speed speed) r p
  on_event-telemetry skip (stats_update name stats) r p =
      write_stats-telemetry (lookup name r.lower2interface) (set_counters stats) r p
  on_event-telemetry true (twamp_results results) r p = over-id (telemetry r p)
  on_event-telemetry false (twamp_results results) r p = update_links-telemetry results r p

  events-telemetry :
      (skip : Bool) (es : List Event) (r : Registry S) (p : ℕ)
      → telemetry (on_events skip es r) p
        ≡ over (effects r.upper2interface r.lower2interface p skip es) (telemetry r p)
  unfolding on_events
  events-telemetry skip [] r p = over-id (telemetry r p)
  events-telemetry skip (e ∷ es) r p =
      let r' = on_event skip e r in
      events-telemetry skip es r' p
      ∙ then_over (λ u l. effects u l p skip es)
          (effect r.upper2interface r.lower2interface p skip e) r' r (telemetry r' p)
          (telemetry r p) (on_event-SameNames skip e r) (on_event-telemetry skip e r p)

  -- Whatever events arrive, in whatever order, the telemetry behind each pointer is what the
  -- events for it make of what it was, applied in that order; the lists, the maps, the upper names
  -- of the stored interfaces and the monitor stay as they were.
  pub on_events-telemetry :
      (skip : Bool) (es : List Event) (r : Registry S)
      → ((p : ℕ)
          → telemetry (on_events skip es r) p
            ≡ over (effects r.upper2interface r.lower2interface p skip es) (telemetry r p))
        × SameNames (on_events skip es r) r
  on_events-telemetry skip es r = (events-telemetry skip es r, on_events-SameNames skip es r)
