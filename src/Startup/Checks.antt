-- ===== src/Startup/Checks.antt =====
-- What the start of the registry (pkg/hal/hal.go) accepts, and what it leaves.
use vmw_tsf.Prelude.{
  ℕ, Str, ◌≡◌, refl, ◌↔◌, Bool, true, false, List, [], ◌∷◌, Option, none, some, str_eqb,
  if◌then◌else◌,
}
use vmw_tsf.Net.{Ip}
use vmw_tsf.Outcome.{Outcome, ok, err, crash, ◌>>=◌}
use vmw_tsf.Registry.{Registry, Manager, new_interface, init_interfaces}
use vmw_tsf.Registry.Invariant.{IsValid, new_interface-IsValid, init_interfaces-IsValid}
use vmw_tsf.Startup.{
  InterfaceCfg, InterfacesCfg, Notification, get_dn_if_index, index_value, or_fatal, add_lan,
  lan_loop, add_wan, add_wan_named, wans_named, wan_loop, start_interfaces,
}

module _ (unmarshal : Str → Option ℕ) where
  value_iff : (o : Option ℕ) (n : ℕ) → (index_value unmarshal o ≡ ok n) ↔ (o ≡ some n)
  unfolding index_value
  value_iff none n = ((λ h. absurd (cc)), λ h. absurd (cc))
  value_iff (some m) n = ((λ h. cc), λ h. cc)

  reply_iff :
      (o : Option (List Notification)) (lower : Str) (n : ℕ)
      → (get_dn_if_index unmarshal (λ l. o) lower ≡ ok n)
        ↔ ((val : Str) × (o ≡ some ((val ∷ []) ∷ [])) × (unmarshal val ≡ some n))
  unfolding get_dn_if_index
  reply_iff none lower n = ((λ h. absurd (cc)), λ (v, h, k). absurd (cc))
  reply_iff (some []) lower n = ((λ h. absurd (cc)), λ (v, h, k). absurd (cc))
  reply_iff (some ([] ∷ [])) lower n = ((λ h. absurd (cc)), λ (v, h, k). absurd (cc))
  reply_iff (some ((val ∷ []) ∷ [])) lower n = (
    (λ h. (val, refl, (value_iff (unmarshal val) n).0 h)),
    λ (v, h, k). (value_iff (unmarshal val) n).1 (cc),
  )
  reply_iff (some ((val ∷ next ∷ more) ∷ [])) lower n =
      ((λ h. absurd (cc)), λ (v, h, k). absurd (cc))
  reply_iff (some (a ∷ b ∷ more)) lower n = ((λ h. absurd (cc)), λ (v, h, k). absurd (cc))

  -- `getDnIfIndex` answers an index exactly when the request succeeds with one notification of one
  -- update, whose value decodes to that index.
  pub get_dn_if_index_iff :
      (get : Str → Option (List Notification)) (lower : Str) (n : ℕ)
      → (get_dn_if_index unmarshal get lower ≡ ok n)
        ↔ ((val : Str) × (get lower ≡ some ((val ∷ []) ∷ [])) × (unmarshal val ≡ some n))
  get_dn_if_index_iff get lower n = unfold get_dn_if_index in reply_iff (get lower) lower n

-- A valid registry or the end of the process, and no error value.
abbrev pub Keeps : {S : Type 0} → Outcome (Registry S) → Type 0
Keeps (ok r) = IsValid r
Keeps (err e) = ⊥
Keeps crash = Unit

module _ {S : Type 0} where
  or_fatal-Keeps : (p : Outcome ℕ × Registry S) → IsValid p.1 → Keeps (or_fatal p)
  or_fatal-Keeps (ok q, r) v = v
  or_fatal-Keeps (err e, r) v = tt
  or_fatal-Keeps (crash, r) v = tt

  then-Keeps :
      (o : Outcome (Registry S)) (k : Registry S → Outcome (Registry S))
      → Keeps o
      → ((r : Registry S) → IsValid r → Keeps (k r))
      → Keeps (o >>= k)
  then-Keeps (ok r) k v h = h r v
  then-Keeps (err e) k v h = absurd v
  then-Keeps crash k v h = tt

  if-Keeps :
      (b : Bool) (x y : Outcome (Registry S)) → Keeps x → Keeps y → Keeps (if b then x else y)
  if-Keeps true x y h k = h
  if-Keeps false x y h k = k

module _ {S : Type 0} (mgr : Manager S) (index_of : Str → Outcome ℕ) (parse_ip : Str → Ip)
    (cfg : InterfacesCfg) where
  add_lan-Keeps :
      (name : Str) (r : Registry S) → IsValid r → Keeps (add_lan mgr index_of parse_ip cfg name r)
  unfolding add_lan
  add_lan-Keeps name r v =
      if-Keeps (str_eqb cfg.lan.lower []) crash _ tt
        (or_fatal-Keeps (new_interface mgr _ r) (new_interface-IsValid mgr _ r v))

  lan_loop-Keeps :
      (names : List Str) (r : Registry S)
      → IsValid r
      → Keeps (lan_loop mgr index_of parse_ip cfg names r)
  unfolding lan_loop
  lan_loop-Keeps [] r v = v
  lan_loop-Keeps (name ∷ names) r v =
      if-Keeps (str_eqb name cfg.lan.upper) _ _ (add_lan-Keeps name r v) (lan_loop-Keeps names r v)

  wans_named-Keeps :
      (name : Str) (ws : List InterfaceCfg) (r : Registry S)
      → IsValid r
      → Keeps (wans_named mgr index_of parse_ip cfg name ws r)
  unfolding wans_named add_wan_named add_wan
  wans_named-Keeps name [] r v = v
  wans_named-Keeps name (w ∷ ws) r v =
      then-Keeps _ _
        (if-Keeps (str_eqb w.upper name) _ (ok r)
          (or_fatal-Keeps (new_interface mgr _ r) (new_interface-IsValid mgr _ r v)) v)
        λ r' v'. wans_named-Keeps name ws r' v'

  wan_loop-Keeps :
      (names : List Str) (r : Registry S)
      → IsValid r
      → Keeps (wan_loop mgr index_of parse_ip cfg names r)
  unfolding wan_loop
  wan_loop-Keeps [] r v = v
  wan_loop-Keeps (name ∷ names) r v =
      then-Keeps (wans_named mgr index_of parse_ip cfg name cfg.wan r)
        (wan_loop mgr index_of parse_ip cfg names) (wans_named-Keeps name cfg.wan r v)
        λ r' v'. wan_loop-Keeps names r' v'

  -- `InitInterfaces` leaves a valid registry or ends the process; it returns no error.
  pub start_interfaces-Keeps :
      (names : List Str) (m : Option S) → Keeps (start_interfaces mgr index_of parse_ip cfg names m)
  unfolding start_interfaces
  start_interfaces-Keeps names m =
      then-Keeps (lan_loop mgr index_of parse_ip cfg names (init_interfaces m))
        (wan_loop mgr index_of parse_ip cfg names)
        (lan_loop-Keeps names (init_interfaces m) (init_interfaces-IsValid m))
        λ r v. wan_loop-Keeps names r v
