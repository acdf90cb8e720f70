-- ===== src/Setup/Options.antt =====
-- How the options of `NewDnHal` (pkg/hal/hal.go) and the file of pkg/hal/config.go make up the
-- configuration.
use vmw_tsf.Prelude.{
  ℕ, ◌≡◌, refl, subst, ap, ◌∙◌, Str, Bool, true, false, List, [], ◌∷◌, Option, none, some,
  if◌then◌else◌, inl, inr, ◌⊎◌,
}
use vmw_tsf.Outcome.{ok, crash, bind_ok}
use vmw_tsf.Setup.{
  HalCfg, SetUp, OptionHal, option_hal_flush_steer, option_hal_stats_server,
  option_hal_flow_threshold, option_hal_config_required, apply_option, apply_options, System,
  load_config, load_file, loaded, with_upper, configure, update_upper_by_mac, env_text,
  workaround_viper_dict_dot_key_issue,
}

-- What an option sets, if it is of a kind.
abbrev pub flush_of : OptionHal → Option Bool
flush_of (option_hal_flush_steer b) = some b
flush_of _ = none

abbrev pub stats_of : OptionHal → Option Bool
stats_of (option_hal_stats_server b) = some b
stats_of _ = none

abbrev pub threshold_of : OptionHal → Option ℕ
threshold_of (option_hal_flow_threshold n) = some n
threshold_of _ = none

abbrev pub required_of : OptionHal → Option Bool
required_of (option_hal_config_required b) = some b
required_of _ = none

module _ {A : Type 0} (of : OptionHal → Option A) where
  abbrev pub or_before : Option A → A → A
  or_before (some a) before = a
  or_before none before = before

  -- The last value that the options set, or the value before.
  unfoldable pub chosen : List OptionHal → A → A
  chosen [] before = before
  chosen (op ∷ ops) before = chosen ops (or_before (of op) before)

apply_options-chosen :
    (ops : List OptionHal) (s : SetUp)
    → ((apply_options ops s).config.flush_steer ≡ chosen flush_of ops s.config.flush_steer)
      × ((apply_options ops s).config.stats_server ≡ chosen stats_of ops s.config.stats_server)
      × ((apply_options ops s).config.flow_threshold
          ≡ chosen threshold_of ops s.config.flow_threshold)
      × ((apply_options ops s).config_required ≡ chosen required_of ops s.config_required)
unfolding apply_options apply_option chosen
apply_options-chosen [] s = (refl, refl, refl, refl)
apply_options-chosen (option_hal_flush_steer b ∷ ops) s =
    apply_options-chosen ops (apply_option (option_hal_flush_steer b) s)
apply_options-chosen (option_hal_stats_server b ∷ ops) s =
    apply_options-chosen ops (apply_option (option_hal_stats_server b) s)
apply_options-chosen (option_hal_flow_threshold n ∷ ops) s =
    apply_options-chosen ops (apply_option (option_hal_flow_threshold n) s)
apply_options-chosen (option_hal_config_required b ∷ ops) s =
    apply_options-chosen ops (apply_option (option_hal_config_required b) s)

-- The settings that the options can change.
abbrev pub SameSettings : HalCfg → HalCfg → Type 0
SameSettings c c' =
    (c'.flush_steer ≡ c.flush_steer)
    × (c'.stats_server ≡ c.stats_server)
    × (c'.flow_threshold ≡ c.flow_threshold)

SameSettings-at : (c d e : HalCfg) → SameSettings c d → d ≡ e → SameSettings c e
SameSettings-at c d e s q = subst (SameSettings c) q s

module _ {V : Type 0} (sys : System V) where
  -- The settings that `viper.Unmarshal` leaves: it is given the options' ones, and the address from
  -- the environment.
  abbrev pub from_file : List OptionHal → SetUp → HalCfg
  from_file ops s =
      sys.unmarshal sys.file
        (record (apply_options ops s).config { dnos_addr = env_text sys.dnos_addr })

  -- The set-up chose the options over the file, and the file, if it must be there, was there.
  abbrev pub IsConfigured : List OptionHal → SetUp → SetUp → Type 0
  IsConfigured ops s s' =
      (s'.config.flush_steer ≡ chosen flush_of ops (from_file ops s).flush_steer)
      × (s'.config.stats_server ≡ chosen stats_of ops (from_file ops s).stats_server)
      × (s'.config.flow_threshold ≡ chosen threshold_of ops (from_file ops s).flow_threshold)
      × ((chosen required_of ops s.config_required ≡ false) ⊎ ((v : V) × (sys.file ≡ some v)))

  with_upper-SameSettings :
      (ifs : Option (List (Str × Str))) (s u : SetUp)
      → with_upper sys ifs s ≡ ok u
      → SameSettings s.config u.config
  unfolding update_upper_by_mac
  with_upper-SameSettings none s u e = cc
  with_upper-SameSettings (some ifs) s u e =
      let q : record s { config = update_upper_by_mac ifs s.config } ≡ u = cc in
      SameSettings-at s.config (update_upper_by_mac ifs s.config) u.config (refl, refl, refl)
        (ap (λ x. x.config) q)

  with_file-SameSettings :
      (file : Option V) (s u : SetUp)
      → record s { config = loaded sys file s.config } ≡ u
      → SameSettings
          (sys.unmarshal file (record s.config { dnos_addr = env_text sys.dnos_addr }))
          u.config
  unfolding workaround_viper_dict_dot_key_issue
  with_file-SameSettings file s u q =
      let c = sys.unmarshal file (record s.config { dnos_addr = env_text sys.dnos_addr }) in
      SameSettings-at c (loaded sys file s.config) u.config (refl, refl, refl)
        (ap (λ x. x.config) q)

  missing_file :
      (required : Bool) (s u : SetUp)
      → (if required then crash else ok s) ≡ ok u
      → (required ≡ false) × (s ≡ u)
  missing_file true s u e = cc
  missing_file false s u e = (refl, cc)

  load_file-SameSettings :
      (file : Option V) (s u : SetUp)
      → load_file sys file s ≡ ok u
      → SameSettings
          (sys.unmarshal file (record s.config { dnos_addr = env_text sys.dnos_addr }))
          u.config
        × ((s.config_required ≡ false) ⊎ ((v : V) × (file ≡ some v)))
  load_file-SameSettings (some v) s u e = (with_file-SameSettings (some v) s u (cc), inr (v, refl))
  load_file-SameSettings none s u e =
      let (unneeded, q) = missing_file s.config_required _ u e in
      (with_file-SameSettings none s u q, inl unneeded)

  pub configure-IsConfigured :
      (ops : List OptionHal) (s s' : SetUp) → configure sys ops s ≡ ok s' → IsConfigured ops s s'
  unfolding configure load_config
  configure-IsConfigured ops s s' e =
      let (c, read, later) = bind_ok (load_file sys sys.file (apply_options ops s)) _ s' e in
      let (u, upper, last) = bind_ok (with_upper sys sys.interfaces c) _ s' later in
      let q : apply_options ops u ≡ s' = cc in
      let ((f, t, n), there) = load_file-SameSettings sys.file (apply_options ops s) c read in
      let (f', t', n') = with_upper-SameSettings sys.interfaces c u upper in
      let (flush, stats, threshold, req) = apply_options-chosen ops u in
      rw (← q) (
        flush ∙ ap (chosen flush_of ops) (f' ∙ f),
        stats ∙ ap (chosen stats_of ops) (t' ∙ t),
        threshold ∙ ap (chosen threshold_of ops) (n' ∙ n),
        rw (← (apply_options-chosen ops s).3) there,
      )
