-- ===== src/Setup/Starts.antt =====
-- What `NewDnHal` (pkg/hal/hal.go) has done when it returns.
use vmw_tsf.Prelude.{◌≡◌, true, false, List, []}
use vmw_tsf.Outcome.{Outcome, ok}
use vmw_tsf.Registry.{Registry}
use vmw_tsf.Registry.Invariant.{IsValid}
use vmw_tsf.Netconf.{get_acl_rules}
use vmw_tsf.Loading.{init_net_conf}
use vmw_tsf.Setup.{OptionHal, System}
use vmw_tsf.Setup.Options.{IsConfigured}
use vmw_tsf.Setup.Running.{Hal, Surroundings, init_flows, flush}

module _ {S D V : Type 0} (env : Surroundings S D) (sys : System V) where
  -- A HAL that runs: its registry is valid, it has no flows yet, its rule cache and `accessListID`
  -- are what `InitNetConf` made of the device's answer to one request, and unless it was to flush
  -- the rules, that was the only request.
  pub record IsRunning (ops : List OptionHal) (h h' : Hal S) (d d' : D) : Type 0 where
    pub initialized : h'.initialized ≡ true
    pub configured : IsConfigured sys ops h.set_up h'.set_up
    pub valid : IsValid h'.registry
    pub no_flows : h'.flows ≡ init_flows env.now
    pub loaded :
        (init_net_conf env.parse_cidr env.exec
          (record h.acl { rules = [] })
          (flush env h'.set_up.config.flush_steer d).1).0
        ≡ ok h'.acl
    pub read : d' ≡ (env.exec get_acl_rules (flush env h'.set_up.config.flush_steer d).1).1
    pub untouched : h'.set_up.config.flush_steer ≡ false → d' ≡ (env.exec get_acl_rules d).1
