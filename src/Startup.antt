-- ===== src/Startup.antt =====
-- The start of the registry in pkg/hal/hal.go: `getDnIfIndex`, and `InitInterfaces` on the names of
-- the system's interfaces and the configuration of pkg/hal/config.go. The reply of the gNMI client
-- and `json.Unmarshal` into a uint32 are parameters.
pub mod Checks
use vmw_tsf.Prelude.{
  ℕ, Str, ◌≡◌, Bool, true, false, List, [], ◌∷◌, Option, none, some, str_eqb, if◌then◌else◌, str_eq,
}
use vmw_tsf.Prelude.Map.{Map, lookup}
use vmw_tsf.Net.{Ip}
use vmw_tsf.Outcome.{Outcome, ok, err, crash, ◌>>=◌, request_failed, bad_count}
use vmw_tsf.Registry.{
  Registry, Manager, OptionInterface, option_interface_upper, option_interface_lower,
  option_interface_update_net_flow_id, option_interface_next_hop, option_interface_twamp,
  new_interface, init_interfaces,
}

pub record InterfaceCfg : Type 0 where
  pub upper : Str
  pub lower : Str
  pub hw_addr : Str
  pub ipv4_addr : Str

pub record TwampCfg : Type 0 where
  pub host : Str
  pub port : ℕ

-- What the start reads of the configuration: `Lan`, `Wan`, `Topo.NextHop`, `Topo.Twamp`.
pub record InterfacesCfg : Type 0 where
  pub lan : InterfaceCfg
  pub wan : List InterfaceCfg
  pub next_hop : Map Str Str
  pub twamp : Map Str TwampCfg

-- A notification of the reply: the JSON values of its updates.
abbrev pub Notification : Type 0
Notification = List Str

module _ (unmarshal : Str → Option ℕ) where
  unfoldable pub index_value : Option ℕ → Outcome ℕ
  index_value none = crash
  index_value (some n) = ok n

  unfoldable pub single_update : Notification → Outcome ℕ
  unfolding index_value
  single_update [] = err bad_count
  single_update (val ∷ []) = index_value (unmarshal val)
  single_update (val ∷ next ∷ more) = err bad_count

  unfoldable pub single_notification : List Notification → Outcome ℕ
  unfolding single_update
  single_notification [] = err bad_count
  single_notification (n ∷ []) = single_update n
  single_notification (n ∷ next ∷ more) = err bad_count

  -- `getDnIfIndex`, by the client's reply; `none` is an error of the path or of the request.
  unfoldable pub get_dn_if_index : (Str → Option (List Notification)) → Str → Outcome ℕ
  unfolding single_notification
  get_dn_if_index get lower = elim (get lower) [
    | none ↦ err (request_failed lower)
    | some notifs ↦ single_notification notifs
  ]

-- `log.Fatal` on an error.
abbrev pub or_fatal : {S : Type 0} → Outcome ℕ × Registry S → Outcome (Registry S)
or_fatal (ok p, r) = ok r
or_fatal (err e, r) = crash
or_fatal (crash, r) = crash

-- The zero values that Go reads for a missing key.
abbrev pub text_at : Option Str → Str
text_at none = []
text_at (some s) = s

abbrev pub twamp_at : Option TwampCfg → TwampCfg
twamp_at none = record { host = []; port = 0 }
twamp_at (some t) = t

module _ {S : Type 0} (mgr : Manager S) (index_of : Str → Outcome ℕ) (parse_ip : Str → Ip)
    (cfg : InterfacesCfg) where
  unfoldable pub add_lan : Str → Registry S → Outcome (Registry S)
  add_lan name r =
      if str_eqb cfg.lan.lower []
      then crash
      else or_fatal (
          new_interface mgr
            (option_interface_upper name
              ∷ option_interface_lower cfg.lan.lower
              ∷ option_interface_update_net_flow_id index_of
              ∷ [])
            r)

  -- The first loop: up to the interface with the configured name.
  unfoldable pub lan_loop : List Str → Registry S → Outcome (Registry S)
  unfolding add_lan
  lan_loop [] r = ok r
  lan_loop (name ∷ names) r =
      let later = lan_loop names r in if str_eqb name cfg.lan.upper then add_lan name r else later

  unfoldable pub add_wan : InterfaceCfg → Registry S → Outcome (Registry S)
  add_wan w r =
      let t = twamp_at (lookup w.ipv4_addr cfg.twamp) in
      or_fatal (
        new_interface mgr
          (option_interface_upper w.upper
            ∷ option_interface_lower w.lower
            ∷ option_interface_twamp t.host t.port
            ∷ option_interface_next_hop (parse_ip (text_at (lookup w.ipv4_addr cfg.next_hop)))
            ∷ option_interface_update_net_flow_id index_of
            ∷ [])
          r)

  unfoldable pub add_wan_named : Str → InterfaceCfg → Registry S → Outcome (Registry S)
  unfolding add_wan
  add_wan_named name w r = if str_eqb w.upper name then add_wan w r else ok r

  unfoldable pub wans_named : Str → List InterfaceCfg → Registry S → Outcome (Registry S)
  unfolding add_wan_named
  wans_named name [] r = ok r
  wans_named name (w ∷ ws) r = add_wan_named name w r >>= wans_named name ws

  -- The second loop.
  unfoldable pub wan_loop : List Str → Registry S → Outcome (Registry S)
  unfolding wans_named
  wan_loop [] r = ok r
  wan_loop (name ∷ names) r = wans_named name cfg.wan r >>= wan_loop names

  -- `InitInterfaces`, on the names of the system's interfaces.
  unfoldable pub start_interfaces : List Str → Option S → Outcome (Registry S)
  unfolding lan_loop wan_loop
  start_interfaces names m = lan_loop names (init_interfaces m) >>= wan_loop names
