-- ===== src/Tunnels.antt =====
-- Tunnels of pkg/hal/hal.go: `AddTunnel`, `DeleteTunnel`, `AddSiEnvironment` and the requests and
-- searches they are made of. A request is its kind with the values that its template is filled
-- with; a reply is what the code reads of it: the tokens of the XML decoder, and the first match of
-- the address pattern.
pub mod Commits
pub mod Filling
pub mod Markup
pub mod Texts
pub mod Documents
pub mod Reading
pub mod Requests
use vmw_tsf.Prelude.{
  ℕ, Str, ◌≡◌, Bool, true, false, List, [], ◌∷◌, ◌++◌, Option, none, some, str, str_eqb,
  if◌then◌else◌,
}
use vmw_tsf.Net.{Ip}
use vmw_tsf.Net.Text.{ip_text}
use vmw_tsf.Outcome.{
  Outcome, ok, err, crash, proceed, not_found, bad_reply, bad_address, unsupported,
}
use vmw_tsf.Netconf.{Reply, done, failed, result, commit_result}

pub data TunnelType : Type 0 where
  rsvp : TunnelType
  vxlan : TunnelType
  other_type : ℕ → TunnelType

-- A request and what its template prints; `vxlan_add` prints no address, and
-- `si_environment_add` not the entry.
pub data TunnelRequest : Type 0 where
  rsvp_add : Str → Ip → Ip → TunnelRequest
  vxlan_add : Str → TunnelRequest
  rsvp_delete : Str → TunnelRequest
  vxlan_delete : Str → TunnelRequest
  rsvp_explicit_path : Str → TunnelRequest
  interfaces_get : TunnelRequest
  descriptions_get : TunnelRequest
  si_interfaces_get : Str → TunnelRequest
  si_interface_delete : Str → Str → TunnelRequest
  si_interface_add : Str → Str → Str → TunnelRequest
  flow_monitoring_delete : Str → TunnelRequest
  flow_monitoring_add : Str → Str → Str → TunnelRequest
  si_environment_add : Str → TunnelRequest
  commit : TunnelRequest

-- The fields of a "config-items" element that are read.
pub record ConfigItems : Type 0 where
  pub ip : Str
  pub prefix_length : Str
  pub description : Str

-- The fields of an "interface" element that are read.
pub record SiInterfaceCfg : Type 0 where
  pub name : Str
  pub addr : Str

-- A token of the decoder: the elements "name" (with its text), "config-items" and "interface",
-- `none` where their content does not decode, any other token, and an error of the decoder, whose
-- token is nil: the loops end there as at the end of the document.
pub data Token : Type 0 where
  name_element : Option Str → Token
  config_items : Option ConfigItems → Token
  interface_element : Option SiInterfaceCfg → Token
  other_token : Token
  bad_token : Token

pub record Answer : Type 0 where
  pub tokens : List Token
  pub explicit_address : Option Str

abbrev pub text_or : Option Str → Str → Str
text_or none ifc = ifc
text_or (some name) ifc = name

-- The loop of `GetInterfaceConnectedTo`; `holds` is whether the network parses and contains the
-- address `addr`.
unfoldable pub find_connected : (Str → Bool) → Ip → Str → List Token → Outcome Str
find_connected holds addr ifc [] = err (not_found (ip_text addr))
find_connected holds addr ifc (name_element name ∷ ts) =
    find_connected holds addr (text_or name ifc) ts
find_connected holds addr ifc (config_items none ∷ ts) = err (bad_reply [])
find_connected holds addr ifc (config_items (some cfg) ∷ ts) =
    let later = find_connected holds addr ifc ts in
    if holds (cfg.ip ++ b'/' ∷ cfg.prefix_length) then ok ifc else later
find_connected holds addr ifc (interface_element cfg ∷ ts) = find_connected holds addr ifc ts
find_connected holds addr ifc (other_token ∷ ts) = find_connected holds addr ifc ts
find_connected holds addr ifc (bad_token ∷ ts) = err (not_found (ip_text addr))

-- The loop of `GetInterfaceByDescription`.
unfoldable pub find_described : Str → Str → List Token → Outcome Str
find_described desc ifc [] = err (not_found desc)
find_described desc ifc (name_element name ∷ ts) = find_described desc (text_or name ifc) ts
find_described desc ifc (config_items none ∷ ts) = find_described desc ifc ts
find_described desc ifc (config_items (some cfg) ∷ ts) =
    let later = find_described desc ifc ts in if str_eqb cfg.description desc then ok ifc else later
find_described desc ifc (interface_element cfg ∷ ts) = find_described desc ifc ts
find_described desc ifc (other_token ∷ ts) = find_described desc ifc ts
find_described desc ifc (bad_token ∷ ts) = err (not_found desc)

abbrev pub add_first : Str → Outcome (List Str) → Outcome (List Str)
add_first name (ok names) = ok (name ∷ names)
add_first name (err e) = err e
add_first name crash = crash

-- The loop of `GetServiceInstanceInterfaces`, of which only the physical names are used; `parses`
-- is whether `net.ParseCIDR` accepts a text.
unfoldable pub si_names : (Str → Bool) → List Token → Outcome (List Str)
si_names parses [] = ok []
si_names parses (interface_element none ∷ ts) = err (bad_reply [])
si_names parses (interface_element (some cfg) ∷ ts) =
    let later = si_names parses ts in
    if str_eqb cfg.addr []
    then later
    else if parses cfg.addr
    then add_first cfg.name later
    else err (bad_address cfg.addr)
si_names parses (bad_token ∷ ts) = ok []
si_names parses (name_element name ∷ ts) = si_names parses ts
si_names parses (config_items cfg ∷ ts) = si_names parses ts
si_names parses (other_token ∷ ts) = si_names parses ts

abbrev pub halo : Str
halo = str "halo"

-- The parameters: `net.ParseIP`; whether a text parses as a network, and whether it then contains
-- an address.
module _ {D : Type 0} (exec : TunnelRequest → D → Reply Answer × D) (parse_ip : Str → Ip)
    (parses : Str → Bool) (contains : Str → Ip → Bool) where
  unfoldable pub send : TunnelRequest → D → Outcome (Unit {0}) × D
  send q d = let (reply, d') = exec q d in (result reply, d')

  abbrev pub reading : {A : Type 0} → (Answer → Outcome A) → Reply Answer → Outcome A
  reading read (done a) = read a
  reading read (failed e) = err (bad_reply e)

  -- A request whose reply is read.
  unfoldable pub ask : {A : Type 0} → TunnelRequest → (Answer → Outcome A) → D → Outcome A × D
  ask q read d = let (reply, d') = exec q d in (reading read reply, d')

  -- The submatch that is missing where the pattern does not match: an index out of range.
  abbrev pub address_of : Answer → Outcome Ip
  address_of a = elim a.explicit_address [ none ↦ crash | some s ↦ ok (parse_ip s) ]

  unfoldable pub get_rsvp_tunnel_interface : Str → D → Outcome Str × D
  unfolding ask find_connected
  get_rsvp_tunnel_interface name d =
      proceed (ask (rsvp_explicit_path (name ++ str "path")) address_of d)
        λ addr. ask interfaces_get (λ a. find_connected (λ net. contains net addr) addr [] a.tokens)

  unfoldable pub get_vxlan_tunnel_interface : Str → D → Outcome Str × D
  unfolding ask find_described
  get_vxlan_tunnel_interface name = ask descriptions_get (λ a. find_described name [] a.tokens)

  unfoldable pub commit_tunnel : D → Outcome (Unit {0}) × D
  commit_tunnel d = let (reply, d') = exec commit d in (commit_result reply, d')

  -- The end of `AddTunnel`: the interface joins the service instance, and its flows are monitored.
  unfoldable pub join_instance : Str → Str → D → Outcome (Unit {0}) × D
  unfolding send commit_tunnel
  join_instance address ifc d =
      proceed (send (si_interface_add halo ifc address) d)
        λ _ d₁. proceed (send (flow_monitoring_add ifc halo halo) d₁) λ _. commit_tunnel

  -- After the search for an RSVP tunnel's interface: its error is dropped, and the rest skipped.
  unfoldable pub join_if_found : Str → Outcome Str × D → Outcome (Unit {0}) × D
  unfolding join_instance
  join_if_found address (ok ifc, d) = join_instance address ifc d
  join_if_found address (err e, d) = commit_tunnel d
  join_if_found address (crash, d) = (crash, d)

  -- `AddTunnel`; `address` is the text of the HALO address with the length of its network.
  unfoldable pub add_tunnel : Str → Ip → Ip → TunnelType → Str → D → Outcome (Unit {0}) × D
  unfolding get_rsvp_tunnel_interface get_vxlan_tunnel_interface join_if_found
  add_tunnel name source destination rsvp address d =
      proceed (send (rsvp_add name source destination) d)
        λ _ d₁. join_if_found address (get_rsvp_tunnel_interface name d₁)
  add_tunnel name source destination vxlan address d =
      proceed (get_vxlan_tunnel_interface name d)
        λ ifc d₁. proceed (send (vxlan_add ifc) d₁) λ _. join_instance address ifc
  add_tunnel name source destination (other_type t) address d = (err unsupported, d)

  -- The loop of `DeleteTunnel` over the instance's interfaces.
  unfoldable pub leave_instance : Str → List Str → D → Outcome (Unit {0}) × D
  unfolding send
  leave_instance ifc [] d = (ok tt, d)
  leave_instance ifc (halo_ifc ∷ rest) d = elim (str_eqb ifc halo_ifc) [
    | true ↦
        proceed (send (si_interface_delete halo ifc) d)
          λ _ d₁. proceed (send (flow_monitoring_delete ifc) d₁) λ _. leave_instance ifc rest
    | false ↦ leave_instance ifc rest d
  ]

  -- The end of `DeleteTunnel`: an error of the list of interfaces only skips the loop.
  unfoldable pub leave_listed : Str → Outcome (List Str) × D → Outcome (Unit {0}) × D
  unfolding leave_instance commit_tunnel
  leave_listed ifc (ok names, d) = proceed (leave_instance ifc names d) λ _. commit_tunnel
  leave_listed ifc (err e, d) = commit_tunnel d
  leave_listed ifc (crash, d) = (crash, d)

  unfoldable pub delete_from_instance : Str → D → Outcome (Unit {0}) × D
  unfolding ask si_names leave_listed
  delete_from_instance ifc d =
      leave_listed ifc (ask (si_interfaces_get halo) (λ a. si_names parses a.tokens) d)

  -- `DeleteTunnel`.
  unfoldable pub delete_tunnel : Str → TunnelType → D → Outcome (Unit {0}) × D
  unfolding get_rsvp_tunnel_interface get_vxlan_tunnel_interface send delete_from_instance
  delete_tunnel name rsvp d =
      proceed (send (rsvp_delete name) d)
        λ _ d₁. proceed (get_rsvp_tunnel_interface name d₁) delete_from_instance
  delete_tunnel name vxlan d =
      proceed (get_vxlan_tunnel_interface name d)
        λ ifc d₁. proceed (send (vxlan_delete ifc) d₁) λ _. delete_from_instance ifc
  delete_tunnel name (other_type t) d = (err unsupported, d)

  -- The loop of `AddSiEnvironment`: a request for each entry, which the template does not get.
  unfoldable pub add_si_environment : Str → List Str → D → Outcome (Unit {0}) × D
  unfolding send
  add_si_environment name [] d = (ok tt, d)
  add_si_environment name (entry ∷ env) d =
      proceed (send (si_environment_add name) d) λ _. add_si_environment name env
