-- ===== src/Tunnels/Requests.antt =====
-- What a device reads in the requests of pkg/hal/hal.go.
use vmw_tsf.Prelude.{
  Str, ◌≡◌, refl, ◌∙◌, ap, List, [], ◌∷◌, ◌++◌, Option, none, some, str, All, str_eq,
}
use mathlib.Core.List.{append_assoc}
use vmw_tsf.Prelude.Map.{lookup}
use vmw_tsf.Net.Text.{ip_text}
use vmw_tsf.Tunnels.{
  TunnelRequest, rsvp_add, vxlan_add, rsvp_delete, vxlan_delete, rsvp_explicit_path, interfaces_get,
  descriptions_get, si_interfaces_get, si_interface_delete, si_interface_add,
  flow_monitoring_delete, flow_monitoring_add, si_environment_add, commit,
}
use vmw_tsf.Tunnels.Filling.{pieces}
use vmw_tsf.Tunnels.Markup.{read, leaves_of}
use vmw_tsf.Tunnels.Reading.{IsPlain, leaves_of-execute}
use vmw_tsf.Tunnels.Texts.Edits.{
  rsvp_tunnel_add_xml, vxlan_tunnel_add_xml, rsvp_tunnel_delete_xml, vxlan_tunnel_delete_xml,
}
use vmw_tsf.Tunnels.Texts.Gets.{
  rsvp_tunnel_get_explicit_path_xml, interfaces_get_xml, interfaces_description_get_xml,
  service_instance_interfaces_get_xml,
}
use vmw_tsf.Tunnels.Texts.Instances.{
  si_interface_delete_xml, si_interface_add_xml, si_environment_add_xml,
  interface_flow_monitoring_delete_xml, interface_flow_monitoring_add_xml,
}
use vmw_tsf.Tunnels.Documents.{
  method_rsvp_tunnel_add, method_vxlan_tunnel_add, method_rsvp_tunnel_delete,
  method_vxlan_tunnel_delete, method_rsvp_tunnel_get_explicit_path,
  method_service_instance_interfaces_get, method_si_interface_delete, method_si_interface_add,
  method_si_environment_add, method_interface_flow_monitoring_delete,
  method_interface_flow_monitoring_add, commit_text, document,
}

-- The values that a request prints.
abbrev pub values_of : TunnelRequest → List Str
values_of (rsvp_add name source destination) = name ∷ ip_text source ∷ ip_text destination ∷ []
values_of (vxlan_add name) = name ∷ []
values_of (rsvp_delete name) = name ∷ []
values_of (vxlan_delete name) = name ∷ []
values_of (rsvp_explicit_path name) = name ∷ []
values_of interfaces_get = []
values_of descriptions_get = []
values_of (si_interfaces_get name) = name ∷ []
values_of (si_interface_delete name ifname) = name ∷ ifname ∷ []
values_of (si_interface_add name ifname address) = name ∷ ifname ∷ address ∷ []
values_of (flow_monitoring_delete ifname) = ifname ∷ []
values_of (flow_monitoring_add ifname profile tname) = ifname ∷ profile ∷ tname ∷ []
values_of (si_environment_add name) = name ∷ []
values_of commit = []

abbrev pub Content : Type 0
Content = List (Str × Str)

-- An edit of the candidate configuration, which is rolled back on an error.
abbrev pub edit : Str → Content → Option Content
edit operation content = some (
    (str "candidate", [])
    ∷ (str "default-operation", operation)
    ∷ (str "error-option", str "rollback-on-error")
    ∷ content)

-- A query of the running configuration; the filter's type is spelled as in the code.
abbrev pub query : Content → Option Content
query content = some ((str "running", []) ∷ (str "filter type=\"subree\"", []) ∷ content)

abbrev pub rsvp_tunnel : Str → Str → Str → Str → Option Content
rsvp_tunnel name path source destination = edit (str "merge") (
    (str "tunnel-name", name)
    ∷ (str "cspf-calculation", str "disabled")
    ∷ (str "explicit-path-name", path)
    ∷ (str "priority", str "1")
    ∷ (str "priority", str "1")
    ∷ (str "source-address", source)
    ∷ (str "destination-address", destination)
    ∷ (str "admin-state", str "enabled")
    ∷ (str "tunnel-name", name)
    ∷ [])

-- What a request says: its elements with their texts, and those that carry attributes.
abbrev pub meaning : TunnelRequest → Option Content
meaning (rsvp_add name source destination) =
    rsvp_tunnel name (name ++ str "path") (ip_text source) (ip_text destination)
meaning (vxlan_add name) =
    edit (str "merge") ((str "enabled", str "true") ∷ (str "name", name) ∷ [])
meaning (rsvp_delete name) =
    edit (str "none") ((str "tunnel operation=\"delete\"", []) ∷ (str "tunnel-name", name) ∷ [])
meaning (vxlan_delete name) =
    edit (str "none") ((str "enabled", str "false") ∷ (str "name", name) ∷ [])
meaning (rsvp_explicit_path name) = query ((str "path-name", name) ∷ [])
meaning interfaces_get = query ((str "config-items", []) ∷ [])
meaning descriptions_get = query ((str "description", []) ∷ [])
meaning (si_interfaces_get name) = query ((str "si-name", name) ∷ (str "interface", []) ∷ [])
meaning (si_interface_delete name ifname) = edit (str "none") (
    (str "si-name", name)
    ∷ (str "interface operation=\"delete\"", [])
    ∷ (str "interface-name", ifname)
    ∷ [])
meaning (si_interface_add name ifname address) =
    edit (str "merge")
      ((str "si-name", name) ∷ (str "interface-name", ifname) ∷ (str "ipv4-address", address) ∷ [])
meaning (flow_monitoring_delete ifname) = edit (str "none") (
    (str "name", ifname)
    ∷ (str "dn-srv-flow-monitoring:flow-monitoring operation=\"delete\"", [])
    ∷ [])
meaning (flow_monitoring_add ifname profile tname) = edit (str "merge") (
    (str "sampler-profile-name", profile)
    ∷ (str "template-name", tname)
    ∷ (str "direction", str "in")
    ∷ (str "name", ifname)
    ∷ [])
meaning (si_environment_add name) = none
meaning commit = some ((str "commit", []) ∷ [])

append_path :
    (s : Str) → (((s ++ b'p' ∷ []) ++ b'a' ∷ []) ++ b't' ∷ []) ++ b'h' ∷ [] ≡ s ++ str "path"
append_path s = rw (append_assoc, append_assoc, append_assoc) refl

-- When the values hold neither `<` nor `&`, the document of a request reads as what it says, with
-- every value whole in its element; the document of `AddSiEnvironment`, whose values do not include
-- the entry, is not well formed.
pub leaves_of-document :
    (q : TunnelRequest) → All (All IsPlain) (values_of q) → leaves_of (document q) ≡ meaning q
unfolding leaves_of document method_rsvp_tunnel_add method_vxlan_tunnel_add
    method_rsvp_tunnel_delete method_vxlan_tunnel_delete method_rsvp_tunnel_get_explicit_path
    method_service_instance_interfaces_get method_si_interface_delete method_si_interface_add
    method_si_environment_add method_interface_flow_monitoring_delete
    method_interface_flow_monitoring_add commit_text rsvp_tunnel_add_xml vxlan_tunnel_add_xml
    rsvp_tunnel_delete_xml vxlan_tunnel_delete_xml rsvp_tunnel_get_explicit_path_xml
    interfaces_get_xml interfaces_description_get_xml service_instance_interfaces_get_xml
    si_interface_delete_xml si_interface_add_xml si_environment_add_xml
    interface_flow_monitoring_delete_xml interface_flow_monitoring_add_xml pieces read lookup
leaves_of-document (rsvp_add name source destination) h =
    leaves_of-execute rsvp_tunnel_add_xml
      ((str "name", name)
        ∷ (str "source", ip_text source)
        ∷ (str "destination", ip_text destination)
        ∷ [])
      h
    ∙ ap (λ path. rsvp_tunnel name path (ip_text source) (ip_text destination)) (append_path name)
leaves_of-document (vxlan_add name) h =
    leaves_of-execute vxlan_tunnel_add_xml ((str "name", name) ∷ []) h
leaves_of-document (rsvp_delete name) h =
    leaves_of-execute rsvp_tunnel_delete_xml ((str "name", name) ∷ []) h
leaves_of-document (vxlan_delete name) h =
    leaves_of-execute vxlan_tunnel_delete_xml ((str "name", name) ∷ []) h
leaves_of-document (rsvp_explicit_path name) h =
    leaves_of-execute rsvp_tunnel_get_explicit_path_xml ((str "name", name) ∷ []) h
leaves_of-document interfaces_get h = refl
leaves_of-document descriptions_get h = refl
leaves_of-document (si_interfaces_get name) h =
    leaves_of-execute service_instance_interfaces_get_xml ((str "name", name) ∷ []) h
leaves_of-document (si_interface_delete name ifname) h =
    leaves_of-execute si_interface_delete_xml ((str "name", name) ∷ (str "interface", ifname) ∷ [])
      h
leaves_of-document (si_interface_add name ifname address) h =
    leaves_of-execute si_interface_add_xml
      ((str "name", name) ∷ (str "interface", ifname) ∷ (str "address", address) ∷ []) h
leaves_of-document (flow_monitoring_delete ifname) h =
    leaves_of-execute interface_flow_monitoring_delete_xml ((str "interface", ifname) ∷ []) h
leaves_of-document (flow_monitoring_add ifname profile tname) h =
    leaves_of-execute interface_flow_monitoring_add_xml
      ((str "interface", ifname) ∷ (str "profile", profile) ∷ (str "template", tname) ∷ []) h
leaves_of-document (si_environment_add name) h =
    leaves_of-execute si_environment_add_xml ((str "name", name) ∷ []) h
leaves_of-document commit h = refl
