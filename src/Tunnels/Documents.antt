-- ===== src/Tunnels/Documents.antt =====
-- The documents of the requests of pkg/hal/hal.go: the functions `Method...`, which fill the texts
-- of Texts, and the commit of pkg/hal/netconf_api.go.
use vmw_tsf.Prelude.{Str, [], ◌∷◌, str}
use vmw_tsf.Net.{Ip}
use vmw_tsf.Net.Text.{ip_text}
use vmw_tsf.Tunnels.{
  TunnelRequest, rsvp_add, vxlan_add, rsvp_delete, vxlan_delete, rsvp_explicit_path, interfaces_get,
  descriptions_get, si_interfaces_get, si_interface_delete, si_interface_add,
  flow_monitoring_delete, flow_monitoring_add, si_environment_add, commit,
}
use vmw_tsf.Tunnels.Filling.{execute}
use vmw_tsf.Tunnels.Texts.Edits.{
  rsvp_tunnel_add_xml, vxlan_tunnel_add_xml, rsvp_tunnel_delete_xml, vxlan_tunnel_delete_xml,
}
use vmw_tsf.Tunnels.Texts.Gets.{
  rsvp_tunnel_get_explicit_path_xml, interfaces_get_xml, interfaces_description_get_xml,
  service_instance_interfaces_get_xml,
}
use vmw_tsf.Tunnels.Texts.Instances.{
  si_interface_delete_xml, si_interface_add_xml, si_environment_add_xml,
  interface_flow_monitoring_delete_xml, interface_flow_monitoring_add_xml,
}

unfoldable pub method_rsvp_tunnel_add : Str → Ip → Ip → Str
unfolding execute rsvp_tunnel_add_xml
method_rsvp_tunnel_add name source destination = execute rsvp_tunnel_add_xml (
    (str "name", name)
    ∷ (str "source", ip_text source)
    ∷ (str "destination", ip_text destination)
    ∷ [])

unfoldable pub method_vxlan_tunnel_add : Str → Str
unfolding execute vxlan_tunnel_add_xml
method_vxlan_tunnel_add name = execute vxlan_tunnel_add_xml ((str "name", name) ∷ [])

unfoldable pub method_rsvp_tunnel_delete : Str → Str
unfolding execute rsvp_tunnel_delete_xml
method_rsvp_tunnel_delete name = execute rsvp_tunnel_delete_xml ((str "name", name) ∷ [])

unfoldable pub method_vxlan_tunnel_delete : Str → Str
unfolding execute vxlan_tunnel_delete_xml
method_vxlan_tunnel_delete name = execute vxlan_tunnel_delete_xml ((str "name", name) ∷ [])

unfoldable pub method_rsvp_tunnel_get_explicit_path : Str → Str
unfolding execute rsvp_tunnel_get_explicit_path_xml
method_rsvp_tunnel_get_explicit_path name =
    execute rsvp_tunnel_get_explicit_path_xml ((str "name", name) ∷ [])

unfoldable pub method_service_instance_interfaces_get : Str → Str
unfolding execute service_instance_interfaces_get_xml
method_service_instance_interfaces_get name =
    execute service_instance_interfaces_get_xml ((str "name", name) ∷ [])

unfoldable pub method_si_interface_delete : Str → Str → Str
unfolding execute si_interface_delete_xml
method_si_interface_delete name ifname =
    execute si_interface_delete_xml ((str "name", name) ∷ (str "interface", ifname) ∷ [])

unfoldable pub method_si_interface_add : Str → Str → Str → Str
unfolding execute si_interface_add_xml
method_si_interface_add name ifname address =
    execute si_interface_add_xml
      ((str "name", name) ∷ (str "interface", ifname) ∷ (str "address", address) ∷ [])

-- The entry is not among the values.
unfoldable pub method_si_environment_add : Str → Str
unfolding execute si_environment_add_xml
method_si_environment_add name = execute si_environment_add_xml ((str "name", name) ∷ [])

unfoldable pub method_interface_flow_monitoring_delete : Str → Str
unfolding execute interface_flow_monitoring_delete_xml
method_interface_flow_monitoring_delete ifname =
    execute interface_flow_monitoring_delete_xml ((str "interface", ifname) ∷ [])

unfoldable pub method_interface_flow_monitoring_add : Str → Str → Str → Str
unfolding execute interface_flow_monitoring_add_xml
method_interface_flow_monitoring_add ifname profile tname =
    execute interface_flow_monitoring_add_xml
      ((str "interface", ifname) ∷ (str "profile", profile) ∷ (str "template", tname) ∷ [])

unfoldable pub commit_text : Str
commit_text = str "<commit />"

-- The document that is sent for a request.
unfoldable pub document : TunnelRequest → Str
unfolding method_rsvp_tunnel_add method_vxlan_tunnel_add method_rsvp_tunnel_delete
    method_vxlan_tunnel_delete method_rsvp_tunnel_get_explicit_path
    method_service_instance_interfaces_get method_si_interface_delete method_si_interface_add
    method_si_environment_add method_interface_flow_monitoring_delete
    method_interface_flow_monitoring_add interfaces_get_xml interfaces_description_get_xml
    commit_text
document (rsvp_add name source destination) = method_rsvp_tunnel_add name source destination
document (vxlan_add name) = method_vxlan_tunnel_add name
document (rsvp_delete name) = method_rsvp_tunnel_delete name
document (vxlan_delete name) = method_vxlan_tunnel_delete name
document (rsvp_explicit_path name) = method_rsvp_tunnel_get_explicit_path name
document interfaces_get = interfaces_get_xml
document descriptions_get = interfaces_description_get_xml
document (si_interfaces_get name) = method_service_instance_interfaces_get name
document (si_interface_delete name ifname) = method_si_interface_delete name ifname
document (si_interface_add name ifname address) = method_si_interface_add name ifname address
document (si_environment_add name) = method_si_environment_add name
document (flow_monitoring_delete ifname) = method_interface_flow_monitoring_delete ifname
document (flow_monitoring_add ifname profile tname) =
    method_interface_flow_monitoring_add ifname profile tname
document commit = commit_text
