-- ===== src/Tunnels/Texts/Gets.antt =====
-- The texts of the requests of pkg/hal/hal.go that read the configuration, line by line.
use vmw_tsf.Prelude.{Str, [], ◌∷◌, str}
use vmw_tsf.Tunnels.Texts.{unlines}

unfoldable pub rsvp_tunnel_get_explicit_path_xml : Str
unfolding unlines
rsvp_tunnel_get_explicit_path_xml = unlines (
    str ""
    ∷ str "<get-config>"
    ∷ str "    <source><running/></source>"
    ∷ str "\t<filter type=\"subree\">"
    ∷ str "\t\t<drivenets-top xmlns=\"http://drivenets.com/ns/yang/dn-top\">"
    ∷ str "\t\t<protocols>"
    ∷ str "\t\t<rsvp>"
    ∷ str "\t\t\t<explicit-paths>"
    ∷ str "\t\t\t<explicit-path>"
    ∷ str "\t\t\t\t<path-name>{{.name}}</path-name>"
    ∷ str "\t\t\t</explicit-path>"
    ∷ str "\t\t\t</explicit-paths>"
    ∷ str "\t\t</rsvp>"
    ∷ str "\t\t</protocols>"
    ∷ str "\t\t</drivenets-top>"
    ∷ str "\t</filter>"
    ∷ str "</get-config>"
    ∷ [])

unfoldable pub interfaces_get_xml : Str
unfolding unlines
interfaces_get_xml = unlines (
    str ""
    ∷ str "<get-config>"
    ∷ str "    <source><running/></source>"
    ∷ str "\t<filter type=\"subree\">"
    ∷ str "\t\t<drivenets-top xmlns=\"http://drivenets.com/ns/yang/dn-top\">"
    ∷ str "\t\t<interfaces>"
    ∷ str "\t\t\t<interface>"
    ∷ str "\t\t\t<ipv4>"
    ∷ str "\t\t\t<addresses>"
    ∷ str "\t\t\t\t<address>"
    ∷ str "\t\t\t\t\t<config-items/>"
    ∷ str "\t\t\t\t</address>"
    ∷ str "\t\t\t</addresses>"
    ∷ str "\t\t\t</ipv4>"
    ∷ str "\t\t\t</interface>"
    ∷ str "\t\t</interfaces>"
    ∷ str "\t\t</drivenets-top>"
    ∷ str "\t</filter>"
    ∷ str "</get-config>"
    ∷ [])

unfoldable pub interfaces_description_get_xml : Str
unfolding unlines
interfaces_description_get_xml = unlines (
    str ""
    ∷ str "<get-config>"
    ∷ str "    <source><running/></source>"
    ∷ str "\t<filter type=\"subree\">"
    ∷ str "\t\t<drivenets-top xmlns=\"http://drivenets.com/ns/yang/dn-top\">"
    ∷ str "\t\t<interfaces>"
    ∷ str "\t\t\t<interface>"
    ∷ str "\t\t\t<config-items>"
    ∷ str "\t\t\t\t<description></description>"
    ∷ str "\t\t\t</config-items>"
    ∷ str "\t\t\t</interface>"
    ∷ str "\t\t</interfaces>"
    ∷ str "\t\t</drivenets-top>"
    ∷ str "\t</filter>"
    ∷ str "</get-config>"
    ∷ [])

unfoldable pub service_instance_interfaces_get_xml : Str
unfolding unlines
service_instance_interfaces_get_xml = unlines (
    str ""
    ∷ str "<get-config>"
    ∷ str "    <source><running/></source>"
    ∷ str "\t<filter type=\"subree\">"
    ∷ str "\t\t<drivenets-top xmlns=\"http://drivenets.com/ns/yang/dn-top\">"
    ∷ str "\t\t<service-instances>"
    ∷ str "\t\t<instances>"
    ∷ str "\t\t\t<instance>"
    ∷ str "\t\t\t\t<si-name>{{.name}}</si-name>"
    ∷ str "\t\t\t<config-items>"
    ∷ str "\t\t\t\t<interfaces>"
    ∷ str "\t\t\t\t<interface/>"
    ∷ str "\t\t\t\t</interfaces>"
    ∷ str "\t\t\t</config-items>"
    ∷ str "\t\t\t</instance>"
    ∷ str "\t\t</instances>"
    ∷ str "\t\t</service-instances>"
    ∷ str "\t\t</drivenets-top>"
    ∷ str "\t</filter>"
    ∷ str "</get-config>"
    ∷ [])
