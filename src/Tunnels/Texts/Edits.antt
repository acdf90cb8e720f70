-- ===== src/Tunnels/Texts/Edits.antt =====
-- The texts of the requests of pkg/hal/hal.go that configure tunnels, line by line.
use vmw_tsf.Prelude.{Str, [], ◌∷◌, str}
use vmw_tsf.Tunnels.Texts.{unlines}

unfoldable pub rsvp_tunnel_add_xml : Str
unfolding unlines
rsvp_tunnel_add_xml = unlines (
    str "<edit-config>"
    ∷ str "<target><candidate/></target>"
    ∷ str "<default-operation>merge</default-operation>"
    ∷ str "<error-option>rollback-on-error</error-option>"
    ∷ str
        "<config xmlns:dn-top=\"http://drivenets.com/ns/yang/dn-top\" xmlns:dn-protocol=\"http://drivenets.com/ns/yang/dn-protocol\" xmlns:dn-rsvp=\"http://drivenets.com/ns/yang/dn-rsvp\">"
    ∷ str "<dn-top:drivenets-top>"
    ∷ str "  <dn-protocol:protocols>"
    ∷ str "\t<dn-rsvp:rsvp>"
    ∷ str "\t  <tunnels>"
    ∷ str "\t\t<tunnel>"
    ∷ str "\t\t  <tunnel-name>{{.name}}</tunnel-name>"
    ∷ str "\t\t  <primary>"
    ∷ str "\t\t\t<config-items>"
    ∷ str "\t\t\t  <cspf-calculation>disabled</cspf-calculation>"
    ∷ str "\t\t\t</config-items>"
    ∷ str "\t\t\t<path-options>"
    ∷ str "\t\t\t  <path-option>"
    ∷ str "\t\t\t\t<config-items>"
    ∷ str "\t\t\t\t  <explicit-path-name>{{.name}}path</explicit-path-name>"
    ∷ str "\t\t\t\t  <priority>1</priority>"
    ∷ str "\t\t\t\t</config-items>"
    ∷ str "\t\t\t\t<priority>1</priority>"
    ∷ str "\t\t\t  </path-option>"
    ∷ str "\t\t\t</path-options>"
    ∷ str "\t\t  </primary>"
    ∷ str "\t\t  <global>"
    ∷ str "\t\t\t<config-items>"
    ∷ str "\t\t\t  <source-address>{{.source}}</source-address>"
    ∷ str "\t\t\t  <destination-address>{{.destination}}</destination-address>"
    ∷ str "\t\t\t  <admin-state>enabled</admin-state>"
    ∷ str "\t\t\t  <tunnel-name>{{.name}}</tunnel-name>"
    ∷ str "\t\t\t</config-items>"
    ∷ str "\t\t  </global>"
    ∷ str "\t\t</tunnel>"
    ∷ str "\t  </tunnels>"
    ∷ str "\t</dn-rsvp:rsvp>"
    ∷ str "  </dn-protocol:protocols>"
    ∷ str "</dn-top:drivenets-top>"
    ∷ str "</config>"
    ∷ str "</edit-config>"
    ∷ [])

unfoldable pub vxlan_tunnel_add_xml : Str
unfolding unlines
vxlan_tunnel_add_xml = unlines (
    str "<edit-config>"
    ∷ str "<target><candidate/></target>"
    ∷ str "<default-operation>merge</default-operation>"
    ∷ str "<error-option>rollback-on-error</error-option>"
    ∷ str
        "<config xmlns:dn-interfaces=\"http://drivenets.com/ns/yang/dn-interfaces\" xmlns:dn-top=\"http://drivenets.com/ns/yang/dn-top\">"
    ∷ str "<dn-top:drivenets-top>"
    ∷ str "  <dn-interfaces:interfaces>"
    ∷ str "\t<interface>"
    ∷ str "\t  <config-items>"
    ∷ str "\t\t<enabled>true</enabled>"
    ∷ str "\t  </config-items>"
    ∷ str "\t  <name>{{.name}}</name>"
    ∷ str "\t</interface>"
    ∷ str "  </dn-interfaces:interfaces>"
    ∷ str "</dn-top:drivenets-top>"
    ∷ str "</config>"
    ∷ str "</edit-config>"
    ∷ [])

unfoldable pub rsvp_tunnel_delete_xml : Str
unfolding unlines
rsvp_tunnel_delete_xml = unlines (
    str "<edit-config>"
    ∷ str "<target><candidate/></target>"
    ∷ str "<default-operation>none</default-operation>"
    ∷ str "<error-option>rollback-on-error</error-option>"
    ∷ str
        "<config xmlns:dn-top=\"http://drivenets.com/ns/yang/dn-top\" xmlns:dn-protocol=\"http://drivenets.com/ns/yang/dn-protocol\" xmlns:dn-rsvp=\"http://drivenets.com/ns/yang/dn-rsvp\">"
    ∷ str "\t<dn-top:drivenets-top>"
    ∷ str "\t\t<dn-protocol:protocols>"
    ∷ str "\t\t\t<dn-rsvp:rsvp>"
    ∷ str "\t\t\t<tunnels>"
    ∷ str "\t\t\t\t<tunnel operation=\"delete\">"
    ∷ str "\t\t\t\t\t<tunnel-name>{{.name}}</tunnel-name>"
    ∷ str "\t\t\t\t</tunnel>"
    ∷ str "\t\t\t</tunnels>"
    ∷ str "\t\t\t</dn-rsvp:rsvp>"
    ∷ str "\t\t</dn-protocol:protocols>"
    ∷ str "\t</dn-top:drivenets-top>"
    ∷ str "</config>"
    ∷ str "</edit-config>"
    ∷ [])

unfoldable pub vxlan_tunnel_delete_xml : Str
unfolding unlines
vxlan_tunnel_delete_xml = unlines (
    str "<edit-config>"
    ∷ str "<target><candidate/></target>"
    ∷ str "<default-operation>none</default-operation>"
    ∷ str "<error-option>rollback-on-error</error-option>"
    ∷ str
        "<config xmlns:dn-interfaces=\"http://drivenets.com/ns/yang/dn-interfaces\" xmlns:dn-top=\"http://drivenets.com/ns/yang/dn-top\">"
    ∷ str "<dn-top:drivenets-top>"
    ∷ str "  <dn-interfaces:interfaces>"
    ∷ str "\t<interface>"
    ∷ str "\t  <config-items>"
    ∷ str "\t\t<enabled>false</enabled>"
    ∷ str "\t  </config-items>"
    ∷ str "\t  <name>{{.name}}</name>"
    ∷ str "\t</interface>"
    ∷ str "  </dn-interfaces:interfaces>"
    ∷ str "</dn-top:drivenets-top>"
    ∷ str "</config>"
    ∷ str "</edit-config>"
    ∷ [])
