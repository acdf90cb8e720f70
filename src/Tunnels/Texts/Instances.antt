-- ===== src/Tunnels/Texts/Instances.antt =====
-- The texts of the requests of pkg/hal/hal.go on the service instance's interfaces and
-- environment and on flow monitoring, line by line.
use vmw_tsf.Prelude.{Str, [], ◌∷◌, str}
use vmw_tsf.Tunnels.Texts.{unlines}

unfoldable pub si_interface_delete_xml : Str
unfolding unlines
si_interface_delete_xml = unlines (
    str ""
    ∷ str "<edit-config>"
    ∷ str "  <target><candidate/></target>"
    ∷ str "  <default-operation>none</default-operation>"
    ∷ str "  <error-option>rollback-on-error</error-option>"
    ∷ str
        "  <config xmlns:dn-hyper-instances=\"http://drivenets.com/ns/yang/dn-hyper-instances\" xmlns:dn-top=\"http://drivenets.com/ns/yang/dn-top\" xmlns:dn-hyper-service-instances=\"http://drivenets.com/ns/yang/dn-hyper-service-instances\">"
    ∷ str "    <dn-top:drivenets-top>"
    ∷ str "      <dn-hyper-service-instances:service-instances>"
    ∷ str "        <dn-hyper-instances:instances>"
    ∷ str "          <instance>"
    ∷ str "\t\t\t<si-name>{{.name}}</si-name>"
    ∷ str "            <config-items>"
    ∷ str "              <interfaces>"
    ∷ str "                <interface operation=\"delete\">"
    ∷ str "                  <interface-name>{{.interface}}</interface-name>"
    ∷ str "                </interface>"
    ∷ str "              </interfaces>"
    ∷ str "            </config-items>"
    ∷ str "          </instance>"
    ∷ str "        </dn-hyper-instances:instances>"
    ∷ str "      </dn-hyper-service-instances:service-instances>"
    ∷ str "    </dn-top:drivenets-top>"
    ∷ str "  </config>"
    ∷ str "</edit-config>"
    ∷ [])

unfoldable pub si_interface_add_xml : Str
unfolding unlines
si_interface_add_xml = unlines (
    str ""
    ∷ str "<edit-config>"
    ∷ str "  <target><candidate/></target>"
    ∷ str "  <default-operation>merge</default-operation>"
    ∷ str "  <error-option>rollback-on-error</error-option>"
    ∷ str
        "  <config xmlns:dn-hyper-instances=\"http://drivenets.com/ns/yang/dn-hyper-instances\" xmlns:dn-top=\"http://drivenets.com/ns/yang/dn-top\" xmlns:dn-hyper-service-instances=\"http://drivenets.com/ns/yang/dn-hyper-service-instances\">"
    ∷ str "    <dn-top:drivenets-top>"
    ∷ str "      <dn-hyper-service-instances:service-instances>"
    ∷ str "        <dn-hyper-instances:instances>"
    ∷ str "          <instance>"
    ∷ str "\t\t\t<si-name>{{.name}}</si-name>"
    ∷ str "            <config-items>"
    ∷ str "              <interfaces>"
    ∷ str "                <interface>"
    ∷ str "                  <interface-name>{{.interface}}</interface-name>"
    ∷ str "\t\t\t\t  <ipv4-address>{{.address}}</ipv4-address>"
    ∷ str "                </interface>"
    ∷ str "              </interfaces>"
    ∷ str "            </config-items>"
    ∷ str "          </instance>"
    ∷ str "        </dn-hyper-instances:instances>"
    ∷ str "      </dn-hyper-service-instances:service-instances>"
    ∷ str "    </dn-top:drivenets-top>"
    ∷ str "  </config>"
    ∷ str "</edit-config>"
    ∷ [])

unfoldable pub si_environment_add_xml : Str
unfolding unlines
si_environment_add_xml = unlines (
    str ""
    ∷ str "<edit-config>"
    ∷ str "  <target><candidate/></target>"
    ∷ str "  <default-operation>merge</default-operation>"
    ∷ str "  <error-option>rollback-on-error</error-option>"
    ∷ str
        "  <config xmlns:dn-hyper-instances=\"http://drivenets.com/ns/yang/dn-hyper-instances\" xmlns:dn-top=\"http://drivenets.com/ns/yang/dn-top\" xmlns:dn-hyper-service-instances=\"http://drivenets.com/ns/yang/dn-hyper-service-instances\">"
    ∷ str "    <dn-top:drivenets-top>"
    ∷ str "      <dn-hyper-service-instances:service-instances>"
    ∷ str "        <dn-hyper-instances:instances>"
    ∷ str "          <instance>"
    ∷ str "\t\t\t<si-name>{{.name}}</si-name>"
    ∷ str "            <config-items>"
    ∷ str "              <environments>"
    ∷ str "                <environment>"
    ∷ str "                  <entry>{{.entry}}</entry>"
    ∷ str "                </environment>"
    ∷ str "              </environments>"
    ∷ str "            </config-items>"
    ∷ str "          </instance>"
    ∷ str "        </dn-hyper-instances:instances>"
    ∷ str "      </dn-hyper-service-instances:service-instances>"
    ∷ str "    </dn-top:drivenets-top>"
    ∷ str "  </config>"
    ∷ str "</edit-config>"
    ∷ [])

unfoldable pub interface_flow_monitoring_delete_xml : Str
unfolding unlines
interface_flow_monitoring_delete_xml = unlines (
    str ""
    ∷ str "<edit-config>"
    ∷ str "  <target><candidate/></target>"
    ∷ str "  <default-operation>none</default-operation>"
    ∷ str "  <error-option>rollback-on-error</error-option>"
    ∷ str
        "  <config xmlns:dn-top=\"http://drivenets.com/ns/yang/dn-top\" xmlns:dn-interfaces=\"http://drivenets.com/ns/yang/dn-interfaces\" xmlns:dn-srv-flow-monitoring=\"http://drivenets.com/ns/yang/dn-srv-flow-monitoring\">"
    ∷ str "  <dn-top:drivenets-top>"
    ∷ str "    <dn-interfaces:interfaces>"
    ∷ str "    <interface>"
    ∷ str "      <name>{{.interface}}</name>"
    ∷ str "      <dn-srv-flow-monitoring:flow-monitoring operation=\"delete\"/>"
    ∷ str "    </interface>"
    ∷ str "    </dn-interfaces:interfaces>"
    ∷ str "  </dn-top:drivenets-top>"
    ∷ str "  </config>"
    ∷ str "</edit-config>"
    ∷ [])

unfoldable pub interface_flow_monitoring_add_xml : Str
unfolding unlines
interface_flow_monitoring_add_xml = unlines (
    str ""
    ∷ str "<edit-config>"
    ∷ str "  <target><candidate/></target>"
    ∷ str "  <default-operation>merge</default-operation>"
    ∷ str "  <error-option>rollback-on-error</error-option>"
    ∷ str
        "  <config xmlns:dn-top=\"http://drivenets.com/ns/yang/dn-top\" xmlns:dn-interfaces=\"http://drivenets.com/ns/yang/dn-interfaces\" xmlns:dn-srv-flow-monitoring=\"http://drivenets.com/ns/yang/dn-srv-flow-monitoring\">"
    ∷ str "    <dn-top:drivenets-top>"
    ∷ str "      <dn-interfaces:interfaces>"
    ∷ str "        <interface>"
    ∷ str "          <dn-srv-flow-monitoring:flow-monitoring>"
    ∷ str "            <config-items>"
    ∷ str "              <halo-template>"
    ∷ str "                <sampler-profile-name>{{.profile}}</sampler-profile-name>"
    ∷ str "                <template-name>{{.template}}</template-name>"
    ∷ str "                <direction>in</direction>"
    ∷ str "              </halo-template>"
    ∷ str "            </config-items>"
    ∷ str "          </dn-srv-flow-monitoring:flow-monitoring>"
    ∷ str "          <name>{{.interface}}</name>"
    ∷ str "        </interface>"
    ∷ str "      </dn-interfaces:interfaces>"
    ∷ str "    </dn-top:drivenets-top>"
    ∷ str "  </config>"
    ∷ str "</edit-config>"
    ∷ [])
