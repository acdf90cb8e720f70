-- ===== src/Flow/Debugger.antt =====
-- `FlowsDebugger` of pkg/hal/fmt.go: the rows that it collects and the texts that it writes, before
-- text/tabwriter lays them out.
use vmw_tsf.Prelude.{Str, List, [], ◌∷◌, ◌++◌, str}
use vmw_tsf.Prelude.Sort.{sort}
use vmw_tsf.Net.Text.{decimal, ip_text}
use vmw_tsf.Flow.{FlowKey, FlowTelemetry, proto_text}

abbrev tabbed : List Str → Str
tabbed [] = b'\n' ∷ []
tabbed (cell ∷ cells) = cell ++ b'\t' ∷ tabbed cells

unfoldable pub flow_row : FlowKey → FlowTelemetry → Str
unfolding proto_text
flow_row key stat = tabbed (
    (ip_text key.src_addr ++ b':' ∷ decimal key.src_port)
    ∷ (ip_text key.dst_addr ++ b':' ∷ decimal key.dst_port)
    ∷ proto_text key.protocol
    ∷ stat.ingress_if
    ∷ stat.egress_if
    ∷ decimal stat.rx_rate_pps
    ∷ decimal stat.rx_total_pkts
    ∷ decimal stat.rx_rate_bps
    ∷ decimal stat.rx_total_bytes
    ∷ [])

-- `Flow`: a row more.
unfoldable pub debugger_flow : FlowKey → FlowTelemetry → List Str → List Str
unfolding flow_row
debugger_flow key stat flows = flows ++ flow_row key stat ∷ []

abbrev none_line : List Str → List Str
none_line [] = str "(none)\n" ∷ []
none_line (row ∷ rows) = []

-- `Print`, once the file is open: the rows in the order of their texts.
unfoldable pub debugger_print : List Str → List Str
unfolding sort
debugger_print flows =
    str
      "Source\tDestination\tProto\tIngress\tEgress\tPkt/sec\tPkt/total\tBytes/sec\tBytes/total\t\n"
    ∷ str
        "------\t-----------\t-----\t-------\t------\t-------\t---------\t---------\t-----------\t\n"
    ∷ (sort flows ++ none_line flows)
