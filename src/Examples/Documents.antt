-- ===== src/Examples/Documents.antt =====
-- A rule of `Steer` (pkg/hal/hal.go) in a reply.
use vmw_tsf.Prelude.{Str, ◌≡◌, refl, [], ◌∷◌, Option, some, str, arith}
use vmw_tsf.Net.{Ip, ipv4, to4}
use vmw_tsf.Net.Text.{ip_text, join, decimal}
use vmw_tsf.Outcome.{ok}
use vmw_tsf.Flow.{FlowKey, tcp}
use vmw_tsf.Steering.{steer_rule}
use vmw_tsf.Netconf.Documents.{element, nothing, AccessList, drivenets_top, marshal_ip}
use vmw_tsf.Netconf.Decoding.{response_rules}
use vmw_tsf.Netconf.Answers.{response_rules-drivenets_top}

abbrev flow : FlowKey
flow = record {
  protocol = tcp;
  src_addr = ipv4 10 0 0 1;
  dst_addr = ipv4 10 0 0 2;
  src_port = 8081;
  dst_port = 443;
}

abbrev hop : Ip
hop = ipv4 10 1 0 1

abbrev unmarshal_ip : Str → Option Ip
unmarshal_ip [] = some []
unmarshal_ip (c ∷ s) = some hop

abbrev steering : AccessList
steering = record {
  config_items = some (str "Steering");
  name = str "Steering";
  rules = steer_rule 10 flow hop ∷ [];
  operation = [];
}

response_rules-drivenets_top_example :
    response_rules unmarshal_ip (element (str "data") [] (drivenets_top steering) nothing)
    ≡ ok (steer_rule 10 flow hop ∷ [])
unfolding steer_rule marshal_ip ip_text to4 join decimal
response_rules-drivenets_top_example =
    response_rules-drivenets_top unmarshal_ip steering
      ((((omega arith, omega arith), refl), omega arith), tt)
