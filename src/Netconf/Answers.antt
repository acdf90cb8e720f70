-- ===== src/Netconf/Answers.antt =====
-- That the rules of pkg/hal/structs.go survive a document: what is written as one is read back.
use vmw_tsf.Prelude.{
  ◌^◌, ◌<◌, Str, ◌≡◌, refl, sym, ap, ◌∙◌, List, [], ◌∷◌, ◌++◌, Option, none, some, str, All,
}
use mathlib.Core.List.{append-nil, append_assoc}
use vmw_tsf.Net.{Ip}
use vmw_tsf.Outcome.{ok}
use vmw_tsf.Netconf.{Ipv4Matches, L4AclMatch, RuleConfigItems, Rule}
use vmw_tsf.Netconf.Documents.{
  Content, nothing, element, AccessList, encode_string, encode_number, optional, marshal_ip,
  encode_ipv4_matches, encode_matches, encode_nexthop1, encode_config_items, encode_rules,
  encode_access_list, drivenets_top,
}
use vmw_tsf.Netconf.Fields.{
  text_of-chars, decode-encode_string, decode-encode_number, decode_ipv4, decode_ports,
}
use vmw_tsf.Netconf.Decoding.{
  and_then, decode, rule_config_items, rule, rules, access_list_config, access_list, ipv4,
  no_access_list, response_rules, unmarshal_data,
}

-- What the readers of numbers and addresses must read back.
abbrev HavePorts : Option L4AclMatch → Type 0
HavePorts none = Unit
HavePorts (some m) = (m.destination_lower_port < 2 ^ 16) × (m.source_lower_port < 2 ^ 16)

module _ (unmarshal_ip : Str → Option Ip) where
  abbrev HasHop : Option Ip → Type 0
  HasHop none = Unit
  HasHop (some ip) = unmarshal_ip (marshal_ip ip) ≡ some ip

  abbrev FitsConfig : Option RuleConfigItems → Type 0
  FitsConfig none = Unit
  FitsConfig (some c) = HavePorts c.matches × HasHop c.nexthop1

  -- The ports have 16 bits, the id 63, and the next hop's text is read back.
  abbrev pub IsWritable : Rule → Type 0
  IsWritable r = FitsConfig r.config_items × (r.rule_id < 2 ^ 63)

  abbrev config_of :
      Option Ipv4Matches → Option L4AclMatch → Option Ip → Str → Str → RuleConfigItems
  config_of ips ports hop protocol type = record {
    ipv4_matches = ips;
    matches = ports;
    nexthop1 = hop;
    protocol = protocol;
    rule_type = type;
  }

  decode_ips :
      (ips : Option Ipv4Matches) (rest : Content)
      → decode
          (rule_config_items unmarshal_ip)
          (optional encode_ipv4_matches ips rest)
          (config_of none none none [] [])
        ≡ decode (rule_config_items unmarshal_ip) rest (config_of ips none none [] [])
  unfolding decode
  decode_ips none rest = refl
  decode_ips (some m) rest = rw (decode_ipv4 m) refl

  decode_matches :
      (ips : Option Ipv4Matches) (ports : Option L4AclMatch) (rest : Content)
      → HavePorts ports
      → decode
          (rule_config_items unmarshal_ip)
          (optional encode_matches ports rest)
          (config_of ips none none [] [])
        ≡ decode (rule_config_items unmarshal_ip) rest (config_of ips ports none [] [])
  unfolding decode
  decode_matches ips none rest h = refl
  decode_matches ips (some m) rest h = rw (decode_ports m h.0 h.1) refl

  decode_hop :
      (ips : Option Ipv4Matches) (ports : Option L4AclMatch) (hop : Option Ip) (rest : Content)
      → HasHop hop
      → decode
          (rule_config_items unmarshal_ip)
          (optional encode_nexthop1 hop rest)
          (config_of ips ports none [] [])
        ≡ decode (rule_config_items unmarshal_ip) rest (config_of ips ports hop [] [])
  unfolding decode
  decode_hop ips ports none rest h = refl
  decode_hop ips ports (some ip) rest h = rw (text_of-chars (marshal_ip ip), h) refl

  decode_config :
      (c : RuleConfigItems)
      → HavePorts c.matches
      → HasHop c.nexthop1
      → decode
          (rule_config_items unmarshal_ip)
          (optional encode_ipv4_matches c.ipv4_matches (
            optional encode_matches c.matches (
              optional encode_nexthop1 c.nexthop1 (
                encode_string
                  (str "protocol")
                  c.protocol
                  (encode_string (str "rule-type") c.rule_type nothing)))))
          (config_of none none none [] [])
        ≡ some c
  unfolding decode
  decode_config c p h =
      decode_ips c.ipv4_matches _
      ∙ decode_matches c.ipv4_matches c.matches _ p
      ∙ decode_hop c.ipv4_matches c.matches c.nexthop1 _ h
      ∙ decode-encode_string (rule_config_items unmarshal_ip) (str "protocol") c.protocol _ _
          (λ s. config_of c.ipv4_matches c.matches c.nexthop1 s []) (λ i. refl) refl
      ∙ decode-encode_string (rule_config_items unmarshal_ip) (str "rule-type") c.rule_type _ _
          (λ s. config_of c.ipv4_matches c.matches c.nexthop1 c.protocol s) (λ i. refl) refl

  decode-optional :
      (c : Option RuleConfigItems) (op : Str) (rest : Content)
      → FitsConfig c
      → decode
          (rule unmarshal_ip)
          (optional encode_config_items c rest)
          (record { config_items = none; operation = op; rule_id = 0 })
        ≡ decode (rule unmarshal_ip) rest (record { config_items = c; operation = op; rule_id = 0 })
  unfolding decode
  decode-optional none op rest h = refl
  decode-optional (some c) op rest h = rw (decode_config c h.0 h.1) refl

  decode_rule :
      (r : Rule)
      → IsWritable r
      → decode
          (rule unmarshal_ip)
          (optional encode_config_items r.config_items
            (encode_number (str "rule-id") r.rule_id nothing))
          (record { config_items = none; operation = r.operation; rule_id = 0 })
        ≡ some r
  unfolding decode
  decode_rule r h =
      decode-optional r.config_items r.operation _ h.0
      ∙ decode-encode_number (rule unmarshal_ip) (str "rule-id") 63 r.rule_id _ _
          (λ n. record r { rule_id = n }) (λ i. refl) refl h.1

  decode_rules :
      (rs before : List Rule)
      → All IsWritable rs
      → decode (rules unmarshal_ip) (encode_rules rs nothing) before ≡ some (before ++ rs)
  unfolding decode encode_rules
  decode_rules [] before h = ap some (sym (append-nil before))
  decode_rules (r ∷ rs) before h =
      rw (decode_rule r h.0)
        (decode_rules rs (before ++ r ∷ []) h.1 ∙ ap some (append_assoc before (r ∷ []) rs))

  decode_acl_config :
      (c : Option Str) (rest : Content)
      → decode
          (access_list unmarshal_ip)
          (optional
            (λ name. element (str "config-items") [] (encode_string (str "name") name nothing))
            c
            rest)
          (record { config_items = none; name = []; rules = []; operation = [] })
        ≡ decode
            (access_list unmarshal_ip)
            rest
            (record { config_items = c; name = []; rules = []; operation = [] })
  unfolding decode
  decode_acl_config none rest = refl
  decode_acl_config (some name) rest =
      rw
        (decode-encode_string (access_list_config unmarshal_ip) (str "name") name nothing []
          (λ s. s) (λ i. refl) refl)
        refl

  -- An access list whose rules are writable is read back from its document as it was.
  decode-encode_access_list :
      (a : AccessList)
      → All IsWritable a.rules
      → decode (ipv4 unmarshal_ip) (encode_access_list a nothing) (no_access_list unmarshal_ip)
        ≡ some a
  unfolding decode encode_access_list
  decode-encode_access_list a h =
      ap (λ o. and_then o (λ a'. some a')) {y = some a}
        (decode_acl_config a.config_items _
          ∙ decode-encode_string (access_list unmarshal_ip) (str "name") a.name
              (element (str "rules") a.operation (encode_rules a.rules nothing) nothing) _
              (λ s. record { config_items = a.config_items; name = s; rules = []; operation = [] })
              (λ i. refl) refl
          ∙ rw (decode_rules a.rules [] h) refl)

  -- When the rules of an access list are writable, a reply with the access list in it is read as
  -- its rules, whatever its name and its configuration.
  pub response_rules-drivenets_top :
      (a : AccessList)
      → All IsWritable a.rules
      → response_rules unmarshal_ip (element (str "data") [] (drivenets_top a) nothing) ≡ ok a.rules
  unfolding response_rules unmarshal_data decode
  response_rules-drivenets_top a h = rw (decode-encode_access_list a h) refl
