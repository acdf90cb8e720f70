-- ===== src/Netconf/Documents.antt =====
-- The documents of the access list "Steering": the types of pkg/hal/structs.go as encoding/xml
-- writes and reads them by their tags, and the documents of pkg/hal/hal.go. A document is its
-- elements, without namespaces and indentation. An address has 0, 4 or 16 bytes; of other lengths
-- `MarshalText` refuses to write one.
use vmw_tsf.Prelude.{ℕ, Str, List, [], ◌∷◌, Option, none, some, str, eqb, if◌then◌else◌}
use vmw_tsf.Net.{Ip}
use vmw_tsf.Net.Text.{decimal, ip_text}
use vmw_tsf.Netconf.{Ipv4Matches, L4AclMatch, RuleConfigItems, Rule}

-- What stands in an element: a text, or an element with its attribute "operation" ("" where it has
-- none) and what stands in it, before the rest.
pub data Content : Type 0 where
  nothing : Content
  chars : Str → Content → Content
  element : Str → Str → Content → Content → Content

pub record AccessList : Type 0 where
  pub config_items : Option Str
  pub name : Str
  pub rules : List Rule
  pub operation : Str

abbrev pub leaf : Str → Str → Content → Content
leaf name s rest = element name [] (chars s nothing) rest

-- A field with "omitempty": a string, a number, a pointer.
unfoldable pub encode_string : Str → Str → Content → Content
encode_string name [] rest = rest
encode_string name (c ∷ s) rest = leaf name (c ∷ s) rest

unfoldable pub encode_number : Str → ℕ → Content → Content
encode_number name n rest = if eqb n 0 then rest else leaf name (decimal n) rest

abbrev pub optional : {A : Type 0} → (A → Content → Content) → Option A → Content → Content
optional encode none rest = rest
optional encode (some a) rest = encode a rest

-- `net.IP.MarshalText`.
unfoldable pub marshal_ip : Ip → Str
marshal_ip [] = []
marshal_ip (b ∷ ip) = ip_text (b ∷ ip)

abbrev pub encode_ipv4_matches : Ipv4Matches → Content → Content
encode_ipv4_matches m rest =
    element (str "ipv4-matches") []
      (element (str "ipv4-acl-match") []
        (encode_string (str "destination-ipv4") m.destination_ipv4
          (encode_string (str "source-ipv4") m.source_ipv4 nothing))
        nothing)
      rest

abbrev pub encode_matches : L4AclMatch → Content → Content
encode_matches m rest =
    element (str "matches") []
      (element (str "l4-acl-match") []
        (element (str "destination-port-range") []
          (encode_number (str "lower-port") m.destination_lower_port nothing)
          (element (str "source-port-range") []
            (encode_number (str "lower-port") m.source_lower_port nothing) nothing))
        nothing)
      rest

abbrev pub encode_nexthop1 : Ip → Content → Content
encode_nexthop1 ip rest =
    element (str "nexthops") [] (leaf (str "nexthop1") (marshal_ip ip) nothing) rest

abbrev pub encode_config_items : RuleConfigItems → Content → Content
encode_config_items c rest =
    element (str "config-items") []
      (optional encode_ipv4_matches c.ipv4_matches (
        optional encode_matches c.matches (
          optional encode_nexthop1 c.nexthop1 (
            encode_string (str "protocol") c.protocol
              (encode_string (str "rule-type") c.rule_type nothing)))))
      rest

abbrev pub encode_rule : Rule → Content → Content
encode_rule r rest =
    element (str "rule") r.operation
      (optional encode_config_items r.config_items
        (encode_number (str "rule-id") r.rule_id nothing))
      rest

unfoldable pub encode_rules : List Rule → Content → Content
unfolding encode_string encode_number marshal_ip
encode_rules [] rest = rest
encode_rules (r ∷ rs) rest = encode_rule r (encode_rules rs rest)

unfoldable pub encode_access_list : AccessList → Content → Content
unfolding encode_rules
encode_access_list a rest =
    element (str "access-list") []
      (optional (λ name. element (str "config-items") [] (encode_string (str "name") name nothing))
        a.config_items
        (encode_string (str "name") a.name
          (element (str "rules") a.operation (encode_rules a.rules nothing) nothing)))
      rest

abbrev halo_acl_bucket_name : Str
halo_acl_bucket_name = str "Steering"

abbrev pub drivenets_top : AccessList → Content
drivenets_top a =
    element (str "drivenets-top") []
      (element (str "access-lists") []
        (element (str "ipv4") [] (encode_access_list a nothing) nothing) nothing)
      nothing

abbrev edit_config : AccessList → Content
edit_config a =
    element (str "edit-config") []
      (element (str "config") [] (drivenets_top a)
        (element (str "target") [] (element (str "candidate") [] nothing nothing) nothing))
      nothing

unfoldable pub get_acl_rule_filter_xml : Content
unfolding encode_access_list
get_acl_rule_filter_xml =
    element (str "get-config") []
      (element (str "filter") []
        (drivenets_top
          (record { config_items = none; name = halo_acl_bucket_name; rules = []; operation = [] }))
        (element (str "source") [] (element (str "running") [] nothing nothing) nothing))
      nothing

unfoldable pub get_acl_rule_config_xml : List Rule → Content
unfolding encode_access_list
get_acl_rule_config_xml rules = edit_config (record {
  config_items = some halo_acl_bucket_name;
  name = halo_acl_bucket_name;
  rules = rules;
  operation = [];
})

unfoldable pub get_acl_rules_delete_xml : Content
unfolding encode_access_list
get_acl_rules_delete_xml = edit_config (record {
  config_items = none;
  name = halo_acl_bucket_name;
  rules = [];
  operation = str "delete";
})
