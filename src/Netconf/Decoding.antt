-- ===== src/Netconf/Decoding.antt =====
-- How encoding/xml reads the types of pkg/hal/structs.go, by their tags: elements in any order, the
-- last of each kind, unknown ones skipped, and a pointer that is nil until its element appears.
-- `none` is an error of `xml.Unmarshal`.
use vmw_tsf.Prelude.{ℕ, Str, List, [], ◌∷◌, ◌++◌, Option, none, some, str, str_eqb, if◌then◌else◌}
use vmw_tsf.Net.{Ip}
use vmw_tsf.Net.Parse.{parse_uint}
use vmw_tsf.Outcome.{Outcome, ok, crash, ◌>>=◌}
use vmw_tsf.Netconf.{Ipv4Matches, L4AclMatch, RuleConfigItems, Rule}
use vmw_tsf.Netconf.Documents.{Content, nothing, chars, element, AccessList}

unfoldable pub text_of : Content → Str
text_of nothing = []
text_of (chars s rest) = s ++ text_of rest
text_of (element name op inside rest) = text_of rest

abbrev pub and_then : {A B : Type 0} → Option A → (A → Option B) → Option B
and_then none k = none
and_then (some a) k = k a

-- A nil pointer, or an error that is passed to `panic`.
abbrev pub deref : {A : Type 0} → Option A → Outcome A
deref none = crash
deref (some a) = ok a

-- How a struct takes an element of its content: by the name, the attribute and what stands in it.
abbrev pub Fields : Type 0 → Type 0
Fields A = Str → Str → Content → A → Option A

unfoldable pub decode : {A : Type 0} → Fields A → Content → A → Option A
decode f nothing a = some a
decode f (chars s rest) a = decode f rest a
decode f (element name op inside rest) a = and_then (f name op inside a) (λ a'. decode f rest a')

-- A number without spaces around it; an empty text leaves 0.
unfoldable pub number : ℕ → Str → Option ℕ
unfolding parse_uint
number bits [] = some 0
number bits (c ∷ s) = parse_uint bits (c ∷ s)

abbrev pub or_new : {A : Type 0} → A → Option A → A
or_new new none = new
or_new new (some a) = a

-- A field of one name, for the types with nothing else.
abbrev only : {A : Type 0} → Str → (Str → Content → A → Option A) → Fields A
only wanted f name op inside a = if str_eqb name wanted then f op inside a else some a

abbrev pub ipv4_acl_match : Fields Ipv4Matches
ipv4_acl_match name op inside m =
    if str_eqb name (str "destination-ipv4")
    then some (record m { destination_ipv4 = text_of inside })
    else if str_eqb name (str "source-ipv4")
    then some (record m { source_ipv4 = text_of inside })
    else some m

abbrev pub ipv4_matches : Fields Ipv4Matches
ipv4_matches = only (str "ipv4-acl-match") (λ op inside m. decode ipv4_acl_match inside m)

abbrev pub lower_port : Fields ℕ
lower_port = only (str "lower-port") (λ op inside n. number 16 (text_of inside))

abbrev pub l4_acl_match : Fields L4AclMatch
l4_acl_match name op inside m =
    if str_eqb name (str "destination-port-range")
    then and_then (decode lower_port inside m.destination_lower_port)
        (λ n. some (record m { destination_lower_port = n }))
    else if str_eqb name (str "source-port-range")
    then and_then (decode lower_port inside m.source_lower_port)
        (λ n. some (record m { source_lower_port = n }))
    else some m

abbrev pub matches : Fields L4AclMatch
matches = only (str "l4-acl-match") (λ op inside m. decode l4_acl_match inside m)

-- The parameter is `net.IP.UnmarshalText`.
module _ (unmarshal_ip : Str → Option Ip) where
  abbrev pub nexthops : Fields (Option Ip)
  nexthops =
      only (str "nexthop1")
        (λ op inside ip. and_then (unmarshal_ip (text_of inside)) (λ ip'. some (some ip')))

  abbrev pub rule_config_items : Fields RuleConfigItems
  rule_config_items name op inside c =
      if str_eqb name (str "ipv4-matches")
      then and_then
          (decode ipv4_matches inside
            (or_new (record { destination_ipv4 = []; source_ipv4 = [] }) c.ipv4_matches))
          (λ m. some (record c { ipv4_matches = some m }))
      else if str_eqb name (str "matches")
      then and_then
          (decode matches inside
            (or_new (record { destination_lower_port = 0; source_lower_port = 0 }) c.matches))
          (λ m. some (record c { matches = some m }))
      else if str_eqb name (str "nexthops")
      then and_then (decode nexthops inside c.nexthop1) (λ ip. some (record c { nexthop1 = ip }))
      else if str_eqb name (str "protocol")
      then some (record c { protocol = text_of inside })
      else if str_eqb name (str "rule-type")
      then some (record c { rule_type = text_of inside })
      else some c

  abbrev pub no_config_items : RuleConfigItems
  no_config_items = record {
    ipv4_matches = none;
    matches = none;
    nexthop1 = none;
    protocol = [];
    rule_type = [];
  }

  abbrev pub rule : Fields Rule
  rule name op inside r =
      if str_eqb name (str "config-items")
      then and_then (decode rule_config_items inside (or_new no_config_items r.config_items))
          (λ c. some (record r { config_items = some c }))
      else if str_eqb name (str "rule-id")
      then and_then (number 63 (text_of inside)) (λ n. some (record r { rule_id = n }))
      else some r

  -- Each element "rule" is a rule of its own, after those before it.
  abbrev pub rules : Fields (List Rule)
  rules = only (str "rule") (λ op inside rs.
      and_then (decode rule inside (record { config_items = none; operation = op; rule_id = 0 }))
        (λ r. some (rs ++ r ∷ [])))

  abbrev pub access_list_config : Fields Str
  access_list_config = only (str "name") (λ op inside s. some (text_of inside))

  abbrev pub access_list : Fields AccessList
  access_list name op inside a =
      if str_eqb name (str "config-items")
      then and_then (decode access_list_config inside (or_new [] a.config_items))
          (λ s. some (record a { config_items = some s }))
      else if str_eqb name (str "name")
      then some (record a { name = text_of inside })
      else if str_eqb name (str "rules")
      then and_then (decode rules inside a.rules)
          (λ rs. some (record a { rules = rs; operation = op }))
      else some a

  abbrev pub no_access_list : AccessList
  no_access_list = record { config_items = none; name = []; rules = []; operation = [] }

  abbrev pub ipv4 : Fields AccessList
  ipv4 = only (str "access-list") (λ op inside a. decode access_list inside a)

  abbrev pub access_lists_reply : Fields (Option AccessList)
  access_lists_reply = only (str "ipv4") (λ op inside a.
      and_then (decode ipv4 inside (or_new no_access_list a)) (λ a'. some (some a')))

  abbrev pub drivenets_top_reply : Fields (Option (Option AccessList))
  drivenets_top_reply = only (str "access-lists") (λ op inside a.
      and_then (decode access_lists_reply inside (or_new none a)) (λ a'. some (some a')))

  abbrev pub data_reply : Fields (Option (Option (Option AccessList)))
  data_reply = only (str "drivenets-top") (λ op inside a.
      and_then (decode drivenets_top_reply inside (or_new none a)) (λ a'. some (some a')))

  -- `xml.Unmarshal` into a `Data`, of the document's first element.
  unfoldable pub unmarshal_data : Content → Option (Option (Option (Option AccessList)))
  unfolding decode
  unmarshal_data nothing = none
  unmarshal_data (chars s rest) = unmarshal_data rest
  unmarshal_data (element name op inside rest) =
      if str_eqb name (str "data") then decode data_reply inside none else none

  -- `response.DrivenetsTopReply.….AccessList.Rules.Rule`: an error and a nil pointer panic.
  unfoldable pub response_rules : Content → Outcome (List Rule)
  unfolding unmarshal_data
  response_rules doc = do
    response ← deref (unmarshal_data doc)
    top ← deref response
    lists ← deref top
    acl ← deref lists
    ok acl.rules
