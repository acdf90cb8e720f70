-- ===== src/Client/Steered.antt =====
-- What a successful `Steer` (pkg/hal/hal.go) of one item leaves in the cache and on the device.
use vmw_tsf.Prelude.{
  ℕ, ◌≡◌, ◌≢◌, refl, ap, sym, ◌∙◌, Str, List, [], ◌∷◌, ◌++◌, Option, none, some, false, str,
  str_eqb, str_eqb_iff, Bool-cases, Option-cases, inl, inr, ◌⊎◌, nat_eq, str_eq, get_elem?,
  if_false,
}
use vmw_tsf.Prelude.Map.{lookup}
use vmw_tsf.Net.{Ip}
use vmw_tsf.Net.Text.{ip_text}
use vmw_tsf.Outcome.{Outcome, ok}
use vmw_tsf.Flow.{as_key, tcp, udp, proto_text}
use vmw_tsf.Registry.{Registry, Interface, find_interface_by_next_hop, deref}
use vmw_tsf.Netconf.{Device, Rule, request_and_commit, edit_acl_rules, get_acl_rules}
use vmw_tsf.Steering.{SteerItem, Acl, steer, steer_rule, next_hop_address, hop_address}
use vmw_tsf.Steering.Ids.{IsFresh}
use vmw_tsf.Steering.Rules.{AreRulesFor}
use vmw_tsf.Steering.Cache.{steer_lem, steer-IsFresh}

module _ {S D : Type 0} (exec : Device D) (r : Registry S) where
  -- The text of a protocol in a rule.
  abbrev pub IsProtocolText : ℕ → Str → Type 0
  IsProtocolText protocol text =
      (protocol ≡ tcp → text ≡ str "tcp(0x06)") × (protocol ≡ udp → text ≡ str "udp(0x11)")

  -- The rule with an id for an item: hosts and ports of its flow, and the address of the interface
  -- that is registered under its next hop.
  abbrev pub IsSteerRule : SteerItem → ℕ → Rule → Type 0
  IsSteerRule item id rule =
      (p : ℕ) × (ifc : Interface) × (text : Str) × (lookup item.next_hop r.next_hop2interface
        ≡ some p)
      × (get_elem? r.store p ≡ some ifc)
      × IsProtocolText item.rule.protocol text
      × (rule ≡ record {
        rule_id = id;
        operation = [];
        config_items = some (record {
          ipv4_matches = some (record {
            destination_ipv4 = ip_text item.rule.dst_addr ++ str "/32";
            source_ipv4 = ip_text item.rule.src_addr ++ str "/32";
          });
          matches = some (record {
            destination_lower_port = item.rule.dst_port;
            source_lower_port = item.rule.src_port;
          });
          nexthop1 = some ifc.next_hop;
          protocol = text;
          rule_type = str "allow";
        });
      })

  -- From a cache and a device to a cache and a device: the old rules stay, and one rule for the
  -- item, under its id in the cache, was sent to the device and committed; then the device was
  -- asked for its rules, and nothing else.
  abbrev pub HasSteered : SteerItem → Acl → D → Acl × D → Type 0
  HasSteered item acl d end =
      ((id : ℕ) (v : Str) → lookup id acl.rules ≡ some v → lookup id end.0.rules ≡ some v)
      × ((id : ℕ) × (rule : Rule) × (d' : D) × (lookup id end.0.rules ≡ some (as_key item.rule))
          × IsSteerRule item id rule
          × (request_and_commit exec (edit_acl_rules (rule ∷ [])) d ≡ (ok tt, d'))
          × (end.1 ≡ (exec get_acl_rules d').1))
      × IsFresh end.0

  next_hop_known :
      (nh : Str) (ip : Ip)
      → nh ≢ []
      → next_hop_address r nh ≡ some ip
      → (p : ℕ) × (ifc : Interface) × (lookup nh r.next_hop2interface ≡ some p)
        × (get_elem? r.store p ≡ some ifc)
        × (ifc.next_hop ≡ ip)
  unfolding next_hop_address find_interface_by_next_hop
  next_hop_known nh ip given e = elim (Option-cases (lookup nh r.next_hop2interface)) [
    | inl gone ↦ absurd (cc (found none gone))
    | inr (p, known) ↦ elim (Option-cases (get_elem? r.store p)) [
      | inl missing ↦ absurd (cc (found (some p) known, missing))
      | inr (ifc, stored) ↦ (p, ifc, known, stored, address ifc p (found (some p) known) stored)
    ]
  ]
    where
      named : str_eqb nh [] ≡ false
      named = elim (Bool-cases (str_eqb nh [])) [
        | inl q ↦ absurd (given ((str_eqb_iff nh []).0 q))
        | inr q ↦ q
      ]

      found :
          (o : Option ℕ) → lookup nh r.next_hop2interface ≡ o → hop_address r (deref r o) ≡ some ip
      found o q = ap (λ x. hop_address r (deref r x)) (sym q) ∙ sym (if_false _ _ _ named) ∙ e

      address :
          (ifc : Interface) (p : ℕ)
          → hop_address r (get_elem? r.store p) ≡ some ip
          → get_elem? r.store p ≡ some ifc
          → ifc.next_hop ≡ ip
      address ifc p h q = cc (ap (hop_address r) (sym q) ∙ h)

  IsProtocolText-proto_text : (protocol : ℕ) → IsProtocolText protocol (proto_text protocol)
  unfolding proto_text
  IsProtocolText-proto_text protocol = (λ q. rw q refl, λ q. rw q refl)

  IsRuleFor-IsSteerRule :
      (item : SteerItem) (id : ℕ) (ip : Ip) (rule : Rule)
      → item.next_hop ≢ []
      → next_hop_address r item.next_hop ≡ some ip
      → rule ≡ steer_rule id item.rule ip
      → IsSteerRule item id rule
  unfolding steer_rule
  IsRuleFor-IsSteerRule item id ip rule given hop made =
      let (p, ifc, known, stored, same) = next_hop_known item.next_hop ip given hop in
      (
        p,
        ifc,
        proto_text item.rule.protocol,
        known,
        stored,
        IsProtocolText-proto_text item.rule.protocol,
        made ∙ ap (λ a. steer_rule id item.rule a) (sym same),
      )

  -- The state after `Steer` and the question that follows it.
  abbrev pub asked_after : Outcome (Unit {0}) × Acl × D → Acl × D
  asked_after h = (h.1, (exec get_acl_rules h.2).1)

  pub steer-HasSteered :
      (item : SteerItem) (acl : Acl) (d : D)
      → IsFresh acl
      → item.next_hop ≢ []
      → (steer exec r (item ∷ []) acl d).0 ≡ ok tt
      → HasSteered item acl d (asked_after (steer exec r (item ∷ []) acl d))
  steer-HasSteered item acl d f given e =
      let (kept, (rules, made, sent)) = steer_lem exec r (item ∷ []) acl d f e in
      (kept, one rules made sent, steer-IsFresh exec r (item ∷ []) acl d f)
    where
      end : Acl × D
      end = (let (answer, acl', d') = steer exec r (item ∷ []) acl d in (acl', d'))

      one :
          (rules : List Rule)
          → AreRulesFor r (item ∷ []) end.0.rules rules
          → (rules ≡ []) × (end.1 ≡ d)
            ⊎ (request_and_commit exec (edit_acl_rules rules) d ≡ (ok tt, end.1))
          → (id : ℕ) × (rule : Rule) × (d' : D) × (lookup id end.0.rules ≡ some (as_key item.rule))
            × IsSteerRule item id rule
            × (request_and_commit exec (edit_acl_rules (rule ∷ [])) d ≡ (ok tt, d'))
            × ((exec get_acl_rules end.1).1 ≡ (exec get_acl_rules d').1)
      one [] made sent = absurd made
      one (rule ∷ []) (made, _) (inl (none_sent, q)) = absurd (cc)
      one (rule ∷ []) ((id, ip, cached, hop, same), _) (inr sent) = (
        id,
        rule,
        end.1,
        cached,
        IsRuleFor-IsSteerRule item id ip rule given hop same,
        sent,
        refl,
      )
      one (rule ∷ other ∷ more) (made, rest) sent = absurd rest
