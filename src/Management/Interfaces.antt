-- ===== src/Management/Interfaces.antt =====
-- What the calls of pkg/hal/mgmt_server.go do to the registry.
use vmw_tsf.Prelude.{
  ℕ, ◌^◌, ◌<◌, Str, ◌≡◌, ◌∷◌, ◌++◌, none, some, arith, str_eq, nat_eq, Option-cases, inl, inr, ◌⊎◌,
}
use vmw_tsf.Prelude.Map.{lookup}
use vmw_tsf.Net.{Ip}
use vmw_tsf.Net.Text.{decimal}
use vmw_tsf.Net.Text.Injective.{Lacks, Lacks-of_digits, decimal-AreDigits}
use vmw_tsf.Net.Parse.RoundTrip.{parse_uint-decimal, split-Lacks, split-append}
use vmw_tsf.Outcome.{Outcome, ok, err, already_exists}
use vmw_tsf.Registry.{
  Interface, Registry, Manager, new_interface, default_interface, no_telemetry, register,
  apply_options, add_configured, add_unless_known,
}
use vmw_tsf.Management.{
  AddWanInterfaceArgs, default_twamp_port, parse_twamp_addr, wan_options, add_wan_interface,
  add_wan_parsed,
}

-- A peer without a colon gets the default port; with a port of 16 bits in decimal after a colon,
-- that port, whatever follows after a second colon.
pub parse_twamp_addr_lem :
    (peer rest : Str) (port : ℕ)
    → Lacks b':' peer
    → port < 2 ^ 16
    → (parse_twamp_addr peer ≡ ok (peer, default_twamp_port))
      × (parse_twamp_addr (peer ++ b':' ∷ decimal port) ≡ ok (peer, port))
      × (parse_twamp_addr (peer ++ b':' ∷ (decimal port ++ b':' ∷ rest)) ≡ ok (peer, port))
unfolding parse_twamp_addr
parse_twamp_addr_lem peer rest port h k =
    let digits = Lacks-of_digits b':' (decimal port) (omega arith) (decimal-AreDigits port) in
    let number = parse_uint-decimal 16 port k in
    (
      rw (split-Lacks b':' peer h),
      rw (split-append b':' peer (decimal port) h, split-Lacks b':' (decimal port) digits, number),
      rw (
        split-append b':' peer (decimal port ++ b':' ∷ rest) h,
        split-append b':' (decimal port) rest digits,
        number,
      ),
    )

-- The interface that `AddWanInterface` describes.
abbrev pub wan_interface : (Str → Ip) → AddWanInterfaceArgs → Str → ℕ → ℕ → Interface
wan_interface parse_ip args peer port nfid = record {
  upper = args.upper;
  lower = args.lower;
  net_flow_id = nfid;
  next_hop = parse_ip args.next_hop;
  stats = no_telemetry;
  twamp_peer = peer;
  twamp_port = port;
}

module _ {S : Type 0} (mgr : Manager S) (get_dn_if_index : Str → Outcome ℕ)
    (parse_ip : Str → Ip) where
  options_applied :
      (args : AddWanInterfaceArgs) (peer : Str) (port nfid : ℕ)
      → get_dn_if_index args.lower ≡ ok nfid
      → apply_options (wan_options mgr get_dn_if_index parse_ip args peer port) default_interface
        ≡ ok (wan_interface parse_ip args peer port nfid)
  unfolding apply_options wan_options
  options_applied args peer port nfid h = rw (h)

  -- Once the router is reached, the TWAMP address parses and the router knows the index of the
  -- lower name: a new upper name is registered with everything that the arguments say, and a known
  -- one is an error that leaves the registry alone.
  pub add_wan_interface_lem :
      (args : AddWanInterfaceArgs) (peer : Str) (port nfid : ℕ) (r : Registry S)
      → parse_twamp_addr args.twamp ≡ ok (peer, port)
      → get_dn_if_index args.lower ≡ ok nfid
      → let result = add_wan_interface mgr get_dn_if_index parse_ip (ok tt) args r in
        ((lookup args.upper r.upper2interface ≡ none)
          × (result ≡ (ok tt, register mgr (wan_interface parse_ip args peer port nfid) r)))
        ⊎ ((p : ℕ) × (lookup args.upper r.upper2interface ≡ some p)
            × (result ≡ (err (already_exists args.upper), r)))
  unfolding add_wan_interface add_wan_parsed new_interface add_configured add_unless_known
  add_wan_interface_lem args peer port nfid r h k =
      let applied = options_applied args peer port nfid k in
      elim (Option-cases (lookup args.upper r.upper2interface)) [
        | inl e ↦ inl (e, rw (h, applied, e))
        | inr (p, e) ↦ inr (p, e, rw (h, applied, e))
      ]
