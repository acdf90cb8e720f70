-- ===== src/Tunnels/Commits.antt =====
-- When `AddTunnel` and `DeleteTunnel` (pkg/hal/hal.go) commit.
use vmw_tsf.Prelude.{Str, ◌≢◌, Bool, List, [], ◌∷◌, ◌++◌, str, ◌⊎◌, inl, inr, Bool-cases, str_eqb}
use vmw_tsf.Net.{Ip}
use vmw_tsf.Outcome.{Outcome, ok, err, crash, proceed}
use vmw_tsf.Netconf.{Reply}
use vmw_tsf.Tunnels.{
  TunnelType, rsvp, vxlan, other_type, TunnelRequest, rsvp_add, vxlan_add, rsvp_delete,
  vxlan_delete, rsvp_explicit_path, interfaces_get, descriptions_get, si_interfaces_get,
  si_interface_delete, si_interface_add, flow_monitoring_delete, flow_monitoring_add, commit,
  Answer, send, ask, halo, address_of, find_connected, find_described, si_names,
  get_rsvp_tunnel_interface, get_vxlan_tunnel_interface, commit_tunnel, join_instance,
  join_if_found, add_tunnel, leave_instance, leave_listed, delete_from_instance, delete_tunnel,
}

-- A device that remembers the requests, the last one first.
abbrev pub logged :
    {D : Type 0}
    → (TunnelRequest → D → Reply Answer × D)
    → TunnelRequest
    → D × List TunnelRequest
    → Reply Answer × (D × List TunnelRequest)
logged exec q (d, log) = let (reply, d') = exec q d in (reply, (d', q ∷ log))

abbrev pub IsOther : TunnelRequest → Type 0
IsOther commit = ⊥
IsOther q = Unit

abbrev pub NoCommit : List TunnelRequest → Type 0
NoCommit [] = Unit
NoCommit (q ∷ qs) = IsOther q × NoCommit qs

-- The last request is a commit, and the only one.
abbrev pub IsCommitted : List TunnelRequest → Type 0
IsCommitted [] = ⊥
IsCommitted (commit ∷ qs) = NoCommit qs
IsCommitted (q ∷ qs) = ⊥

module _ {D : Type 0} where
  abbrev pub Ends : Outcome (Unit {0}) × (D × List TunnelRequest) → Type 0
  Ends (o, (d, log)) = IsCommitted log ⊎ (NoCommit log × (o ≢ ok tt))

  abbrev Quiet : {A : Type 0} → Outcome A × (D × List TunnelRequest) → Type 0
  Quiet (o, (d, log)) = NoCommit log

  proceed-Ends :
      {A : Type 0} (p : Outcome A × (D × List TunnelRequest))
      (k : A → D × List TunnelRequest → Outcome (Unit {0}) × (D × List TunnelRequest))
      → Quiet p
      → ((a : A) (s : D × List TunnelRequest) → NoCommit s.1 → Ends (k a s))
      → Ends (proceed p k)
  proceed-Ends (ok a, s) k q h = h a s q
  proceed-Ends (err e, s) k q h = inr (q, λ x. cc)
  proceed-Ends (crash, s) k q h = inr (q, λ x. cc)

  proceed-Quiet :
      {A B : Type 0} (p : Outcome A × (D × List TunnelRequest))
      (k : A → D × List TunnelRequest → Outcome B × (D × List TunnelRequest))
      → Quiet p
      → ((a : A) (s : D × List TunnelRequest) → NoCommit s.1 → Quiet (k a s))
      → Quiet (proceed p k)
  proceed-Quiet (ok a, s) k q h = h a s q
  proceed-Quiet (err e, s) k q h = q
  proceed-Quiet (crash, s) k q h = q

module _ {D : Type 0} (exec : TunnelRequest → D → Reply Answer × D) (parse_ip : Str → Ip)
    (parses : Str → Bool) (contains : Str → Ip → Bool) where
  send-Quiet :
      (q : TunnelRequest) (s : D × List TunnelRequest)
      → IsOther q
      → NoCommit s.1
      → Quiet (send (logged exec) parse_ip parses contains q s)
  unfolding send
  send-Quiet q (d, log) o n = (o, n)

  ask-Quiet :
      {A : Type 0} (q : TunnelRequest) (read : Answer → Outcome A) (s : D × List TunnelRequest)
      → IsOther q
      → NoCommit s.1
      → Quiet (ask (logged exec) parse_ip parses contains q read s)
  unfolding ask
  ask-Quiet q read (d, log) o n = (o, n)

  commit_tunnel-Ends :
      (s : D × List TunnelRequest)
      → NoCommit s.1
      → Ends (commit_tunnel (logged exec) parse_ip parses contains s)
  unfolding commit_tunnel
  commit_tunnel-Ends (d, log) n = inl n

  rsvp_interface-Quiet :
      (name : Str) (s : D × List TunnelRequest)
      → NoCommit s.1
      → Quiet (get_rsvp_tunnel_interface (logged exec) parse_ip parses contains name s)
  unfolding get_rsvp_tunnel_interface
  rsvp_interface-Quiet name s n =
      proceed-Quiet
        (ask (logged exec) parse_ip parses contains (rsvp_explicit_path (name ++ str "path"))
          (address_of (logged exec) parse_ip parses contains) s)
        (λ addr.
          ask (logged exec) parse_ip parses contains interfaces_get
            (λ a. find_connected (λ net. contains net addr) addr [] a.tokens))
        (ask-Quiet (rsvp_explicit_path (name ++ str "path"))
          (address_of (logged exec) parse_ip parses contains) s tt n)
        λ addr s₁ n₁.
          ask-Quiet interfaces_get (λ a. find_connected (λ net. contains net addr) addr [] a.tokens)
            s₁ tt n₁

  vxlan_interface-Quiet :
      (name : Str) (s : D × List TunnelRequest)
      → NoCommit s.1
      → Quiet (get_vxlan_tunnel_interface (logged exec) parse_ip parses contains name s)
  unfolding get_vxlan_tunnel_interface
  vxlan_interface-Quiet name s n =
      ask-Quiet descriptions_get (λ a. find_described name [] a.tokens) s tt n

  join_instance-Ends :
      (address ifc : Str) (s : D × List TunnelRequest)
      → NoCommit s.1
      → Ends (join_instance (logged exec) parse_ip parses contains address ifc s)
  unfolding join_instance
  join_instance-Ends address ifc s n =
      proceed-Ends
        (send (logged exec) parse_ip parses contains (si_interface_add halo ifc address) s)
        (λ _ s₁.
          proceed
            (send (logged exec) parse_ip parses contains (flow_monitoring_add ifc halo halo) s₁)
            λ _. commit_tunnel (logged exec) parse_ip parses contains)
        (send-Quiet (si_interface_add halo ifc address) s tt n)
        λ a s₁ n₁.
          proceed-Ends
            (send (logged exec) parse_ip parses contains (flow_monitoring_add ifc halo halo) s₁)
            (λ _. commit_tunnel (logged exec) parse_ip parses contains)
            (send-Quiet (flow_monitoring_add ifc halo halo) s₁ tt n₁)
            λ b s₂ n₂. commit_tunnel-Ends s₂ n₂

  join_if_found-Ends :
      (address : Str) (p : Outcome Str × (D × List TunnelRequest))
      → Quiet p
      → Ends (join_if_found (logged exec) parse_ip parses contains address p)
  unfolding join_if_found
  join_if_found-Ends address (ok ifc, s) n = join_instance-Ends address ifc s n
  join_if_found-Ends address (err e, s) n = commit_tunnel-Ends s n
  join_if_found-Ends address (crash, s) n = inr (n, λ x. cc)

  -- A call of `AddTunnel` either sends one commit, as its last request, or sends no commit and does
  -- not succeed.
  pub add_tunnel-Ends :
      (name : Str) (source destination : Ip) (t : TunnelType) (address : Str) (d : D)
      → Ends (
          add_tunnel
            (logged exec)
            parse_ip
            parses
            contains
            name
            source
            destination
            t
            address
            (d, []))
  unfolding add_tunnel
  add_tunnel-Ends name source destination rsvp address d =
      proceed-Ends
        (send (logged exec) parse_ip parses contains (rsvp_add name source destination) (d, []))
        (λ _ s₁.
          join_if_found (logged exec) parse_ip parses contains address
            (get_rsvp_tunnel_interface (logged exec) parse_ip parses contains name s₁))
        (send-Quiet (rsvp_add name source destination) (d, []) tt tt)
        λ a s₁ n₁.
          join_if_found-Ends address
            (get_rsvp_tunnel_interface (logged exec) parse_ip parses contains name s₁)
            (rsvp_interface-Quiet name s₁ n₁)
  add_tunnel-Ends name source destination vxlan address d =
      proceed-Ends (get_vxlan_tunnel_interface (logged exec) parse_ip parses contains name (d, []))
        (λ ifc s₁.
          proceed (send (logged exec) parse_ip parses contains (vxlan_add ifc) s₁)
            λ _. join_instance (logged exec) parse_ip parses contains address ifc)
        (vxlan_interface-Quiet name (d, []) tt)
        λ ifc s₁ n₁.
          proceed-Ends (send (logged exec) parse_ip parses contains (vxlan_add ifc) s₁)
            (λ _. join_instance (logged exec) parse_ip parses contains address ifc)
            (send-Quiet (vxlan_add ifc) s₁ tt n₁) λ a s₂ n₂. join_instance-Ends address ifc s₂ n₂
  add_tunnel-Ends name source destination (other_type t) address d = inr (tt, λ x. cc)

  leave_instance-Quiet :
      (ifc : Str) (names : List Str) (s : D × List TunnelRequest)
      → NoCommit s.1
      → Quiet (leave_instance (logged exec) parse_ip parses contains ifc names s)
  unfolding leave_instance
  leave_instance-Quiet ifc [] s n = n
  leave_instance-Quiet ifc (halo_ifc ∷ rest) s n = elim (Bool-cases (str_eqb ifc halo_ifc)) [
    | inl same ↦
        rw (same, leave_instance)
          (proceed-Quiet
            (send (logged exec) parse_ip parses contains (si_interface_delete halo ifc) s)
            (λ _ s₁.
              proceed (send (logged exec) parse_ip parses contains (flow_monitoring_delete ifc) s₁)
                λ _. leave_instance (logged exec) parse_ip parses contains ifc rest)
            (send-Quiet (si_interface_delete halo ifc) s tt n)
            λ a s₁ n₁.
              proceed-Quiet
                (send (logged exec) parse_ip parses contains (flow_monitoring_delete ifc) s₁)
                (λ _. leave_instance (logged exec) parse_ip parses contains ifc rest)
                (send-Quiet (flow_monitoring_delete ifc) s₁ tt n₁)
                λ b s₂ n₂. leave_instance-Quiet ifc rest s₂ n₂)
    | inr other ↦ rw (other, leave_instance) (leave_instance-Quiet ifc rest s n)
  ]

  leave_listed-Ends :
      (ifc : Str) (p : Outcome (List Str) × (D × List TunnelRequest))
      → Quiet p
      → Ends (leave_listed (logged exec) parse_ip parses contains ifc p)
  unfolding leave_listed
  leave_listed-Ends ifc (ok names, s) n =
      proceed-Ends (leave_instance (logged exec) parse_ip parses contains ifc names s)
        (λ _. commit_tunnel (logged exec) parse_ip parses contains)
        (leave_instance-Quiet ifc names s n) λ a s₁ n₁. commit_tunnel-Ends s₁ n₁
  leave_listed-Ends ifc (err e, s) n = commit_tunnel-Ends s n
  leave_listed-Ends ifc (crash, s) n = inr (n, λ x. cc)

  delete_from_instance-Ends :
      (ifc : Str) (s : D × List TunnelRequest)
      → NoCommit s.1
      → Ends (delete_from_instance (logged exec) parse_ip parses contains ifc s)
  unfolding delete_from_instance
  delete_from_instance-Ends ifc s n =
      leave_listed-Ends ifc
        (ask (logged exec) parse_ip parses contains (si_interfaces_get halo)
          (λ a. si_names parses a.tokens) s)
        (ask-Quiet (si_interfaces_get halo) (λ a. si_names parses a.tokens) s tt n)

  -- A call of `DeleteTunnel` either sends one commit, as its last request, or sends no commit and
  -- does not succeed.
  pub delete_tunnel-Ends :
      (name : Str) (t : TunnelType) (d : D)
      → Ends (delete_tunnel (logged exec) parse_ip parses contains name t (d, []))
  unfolding delete_tunnel
  delete_tunnel-Ends name rsvp d =
      proceed-Ends (send (logged exec) parse_ip parses contains (rsvp_delete name) (d, []))
        (λ _ s₁.
          proceed (get_rsvp_tunnel_interface (logged exec) parse_ip parses contains name s₁)
            (delete_from_instance (logged exec) parse_ip parses contains))
        (send-Quiet (rsvp_delete name) (d, []) tt tt)
        λ a s₁ n₁.
          proceed-Ends (get_rsvp_tunnel_interface (logged exec) parse_ip parses contains name s₁)
            (delete_from_instance (logged exec) parse_ip parses contains)
            (rsvp_interface-Quiet name s₁ n₁) λ ifc s₂ n₂. delete_from_instance-Ends ifc s₂ n₂
  delete_tunnel-Ends name vxlan d =
      proceed-Ends (get_vxlan_tunnel_interface (logged exec) parse_ip parses contains name (d, []))
        (λ ifc s₁.
          proceed (send (logged exec) parse_ip parses contains (vxlan_delete ifc) s₁)
            λ _. delete_from_instance (logged exec) parse_ip parses contains ifc)
        (vxlan_interface-Quiet name (d, []) tt)
        λ ifc s₁ n₁.
          proceed-Ends (send (logged exec) parse_ip parses contains (vxlan_delete ifc) s₁)
            (λ _. delete_from_instance (logged exec) parse_ip parses contains ifc)
            (send-Quiet (vxlan_delete ifc) s₁ tt n₁) λ a s₂ n₂. delete_from_instance-Ends ifc s₂ n₂
  delete_tunnel-Ends name (other_type t) d = inr (tt, λ x. cc)
