-- ===== src/Screen.antt =====
-- The statistics screen, cmd/stats/main.go: per host and interface the last samples of the rates,
-- polled from the host's statistics server. A float64 is a parameter: only zero and the conversion
-- of a uint64 are used. The gRPC client is a parameter with a state of its own.
pub mod Window
pub mod Receiving
pub mod Samples
pub mod Polling
pub mod Advance
pub mod Rounds
pub mod Full
pub mod History
pub mod Widgets
use vmw_tsf.Prelude.{
  ℕ, zero, suc, ◌-◌, Str, Bool, true, false, List, [], ◌∷◌, ◌++◌, Option, none, some, str, length,
  get_elem?, set, replicate, str_eq, if◌then◌else◌,
}
use vmw_tsf.Prelude.Map.{Map, lookup, insert}
use vmw_tsf.Outcome.{Outcome, ok, crash, ◌>>=◌}
use vmw_tsf.Net.Text.{decimal}

abbrev pub stats_len : ℕ
stats_len = 48

abbrev pub stats_port : ℕ
stats_port = 7732

-- `HostStatsUrl`.
unfoldable pub host_stats_url : Str → Str
host_stats_url host = host ++ b':' ∷ decimal stats_port

-- A message of the stream, as far as it is read.
pub record InterfaceStats : Type 0 where
  pub name : Str
  pub rx_bps : ℕ
  pub tx_bps : ℕ

-- What `Recv` returns: a message, an empty one, `io.EOF`, or another error.
pub data Received : Type 0 where
  message : InterfaceStats → Received
  no_message end_of_stream failure : Received

-- `io.EOF` leaves the loop; after anything else it goes on.
unfoldable pub unless_end {ℓ} : {A : Type ℓ} → Received → A → A → A
unless_end end_of_stream done rest = done
unless_end (message m) done rest = rest
unless_end no_message done rest = rest
unless_end failure done rest = rest

-- The gRPC client, with a state `W`: `DialContext` (whether there is a connection), `Close`,
-- `GetInterfaces` (whether there is a stream), `Recv` and `GetAclCacheSize`.
pub record StatsClient (W : Type 0) : Type 0 where
  pub dial : Str → W → Bool × W
  pub close : W → W
  pub get_interfaces : W → Bool × W
  pub recv : W → Received × W
  pub get_acl_cache_size : W → Option ℕ × W

module _ {F : Type 0} where
  -- `s[i] = s[i+1]`; an index out of range is a panic.
  unfoldable pub copy_next : ℕ → List F → Outcome (List F)
  copy_next i s = elim (get_elem? s (suc i)) [ none ↦ crash | some e ↦ ok (set s i e) ]

  -- `k` rounds of the loop of `shift`, from the index `i`.
  unfoldable pub copy_down : ℕ → ℕ → List F → Outcome (List F)
  unfolding copy_next
  copy_down i zero s = ok s
  copy_down i (suc k) s = do t ← copy_next i s; copy_down (suc i) k t

  -- `s[n-1] = e`, where the index of an empty slice is -1.
  unfoldable pub write_last : List F → F → Outcome (List F)
  write_last [] e = crash
  write_last (x ∷ s) e = ok (set (x ∷ s) (length s) e)

  -- `shift`. For an empty slice the loop ends at once.
  unfoldable pub shift : List F → F → Outcome (List F)
  unfolding copy_down write_last
  shift s e = do t ← copy_down 0 (length s - 1) s; write_last t e

pub record IfcStats (F : Type 0) : Type 0 where
  pub name : Str
  pub rx_bps : List F
  pub tx_bps : List F

-- `conn != nil` is `connected`.
pub record HostStats (F : Type 0) : Type 0 where
  pub name : Str
  pub url : Str
  pub connected : Bool
  pub ifc : Map Str (IfcStats F)
  pub acl : List F

pub record IfcStatSample (F : Type 0) : Type 0 where
  pub rx_bps : F
  pub tx_bps : F

pub record HostStatSample (F : Type 0) : Type 0 where
  pub ifc : Map Str (IfcStatSample F)
  pub acl : F

module _ {F : Type 0} (nought : F) where
  unfoldable pub new_ifc_stats : Str → ℕ → IfcStats F
  new_ifc_stats name len = record {
    name = name;
    rx_bps = replicate len nought;
    tx_bps = replicate len nought;
  }

  unfoldable pub new_host_stats : Str → Str → HostStats F
  unfolding new_ifc_stats insert
  new_host_stats name url = record {
    name = name;
    url = url;
    connected = false;
    ifc = insert (str "halo1") (new_ifc_stats (str "halo1") stats_len) (
        insert (str "halo0") (new_ifc_stats (str "halo0") stats_len)
          (insert (str "halo_local0") (new_ifc_stats (str "local") stats_len) []));
    acl = replicate stats_len nought;
  }

  abbrev pub no_sample : IfcStatSample F
  no_sample = record { rx_bps = nought; tx_bps = nought }

  unfoldable pub empty_samples : Map Str (IfcStats F) → Map Str (IfcStatSample F)
  empty_samples [] = []
  empty_samples ((name, _) ∷ ifcs) = insert name no_sample (empty_samples ifcs)

  unfoldable pub new_host_stat_sample : HostStats F → HostStatSample F
  unfolding empty_samples
  new_host_stat_sample h = record { ifc = empty_samples h.ifc; acl = nought }

module _ {F : Type 0} (of_uint64 : ℕ → F) where
  -- The body of the receive loop for a message; a name that is not sampled is skipped.
  unfoldable pub take_message :
      InterfaceStats → Map Str (IfcStatSample F) → Map Str (IfcStatSample F)
  take_message m s = elim (lookup m.name s) [
    | none ↦ s
    | some _ ↦ insert m.name (record { rx_bps = of_uint64 m.rx_bps; tx_bps = of_uint64 m.tx_bps }) s
  ]

  unfoldable pub take_received : Received → Map Str (IfcStatSample F) → Map Str (IfcStatSample F)
  unfolding take_message
  take_received (message m) s = take_message m s
  take_received no_message s = s
  take_received end_of_stream s = s
  take_received failure s = s

  module _ {W : Type 0} (client : StatsClient W) where
    -- The receive loop, on fuel. Only `io.EOF` ends it.
    unfoldable pub receive :
        ℕ → W → Map Str (IfcStatSample F) → Option (Map Str (IfcStatSample F) × W)
    unfolding take_received unless_end
    receive zero w s = none
    receive (suc fuel) w s =
        let (got, w') = client.recv w in
        let rest = receive fuel w' (take_received got s) in unless_end got (some (s, w')) rest

module _ {F : Type 0} where
  -- The loops at the end of `Update`, over the samples. An unknown name has nil slices.
  unfoldable pub shift_sample :
      Str → IfcStatSample F → Map Str (IfcStats F) → Outcome (Map Str (IfcStats F))
  shift_sample name s ifcs = elim (lookup name ifcs) [
    | none ↦ crash
    | some st ↦ do
      rx ← shift st.rx_bps s.rx_bps
      tx ← shift st.tx_bps s.tx_bps
      ok (insert name (record st { rx_bps = rx; tx_bps = tx }) ifcs)
  ]

  unfoldable pub shift_all :
      Map Str (IfcStatSample F) → Map Str (IfcStats F) → Outcome (Map Str (IfcStats F))
  unfolding shift_sample
  shift_all [] ifcs = ok ifcs
  shift_all ((name, s) ∷ samples) ifcs = do
    shifted ← shift_sample name s ifcs
    shift_all samples shifted

  unfoldable pub shift_host : HostStatSample F → HostStats F → Outcome (HostStats F)
  unfolding shift_all
  shift_host s h = do
    ifcs ← shift_all s.ifc h.ifc
    acl ← shift h.acl s.acl
    ok (record h { ifc = ifcs; acl = acl })
