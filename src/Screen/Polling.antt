-- ===== src/Screen/Polling.antt =====
-- `HostStats.Connect`, `Disconnect`, `Close` and a round of `Update`, of cmd/stats/main.go.
use vmw_tsf.Prelude.{ℕ, Str, Bool, true, false, Option, none, some, if◌then◌else◌}
use vmw_tsf.Prelude.Map.{Map}
use vmw_tsf.Outcome.{Outcome}
use vmw_tsf.Screen.{
  StatsClient, HostStats, HostStatSample, IfcStatSample, new_host_stat_sample, receive, shift_host,
}

module _ {F W : Type 0} (client : StatsClient W) where
  -- `Connect`: the connection is what `DialContext` returns.
  unfoldable pub connect : HostStats F → W → HostStats F × W
  connect h w =
      if h.connected
      then (h, w)
      else let (up, w') = client.dial h.url w in (record h { connected = up }, w')

  unfoldable pub disconnect : HostStats F → W → HostStats F × W
  disconnect h w = if h.connected then (record h { connected = false }, client.close w) else (h, w)

  -- `Close` keeps the closed connection.
  unfoldable pub close : HostStats F → W → W
  close h w = if h.connected then client.close w else w

  module _ (nought : F) (of_uint64 : ℕ → F) (fuel : ℕ) where
    abbrev pub Polled : Type 0
    Polled = Option (HostStats F × HostStatSample F × W)

    abbrev pub received :
        HostStats F → HostStatSample F → Option (Map Str (IfcStatSample F) × W) → Polled
    received h s none = none
    received h s (some (ifcs, w)) = some (h, record s { ifc = ifcs }, w)

    -- The request for the interfaces, when there is a connection.
    unfoldable pub poll_stream : Bool → HostStats F → HostStatSample F → W → Polled
    unfolding disconnect
    poll_stream false h s w = let (h', w') = disconnect h w in some (h', s, w')
    poll_stream true h s w = received h s (receive of_uint64 client fuel w s.ifc)

    unfoldable pub poll_interfaces : HostStats F → HostStatSample F → W → Polled
    unfolding poll_stream
    poll_interfaces h s w =
        if h.connected
        then (let (open_stream, w') = client.get_interfaces w in poll_stream open_stream h s w')
        else some (h, s, w)

    unfoldable pub take_acl : Option ℕ → HostStats F → HostStatSample F → W → Polled
    unfolding disconnect
    take_acl none h s w = let (h', w') = disconnect h w in some (h', s, w')
    take_acl (some size) h s w = some (h, record s { acl = of_uint64 size }, w)

    unfoldable pub poll_acl : HostStats F → HostStatSample F → W → Polled
    unfolding take_acl
    poll_acl h s w =
        if h.connected
        then (let (size, w') = client.get_acl_cache_size w in take_acl size h s w')
        else some (h, s, w)

    abbrev pub then_acl : Polled → Polled
    then_acl none = none
    then_acl (some (h, s, w)) = poll_acl h s w

    -- What a round samples.
    unfoldable pub poll : HostStats F → W → Polled
    unfolding connect poll_interfaces
    poll h w =
        let (h', w') = connect h w in
        then_acl (poll_interfaces h' (new_host_stat_sample nought h) w')

    abbrev pub shifted : Polled → Option (Outcome (HostStats F) × W)
    shifted none = none
    shifted (some (h, s, w)) = some (shift_host s h, w)

    -- A round of `Update`: `none` when the receive loop has not ended.
    unfoldable pub update : HostStats F → W → Option (Outcome (HostStats F) × W)
    unfolding poll
    update h w = shifted (poll h w)
