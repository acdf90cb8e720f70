-- ===== src/Examples/Screens.antt =====
-- A round of the statistics screen of cmd/stats/main.go, with numbers for floats.
use vmw_tsf.Prelude.{
  ℕ, Str, true, ◌≡◌, ◌↔◌, refl, List, [], ◌∷◌, ◌++◌, some, str, replicate, str_eq,
}
use vmw_tsf.Prelude.Map.{Map, lookup, insert}
use vmw_tsf.Outcome.{ok}
use vmw_tsf.Screen.{
  Received, message, failure, end_of_stream, StatsClient, HostStats, HostStatSample, IfcStats,
  IfcStatSample, new_host_stats, new_ifc_stats, receive, shift, take_received, unless_end,
  shift_host, shift_all, copy_down, write_last, empty_samples, new_host_stat_sample,
}
use vmw_tsf.Screen.Window.{push, shift-push}
use vmw_tsf.Screen.Receiving.{EndsWith, receive_lem}
use vmw_tsf.Screen.Samples.{IsSampled}
use vmw_tsf.Screen.Polling.{connect, poll, update, poll_interfaces, poll_acl}
use vmw_tsf.Screen.Full.{IsFull, IsShifted, update_lem, new_host_stats-IsFull}
use vmw_tsf.Screen.History.{Shows, window, windows_hold_last}

abbrev same : ℕ → ℕ
same n = n

abbrev next_message : List Received → Received × List Received
next_message [] = (end_of_stream, [])
next_message (got ∷ more) = (got, more)

-- A server that sends what stands in the list.
abbrev server : StatsClient (List Received)
server = record {
  dial = λ url w. (true, w);
  close = λ w. w;
  get_interfaces = λ w. (true, w);
  recv = next_message;
  get_acl_cache_size = λ w. (some 3, w);
}

abbrev sent : List Received
sent =
    message (record { name = str "halo0"; rx_bps = 70; tx_bps = 80 })
    ∷ failure
    ∷ message (record { name = str "eth9"; rx_bps = 1; tx_bps = 2 })
    ∷ []

abbrev old : List ℕ
old = 1 ∷ 2 ∷ 3 ∷ []

shift-push_example : shift old 4 ≡ push old 4
shift-push_example = shift-push old 4

shifted : shift old 4 ≡ ok (2 ∷ 3 ∷ 4 ∷ [])
unfolding shift copy_down write_last
shifted = refl

abbrev quiet : IfcStatSample ℕ
quiet = record { rx_bps = 0; tx_bps = 0 }

abbrev busy : IfcStatSample ℕ
busy = record { rx_bps = 70; tx_bps = 80 }

abbrev before : Map Str (IfcStatSample ℕ)
before = (str "halo1", quiet) ∷ (str "halo0", quiet) ∷ (str "halo_local0", quiet) ∷ []

abbrev after_stream : Map Str (IfcStatSample ℕ)
after_stream = (str "halo1", quiet) ∷ (str "halo0", busy) ∷ (str "halo_local0", quiet) ∷ []

receive_lem_example :
    (receive same server 4 sent before ≡ some (after_stream, []))
    ↔ EndsWith same server 4 sent before (after_stream, [])
receive_lem_example = receive_lem same server 4 sent before after_stream []

abbrev start : HostStats ℕ
start = new_host_stats 0 (str "halo-a") (str "192.168.50.36:7732")

abbrev up : HostStats ℕ
up = record start { connected = true }

abbrev sample : HostStatSample ℕ
sample = record { ifc = after_stream; acl = 3 }

polled : poll server 0 same 4 start sent ≡ some (up, sample, [])
unfolding poll receive connect poll_interfaces poll_acl lookup insert new_host_stats
    new_host_stat_sample empty_samples take_received unless_end new_ifc_stats
polled = refl

update_lem_example :
    (h' : HostStats ℕ) × (update server 0 same 4 start sent ≡ some (ok h', []))
    × IsSampled start.ifc sample.ifc
    × IsShifted sample start h'
    × IsFull h'
update_lem_example =
    update_lem server 0 same 4 start up sample sent []
      (new_host_stats-IsFull 0 (str "halo-a") (str "192.168.50.36:7732")) polled

abbrev moved : Str → ℕ → ℕ → IfcStats ℕ
moved name rx tx = record {
  name = name;
  rx_bps = replicate 47 0 ++ rx ∷ [];
  tx_bps = replicate 47 0 ++ tx ∷ [];
}

abbrev after : HostStats ℕ
after = record up {
  ifc =
      (str "halo_local0", moved (str "local") 0 0)
      ∷ (str "halo0", moved (str "halo0") 70 80)
      ∷ (str "halo1", moved (str "halo1") 0 0)
      ∷ [];
  acl = replicate 47 0 ++ 3 ∷ [];
}

updated : update server 0 same 4 start sent ≡ some (ok after, [])
unfolding update poll receive connect poll_interfaces poll_acl lookup insert new_host_stats
    new_host_stat_sample empty_samples take_received unless_end shift shift_host shift_all copy_down
    write_last new_ifc_stats
updated = refl

windows_hold_last_example :
    ((name : Str) (st : IfcStats ℕ)
      → lookup name start.ifc ≡ some st
      → Shows name (sample ∷ []) st after)
    × (after.acl ≡ window start.acl (3 ∷ []))
windows_hold_last_example =
    windows_hold_last server 0 same 4 start after sent [] (sample ∷ [])
      (new_host_stats-IsFull 0 (str "halo-a") (str "192.168.50.36:7732"))
      (up, after, [], polled, updated, (refl, refl))
