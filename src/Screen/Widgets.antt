-- ===== src/Screen/Widgets.antt =====
-- The widgets and hosts of cmd/stats/main.go. A widget is given the slice of a window once, and
-- `shift` writes into that slice; here a widget is computed from the windows of the moment. Of the
-- widget library only the fields that are set are kept. The parameter `of_uint64` is the conversion
-- of a uint64 to a float64.
use vmw_tsf.Prelude.{
  ℕ, ◌≡◌, refl, ◌⊎◌, inl, inr, Str, List, [], ◌∷◌, ◌++◌, Option, none, some, str, str_eq, All,
  length,
}
use vmw_tsf.Prelude.Map.{Map, lookup, insert}
use vmw_tsf.Screen.{HostStats, IfcStats, host_stats_url, new_host_stats, stats_len}
use vmw_tsf.Screen.Full.{IsFull, HasFull}

pub record ScreenRect : Type 0 where
  pub x1 : ℕ
  pub y1 : ℕ
  pub x2 : ℕ
  pub y2 : ℕ

pub record Sparkline (F : Type 0) : Type 0 where
  pub title : Str
  pub points : List F
  pub max_val : F
  pub max_height : ℕ

pub record NodeWidget (F : Type 0) : Type 0 where
  pub title : Str
  pub rect : ScreenRect
  pub lines : List (Sparkline F)

module _ {F : Type 0} where
  -- `h.ifc[name].rx_bps`: nil for an unknown name.
  unfoldable pub rx_window : Option (IfcStats F) → List F
  rx_window none = []
  rx_window (some st) = st.rx_bps

  unfoldable pub tx_window : Option (IfcStats F) → List F
  tx_window none = []
  tx_window (some st) = st.tx_bps

module _ {F : Type 0} (of_uint64 : ℕ → F) (max_bw max_acl : ℕ) where
  unfoldable pub bandwidth_line : Str → List F → Sparkline F
  bandwidth_line title points = record {
    title = title;
    points = points;
    max_val = of_uint64 max_bw;
    max_height = 4;
  }

  unfoldable pub acl_line : HostStats F → Sparkline F
  acl_line h = record {
    title = str "acl_size";
    points = h.acl;
    max_val = of_uint64 max_acl;
    max_height = 4;
  }

  abbrev pub node_widget : HostStats F → ScreenRect → List (Sparkline F) → NodeWidget F
  node_widget h r lines = record { title = str "Node: " ++ h.name; rect = r; lines = lines }

  unfoldable pub make_node_a_widget : HostStats F → ScreenRect → NodeWidget F
  unfolding bandwidth_line acl_line rx_window tx_window
  make_node_a_widget h r = node_widget h r (
      bandwidth_line (str "local_rx") (rx_window (lookup (str "halo_local0") h.ifc))
      ∷ bandwidth_line (str "halo1_tx") (tx_window (lookup (str "halo1") h.ifc))
      ∷ bandwidth_line (str "halo0_tx") (tx_window (lookup (str "halo0") h.ifc))
      ∷ acl_line h
      ∷ [])

  unfoldable pub make_node_b_widget : HostStats F → ScreenRect → NodeWidget F
  unfolding bandwidth_line acl_line rx_window tx_window
  make_node_b_widget h r = node_widget h r (
      bandwidth_line (str "halo1_rx") (rx_window (lookup (str "halo1") h.ifc))
      ∷ bandwidth_line (str "halo0_tx") (tx_window (lookup (str "halo0") h.ifc))
      ∷ acl_line h
      ∷ [])

  unfoldable pub make_node_c_widget : HostStats F → ScreenRect → NodeWidget F
  unfolding bandwidth_line acl_line rx_window tx_window
  make_node_c_widget h r = node_widget h r (
      bandwidth_line (str "halo0_rx") (rx_window (lookup (str "halo0") h.ifc))
      ∷ bandwidth_line (str "halo1_rx") (rx_window (lookup (str "halo1") h.ifc))
      ∷ bandwidth_line (str "local_tx") (tx_window (lookup (str "halo_local0") h.ifc))
      ∷ acl_line h
      ∷ [])

-- The hosts that `main` polls.
unfoldable pub hosts : {F : Type 0} → F → Map Str (HostStats F)
unfolding insert
hosts nought =
    let host = λ (name : Str) (addr : Str). new_host_stats nought name (host_stats_url addr) in
    insert (str "halo-c") (host (str "halo-c") (str "192.168.50.27")) (
      insert (str "halo-b") (host (str "halo-b") (str "192.168.50.45"))
        (insert (str "halo-a") (host (str "halo-a") (str "192.168.50.36")) []))

module _ {F : Type 0} (of_uint64 : ℕ → F) (max_bw max_acl : ℕ) where
  -- Whatever a line shows is empty or a whole window.
  abbrev pub IsWhole : Sparkline F → Type 0
  IsWhole line = (length line.points ≡ 0) ⊎ (length line.points ≡ stats_len)

  rx_length :
      (o : Option (IfcStats F))
      → HasFull o
      → (length (rx_window o) ≡ 0) ⊎ (length (rx_window o) ≡ stats_len)
  unfolding rx_window HasFull
  rx_length none f = inl refl
  rx_length (some st) (rx, tx) = inr rx

  tx_length :
      (o : Option (IfcStats F))
      → HasFull o
      → (length (tx_window o) ≡ 0) ⊎ (length (tx_window o) ≡ stats_len)
  unfolding tx_window HasFull
  tx_length none f = inl refl
  tx_length (some st) (rx, tx) = inr tx

  -- No line of the three widgets shows a part of a window.
  pub widget_lengths :
      (h : HostStats F) (r : ScreenRect)
      → IsFull h
      → All IsWhole (make_node_a_widget of_uint64 max_bw max_acl h r).lines
        × All IsWhole (make_node_b_widget of_uint64 max_bw max_acl h r).lines
        × All IsWhole (make_node_c_widget of_uint64 max_bw max_acl h r).lines
  unfolding make_node_a_widget make_node_b_widget make_node_c_widget bandwidth_line acl_line
  widget_lengths h r f =
      let rx = λ (name : Str). rx_length (lookup name h.ifc) (f.ifc name) in
      let tx = λ (name : Str). tx_length (lookup name h.ifc) (f.ifc name) in
      (
        (rx (str "halo_local0"), (tx (str "halo1"), (tx (str "halo0"), (inr f.acl, tt)))),
        (rx (str "halo1"), (tx (str "halo0"), (inr f.acl, tt))),
        (rx (str "halo0"), (rx (str "halo1"), (tx (str "halo_local0"), (inr f.acl, tt)))),
      )
