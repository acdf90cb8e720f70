-- ===== src/Telemetry/Streams.antt =====
-- What the visitors of pkg/hal/hal.go and `StatsServer.GetInterfaces` report of a valid registry.
use vmw_tsf.Prelude.{Str, ◌≡◌, refl, ◌∙◌, List, [], ◌∷◌, ◌++◌, Option, none, some, map}
use mathlib.Core.List.{map-append}
use vmw_tsf.Outcome.{ok}
use vmw_tsf.Registry.{Interface, Registry, copy_lan_interfaces, copy_wan_interfaces}
use vmw_tsf.Registry.Invariant.{IsValid, upper_of}
use vmw_tsf.Registry.Lifecycle.{copies_are_listed}
use vmw_tsf.Telemetry.{InterfaceRow, send_rows, stream_interfaces}

abbrev pub row_name : InterfaceRow → Str
row_name row = row.name

rows_named :
    (copies : List (Option Interface)) (names : List Str)
    → map upper_of copies ≡ map some names
    → (rows : List InterfaceRow) × (send_rows copies ≡ ok rows) × (map row_name rows ≡ names)
unfolding send_rows
rows_named [] [] h = ([], refl, refl)
rows_named [] (n ∷ ns) h = absurd (cc)
rows_named (c ∷ cs) [] h = absurd (cc)
rows_named (none ∷ cs) (n ∷ ns) h = absurd (cc)
rows_named (some ifc ∷ cs) (n ∷ ns) h =
    let (rows, e, named) = rows_named cs ns (cc) in
    (record { name = ifc.upper; stats = ifc.stats } ∷ rows, rw e, cc)

-- Of a valid registry `StatsServer.GetInterfaces` does not crash, and sends one message for each
-- registered interface: the LAN names in order, then the WAN names in order.
pub stream_interfaces_names :
    {S : Type 0} (r : Registry S)
    → IsValid r
    → (rows : List InterfaceRow) × (stream_interfaces r ≡ ok rows)
      × (map row_name rows ≡ r.lan ++ r.wan)
unfolding stream_interfaces
stream_interfaces_names r v =
    let (copies_lan, copies_wan) = copies_are_listed r v in
    let (lan, sent_lan, named_lan) = rows_named (copy_lan_interfaces r) r.lan copies_lan in
    let (wan, sent_wan, named_wan) = rows_named (copy_wan_interfaces r) r.wan copies_wan in
    (lan ++ wan, rw (sent_lan, sent_wan), map-append row_name lan wan ∙ cc)
