-- ===== src/Examples/Requests.antt =====
-- Requests of pkg/hal/hal.go whose values hold markup, and some that do not.
use vmw_tsf.Prelude.{◌≡◌, refl, [], ◌∷◌, str, str_eq}
use vmw_tsf.Tunnels.{si_interface_add, rsvp_delete}
use vmw_tsf.Tunnels.Markup.{leaves_of}
use vmw_tsf.Tunnels.Documents.{document}
use vmw_tsf.Tunnels.Requests.{edit, meaning, leaves_of-document}

leaves_of-document_example :
    leaves_of (document (si_interface_add (str "h") (str "e0") (str "1/8")))
    ≡ meaning (si_interface_add (str "h") (str "e0") (str "1/8"))
leaves_of-document_example =
    leaves_of-document (si_interface_add (str "h") (str "e0") (str "1/8")) (
      ((refl, refl), tt),
      (
        ((refl, refl), ((refl, refl), tt)),
        (((refl, refl), ((refl, refl), ((refl, refl), tt))), tt),
      ),
    )

-- Nothing is escaped: a name can close its element, and ask for the deletion of another tunnel.
two_tunnels :
    leaves_of (document (rsvp_delete (str "a</tunnel-name><tunnel-name>b")))
    ≡ edit (str "none") (
        (str "tunnel operation=\"delete\"", [])
        ∷ (str "tunnel-name", str "a")
        ∷ (str "tunnel-name", str "b")
        ∷ [])
unfolding leaves_of document
two_tunnels = refl
