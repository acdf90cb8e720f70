-- ===== src/Tunnels/Reading.antt =====
-- How a text of pkg/hal/hal.go reads once it is filled with values that hold no markup.
use vmw_tsf.Prelude.{
  ℕ, Str, ◌≡◌, refl, sym, ap, ◌∙◌, List, [], ◌∷◌, ◌++◌, Option, none, false, some, All, eqb, str_eq,
  Bool-cases, inl, inr,
}
use mathlib.Core.List.{append-nil, append_assoc}
use vmw_tsf.Prelude.Map.{lookup}
use vmw_tsf.Tunnels.Filling.{Piece, lit, field, Values, printed, in_text, pieces, filled, execute}
use vmw_tsf.Tunnels.Markup.{
  Mode, between, in_name, in_attributes, after_slash, in_end, broken, Reader, step, read, start,
  result, leaves_of,
}

-- A character that is no markup.
abbrev pub IsPlain : ℕ → Type 0
IsPlain c = (eqb c b'<' ≡ false) × (eqb c b'&' ≡ false)

abbrev pub ArePlain : Values → Type 0
ArePlain = All (λ kv. All IsPlain kv.1)

read-append : (r : Reader) (s t : Str) → read r (s ++ t) ≡ read (read r s) t
unfolding read
read-append r [] t = refl
read-append r (c ∷ s) t = read-append (step r c) s t

step_plain :
    (r : Reader) (c : ℕ)
    → IsPlain c
    → step (record r { mode = between }) c ≡ record r { mode = between; text = r.text ++ c ∷ [] }
unfolding step
step_plain r c h = rw (h.0, h.1) refl

read_plain :
    (r : Reader) (v : Str)
    → All IsPlain v
    → read (record r { mode = between }) v ≡ record r { mode = between; text = r.text ++ v }
unfolding read
read_plain r [] h = ap (λ t. record r { mode = between; text = t }) (sym (append-nil r.text))
read_plain r (c ∷ v) h =
    ap (λ x. read x v) (step_plain r c h.0)
    ∙ read_plain (record r { text = r.text ++ c ∷ [] }) v h.1
    ∙ ap (λ t. record r { mode = between; text = t }) (append_assoc r.text (c ∷ []) v)

-- A value in the text between tags is taken as it is.
abbrev take_in : Mode → Str → Reader → Reader
take_in between v r = record r { mode = between; text = r.text ++ v }
take_in m v r = read (record r { mode = m }) v

abbrev take_value : Option Str → Reader → Reader
take_value none r = read r (printed none)
take_value (some v) r = take_in r.mode v r

abbrev pub read_pieces : Values → Reader → List Piece → Reader
read_pieces values r [] = r
read_pieces values r (lit s ∷ ps) = read_pieces values (read r s) ps
read_pieces values r (field key ∷ ps) = read_pieces values (take_value (lookup key values) r) ps

read_taken :
    (m : Mode) (r : Reader) (v : Str)
    → All IsPlain v
    → read (record r { mode = m }) v ≡ take_in m v r
read_taken between r v h = read_plain r v h
read_taken (in_name n) r v h = refl
read_taken (in_attributes n a b) r v h = refl
read_taken (after_slash n) r v h = refl
read_taken (in_end n) r v h = refl
read_taken broken r v h = refl

abbrev IsPlainValue : Option Str → Type 0
IsPlainValue none = Unit
IsPlainValue (some v) = All IsPlain v

lookup-IsPlainValue :
    (key : Str) (values : Values) → ArePlain values → IsPlainValue (lookup key values)
unfolding lookup
lookup-IsPlainValue key [] h = tt
lookup-IsPlainValue key ((k, v) ∷ values) h = elim (Bool-cases (str_eq.same k key)) [
  | inl same ↦ rw (same, lookup) h.0
  | inr other ↦ rw (other, lookup) (lookup-IsPlainValue key values h.1)
]

read_value : (o : Option Str) (r : Reader) → IsPlainValue o → read r (printed o) ≡ take_value o r
read_value none r h = refl
read_value (some v) r h = read_taken r.mode r v h

read-filled :
    (values : Values) (ps : List Piece) (r : Reader)
    → ArePlain values
    → read r (filled values ps) ≡ read_pieces values r ps
unfolding read filled
read-filled values [] r h = refl
read-filled values (lit s ∷ ps) r h =
    read-append r s (filled values ps) ∙ read-filled values ps (read r s) h
read-filled values (field key ∷ ps) r h =
    let o = lookup key values in
    read-append r (printed o) (filled values ps)
    ∙ ap (λ x. read x (filled values ps)) (read_value o r (lookup-IsPlainValue key values h))
    ∙ read-filled values ps (take_value o r) h

-- What is read of a text that is filled with plain values, without the values' characters.
abbrev pub leaves_in : Str → Values → Option (List (Str × Str))
leaves_in text values = let r = read_pieces values start (pieces in_text text) in result r.mode r

pub leaves_of-execute :
    (text : Str) (values : Values)
    → ArePlain values
    → leaves_of (execute text values) ≡ leaves_in text values
unfolding leaves_of execute
leaves_of-execute text values h =
    ap (λ r. result r.mode r) (read-filled values (pieces in_text text) start h)
