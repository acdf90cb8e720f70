-- ===== src/Netconf/Fields.antt =====
-- That the fields of the types of pkg/hal/structs.go are read back as they were written.
use vmw_tsf.Prelude.{
  ℕ, ◌^◌, ◌<◌, Str, ◌≡◌, refl, sym, ap, ◌∙◌, [], ◌∷◌, Option, none, some, str, inl, inr, eqb,
  eqb_iff, Bool-cases,
}
use mathlib.Core.List.{append-nil}
use vmw_tsf.Net.Text.{decimal}
use vmw_tsf.Net.Parse.{parse_uint}
use vmw_tsf.Net.Parse.RoundTrip.{parse_uint-decimal}
use vmw_tsf.Netconf.{Ipv4Matches, L4AclMatch}
use vmw_tsf.Netconf.Documents.{Content, nothing, chars, element, encode_string, encode_number}
use vmw_tsf.Netconf.Decoding.{
  text_of, and_then, Fields, decode, number, ipv4_acl_match, lower_port, l4_acl_match,
}

pub text_of-chars : (s : Str) → text_of (chars s nothing) ≡ s
unfolding text_of
text_of-chars s = append-nil s

pub decode-encode_string :
    {A : Type 0} (f : Fields A) (name s : Str) (rest : Content) (a : A) (set : Str → A)
    → ((i : Content) → f name [] i a ≡ some (set (text_of i)))
    → set [] ≡ a
    → decode f (encode_string name s rest) a ≡ decode f rest (set s)
unfolding decode encode_string
decode-encode_string f name [] rest a set h z = ap (decode f rest) (sym z)
decode-encode_string f name (c ∷ s) rest a set h z =
    ap (λ o. and_then o (decode f rest)) (h (chars (c ∷ s) nothing))
    ∙ ap (λ t. decode f rest (set t)) (text_of-chars (c ∷ s))

number-parse_uint :
    (bits : ℕ) (s : Str) (n : ℕ) → parse_uint bits s ≡ some n → number bits s ≡ some n
unfolding number parse_uint
number-parse_uint bits [] n h = cc
number-parse_uint bits (c ∷ s) n h = h

pub decode-encode_number :
    {A : Type 0} (f : Fields A) (name : Str) (bits n : ℕ) (rest : Content) (a : A) (set : ℕ → A)
    → ((i : Content) → f name [] i a ≡ and_then (number bits (text_of i)) (λ m. some (set m)))
    → set 0 ≡ a
    → n < 2 ^ bits
    → decode f (encode_number name n rest) a ≡ decode f rest (set n)
unfolding decode encode_number
decode-encode_number f name bits n rest a set h z lt = elim (Bool-cases (eqb n 0)) [
  | inl zero ↦
      rw (zero, encode_number) (ap (decode f rest) (sym z ∙ ap set (sym ((eqb_iff n 0).0 zero))))
  | inr other ↦
      rw (other, encode_number)
        (ap (λ o. and_then o (decode f rest))
          (h (chars (decimal n) nothing)
            ∙ ap (λ t. and_then (number bits t) (λ m. some (set m))) (text_of-chars (decimal n))
            ∙ ap (λ o. and_then o (λ m. some (set m)))
                (number-parse_uint bits (decimal n) n (parse_uint-decimal bits n lt))))
]

pub decode_ipv4 :
    (m : Ipv4Matches)
    → decode ipv4_acl_match
        (encode_string
          (str "destination-ipv4")
          m.destination_ipv4
          (encode_string (str "source-ipv4") m.source_ipv4 nothing))
        (record { destination_ipv4 = []; source_ipv4 = [] })
      ≡ some m
unfolding decode
decode_ipv4 m =
    decode-encode_string ipv4_acl_match (str "destination-ipv4") m.destination_ipv4
      (encode_string (str "source-ipv4") m.source_ipv4 nothing) _
      (λ s. record { destination_ipv4 = s; source_ipv4 = [] }) (λ i. refl) refl
    ∙ decode-encode_string ipv4_acl_match (str "source-ipv4") m.source_ipv4 nothing _
        (λ s. record m { source_ipv4 = s }) (λ i. refl) refl

and_then-some : {A : Type 0} (o : Option A) → o ≡ and_then o (λ a. some a)
and_then-some none = refl
and_then-some (some a) = refl

decode-lower_port :
    (n : ℕ) → n < 2 ^ 16 → decode lower_port (encode_number (str "lower-port") n nothing) 0 ≡ some n
unfolding decode
decode-lower_port n lt =
    decode-encode_number lower_port (str "lower-port") 16 n nothing 0 (λ m. m)
      (λ i. and_then-some (number 16 (text_of i))) refl lt

pub decode_ports :
    (m : L4AclMatch)
    → m.destination_lower_port < 2 ^ 16
    → m.source_lower_port < 2 ^ 16
    → decode l4_acl_match
        (element
          (str "destination-port-range")
          []
          (encode_number (str "lower-port") m.destination_lower_port nothing)
          (element
            (str "source-port-range")
            []
            (encode_number (str "lower-port") m.source_lower_port nothing)
            nothing))
        (record { destination_lower_port = 0; source_lower_port = 0 })
      ≡ some m
unfolding decode
decode_ports m d s =
    rw (decode-lower_port m.destination_lower_port d, decode-lower_port m.source_lower_port s) refl
