-- ===== src/Net/Parse.antt =====
-- Texts as numbers: Go's `strconv.ParseUint` in base 10 and `strings.Split`. No file of the
-- repository is modelled here.
pub mod RoundTrip
use vmw_tsf.Prelude.{
  ℕ, ◌+◌, ◌-◌, ◌*◌, ◌^◌, ◌<◌, Str, ◌≡◌, refl, ◌&&◌, List, [], ◌∷◌, Option, none, some, str, ltb,
  leb, eqb, if◌then◌else◌, arith,
}

unfoldable pub digits_value : ℕ → Str → Option ℕ
digits_value acc [] = some acc
digits_value acc (c ∷ s) =
    let rest = digits_value (acc * 10 + (c - 48)) s in if leb 48 c && leb c 57 then rest else none

unfoldable pub below : ℕ → Option ℕ → Option ℕ
below bound none = none
below bound (some n) = if ltb n bound then some n else none

-- `ParseUint(s, 10, bits)`: `none` is an error, of syntax or of range.
unfoldable pub parse_uint : ℕ → Str → Option ℕ
unfolding digits_value below
parse_uint bits [] = none
parse_uint bits (c ∷ s) = below (2 ^ bits) (digits_value 0 (c ∷ s))

below-lt : (bound : ℕ) (o : Option ℕ) (n : ℕ) → below bound o ≡ some n → n < bound
unfolding below
below-lt bound none n h = cc
below-lt bound (some m) n h = ground arith

pub parse_uint-lt : (bits : ℕ) (s : Str) (n : ℕ) → parse_uint bits s ≡ some n → n < 2 ^ bits
unfolding parse_uint
parse_uint-lt bits [] n h = cc
parse_uint-lt bits (c ∷ s) n h = below-lt (2 ^ bits) (digits_value 0 (c ∷ s)) n h

-- The first token and the others.
unfoldable pub split_first : ℕ → Str → Str × List Str
split_first sep [] = ([], [])
split_first sep (c ∷ s) =
    let (token, rest) = split_first sep s in
    if eqb c sep then ([], token ∷ rest) else (c ∷ token, rest)

-- `strings.Split` at a one-byte separator: never empty.
unfoldable pub split : ℕ → Str → List Str
unfolding split_first
split sep s = let (token, rest) = split_first sep s in token ∷ rest

split_port : split b':' (str "10.0.0.1:862") ≡ str "10.0.0.1" ∷ str "862" ∷ []
unfolding split
split_port = refl

parse_port : parse_uint 16 (str "65535") ≡ some 65535
unfolding parse_uint
parse_port = refl

parse_too_large : parse_uint 16 (str "65536") ≡ none
unfolding parse_uint
parse_too_large = refl
