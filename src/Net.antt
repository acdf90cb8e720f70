-- ===== src/Net.antt =====
-- The part of Go's package `net` that the repository computes with: an `IP` is a slice of 4 or 16
-- bytes (or empty, for nil). No file of the repository is modelled here.
pub mod Text
pub mod Parse
use vmw_tsf.Prelude.{
  ℕ, ◌≡◌, refl, Bool, true, false, ◌&&◌, List, [], ◌∷◌, Option, none, some, eqb, str_eqb, length,
  take, drop, replicate, if◌then◌else◌,
}

abbrev pub Ip : Type 0
Ip = List ℕ

abbrev pub v4_in_v6_prefix : List ℕ
v4_in_v6_prefix = 0 ∷ 0 ∷ 0 ∷ 0 ∷ 0 ∷ 0 ∷ 0 ∷ 0 ∷ 0 ∷ 0 ∷ 255 ∷ 255 ∷ []

abbrev pub ipv4 : ℕ → ℕ → ℕ → ℕ → Ip
ipv4 a b c d = 0 ∷ 0 ∷ 0 ∷ 0 ∷ 0 ∷ 0 ∷ 0 ∷ 0 ∷ 0 ∷ 0 ∷ 255 ∷ 255 ∷ a ∷ b ∷ c ∷ d ∷ []

abbrev pub ipv4_zero : Ip
ipv4_zero = ipv4 0 0 0 0

abbrev pub ipv6_zero : Ip
ipv6_zero = replicate 16 0

-- `IP.To4`.
unfoldable pub to4 : Ip → Option Ip
to4 ip =
    if eqb (length ip) 4
    then some ip
    else if eqb (length ip) 16 && str_eqb (take 12 ip) v4_in_v6_prefix
    then some (drop 12 ip)
    else none

-- `IP.Equal`: an IPv4 address and its IPv6 form are equal.
unfoldable pub equal : Ip → Ip → Bool
equal ip x =
    if eqb (length ip) (length x)
    then str_eqb ip x
    else if eqb (length ip) 4 && eqb (length x) 16
    then str_eqb (take 12 x) v4_in_v6_prefix && str_eqb ip (drop 12 x)
    else if eqb (length ip) 16 && eqb (length x) 4
    then str_eqb (take 12 ip) v4_in_v6_prefix && str_eqb (drop 12 ip) x
    else false
