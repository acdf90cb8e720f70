-- ===== src/Net/Text.antt =====
-- Numbers and addresses as text: Go's `%d`, `%x` and `IP.String`. No file of the repository is
-- modelled here.
pub mod Injective
use vmw_tsf.Prelude.{
  ℕ, zero, suc, ◌+◌, ◌*◌, ◌/◌, ◌%◌, Str, ◌≡◌, refl, List, [], ◌∷◌, ◌++◌, Option, none, some, map,
  str, ltb, leb, eqb, length, take, drop, if◌then◌else◌,
}
use vmw_tsf.Net.{Ip, to4, ipv4}

digit : ℕ → ℕ
digit d = if ltb d 10 then 48 + d else 87 + d

-- The digits of `n` in a base, most significant first; `n + 1` rounds are enough.
in_base : ℕ → ℕ → ℕ → Str
unfolding digit
in_base base zero n = []
in_base base (suc fuel) n =
    let rest = in_base base fuel (n / base) ++ digit (n % base) ∷ [] in
    if ltb n base then digit n ∷ [] else rest

unfoldable pub decimal : ℕ → Str
unfolding in_base
decimal n = in_base 10 (suc n) n

unfoldable pub hex : ℕ → Str
unfolding in_base
hex n = in_base 16 (suc n) n

unfoldable pub join : ℕ → List Str → Str
join sep [] = []
join sep (s ∷ []) = s
join sep (s ∷ t ∷ ts) = s ++ sep ∷ join sep (t ∷ ts)

-- The 16-bit groups of an IPv6 address.
groups : List ℕ → List ℕ
groups [] = []
groups (hi ∷ []) = []
groups (hi ∷ lo ∷ rest) = (hi * 256 + lo) ∷ groups rest

zero_run : List ℕ → ℕ
zero_run [] = 0
zero_run (g ∷ gs) = if eqb g 0 then suc (zero_run gs) else 0

-- The first of the longest runs of zero groups: where it starts, and its length.
longest_run : ℕ → ℕ → ℕ → List ℕ → ℕ × ℕ
unfolding zero_run
longest_run i start len [] = (start, len)
longest_run i start len (g ∷ gs) =
    let found = zero_run (g ∷ gs) in
    let longer = ltb len found in
    longest_run (suc i) (if longer then i else start) (if longer then found else len) gs

unfoldable pub ipv6_text : List ℕ → Str
unfolding groups longest_run hex join
ipv6_text ip =
    let (start, len) = longest_run 0 0 0 (groups ip) in
    if leb 2 len
    then join b':' (map hex (take start (groups ip)))
      ++ b':' ∷ b':' ∷ join b':' (map hex (drop (start + len) (groups ip)))
    else join b':' (map hex (groups ip))

hex_byte : ℕ → Str
unfolding digit
hex_byte b = digit (b / 16) ∷ digit (b % 16) ∷ []

unfoldable pub hex_bytes : List ℕ → Str
unfolding hex_byte
hex_bytes [] = []
hex_bytes (b ∷ bs) = hex_byte b ++ hex_bytes bs

unmapped_text : Ip → Option Ip → Str
unmapped_text ip (some four) = join b'.' (map decimal four)
unmapped_text ip none = if eqb (length ip) 16 then ipv6_text ip else b'?' ∷ hex_bytes ip

-- `IP.String`: dotted decimals for what `To4` accepts.
unfoldable pub ip_text : Ip → Str
unfolding unmapped_text
ip_text ip = if eqb (length ip) 0 then str "<nil>" else unmapped_text ip (to4 ip)

dotted : ip_text (ipv4 10 0 255 7) ≡ str "10.0.255.7"
unfolding ip_text to4 ipv6_text decimal hex_bytes join
dotted = refl

compressed :
    ip_text (32 ∷ 1 ∷ 13 ∷ 184 ∷ 0 ∷ 0 ∷ 0 ∷ 0 ∷ 0 ∷ 0 ∷ 0 ∷ 0 ∷ 0 ∷ 0 ∷ 0 ∷ 42 ∷ [])
    ≡ str "2001:db8::2a"
unfolding ip_text to4 ipv6_text decimal hex_bytes join
compressed = refl

port_text : decimal 65535 ≡ str "65535"
unfolding decimal
port_text = refl
