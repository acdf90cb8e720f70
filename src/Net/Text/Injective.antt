-- ===== src/Net/Text/Injective.antt =====
-- Texts that name what they print: decimal numbers and dotted IPv4 addresses, and how a text is
-- cut at a separator. No file of the repository is modelled here.
use vmw_tsf.Prelude.{
  ℕ, zero, suc, ◌+◌, ◌-◌, ◌*◌, ◌/◌, ◌%◌, ◌<◌, ◌≤◌, Str, ◌≡◌, ◌≢◌, refl, sym, ap, ◌∙◌, [], ◌∷◌, ◌++◌,
  some, Bool-cases, inl, inr, ltb, eqb, length, length-drop, length-append, All, arith, false,
}
use vmw_tsf.Net.{Ip, to4}
use vmw_tsf.Net.Text.{digit, in_base, decimal, ip_text, join}

abbrev pub Lacks : ℕ → Str → Type 0
Lacks sep = All (λ c. c ≢ sep)

abbrev pub AreDigits : Str → Type 0
AreDigits = All (λ c. (48 ≤ c) × (c ≤ 57))

module _ {ℓ} (P : ℕ → Type ℓ) where
  pub All-append : (s t : Str) → All P s → All P t → All P (s ++ t)
  All-append [] t p q = q
  All-append (c ∷ s) t p q = (p.0, All-append s t p.1 q)

in_base-AreDigits : (fuel n : ℕ) → AreDigits (in_base 10 fuel n)
unfolding in_base
in_base-AreDigits zero n = tt
in_base-AreDigits (suc fuel) n =
    let rest =
      All-append (λ c. (48 ≤ c) × (c ≤ 57)) (in_base 10 fuel (n / 10)) (digit (n % 10) ∷ [])
        (in_base-AreDigits fuel (n / 10)) (ground arith, tt) in
    ground (arith, rest)

pub decimal-AreDigits : (n : ℕ) → AreDigits (decimal n)
unfolding decimal
decimal-AreDigits n = in_base-AreDigits (suc n) n

pub Lacks-of_digits : (sep : ℕ) (s : Str) → 57 < sep → AreDigits s → Lacks sep s
Lacks-of_digits sep [] h d = tt
Lacks-of_digits sep (c ∷ s) h d = (omega arith, Lacks-of_digits sep s h d.1)

pub Lacks-dot : (s : Str) → AreDigits s → Lacks 46 s
Lacks-dot [] d = tt
Lacks-dot (c ∷ s) d = (omega arith, Lacks-dot s d.1)

unfoldable pub read : ℕ → Str → ℕ
read acc [] = acc
read acc (c ∷ s) = read (acc * 10 + (c - 48)) s

read-append : (acc c : ℕ) (s : Str) → read acc (s ++ c ∷ []) ≡ read acc s * 10 + (c - 48)
unfolding read
read-append acc c [] = refl
read-append acc c (d ∷ s) = read-append (acc * 10 + (d - 48)) c s

read-in_base : (fuel n : ℕ) → n < fuel → read 0 (in_base 10 fuel n) ≡ n
unfolding in_base
read-in_base zero n h = elim h [ ]
read-in_base (suc fuel) n h = elim (Bool-cases (ltb n 10)) [
  | inl small ↦ rw small (unfold read in ground arith)
  | inr large ↦ rw large (
      read-append 0 (digit (n % 10)) (in_base 10 fuel (n / 10))
      ∙ rw (read-in_base fuel (n / 10) (ground arith)) (ground arith))
]

pub read-decimal : (n : ℕ) → read 0 (decimal n) ≡ n
unfolding decimal
read-decimal n = read-in_base (suc n) n (omega arith)

pub decimal_nonempty : (n : ℕ) → 0 < length (decimal n)
unfolding decimal in_base
decimal_nonempty n = ground (arith, length-append (in_base 10 n (n / 10)) (digit (n % 10) ∷ []))

pub decimal-injective : (m n : ℕ) → decimal m ≡ decimal n → m ≡ n
unfolding decimal
decimal-injective m n h =
    sym (read-in_base (suc m) m (omega arith))
    ∙ ap (read 0) h
    ∙ read-in_base (suc n) n (omega arith)

-- A text is cut at its first separator in one way.
pub cut :
    (sep : ℕ) (xs ys r t : Str)
    → Lacks sep xs
    → Lacks sep ys
    → xs ++ sep ∷ r ≡ ys ++ sep ∷ t
    → (xs ≡ ys) × (r ≡ t)
cut sep [] [] r t hx hy e = (refl, cc)
cut sep [] (y ∷ ys) r t hx hy e = absurd (hy.0 (cc))
cut sep (x ∷ xs) [] r t hx hy e = absurd (hx.0 (cc))
cut sep (x ∷ xs) (y ∷ ys) r t hx hy e = let (p, q) = cut sep xs ys r t hx.1 hy.1 (cc) in (cc, q)

pub length-to4 : (ip a : Ip) → to4 ip ≡ some a → length a ≡ 4
unfolding to4
length-to4 ip a h = ground (arith, length-drop 12 ip)

dotted : ℕ → ℕ → ℕ → ℕ → Str
dotted a b c d = decimal a ++ 46 ∷ (decimal b ++ 46 ∷ (decimal c ++ 46 ∷ decimal d))

dotted-injective :
    (a b c d a' b' c' d' : ℕ)
    → dotted a b c d ≡ dotted a' b' c' d'
    → (a ≡ a') × (b ≡ b') × (c ≡ c') × (d ≡ d')
unfolding dotted
dotted-injective a b c d a' b' c' d' h =
    let (p, h₁) = cut 46 (decimal a) (decimal a') _ _ (free a) (free a') h in
    let (q, h₂) = cut 46 (decimal b) (decimal b') _ _ (free b) (free b') h₁ in
    let (r, s) = cut 46 (decimal c) (decimal c') _ _ (free c) (free c') h₂ in
    (
      decimal-injective a a' p,
      decimal-injective b b' q,
      decimal-injective c c' r,
      decimal-injective d d' s,
    )
  where
    free : (n : ℕ) → Lacks 46 (decimal n)
    free n = Lacks-dot (decimal n) (decimal-AreDigits n)

dotted-Lacks : (sep a b c d : ℕ) → 57 < sep → Lacks sep (dotted a b c d)
unfolding dotted
dotted-Lacks sep a b c d h =
    joined (decimal a) _ (free a)
      (joined (decimal b) _ (free b) (joined (decimal c) (decimal d) (free c) (free d)))
  where
    free : (n : ℕ) → Lacks sep (decimal n)
    free n = Lacks-of_digits sep (decimal n) h (decimal-AreDigits n)

    joined : (s t : Str) → Lacks sep s → Lacks sep t → Lacks sep (s ++ 46 ∷ t)
    joined s t p q = All-append (λ x. x ≢ sep) s (46 ∷ t) p ((λ e. absurd (omega arith)), q)

pub to4_nonempty : (ip a : Ip) → to4 ip ≡ some a → eqb (length ip) 0 ≡ false
unfolding to4
to4_nonempty ip a h = ground arith

-- The dotted text of an address that `To4` accepts.
text_of_v4 :
    (ip : Ip) (a b c d : ℕ) → to4 ip ≡ some (a ∷ b ∷ c ∷ d ∷ []) → ip_text ip ≡ dotted a b c d
unfolding ip_text dotted join
text_of_v4 ip a b c d h = rw (to4_nonempty ip _ h, h)

four : (a : Ip) → length a ≡ 4 → (p q r s : ℕ) × (a ≡ p ∷ q ∷ r ∷ s ∷ [])
four [] h = absurd (omega arith)
four (p ∷ []) h = absurd (omega arith)
four (p ∷ q ∷ []) h = absurd (omega arith)
four (p ∷ q ∷ r ∷ []) h = absurd (omega arith)
four (p ∷ q ∷ r ∷ s ∷ []) h = (p, q, r, s, refl)
four (p ∷ q ∷ r ∷ s ∷ t ∷ u) h = absurd (omega arith)

pub ip_text-injective :
    (ip ip' : Ip) {a a' : Ip}
    → to4 ip ≡ some a
    → to4 ip' ≡ some a'
    → ip_text ip ≡ ip_text ip'
    → a ≡ a'
ip_text-injective ip ip' {a} {a'} h h' e =
    let (p, q, r, s, l) = four a (length-to4 ip a h) in
    let (p', q', r', s', l') = four a' (length-to4 ip' a' h') in
    let (i, j, k, m) = dotted-injective p q r s p' q' r' s' (
      sym (text_of_v4 ip p q r s (h ∙ ap some l))
      ∙ e
      ∙ text_of_v4 ip' p' q' r' s' (h' ∙ ap some l')) in
    cc

pub ip_text-Lacks :
    (sep : ℕ) (ip : Ip) {a : Ip} → 57 < sep → to4 ip ≡ some a → Lacks sep (ip_text ip)
ip_text-Lacks sep ip {a} k h =
    let (p, q, r, s, l) = four a (length-to4 ip a h) in
    rw (text_of_v4 ip p q r s (h ∙ ap some l)) (dotted-Lacks sep p q r s k)
