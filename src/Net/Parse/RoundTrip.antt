-- ===== src/Net/Parse/RoundTrip.antt =====
-- Texts that are read back: numbers printed with `%d`, and lists joined by a separator. No file of
-- the repository is modelled here.
use vmw_tsf.Prelude.{
  ℕ, ◌+◌, ◌-◌, ◌*◌, ◌^◌, ◌<◌, Str, ◌≡◌, refl, ap, ◌∙◌, [], ◌∷◌, ◌++◌, some, arith, length,
}
use vmw_tsf.Net.Text.{decimal}
use vmw_tsf.Net.Text.Injective.{
  Lacks, AreDigits, read, read-decimal, decimal-AreDigits, decimal_nonempty,
}
use vmw_tsf.Net.Parse.{digits_value, below, parse_uint, split_first, split}

digits_value-read : (acc : ℕ) (s : Str) → AreDigits s → digits_value acc s ≡ some (read acc s)
unfolding digits_value read
digits_value-read acc [] d = refl
digits_value-read acc (c ∷ s) d = ground (arith, digits_value-read (acc * 10 + (c - 48)) s d.1)

parse_uint-digits :
    (bits : ℕ) (s : Str)
    → AreDigits s
    → 0 < length s
    → read 0 s < 2 ^ bits
    → parse_uint bits s ≡ some (read 0 s)
unfolding parse_uint below
parse_uint-digits bits [] d p h = absurd (omega arith)
parse_uint-digits bits (c ∷ s) d p h = rw (digits_value-read 0 (c ∷ s) d) (ground arith)

-- The decimal text of a number that fits is read back.
pub parse_uint-decimal : (bits n : ℕ) → n < 2 ^ bits → parse_uint bits (decimal n) ≡ some n
parse_uint-decimal bits n h =
    parse_uint-digits bits (decimal n) (decimal-AreDigits n) (decimal_nonempty n)
      (rw (read-decimal n) h)
    ∙ ap some (read-decimal n)

split_first-Lacks : (sep : ℕ) (s : Str) → Lacks sep s → split_first sep s ≡ (s, [])
unfolding split_first
split_first-Lacks sep [] h = refl
split_first-Lacks sep (c ∷ s) h = rw (split_first-Lacks sep s h.1) (ground (arith, h.0))

split_first-append :
    (sep : ℕ) (s t : Str) → Lacks sep s → split_first sep (s ++ sep ∷ t) ≡ (s, split sep t)
unfolding split_first split
split_first-append sep [] t h = ground arith
split_first-append sep (c ∷ s) t h = rw (split_first-append sep s t h.1) (ground (arith, h.0))

-- A text without the separator is one token.
pub split-Lacks : (sep : ℕ) (s : Str) → Lacks sep s → split sep s ≡ s ∷ []
unfolding split
split-Lacks sep s h = rw (split_first-Lacks sep s h)

-- The first token ends at the first separator.
pub split-append : (sep : ℕ) (s t : Str) → Lacks sep s → split sep (s ++ sep ∷ t) ≡ s ∷ split sep t
unfolding split
split-append sep s t h = rw (split_first-append sep s t h)
