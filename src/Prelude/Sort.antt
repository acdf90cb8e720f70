-- ===== src/Prelude/Sort.antt =====
-- Byte order on Go strings and `sort.Strings`, with the counts that the interface lists need.
-- Models no code of its own.
use mathlib.Core.Path.{ap₂}
use vmw_tsf.Prelude.{
  str_eqb_refl, ap, ◌<◌, ℕ, suc, ◌+◌, ◌≡◌, refl, Bool, true, false, ◌&&◌, ◌||◌, List, [], ◌∷◌, ◌++◌,
  arith, Str, ltb, eqb, str_eqb, str_eqb_iff, if◌then◌else◌, All,
}

-- s <= t, byte by byte.
abbrev pub str_leb : Str → Str → Bool
str_leb [] t = true
str_leb (b ∷ s) [] = false
str_leb (b ∷ s) (c ∷ t) = ltb b c || eqb b c && str_leb s t

pub str_leb_total : (s t : Str) → str_leb s t ≡ false → str_leb t s ≡ true
str_leb_total [] t h = cc
str_leb_total (b ∷ s) [] h = refl
str_leb_total (b ∷ s) (c ∷ t) h = ground (arith, str_leb_total s t)

pub str_leb_trans : (s t u : Str) → str_leb s t ≡ true → str_leb t u ≡ true → str_leb s u ≡ true
str_leb_trans [] t u h k = refl
str_leb_trans (b ∷ s) [] u h k = cc
str_leb_trans (b ∷ s) (c ∷ t) [] h k = cc
str_leb_trans (b ∷ s) (c ∷ t) (d ∷ u) h k = ground (arith, str_leb_trans s t u)

-- Every entry is at least `s`.
abbrev pub From : Str → List Str → Type 0
From s = All (λ t. str_leb s t ≡ true)

abbrev pub IsSorted : List Str → Type 0
IsSorted [] = Unit
IsSorted (s ∷ ss) = From s ss × IsSorted ss

insert_sorted : Str → List Str → List Str
insert_sorted s [] = s ∷ []
insert_sorted s (t ∷ ts) = if str_leb s t then s ∷ t ∷ ts else t ∷ insert_sorted s ts

-- `sort.Strings`.
unfoldable pub sort : List Str → List Str
unfolding insert_sorted
sort [] = []
sort (s ∷ ss) = insert_sorted s (sort ss)

From-trans : (s t : Str) (ss : List Str) → str_leb s t ≡ true → From t ss → From s ss
From-trans s t [] h f = tt
From-trans s t (u ∷ ss) h f = (str_leb_trans s t u h f.0, From-trans s t ss h f.1)

From-insert_sorted :
    (s t : Str) (ss : List Str) → str_leb s t ≡ true → From s ss → From s (insert_sorted t ss)
unfolding insert_sorted
From-insert_sorted s t [] h f = (h, tt)
From-insert_sorted s t (u ∷ ss) h f = ground (arith, From-insert_sorted s t ss)

insert_sorted-IsSorted : (s : Str) (ss : List Str) → IsSorted ss → IsSorted (insert_sorted s ss)
unfolding insert_sorted
insert_sorted-IsSorted s [] h = (tt, tt)
insert_sorted-IsSorted s (t ∷ ts) h = ground (
  arith,
  From-trans s t ts,
  str_leb_total s t,
  From-insert_sorted t s ts,
  insert_sorted-IsSorted s ts h.1,
)

pub sort-IsSorted : (ss : List Str) → IsSorted (sort ss)
unfolding sort
sort-IsSorted [] = tt
sort-IsSorted (s ∷ ss) = insert_sorted-IsSorted s (sort ss) (sort-IsSorted ss)

abbrev pub count : Str → List Str → ℕ
count s [] = 0
count s (t ∷ ts) = if str_eqb t s then suc (count s ts) else count s ts

pub count-append : (s : Str) (ts us : List Str) → count s (ts ++ us) ≡ count s ts + count s us
count-append s [] us = omega arith
count-append s (t ∷ ts) us = ground (arith, count-append s ts us)

count-insert_sorted : (s t : Str) (ts : List Str) → count s (insert_sorted t ts) ≡ count s (t ∷ ts)
unfolding insert_sorted
count-insert_sorted s t [] = refl
count-insert_sorted s t (u ∷ ts) = ground (arith, count-insert_sorted s t ts)

pub count-sort : (s : Str) (ts : List Str) → count s (sort ts) ≡ count s ts
unfolding sort
count-sort s [] = refl
count-sort s (t ∷ ts) = ground (arith, count-insert_sorted s t (sort ts), count-sort s ts)

sort_order :
    sort ((2 ∷ []) ∷ (1 ∷ 5 ∷ []) ∷ (1 ∷ []) ∷ []) ≡ (1 ∷ []) ∷ (1 ∷ 5 ∷ []) ∷ (2 ∷ []) ∷ []
unfolding sort
sort_order = refl

str_leb_antisymm : (s t : Str) → str_leb s t ≡ true → str_leb t s ≡ true → s ≡ t
str_leb_antisymm [] [] h k = refl
str_leb_antisymm [] (c ∷ t) h k = cc
str_leb_antisymm (b ∷ s) [] h k = cc
str_leb_antisymm (b ∷ s) (c ∷ t) h k = ground (arith, str_leb_antisymm s t)

leb-of-count : (s t : Str) (ss : List Str) → From s ss → 0 < count t ss → str_leb s t ≡ true
leb-of-count s t [] f h = absurd (omega arith)
leb-of-count s t (u ∷ us) f h = ground (arith, leb-of-count s t us f.1, str_eqb_iff u t)

str_leb_refl : (s : Str) → str_leb s s ≡ true
str_leb_refl [] = refl
str_leb_refl (b ∷ s) = ground (arith, str_leb_refl s)

head_leb : (s t : Str) (ss : List Str) → From s ss → 0 < count t (s ∷ ss) → str_leb s t ≡ true
head_leb s t ss f h = ground (arith, leb-of-count s t ss f, str_eqb_iff s t, str_leb_refl s)

-- A sorted list is determined by how often each name is in it.
pub sorted_unique :
    (ss ts : List Str) → IsSorted ss → IsSorted ts → ((u : Str) → count u ss ≡ count u ts) → ss ≡ ts
sorted_unique [] [] h k c = refl
sorted_unique [] (t ∷ ts) h k c = absurd (ground (arith, c t, str_eqb_refl t))
sorted_unique (s ∷ ss) [] h k c = absurd (ground (arith, c s, str_eqb_refl s))
sorted_unique (s ∷ ss) (t ∷ ts) h k c =
    let p : s ≡ t =
      str_leb_antisymm s t (head_leb s t ss h.0 (ground (arith, c t, str_eqb_refl t)))
        (head_leb t s ts k.0 (ground (arith, c s, str_eqb_refl s))) in
    ap₂ ◌∷◌ p (sorted_unique ss ts h.1 k.1 (λ u. ground (arith, c u, ap (λ v. str_eqb v u) p)))
