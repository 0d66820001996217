-- ===== src/Argz/Replace/Counts.antt =====
-- Of argz.c.
-- Strings read from a vector, and the number of those with a match.
use hassio_installer.Prelude.{
  ℕ, zero, suc, ◌+◌, ◌^◌, ◌%◌, ◌<◌, ◌≡◌, refl, ap, none, some, Option, List, [], ◌∷◌, ◌++◌, Bytes,
  arith, done,
}
use hassio_installer.Argz.Vectors.{NoNul}
use hassio_installer.Argz.Replace.{string, strstr, counted}

pub string-NoNul : (s m : Bytes) → NoNul s → string (s ++ 0 ∷ m) ≡ done s
unfolding string
string-NoNul [] m h = refl
string-NoNul (zero ∷ s) m (h, hs) = absurd (h refl)
string-NoNul (suc c ∷ s) m (h, hs) = rw (string-NoNul s m hs)

-- The number of the strings in which the search succeeds, added where it is asked for.
abbrev pub hits : Bytes → List Bytes → ℕ
hits str [] = 0
hits str (s ∷ ss) = elim (strstr str s) [ none ↦ hits str ss | some k ↦ hits str ss + 1 ]

abbrev pub plus : Option ℕ → ℕ → Option ℕ
plus none h = none
plus (some n) h = some ((n + h) % 2 ^ 32)

abbrev pub Word : Option ℕ → Type 0
Word none = Unit
Word (some n) = n < 2 ^ 32

pub plus_none : (c : Option ℕ) → Word c → plus c 0 ≡ c
plus_none none w = refl
plus_none (some n) w = ap some (omega arith)

pub counted-Word : (c : Option ℕ) → Word (counted c)
counted-Word none = tt
counted-Word (some n) = omega arith

pub plus-counted : (c : Option ℕ) (h : ℕ) → plus (counted c) h ≡ plus c (h + 1)
plus-counted none h = refl
plus-counted (some n) h = ap some (omega arith)

-- The count behind one search.
abbrev pub search_count : Option ℕ → Option ℕ → Option ℕ
search_count none c = c
search_count (some k) c = counted c

pub search_count-Word : (o c : Option ℕ) → Word c → Word (search_count o c)
search_count-Word none c h = h
search_count-Word (some k) c h = counted-Word c

pub plus-search_count :
    (o c : Option ℕ) (h : ℕ)
    → plus (search_count o c) h ≡ plus c (elim o [ none ↦ h | some k ↦ h + 1 ])
plus-search_count none c h = refl
plus-search_count (some k) c h = plus-counted c h
