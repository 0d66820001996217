-- ===== src/Prelude/Lists.antt =====
-- Lists measured and indexed by native numbers, memory as a list of bytes, and C strings.
use Prim.Native.Nat.{ℕ, zero, suc, ◌+◌, ◌-◌, ◌≤◌, ◌<◌, min}
use Prim.Native.Char.{code}
use Prim.Native.String.{String}
use mathlib.Core.Path.{◌≡◌, refl, ap}
use mathlib.Core.List.{List, [], ◌∷◌, ◌++◌}
use mathlib.Core.Option.{Option, none, some}
use native.Mathlib.Omega.{arith}

abbrev pub Bytes : Type 0
Bytes = List ℕ

-- The bytes of an ASCII literal.
abbrev pub codes : String → Bytes
codes String.[] = []
codes (String.◌∷◌ c s) = code c ∷ codes s

module _ {ℓ} {A : Type ℓ} where
  abbrev pub length : List A → ℕ
  length [] = 0
  length (x ∷ xs) = suc (length xs)

  abbrev pub get_elem? : List A → ℕ → Option A
  get_elem? [] i = none
  get_elem? (x ∷ xs) zero = some x
  get_elem? (x ∷ xs) (suc i) = get_elem? xs i

  abbrev pub get_or : List A → ℕ → A → A
  get_or [] i d = d
  get_or (x ∷ xs) zero d = x
  get_or (x ∷ xs) (suc i) d = get_or xs i d

  abbrev pub take : ℕ → List A → List A
  take zero xs = []
  take (suc n) [] = []
  take (suc n) (x ∷ xs) = x ∷ take n xs

  abbrev pub drop : ℕ → List A → List A
  drop zero xs = xs
  drop (suc n) [] = []
  drop (suc n) (x ∷ xs) = drop n xs

  abbrev pub replicate : ℕ → A → List A
  replicate zero a = []
  replicate (suc n) a = a ∷ replicate n a

  pub length-replicate : (n : ℕ) (a : A) → length (replicate n a) ≡ n
  length-replicate zero a = refl
  length-replicate (suc n) a = ap suc (length-replicate n a)

  pub length-append : (xs ys : List A) → length (xs ++ ys) ≡ length xs + length ys
  length-append [] ys = omega arith
  length-append (x ∷ xs) ys = omega (arith, length-append xs ys)

  pub take-append-drop : (n : ℕ) (xs : List A) → take n xs ++ drop n xs ≡ xs
  take-append-drop zero xs = refl
  take-append-drop (suc n) [] = refl
  take-append-drop (suc n) (x ∷ xs) = rw (take-append-drop n xs)

  pub length-take : (n : ℕ) (xs : List A) → length (take n xs) ≡ min n (length xs)
  length-take zero xs = omega arith
  length-take (suc n) [] = omega arith
  length-take (suc n) (x ∷ xs) = omega (arith, length-take n xs)

  pub length-drop : (n : ℕ) (xs : List A) → length (drop n xs) ≡ length xs - n
  length-drop zero xs = omega arith
  length-drop (suc n) [] = omega arith
  length-drop (suc n) (x ∷ xs) = omega (arith, length-drop n xs)

  pub take-length-append : (xs ys : List A) → take (length xs) (xs ++ ys) ≡ xs
  take-length-append [] ys = refl
  take-length-append (x ∷ xs) ys = ap (◌∷◌ x) (take-length-append xs ys)

  pub drop-length-append : (xs ys : List A) → drop (length xs) (xs ++ ys) ≡ ys
  drop-length-append [] ys = refl
  drop-length-append (x ∷ xs) ys = drop-length-append xs ys

  pub drop-all : (xs : List A) (k : ℕ) → length xs ≤ k → drop k xs ≡ []
  drop-all [] zero h = refl
  drop-all [] (suc k) h = refl
  drop-all (x ∷ xs) zero h = absurd (omega arith)
  drop-all (x ∷ xs) (suc k) h = drop-all xs k (omega arith)

  pub take-nil : (n : ℕ) → take n [] ≡ []
  take-nil zero = refl
  take-nil (suc n) = refl

  pub take-all : (xs : List A) (k : ℕ) → length xs ≤ k → take k xs ≡ xs
  take-all [] k h = take-nil k
  take-all (x ∷ xs) zero h = absurd (omega arith)
  take-all (x ∷ xs) (suc k) h = ap (◌∷◌ x) (take-all xs k (omega arith))

module _ {ℓ κ} {A : Type ℓ} (P : A → Type κ) where
  abbrev pub All : List A → Type κ
  All [] = Unit
  All (x ∷ xs) = P x × All xs

  pub All-append : (xs ys : List A) → All xs → All ys → All (xs ++ ys)
  All-append [] ys _ hy = hy
  All-append (x ∷ xs) ys (px, hx) hy = (px, All-append xs ys hx hy)

-- A store to memory; `none` is a write out of bounds.
unfoldable pub store : ℕ → ℕ → Bytes → Option Bytes
store i v [] = none
store zero v (x ∷ xs) = some (v ∷ xs)
store (suc i) v (x ∷ xs) = elim (store i v xs) [ none ↦ none | some ys ↦ some (x ∷ ys) ]

pub store-append :
    (xs : Bytes) (v x : ℕ) (ys : Bytes) → store (length xs) v (xs ++ x ∷ ys) ≡ some (xs ++ v ∷ ys)
unfolding store
store-append [] v x ys = refl
store-append (w ∷ xs) v x ys = rw (store-append xs v x ys)

pub store-append_next :
    (xs : Bytes) (v b x : ℕ) (ys : Bytes)
    → store (length xs + 1) v (xs ++ b ∷ x ∷ ys) ≡ some (xs ++ b ∷ v ∷ ys)
unfolding store
store-append_next [] v b x ys = refl
store-append_next (w ∷ xs) v b x ys = ground (arith, store-append_next xs v b x ys)

pub get_elem?-append :
    (xs : Bytes) (x : ℕ) (ys : Bytes) → get_elem? (xs ++ x ∷ ys) (length xs) ≡ some x
get_elem?-append [] x ys = refl
get_elem?-append (w ∷ xs) x ys = get_elem?-append xs x ys

-- An access inside memory succeeds, and a store keeps the length.
pub get_elem?-some : (m : Bytes) (i : ℕ) → i < length m → (x : ℕ) × (get_elem? m i ≡ some x)
get_elem?-some [] i h = elim h [ ]
get_elem?-some (x ∷ m) zero h = (x, refl)
get_elem?-some (x ∷ m) (suc i) h = get_elem?-some m i (omega arith)

pub store-some :
    (m : Bytes) (i v : ℕ)
    → i < length m
    → (m' : Bytes) × (store i v m ≡ some m') × (length m' ≡ length m)
unfolding store
store-some [] i v h = elim h [ ]
store-some (x ∷ m) zero v h = (v ∷ m, refl, refl)
store-some (x ∷ m) (suc i) v h =
    let (m', e, n) = store-some m i v (omega arith) in (x ∷ m', rw e, ap suc n)

-- The C string at the front of memory: the bytes before the first '\0'.
unfoldable pub c_string : Bytes → Bytes
c_string [] = []
c_string (zero ∷ m) = []
c_string (suc c ∷ m) = suc c ∷ c_string m
