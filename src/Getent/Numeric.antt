-- ===== src/Getent/Numeric.antt =====
-- Of getent.c.
-- Numeric keys: what `parsenum` accepts, and the casts to the narrower types of ids and ports.
use hassio_installer.Prelude.{
  ℕ, zero, suc, ◌+◌, ◌-◌, ◌*◌, ◌/◌, ◌%◌, ◌^◌, ◌≤◌, ◌<◌, ◌≡◌, ◌≢◌, refl, ◌∙◌, none, some, [], ◌∷◌,
  ◌++◌, Bytes, arith, ltb, leb, All, ap, min, Bool-cases, inl, inr, if◌then◌else◌,
}
use mathlib.Core.List.{cons-ne-nil}
use hassio_installer.Getent.Types.{Library}
use hassio_installer.Getent.Print.{swap16}
use hassio_installer.Getent.Databases.{find_passwd, find_group, find_service, cut_slash}
use hassio_installer.Getent.Number.{ulong_max, strtoul, accepted, parsenum, digits, decimal}

abbrev pub IsDigit : ℕ → Type 0
IsDigit ch = (b'0' ≤ ch) × (ch < b'9' + 1)

-- What `n` becomes when these digits are written behind it.
abbrev pub value : Bytes → ℕ → ℕ
value [] n = n
value (ch ∷ more) n = value more (10 * n + (ch - b'0'))

strtoul-value :
    (s : Bytes) (n : ℕ)
    → All IsDigit s
    → strtoul s n
      ≡ record { num = min (value s n) ulong_max; erange = ltb ulong_max (value s n); ep = [] }
unfolding strtoul
strtoul-value [] n h = refl
strtoul-value (c ∷ s) n (h, hs) = ground (arith, strtoul-value s (10 * n + (c - b'0')) hs)

accepted-value :
    (w : Bytes)
    → All IsDigit w
    → accepted (strtoul w 0) ≡ (if leb (value w 0) ulong_max then some (value w 0) else none)
unfolding accepted
accepted-value w h = rw (strtoul-value w 0 h) (ground arith)

-- Digits alone are accepted, unless their value exceeds ULONG_MAX; the result is the value.
pub parsenum-digits :
    (c : ℕ) (s : Bytes)
    → All IsDigit (c ∷ s)
    → parsenum (c ∷ s) ≡ (if leb (value (c ∷ s) 0) ulong_max then some (value (c ∷ s) 0) else none)
unfolding parsenum
parsenum-digits c s h = rw (accepted-value (c ∷ s) h) (ground arith)

strtoul-ep : (s : Bytes) (n : ℕ) → (strtoul s n).ep ≡ [] → All IsDigit s
unfolding strtoul
strtoul-ep [] n h = tt
strtoul-ep (c ∷ s) n h = ground (arith, strtoul-ep s (10 * n + (c - b'0')))

parsenum-ep : (w : Bytes) (r : ℕ) → parsenum w ≡ some r → (strtoul w 0).ep ≡ []
unfolding parsenum accepted
parsenum-ep [] r h = cc
parsenum-ep (c ∷ s) r h = ep_nil (strtoul (c ∷ s) 0).ep refl
  where
    ep_nil : (e : Bytes) → (strtoul (c ∷ s) 0).ep ≡ e → e ≡ []
    ep_nil [] p = refl
    ep_nil (x ∷ e) p = absurd (ground arith)

-- What is accepted is one digit or more and nothing else, and the result is the value of the
-- digits, at most ULONG_MAX.
pub parsenum_only :
    (w : Bytes) {r : ℕ}
    → parsenum w ≡ some r
    → (w ≢ []) × All IsDigit w × (r ≡ value w 0) × (r ≤ ulong_max)
parsenum_only [] h = unfold parsenum in cc
parsenum_only (c ∷ s) {r} h =
    let all = strtoul-ep (c ∷ s) 0 (parsenum-ep (c ∷ s) r h) in
    (
      cons-ne-nil c s,
      all,
      ground (arith, parsenum-digits c s all),
      ground (arith, parsenum-digits c s all),
    )

value-digits : (f n : ℕ) (out : Bytes) → n < f → value (digits f n out) 0 ≡ value out n
unfolding digits
value-digits zero n out h = absurd (omega arith)
value-digits (suc f) n out h = ground (arith, value-digits f (n / 10) ((b'0' + n % 10) ∷ out))

digits-IsDigit : (f n : ℕ) (out : Bytes) → n < f → All IsDigit out → All IsDigit (digits f n out)
unfolding digits
digits-IsDigit zero n out h d = absurd (omega arith)
digits-IsDigit (suc f) n out h d = elim (Bool-cases (ltb n 10)) [
  | inl e ↦ rw e ((ground arith, ground arith), d)
  | inr e ↦ rw e (digits-IsDigit f (n / 10) _ (ground arith) ((ground arith, ground arith), d))
]

parsenum-value :
    (w : Bytes) → w ≢ [] → All IsDigit w → value w 0 ≤ ulong_max → parsenum w ≡ some (value w 0)
parsenum-value [] ne h m = absurd (ne refl)
parsenum-value (c ∷ s) ne h m = ground (arith, parsenum-digits c s h)

digits-ne-nil : (f n : ℕ) (out : Bytes) → n < f → digits f n out ≢ []
unfolding digits
digits-ne-nil zero n out h = absurd (omega arith)
digits-ne-nil (suc f) n out h = ground (arith, digits-ne-nil f (n / 10) ((b'0' + n % 10) ∷ out))

-- The decimal form of a number of at most ULONG_MAX is read back as the number.
pub parsenum-decimal : (n : ℕ) → n ≤ ulong_max → parsenum (decimal n) ≡ some n
unfolding decimal
parsenum-decimal n h =
    let v = value-digits (suc n) n [] (omega arith) in
    parsenum-value _ (digits-ne-nil (suc n) n [] (omega arith))
      (digits-IsDigit (suc n) n [] (omega arith) tt) (omega arith)
    ∙ ap some v

module _ (lib : Library) (k : Bytes) (id : ℕ) (e : parsenum k ≡ some id) where
  find_passwd-id : find_passwd lib k ≡ lib.getpwuid (id % 2 ^ 32)
  unfolding find_passwd
  find_passwd-id = rw (e, find_passwd)

  find_group-id : find_group lib k ≡ lib.getgrgid (id % 2 ^ 32)
  unfolding find_group
  find_group-id = rw (e, find_group)

-- A number of at most ULONG_MAX as a key asks for the uid, or the gid, that is left of it in 32
-- bits, and for nothing else: so 4294967296 asks for root.
pub find_passwd_wraps :
    (lib : Library) (n : ℕ)
    → n ≤ ulong_max
    → (find_passwd lib (decimal n) ≡ lib.getpwuid (n % 2 ^ 32))
      × (find_group lib (decimal n) ≡ lib.getgrgid (n % 2 ^ 32))
find_passwd_wraps lib n h =
    let read = parsenum-decimal n h in (find_passwd-id lib _ n read, find_group-id lib _ n read)

cut_slash-digits :
    (w proto : Bytes) → All IsDigit w → cut_slash (w ++ b'/' ∷ proto) ≡ (w, some proto)
unfolding cut_slash
cut_slash-digits [] proto h = refl
cut_slash-digits (c ∷ w) proto (h, hs) = ground (arith, cut_slash-digits w proto hs)

-- The key `port/proto`, for a port below 2^16, asks for that port in network byte order, with that
-- protocol.
pub find_service-port :
    (lib : Library) (port : ℕ) (proto : Bytes)
    → port < 2 ^ 16
    → find_service lib (decimal port ++ b'/' ∷ proto) ≡ lib.getservbyport (swap16 port) (some proto)
unfolding find_service
find_service-port lib port proto h =
    let all : All IsDigit (decimal port) =
      unfold decimal in digits-IsDigit (suc port) port [] (omega arith) tt in
    let low_bits : port % 2 ^ 16 ≡ port = omega arith in
    rw
      (cut_slash-digits (decimal port) proto all, parsenum-decimal port (omega arith), find_service)
      (rw (low_bits, cut_slash-digits (decimal port) proto all))
