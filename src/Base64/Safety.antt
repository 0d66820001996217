-- ===== src/Base64/Safety.antt =====
-- Of base64.c.
-- `b64_pton` on any input, and the memory behind its target.
use Prim.Native.Nat.{bit_or}
use hassio_installer.Prelude.{
  ℕ, ◌+◌, ◌%◌, ◌^◌, ◌≤◌, ◌<◌, ◌≡◌, refl, ◌∙◌, inl, inr, Bool, true, false, none, some, Option, [],
  ◌∷◌, Bytes, length, arith, Outcome, done, Bool-cases, ◌==◌, write, ◌>>=◌, get_elem?-some,
  store-some,
}
use hassio_installer.Base64.{
  advance, next_index, only_spaces, alphabet, pad, isspace, position, Phase, first, second, third,
  fourth, Decoder, Decoded, or_into, sized, store_bits, pton_step, pton_from, b64_pton, extra_bits,
  skip_spaces, second_pad, pad_end, padded, unpadded, moved,
}
use hassio_installer.Base64.Decode.{int_index}
use hassio_installer.Base64.Rounds.{
  kind, space, padding, foreign, value, pton_from-space, pton_from-padding, pton_from-foreign,
  pton_from-refused, pton_from-value,
}

-- A store either goes through, with memory of the same length, or returns -1 before it is made.
abbrev Stores : ℕ → Outcome Bytes → Type 0
Stores n r = (t : Bytes) × (r ≡ done t) × (length t ≡ n)

write-Stores : (t : Bytes) (i v : ℕ) → i < length t → Stores (length t) (write t i v)
write-Stores t i v h = let (t', e, n) = store-some t i v h in (t', rw e, n)

or_into-Stores : (t : Bytes) (i v : ℕ) → i < length t → Stores (length t) (or_into t i v)
unfolding or_into
or_into-Stores t i v h =
    let (x, e) = get_elem?-some t i h in
    let (t', e', n) = store-some t i (bit_or x v % 256) h in (t', rw (e, e'), n)

-- `target[i] |= v; target[i + 1] = v';`
or_write-Stores :
    (t : Bytes) (i v v' : ℕ)
    → i + 1 < length t
    → Stores (length t) (or_into t i v >>= λ t'. write t' (i + 1) v')
or_write-Stores t i v v' h =
    let (t', e, n) = or_into-Stores t i v (omega arith) in
    let (t'', e', n') = write-Stores t' (i + 1) v' (omega arith) in (t'', rw (e, e'), n' ∙ n)

-- `tarindex` before a digit is read: what `b64_pton` has checked of it.
abbrev InRange : Phase → ℕ → ℕ → Type 0
InRange first i n = i ≤ n
InRange _ i n = i < n

-- A store that is made leaves the index of the next phase in range.
abbrev Stored : ℕ → ℕ → Phase → ℕ → Option Bytes → Type 0
Stored n targsize p i none = Unit
Stored n targsize p i (some t) = (length t ≡ n) × InRange (advance p) (next_index p i) targsize

sized-Stored :
    (n targsize i : ℕ) (p : Phase) (full : Bool) (m : Outcome Bytes)
    → (full ≡ false → Stores n m × InRange (advance p) (next_index p i) targsize)
    → (o : Option Bytes) × (sized full m ≡ done o) × Stored n targsize p i o
unfolding sized
sized-Stored n targsize i p true m h = (none, refl, tt)
sized-Stored n targsize i p false m h = let ((t, e, len), r) = h refl in (some t, rw e, (len, r))

store_bits-Stored :
    (targsize v i : ℕ) (p : Phase) (t : Bytes)
    → targsize ≤ length t
    → (o : Option Bytes) × (store_bits targsize p i v t ≡ done o) × Stored (length t) targsize p i o
unfolding store_bits advance next_index
store_bits-Stored targsize v i first t fits =
    sized-Stored _ targsize i first _ _ (λ e. (write-Stores t i _ (ground arith), ground arith))
store_bits-Stored targsize v i second t fits =
    sized-Stored _ targsize i second _ _
      (λ e. (or_write-Stores t i _ _ (ground arith), ground arith))
store_bits-Stored targsize v i third t fits =
    sized-Stored _ targsize i third _ _
      (λ e. (or_write-Stores t i _ _ (ground arith), ground arith))
store_bits-Stored targsize v i fourth t fits =
    sized-Stored _ targsize i fourth _ _ (λ e. (or_into-Stores t i _ (ground arith), ground arith))

-- The result: memory of the same length, and a count within `targsize`.
abbrev pub WithinSize : ℕ → Option ℕ → Type 0
WithinSize targsize none = Unit
WithinSize targsize (some k) = k ≤ targsize

abbrev Returns : ℕ → ℕ → Outcome Decoded → Type 0
Returns n targsize r =
    (k : Option ℕ) × (t : Bytes) × (r ≡ done (k, some t)) × (length t ≡ n) × WithinSize targsize k

abbrev at : Bytes → ℕ → Phase → Decoder
at t i p = record { target = some t; tarindex = i; state = p }

extra_bits-Returns :
    (targsize i : ℕ) (p : Phase) (t : Bytes)
    → targsize ≤ length t
    → i < targsize
    → Returns (length t) targsize (extra_bits (at t i p))
unfolding extra_bits
extra_bits-Returns targsize i p t fits r =
    let (x, e) = get_elem?-some t i (omega arith) in
    elim (Bool-cases (x == 0)) [
      | inl z ↦ (some i, t, rw (e, z), refl, omega arith)
      | inr z ↦ (none, t, rw (e, z), refl, tt)
    ]

pad_end-Returns :
    (targsize i : ℕ) (p : Phase) (t s : Bytes)
    → targsize ≤ length t
    → i < targsize
    → Returns (length t) targsize (pad_end s (at t i p))
unfolding pad_end
pad_end-Returns targsize i p t s fits r = elim (Bool-cases (only_spaces s)) [
  | inl e ↦ rw e (extra_bits-Returns targsize i p t fits r)
  | inr e ↦ (none, t, rw e, refl, tt)
]

second_pad-Returns :
    (targsize i : ℕ) (p : Phase) (t s : Bytes)
    → targsize ≤ length t
    → i < targsize
    → Returns (length t) targsize (second_pad s (at t i p))
unfolding second_pad
second_pad-Returns targsize i p t [] fits r = (none, t, refl, refl, tt)
second_pad-Returns targsize i p t (c ∷ s) fits r = elim (Bool-cases (c == pad)) [
  | inl e ↦ rw e (pad_end-Returns targsize i p t s fits r)
  | inr e ↦ (none, t, rw e, refl, tt)
]

padded-Returns :
    (targsize i : ℕ) (p : Phase) (t s : Bytes)
    → targsize ≤ length t
    → InRange p i targsize
    → Returns (length t) targsize (padded p s (at t i p))
unfolding padded
padded-Returns targsize i third t s fits r =
    second_pad-Returns targsize i third t (skip_spaces s) fits r
padded-Returns targsize i fourth t s fits r = pad_end-Returns targsize i fourth t s fits r
padded-Returns targsize i _ t s fits r = (none, t, refl, refl, tt)

unpadded-Returns :
    (targsize i : ℕ) (p : Phase) (t : Bytes)
    → InRange p i targsize
    → Returns (length t) targsize (unpadded p (at t i p))
unfolding unpadded
unpadded-Returns targsize i first t r = (some i, t, refl, refl, r)
unpadded-Returns targsize i _ t r = (none, t, refl, refl, tt)

InRange-int : (p : Phase) (i n : ℕ) → InRange p i n → n < 2 ^ 31 → i < 2 ^ 31
InRange-int first i n h int = omega arith
InRange-int second i n h int = omega arith
InRange-int third i n h int = omega arith
InRange-int fourth i n h int = omega arith

-- A refused digit returns -1; a stored one goes on to the rest of the input.
pton_from_value-Returns :
    (targsize c v : ℕ) (s : Bytes) (i : ℕ) (p : Phase) (t : Bytes)
    → targsize < 2 ^ 31
    → isspace c ≡ false
    → (c == pad) ≡ false
    → position alphabet c ≡ some v
    → ((i' : ℕ) (p' : Phase) (t' : Bytes)
        → length t' ≡ length t
        → InRange p' i' targsize
        → Returns (length t) targsize (pton_from targsize s (at t' i' p')))
    → (o : Option Bytes) → store_bits targsize p i v t ≡ done o
    → Stored (length t) targsize p i o
    → Returns (length t) targsize (pton_from targsize (c ∷ s) (at t i p))
pton_from_value-Returns targsize c v s i p t int h e f ih none st r =
    (none, t, pton_from-refused targsize c s _ v h e f (unfold pton_step in rw st), refl, tt)
pton_from_value-Returns targsize c v s i p t int h e f ih (some t') st (len, r) =
    rw
      (pton_from-value targsize c s (at t i p) v h e f (at t' (next_index p i) (advance p)) (
        unfold pton_step in
        unfold moved in rw (st, int_index _ (InRange-int (advance p) _ targsize r int))))
      (ih (next_index p i) (advance p) t' len r)

pton_from-Returns :
    (targsize : ℕ) (s : Bytes) (i : ℕ) (p : Phase) (t : Bytes)
    → targsize ≤ length t
    → targsize < 2 ^ 31
    → InRange p i targsize
    → Returns (length t) targsize (pton_from targsize s (at t i p))
pton_from-Returns targsize [] i p t fits int r =
    unfold pton_from in unpadded-Returns targsize i p t r
pton_from-Returns targsize (c ∷ s) i p t fits int r = elim (kind c) [
  | space h ↦ rw (pton_from-space targsize c s _ h) (pton_from-Returns targsize s i p t fits int r)
  | padding h e ↦ rw (pton_from-padding targsize c s _ h e) (padded-Returns targsize i p t s fits r)
  | foreign h e f ↦ (none, t, pton_from-foreign targsize c s _ h e f, refl, tt)
  | value v h e f ↦
      let (o, st, g) = store_bits-Stored targsize v i p t fits in
      pton_from_value-Returns targsize c v s i p t int h e f
        (λ i' p' t' len r'. rw len at (pton_from-Returns targsize s i' p' t' (omega arith) int r'))
        o st g
]

-- On every string, with a target of at least `targsize` bytes and a `targsize` below 2^31,
-- `b64_pton` returns, with no fault and no abort. The memory keeps its length, and a count that is
-- returned is at most `targsize`.
pub b64_pton_safe :
    (src target : Bytes) (targsize : ℕ)
    → targsize ≤ length target
    → targsize < 2 ^ 31
    → (k : Option ℕ) × (t : Bytes) × (b64_pton src (some target) targsize ≡ done (k, some t))
      × (length t ≡ length target)
      × WithinSize targsize k
unfolding b64_pton
b64_pton_safe src target targsize fits int =
    pton_from-Returns targsize src 0 first target fits int (omega arith)
