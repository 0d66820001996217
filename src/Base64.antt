-- ===== src/Base64.antt =====
-- vols/build/aports/main/netcat-openbsd/base64.c: `b64_ntop` and `b64_pton`. Memory behind
-- `target` is the list of its bytes, and an access out of it is a fault. A source of `b64_ntop` is
-- its `srclength` bytes, one of `b64_pton` the bytes before its '\0'. A returned -1 is `none`.
-- Sizes are those of objects in memory, so `size_t` sums do not wrap; `tarindex` is an int, whose
-- overflow is a fault, and a count that is returned is cut to one.
pub mod Alphabet
pub mod Rounds
pub mod Encode
pub mod Decode
pub mod Safety
pub mod Groups
pub mod Endings
pub mod Canonical
pub mod Counting
pub mod Composed
use Prim.Native.Nat.{bit_or}
use hassio_installer.Prelude.{
  ℕ, ◌+◌, ◌-◌, ◌*◌, ◌/◌, ◌%◌, ◌^◌, Bool, true, false, ◌&&◌, ◌||◌, Option, none, some, [], ◌∷◌,
  Bytes, codes, get_or, ltb, leb, ◌==◌, if◌then◌else◌, Outcome, done, fault, assert, read, write,
  ◌>>=◌, ◌>>◌,
}

abbrev pub alphabet : Bytes
alphabet = codes "ABCDEFGHIJKLMNOPQRSTUVWXYZabcdefghijklmnopqrstuvwxyz0123456789+/"

abbrev pub pad : ℕ
pad = b'='

-- `Base64[v]`; an index of 64 is the string's '\0'.
unfoldable pub digit : ℕ → ℕ
digit v = get_or alphabet v 0

-- The four `output` bytes, computed in `int` and stored in `uint8_t`.
abbrev pub out_first : ℕ → ℕ
out_first a = a / 2 ^ 2

abbrev pub out_second : ℕ → ℕ → ℕ
out_second a b = (a % 2 ^ 2 * 2 ^ 4 + b / 2 ^ 4) % 256

abbrev pub out_third : ℕ → ℕ → ℕ
out_third b c = (b % 2 ^ 4 * 2 ^ 2 + c / 2 ^ 6) % 256

abbrev pub out_fourth : ℕ → ℕ
out_fourth c = c % 2 ^ 6

pub record Writer : Type 0 where
  pub target : Bytes
  pub datalength : ℕ

-- `target[datalength++] = c`
unfoldable pub put : Writer → ℕ → Outcome Writer
put w c = do
  t ← write w.target w.datalength c
  done (record { target = t; datalength = w.datalength + 1 })

unfoldable pub put_four : Writer → ℕ → ℕ → ℕ → ℕ → Outcome Writer
put_four w c0 c1 c2 c3 = do w1 ← put w c0; w2 ← put w1 c1; w3 ← put w2 c2; put w3 c3

-- What is returned, with the memory behind `target` at that time.
abbrev pub Reply : Type 0
Reply = Option ℕ × Bytes

-- `size_t` returned as an int: its 32 bits, of which those of -1 are `none`.
abbrev pub as_int : ℕ → Option ℕ
as_int n = if n % 2 ^ 32 == 2 ^ 32 - 1 then none else some (n % 2 ^ 32)

-- Behind the padding: room for the '\0', which is not counted.
unfoldable pub ntop_end : ℕ → Writer → Outcome Reply
ntop_end targsize w =
    if leb targsize w.datalength
    then done (none, w.target)
    else do t ← write w.target w.datalength 0; done (as_int w.datalength, t)

-- One or two bytes are left; `third` is the third character to write.
unfoldable pub ntop_tail : ℕ → ℕ → ℕ → ℕ → Writer → Outcome Reply
ntop_tail targsize a b third w = do
  assert (ltb (out_first a) 64)
  assert (ltb (out_second a b) 64)
  assert (ltb (out_third b 0) 64)
  if ltb targsize (w.datalength + 4) then done (none, w.target) else do
    w' ← put_four w (digit (out_first a)) (digit (out_second a b)) third pad
    ntop_end targsize w'

-- One round of `while (2 < srclength)`; `none` is the return of -1.
unfoldable pub ntop_group : ℕ → ℕ → ℕ → ℕ → Writer → Outcome (Option Writer)
ntop_group targsize a b c w = do
  assert (ltb (out_first a) 64)
  assert (ltb (out_second a b) 64)
  assert (ltb (out_third b c) 64)
  assert (ltb (out_fourth c) 64)
  if ltb targsize (w.datalength + 4) then done none else do
    w' ←
        put_four w (digit (out_first a)) (digit (out_second a b)) (digit (out_third b c))
          (digit (out_fourth c))
    done (some w')

unfoldable pub ntop_from : ℕ → Bytes → Writer → Outcome Reply
ntop_from targsize [] w = ntop_end targsize w
ntop_from targsize (a ∷ []) w = ntop_tail targsize a 0 pad w
ntop_from targsize (a ∷ b ∷ []) w = ntop_tail targsize a b (digit (out_third b 0)) w
ntop_from targsize (a ∷ b ∷ c ∷ src) w = ntop_group targsize a b c w >>= λ r. elim r [
  | none ↦ done (none, w.target)
  | some w' ↦ ntop_from targsize src w'
]

unfoldable pub b64_ntop : Bytes → Bytes → ℕ → Outcome Reply
unfolding ntop_from
b64_ntop src target targsize = ntop_from targsize src (record { target = target; datalength = 0 })

-- `isspace` in the C locale.
unfoldable pub isspace : ℕ → Bool
isspace c = c == b' ' || (leb 9 c && leb c 13)

-- `strchr(Base64, ch) - Base64`, for a `ch` that is not '\0'.
unfoldable pub position : Bytes → ℕ → Option ℕ
position [] c = none
position (x ∷ xs) c =
    if x == c then some 0 else elim (position xs c) [ none ↦ none | some n ↦ some (n + 1) ]

-- `state`, 0 to 3.
pub data Phase : Type 0 where
  first second third fourth : Phase

-- `target` may be NULL.
pub record Decoder : Type 0 where
  pub target : Option Bytes
  pub tarindex : ℕ
  pub state : Phase

abbrev pub Decoded : Type 0
Decoded = Option ℕ × Option Bytes

-- `target[i] |= v`
unfoldable pub or_into : Bytes → ℕ → ℕ → Outcome Bytes
or_into t i v = do x ← read t i; write t i (bit_or x v % 256)

-- `if (i + extra >= targsize) return (-1);` in front of a store.
unfoldable pub sized : Bool → Outcome Bytes → Outcome (Option Bytes)
sized true m = done none
sized false m = do t ← m; done (some t)

-- What the switch stores for the digit value `v`.
unfoldable pub store_bits : ℕ → Phase → ℕ → ℕ → Bytes → Outcome (Option Bytes)
unfolding or_into sized
store_bits targsize first i v t = sized (leb targsize i) (write t i (v * 2 ^ 2 % 256))
store_bits targsize second i v t =
    sized (leb targsize (i + 1))
      (do t' ← or_into t i (v / 2 ^ 4); write t' (i + 1) (v % 2 ^ 4 * 2 ^ 4 % 256))
store_bits targsize third i v t =
    sized (leb targsize (i + 1))
      (do t' ← or_into t i (v / 2 ^ 2); write t' (i + 1) (v % 2 ^ 2 * 2 ^ 6 % 256))
store_bits targsize fourth i v t = sized (leb targsize i) (or_into t i v)

unfoldable pub advance : Phase → Phase
advance first = second
advance second = third
advance third = fourth
advance fourth = first

unfoldable pub next_index : Phase → ℕ → ℕ
next_index first i = i
next_index _ i = i + 1

-- `tarindex++` overflows behind 2^31 - 1.
unfoldable pub moved : Decoder → Option Bytes → Outcome (Option Decoder)
moved d t =
    if ltb (2 ^ 31 - 1) (next_index d.state d.tarindex)
    then fault
    else done (
        some (record {
          target = t;
          tarindex = next_index d.state d.tarindex;
          state = advance d.state;
        }))

-- The switch; `none` is the return of -1.
unfoldable pub pton_step : ℕ → ℕ → Decoder → Outcome (Option Decoder)
unfolding advance next_index moved
pton_step targsize v d = elim d.target [
  | none ↦ moved d none
  | some t ↦ store_bits targsize d.state d.tarindex v t >>= λ r. elim r [
    | none ↦ done none
    | some t' ↦ moved d (some t')
  ]
]

-- `for (; ch != '\0'; ch = *src++) if (!isspace(ch)) break;`
unfoldable pub skip_spaces : Bytes → Bytes
skip_spaces [] = []
skip_spaces (c ∷ s) = elim (isspace c) [ true ↦ skip_spaces s | false ↦ c ∷ s ]

-- The same loop, which returns -1 at another character.
unfoldable pub only_spaces : Bytes → Bool
only_spaces [] = true
only_spaces (c ∷ s) = isspace c && only_spaces s

-- The bits behind the last full byte must be zero.
unfoldable pub extra_bits : Decoder → Outcome Decoded
extra_bits d = elim d.target [
  | none ↦ done (some d.tarindex, none)
  | some t ↦ read t d.tarindex >>= λ x. done ((if x == 0 then some d.tarindex else none), some t)
]

unfoldable pub pad_end : Bytes → Decoder → Outcome Decoded
unfolding only_spaces extra_bits
pad_end s d = if only_spaces s then extra_bits d else done (none, d.target)

unfoldable pub second_pad : Bytes → Decoder → Outcome Decoded
unfolding pad_end
second_pad [] d = done (none, d.target)
second_pad (c ∷ s) d = if c == pad then pad_end s d else done (none, d.target)

-- Behind a first pad character.
unfoldable pub padded : Phase → Bytes → Decoder → Outcome Decoded
unfolding second_pad skip_spaces
padded third s d = second_pad (skip_spaces s) d
padded fourth s d = pad_end s d
padded _ s d = done (none, d.target)

-- At the end of the string.
unfoldable pub unpadded : Phase → Decoder → Outcome Decoded
unpadded first d = done (some d.tarindex, d.target)
unpadded _ d = done (none, d.target)

unfoldable pub pton_from : ℕ → Bytes → Decoder → Outcome Decoded
unfolding unpadded padded
pton_from targsize [] d = unpadded d.state d
pton_from targsize (c ∷ s) d = elim (isspace c) [
  | true ↦ pton_from targsize s d
  | false ↦ elim (c == pad) [
    | true ↦ padded d.state s d
    | false ↦ elim (position alphabet c) [
      | none ↦ done (none, d.target)
      | some v ↦ pton_step targsize v d >>= λ r. elim r [
        | none ↦ done (none, d.target)
        | some d' ↦ pton_from targsize s d'
      ]
    ]
  ]
]

unfoldable pub b64_pton : Bytes → Option Bytes → ℕ → Outcome Decoded
unfolding pton_from
b64_pton src target targsize =
    pton_from targsize src (record { target = target; tarindex = 0; state = first })
