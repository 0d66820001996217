-- ===== src/Getent/Number.antt =====
-- vols/build/aports/main/musl/getent.c: `parsenum`, with the `isdigit` and `strtoul` that it calls,
-- the `%u` of printf, and the fields of its formats.
use hassio_installer.Prelude.{
  ℕ, zero, suc, ◌+◌, ◌-◌, ◌*◌, ◌/◌, ◌%◌, ◌^◌, Bool, true, false, ◌&&◌, Option, none, some, [], ◌∷◌,
  ◌++◌, Bytes, length, leb, ltb, ◌==◌, if◌then◌else◌, min,
}

abbrev pub ulong_max : ℕ
ulong_max = 2 ^ 64 - 1

unfoldable pub isdigit : ℕ → Bool
isdigit c = leb b'0' c && leb c b'9'

-- `strtoul(word, &ep, 10)` where a digit comes first: the number that the digits spell, saturated
-- with ERANGE, and the rest of the text.
pub record Strtoul : Type 0 where
  pub num : ℕ
  pub erange : Bool
  pub ep : Bytes

abbrev saturated : ℕ → Bytes → Strtoul
saturated n s = record { num = min n ulong_max; erange = ltb ulong_max n; ep = s }

unfoldable pub strtoul : Bytes → ℕ → Strtoul
unfolding isdigit
strtoul [] n = saturated n []
strtoul (c ∷ s) n = elim (isdigit c) [
  | true ↦ strtoul s (n * 10 + (c - b'0'))
  | false ↦ saturated n (c ∷ s)
]

abbrev at_end : Bytes → Bool
at_end [] = true
at_end (c ∷ s) = false

unfoldable pub accepted : Strtoul → Option ℕ
accepted r =
    if r.num == ulong_max && r.erange then none else if at_end r.ep then some r.num else none

-- `none` for the result 0, `some` for 1 with `*result`.
unfoldable pub parsenum : Bytes → Option ℕ
unfolding isdigit strtoul accepted
parsenum [] = none
parsenum (c ∷ s) = if isdigit c then accepted (strtoul (c ∷ s) 0) else none

-- The digits of `%u`, in front of `out`, with a round for each.
unfoldable pub digits : ℕ → ℕ → Bytes → Bytes
digits zero n out = out
digits (suc f) n out =
    let more = digits f (n / 10) ((b'0' + n % 10) ∷ out) in
    if ltb n 10 then (b'0' + n) ∷ out else more

-- `%u`: a number has fewer digits than its value has units.
unfoldable pub decimal : ℕ → Bytes
unfolding digits
decimal n = digits (suc n) n []

unfoldable pub spaces : ℕ → Bytes
spaces zero = []
spaces (suc n) = b' ' ∷ spaces n

-- `%-16s` and `%5d`.
unfoldable pub left_field : ℕ → Bytes → Bytes
unfolding spaces
left_field w s = s ++ spaces (w - length s)

unfoldable pub right_field : ℕ → Bytes → Bytes
unfolding spaces
right_field w s = spaces (w - length s) ++ s
