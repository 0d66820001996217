-- ===== src/Base64/Alphabet.antt =====
-- Of base64.c.
-- The 64 digits: looking one up gives its value back, and none is white space or the pad. The laws
-- of `|=` on the fields that `b64_pton` joins. All by evaluation.
use Prim.Native.Nat.{bit_or}
use hassio_installer.Prelude.{
  ℕ, ◌*◌, ◌/◌, ◌%◌, ◌<◌, ◌≡◌, refl, Bool, true, false, ◌&&◌, not, none, some, arith, ◌==◌, ==_iff,
  tabulate, at_tabulate,
}
use hassio_installer.Base64.{alphabet, pad, digit, isspace, position}

-- `strchr` finds the digit at its place, whatever comes of it.
abbrev pub reads_back : ℕ → Bool
reads_back v = elim (position alphabet (digit v)) [
  | none ↦ false
  | some n ↦ n == v && not (isspace (digit v)) && not (digit v == pad)
]

digits_table : tabulate reads_back 64 ≡ true
unfolding tabulate position isspace digit
digits_table = refl

pub digit_reads :
    (v : ℕ)
    → v < 64
    → (position alphabet (digit v) ≡ some v)
      × (isspace (digit v) ≡ false)
      × ((digit v == pad) ≡ false)
digit_reads v h = ground (arith, at_tabulate reads_back 64 v h digits_table)

or_table_four : tabulate (λ x. bit_or (x / 4 * 4) (x % 4) == x) 256 ≡ true
unfolding tabulate
or_table_four = refl

or_table_sixteen : tabulate (λ x. bit_or (x / 16 * 16) (x % 16) == x) 256 ≡ true
unfolding tabulate
or_table_sixteen = refl

or_table_sixty_four : tabulate (λ x. bit_or (x / 64 * 64) (x % 64) == x) 256 ≡ true
unfolding tabulate
or_table_sixty_four = refl

-- `|=` joins a byte from its upper bits and its lower ones.
pub or_four : (x : ℕ) → x < 256 → bit_or (x / 4 * 4) (x % 4) ≡ x
or_four x h = (==_iff _ x).0 (at_tabulate _ 256 x h or_table_four)

pub or_sixteen : (x : ℕ) → x < 256 → bit_or (x / 16 * 16) (x % 16) ≡ x
or_sixteen x h = (==_iff _ x).0 (at_tabulate _ 256 x h or_table_sixteen)

pub or_sixty_four : (x : ℕ) → x < 256 → bit_or (x / 64 * 64) (x % 64) ≡ x
or_sixty_four x h = (==_iff _ x).0 (at_tabulate _ 256 x h or_table_sixty_four)
