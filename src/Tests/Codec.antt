-- ===== src/Tests/Codec.antt =====
-- The codec on short inputs.
use hassio_installer.Prelude.{
  ℕ, ◌≡◌, refl, store, ◌∷◌, [], ◌++◌, none, some, Option, Bytes, All, length, replicate, done,
  codes, arith, c_string,
}
use hassio_installer.Base64.{digit, isspace, position, pton_step, store_bits, b64_ntop, b64_pton}
use hassio_installer.Base64.Encode.{IsByte, encoding, b64_ntop-encoding}
use hassio_installer.Base64.Decode.{b64_pton-encoding}
use hassio_installer.Base64.Canonical.{b64_pton-canonical}
use hassio_installer.Base64.Composed.{b64_pton-b64_ntop}
use hassio_installer.Base64.Counting.{b64_pton-counts}
use hassio_installer.Base64.Encode.Full.{b64_ntop_full}
use hassio_installer.Base64.Safety.{WithinSize, b64_pton_safe}

man-IsByte : All IsByte (codes "Man!")
man-IsByte = (omega arith, (omega arith, (omega arith, (omega arith, tt))))

b64_ntop-encoding_example :
    b64_ntop (codes "Man!") (replicate 12 7) 10
    ≡ done (some 8, codes "TWFuIQ==" ++ 0 ∷ 7 ∷ 7 ∷ 7 ∷ [])
unfolding digit
b64_ntop-encoding_example =
    b64_ntop-encoding (codes "Man!") (replicate 12 7) 10 man-IsByte (omega arith) (omega arith)
      (omega arith)

b64_ntop_full_example :
    (t : Bytes) × (b64_ntop (codes "Man!") (replicate 12 7) 8 ≡ done (none, t)) × (length t ≡ 12)
b64_ntop_full_example =
    b64_ntop_full (codes "Man!") (replicate 12 7) 8 man-IsByte (omega arith) (omega arith)

b64_pton-encoding_example :
    (rest : Bytes) × (b64_pton (codes "TWFuIQ==") (some (replicate 9 7)) 5
      ≡ done (some 4, some (codes "Man!" ++ rest)))
    × (length (codes "Man!" ++ rest) ≡ 9)
unfolding digit
b64_pton-encoding_example =
    b64_pton-encoding (codes "Man!") (replicate 9 7) 5 man-IsByte (omega arith) (omega arith)
      (omega arith)

b64_pton_safe_example :
    (k : Option ℕ) × (t : Bytes) × (b64_pton (codes "TW=Fu") (some (replicate 3 7)) 2
      ≡ done (k, some t))
    × (length t ≡ 3)
    × WithinSize 2 k
b64_pton_safe_example = b64_pton_safe (codes "TW=Fu") (replicate 3 7) 2 (omega arith) (omega arith)

spaced :
    b64_pton (codes "T Q= =") (some (replicate 4 7)) 4
    ≡ done (some 1, some (codes "M" ++ 0 ∷ 7 ∷ 7 ∷ []))
unfolding b64_pton isspace position pton_step store_bits store
spaced = refl

b64_pton-canonical_example : encoding (codes "M") ≡ codes "TQ=="
unfolding isspace
b64_pton-canonical_example =
    b64_pton-canonical (codes "T Q= =") (replicate 4 7) (codes "M" ++ 0 ∷ 7 ∷ 7 ∷ []) 4 1
      (omega arith) spaced

b64_pton-counts_example : b64_pton (codes "T Q= =") none 0 ≡ done (some 1, none)
b64_pton-counts_example =
    b64_pton-counts (codes "T Q= =") (replicate 4 7) 4 0 1 (some (codes "M" ++ 0 ∷ 7 ∷ 7 ∷ []))
      spaced

b64_pton-b64_ntop_example :
    (m rest : Bytes) × (b64_ntop (codes "Man!") (replicate 12 7) 12 ≡ done (some 8, m))
    × (b64_pton (c_string m) (some (replicate 5 7)) 5 ≡ done (some 4, some (codes "Man!" ++ rest)))
b64_pton-b64_ntop_example =
    b64_pton-b64_ntop (codes "Man!") (replicate 12 7) (replicate 5 7) man-IsByte (omega arith)
      (omega arith) (omega arith)
