-- ===== src/SslClient/Copies.antt =====
-- Of ssl_client.c.
-- What a copy sends.
use hassio_installer.Prelude.{
  drop-all, ℕ, zero, suc, ◌+◌, ◌-◌, ◌*◌, ◌≤◌, ◌<◌, ◌≡◌, refl, ◌∙◌, ap, ◌∷◌, [], ◌++◌, append-nil,
  List, true, false, Bytes, length, take, drop, leb, length-append, length-drop, take-length-append,
  arith, le→leb, replicate,
}
use hassio_installer.SslClient.{
  Wrote, took, again, Got, got, retry, finished, copied, behind, write_from, fill,
  copy_from_stdin_to_tls, copy_from_tls_to_stdout,
}

pub length-fill : (s buf : Bytes) → length s ≤ length buf → length (fill s buf) ≡ length buf
length-fill s buf h =
    omega (arith, length-append s (drop (length s) buf), length-drop (length s) buf)

-- Any number of calls to be made again before one that takes everything.
pub write_again :
    (k : ℕ) (buf : Bytes) (i n : ℕ) (rest : List Wrote)
    → write_from buf i n (replicate k again ++ rest) ≡ write_from buf i n rest
unfolding write_from
write_again k buf i zero rest = refl
write_again zero buf i (suc n) rest = refl
write_again (suc k) buf i (suc n) rest = write_again k buf i (suc n) rest

pub read_again :
    (j : ℕ) (buf : Bytes) (reads : List Got) (writes : List Wrote)
    → (copy_from_stdin_to_tls buf (replicate j retry ++ reads) writes
        ≡ copy_from_stdin_to_tls buf reads writes)
      × (copy_from_tls_to_stdout buf (replicate j retry ++ reads) writes
          ≡ copy_from_tls_to_stdout buf reads writes)
unfolding copy_from_stdin_to_tls copy_from_tls_to_stdout
read_again zero buf reads writes = (refl, refl)
read_again (suc j) buf reads writes = read_again j buf reads writes

pub write_whole :
    (s buf : Bytes) (c : ℕ)
    → length (c ∷ s) ≤ length buf
    → write_from (fill (c ∷ s) buf) 0 (length (c ∷ s)) (took (length (c ∷ s)) ∷ [])
      ≡ copied (c ∷ s) finished
unfolding write_from
write_whole s buf c h =
    let n = length-fill (c ∷ s) buf h in
    let fits : leb (suc (length s)) (suc (length (s ++ drop (suc (length s)) buf))) ≡ true =
      le→leb _ _ (omega arith) in
    let none_left : suc (length s) - suc (length s) ≡ 0 = omega arith in
    let start : 0 + suc (length s) ≡ suc (length s) = omega arith in
    rw (start, none_left) (rw (fits, take-length-append s (drop (suc (length s)) buf), append-nil))

-- If reading is tried again any number of times before it gives bytes that fit the buffer, at least
-- one, and on the way to TLS writing likewise before it takes them all, each copy sends the bytes
-- that were read and leaves both sides open.
pub copies_whole :
    (buf s : Bytes) (c j k : ℕ)
    → length (c ∷ s) ≤ length buf
    → (copy_from_stdin_to_tls buf
          (replicate j retry ++ got (c ∷ s) ∷ [])
          (replicate k again ++ took (length (c ∷ s)) ∷ [])
        ≡ (true, copied (c ∷ s) finished))
      × (copy_from_tls_to_stdout buf
            (replicate j retry ++ got (c ∷ s) ∷ [])
            (took (length (c ∷ s)) ∷ [])
          ≡ (false, copied (c ∷ s) finished))
unfolding copy_from_stdin_to_tls copy_from_tls_to_stdout
copies_whole buf s c j k h =
    let reads = got (c ∷ s) ∷ [] in
    let one = took (length (c ∷ s)) ∷ [] in
    let run = write_whole s buf c h in
    (
      (read_again j buf reads (replicate k again ++ one)).0
          ∙ ap (λ w. (true, w)) (write_again k (fill (c ∷ s) buf) 0 (length (c ∷ s)) one ∙ run),
      (read_again j buf reads one).1 ∙ ap (λ w. (false, w)) run,
    )

drop-fill : (s buf : Bytes) (m : ℕ) → length s ≤ m → drop m (fill s buf) ≡ drop m buf
drop-fill [] buf m h = refl
drop-fill (c ∷ s) buf zero h = absurd (omega arith)
drop-fill (c ∷ s) [] (suc m) h = drop-all (s ++ []) m (omega (arith, length-append s []))
drop-fill (c ∷ s) (b ∷ buf) (suc m) h = drop-fill s buf m (omega arith)

take-append : (s t : Bytes) (r : ℕ) → r ≤ length s → take r (s ++ t) ≡ take r s
take-append s t zero h = refl
take-append [] t (suc r) h = absurd (omega arith)
take-append (c ∷ s) t (suc r) h = ap (◌∷◌ c) (take-append s t r (omega arith))

write_took :
    (m : Bytes) (i n r : ℕ) (results : List Wrote)
    → 0 < n
    → 8 * i + n ≤ length m
    → write_from m i n (took r ∷ results)
      ≡ behind (take r (drop (8 * i) m)) (write_from m (i + r) (n - r) results)
unfolding write_from
write_took m i zero r results h fits = absurd (omega arith)
write_took m i (suc n) r results h fits =
    let e : leb (8 * i + suc n) (length m) ≡ true = le→leb _ _ fits in rw e

write_end : (m : Bytes) (i : ℕ) → write_from m i 0 [] ≡ copied [] finished
unfolding write_from
write_end m i = refl

-- Where write() takes a part of the bytes that came from TLS, an eighth of them at least, and then
-- the rest in one call within the buffer, what standard output gets for the rest is what the buffer
-- held, before the bytes came, from 8 times the first count on.
pub partial_write_skips :
    (buf s : Bytes) (c r : ℕ)
    → r < length (c ∷ s)
    → length (c ∷ s) ≤ 8 * r
    → 8 * r + (length (c ∷ s) - r) ≤ length buf
    → copy_from_tls_to_stdout buf (got (c ∷ s) ∷ []) (took r ∷ took (length (c ∷ s) - r) ∷ [])
      ≡ (false, copied (take r (c ∷ s) ++ take (length (c ∷ s) - r) (drop (8 * r) buf)) finished)
unfolding copy_from_tls_to_stdout
partial_write_skips buf s c r some_left far room =
    let n = length (c ∷ s) in
    let m = fill (c ∷ s) buf in
    let size = length-fill (c ∷ s) buf (omega arith) in
    let start : 0 + r ≡ r = omega arith in
    let first =
      write_took m 0 n r (took (n - r) ∷ []) (omega arith) (omega arith)
      ∙ ap (λ i. behind (take r m) (write_from m i (n - r) (took (n - r) ∷ []))) start in
    let second = write_took m r (n - r) (n - r) [] (omega arith) (omega arith) in
    let none_left : n - r - (n - r) ≡ 0 = omega arith in
    let last : write_from m (r + (n - r)) (n - r - (n - r)) [] ≡ copied [] finished =
      rw none_left (write_end m (r + (n - r))) in
    ap (λ w. (false, w))
      (first
        ∙ ap (behind (take r m)) (second ∙ ap (behind (take (n - r) (drop (8 * r) m))) last)
        ∙ rw (append-nil, drop-fill (c ∷ s) buf (8 * r) far)
            (ap (λ x. copied (x ++ take (n - r) (drop (8 * r) buf)) finished)
              (take-append (c ∷ s) (drop n buf) r (omega arith))))
