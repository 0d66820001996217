-- ===== src/SslClient.antt =====
-- vols/build/aports/main/busybox/ssl_client.c: bytes copied between standard input, a TLS
-- connection and standard output. What the calls of libssl and of the system return is a parameter,
-- the list of their results in order; a list that is used up leaves the copy waiting. A buffer is
-- its bytes. `buf` is an array of size_t, so `&buf[i]` is 8 * i bytes into it.
pub mod Copies
pub mod Session
pub mod Relay
pub mod Secure
use hassio_installer.Prelude.{
  ℕ, zero, suc, ◌+◌, ◌-◌, ◌*◌, ◌∷◌, [], ◌++◌, List, Bool, true, false, Bytes, length, take, drop,
  leb, ◌==◌, if◌then◌else◌,
}

-- One call of SSL_write or write: it takes bytes, it is to be called again, or it fails.
pub data Wrote : Type 0 where
  took : ℕ → Wrote
  again failed : Wrote

-- One call of read or SSL_read: the bytes, 0 of them at the end; or as above.
pub data Got : Type 0 where
  got : Bytes → Got
  retry broken : Got

-- How a copy ends: all is written, the program exits with an error, the results are used up, or
-- bytes behind the buffer are read.
pub data End : Type 0 where
  finished fatal waiting outside : End

pub record Copied : Type 0 where
  pub sent : Bytes
  pub end : End

abbrev pub copied : Bytes → End → Copied
copied s e = record { sent = s; end = e }

abbrev pub behind : Bytes → Copied → Copied
behind s c = copied (s ++ c.sent) c.end

-- `while (n > 0) { r = SSL_write(ssl, &buf[i], n); ... i += r; n -= r; }`
unfoldable pub write_from : Bytes → ℕ → ℕ → List Wrote → Copied
write_from buf i zero results = copied [] finished
write_from buf i (suc n) [] = copied [] waiting
write_from buf i (suc n) (again ∷ results) = write_from buf i (suc n) results
write_from buf i (suc n) (failed ∷ results) =
    if leb (8 * i + suc n) (length buf) then copied [] fatal else copied [] outside
write_from buf i (suc n) (took r ∷ results) =
    let rest = write_from buf (i + r) (suc n - r) results in
    if leb (8 * i + suc n) (length buf)
    then behind (take r (drop (8 * i) buf)) rest
    else copied [] outside

-- read() puts its bytes at the front of the buffer.
abbrev pub fill : Bytes → Bytes → Bytes
fill s buf = s ++ drop (length s) buf

-- Whether standard input stays open, and the copy.
unfoldable pub copy_from_stdin_to_tls : Bytes → List Got → List Wrote → Bool × Copied
unfolding write_from
copy_from_stdin_to_tls buf [] writes = (true, copied [] waiting)
copy_from_stdin_to_tls buf (retry ∷ reads) writes = copy_from_stdin_to_tls buf reads writes
copy_from_stdin_to_tls buf (broken ∷ reads) writes = (false, copied [] finished)
copy_from_stdin_to_tls buf (got [] ∷ reads) writes = (false, copied [] finished)
copy_from_stdin_to_tls buf (got (c ∷ s) ∷ reads) writes =
    (true, write_from (fill (c ∷ s) buf) 0 (length (c ∷ s)) writes)

-- Whether the connection is at its end, and the copy; write() to standard output is not called
-- again, so `again` is no result of it.
unfoldable pub copy_from_tls_to_stdout : Bytes → List Got → List Wrote → Bool × Copied
unfolding write_from
copy_from_tls_to_stdout buf [] writes = (false, copied [] waiting)
copy_from_tls_to_stdout buf (retry ∷ reads) writes = copy_from_tls_to_stdout buf reads writes
copy_from_tls_to_stdout buf (broken ∷ reads) writes = (false, copied [] fatal)
copy_from_tls_to_stdout buf (got [] ∷ reads) writes = (true, copied [] finished)
copy_from_tls_to_stdout buf (got (c ∷ s) ∷ reads) writes =
    (false, write_from (fill (c ∷ s) buf) 0 (length (c ∷ s)) writes)
