-- ===== src/SslClient/Relay.antt =====
-- Of ssl_client.c.
-- The whole loop against a relay without buffers and retries.
use mathlib.Core.List.{map}
use hassio_installer.Prelude.{
  ℕ, zero, suc, ◌≤◌, ◌≡◌, refl, ◌∙◌, append-nil, ap, ◌∷◌, [], ◌++◌, List, Bool, true, false, ◌&&◌,
  not, Option, none, some, Bytes, length, All, replicate, arith, if◌then◌else◌,
}
use hassio_installer.SslClient.{
  took, again, got, retry, finished, waiting, copied, fill, copy_from_stdin_to_tls,
  copy_from_tls_to_stdout,
}
use hassio_installer.SslClient.Copies.{length-fill, read_again, copies_whole}
use hassio_installer.SslClient.Session.{
  events, interrupted, Turn, do_poll, buffer_behind, Loop, Relayed, relayed, after, when_finished,
  stdin_turn, tls_turn, next_loop, go_on, on_events, copy_loop,
}

-- What a turn brings: bytes from standard input, bytes from TLS, none of them at the end of either;
-- and how often each call is to be made again.
pub record Heard : Type 0 where
  pub stdin : Option Bytes
  pub tls : Option Bytes
  pub tries : ℕ

abbrev pub ready : Option Bytes → Bool
ready none = false
ready (some s) = true

abbrev pub chunk : Option Bytes → Bytes
chunk none = []
chunk (some s) = s

abbrev pub at_end : Option Bytes → Bool
at_end (some []) = true
at_end _ = false

-- The calls of a turn in which every write takes all that it is given.
abbrev pub turn_of : Heard → Turn
turn_of h = record {
  polls = replicate h.tries interrupted ++ events (ready h.stdin) (ready h.tls) ∷ [];
  reads = replicate h.tries retry ++ got (chunk h.stdin) ∷ [];
  writes = replicate h.tries again ++ took (length (chunk h.stdin)) ∷ [];
  tls_reads = replicate h.tries retry ++ got (chunk h.tls) ∷ [];
  out_writes = took (length (chunk h.tls)) ∷ [];
}

-- The relay: what comes in on one side goes out on the other, until standard input ends, and until
-- TLS does.
unfoldable pub relay : Bool → List Heard → Relayed
relay stays [] = relayed [] [] waiting
relay stays (h ∷ hs) =
    let rest = relay (stays && not (at_end h.stdin)) hs in
    after (if stays then chunk h.stdin else []) (chunk h.tls)
      (if at_end h.tls then relayed [] [] finished else rest)

abbrev pub Within : ℕ → Heard → Type 0
Within n h = (length (chunk h.stdin) ≤ n) × (length (chunk h.tls) ≤ n)

do_poll-tries :
    (k : ℕ) (stdin tls : Bool)
    → do_poll (replicate k interrupted ++ events stdin tls ∷ []) ≡ (finished, some (stdin, tls))
unfolding do_poll
do_poll-tries zero stdin tls = refl
do_poll-tries (suc k) stdin tls = do_poll-tries k stdin tls

buffer_behind-tries :
    (k : ℕ) (s buf : Bytes) → buffer_behind buf (replicate k retry ++ got s ∷ []) ≡ fill s buf
unfolding buffer_behind
buffer_behind-tries zero s buf = refl
buffer_behind-tries (suc k) s buf = buffer_behind-tries k s buf

up_of :
    (k : ℕ) (s buf : Bytes)
    → length s ≤ length buf
    → copy_from_stdin_to_tls buf
        (replicate k retry ++ got s ∷ [])
        (replicate k again ++ took (length s) ∷ [])
      ≡ (not (at_end (some s)), copied s finished)
unfolding copy_from_stdin_to_tls
up_of k [] buf h = (read_again k buf (got [] ∷ []) _).0
up_of k (c ∷ s) buf h = (copies_whole buf s c k k h).0

down_of :
    (k : ℕ) (s buf : Bytes)
    → length s ≤ length buf
    → copy_from_tls_to_stdout buf (replicate k retry ++ got s ∷ []) (took (length s) ∷ [])
      ≡ (at_end (some s), copied s finished)
unfolding copy_from_tls_to_stdout
down_of k [] buf h = (read_again k buf (got [] ∷ []) _).1
down_of k (c ∷ s) buf h = (copies_whole buf s c k zero h).1

abbrev loop : Bytes → Bytes → Bool → Loop
loop b b' stays = record { to_tls = b; to_stdout = b'; stdin_open = stays }

stdin_turn-heard :
    (b b' : Bytes) (stays : Bool) (o t : Option Bytes) (k : ℕ)
    → length (chunk o) ≤ length b
    → stdin_turn
        (loop b b' stays)
        (ready o && stays)
        (turn_of (record { stdin = o; tls = t; tries = k }))
      ≡ (stays && not (at_end o), copied (if stays then chunk o else []) finished)
unfolding stdin_turn
stdin_turn-heard b b' true none t k h = refl
stdin_turn-heard b b' false none t k h = refl
stdin_turn-heard b b' false (some s) t k h = refl
stdin_turn-heard b b' true (some s) t k h = up_of k s b h

tls_turn-heard :
    (l : Loop) (o t : Option Bytes) (k : ℕ)
    → length (chunk t) ≤ length l.to_stdout
    → tls_turn l (ready t) (turn_of (record { stdin = o; tls = t; tries = k }))
      ≡ (at_end t, copied (chunk t) finished)
unfolding tls_turn
tls_turn-heard l o none k h = refl
tls_turn-heard l o (some s) k h = down_of k s l.to_stdout h

length-next :
    (b : Bytes) (test : Bool) (k : ℕ) (s : Bytes)
    → length s ≤ length b
    → length (if test then buffer_behind b (replicate k retry ++ got s ∷ []) else b) ≡ length b
length-next b false k s h = refl
length-next b true k s h = rw (buffer_behind-tries k s b) (length-fill s b h)

after_both :
    (over : Bool) (up down : Bytes) (rest rest' : Relayed)
    → rest ≡ rest'
    → after up [] (after [] down (go_on over rest))
      ≡ after up down (if over then relayed [] [] finished else rest')
unfolding go_on
after_both true up down rest rest' e = refl
after_both false up down rest rest' e = ap (after up down) e

-- While every write takes what it is given, and no read brings more than the buffers hold, the loop
-- with its buffers, interrupted polls and calls made again is the relay: standard input goes to TLS
-- until it ends, TLS goes to standard output, in order and whole, and the loop ends where TLS does.
pub copy_loop-relay :
    (l : Loop) (n : ℕ) (hs : List Heard)
    → n ≤ length l.to_tls
    → n ≤ length l.to_stdout
    → All (Within n) hs
    → copy_loop l (map turn_of hs) ≡ relay l.stdin_open hs
unfolding copy_loop on_events relay when_finished next_loop
copy_loop-relay l n [] up down w = refl
copy_loop-relay l n (h ∷ hs) up down ((u, d), ws) =
    let t = turn_of h in
    let l' =
      next_loop l (l.stdin_open && not (at_end h.stdin)) (ready h.stdin && l.stdin_open)
        (ready h.tls) t in
    let wide : length l'.to_tls ≡ length l.to_tls =
      length-next l.to_tls (ready h.stdin && l.stdin_open) h.tries (chunk h.stdin) (omega arith) in
    let wide' : length l'.to_stdout ≡ length l.to_stdout =
      length-next l.to_stdout (ready h.tls) h.tries (chunk h.tls) (omega arith) in
    let rest = copy_loop-relay l' n hs (omega arith) (omega arith) ws in
    rw
      (
        do_poll-tries h.tries (ready h.stdin) (ready h.tls),
        stdin_turn-heard l.to_tls l.to_stdout l.stdin_open h.stdin h.tls h.tries (omega arith),
        tls_turn-heard l h.stdin h.tls h.tries (omega arith),
      )
      (after_both (at_end h.tls) (if l.stdin_open then chunk h.stdin else []) (chunk h.tls) _ _
        rest)

abbrev pub from_tls : List Heard → Bytes
from_tls [] = []
from_tls (h ∷ hs) = chunk h.tls ++ from_tls hs

abbrev pub TlsOpen : Heard → Type 0
TlsOpen h = at_end h.tls ≡ false

end_chunk : (o : Option Bytes) → at_end o ≡ true → chunk o ≡ []
end_chunk none e = refl
end_chunk (some []) e = refl
end_chunk (some (c ∷ s)) e = absurd (ground arith)

relay-ends :
    (stays : Bool) (hs rest : List Heard) (h : Heard)
    → All TlsOpen hs
    → at_end h.tls ≡ true
    → ((relay stays (hs ++ h ∷ rest)).end ≡ finished)
      × ((relay stays (hs ++ h ∷ rest)).stdout ≡ from_tls hs)
unfolding relay
relay-ends stays [] rest h o e = rw e (refl, append-nil (chunk h.tls) ∙ end_chunk h.tls e)
relay-ends stays (g ∷ hs) rest h (o, os) e =
    let (end, out) = relay-ends (stays && not (at_end g.stdin)) hs rest h os e in
    rw o (end, ap (λ z. chunk g.tls ++ z) out)

-- If TLS ends in some turn, and reads and writes are as in `copy_loop-relay`, the loop ends too,
-- with all that TLS brought up to there, and no more, on standard output.
pub copy_loop-ends :
    (l : Loop) (n : ℕ) (hs rest : List Heard) (h : Heard)
    → n ≤ length l.to_tls
    → n ≤ length l.to_stdout
    → All (Within n) (hs ++ h ∷ rest)
    → All TlsOpen hs
    → at_end h.tls ≡ true
    → ((copy_loop l (map turn_of (hs ++ h ∷ rest))).end ≡ finished)
      × ((copy_loop l (map turn_of (hs ++ h ∷ rest))).stdout ≡ from_tls hs)
copy_loop-ends l n hs rest h up down w os e =
    rw (copy_loop-relay l n (hs ++ h ∷ rest) up down w) (relay-ends l.stdin_open hs rest h os e)
