-- ===== src/SslClient/Session.antt =====
-- vols/build/aports/main/busybox/ssl_client.c: the poll loop, the options and the setup of the
-- connection. The results of poll() and of the copies' calls come turn by turn; turns that are used
-- up leave the loop waiting. The calls of libssl that may fail are a record of their answers, and
-- the calls that were made are returned in order. What getopt() answers is a list.
use hassio_installer.Prelude.{
  ℕ, Bool, true, false, ◌&&◌, not, Option, none, some, List, [], ◌∷◌, ◌++◌, Bytes, if◌then◌else◌,
}
use hassio_installer.Prelude.Int.{ℤ, pos}
use hassio_installer.SslClient.{
  Wrote, Got, got, retry, broken, End, finished, fatal, waiting, outside, Copied, copied, fill,
  copy_from_stdin_to_tls, copy_from_tls_to_stdout,
}

-- One call of poll(): which of the descriptors have events, EINTR or ENOMEM, or another error.
pub data Polled : Type 0 where
  events : Bool → Bool → Polled
  interrupted bad : Polled

-- The results of the calls of one turn of `copy_loop`.
pub record Turn : Type 0 where
  pub polls : List Polled
  pub reads : List Got
  pub writes : List Wrote
  pub tls_reads : List Got
  pub out_writes : List Wrote

-- `none` where the program ends or waits, with how.
unfoldable pub do_poll : List Polled → End × Option (Bool × Bool)
do_poll [] = (waiting, none)
do_poll (events stdin tls ∷ polls) = (finished, some (stdin, tls))
do_poll (interrupted ∷ polls) = do_poll polls
do_poll (bad ∷ polls) = (fatal, none)

-- The static buffer behind the read of a copy.
unfoldable pub buffer_behind : Bytes → List Got → Bytes
buffer_behind buf [] = buf
buffer_behind buf (retry ∷ reads) = buffer_behind buf reads
buffer_behind buf (broken ∷ reads) = buf
buffer_behind buf (got s ∷ reads) = fill s buf

-- The two buffers, and whether fds[0].fd is still that of standard input: poll() gives no events
-- for a descriptor of -1.
pub record Loop : Type 0 where
  pub to_tls : Bytes
  pub to_stdout : Bytes
  pub stdin_open : Bool

pub record Relayed : Type 0 where
  pub tls : Bytes
  pub stdout : Bytes
  pub end : End

abbrev pub relayed : Bytes → Bytes → End → Relayed
relayed s t e = record { tls = s; stdout = t; end = e }

abbrev pub after : Bytes → Bytes → Relayed → Relayed
after s t r = relayed (s ++ r.tls) (t ++ r.stdout) r.end

-- A copy that did not finish ends the program there.
unfoldable pub when_finished : Bytes → Bytes → End → Relayed → Relayed
when_finished s t finished r = after s t r
when_finished s t e r = relayed s t e

-- `if (fds[0].revents) ...`: whether the descriptor stays, and the copy.
unfoldable pub stdin_turn : Loop → Bool → Turn → Bool × Copied
unfolding copy_from_stdin_to_tls
stdin_turn l true t = copy_from_stdin_to_tls l.to_tls t.reads t.writes
stdin_turn l false t = (l.stdin_open, copied [] finished)

-- `fds[1].revents && copy_from_tls_to_stdout(ssl)`
unfoldable pub tls_turn : Loop → Bool → Turn → Bool × Copied
unfolding copy_from_tls_to_stdout
tls_turn l true t = copy_from_tls_to_stdout l.to_stdout t.tls_reads t.out_writes
tls_turn l false t = (false, copied [] finished)

unfoldable pub next_loop : Loop → Bool → Bool → Bool → Turn → Loop
unfolding buffer_behind
next_loop l stays input output t = record {
  to_tls = if input then buffer_behind l.to_tls t.reads else l.to_tls;
  to_stdout = if output then buffer_behind l.to_stdout t.tls_reads else l.to_stdout;
  stdin_open = stays;
}

-- The loop breaks where the connection is at its end.
unfoldable pub go_on : Bool → Relayed → Relayed
go_on true rest = relayed [] [] finished
go_on false rest = rest

unfoldable pub on_events : (Loop → Relayed) → Loop → Turn → End × Option (Bool × Bool) → Relayed
unfolding stdin_turn tls_turn next_loop when_finished go_on
on_events again l t (e, none) = relayed [] [] e
on_events again l t (e, some (stdin, tls)) =
    let input = stdin && l.stdin_open in
    let (stays, up) = stdin_turn l input t in
    let (over, down) = tls_turn l tls t in
    when_finished up.sent [] up.end
      (when_finished [] down.sent down.end (go_on over (again (next_loop l stays input tls t))))

unfoldable pub copy_loop : Loop → List Turn → Relayed
unfolding on_events do_poll
copy_loop l [] = relayed [] [] waiting
copy_loop l (t ∷ ts) = on_events (λ l'. copy_loop l' ts) l t (do_poll t.polls)

-- What getopt() answers, with its argument; that of -s as atoi() reads it.
pub data Flag : Type 0 where
  help insecure unknown : Flag
  socket : ℤ → Flag
  name : Bytes → Flag

pub record Options : Type 0 where
  pub sfd : ℤ
  pub sni : Option Bytes
  pub insecure : Bool

-- `none` with the status of `usage`.
pub data Parsed : Type 0 where
  usage : ℕ → Parsed
  options : Options → Parsed

unfoldable pub parse : List Flag → Options → Parsed
parse [] o = options o
parse (help ∷ flags) o = usage 0
parse (unknown ∷ flags) o = usage 1
parse (insecure ∷ flags) o = parse flags (record o { insecure = true })
parse (socket fd ∷ flags) o = parse flags (record o { sfd = fd })
parse (name s ∷ flags) o = parse flags (record o { sni = some s })

-- The calls of libssl that configure the connection.
pub data Call : Type 0 where
  ctx_new verify_paths ssl_new auto_retry no_partial_wildcards verify_peer connect : Call
  set_fd : ℤ → Call
  server_name host : Option Bytes → Call

-- Which of the calls that may fail succeed.
pub record Tls : Type 0 where
  pub ctx_made : Bool
  pub ssl_made : Bool
  pub name_set : Option Bytes → Bool
  pub host_set : Option Bytes → Bool
  pub connected : Bool

-- The calls made, and whether none failed; `ssl_fatal` ends the program at the one that did.
unfoldable pub setup : Tls → Options → List Call × Bool
setup tls o =
    let made =
      ctx_new
      ∷ verify_paths
      ∷ ssl_new
      ∷ set_fd o.sfd
      ∷ auto_retry
      ∷ no_partial_wildcards
      ∷ server_name o.sni
      ∷ [] in
    let hosted = made ++ host o.sni ∷ [] in
    let checked = hosted ++ (if not o.insecure then verify_peer ∷ [] else []) in
    if not tls.ctx_made
    then (ctx_new ∷ [], false)
    else if not tls.ssl_made
    then (ctx_new ∷ verify_paths ∷ ssl_new ∷ [], false)
    else if not (tls.name_set o.sni)
    then (made, false)
    else if not (tls.host_set o.sni)
    then (hosted, false)
    else (checked ++ connect ∷ [], tls.connected)

-- A status of the program; `none` where it ends or waits in `copy_loop`.
pub record Run : Type 0 where
  pub calls : List Call
  pub moved : Relayed
  pub status : Option ℕ

abbrev pub default : Options
default = record { sfd = pos 1; sni = none; insecure = false }

unfoldable pub loop_status : End → Option ℕ
loop_status finished = some 0
loop_status fatal = some 1
loop_status waiting = none
loop_status outside = none

unfoldable pub connected_run : List Call → Relayed → Run
unfolding loop_status
connected_run calls r = record { calls = calls; moved = r; status = loop_status r.end }

unfoldable pub main : Tls → Loop → List Flag → List Turn → Run
unfolding parse setup copy_loop connected_run
main tls l flags turns = elim (parse flags default) [
  | usage n ↦ record { calls = []; moved = relayed [] [] waiting; status = some n }
  | options o ↦
      let (calls, up) = setup tls o in
      if up
      then connected_run calls (copy_loop l turns)
      else record { calls = calls; moved = relayed [] [] waiting; status = some 1 }
]
