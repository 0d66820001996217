-- ===== src/Lib.antt =====
-- The C programs of this repository, under vols/build/aports: the sources that the package
-- recipes carry along. They are separate programs; each part below is one of them, and none calls
-- another, but mk-s390-cdboot and argz.c, which are packed together. The file of each part begins
-- with the path of its source. All paths are from the repository's root.
--
-- Base64: vols/build/aports/main/netcat-openbsd/base64.c. `b64_ntop` and `b64_pton`, with the
-- four states of the decoder as `Phase`, each store and load checked against the target's memory.
-- The tree holds the encoding that RFC 1521 names (Encode), the decoder's rounds and the round
-- trip (Rounds, Decode), what happens to the memory on any string (Safety), what the decoder
-- accepts (Groups, Endings, Canonical), the call without a target (Counting), and both functions
-- in turn (Composed). Encode has a child for a target without room (Full).
--
-- Getconf: vols/build/aports/main/musl/getconf.c. `conf_table` row by row (Table), the five
-- handlers, the loop over the table and `main`; what is printed for a name (Query) and under -a
-- (Listing), and which numbers the system's functions are given (Families).
--
-- Getent: vols/build/aports/main/musl/getent.c. The twelve callbacks over the C library's
-- databases (Databases, with the loops that they share in Replies), `parsenum` (Number), the
-- printers (Print), `databases`, `usage` and `main`; the whole program on the databases that
-- answer keys with entries (Answers), on those of addresses (Addresses), and on any arguments
-- (Program).
--
-- Cdboot: vols/build/aports/main/s390-tools/mk-s390-cdboot.c. The writes and seeks that make an
-- image of a kernel, a ramdisk and a parmfile; where they lie (Layout), what stands in the image
-- (Parts) and the whole program with its options (Flags) and files (Program).
--
-- Argz: vols/build/aports/main/s390-tools/argz.c. Vectors of strings in one block; `IsVector` is
-- the invariant that relates a block to the list of its strings. Replace holds `argz_replace`,
-- with one string (Rewrite), the count (Counts) and the whole vector (Strings). Sep holds the
-- functions that cut a string at a delimiter: its fields (Fields), the loop (Loop), the vectors
-- (Split) and the string back (Joined). Client is a caller of all of these: it reads a vector
-- (Entries), changes it (Changes), and its whole history is one of lists of strings (History).
--
-- Bbsuid: vols/build/aports/main/busybox/bbsuid.c, the setuid front of busybox, in whole.
--
-- Mkmntdirs: vols/build/aports/main/alpine-baselayout/mkmntdirs.c, in whole.
--
-- ChkPwd: vols/build/aports/community/xfce4-screensaver/xfce4-screensaver-chkpwd.c, the check of
-- a password, in whole.
--
-- SslClient: vols/build/aports/main/busybox/ssl_client.c, the two copies of bytes between
-- standard input, TLS and standard output, and the poll loop, the options and the setup
-- (Session); the loop as a relay (Relay) and the calls in front of it (Secure).
--
-- Iconv: vols/build/aports/main/musl/iconv.c, in whole; a file in pieces and at once (Pieces),
-- all operands (Operands), and output that is not written (Lost).
--
-- SendmailSh: vols/build/aports/community/mini-sendmail/sh.c, in whole; the words of a command
-- (Words).
--
-- LegacyError: vols/build/aports/community/musl-legacy-error/error.h; the messages of a run of
-- calls (Printed).
--
-- ErrorHeaders: vols/build/aports/main/elfutils/error.h and vols/build/aports/main/kbd/error.h; a
-- program's calls with these headers and with that of LegacyError (Runs).
--
-- Timepps: vols/build/aports/main/gpsd/timepps.h, the wrappers around the PPS ioctls, which
-- vols/build/aports/main/chrony/timepps.h repeats; parameters set and read again (RoundTrip) and
-- the wait for an event (Fetch).
--
-- Prelude holds what the parts share: tests on native numbers, lists and memory, signed integers
-- and `Outcome`, which is how a call of C code ends: it returns, it touches memory out of bounds,
-- or it calls abort(). Tests applies the theorems to concrete inputs.
--
-- Memory is a list of bytes and a pointer into it is an offset; a C string is its bytes before
-- the '\0', or a whole memory where the code may run off its end. Calls into the C library,
-- libssl and the system are parameters: records of functions, or lists of the results of
-- successive calls. Numbers are those of objects in memory, with `% 2 ^ w` where the source's
-- type can wrap; the overflow of base64.c's int index is a fault.
--
-- Loops are recursion on the data that they walk. These run on fuel: that of mkmntdirs, where the
-- length of the path and one more turn are enough; those of argz_replace, where a turn for each
-- byte and one more are; that of iconv over a file, where the same is enough for files that
-- are valid; that of SendmailSh, where the length of the command and two are; and the wait for a
-- descriptor above 2 in ChkPwd, where four turns are enough if open() finds /dev/null, and a lack
-- of fuel is a result of its own. In argz_replace, iconv and SendmailSh to be out of fuel is a
-- fault.
--
-- Not modelled: the BSD macro headers sys-queue.h and sys-tree.h, which are copies of NetBSD's,
-- the test programs, the declarations of argz.h, stab.h and cifsidmap.h, and everything that is
-- no C: package recipes, patches and shell scripts.
mod Prelude
pub mod Base64
pub mod Getconf
pub mod Getent
pub mod Cdboot
pub mod Argz
pub mod Bbsuid
pub mod Mkmntdirs
pub mod ChkPwd
pub mod SslClient
pub mod Iconv
pub mod SendmailSh
pub mod LegacyError
pub mod ErrorHeaders
pub mod Timepps
mod Tests
