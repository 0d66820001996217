-- ===== src/Timepps/Fetch.antt =====
-- Of timepps.h.
-- What `time_pps_fetch` hands to the kernel and takes from it.
use hassio_installer.Prelude.{
  ℕ, ◌%◌, ◌^◌, ◌<◌, ◌≡◌, ◌≢◌, ◌⊎◌, inl, inr, refl, ◌∙◌, ap, ap₂, true, Option, none, some, arith,
  ltb, lt→ltb, ◌==◌, if◌then◌else◌, Bool-cases,
}
use hassio_installer.Prelude.Int.{ℤ}
use hassio_installer.Timepps.{
  Timespec, Ktime, Info, Kinfo, Fdata, Kernel, complement, from_kernel, einval, refused, returned,
  is_zero, fetch_timeout, time_pps_fetch, Returned,
}

-- The device waits for an event, with a timeout or without: what ioctl() returns, the event and the
-- state behind it. Of the buffer the kernel reads the timeout, which counts if its flags say so,
-- and only a success writes to it.
abbrev pub answer : {S : Type 0} → Fdata → ℤ × Kinfo × S → ℤ × Fdata × S
answer f (i, event, s) = (i, (if is_zero i then record f { info = event } else f), s)

pub record Waits {S : Type 0} (k : Kernel S) (s : S) (handle : ℕ)
    (wait : Option Timespec → ℤ × Kinfo × S) : Type 0 where
  pub timed :
      (f : Fdata)
      → f.timeout.flags ≡ complement k.time_invalid
      → k.pps_fetch s handle f
        ≡ answer f (wait (some (record { tv_sec = f.timeout.sec; tv_nsec = f.timeout.nsec })))
  pub forever :
      (f : Fdata) → f.timeout.flags ≡ k.time_invalid → k.pps_fetch s handle f ≡ answer f (wait none)

-- An event as the caller is to have it.
abbrev pub stamp : Ktime → Timespec
stamp t = record { tv_sec = t.sec; tv_nsec = t.nsec }

abbrev pub told : Kinfo → Info
told e = record {
  assert_sequence = e.assert_sequence;
  clear_sequence = e.clear_sequence;
  assert_timestamp = stamp e.assert_tu;
  clear_timestamp = stamp e.clear_tu;
  current_mode = e.current_mode;
}

-- What is copied from a buffer, with the 32 bits of each number of nanoseconds as they are.
abbrev pub copied : Kinfo → Info
copied e = record (told e) {
  assert_timestamp = from_kernel e.assert_tu;
  clear_timestamp = from_kernel e.clear_tu;
}

abbrev pub Normal : Kinfo → Type 0
Normal e = (e.assert_tu.nsec < 10 ^ 9) × (e.clear_tu.nsec < 10 ^ 9)

from_kernel-stamp : (t : Ktime) → t.nsec < 10 ^ 9 → from_kernel t ≡ stamp t
from_kernel-stamp t h =
    let small : ltb t.nsec (2 ^ 31) ≡ true = lt→ltb _ _ (omega arith) in rw small

copied-told : (e : Kinfo) → Normal e → copied e ≡ told e
copied-told e (a, c) =
    ap₂ (λ x y. record (told e) { assert_timestamp = x; clear_timestamp = y })
      (from_kernel-stamp e.assert_tu a) (from_kernel-stamp e.clear_tu c)

-- A timeout that the kernel's numbers can hold.
abbrev pub Holds : Option Timespec → Type 0
Holds none = Unit
Holds (some t) = t.tv_nsec < 2 ^ 32

-- What the caller is left with.
abbrev pub outcome : {S : Type 0} → ℤ × Kinfo × S → Kinfo → Returned × Info × S
outcome (i, event, s) stack = (returned i, (if is_zero i then told event else copied stack), s)

module _ {S : Type 0} (k : Kernel S) (s : S) (handle : ℕ) (wait : Option Timespec → ℤ × Kinfo × S)
    (waits : Waits k s handle wait) (stack : Fdata) where
  fetched :
      (timeout : Option Timespec)
      → Holds timeout
      → k.pps_fetch s handle (record stack { timeout = fetch_timeout k s timeout stack.timeout })
        ≡ answer (record stack { timeout = fetch_timeout k s timeout stack.timeout }) (wait timeout)
  unfolding fetch_timeout
  fetched none h = waits.forever _ refl
  fetched (some t) h =
      let e : t.tv_nsec % 2 ^ 32 ≡ t.tv_nsec = omega arith in
      waits.timed _ refl
      ∙ ap
          (λ n.
            answer (record stack { timeout = fetch_timeout k s (some t) stack.timeout })
              (wait (some (record { tv_sec = t.tv_sec; tv_nsec = n }))))
          e

-- What is made of the kernel's answer.
abbrev taken : {S : Type 0} → ℤ × Fdata × S → Returned × Info × S
taken (i, f, s) = (returned i, copied f.info, s)

taken-answer :
    {S : Type 0} (f : Fdata) (r : ℤ × Kinfo × S)
    → (is_zero r.0 ≡ true → Normal r.1)
    → taken (answer f r) ≡ outcome r f.info
taken-answer f (i, event, s) normal = elim (Bool-cases (is_zero i)) [
  | inl e ↦ rw (e, copied-told event (normal e))
  | inr e ↦ rw e
]

-- On a device that waits for events, with a timeout of less than 2^32 nanoseconds or none, a call
-- in the format of `struct timespec` returns what the wait for that timeout does, whatever the
-- stack held. If it succeeds the caller has the event, for one with less than 10^9 nanoseconds; if
-- it fails the caller's buffer is overwritten with what the stack held. In another format nothing
-- is asked of the device, and the caller's buffer stays as it was, with EINVAL.
pub time_pps_fetch-outcome :
    {S : Type 0} (k : Kernel S) (s : S) (handle format : ℕ) (info : Info)
    (wait : Option Timespec → ℤ × Kinfo × S) (timeout : Option Timespec) (stack : Fdata)
    → Waits k s handle wait
    → Holds timeout
    → (is_zero (wait timeout).0 ≡ true → Normal (wait timeout).1)
    → ((format ≡ k.tsfmt_tspec)
        × (time_pps_fetch k s handle format info timeout stack ≡ outcome (wait timeout) stack.info))
      ⊎ ((format ≢ k.tsfmt_tspec)
          × (time_pps_fetch k s handle format info timeout stack ≡ (refused einval, info, s)))
unfolding time_pps_fetch
time_pps_fetch-outcome k s handle format info wait timeout stack waits holds normal =
    elim (Bool-cases (format == k.tsfmt_tspec)) [
      | inl e ↦ inl (
        ground arith,
        rw (time_pps_fetch, e)
            (ap taken (fetched k s handle wait waits stack timeout holds)
              ∙ taken-answer _ _ normal),
      )
      | inr e ↦ inr (ground arith, rw e)
    ]
