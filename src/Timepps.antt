-- ===== src/Timepps.antt =====
-- vols/build/aports/main/gpsd/timepps.h: the PPS calls of user programs, wrapped around ioctl().
-- vols/build/aports/main/chrony/timepps.h is the same text. The kernel is a parameter: a state, its
-- four ioctls and close(), and the values of linux/pps.h. Integers are machine words; the kernel's
-- nanoseconds are 32 bits wide where a `struct timespec` has 64. An ioctl takes what its buffer
-- holds, from the stack at first, and gives what it holds then.
pub mod RoundTrip
pub mod Fetch
use hassio_installer.Prelude.{
  ℕ, ◌+◌, ◌-◌, ◌%◌, ◌^◌, Option, none, some, Bool, false, not, ltb, ◌==◌, if◌then◌else◌,
}
use hassio_installer.Prelude.Int.{ℤ, pos, negsuc}

-- `struct timespec`, and the kernel's `struct pps_ktime`.
pub record Timespec : Type 0 where
  pub tv_sec : ℕ
  pub tv_nsec : ℕ

pub record Ktime : Type 0 where
  pub sec : ℕ
  pub nsec : ℕ
  pub flags : ℕ

-- `pps_params_t`, with the `tspec` of each union; `struct pps_kparams`.
pub record Params : Type 0 where
  pub api_version : ℕ
  pub mode : ℕ
  pub assert_offset : Timespec
  pub clear_offset : Timespec

pub record Kparams : Type 0 where
  pub api_version : ℕ
  pub mode : ℕ
  pub assert_off_tu : Ktime
  pub clear_off_tu : Ktime

pub record Info : Type 0 where
  pub assert_sequence : ℕ
  pub clear_sequence : ℕ
  pub assert_timestamp : Timespec
  pub clear_timestamp : Timespec
  pub current_mode : ℕ

pub record Kinfo : Type 0 where
  pub assert_sequence : ℕ
  pub clear_sequence : ℕ
  pub assert_tu : Ktime
  pub clear_tu : Ktime
  pub current_mode : ℕ

pub record Fdata : Type 0 where
  pub info : Kinfo
  pub timeout : Ktime

pub record Kernel (S : Type 0) : Type 0 where
  pub pps_getparams : S → ℕ → Kparams → ℤ × Kparams
  pub pps_setparams : S → ℕ → Kparams → ℤ × S
  pub pps_getcap : S → ℕ → ℕ → ℤ × ℕ
  pub pps_fetch : S → ℕ → Fdata → ℤ × Fdata × S
  pub close : S → ℕ → ℤ × S
  -- Where linux/pps.h has PPS_KC_BIND: the handle, the format, the edge and the consumer.
  pub pps_kc_bind : Option (S → ℕ → ℕ → ℕ → ℕ → ℤ × S)
  pub tsfmt_tspec : ℕ
  pub time_invalid : ℕ

abbrev pub einval : ℕ
einval = 22

abbrev pub eopnotsupp : ℕ
eopnotsupp = 95

-- `~n` on 32 bits, and a signed 32-bit word read into a 64-bit one.
abbrev pub complement : ℕ → ℕ
complement n = 2 ^ 32 - 1 - n

abbrev pub widen : ℕ → ℕ
widen n = if ltb n (2 ^ 31) then n else n + (2 ^ 64 - 2 ^ 32)

abbrev pub from_kernel : Ktime → Timespec
from_kernel t = record { tv_sec = t.sec; tv_nsec = widen t.nsec }

-- The flags stay what the stack held.
abbrev pub to_kernel : Timespec → Ktime → Ktime
to_kernel t old = record { sec = t.tv_sec; nsec = t.tv_nsec % 2 ^ 32; flags = old.flags }

-- A return value, and errno where the wrapper sets it.
pub record Returned : Type 0 where
  pub ret : ℤ
  pub errno : Option ℕ

abbrev pub returned : ℤ → Returned
returned i = record { ret = i; errno = none }

abbrev pub refused : ℕ → Returned
refused e = record { ret = negsuc 0; errno = some e }

abbrev pub is_zero : ℤ → Bool
is_zero (pos n) = n == 0
is_zero (negsuc n) = false

module _ {S : Type 0} (k : Kernel S) (s : S) where
  -- `handle` is NULL or what it points to, and what it points to then is given back.
  unfoldable pub time_pps_create : ℕ → Option ℕ → Kparams → Returned × Option ℕ
  time_pps_create source none stack = (refused einval, none)
  time_pps_create source (some handle) stack =
      if not (is_zero (k.pps_getparams s source stack).0)
      then (refused eopnotsupp, some handle)
      else (returned (pos 0), some source)

  unfoldable pub time_pps_destroy : ℕ → ℤ × S
  time_pps_destroy handle = k.close s handle

  -- The copy is made whatever the ioctl returns.
  unfoldable pub time_pps_getparams : ℕ → Kparams → ℤ × Params
  time_pps_getparams handle stack =
      let got = k.pps_getparams s handle stack in
      (
        got.0,
        record {
          api_version = got.1.api_version;
          mode = got.1.mode;
          assert_offset = from_kernel got.1.assert_off_tu;
          clear_offset = from_kernel got.1.clear_off_tu;
        },
      )

  unfoldable pub time_pps_setparams : ℕ → Params → Kparams → ℤ × S
  time_pps_setparams handle p stack = k.pps_setparams s handle (record {
    api_version = p.api_version;
    mode = p.mode;
    assert_off_tu = to_kernel p.assert_offset stack.assert_off_tu;
    clear_off_tu = to_kernel p.clear_offset stack.clear_off_tu;
  })

  unfoldable pub time_pps_getcap : ℕ → ℕ → ℤ × ℕ
  time_pps_getcap handle mode = k.pps_getcap s handle mode

  -- The timeout that the kernel is given.
  unfoldable pub fetch_timeout : Option Timespec → Ktime → Ktime
  fetch_timeout (some t) stack = record {
    sec = t.tv_sec;
    nsec = t.tv_nsec % 2 ^ 32;
    flags = complement k.time_invalid;
  }
  fetch_timeout none stack = record stack { flags = k.time_invalid }

  unfoldable pub time_pps_fetch : ℕ → ℕ → Info → Option Timespec → Fdata → Returned × Info × S
  unfolding fetch_timeout
  time_pps_fetch handle tsformat info timeout stack =
      if not (tsformat == k.tsfmt_tspec)
      then (refused einval, info, s)
      else let got =
          k.pps_fetch s handle (record stack { timeout = fetch_timeout timeout stack.timeout }) in
        (
          returned got.0,
          record {
            assert_sequence = got.1.info.assert_sequence;
            clear_sequence = got.1.info.clear_sequence;
            assert_timestamp = from_kernel got.1.info.assert_tu;
            clear_timestamp = from_kernel got.1.info.clear_tu;
            current_mode = got.1.info.current_mode;
          },
          got.2,
        )

  unfoldable pub time_pps_kcbind : ℕ → ℕ → ℕ → ℕ → Returned × S
  time_pps_kcbind handle consumer edge tsformat = elim k.pps_kc_bind [
    | none ↦ (refused eopnotsupp, s)
    | some bind ↦ let got = bind s handle tsformat edge consumer in (returned got.0, got.1)
  ]
