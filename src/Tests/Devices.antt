-- ===== src/Tests/Devices.antt =====
-- A PPS device that has an event for a caller who waits, and none within a timeout.
use hassio_installer.Prelude.{
  ℕ, ◌≡◌, ◌≢◌, ◌⊎◌, refl, Option, none, some, arith, ◌==◌, if◌then◌else◌,
}
use hassio_installer.Prelude.Int.{ℤ, pos, negsuc}
use hassio_installer.Timepps.{
  Timespec, Ktime, Kinfo, Fdata, Kernel, time_pps_fetch, refused, einval,
}
use hassio_installer.Timepps.Fetch.{Waits, answer, outcome, told, time_pps_fetch-outcome}

abbrev zero_time : Ktime
zero_time = record { sec = 0; nsec = 0; flags = 0 }

abbrev second : Kinfo
second = record {
  assert_sequence = 8;
  clear_sequence = 7;
  assert_tu = record { sec = 1700000000; nsec = 12; flags = 0 };
  clear_tu = record { sec = 1699999999; nsec = 500000012; flags = 0 };
  current_mode = 1;
}

abbrev left_over : Fdata
left_over = record { info = record second { assert_sequence = 77 }; timeout = zero_time }

abbrev wait : Option Timespec → ℤ × Kinfo × ℕ
wait none = (pos 0, second, 9)
wait (some t) = (negsuc 0, second, 0)

abbrev device : Kernel ℕ
device = record {
  pps_getparams = λ s h stack. (pos 0, stack);
  pps_setparams = λ s h p. (pos 0, s);
  pps_getcap = λ s h m. (pos 0, 0);
  pps_fetch = λ s h f. answer f (
      if f.timeout.flags == 1
      then wait none
      else wait (some (record { tv_sec = f.timeout.sec; tv_nsec = f.timeout.nsec })));
  close = λ s h. (pos 0, s);
  pps_kc_bind = none;
  tsfmt_tspec = 4096;
  time_invalid = 1;
}

device-Waits : Waits device 5 3 wait
device-Waits = record { timed = λ f e. rw e refl; forever = λ f e. rw e refl }

abbrev format : ℕ
format = 4096

time_pps_fetch-outcome_example :
    ((format ≡ format)
      × (time_pps_fetch device 5 3 format (told left_over.info) none left_over
          ≡ outcome (wait none) left_over.info))
    ⊎ ((format ≢ format)
        × (time_pps_fetch device 5 3 format (told left_over.info) none left_over
            ≡ (refused einval, told left_over.info, 5)))
time_pps_fetch-outcome_example =
    time_pps_fetch-outcome device 5 3 format (told left_over.info) wait none left_over device-Waits
      tt (λ e. (omega arith, omega arith))
