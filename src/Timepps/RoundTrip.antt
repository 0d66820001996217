-- ===== src/Timepps/RoundTrip.antt =====
-- Of timepps.h.
-- Parameters that are set and read again.
use hassio_installer.Prelude.{ℕ, refl, ◌%◌, ◌^◌, ◌<◌, ◌≡◌, true, ◌∙◌, ap, arith, ltb, lt→ltb}
use hassio_installer.Prelude.Int.{pos}
use hassio_installer.Timepps.{
  Timespec, Ktime, Params, Kparams, Kernel, from_kernel, to_kernel, time_pps_getparams,
  time_pps_setparams, widen,
}

abbrev pub instant : Ktime → ℕ × ℕ
instant t = (t.sec, t.nsec)

abbrev pub instant_of : Timespec → ℕ × ℕ
instant_of t = (t.tv_sec, t.tv_nsec)

-- What a device holds. An ioctl that sets parameters with 0 has it hold both offsets, the mode
-- with the bits that the device forces, and the device's own version; one that gets them with 0
-- gives what is held. Both may fail.
pub record Device {S : Type 0} (k : Kernel S) (handle : ℕ) (held : S → Kparams) (version : ℕ)
    (forced : ℕ → ℕ) : Type 0 where
  pub sets :
      (s : S) (p : Kparams)
      → (k.pps_setparams s handle p).0 ≡ pos 0
      → let q = held (k.pps_setparams s handle p).1 in
        (q.api_version ≡ version)
        × (q.mode ≡ forced p.mode)
        × (instant q.assert_off_tu ≡ instant p.assert_off_tu)
        × (instant q.clear_off_tu ≡ instant p.clear_off_tu)
  pub gets :
      (s : S) (stack : Kparams)
      → (k.pps_getparams s handle stack).0 ≡ pos 0
      → (k.pps_getparams s handle stack).1 ≡ held s

abbrev pub Nanoseconds : Timespec → Type 0
Nanoseconds t = t.tv_nsec < 10 ^ 9

in_words : (t : Timespec) (old : Ktime) → Nanoseconds t → instant (to_kernel t old) ≡ instant_of t
in_words t old h =
    let low : t.tv_nsec % 2 ^ 32 ≡ t.tv_nsec = omega arith in ap (λ n. (t.tv_sec, n)) low

and_back : (t : Timespec) (u : Ktime) → Nanoseconds t → instant u ≡ instant_of t → from_kernel u ≡ t
and_back t u h e =
    let small : ltb t.tv_nsec (2 ^ 31) ≡ true = lt→ltb _ _ (omega arith) in
    ap (λ z. record { tv_sec = z.0; tv_nsec = widen z.1 }) e ∙ rw small

-- What `time_pps_getparams` makes of the kernel's answer.
abbrev as_params : Kparams → Params
as_params q = record {
  api_version = q.api_version;
  mode = q.mode;
  assert_offset = from_kernel q.assert_off_tu;
  clear_offset = from_kernel q.clear_off_tu;
}

-- On a device as in `Device`, and for offsets with less than 10^9 nanoseconds: if
-- `time_pps_setparams` returns 0, the device holds the assert offset and the clear offset that it
-- was given, each in its place, and if `time_pps_getparams` behind it returns 0 too, this gives
-- the parameters that were set, with the device's version and the mode with the bits that the
-- device forces, whatever the stack held for both.
pub getparams-setparams :
    {S : Type 0} (k : Kernel S) (handle : ℕ) (held : S → Kparams) (version : ℕ) (forced : ℕ → ℕ)
    → (s : S) (p : Params) (stack stack' : Kparams) → Device k handle held version forced
    → Nanoseconds p.assert_offset
    → Nanoseconds p.clear_offset
    → (time_pps_setparams k s handle p stack).0 ≡ pos 0
    → (time_pps_getparams k (time_pps_setparams k s handle p stack).1 handle stack').0 ≡ pos 0
    → let s' = (time_pps_setparams k s handle p stack).1 in
      (instant (held s').assert_off_tu ≡ instant_of p.assert_offset)
      × (instant (held s').clear_off_tu ≡ instant_of p.clear_offset)
      × ((time_pps_getparams k s' handle stack').1
          ≡ record p { api_version = version; mode = forced p.mode })
unfolding time_pps_setparams time_pps_getparams
getparams-setparams k handle held version forced s p stack stack' d a c set got =
    let q : Kparams = record {
      api_version = p.api_version;
      mode = p.mode;
      assert_off_tu = to_kernel p.assert_offset stack.assert_off_tu;
      clear_off_tu = to_kernel p.clear_offset stack.clear_off_tu;
    } in
    let s' = (k.pps_setparams s handle q).1 in
    let (v, m, x, y) = d.sets s q set in
    let asserted = x ∙ in_words p.assert_offset stack.assert_off_tu a in
    let cleared = y ∙ in_words p.clear_offset stack.clear_off_tu c in
    let back = and_back p.assert_offset (held s').assert_off_tu a asserted in
    let back' = and_back p.clear_offset (held s').clear_off_tu c cleared in
    (asserted, cleared, ap as_params (d.gets s' stack' got) ∙ rw (v, m, back, back') refl)
