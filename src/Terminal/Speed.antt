-- ===== src/Terminal/Speed.antt =====
-- Reading back the speed of a terminal.
use aic_lib.Base.{
  ℕ, zero, suc, ◌+◌, ◌-◌, ◌/◌, ◌%◌, ◌≡◌, ◌<◌, ◌≤◌, min, max, refl, ap, ◌∙◌, arith, true, false, ltb,
  none, some, bit_and, bit_or, bit_and_step,
}
use aic_lib.Base.Positions.{bit, bit-le, bit-and, bit-or, bit-complement, bit_ext, bit_and-lt}
use aic_lib.Terminal.{
  Termios, einval, cbaud, b4000000, call_failed, succeeded, complement, cfgetospeed, with_speed,
  cfsetospeed,
}

and_256 : (a : ℕ) → a ≤ 1 → bit_and a 256 ≡ 0
and_256 zero h = refl
and_256 (suc zero) h = refl
and_256 (suc (suc a)) h = absurd (omega (arith, h))

and_513 : (a : ℕ) → a ≤ 3 → bit_and a 513 ≡ a % 2
and_513 a h = omega (arith, bit_and_step a 513, and_256 (a / 2) (omega (arith, h)))

and_1027 : (a : ℕ) → a ≤ 7 → bit_and a 1027 ≡ a % 4
and_1027 a h = omega (arith, bit_and_step a 1027, and_513 (a / 2) (omega (arith, h)))

and_2055 : (a : ℕ) → a ≤ 15 → bit_and a 2055 ≡ a % 8
and_2055 a h = omega (arith, bit_and_step a 2055, and_1027 (a / 2) (omega (arith, h)))

and_cbaud : (a : ℕ) → a ≤ 30 → bit_and a cbaud ≡ a % 16
and_cbaud a h = omega (arith, bit_and_step a 0x100f, and_2055 (a / 2) (omega (arith, h)))

-- The digits of the two halves of the control flags, put together and masked again.
masked : (c s m : ℕ) → c ≤ 1 → s ≤ 1 → m ≤ 1 → min (max (min c (1 - m)) (min s m)) m ≡ min s m
masked c s m hc hs hm = omega (arith, hc, hs, hm)

unmasked :
    (c s m : ℕ)
    → c ≤ 1
    → s ≤ 1
    → m ≤ 1
    → min (max (min c (1 - m)) (min s m)) (1 - m) ≡ min c (1 - m)
unmasked c s m hc hs hm = omega (arith, hc, hs, hm)

module _ (c speed : ℕ) where
  abbrev joined : ℕ
  joined = bit_or (bit_and c (complement cbaud)) (bit_and speed cbaud)

  digit :
      (i : ℕ)
      → i < 64
      → bit i joined ≡ max (min (bit i c) (1 - bit i cbaud)) (min (bit i speed) (bit i cbaud))
  unfolding complement
  digit i lt =
      let flip = bit-complement 64 i cbaud (omega arith) lt in
      let left = bit-and i c (complement cbaud) in
      let right = bit-and i speed cbaud in
      let both = bit-or i (bit_and c (complement cbaud)) (bit_and speed cbaud) in
      omega (arith, flip, left, right, both)

  joined-speed : bit_and joined cbaud ≡ bit_and speed cbaud
  joined-speed =
      bit_ext 64 _ _ (bit_and-lt 64 joined cbaud (omega arith))
        (bit_and-lt 64 speed cbaud (omega arith))
        (λ i lt.
          let m =
            masked (bit i c) (bit i speed) (bit i cbaud) (bit-le i c) (bit-le i speed)
              (bit-le i cbaud) in
          omega (arith, m, digit i lt, bit-and i joined cbaud, bit-and i speed cbaud))

  joined-rest : bit_and joined (complement cbaud) ≡ bit_and c (complement cbaud)
  unfolding complement
  joined-rest =
      bit_ext 64 _ _ (bit_and-lt 64 joined (complement cbaud) (omega arith))
        (bit_and-lt 64 c (complement cbaud) (omega arith))
        (λ i lt.
          let m =
            unmasked (bit i c) (bit i speed) (bit i cbaud) (bit-le i c) (bit-le i speed)
              (bit-le i cbaud) in
          let flip = bit-complement 64 i cbaud (omega arith) lt in
          omega (
            arith,
            m,
            flip,
            digit i lt,
            bit-and i joined (complement cbaud),
            bit-and i c (complement cbaud),
          ))

-- For a speed up to the largest, `cfsetospeed` succeeds and keeps all flags outside the mask of
-- the speed, but what `cfgetospeed` reads back is the speed modulo 16; for a greater one it fails
-- with `EINVAL` and changes nothing.
pub cfsetospeed-cfgetospeed :
    (t : Termios) (speed more : ℕ)
    → speed ≤ b4000000
    → (t' : Termios) × (cfsetospeed (some t) speed ≡ (succeeded, some t'))
      × (cfgetospeed (some t') ≡ (speed % 16, none))
      × (bit_and t'.c_cflag (complement cbaud) ≡ bit_and t.c_cflag (complement cbaud))
      × (cfsetospeed (some t) (b4000000 + suc more) ≡ (call_failed einval, some t))
unfolding cfsetospeed cfgetospeed with_speed
cfsetospeed-cfgetospeed t speed more le =
    let low : ltb b4000000 speed ≡ false = ground (arith, le) in
    let high : ltb b4000000 (b4000000 + suc more) ≡ true = ground arith in
    (
      with_speed t speed,
      rw low refl,
      ap (λ v. (v, none)) (joined-speed t.c_cflag speed ∙ and_cbaud speed le),
      joined-rest t.c_cflag speed,
      rw high refl,
    )
