-- ===== src/Terminal.antt =====
-- src/termios/termios.c: the settings of a terminal. `struct termios *` is none for `NULL`; what the
-- kernel answers to `pal_ioctl` is a parameter, a negative number for an error.
pub mod Speed
use aic_lib.Base.{
  ℕ, zero, suc, ◌+◌, ◌-◌, ◌^◌, ◌==◌, ltb, if◌then◌else◌, List, Option, none, some, set, bit_and,
  bit_or,
}
use aic_lib.Base.Int.{ℤ, pos, negsuc}

-- `struct termios`, the flags as 64-bit patterns; the other fields are not touched.
pub record Termios : Type 0 where
  pub c_iflag : ℕ
  pub c_oflag : ℕ
  pub c_cflag : ℕ
  pub c_lflag : ℕ
  pub c_cc : List ℕ

abbrev pub einval : ℕ
einval = 22

abbrev pub cbaud : ℕ
cbaud = 0x100f

abbrev pub b4000000 : ℕ
b4000000 = 30

-- What a call returns, and the error number that it sets, if any.
pub record Call : Type 0 where
  pub ret : ℤ
  pub errno : Option ℕ

abbrev pub call_failed : ℕ → Call
call_failed n = record { ret = negsuc 0; errno = some n }

abbrev pub succeeded : Call
succeeded = record { ret = pos 0; errno = none }

-- `if (ret < 0) { errno = (int)(-ret); return -1; }`
unfoldable pub ioctl_call : ℤ → Call
ioctl_call (pos n) = succeeded
ioctl_call (negsuc n) = call_failed (suc n)

-- The requests with an argument that is a number, and those with settings.
pub record Tty : Type 0 where
  pub get_settings : ℤ → ℕ → ℤ × Termios
  pub put_settings : ℤ → ℕ → Termios → ℤ
  pub order : ℤ → ℕ → ℕ → ℤ

unfoldable pub request : ℕ → Option ℕ
request action =
    if action == 0
    then some 0x5402
    else if action == 1
    then some 0x5403
    else if action == 2
    then some 0x5404
    else none

module _ (tty : Tty) where
  -- The settings that the kernel writes are kept where the call succeeds.
  unfoldable pub tcgetattr : ℤ → Option Termios → Call × Option Termios
  unfolding ioctl_call
  tcgetattr fd none = (call_failed einval, none)
  tcgetattr fd (some t) =
      let (ret, t') = tty.get_settings fd 0x5401 in
      elim ret [ pos n ↦ (succeeded, some t') | negsuc n ↦ (call_failed (suc n), some t) ]

  unfoldable pub tcsetattr : ℤ → ℕ → Option Termios → Call
  unfolding request ioctl_call
  tcsetattr fd action none = call_failed einval
  tcsetattr fd action (some t) = elim (request action) [
    | none ↦ call_failed einval
    | some r ↦ ioctl_call (tty.put_settings fd r t)
  ]

  unfoldable pub tcflush : ℤ → ℕ → Call
  unfolding ioctl_call
  tcflush fd queue = ioctl_call (tty.order fd 0x5407 queue)

  unfoldable pub tcflow : ℤ → ℕ → Call
  unfolding ioctl_call
  tcflow fd action = ioctl_call (tty.order fd 0x540a action)

  unfoldable pub tcsendbreak : ℤ → ℕ → Call
  unfolding ioctl_call
  tcsendbreak fd duration = ioctl_call (tty.order fd 0x5409 0)

  unfoldable pub tcdrain : ℤ → Call
  unfolding ioctl_call
  tcdrain fd = ioctl_call (tty.order fd 0x5409 1)

-- The complement in 64 bits, to which the negative constant is extended.
pub complement : ℕ → ℕ
complement mask = 2 ^ 64 - 1 - mask

-- The speed, all ones for `NULL`, and the error number.
unfoldable pub cfgetispeed : Option Termios → ℕ × Option ℕ
cfgetispeed none = (2 ^ 32 - 1, some einval)
cfgetispeed (some t) = (bit_and t.c_cflag cbaud, none)

unfoldable pub cfgetospeed : Option Termios → ℕ × Option ℕ
cfgetospeed none = (2 ^ 32 - 1, some einval)
cfgetospeed (some t) = (bit_and t.c_cflag cbaud, none)

with_speed : Termios → ℕ → Termios
unfolding complement
with_speed t speed = record t {
  c_cflag = bit_or (bit_and t.c_cflag (complement cbaud)) (bit_and speed cbaud);
}

unfoldable pub cfsetispeed : Option Termios → ℕ → Call × Option Termios
unfolding with_speed
cfsetispeed none speed = (call_failed einval, none)
cfsetispeed (some t) speed =
    if ltb b4000000 speed
    then (call_failed einval, some t)
    else (succeeded, some (with_speed t speed))

unfoldable pub cfsetospeed : Option Termios → ℕ → Call × Option Termios
unfolding with_speed
cfsetospeed none speed = (call_failed einval, none)
cfsetospeed (some t) speed =
    if ltb b4000000 speed
    then (call_failed einval, some t)
    else (succeeded, some (with_speed t speed))

unfoldable pub cfmakeraw : Option Termios → Option Termios
unfolding complement
cfmakeraw none = none
cfmakeraw (some t) = some (record t {
  c_iflag = bit_and t.c_iflag (complement 0x5eb);
  c_oflag = bit_and t.c_oflag (complement 1);
  c_lflag = bit_and t.c_lflag (complement 0x804b);
  c_cflag = bit_or (bit_and t.c_cflag (complement 0x130)) 0x30;
  c_cc = set (set t.c_cc 6 1) 5 0;
})
