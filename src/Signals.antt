-- ===== src/Signals.antt =====
-- src/signal/signal.c, the sets of signals: 16 words of 64 bits, of which the first has the signals.
-- `sigset_t *` is none for `NULL`. The other functions of the file call the kernel or do nothing.
pub mod Members
use aic_lib.Base.{
  ℕ, zero, suc, ◌+◌, ◌-◌, ◌/◌, ◌%◌, ◌^◌, Bool, true, false, not, ◌||◌, ◌==◌, ltb, if◌then◌else◌,
  List, Option, none, some, get_or, set, replicate, bit_and, bit_or,
}
use aic_lib.Base.Int.{ℤ, pos, negsuc}

abbrev pub Sigset : Type 0
Sigset = List ℕ

abbrev pub word_count : ℕ
word_count = 16

abbrev pub word_bits : ℕ
word_bits = 64

-- What a function returns, the set, and whether it sets `errno` to `EINVAL`.
pub record Answer : Type 0 where
  pub ret : ℤ
  pub after : Option Sigset
  pub einval : Bool

unfoldable pub invalid : Option Sigset → Answer
invalid before = record { ret = negsuc 0; after = before; einval = true }

unfoldable pub valid : ℕ → Sigset → Answer
valid n s = record { ret = pos n; after = some s; einval = false }

pub complement : ℕ → ℕ
complement a = 2 ^ 64 - 1 - a

unfoldable pub sigemptyset : Option Sigset → Answer
unfolding invalid valid
sigemptyset none = invalid none
sigemptyset (some s) = valid 0 (replicate word_count 0)

unfoldable pub sigfillset : Option Sigset → Answer
unfolding invalid valid
sigfillset none = invalid none
sigfillset (some s) = valid 0 (replicate word_count (2 ^ 64 - 1))

-- `signum <= 0 || signum > 64`, and else `signum - 1`.
unfoldable pub signal_index : ℤ → Option ℕ
signal_index (negsuc n) = none
signal_index (pos zero) = none
signal_index (pos (suc n)) = if ltb n 64 then some n else none

unfoldable pub add_bit : Sigset → ℕ → Sigset
add_bit s i = set s (i / word_bits) (bit_or (get_or s (i / word_bits) 0) (2 ^ (i % word_bits)))

unfoldable pub delete_bit : Sigset → ℕ → Sigset
unfolding complement
delete_bit s i =
    set s (i / word_bits) (bit_and (get_or s (i / word_bits) 0) (complement (2 ^ (i % word_bits))))

unfoldable pub test_bit : Sigset → ℕ → ℕ
test_bit s i = if bit_and (get_or s (i / word_bits) 0) (2 ^ (i % word_bits)) == 0 then 0 else 1

unfoldable pub sigaddset : Option Sigset → ℤ → Answer
unfolding invalid valid signal_index add_bit
sigaddset none signum = invalid none
sigaddset (some s) signum = elim (signal_index signum) [
  | none ↦ invalid (some s)
  | some i ↦ valid 0 (add_bit s i)
]

unfoldable pub sigdelset : Option Sigset → ℤ → Answer
unfolding invalid valid signal_index delete_bit
sigdelset none signum = invalid none
sigdelset (some s) signum = elim (signal_index signum) [
  | none ↦ invalid (some s)
  | some i ↦ valid 0 (delete_bit s i)
]

unfoldable pub sigismember : Option Sigset → ℤ → Answer
unfolding invalid valid signal_index test_bit
sigismember none signum = invalid none
sigismember (some s) signum = elim (signal_index signum) [
  | none ↦ invalid (some s)
  | some i ↦ valid (test_bit s i) s
]
