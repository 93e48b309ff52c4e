-- ===== src/Memory/Ends.antt =====
-- Total correctness of a command: it ends without a fault, and what it returns and leaves behind
-- has the property.
use mathlib.Core.Path.{◌≡◌}
use aic_lib.Memory.{Memory, Outcome, done, fault, Cmd, follow}

pub data Ends {A : Type 0} (P : A → Memory → Type 0) : Outcome A → Type 0 where
  ends : {a : A} {m : Memory} → P a m → Ends P (done a m)

module _ {A : Type 0} {P : A → Memory → Type 0} where
  pub and_then :
      {B : Type 0} {Q : B → Memory → Type 0} {o : Outcome A} {k : A → Cmd B}
      → Ends P o
      → ((a : A) (m : Memory) → P a m → Ends Q (k a m))
      → Ends Q (follow o k)
  and_then (ends p) next = next _ _ p

  pub weaken :
      {Q : A → Memory → Type 0} {o : Outcome A}
      → Ends P o
      → ((a : A) (m : Memory) → P a m → Q a m)
      → Ends Q o
  weaken (ends p) f = ends (f _ _ p)

  -- A fault in what follows is a fault of the whole.
  pub and_then-fault :
      {B : Type 0} {o : Outcome A} {k : A → Cmd B}
      → Ends P o
      → ((a : A) (m : Memory) → P a m → k a m ≡ fault)
      → follow o k ≡ fault
  and_then-fault (ends p) next = next _ _ p
