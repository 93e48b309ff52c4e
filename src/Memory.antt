-- ===== src/Memory.antt =====
-- The address space of a C program, byte by byte, and the commands that run in it. An address
-- that is not mapped holds `none`, and touching it is a fault.
pub mod Region
pub mod Ends
use aic_lib.Base.{ℕ, Option, none, some, ◌==◌, if◌then◌else◌}

abbrev pub Ptr : Type 0
Ptr = ℕ

abbrev pub null : Ptr
null = 0

abbrev pub Memory : Type 0
Memory = Ptr → Option ℕ

unfoldable pub write : Memory → Ptr → ℕ → Memory
write m p b q = if q == p then some b else m q

-- How a command ends: with a value and the memory that it leaves, by touching an address that is
-- not mapped, or, in the model alone, with a loop that has used up its fuel.
pub data Outcome (A : Type 0) : Type 0 where
  done : A → Memory → Outcome A
  fault : Outcome A
  no_fuel : Outcome A

abbrev pub Cmd : Type 0 → Type 0
Cmd A = Memory → Outcome A

abbrev pub pure : {A : Type 0} → A → Cmd A
pure = done

abbrev pub stuck : {A : Type 0} → Cmd A
stuck m = no_fuel

module _ {A B : Type 0} where
  abbrev pub follow : Outcome A → (A → Cmd B) → Outcome B
  follow (done a m) k = k a m
  follow fault k = fault
  follow no_fuel k = no_fuel

  infixl 5 ◌>>=◌ ◌>>◌
  abbrev pub ◌>>=◌ : Cmd A → (A → Cmd B) → Cmd B
  c >>= k = λ m. follow (c m) k

  abbrev pub ◌>>◌ : Cmd A → Cmd B → Cmd B
  c >> d = c >>= λ _. d

-- `*p`
unfoldable pub load : Ptr → Cmd ℕ
load p m = elim (m p) [ none ↦ fault | some b ↦ done b m ]

-- `*p = b`
unfoldable pub store : Ptr → ℕ → Cmd (Unit {0})
store p b m = elim (m p) [ none ↦ fault | some _ ↦ done tt (write m p b) ]
