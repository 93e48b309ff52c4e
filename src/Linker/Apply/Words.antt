-- ===== src/Linker/Apply/Words.antt =====
-- Words of several bytes in memory.
use aic_lib.Base.{
  ℕ, zero, suc, ◌+◌, ◌*◌, ◌/◌, ◌%◌, ◌^◌, ◌≡◌, ◌≢◌, ◌<◌, ◌≤◌, refl, arith, some, ap, inl, inr, ◌∙◌,
}
use native.Mathlib.Nat.{pow-suc}
use aic_lib.Memory.{Ptr, Memory, done, write}
use aic_lib.Memory.Region.{
  Mapped, Mapped-write, SameOutside, Outside, mapped_byte, load-done, store-done, write_same,
  write_other,
}
use aic_lib.Linker.Relocate.{load_word, store_word}

-- A word stored and loaded.
abbrev pub Stored : ℕ → Ptr → ℕ → Memory → Memory → Type 0
Stored w p v m m' =
    (store_word w p v m ≡ done tt m') × (load_word w p m' ≡ done v m') × SameOutside p w m m'

Outside-suc : (p q w : ℕ) → Outside p (suc w) q → Outside (p + 1) w q
Outside-suc p q w (inl lt) = inl (omega arith)
Outside-suc p q w (inr le) = inr (omega arith)

Outside-ne : (p q w : ℕ) → Outside p (suc w) q → q ≢ p
Outside-ne p q w (inl lt) e = omega (arith, e, lt)
Outside-ne p q w (inr le) e = omega (arith, e, le)

pub store_word-Stored :
    (w : ℕ) (p : Ptr) (v : ℕ) (m : Memory)
    → v < 256 ^ w
    → Mapped m p w
    → (m' : Memory) × Stored w p v m m'
unfolding store_word load_word
store_word-Stored zero p v m lt h =
    let e : v ≡ 0 = omega (arith, lt) in (m, (refl, rw e refl, (λ q o. refl)))
store_word-Stored (suc w) p v m lt h =
    let (b, at) = mapped_byte m p (h p (omega arith) (omega arith)) in
    let (m', (st, ld, same)) =
      store_word-Stored w (p + 1) (v / 256) (write m p (v % 256)) (omega (arith, lt, pow-suc 256 w))
        (λ (q : Ptr) (lo : p + 1 ≤ q) (hi : q < p + 1 + w).
          Mapped-write m p (v % 256) p (suc w) h q (omega arith) (omega arith)) in
    let byte : m' p ≡ some (v % 256) = same p (inl (omega arith)) ∙ write_same m p (v % 256) in
    let whole : v % 256 + 256 * (v / 256) ≡ v = omega arith in
    (
      m',
      (
        rw (store-done m p (v % 256) at) st,
        rw (load-done m' p byte, ld) (ap (λ (x : ℕ). done x m') whole),
        (λ q o. same q (Outside-suc p q w o) ∙ write_other m p q (v % 256) (Outside-ne p q w o)),
      ),
    )
