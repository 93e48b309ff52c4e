-- ===== src/Block/Copy.antt =====
-- `memcpy` and `memmove`.
use aic_lib.Base.{
  ℕ, zero, suc, ◌+◌, ◌-◌, ◌<◌, ◌≤◌, ◌≡◌, ◌⊎◌, refl, arith, ltb, ltb→lt, Bool-cases, inl, inr, some,
  ◌==◌, ==_iff, ap,
}
use aic_lib.Memory.{Memory, write}
use aic_lib.Memory.Region.{
  Mapped, SameOutside, Apart, mapped_byte, Mapped-write, load-done, store-done,
}
use aic_lib.Memory.Ends
use aic_lib.Memory.Ends.{Ends, ends}
use aic_lib.Block.{copy_up, copy_down, memcpy, memmove}

-- `m'` is `m` with the `n` bytes from `s` on copied to `d`.
pub record Copied (d s n : ℕ) (m m' : Memory) : Type 0 where
  pub bytes : (i : ℕ) → i < n → m' (d + i) ≡ m (s + i)
  pub same : SameOutside d n m m'

module _ (d s n b : ℕ) (m m' : Memory) where
  -- The first byte, then the others; the write at `d` must leave the others of the source alone.
  pub Copied-first :
      m s ≡ some b
      → (d < s) ⊎ (s + suc n ≤ d)
      → Copied (d + 1) (s + 1) n (write m d b) m'
      → Copied d s (suc n) m m'
  unfolding write
  Copied-first at apart c = record {
    bytes = elim [
      | zero ↦ λ _. ground (arith, c.same d)
      | suc i ↦ λ (lt : suc i < suc n). ground (arith, c.bytes i)
    ];
    same = λ q out. ground (arith, c.same q);
  }

copy_up-Copied :
    (n d s : ℕ) (m : Memory)
    → Mapped m s n
    → Mapped m d n
    → (d < s) ⊎ (s + n ≤ d)
    → Ends (λ _. Copied d s n m) (copy_up n d s m)
unfolding copy_up
copy_up-Copied zero d s m hs hd apart =
    ends (record { bytes = λ i lt. absurd (omega arith); same = λ q out. refl })
copy_up-Copied (suc n) d s m hs hd apart =
    let (b, at) = mapped_byte m s (hs s (omega arith) (omega arith)) in
    let (o, to) = mapped_byte m d (hd d (omega arith) (omega arith)) in
    rw (load-done m s at, store-done m d b to)
      (Ends.weaken
        (copy_up-Copied n (d + 1) (s + 1) (write m d b)
          (Mapped-write m d b (s + 1) n (λ q lo hi. hs q (omega arith) (omega arith)))
          (Mapped-write m d b (d + 1) n (λ q lo hi. hd q (omega arith) (omega arith)))
          (omega arith))
        (λ _ m' c. Copied-first d s n b m m' at apart c))

module _ (d s n b e : ℕ) (m m' : Memory) where
  -- The last byte, then the others.
  Copied-last :
      m (s + n) ≡ some b
      → s ≤ d
      → e ≡ d + n
      → Copied d s n (write m e b) m'
      → Copied d s (suc n) m m'
  unfolding write
  Copied-last at le eq c = record {
    bytes = λ i lt. elim (Bool-cases (i == n)) [
      | inl last ↦ ground (arith, c.same (d + i), ap (λ (j : ℕ). m (s + j)) ((==_iff i n).0 last))
      | inr not_last ↦ ground (arith, c.bytes i)
    ];
    same = λ q out. ground (arith, c.same q);
  }

copy_down-Copied :
    (n d s p q : ℕ) (m : Memory)
    → p ≡ d + n
    → q ≡ s + n
    → Mapped m s n
    → Mapped m d n
    → s ≤ d
    → Ends (λ _. Copied d s n m) (copy_down n p q m)
unfolding copy_down
copy_down-Copied zero d s p q m ep eq hs hd le =
    ends (record { bytes = λ i lt. absurd (omega arith); same = λ r out. refl })
copy_down-Copied (suc n) d s p q m ep eq hs hd le =
    let (b, at) = mapped_byte m (q - 1) (hs (q - 1) (omega arith) (omega arith)) in
    let (o, to) = mapped_byte m (p - 1) (hd (p - 1) (omega arith) (omega arith)) in
    rw (load-done m (q - 1) at, store-done m (p - 1) b to)
      (Ends.weaken
        (copy_down-Copied n d s (p - 1) (q - 1) (write m (p - 1) b) (omega arith) (omega arith)
          (Mapped-write m (p - 1) b s n (λ r lo hi. hs r (omega arith) (omega arith)))
          (Mapped-write m (p - 1) b d n (λ r lo hi. hd r (omega arith) (omega arith))) le)
        (λ _ m' c. Copied-last d s n b (p - 1) m m' (ground (arith, at)) le (omega arith) c))

-- `memcpy` between two mapped blocks that share no address copies the bytes, returns the
-- destination and writes nowhere else.
pub memcpy-Copied :
    (d s n : ℕ) (m : Memory)
    → Mapped m s n
    → Mapped m d n
    → Apart d n s n
    → Ends (λ p m'. (p ≡ d) × Copied d s n m m') (memcpy d s n m)
unfolding memcpy
memcpy-Copied d s zero m hs hd apart =
    ends (refl, record { bytes = λ i lt. absurd (omega arith); same = λ q out. refl })
memcpy-Copied d s (suc n) m hs hd apart =
    Ends.and_then (copy_up-Copied (suc n) d s m hs hd (omega arith)) (λ _ m' c. ends (refl, c))

-- `memmove` between any two mapped blocks, also where they overlap, leaves in each byte of the
-- destination what its source held before the call, returns the destination and writes nowhere
-- else.
pub memmove-Copied :
    (d s n : ℕ) (m : Memory)
    → Mapped m s n
    → Mapped m d n
    → Ends (λ p m'. (p ≡ d) × Copied d s n m m') (memmove d s n m)
unfolding memmove
memmove-Copied d s n m hs hd = elim (Bool-cases (ltb d s)) [
  | inl lt ↦ rw lt (
      Ends.and_then (copy_up-Copied n d s m hs hd (inl (ltb→lt d s lt))) (λ _ m' c. ends (refl, c)))
  | inr ge ↦ rw ge (
      Ends.and_then (copy_down-Copied n d s (d + n) (s + n) m refl refl hs hd (ground arith))
        (λ _ m' c. ends (refl, c)))
]
