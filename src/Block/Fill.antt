-- ===== src/Block/Fill.antt =====
-- `memset`, `memchr` and `memcmp`.
use aic_lib.Base.{
  ℕ, zero, suc, ◌+◌, ◌%◌, ◌<◌, ◌≤◌, ◌≡◌, refl, arith, some, none, List, [], ◌∷◌, length,
}
use aic_lib.Memory.{Ptr, Memory, write, done, fault, load, store}
use aic_lib.Memory.Region.{Holds, Mapped, SameOutside, mapped_byte, Mapped-write, store-done}
use aic_lib.Memory.Ends
use aic_lib.Memory.Ends.{Ends, ends}
use aic_lib.CString.Compare.{difference}
use aic_lib.CString.Search.{index_of, at_index, at_index-map}
use aic_lib.Block.{memset_loop, memset, memchr_loop, memchr, memcmp}

-- `m'` is `m` with the byte `c` in the `n` bytes from `p` on.
pub record Filled (p c n : ℕ) (m m' : Memory) : Type 0 where
  pub bytes : (q : Ptr) → p ≤ q → q < p + n → m' q ≡ some c
  pub same : SameOutside p n m m'

Filled-first :
    (p c n : ℕ) (m m' : Memory) → Filled (p + 1) c n (write m p c) m' → Filled p c (suc n) m m'
unfolding write
Filled-first p c n m m' f = record {
  bytes = λ q lo hi. ground (arith, f.bytes q, f.same q);
  same = λ q out. ground (arith, f.same q);
}

pub memset_loop-Filled :
    (n p c : ℕ) (m : Memory) → Mapped m p n → Ends (λ _. Filled p c n m) (memset_loop n p c m)
unfolding memset_loop
memset_loop-Filled zero p c m h =
    ends (record { bytes = λ q lo hi. absurd (omega arith); same = λ q out. refl })
memset_loop-Filled (suc n) p c m h =
    let (o, to) = mapped_byte m p (h p (omega arith) (omega arith)) in
    rw (store-done m p c to) (
      Ends.weaken
        (memset_loop-Filled n (p + 1) c (write m p c)
          (Mapped-write m p c (p + 1) n (λ q lo hi. h q (omega arith) (omega arith))))
        (λ _ m' f. Filled-first p c n m m' f))

-- `memset` on a mapped block puts the low byte of `c` everywhere in it, returns its start and
-- writes nowhere else.
pub memset-Filled :
    (s c n : ℕ) (m : Memory)
    → Mapped m s n
    → Ends (λ p m'. (p ≡ s) × Filled s (c % 256) n m m') (memset s c n m)
unfolding memset
memset-Filled s c n m h =
    Ends.and_then (memset_loop-Filled n s (c % 256) m h) (λ _ m' f. ends (refl, f))

memchr_loop-index_of :
    (p c : ℕ) (m : Memory) (xs : List ℕ)
    → Holds m p xs
    → memchr_loop (length xs) p c m ≡ done (at_index p (index_of c xs)) m
unfolding memchr_loop load index_of
memchr_loop-index_of p c m [] h = refl
memchr_loop-index_of p c m (x ∷ xs) h =
    ground (arith, memchr_loop-index_of (suc p) c m xs, at_index-map p (index_of c xs))

-- On a block, `memchr` returns the address of the first byte that equals the low byte of `c`, or
-- `NULL`, and does not change memory.
pub memchr-index_of :
    (s c : ℕ) (m : Memory) (xs : List ℕ)
    → Holds m s xs
    → memchr s c (length xs) m ≡ done (at_index s (index_of (c % 256) xs)) m
unfolding memchr
memchr-index_of s c m xs h = memchr_loop-index_of s (c % 256) m xs h

-- On two blocks of one length, `memcmp` returns the difference of the first two bytes that differ,
-- and zero if none do, and does not change memory.
pub memcmp-difference :
    (p q : Ptr) (m : Memory) (xs ys : List ℕ)
    → Holds m p xs
    → Holds m q ys
    → length xs ≡ length ys
    → memcmp p q (length xs) m ≡ done (difference xs ys) m
unfolding memcmp load difference
memcmp-difference p q m [] [] hx hy e = refl
memcmp-difference p q m [] (y ∷ ys) hx hy e = absurd (omega arith)
memcmp-difference p q m (x ∷ xs) [] hx hy e = absurd (omega arith)
memcmp-difference p q m (x ∷ xs) (y ∷ ys) hx hy e =
    ground (arith, memcmp-difference (suc p) (suc q) m xs ys)

-- A block with a byte that is not mapped cannot be filled.
pub memset_loop-fault :
    (n p c i : ℕ) (m : Memory) → i < n → m (p + i) ≡ none → memset_loop n p c m ≡ fault
unfolding memset_loop store write
memset_loop-fault zero p c i m lt e = absurd (omega arith)
memset_loop-fault (suc n) p c zero m lt e = ground arith
memset_loop-fault (suc n) p c (suc i) m lt e =
    ground (arith, memset_loop-fault n (p + 1) c i (write m p c))
