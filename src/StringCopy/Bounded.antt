-- ===== src/StringCopy/Bounded.antt =====
-- `strncpy` and `strncat`. The first loop of `strncpy` leaves by its test of the byte just
-- copied, before `n--`, so that the terminator is not counted: on a source shorter than `n`
-- the function writes `n + 1` bytes.
use native.Mathlib.Numerals.{add-one}
use aic_lib.Base.{
  ℕ, zero, suc, ◌+◌, ◌-◌, ◌<◌, ◌≤◌, ◌≡◌, ◌≢◌, ◌⊎◌, refl, arith, inl, inr, sym, ◌∙◌, some, none,
  false, List, [], ◌∷◌, ◌++◌, length, take, All, ◌==◌,
}
use aic_lib.Memory.{Ptr, Memory, write, fault, follow, pure}
use aic_lib.Memory.Region.{
  Holds, Holds-frame, IsString, IsString-end, IsString-frame, Mapped, SameOutside, Apart,
  mapped_byte, Mapped-write, load-done, store-done, write_other,
}
use aic_lib.Memory.Ends
use aic_lib.Memory.Ends.{Ends, ends}
use aic_lib.Block.{memset_loop}
use aic_lib.Block.Fill.{memset_loop-Filled, memset_loop-fault}
use aic_lib.Block.Copy.{Copied, Copied-first}
use aic_lib.StringCopy.{strncpy_loop, strncpy, strncat_loop, strncat}
use aic_lib.StringCopy.Overwrite.{
  Written, Written-nil, Written-cons, find_end-IsString, IsString-append,
}

strncpy_loop-Written :
    (n d s : ℕ) (m : Memory) (xs : List ℕ)
    → IsString m s xs
    → length xs < n
    → Mapped m d (suc (length xs))
    → Apart d (suc (length xs)) s (suc (length xs))
    → Ends
        (λ r m'. (r.0 ≡ d + length xs + 1) × (r.1 + length xs ≡ n) × Written d xs m m')
        (strncpy_loop n d s m)
unfolding strncpy_loop
strncpy_loop-Written zero d s m xs h lt hd apart = absurd (omega arith)
strncpy_loop-Written (suc n) d s m [] h lt hd apart =
    let (o, to) = mapped_byte m d (hd d (omega arith) (omega arith)) in
    rw (load-done m s h, store-done m d 0 to) (ends (omega arith, omega arith, Written-nil d m))
strncpy_loop-Written (suc n) d s m (x ∷ xs) h lt hd apart =
    let (o, to) = mapped_byte m d (hd d (omega arith) (omega arith)) in
    let go : (x == 0) ≡ false = ground (arith, h.1) in
    rw (load-done m s h.0, store-done m d x to, go, add-one d, add-one s)
      (Ends.weaken
        (strncpy_loop-Written n (suc d) (suc s) (write m d x) xs
          (IsString-frame m (write m d x) (suc s) xs (λ q lo hi. write_other m d q x (omega arith))
            h.2)
          (omega arith)
          (Mapped-write m d x (suc d) (suc (length xs))
            (λ q lo hi. hd q (omega arith) (omega arith)))
          (omega arith))
        (λ r m' (e, left, w). (omega arith, omega arith, Written-cons d x xs m m' h.1 w)))

-- On a source shorter than `n`, with `n + 1` mapped bytes at the destination that it does not
-- overlap, `strncpy` leaves the string there, fills up with zeros to the byte with index `n`,
-- included, returns the destination and writes nowhere else.
pub strncpy_short :
    (d s n : ℕ) (m : Memory) (xs : List ℕ)
    → IsString m s xs
    → length xs < n
    → Mapped m d (suc n)
    → Apart d (suc (length xs)) s (suc (length xs))
    → Ends
        (λ p m'.
          (p ≡ d)
          × IsString m' d xs
          × ((q : Ptr) → d + length xs ≤ q → q ≤ d + n → m' q ≡ some 0)
          × SameOutside d (suc n) m m')
        (strncpy d s n m)
unfolding strncpy
strncpy_short d s n m xs h lt hd apart =
    Ends.and_then (strncpy_loop-Written n d s m xs h lt (λ q lo hi. hd q lo (omega arith)) apart)
      (λ (e, left) m₁ (is, sum, w).
        Ends.and_then
          (memset_loop-Filled left e 0 m₁ (λ q lo hi z.
            hd q (omega arith) (omega arith) (sym (w.same q (inr (omega arith))) ∙ z)))
          (λ _ m₂ f. ends (
            refl,
            IsString-frame m₁ m₂ d xs (λ q lo hi. f.same q (inl (omega arith))) w.text,
            λ q lo hi. ground (arith, f.bytes q, f.same q, IsString-end m₁ d xs w.text),
            λ q out. ground (arith, f.same q, w.same q),
          )))

-- `strncpy` into a buffer of exactly `n` bytes, with no mapped byte behind it, faults for
-- every source that is shorter than `n`.
pub strncpy_overrun :
    (d s n : ℕ) (m : Memory) (xs : List ℕ)
    → IsString m s xs
    → length xs < n
    → Mapped m d n
    → Apart d n s (suc (length xs))
    → m (d + n) ≡ none
    → strncpy d s n m ≡ fault
unfolding strncpy
strncpy_overrun d s n m xs h lt hd apart gone =
    Ends.and_then-fault
      (strncpy_loop-Written n d s m xs h lt (λ q lo hi. hd q lo (omega arith)) (omega arith))
      (λ (e, left) m₁ (is, sum, w).
        let at : e + (left - 1) ≡ d + n = omega arith in
        let off =
          memset_loop-fault left e 0 (left - 1) m₁ (omega arith)
            (rw at (w.same (d + n) (inr (omega arith)) ∙ gone)) in
        rw (off, follow))

strncpy_loop-Copied :
    (d s : ℕ) (m : Memory) (xs : List ℕ)
    → Holds m s xs
    → All (λ x. x ≢ 0) xs
    → Mapped m d (length xs)
    → (d < s) ⊎ (s + length xs ≤ d)
    → Ends (λ r m'. (r.1 ≡ 0) × Copied d s (length xs) m m') (strncpy_loop (length xs) d s m)
unfolding strncpy_loop
strncpy_loop-Copied d s m [] h ne hd apart =
    ends (refl, record { bytes = λ i lt. absurd (omega arith); same = λ q out. refl })
strncpy_loop-Copied d s m (x ∷ xs) h ne hd apart =
    let (o, to) = mapped_byte m d (hd d (omega arith) (omega arith)) in
    let go : (x == 0) ≡ false = ground (arith, ne.0) in
    rw (load-done m s h.0, store-done m d x to, go)
      (Ends.weaken
        (strncpy_loop-Copied (d + 1) (s + 1) (write m d x) xs
          (rw (add-one s) (
            Holds-frame m (write m d x) (suc s) xs (λ q lo hi. write_other m d q x (omega arith))
              h.1))
          ne.1
          (Mapped-write m d x (d + 1) (length xs) (λ q lo hi. hd q (omega arith) (omega arith)))
          (omega arith))
        (λ r m' (e, c). (e, Copied-first d s (length xs) x m m' h.0 apart c)))

-- With nothing left the second loop does nothing.
filled_up :
    (d left s n e : ℕ) (m m₁ : Memory)
    → left ≡ 0
    → Copied d s n m m₁
    → Ends (λ p m'. (p ≡ d) × Copied d s n m m') (follow (memset_loop left e 0 m₁) (λ _. pure d))
unfolding memset_loop
filled_up d zero s n e m m₁ used c = ends (refl, c)
filled_up d (suc left) s n e m m₁ used c = absurd (omega arith)

-- From a source that begins with `n` bytes other than zero, terminated or not, `strncpy` copies
-- these `n` bytes with no terminator to mapped memory that they do not overlap, returns the
-- destination and writes nowhere else.
pub strncpy_long :
    (d s : ℕ) (m : Memory) (xs : List ℕ)
    → Holds m s xs
    → All (λ x. x ≢ 0) xs
    → Mapped m d (length xs)
    → Apart d (length xs) s (length xs)
    → Ends (λ p m'. (p ≡ d) × Copied d s (length xs) m m') (strncpy d s (length xs) m)
unfolding strncpy strncpy_loop memset_loop
strncpy_long d s m [] h ne hd apart =
    ends (refl, record { bytes = λ i lt. absurd (omega arith); same = λ q out. refl })
strncpy_long d s m (x ∷ xs) h ne hd apart =
    Ends.and_then (strncpy_loop-Copied d s m (x ∷ xs) h ne hd (omega arith))
      (λ r m₁ (used, c). filled_up d r.1 s (length (x ∷ xs)) r.0 m m₁ used c)

-- The loop of `strncat`, and the terminator that is stored behind it.
strncat_loop-Written :
    (n d s : ℕ) (m : Memory) (xs : List ℕ)
    → IsString m s xs
    → Mapped m d (suc (length (take n xs)))
    → Apart d (suc (length (take n xs))) s (suc (length xs))
    → Ends (λ e m'. (m' e ≢ none) × Written d (take n xs) m (write m' e 0)) (strncat_loop n d s m)
unfolding strncat_loop
strncat_loop-Written zero d s m xs h hd apart =
    ends (hd d (omega arith) (omega arith), Written-nil d m)
strncat_loop-Written (suc n) d s m [] h hd apart =
    rw (load-done m s h) (ends (hd d (omega arith) (omega arith), Written-nil d m))
strncat_loop-Written (suc n) d s m (x ∷ xs) h hd apart =
    let (o, to) = mapped_byte m d (hd d (omega arith) (omega arith)) in
    let go : (x == 0) ≡ false = ground (arith, h.1) in
    rw (load-done m s h.0, go, store-done m d x to, add-one d, add-one s)
      (Ends.weaken
        (strncat_loop-Written n (suc d) (suc s) (write m d x) xs
          (IsString-frame m (write m d x) (suc s) xs (λ q lo hi. write_other m d q x (omega arith))
            h.2)
          (Mapped-write m d x (suc d) (suc (length (take n xs)))
            (λ q lo hi. hd q (omega arith) (omega arith)))
          (omega arith))
        (λ e m' (to', w). (to', Written-cons d x (take n xs) m (write m' e 0) h.1 w)))

-- Of two C strings, with mapped memory behind the first that the second does not overlap,
-- `strncat` leaves the first string, at most `n` bytes of the second, and a terminator at the
-- destination, returns it, and writes only from the first string's terminator on.
pub strncat-append :
    (k d s n : ℕ) (m : Memory) (ys xs : List ℕ)
    → IsString m d ys
    → IsString m s xs
    → length ys < k
    → Mapped m (d + length ys) (suc (length (take n xs)))
    → Apart (d + length ys) (suc (length (take n xs))) s (suc (length xs))
    → Ends
        (λ p m'.
          (p ≡ d)
          × IsString m' d (ys ++ take n xs)
          × SameOutside (d + length ys) (suc (length (take n xs))) m m')
        (strncat k d s n m)
unfolding strncat
strncat-append k d s n m ys xs hy hx ly hd apart = rw (find_end-IsString k d m ys hy ly) (
    Ends.and_then (strncat_loop-Written n (d + length ys) s m xs hx hd apart) (λ e m₁ (to, w).
      let (o, at) = mapped_byte m₁ e to in
      rw (store-done m₁ e 0 at) (
        ends (
          refl,
          IsString-append d (d + length ys) m (write m₁ e 0) ys (take n xs) refl hy
              (λ q lt. w.same q (inl lt)) w.text,
          w.same,
        ))))
