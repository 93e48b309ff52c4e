-- ===== src/CString/Span.antt =====
-- `strspn`, `strcspn` and `strpbrk`: how far a string stays inside or outside a set of bytes.
use aic_lib.Base.{
  ℕ, zero, suc, ◌+◌, ◌<◌, ◌≡◌, List, [], ◌∷◌, arith, length, ◌==◌, ◌||◌, if◌then◌else◌, Bool, true,
  false,
}
use aic_lib.Memory.{Ptr, null, Memory, done, load}
use aic_lib.Memory.Region.{IsString}
use aic_lib.CString.{in_set, strspn_loop, strspn, strcspn_loop, strcspn, strpbrk_loop, strpbrk}

unfoldable pub member : ℕ → List ℕ → Bool
member c [] = false
member c (x ∷ xs) = (c == x) || member c xs

-- The length of the longest prefix whose bytes are in the set (or, with `false`, are not).
unfoldable pub span : Bool → List ℕ → List ℕ → ℕ
span inside set [] = 0
span true set (x ∷ xs) = if member x set then suc (span true set xs) else 0
span false set (x ∷ xs) = if member x set then 0 else suc (span false set xs)

in_set-member :
    (k : ℕ) (a c : ℕ) (m : Memory) (xs : List ℕ)
    → IsString m a xs
    → length xs < k
    → in_set k a c m ≡ done (member c xs) m
unfolding in_set load member
in_set-member zero a c m xs h lt = absurd (omega arith)
in_set-member (suc k) a c m [] h lt = ground arith
in_set-member (suc k) a c m (x ∷ xs) h lt = ground (arith, in_set-member k (suc a) c m xs)

-- Both strings, with fuel for each.
module _ (j : ℕ) (a : Ptr) (m : Memory) (set : List ℕ) (ha : IsString m a set)
    (lj : length set < j) where
  strspn_loop-span :
      (k : ℕ) (s n : ℕ) (xs : List ℕ)
      → IsString m s xs
      → length xs < k
      → strspn_loop j k s a n m ≡ done (n + span true set xs) m
  unfolding strspn_loop load span
  strspn_loop-span zero s n xs h lt = absurd (omega arith)
  strspn_loop-span (suc k) s n [] h lt = ground arith
  strspn_loop-span (suc k) s n (x ∷ xs) h lt =
      ground (arith, in_set-member j a x m set ha lj, strspn_loop-span k (suc s) (n + 1) xs)

  strcspn_loop-span :
      (k : ℕ) (s n : ℕ) (xs : List ℕ)
      → IsString m s xs
      → length xs < k
      → strcspn_loop j k s a n m ≡ done (n + span false set xs) m
  unfolding strcspn_loop load span
  strcspn_loop-span zero s n xs h lt = absurd (omega arith)
  strcspn_loop-span (suc k) s n [] h lt = ground arith
  strcspn_loop-span (suc k) s n (x ∷ xs) h lt =
      ground (arith, in_set-member j a x m set ha lj, strcspn_loop-span k (suc s) (n + 1) xs)

  strpbrk_loop-span :
      (k : ℕ) (s : ℕ) (xs : List ℕ)
      → IsString m s xs
      → length xs < k
      → strpbrk_loop j k s a m
        ≡ done (if span false set xs == length xs then null else s + span false set xs) m
  unfolding strpbrk_loop load span
  strpbrk_loop-span zero s xs h lt = absurd (omega arith)
  strpbrk_loop-span (suc k) s [] h lt = ground arith
  strpbrk_loop-span (suc k) s (x ∷ xs) h lt =
      ground (arith, in_set-member j a x m set ha lj, strpbrk_loop-span k (suc s) xs)

-- On two C strings, `strspn` returns the length of the longest prefix with bytes of the set only,
-- and `strcspn` that of the longest prefix with none of them.
pub strspn-span :
    (k : ℕ) (s a : Ptr) (m : Memory) (xs set : List ℕ)
    → IsString m s xs
    → IsString m a set
    → length xs < k
    → length set < k
    → (strspn k s a m ≡ done (span true set xs) m) × (strcspn k s a m ≡ done (span false set xs) m)
unfolding strspn strcspn
strspn-span k s a m xs set hx ha lx la = (
  ground (arith, strspn_loop-span k a m set ha la k s 0 xs),
  ground (arith, strcspn_loop-span k a m set ha la k s 0 xs),
)

-- `strpbrk` points at the byte where `strcspn` stops, and is `NULL` if that is the terminator.
pub strpbrk-strcspn :
    (k : ℕ) (s a : Ptr) (m : Memory) (xs set : List ℕ)
    → IsString m s xs
    → IsString m a set
    → length xs < k
    → length set < k
    → (n : ℕ) × (strcspn k s a m ≡ done n m)
      × (strpbrk k s a m ≡ done (if n == length xs then null else s + n) m)
unfolding strpbrk
strpbrk-strcspn k s a m xs set hx ha lx la = (
  span false set xs,
  (strspn-span k s a m xs set hx ha lx la).1,
  strpbrk_loop-span k a m set ha la k s xs hx lx,
)
