-- ===== src/CString/Compare.antt =====
-- `strcmp`, `strncmp`, `strcasecmp` and `strncasecmp` against the order of the strings as lists.
use aic_lib.Base.{
  ℕ, zero, suc, ◌<◌, ◌≡◌, ◌≢◌, refl, List, [], ◌∷◌, map, arith, length, take, All, ◌==◌, ltb,
  ltb→lt, Bool-cases, sym, true, inl, inr, if◌then◌else◌,
}
use aic_lib.Base.Int.{ℤ, pos, sub_ℕ, ltb_ℤ}
use aic_lib.Memory.{Ptr, Memory, done, load}
use aic_lib.Memory.Region.{IsString}
use aic_lib.CString.{strcmp, strncmp, fold_case, strcasecmp, strncasecmp}

-- The difference of the first two bytes that differ, where a string ends in a zero byte.
unfoldable pub difference : List ℕ → List ℕ → ℤ
difference [] [] = pos 0
difference [] (y ∷ ys) = sub_ℕ 0 y
difference (x ∷ xs) [] = sub_ℕ x 0
difference (x ∷ xs) (y ∷ ys) = if x == y then difference xs ys else sub_ℕ x y

strcmp_lem :
    (k : ℕ) (s t : Ptr) (m : Memory) (xs ys : List ℕ)
    → IsString m s xs
    → IsString m t ys
    → length xs < k
    → strcmp k s t m ≡ done (difference xs ys) m
unfolding strcmp load difference
strcmp_lem zero s t m xs ys hx hy lt = absurd (omega arith)
strcmp_lem (suc k) s t m [] [] hx hy lt = ground arith
strcmp_lem (suc k) s t m [] (y ∷ ys) hx hy lt = ground arith
strcmp_lem (suc k) s t m (x ∷ xs) [] hx hy lt = ground arith
strcmp_lem (suc k) s t m (x ∷ xs) (y ∷ ys) hx hy lt =
    ground (arith, strcmp_lem k (suc s) (suc t) m xs ys)

abbrev pub NonZero : List ℕ → Type 0
NonZero = All (λ x. x ≢ 0)

pub IsString-NonZero : (m : Memory) (p : Ptr) (xs : List ℕ) → IsString m p xs → NonZero xs
IsString-NonZero m p [] h = tt
IsString-NonZero m p (x ∷ xs) (at, ne, h) = (ne, IsString-NonZero m (suc p) xs h)

-- The order of a dictionary: the first byte that differs decides, and a prefix comes first.
pub data Before : List ℕ → List ℕ → Type 0 where
  prefix : {y : ℕ} {ys : List ℕ} → Before [] (y ∷ ys)
  smaller : {x y : ℕ} {xs ys : List ℕ} → x < y → Before (x ∷ xs) (y ∷ ys)
  later : {x y : ℕ} {xs ys : List ℕ} → x ≡ y → Before xs ys → Before (x ∷ xs) (y ∷ ys)

-- What the sign of a comparison says.
pub data Compares (xs ys : List ℕ) (r : ℤ) : Type 0 where
  equal : r ≡ pos 0 → xs ≡ ys → Compares xs ys r
  less : ltb_ℤ r (pos 0) ≡ true → Before xs ys → Compares xs ys r
  greater : ltb_ℤ (pos 0) r ≡ true → Before ys xs → Compares xs ys r

Compares-cons :
    (x y : ℕ) (xs ys : List ℕ) {r : ℤ} → x ≡ y → Compares xs ys r → Compares (x ∷ xs) (y ∷ ys) r
Compares-cons x y xs ys e (equal z h) = equal z (cc)
Compares-cons x y xs ys e (less z h) = less z (later e h)
Compares-cons x y xs ys e (greater z h) = greater z (later (sym e) h)

Compares-differ : (x y : ℕ) (xs ys : List ℕ) → x ≢ y → Compares (x ∷ xs) (y ∷ ys) (sub_ℕ x y)
Compares-differ x y xs ys ne = elim (Bool-cases (ltb x y)) [
  | inl lt ↦ less (ground arith) (smaller (ltb→lt x y lt))
  | inr ge ↦ greater (ground arith) (smaller (ground arith))
]

difference-Compares : (xs ys : List ℕ) → NonZero xs → NonZero ys → Compares xs ys (difference xs ys)
unfolding difference
difference-Compares [] [] hx hy = equal refl refl
difference-Compares [] (y ∷ ys) hx hy = less (ground arith) prefix
difference-Compares (x ∷ xs) [] hx hy = greater (ground arith) prefix
difference-Compares (x ∷ xs) (y ∷ ys) hx hy = elim (Bool-cases (x == y)) [
  | inl e ↦ rw e (Compares-cons x y xs ys (ground arith) (difference-Compares xs ys hx.1 hy.1))
  | inr ne ↦ rw ne (Compares-differ x y xs ys (ground arith))
]

-- On two C strings, with fuel for the first, `strcmp` touches no unmapped address and changes
-- nothing. Its result is zero only if the strings are equal, negative only if the first comes
-- before the second in the order of a dictionary, and positive only if it comes after it.
pub strcmp-Compares :
    (k : ℕ) (s t : Ptr) (m : Memory) (xs ys : List ℕ)
    → IsString m s xs
    → IsString m t ys
    → length xs < k
    → (r : ℤ) × (strcmp k s t m ≡ done r m) × Compares xs ys r
strcmp-Compares k s t m xs ys hx hy lt = (
  difference xs ys,
  strcmp_lem k s t m xs ys hx hy lt,
  difference-Compares xs ys (IsString-NonZero m s xs hx) (IsString-NonZero m t ys hy),
)

-- On two C strings, `strncmp` returns the difference of the first two bytes that differ among the
-- first `n`, where a string that ends counts as going on with a zero byte, and zero if none do.
pub strncmp-take :
    (n : ℕ) (s t : Ptr) (m : Memory) (xs ys : List ℕ)
    → IsString m s xs
    → IsString m t ys
    → strncmp s t n m ≡ done (difference (take n xs) (take n ys)) m
unfolding strncmp load difference
strncmp-take zero s t m xs ys hx hy = refl
strncmp-take (suc n) s t m [] [] hx hy = ground arith
strncmp-take (suc n) s t m [] (y ∷ ys) hx hy = ground arith
strncmp-take (suc n) s t m (x ∷ xs) [] hx hy = ground arith
strncmp-take (suc n) s t m (x ∷ xs) (y ∷ ys) hx hy =
    ground (arith, strncmp-take n (suc s) (suc t) m xs ys)

-- On two C strings, `strcasecmp` returns the difference of the first two bytes that differ once
-- the capital letters are made small, and zero if none do.
pub strcasecmp-difference :
    (k : ℕ) (s t : Ptr) (m : Memory) (xs ys : List ℕ)
    → IsString m s xs
    → IsString m t ys
    → length xs < k
    → strcasecmp k s t m ≡ done (difference (map fold_case xs) (map fold_case ys)) m
unfolding strcasecmp load difference
strcasecmp-difference zero s t m xs ys hx hy lt = absurd (omega arith)
strcasecmp-difference (suc k) s t m [] [] hx hy lt = ground arith
strcasecmp-difference (suc k) s t m [] (y ∷ ys) hx hy lt = ground arith
strcasecmp-difference (suc k) s t m (x ∷ xs) [] hx hy lt = ground arith
strcasecmp-difference (suc k) s t m (x ∷ xs) (y ∷ ys) hx hy lt =
    ground (arith, strcasecmp-difference k (suc s) (suc t) m xs ys)

-- On two C strings, `strncasecmp` does so on the first `n` bytes of each.
pub strncasecmp-difference :
    (n : ℕ) (s t : Ptr) (m : Memory) (xs ys : List ℕ)
    → IsString m s xs
    → IsString m t ys
    → strncasecmp s t n m
      ≡ done (difference (map fold_case (take n xs)) (map fold_case (take n ys))) m
unfolding strncasecmp load difference
strncasecmp-difference zero s t m xs ys hx hy = refl
strncasecmp-difference (suc n) s t m [] [] hx hy = ground arith
strncasecmp-difference (suc n) s t m [] (y ∷ ys) hx hy = ground arith
strncasecmp-difference (suc n) s t m (x ∷ xs) [] hx hy = ground arith
strncasecmp-difference (suc n) s t m (x ∷ xs) (y ∷ ys) hx hy =
    ground (arith, strncasecmp-difference n (suc s) (suc t) m xs ys)
