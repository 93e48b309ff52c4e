-- ===== src/CString/Length.antt =====
-- `strlen`.
use aic_lib.Base.{ℕ, zero, suc, ◌+◌, ◌<◌, ◌≡◌, List, [], ◌∷◌, arith, length}
use aic_lib.Memory.{Ptr, Memory, done, load}
use aic_lib.Memory.Region.{IsString}
use aic_lib.CString.{strlen_loop, strlen}

strlen_loop-IsString :
    (k : ℕ) (s len p : ℕ) (m : Memory) (xs : List ℕ)
    → p ≡ s + len
    → IsString m p xs
    → length xs < k
    → strlen_loop k s len m ≡ done (len + length xs) m
unfolding strlen_loop load
strlen_loop-IsString zero s len p m xs e h lt = absurd (omega arith)
strlen_loop-IsString (suc k) s len p m [] e h lt = ground arith
strlen_loop-IsString (suc k) s len p m (x ∷ xs) e (at, ne, h) lt =
    ground (arith, strlen_loop-IsString k s (len + 1) (suc p) m xs)

-- On a C string, with fuel for its length, `strlen` touches no unmapped address, changes nothing
-- and returns the number of bytes before the terminator.
pub strlen-IsString :
    (k : ℕ) (s : Ptr) (m : Memory) (xs : List ℕ)
    → IsString m s xs
    → length xs < k
    → strlen k s m ≡ done (length xs) m
unfolding strlen
strlen-IsString k s m xs h lt = ground (arith, strlen_loop-IsString k s 0 s m xs)
