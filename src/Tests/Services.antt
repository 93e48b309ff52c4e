-- ===== src/Tests/Services.antt =====
-- Dates and buffered output.
use aic_lib.Base.{ℕ, ◌≤◌, ◌≡◌, refl, arith, List, [], ◌∷◌, ◌++◌, some, length}
use aic_lib.Base.Int.{ℤ, pos}
use aic_lib.Calendar.{gmtime_r, mktime}
use aic_lib.Calendar.Roundtrip.{mktime-gmtime_r}
use aic_lib.Stdio.Buffered.{Output, stdout, fflush, put_all, fflush-put_all, buf_size}

-- 2024-02-29 12:00:00.
mktime-gmtime_r_example : mktime (gmtime_r (pos 1709208000)) ≡ some (pos 1709208000)
mktime-gmtime_r_example = mktime-gmtime_r 1709208000 (omega arith)

-- A kernel that keeps what it is given.
abbrev pal_write : ℤ → List ℕ → List ℕ → ℤ × List ℕ
pal_write fd xs w = (pos (length xs), w ++ xs)

abbrev some_output : Output (List ℕ)
some_output = record { stdout_buf = b'h' ∷ b'i' ∷ []; world = [] }

fflush-put_all_example :
    (length (put_all pal_write (b'!' ∷ 10 ∷ b'a' ∷ []) some_output).stdout_buf ≤ buf_size)
    × ((fflush pal_write stdout (put_all pal_write (b'!' ∷ 10 ∷ b'a' ∷ []) some_output)).stdout_buf
        ≡ [])
    × ((fflush pal_write stdout (put_all pal_write (b'!' ∷ 10 ∷ b'a' ∷ []) some_output)).world
        ≡ b'h' ∷ b'i' ∷ b'!' ∷ 10 ∷ b'a' ∷ [])
fflush-put_all_example =
    fflush-put_all pal_write (λ w. w) (λ xs w. refl) some_output (b'!' ∷ 10 ∷ b'a' ∷ [])
      (omega arith)
