-- ===== src/Tokens/Token.antt =====
-- The token that `strtok` cuts off.
use aic_lib.Base.{
  ℕ, zero, suc, ◌+◌, ◌<◌, ◌≤◌, ◌≡◌, ◌≢◌, refl, arith, List, [], ◌∷◌, length, take, drop, ◌==◌,
  if◌then◌else◌, Bool, true, false, Bool-cases, inl, inr, ◌⊎◌, length-drop, take-all, ◌∙◌,
}
use aic_lib.Memory.{Ptr, null, Cmd, pure, ◌>>=◌, follow, Memory, Outcome, done, load, store, write}
use aic_lib.Memory.Region.{IsString, load-done}
use aic_lib.CString.Span.{member, span}
use aic_lib.Tokens.{is_delim, skip_delims, token_end, strtok}

is_delim-member :
    (k c : ℕ) (d : Ptr) (m : Memory) (set : List ℕ)
    → IsString m d set
    → length set < k
    → is_delim k c d m ≡ done (member c set) m
unfolding is_delim load member
is_delim-member zero c d m set h lt = absurd (omega (arith, lt))
is_delim-member (suc k) c d m [] h lt = ground arith
is_delim-member (suc k) c d m (x ∷ set) h lt = ground (arith, is_delim-member k c (suc d) m set)

module _ (d : Ptr) (m : Memory) (set : List ℕ) (hd : IsString m d set) where
  skip_delims-span :
      (k : ℕ) (s : Ptr) (xs : List ℕ)
      → IsString m s xs
      → length xs + length set < k
      → skip_delims k s d m ≡ done (s + span true set xs) m
  unfolding skip_delims load span
  skip_delims-span zero s xs h lt = absurd (omega (arith, lt))
  skip_delims-span (suc k) s [] h lt = ground arith
  skip_delims-span (suc k) s (x ∷ xs) h lt =
      ground (arith, is_delim-member (suc k) x d m set hd, skip_delims-span k (suc s) xs)

  token_end-span :
      (k : ℕ) (s : Ptr) (xs : List ℕ)
      → IsString m s xs
      → length xs + length set < k
      → token_end k s d m ≡ (
          if span false set xs == length xs
          then done null m
          else done (s + span false set xs + 1) (write m (s + span false set xs) 0))
  unfolding token_end load store span
  token_end-span zero s xs h lt = absurd (omega (arith, lt))
  token_end-span (suc k) s [] h lt = ground arith
  token_end-span (suc k) s (x ∷ xs) h lt =
      ground (arith, is_delim-member (suc k) x d m set hd, token_end-span k (suc s) xs)

-- The bytes behind the leading delimiters.
abbrev pub trimmed : List ℕ → List ℕ → List ℕ
trimmed set xs = drop (span true set xs) xs

-- The length of the token.
abbrev pub token_length : List ℕ → List ℕ → ℕ
token_length set xs = span false set (trimmed set xs)

-- The memory behind a call that finds a token at `p`: a delimiter at its end is overwritten.
unfoldable pub cut : List ℕ → List ℕ → Ptr → Memory → Memory
cut set xs p m =
    if token_length set xs == length (trimmed set xs)
    then m
    else write m (p + token_length set xs) 0

span-length : (inside : Bool) (set xs : List ℕ) → span inside set xs ≤ length xs
unfolding span
span-length inside set [] = omega arith
span-length true set (x ∷ xs) = ground (arith, span-length true set xs)
span-length false set (x ∷ xs) = ground (arith, span-length false set xs)

trimmed-IsString :
    (m : Memory) (s : Ptr) (n : ℕ) (xs : List ℕ)
    → n ≤ length xs
    → IsString m s xs
    → IsString m (s + n) (drop n xs)
trimmed-IsString m s zero xs le h = let e : s ≡ s + 0 = omega arith in rw e at h
trimmed-IsString m s (suc n) [] le h = absurd (omega (arith, le))
trimmed-IsString m s (suc n) (x ∷ xs) le h =
    let e : suc s + n ≡ s + suc n = omega arith in
    rw e at (trimmed-IsString m (suc s) n xs (omega (arith, le)) h.2)

write-IsString :
    (m : Memory) (p q : Ptr) (n : ℕ) (ys : List ℕ)
    → q ≡ p + n
    → n ≤ length ys
    → IsString m p ys
    → IsString (write m q 0) p (take n ys)
unfolding write
write-IsString m p q zero ys e le h = ground (arith, e)
write-IsString m p q (suc n) [] e le h = absurd (omega (arith, le))
write-IsString m p q (suc n) (y ∷ ys) e le h = (
  ground (arith, e, h.0),
  h.1,
  write-IsString m (suc p) q n ys (omega (arith, e)) (omega (arith, le)) h.2,
)

-- The last part of `strtok`, from the start of the token on.
from_start : ℕ → Ptr → Ptr → Cmd (Ptr × Ptr)
from_start k p d = do
  first ← load p
  if first == 0 then pure (null, null) else do last ← token_end k p d; pure (p, last)

from_start-none :
    (k : ℕ) (p d : Ptr) (m : Memory) → IsString m p [] → from_start k p d m ≡ done (null, null) m
unfolding from_start
from_start-none k p d m h = rw (load-done m p h) refl

ended : Bool → Ptr → ℕ → Memory → Outcome (Ptr × Ptr)
ended b p n m = done (p, if b then null else p + n + 1) (if b then m else write m (p + n) 0)

ended-follow :
    (b : Bool) (p : Ptr) (n : ℕ) (m : Memory)
    → follow {B = Ptr × Ptr}
        (if b then done null m else done (p + n + 1) (write m (p + n) 0))
        (λ last. pure (p, last))
      ≡ ended b p n m
unfolding ended
ended-follow true p n m = refl
ended-follow false p n m = refl

from_start-token :
    (k : ℕ) (p d : Ptr) (m : Memory) (y : ℕ) (ys set : List ℕ)
    → IsString m p (y ∷ ys)
    → IsString m d set
    → length (y ∷ ys) + length set < k
    → from_start k p d m
      ≡ ended (span false set (y ∷ ys) == length (y ∷ ys)) p (span false set (y ∷ ys)) m
unfolding from_start
from_start-token k p d m y ys set h hd lt =
    let some_byte : (y == 0) ≡ false = let ne = h.1 in ground arith in
    rw (load-done m p h.0, some_byte, token_end-span d m set hd k p (y ∷ ys) h lt)
      (ended-follow (span false set (y ∷ ys) == length (y ∷ ys)) p (span false set (y ∷ ys)) m)

strtok-from_start :
    (k : ℕ) (last s d : Ptr) (m : Memory) (x : ℕ) (xs set : List ℕ)
    → s ≢ 0
    → IsString m s (x ∷ xs)
    → IsString m d set
    → length (x ∷ xs) + length set < k
    → strtok k last s d m ≡ from_start k (s + span true set (x ∷ xs)) d m
unfolding strtok from_start
strtok-from_start k last s d m x xs set ne hx hd lt =
    let start : (s == 0) ≡ false = ground arith in
    let some_byte : (x == 0) ≡ false = let other = hx.1 in ground arith in
    rw (start, start, load-done m s hx.0, some_byte, skip_delims-span d m set hd k s (x ∷ xs) hx lt)
      refl

-- What follows the leading delimiters is empty or begins with a token.
from_start-cases :
    (k : ℕ) (p d : Ptr) (m : Memory) (ys set : List ℕ)
    → IsString m p ys
    → IsString m d set
    → length ys + length set < k
    → ((length ys ≡ 0) × (from_start k p d m ≡ done (null, null) m))
      ⊎ ((length ys ≢ 0)
          × (from_start k p d m ≡ ended (span false set ys == length ys) p (span false set ys) m)
          × IsString
              (if span false set ys == length ys then m else write m (p + span false set ys) 0)
              p
              (take (span false set ys) ys))
from_start-cases k p d m [] set h hd lt = inl (refl, from_start-none k p d m h)
from_start-cases k p d m (y ∷ ys) set h hd lt = inr (
  (λ e. omega (arith, e)),
  from_start-token k p d m y ys set h hd lt,
  elim (Bool-cases (span false set (y ∷ ys) == length (y ∷ ys))) [
    | inl whole ↦
        let all : take (span false set (y ∷ ys)) (y ∷ ys) ≡ y ∷ ys =
          take-all (span false set (y ∷ ys)) (y ∷ ys) (ground (arith, whole)) in
        rw (whole, all) h
    | inr part ↦ rw part (
        write-IsString m p (p + span false set (y ∷ ys)) (span false set (y ∷ ys)) (y ∷ ys) refl
          (span-length false set (y ∷ ys)) h)
  ],
)

-- On a string and a set of delimiters, with fuel for both, `strtok` skips the leading delimiters.
-- If nothing is left it returns NULL and changes no memory; the saved pointer stays as it was for an
-- empty string and becomes NULL for one of delimiters only. Else it returns the address of the rest,
-- where the longest stretch without delimiters now stands as a string, and keeps the address behind
-- the delimiter that it overwrote, or NULL if there was none.
pub strtok-token :
    (k : ℕ) (last s d : Ptr) (m : Memory) (xs set : List ℕ)
    → s ≢ 0
    → IsString m s xs
    → IsString m d set
    → length xs + length set < k
    → ((length (trimmed set xs) ≡ 0)
        × (strtok k last s d m ≡ done (null, if length xs == 0 then last else null) m))
      ⊎ ((length (trimmed set xs) ≢ 0)
          × (strtok k last s d m
              ≡ done
                  (
                    s + span true set xs,
                    if token_length set xs == length (trimmed set xs)
                        then null
                        else s + span true set xs + token_length set xs + 1,
                  )
                  (cut set xs (s + span true set xs) m))
          × IsString
              (cut set xs (s + span true set xs) m)
              (s + span true set xs)
              (take (token_length set xs) (trimmed set xs)))
unfolding strtok cut ended span
strtok-token k last s d m [] set ne hx hd lt =
    let start : (s == 0) ≡ false = ground arith in
    inl (refl, rw (start, start, load-done m s hx) refl)
strtok-token k last s d m (x ∷ xs) set ne hx hd lt =
    let a = span true set (x ∷ xs) in
    let le = span-length true set (x ∷ xs) in
    let hy = trimmed-IsString m s a (x ∷ xs) le hx in
    let start = strtok-from_start k last s d m x xs set ne hx hd lt in
    elim (from_start-cases k (s + a) d m (drop a (x ∷ xs)) set hy hd
      (omega (arith, length-drop a (x ∷ xs), lt))) [
        | inl (e, f) ↦ inl (
          e,
          start ∙ f ∙ (let more : (suc (length xs) == 0) ≡ false = ground arith in rw more refl),
        )
        | inr (e, f, h) ↦ inr (e, start ∙ f, h)
      ]
