-- ===== src/StringCopy/Overwrite.antt =====
-- `strcpy` and `strcat`.
use aic_lib.Base.{
  ℕ, zero, suc, ◌+◌, ◌<◌, ◌≡◌, ◌≢◌, refl, arith, inl, List, [], ◌∷◌, ◌++◌, length, ◌==◌, false,
}
use aic_lib.Memory.{Ptr, Memory, write, done, load}
use aic_lib.Memory.Region.{
  IsString, IsString-frame, Mapped, SameOutside, Apart, mapped_byte, Mapped-write, load-done,
  store-done, write_other,
}
use native.Mathlib.Numerals.{add-one}
use aic_lib.Memory.Ends
use aic_lib.Memory.Ends.{Ends, ends}
use aic_lib.StringCopy.{copy_loop, strcpy, find_end, strcat}

-- `m'` is `m` with the string at `d`, terminator included.
pub record Written (d : Ptr) (xs : List ℕ) (m m' : Memory) : Type 0 where
  pub text : IsString m' d xs
  pub same : SameOutside d (suc (length xs)) m m'

pub Written-nil : (d : Ptr) (m : Memory) → Written d [] m (write m d 0)
unfolding write
Written-nil d m = record { text = ground arith; same = λ q out. ground arith }

pub Written-cons :
    (d x : ℕ) (xs : List ℕ) (m m' : Memory)
    → x ≢ 0
    → Written (suc d) xs (write m d x) m'
    → Written d (x ∷ xs) m m'
unfolding write
Written-cons d x xs m m' ne w = record {
  text = (ground (arith, w.same d), ne, w.text);
  same = λ q out. ground (arith, w.same q);
}

copy_loop-Written :
    (k d s : ℕ) (m : Memory) (xs : List ℕ)
    → IsString m s xs
    → length xs < k
    → Mapped m d (suc (length xs))
    → Apart d (suc (length xs)) s (suc (length xs))
    → Ends (λ _. Written d xs m) (copy_loop k d s m)
unfolding copy_loop
copy_loop-Written zero d s m xs h lt hd apart = absurd (omega arith)
copy_loop-Written (suc k) d s m [] h lt hd apart =
    let (o, to) = mapped_byte m d (hd d (omega arith) (omega arith)) in
    rw (load-done m s h, store-done m d 0 to) (ends (Written-nil d m))
copy_loop-Written (suc k) d s m (x ∷ xs) h lt hd apart =
    let (o, to) = mapped_byte m d (hd d (omega arith) (omega arith)) in
    let go : (x == 0) ≡ false = ground (arith, h.1) in
    rw (load-done m s h.0, store-done m d x to, go, add-one d, add-one s)
      (Ends.weaken
        (copy_loop-Written k (suc d) (suc s) (write m d x) xs
          (IsString-frame m (write m d x) (suc s) xs (λ q lo hi. write_other m d q x (omega arith))
            h.2)
          (omega arith)
          (Mapped-write m d x (suc d) (suc (length xs))
            (λ q lo hi. hd q (omega arith) (omega arith)))
          (omega arith))
        (λ _ m' w. Written-cons d x xs m m' h.1 w))

-- `strcpy` of a C string into mapped memory that it does not overlap writes that string with its
-- terminator, returns the destination and writes nowhere else.
pub strcpy-Written :
    (k d s : ℕ) (m : Memory) (xs : List ℕ)
    → IsString m s xs
    → length xs < k
    → Mapped m d (suc (length xs))
    → Apart d (suc (length xs)) s (suc (length xs))
    → Ends (λ p m'. (p ≡ d) × Written d xs m m') (strcpy k d s m)
unfolding strcpy
strcpy-Written k d s m xs h lt hd apart =
    Ends.and_then (copy_loop-Written k d s m xs h lt hd apart) (λ _ m' w. ends (refl, w))

pub find_end-IsString :
    (k d : ℕ) (m : Memory) (xs : List ℕ)
    → IsString m d xs
    → length xs < k
    → find_end k d m ≡ done (d + length xs) m
unfolding find_end load
find_end-IsString zero d m xs h lt = absurd (omega arith)
find_end-IsString (suc k) d m [] h lt = ground arith
find_end-IsString (suc k) d m (x ∷ xs) h lt = ground (arith, find_end-IsString k (suc d) m xs)

-- A string that keeps its bytes, with another one where its terminator was.
pub IsString-append :
    (d e : ℕ) (m m' : Memory) (ys xs : List ℕ)
    → e ≡ d + length ys
    → IsString m d ys
    → ((q : Ptr) → q < e → m' q ≡ m q)
    → IsString m' e xs
    → IsString m' d (ys ++ xs)
IsString-append d e m m' [] xs eq hy same hx = let e' : e ≡ d = omega arith in rw (← e') hx
IsString-append d e m m' (y ∷ ys) xs eq hy same hx = (
  ground (arith, same d, hy.0),
  hy.1,
  IsString-append (suc d) e m m' ys xs (omega arith) hy.2 same hx,
)

-- `strcat` of two C strings, with mapped memory behind the first that the second does not
-- overlap, leaves their concatenation at the destination, returns it, and writes only from the
-- first string's terminator on.
pub strcat-append :
    (k d s : ℕ) (m : Memory) (ys xs : List ℕ)
    → IsString m d ys
    → IsString m s xs
    → length ys < k
    → length xs < k
    → Mapped m (d + length ys) (suc (length xs))
    → Apart (d + length ys) (suc (length xs)) s (suc (length xs))
    → Ends
        (λ p m'.
          (p ≡ d) × IsString m' d (ys ++ xs) × SameOutside (d + length ys) (suc (length xs)) m m')
        (strcat k d s m)
unfolding strcat
strcat-append k d s m ys xs hy hx ly lx hd apart = rw (find_end-IsString k d m ys hy ly) (
    Ends.and_then (copy_loop-Written k (d + length ys) s m xs hx lx hd apart) (λ _ m' w. ends (
      refl,
      IsString-append d (d + length ys) m m' ys xs refl hy (λ q lt. w.same q (inl lt)) w.text,
      w.same,
    )))
