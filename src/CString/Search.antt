-- ===== src/CString/Search.antt =====
-- `strchr`, `strrchr` and `strstr`: the first or last place of a byte or of a string.
use aic_lib.Base.{
  ℕ, zero, suc, ◌+◌, ◌<◌, ◌≤◌, ◌%◌, ◌≡◌, ◌≢◌, refl, List, [], ◌∷◌, ◌++◌, arith, length, drop, ◌==◌,
  if◌then◌else◌, Option, none, some, Bool, true, false, ◌&&◌, Bool-cases, inl, inr,
}
use mathlib.Core.Option
use aic_lib.Memory.{Ptr, null, Memory, done, load}
use aic_lib.Memory.Region.{IsString}
use aic_lib.CString.{strchr_loop, strchr, strrchr_loop, strrchr, match_loop, strstr_loop, strstr}

-- The first place of a byte in a list.
unfoldable pub index_of : ℕ → List ℕ → Option ℕ
index_of c [] = none
index_of c (x ∷ xs) = if x == c then some 0 else Option.map suc (index_of c xs)

-- The pointer that stands for a place from `s` on, `NULL` for no place.
abbrev pub at_index : Ptr → Option ℕ → Ptr
at_index s none = null
at_index s (some i) = s + i

pub at_index-map : (s : Ptr) (o : Option ℕ) → at_index s (Option.map suc o) ≡ at_index (suc s) o
at_index-map s none = refl
at_index-map s (some i) = omega arith

strchr_loop-index_of :
    (k : ℕ) (s c : ℕ) (m : Memory) (xs : List ℕ)
    → IsString m s xs
    → length xs < k
    → strchr_loop k s c m ≡ done (at_index s (index_of c (xs ++ 0 ∷ []))) m
unfolding strchr_loop load index_of
strchr_loop-index_of zero s c m xs h lt = absurd (omega arith)
strchr_loop-index_of (suc k) s c m [] h lt = ground arith
strchr_loop-index_of (suc k) s c m (x ∷ xs) h lt =
    ground
      (arith, strchr_loop-index_of k (suc s) c m xs, at_index-map s (index_of c (xs ++ 0 ∷ [])))

-- On a C string, `strchr` returns the address of the first byte that equals the low byte of `c`,
-- the terminator included, and `NULL` if there is none.
pub strchr-index_of :
    (k : ℕ) (s c : ℕ) (m : Memory) (xs : List ℕ)
    → IsString m s xs
    → length xs < k
    → strchr k s c m ≡ done (at_index s (index_of (c % 256) (xs ++ 0 ∷ []))) m
unfolding strchr
strchr-index_of k s c m xs h lt = strchr_loop-index_of k s (c % 256) m xs h lt

-- The last place of a byte in a list.
unfoldable pub last_index_of : ℕ → List ℕ → Option ℕ
last_index_of c [] = none
last_index_of c (x ∷ xs) = elim (last_index_of c xs) [
  | some i ↦ some (suc i)
  | none ↦ if x == c then some 0 else none
]

-- `last` where the list has no such place.
abbrev at_index_or : Ptr → Ptr → Option ℕ → Ptr
at_index_or last s none = last
at_index_or last s (some i) = s + i

strrchr_loop-last_index_of :
    (k : ℕ) (s c last : ℕ) (m : Memory) (xs : List ℕ)
    → IsString m s xs
    → length xs < k
    → strrchr_loop k s c last m ≡ done (s + length xs, at_index_or last s (last_index_of c xs)) m
unfolding strrchr_loop load last_index_of
strrchr_loop-last_index_of zero s c last m xs h lt = absurd (omega arith)
strrchr_loop-last_index_of (suc k) s c last m [] h lt = ground arith
strrchr_loop-last_index_of (suc k) s c last m (x ∷ xs) h lt =
    ground (arith, strrchr_loop-last_index_of k (suc s) c (if x == c then s else last) m xs)

last_index_of-zero :
    (m : Memory) (s : Ptr) (xs : List ℕ)
    → IsString m s xs
    → (last_index_of 0 (xs ++ 0 ∷ []) ≡ some (length xs))
unfolding last_index_of
last_index_of-zero m s [] h = refl
last_index_of-zero m s (x ∷ xs) h = ground (arith, last_index_of-zero m (suc s) xs)

last_index_of-append :
    (c : ℕ) (xs : List ℕ) → c ≢ 0 → last_index_of c (xs ++ 0 ∷ []) ≡ last_index_of c xs
unfolding last_index_of
last_index_of-append c [] ne = ground arith
last_index_of-append c (x ∷ xs) ne = ground (arith, last_index_of-append c xs)

-- On a C string, `strrchr` returns the address of the last byte that equals the low byte of `c`,
-- the terminator included, and `NULL` if there is none.
pub strrchr-last_index_of :
    (k : ℕ) (s c : ℕ) (m : Memory) (xs : List ℕ)
    → IsString m s xs
    → length xs < k
    → strrchr k s c m ≡ done (at_index s (last_index_of (c % 256) (xs ++ 0 ∷ []))) m
unfolding strrchr
strrchr-last_index_of k s c m xs h lt = ground (
  arith,
  strrchr_loop-last_index_of k s (c % 256) null m xs,
  last_index_of-zero m s xs,
  last_index_of-append (c % 256) xs,
)

-- Does the second list begin with the first?
unfoldable pub begins_with : List ℕ → List ℕ → Bool
begins_with [] ys = true
begins_with (x ∷ xs) [] = false
begins_with (x ∷ xs) (y ∷ ys) = (y == x) && begins_with xs ys

-- The first place from which on a list begins with the needle.
unfoldable pub find_in : List ℕ → List ℕ → Option ℕ
unfolding begins_with
find_in ns [] = if begins_with ns [] then some 0 else none
find_in ns (x ∷ xs) = if begins_with ns (x ∷ xs) then some 0 else Option.map suc (find_in ns xs)

-- The inner loop stops at the needle's terminator just when the text begins with the needle.
match_loop-begins_with :
    (j : ℕ) (h n : Ptr) (m : Memory) (xs ns : List ℕ)
    → IsString m h xs
    → IsString m n ns
    → length xs < j
    → (p : Ptr) × (b : ℕ) × (match_loop j h n m ≡ done p m)
      × (m p ≡ some b)
      × ((b == 0) ≡ begins_with ns xs)
unfolding match_loop load begins_with
match_loop-begins_with zero h n m xs ns hx hn lt = absurd (omega arith)
match_loop-begins_with (suc j) h n m [] [] hx hn lt = (n, 0, ground arith, hn, refl)
match_loop-begins_with (suc j) h n m [] (y ∷ ns) hx hn lt = (n, y, ground arith, hn.0, ground arith)
match_loop-begins_with (suc j) h n m (x ∷ xs) [] hx hn lt = (n, 0, ground arith, hn, refl)
match_loop-begins_with (suc j) h n m (x ∷ xs) (y ∷ ns) hx hn lt = elim (Bool-cases (x == y)) [
  | inl e ↦
      let (p, b, run, at, is) =
        match_loop-begins_with j (suc h) (suc n) m xs ns hx.2 hn.2 (omega arith) in
      (p, b, ground arith, at, ground arith)
  | inr ne ↦ (n, y, ground arith, hn.0, ground arith)
]

strstr_loop-find_in :
    (j k : ℕ) (h n : Ptr) (m : Memory) (xs : List ℕ) (y : ℕ) (ns : List ℕ)
    → IsString m h xs
    → IsString m n (y ∷ ns)
    → length xs < j
    → length xs < k
    → strstr_loop j k h n m ≡ done (at_index h (find_in (y ∷ ns) xs)) m
unfolding strstr_loop load find_in
strstr_loop-find_in j zero h n m xs y ns hx hn lj lk = absurd (omega arith)
strstr_loop-find_in j (suc k) h n m [] y ns hx hn lj lk = ground arith
strstr_loop-find_in j (suc k) h n m (x ∷ xs) y ns hx hn lj lk =
    let (p, b, run, at, is) = match_loop-begins_with j h n m (x ∷ xs) (y ∷ ns) hx hn lj in
    ground (
      arith,
      run,
      at,
      is,
      strstr_loop-find_in j k (suc h) n m xs y ns,
      at_index-map h (find_in (y ∷ ns) xs),
    )

strstr-find_in :
    (k : ℕ) (h n : Ptr) (m : Memory) (xs ns : List ℕ)
    → IsString m h xs
    → IsString m n ns
    → length xs < k
    → strstr k h n m ≡ done (at_index h (find_in ns xs)) m
unfolding strstr load find_in
strstr-find_in k h n m [] [] hx hn lt = ground arith
strstr-find_in k h n m (x ∷ xs) [] hx hn lt = ground arith
strstr-find_in k h n m xs (y ∷ ns) hx hn lt = ground (arith, strstr_loop-find_in k k h n m xs y ns)

-- The place is the first one where the needle stands.
pub data FirstPlace (ns xs : List ℕ) : Option ℕ → Type 0 where
  place :
      {i : ℕ}
      → begins_with ns (drop i xs) ≡ true
      → ((j : ℕ) → j < i → begins_with ns (drop j xs) ≡ false)
      → FirstPlace ns xs (some i)
  nowhere : ((j : ℕ) → j ≤ length xs → begins_with ns (drop j xs) ≡ false) → FirstPlace ns xs none

FirstPlace-cons :
    (ns : List ℕ) (x : ℕ) (xs : List ℕ) {o : Option ℕ}
    → begins_with ns (x ∷ xs) ≡ false
    → FirstPlace ns xs o
    → FirstPlace ns (x ∷ xs) (Option.map suc o)
FirstPlace-cons ns x xs miss (place {i} here before) =
    place here (elim [ zero ↦ λ _. miss | suc j ↦ λ (lt : suc j < suc i). before j (omega arith) ])
FirstPlace-cons ns x xs miss (nowhere all) =
    nowhere
      (elim [ zero ↦ λ _. miss | suc j ↦ λ (le : suc j ≤ suc (length xs)). all j (omega arith) ])

find_in-FirstPlace : (ns xs : List ℕ) → FirstPlace ns xs (find_in ns xs)
unfolding find_in
find_in-FirstPlace ns [] = elim (Bool-cases (begins_with ns [])) [
  | inl hit ↦ rw hit (place hit (λ j lt. absurd (omega arith)))
  | inr miss ↦ rw miss (nowhere (elim [ zero ↦ λ _. miss | suc j ↦ λ le. absurd (omega arith) ]))
]
find_in-FirstPlace ns (x ∷ xs) = elim (Bool-cases (begins_with ns (x ∷ xs))) [
  | inl hit ↦ rw hit (place hit (λ j lt. absurd (omega arith)))
  | inr miss ↦ rw miss (FirstPlace-cons ns x xs miss (find_in-FirstPlace ns xs))
]

-- On two C strings `strstr` returns the address of the first place from which on the text begins
-- with the needle, and `NULL` just when it does so nowhere.
pub strstr-FirstPlace :
    (k : ℕ) (h n : Ptr) (m : Memory) (xs ns : List ℕ)
    → IsString m h xs
    → IsString m n ns
    → length xs < k
    → (o : Option ℕ) × (strstr k h n m ≡ done (at_index h o) m) × FirstPlace ns xs o
strstr-FirstPlace k h n m xs ns hx hn lt =
    (find_in ns xs, strstr-find_in k h n m xs ns hx hn lt, find_in-FirstPlace ns xs)
