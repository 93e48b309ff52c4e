-- ===== src/Memory/Region.antt =====
-- What a stretch of memory holds, and what a write to it changes.
use aic_lib.Base.{
  ℕ, suc, ◌+◌, ◌≤◌, ◌<◌, ◌≡◌, ◌≢◌, ◌⊎◌, none, some, List, [], ◌∷◌, ◌++◌, arith, length, get_or, inl,
  inr, Option-cases, Bool-cases, ◌==◌,
}
use aic_lib.Memory.{Ptr, Memory, write, done, fault, load, store}

pub load-done : (m : Memory) (p : Ptr) {b : ℕ} → m p ≡ some b → load p m ≡ done b m
unfolding load
load-done m p at = rw (at, load)

pub store-done :
    (m : Memory) (p : Ptr) (c : ℕ) {b : ℕ} → m p ≡ some b → store p c m ≡ done tt (write m p c)
unfolding store
store-done m p c at = rw (at, store)

pub store-fault : (m : Memory) (p : Ptr) (c : ℕ) → m p ≡ none → store p c m ≡ fault
unfolding store
store-fault m p c gone = rw (gone, store)

pub write_same : (m : Memory) (p : Ptr) (b : ℕ) → write m p b p ≡ some b
unfolding write
write_same m p b = ground arith

pub write_other : (m : Memory) (p q : Ptr) (b : ℕ) → q ≢ p → write m p b q ≡ m q
unfolding write
write_other m p q b h = ground arith

-- The bytes from `p` on are those of the list.
abbrev pub Holds : Memory → Ptr → List ℕ → Type 0
Holds m p [] = Unit
Holds m p (x ∷ xs) = (m p ≡ some x) × Holds m (suc p) xs

-- A C string: the bytes of the list, none of them zero, and a zero byte behind them.
abbrev pub IsString : Memory → Ptr → List ℕ → Type 0
IsString m p [] = m p ≡ some 0
IsString m p (x ∷ xs) = (m p ≡ some x) × (x ≢ 0) × IsString m (suc p) xs

-- The `n` bytes from `p` on are mapped.
abbrev pub Mapped : Memory → Ptr → ℕ → Type 0
Mapped m p n = (q : Ptr) → p ≤ q → q < p + n → m q ≢ none

-- The address lies outside the `n` bytes from `p` on.
abbrev pub Outside : Ptr → ℕ → Ptr → Type 0
Outside p n q = (q < p) ⊎ (p + n ≤ q)

-- Outside the `n` bytes from `p` on, `m'` is `m`.
abbrev pub SameOutside : Ptr → ℕ → Memory → Memory → Type 0
SameOutside p n m m' = (q : Ptr) → Outside p n q → m' q ≡ m q

-- Two stretches of memory share no address.
abbrev pub Apart : Ptr → ℕ → Ptr → ℕ → Type 0
Apart p n q k = (p + n ≤ q) ⊎ (q + k ≤ p)

pub Holds-frame :
    (m m' : Memory) (p : Ptr) (xs : List ℕ)
    → ((q : Ptr) → p ≤ q → q < p + length xs → m' q ≡ m q)
    → Holds m p xs
    → Holds m' p xs
Holds-frame m m' p [] same h = tt
Holds-frame m m' p (x ∷ xs) same (at, rest) = (
  rw (same p (omega arith) (omega arith)) at,
  Holds-frame m m' (suc p) xs (λ q lo hi. same q (omega arith) (omega arith)) rest,
)

pub IsString-frame :
    (m m' : Memory) (p : Ptr) (xs : List ℕ)
    → ((q : Ptr) → p ≤ q → q ≤ p + length xs → m' q ≡ m q)
    → IsString m p xs
    → IsString m' p xs
IsString-frame m m' p [] same h = rw (same p (omega arith) (omega arith)) h
IsString-frame m m' p (x ∷ xs) same (at, ne, rest) = (
  rw (same p (omega arith) (omega arith)) at,
  ne,
  IsString-frame m m' (suc p) xs (λ q lo hi. same q (omega arith) (omega arith)) rest,
)

pub mapped_byte : (m : Memory) (p : Ptr) → m p ≢ none → (b : ℕ) × (m p ≡ some b)
mapped_byte m p ne = elim (Option-cases (m p)) [ inl e ↦ absurd (ne e) | inr at ↦ at ]

pub Mapped-write : (m : Memory) (r b p n : ℕ) → Mapped m p n → Mapped (write m r b) p n
unfolding write
Mapped-write m r b p n h q lo hi e = ground (arith, h q)

-- The bytes of a list are mapped.
pub Holds-Mapped : (m : Memory) (p : Ptr) (xs : List ℕ) → Holds m p xs → Mapped m p (length xs)
Holds-Mapped m p [] h q lo hi = absurd (omega arith)
Holds-Mapped m p (x ∷ xs) h q lo hi = elim (Bool-cases (q == p)) [
  | inl e ↦ λ z. ground (arith, h.0)
  | inr ne ↦ Holds-Mapped m (suc p) xs h.1 q (ground arith) (omega arith)
]

-- The byte behind a string's last one is its terminator.
pub IsString-end :
    (m : Memory) (p : Ptr) (xs : List ℕ) → IsString m p xs → m (p + length xs) ≡ some 0
IsString-end m p [] h = ground (arith, h)
IsString-end m p (x ∷ xs) h = ground (arith, IsString-end m (suc p) xs h.2)

-- A string from one of its bytes on.
pub IsString-drop :
    (m : Memory) (p q : Ptr) (xs ys : List ℕ)
    → q ≡ p + length xs
    → IsString m p (xs ++ ys)
    → IsString m q ys
IsString-drop m p q [] ys e h = let e' : p ≡ q = omega arith in rw e' at h
IsString-drop m p q (x ∷ xs) ys e h = IsString-drop m (suc p) q xs ys (omega arith) h.2

-- The byte at the start of a string, its terminator if it is empty.
pub IsString-head :
    (m : Memory) (p : Ptr) (xs : List ℕ) → IsString m p xs → m p ≡ some (get_or xs 0 0)
IsString-head m p [] h = h
IsString-head m p (x ∷ xs) h = h.0
