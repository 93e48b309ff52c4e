-- ===== src/Environment/First.antt =====
-- What `getenv` finds: the value of the first string of the environment that sets the variable.
use aic_lib.Base.{
  ℕ, suc, ◌+◌, ◌<◌, ◌≡◌, ◌≢◌, ◌⊎◌, inl, inr, refl, arith, true, false, Bool-cases, ◌==◌,
  if◌then◌else◌, List, [], ◌∷◌, ◌++◌, Option, none, some, All, length, take, sym,
}
use mathlib.Core.Path.{subst}
use aic_lib.Base.Int.{sub_ℕ}
use aic_lib.Memory.{Ptr, Memory, Cmd, pure, ◌>>=◌, done, load}
use aic_lib.Memory.Region.{IsString, IsString-drop, load-done}
use aic_lib.CString.Length.{strlen-IsString}
use aic_lib.CString.Compare.{difference, strncmp-take, IsString-NonZero}
use aic_lib.Environment.{equals_zero, value_in, getenv_loop, getenv}

-- The value in a string of the form name, equals sign, value.
abbrev pub value_of : List ℕ → List ℕ → Option (List ℕ)
value_of [] [] = none
value_of [] (x ∷ xs) = if x == b'=' then some xs else none
value_of (n ∷ ns) [] = none
value_of (n ∷ ns) (x ∷ xs) = let rest = value_of ns xs in if x == n then rest else none

-- The first of these in the environment.
abbrev pub first_value : List ℕ → List (List ℕ) → Option (List ℕ)
first_value ns [] = none
first_value ns (e ∷ es) =
    let rest = first_value ns es in elim (value_of ns e) [ some v ↦ some v | none ↦ rest ]

-- The strings at the addresses.
abbrev pub AreStrings : Memory → List Ptr → List (List ℕ) → Type 0
AreStrings m [] [] = Unit
AreStrings m [] (e ∷ es) = ⊥
AreStrings m (p ∷ ps) [] = ⊥
AreStrings m (p ∷ ps) (e ∷ es) = IsString m p e × AreStrings m ps es

-- An address of the value, or `NULL` for none.
pub data PointsTo (m : Memory) : Option (List ℕ) → Option Ptr → Type 0 where
  unset : PointsTo m none none
  found : {q : Ptr} {v : List ℕ} → IsString m q v → PointsTo m (some v) (some q)

sub-nonzero : (x y : ℕ) → (x == y) ≡ false → equals_zero (sub_ℕ x y) ≡ false
sub-nonzero x y ne = ground arith

-- The comparison tells whether the string begins with the name.
name-prefix :
    (ns e : List ℕ)
    → All (λ n. n ≢ 0) ns
    → ((equals_zero (difference (take (length ns) e) (take (length ns) ns)) ≡ false)
        × (value_of ns e ≡ none))
      ⊎ ((rest : List ℕ) × (equals_zero (difference (take (length ns) e) (take (length ns) ns))
            ≡ true)
          × (e ≡ ns ++ rest)
          × (value_of ns e ≡ value_of [] rest))
unfolding difference
name-prefix [] e h = inr (e, refl, refl, refl)
name-prefix (n ∷ ns) [] h = inl (sub-nonzero 0 n (ground (arith, h.0)), refl)
name-prefix (n ∷ ns) (x ∷ xs) h = elim (Bool-cases (x == n)) [
  | inr ne ↦ inl (rw ne (sub-nonzero x n ne), rw ne refl)
  | inl eq ↦ elim (name-prefix ns xs h.1) [
    | inl (differs, no_value) ↦ inl (rw eq differs, rw eq no_value)
    | inr (rest, same, front, value) ↦
        let e : x ≡ n = ground arith in inr (rest, rw eq same, rw (e, front) refl, rw eq value)
  ]
]

-- The byte behind the name.
after_name-PointsTo :
    (m : Memory) (q : Ptr) (rest : List ℕ)
    → IsString m q rest
    → (r : Option Ptr) × ((do c ← load q; pure (if c == b'=' then some (q + 1) else none)) m
        ≡ done r m)
      × PointsTo m (value_of [] rest) r
after_name-PointsTo m q [] h = (none, rw (load-done m q h) refl, unset)
after_name-PointsTo m q (x ∷ xs) h = elim (Bool-cases (x == b'=')) [
  | inl sign ↦
      let next : suc q ≡ q + 1 = omega arith in
      (some (q + 1), rw (load-done m q h.0, sign) refl, rw sign (found (rw next at h.2)))
  | inr no_sign ↦ (none, rw (load-done m q h.0, no_sign) refl, rw no_sign unset)
]

-- The first result, or the second if there is none.
abbrev first_of : Option Ptr → Option Ptr → Option Ptr
first_of none r' = r'
first_of (some q) r' = some q

first_of-done :
    (m : Memory) (r r' : Option Ptr) (rest : Cmd (Option Ptr))
    → rest m ≡ done r' m
    → (elim r as (λ _. Cmd (Option Ptr)) [ some value ↦ pure (some value) | none ↦ rest ]) m
      ≡ done (first_of r r') m
first_of-done m none r' rest e = e
first_of-done m (some q) r' rest e = refl

PointsTo-first_of :
    {m : Memory} {o o' : Option (List ℕ)} {r r' : Option Ptr}
    → PointsTo m o r
    → PointsTo m o' r'
    → PointsTo m (elim o [ some v ↦ some v | none ↦ o' ]) (first_of r r')
PointsTo-first_of unset points = points
PointsTo-first_of (found at) points = found at

-- One string of the environment.
value_in-PointsTo :
    (m : Memory) (p name : Ptr) (e ns : List ℕ)
    → IsString m p e
    → IsString m name ns
    → All (λ n. n ≢ 0) ns
    → (r : Option Ptr) × (value_in p name (length ns) m ≡ done r m) × PointsTo m (value_of ns e) r
unfolding value_in
value_in-PointsTo m p name e ns he hn ne = elim (name-prefix ns e ne) [
  | inl (differs, no_value) ↦
      (none, rw (strncmp-take (length ns) p name m e ns he hn, differs) refl, rw no_value unset)
  | inr (rest, same, front, value) ↦
      let at = subst (λ t. IsString m p t) front he in
      let (r, run, points) =
        after_name-PointsTo m (p + length ns) rest
          (IsString-drop m p (p + length ns) ns rest refl at) in
      (
        r,
        rw (strncmp-take (length ns) p name m e ns he hn, same) run,
        subst (λ o. PointsTo m o r) (sym value) points,
      )
]

getenv_loop-PointsTo :
    (m : Memory) (ps : List Ptr) (es : List (List ℕ)) (name : Ptr) (ns : List ℕ)
    → AreStrings m ps es
    → IsString m name ns
    → All (λ n. n ≢ 0) ns
    → (r : Option Ptr) × (getenv_loop ps name (length ns) m ≡ done r m)
      × PointsTo m (first_value ns es) r
unfolding getenv_loop
getenv_loop-PointsTo m [] [] name ns hs hn ne = (none, refl, unset)
getenv_loop-PointsTo m [] (e ∷ es) name ns hs hn ne = absurd hs
getenv_loop-PointsTo m (p ∷ ps) [] name ns hs hn ne = absurd hs
getenv_loop-PointsTo m (p ∷ ps) (e ∷ es) name ns hs hn ne =
    let (r, run, points) = value_in-PointsTo m p name e ns hs.0 hn ne in
    let (r', run', points') = getenv_loop-PointsTo m ps es name ns hs.1 hn ne in
    (
      first_of r r',
      rw run (first_of-done m r r' (getenv_loop ps name (length ns)) run'),
      PointsTo-first_of points points',
    )

-- For an environment and a name in memory as C strings, with fuel for the name: `getenv` ends
-- without a fault and changes nothing. If no string of the environment is the name, an equals sign
-- and a value, it returns `NULL`, and else an address at which the value of the first of them is a
-- C string.
pub getenv-PointsTo :
    (m : Memory) (k : ℕ) (ps : List Ptr) (es : List (List ℕ)) (name : Ptr) (ns : List ℕ)
    → AreStrings m ps es
    → IsString m name ns
    → length ns < k
    → (r : Option Ptr) × (getenv k (some ps) (some name) m ≡ done r m)
      × PointsTo m (first_value ns es) r
unfolding getenv
getenv-PointsTo m k ps es name ns hs hn lt =
    let (r, run, points) =
      getenv_loop-PointsTo m ps es name ns hs hn (IsString-NonZero m name ns hn) in
    (r, rw (strlen-IsString k name m ns hn lt) run, points)
