-- ===== src/Linker/Symbols/Found.antt =====
-- A lookup in a DT_GNU_HASH table that is as the format says.
use aic_lib.Base.{
  ℕ, zero, suc, ◌+◌, ◌-◌, ◌*◌, ◌/◌, ◌%◌, ◌^◌, ◌≡◌, ◌<◌, ◌≤◌, refl, arith, true, false, ◌||◌, ◌==◌,
  ltb, if◌then◌else◌, List, [], ◌∷◌, Option, some, length, get_elem?, bit_and, bit_or, min, max,
  bit_or_step, Bool-cases, inl, inr, ◌∙◌, sym, ap,
}
use aic_lib.Base.Positions.{
  bit, bit-le, bit-and, bit-or, bit-power_other, bit_ext, power-lt, bit_and-lt, bit_or-lt,
}
use native.Mathlib.Nat.{mod-lt}
use mathlib.Core.Path.{subst}
use aic_lib.Linker.{Object, Sym, GnuTable, ◌>>=◌}
use aic_lib.Linker.Strings.{Str}
use aic_lib.Linker.Symbols.{gnu_hash, is_match, bloom_test, gnu_chain, gnu_lookup, lookup_one}
use aic_lib.Linker.Symbols.Hash.{polynomial, gnu_hash-polynomial}
use aic_lib.Linker.Symbols.Table.{Defines, Finds, is_match-Defines, Defines-is_match}

-- The hash of the format: the bytes as the digits of a number in base 33 behind 5381.
abbrev pub name_hash : Str → ℕ
name_hash name = polynomial 5381 name % 2 ^ 32

-- The table has the symbol of index `j` under the hash `h`. In the word of the filter, the bits of
-- the hash and of the shifted hash are set. The bucket of the hash starts a chain at or before the
-- symbol: none of the entries before it has the end bit, and its own is the hash but for that bit.
pub record Placed (t : GnuTable) (h j : ℕ) : Type 0 where
  pub word : ℕ
  pub start : ℕ
  pub entry : ℕ
  pub filter : get_elem? t.bloom (h / 64 % length t.bloom) ≡ some word
  pub first_bit : bit (h % 64) word ≡ 1
  pub second_bit : bit (h / 2 ^ t.bloom_shift % 64) word ≡ 1
  pub bucket : get_elem? t.buckets (h % length t.buckets) ≡ some start
  pub hashed : t.symoffset ≤ start
  pub reached : start ≤ j
  pub chain : get_elem? t.chains (j - t.symoffset) ≡ some entry
  pub same_hash : entry / 2 ≡ h / 2
  pub before :
      (i : ℕ)
      → start ≤ i
      → i < j
      → (c : ℕ) × (get_elem? t.chains (i - t.symoffset) ≡ some c) × (c % 2 ≡ 0)

-- A word with two bits set keeps them under a mask of the two.
mask-bit :
    (w a b i : ℕ)
    → bit a w ≡ 1
    → bit b w ≡ 1
    → min (bit i w) (max (bit i (2 ^ a)) (bit i (2 ^ b))) ≡ max (bit i (2 ^ a)) (bit i (2 ^ b))
mask-bit w a b i ha hb = elim (Bool-cases (i == a)) [
  | inl e ↦
      let same : a ≡ i = ground arith in
      omega (arith, rw same at ha, bit-le i (2 ^ a), bit-le i (2 ^ b))
  | inr n ↦ elim (Bool-cases (i == b)) [
    | inl e ↦
        let same : b ≡ i = ground arith in
        omega (arith, rw same at hb, bit-le i (2 ^ a), bit-le i (2 ^ b))
    | inr n' ↦ omega (
      arith,
      bit-power_other i a (λ e. ground (arith, n, e)),
      bit-power_other i b (λ e. ground (arith, n', e)),
    )
  ]
]

mask-kept :
    (w a b : ℕ)
    → a < 64
    → b < 64
    → bit a w ≡ 1
    → bit b w ≡ 1
    → bit_and w (bit_or (2 ^ a) (2 ^ b)) ≡ bit_or (2 ^ a) (2 ^ b)
mask-kept w a b la lb ha hb =
    let small = bit_or-lt 64 (2 ^ a) (2 ^ b) (power-lt a 64 la) (power-lt b 64 lb) in
    bit_ext 64 _ _ (bit_and-lt 64 w _ small) small (λ i lt.
      let o = bit-or i (2 ^ a) (2 ^ b) in
      bit-and i w (bit_or (2 ^ a) (2 ^ b)) ∙ ap (min (bit i w)) o ∙ mask-bit w a b i ha hb ∙ sym o)

Placed-bloom : (t : GnuTable) (h j : ℕ) → Placed t h j → bloom_test t h ≡ some true
unfolding bloom_test
Placed-bloom t h j p =
    let kept =
      mask-kept p.word (h % 64) (h / 2 ^ t.bloom_shift % 64) (mod-lt h (omega arith))
        (mod-lt (h / 2 ^ t.bloom_shift) (omega arith)) p.first_bit p.second_bit in
    rw (p.filter, kept) (ap some (ground arith))

odd_or : (x : ℕ) → bit_or x 1 ≡ 1 + 2 * bit_or (x / 2) 0
odd_or x = omega (arith, bit_or_step x 1)

same_half : (x y : ℕ) → x / 2 ≡ y / 2 → (bit_or x 1 == bit_or y 1) ≡ true
same_half x y e =
    let same : bit_or x 1 ≡ bit_or y 1 =
      odd_or x ∙ ap (λ (v : ℕ). 1 + 2 * bit_or v 0) e ∙ sym (odd_or y) in
    rw same (ground arith)

get_elem?-lt : (xs : List Sym) (i : ℕ) (s : Sym) → get_elem? xs i ≡ some s → i < length xs
get_elem?-lt [] i s e = absurd (cc)
get_elem?-lt (x ∷ xs) zero s e = omega arith
get_elem?-lt (x ∷ xs) (suc i) s e = omega (arith, get_elem?-lt xs i s e)

get_elem?-some : (xs : List Sym) (i : ℕ) → i < length xs → (s : Sym) × (get_elem? xs i ≡ some s)
get_elem?-some [] i lt = absurd (omega (arith, lt))
get_elem?-some (s ∷ xs) zero lt = (s, refl)
get_elem?-some (s ∷ xs) (suc i) lt = get_elem?-some xs i (omega (arith, lt))

module _ (o : Object) (t : GnuTable) (name : Str) (h j : ℕ) (s : Sym) (p : Placed t h j)
    (at : get_elem? o.symtab j ≡ some s) (m : is_match o name s ≡ true) where
  Finds-match :
      (i : ℕ) (q : Option (Option Sym))
      → i < length o.symtab
      → Finds o name q
      → Finds o name (do s ← get_elem? o.symtab i; if is_match o name s then some (some s) else q)
  Finds-match i q lt k =
      let (s', at') = get_elem?-some o.symtab i lt in
      elim (Bool-cases (is_match o name s')) [
        | inl m' ↦ (s', rw (at', m') refl, is_match-Defines o name s' m')
        | inr m' ↦ rw (at', m') k
      ]

  gnu_chain-Finds :
      (k i : ℕ) → p.start ≤ i → i ≤ j → j < i + k → Finds o name (gnu_chain o t name h k i)
  unfolding gnu_chain
  gnu_chain-Finds zero i from upto lt = absurd (omega arith)
  gnu_chain-Finds (suc k) i from upto lt = elim (Bool-cases (i == j)) [
    | inl e ↦
        let same : i ≡ j = ground arith in
        let hash = same_half p.entry h p.same_hash in
        rw (same, p.chain, hash, at, m) (s, refl, is_match-Defines o name s m)
    | inr n ↦
        let (c, held, even) = p.before i from (ground arith) in
        let goes_on : (c % 2 == 1) ≡ false = ground arith in
        let inside : i < length o.symtab = omega (arith, get_elem?-lt o.symtab j s at) in
        let rest = gnu_chain-Finds k (suc i) (omega arith) (ground arith) (omega arith) in
        rw (held, goes_on)
          (elim (Bool-cases (bit_or c 1 == bit_or h 1)) [
            | inl b ↦ rw b (Finds-match i _ inside rest)
            | inr b ↦ rw b rest
          ])
  ]

  gnu_lookup-Finds : (k : ℕ) → j < k → Finds o name (gnu_lookup o t name h k)
  unfolding gnu_lookup
  gnu_lookup-Finds k lt =
      let inside : ltb p.start t.symoffset ≡ false = let le = p.hashed in ground arith in
      rw (Placed-bloom t h j p, p.bucket, inside)
        (gnu_chain-Finds k p.start (omega arith) p.reached (omega arith))

-- Each symbol that is defined and not local has its place by the hash of its name.
abbrev pub IsTable : Object → GnuTable → Type 0
IsTable o t =
    (j : ℕ) (s : Sym) (name : Str)
    → get_elem? o.symtab j ≡ some s
    → Defines o name s
    → Placed t (name_hash name) j

-- In an object whose DT_GNU_HASH table has each symbol that is defined and not local in its place,
-- `lookup_one` finds a symbol that defines the name that is looked for whenever there is one,
-- within as many rounds as the symbol's index and one more.
pub lookup_one-Finds :
    (o : Object) (t : GnuTable) (name : Str) (k j : ℕ) (s : Sym)
    → o.gnu_hash ≡ some t
    → IsTable o t
    → 0 < length o.strtab
    → get_elem? o.symtab j ≡ some s
    → Defines o name s
    → j < k
    → Finds o name (lookup_one k o name)
unfolding lookup_one
lookup_one-Finds o t name k j s table placed strings at d lt =
    let symbols = get_elem?-lt o.symtab j s at in
    let present : (length o.symtab == 0 || length o.strtab == 0) ≡ false = ground arith in
    let by_name : Placed t (gnu_hash name) j =
      subst (λ (h : ℕ). Placed t h j) (sym (gnu_hash-polynomial name)) (placed j s name at d) in
    simp (present, table)
      (gnu_lookup-Finds o t name (gnu_hash name) j s by_name at (Defines-is_match o name s d) k lt)
