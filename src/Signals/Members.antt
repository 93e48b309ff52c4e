-- ===== src/Signals/Members.antt =====
-- A set of signals as the predicate that it stands for.
use aic_lib.Base.{
  ℕ, zero, suc, ◌-◌, ◌*◌, ◌/◌, ◌%◌, ◌^◌, ◌≡◌, ◌<◌, ◌≤◌, refl, ap, ◌∙◌, sym, arith, Bool, true,
  false, not, ◌||◌, ◌&&◌, ◌==◌, if◌then◌else◌, some, get_or, set, length, length-set,
  get_or-set_self, replicate, bit_and, bit_or, Bool-cases, inl, inr,
}
use aic_lib.Base.Positions.{
  bit, bit-le, bit-and, bit-or, bit-zero, bit-complement, bit-power_self, bit-power_other,
  and_power, power_pos, power-lt,
}
use aic_lib.Base.Int.{pos}
use aic_lib.Signals.{
  Sigset, Answer, word_count, complement, sigemptyset, sigfillset, signal_index, add_bit,
  delete_bit, test_bit, sigaddset, sigdelset, sigismember, valid,
}

-- Whether the bit of a signal is set in the first word.
unfoldable pub member : Sigset → ℕ → Bool
member s i = bit i (get_or s 0 0) == 1

digit-test :
    (b p : ℕ) → b ≤ 1 → 0 < p → ◌≡◌ {A = ℕ} (if b * p == 0 then 0 else 1) (if b == 1 then 1 else 0)
digit-test zero p le h = let none_ : 0 * p ≡ 0 = omega arith in rw none_ refl
digit-test (suc zero) p le h = let one : 1 * p ≡ p = omega arith in rw one (ground (arith, h))
digit-test (suc (suc b)) p le h = absurd (omega (arith, le))

test_bit-member :
    (s : Sigset) (i : ℕ) → i < 64 → ◌≡◌ {A = ℕ} (test_bit s i) (if member s i then 1 else 0)
unfolding test_bit member
test_bit-member s i lt =
    let word : i / 64 ≡ 0 = omega (arith, lt) in
    let place : i % 64 ≡ i = omega (arith, lt) in
    let b = bit-le i (get_or s 0 0) in
    let value = and_power i (get_or s 0 0) in
    rw (word, place, value) (digit-test _ (2 ^ i) b (power_pos i))

first-set : (s : Sigset) (v : ℕ) → length s ≡ word_count → get_or (set s 0 v) 0 0 ≡ v
first-set s v l = get_or-set_self s 0 v 0 (omega (arith, l))

add_bit-word :
    (s : Sigset) (n : ℕ)
    → length s ≡ word_count
    → n < 64
    → get_or (add_bit s n) 0 0 ≡ bit_or (get_or s 0 0) (2 ^ n)
unfolding add_bit
add_bit-word s n l lt =
    let word : n / 64 ≡ 0 = omega (arith, lt) in
    let place : n % 64 ≡ n = omega (arith, lt) in rw (word, place) (first-set s _ l)

delete_bit-word :
    (s : Sigset) (n : ℕ)
    → length s ≡ word_count
    → n < 64
    → get_or (delete_bit s n) 0 0 ≡ bit_and (get_or s 0 0) (complement (2 ^ n))
unfolding delete_bit
delete_bit-word s n l lt =
    let word : n / 64 ≡ 0 = omega (arith, lt) in
    let place : n % 64 ≡ n = omega (arith, lt) in rw (word, place) (first-set s _ l)

pub add_bit-member :
    (s : Sigset) (n m : ℕ)
    → length s ≡ word_count
    → n < 64
    → member (add_bit s n) m ≡ (n == m || member s m)
unfolding member
add_bit-member s n m l lt =
    let word = add_bit-word s n l lt in
    let digit = bit-or m (get_or s 0 0) (2 ^ n) in
    let b = bit-le m (get_or s 0 0) in
    elim (Bool-cases (n == m)) [
      | inl e ↦
          let same : m ≡ n = ground (arith, e) in
          let one : bit m (2 ^ n) ≡ 1 = ap (λ k. bit k (2 ^ n)) same ∙ bit-power_self n in
          rw (word, digit, one, e) (ground (arith, b))
      | inr ne ↦
          let zero_ : bit m (2 ^ n) ≡ 0 = bit-power_other m n (λ e. ground (arith, e, ne)) in
          rw (word, digit, zero_, ne) (ground (arith, b))
    ]

pub delete_bit-member :
    (s : Sigset) (n m : ℕ)
    → length s ≡ word_count
    → n < 64
    → m < 64
    → member (delete_bit s n) m ≡ (not (n == m) && member s m)
unfolding member complement
delete_bit-member s n m l lt lt' =
    let word = delete_bit-word s n l lt in
    let digit = bit-and m (get_or s 0 0) (2 ^ 64 - 1 - 2 ^ n) in
    let flip = bit-complement 64 m (2 ^ n) (power-lt n 64 lt) lt' in
    let b = bit-le m (get_or s 0 0) in
    elim (Bool-cases (n == m)) [
      | inl e ↦
          let same : m ≡ n = ground (arith, e) in
          let one : bit m (2 ^ n) ≡ 1 = ap (λ k. bit k (2 ^ n)) same ∙ bit-power_self n in
          rw (word, digit, flip, one, e) (ground (arith, b))
      | inr ne ↦
          let zero_ : bit m (2 ^ n) ≡ 0 = bit-power_other m n (λ e. ground (arith, e, ne)) in
          rw (word, digit, flip, zero_, ne) (ground (arith, b))
    ]

abbrev pub answer : Bool → ℕ
answer true = 1
answer false = 0

-- The set has the signals for whose index the predicate holds, as `sigismember` tells.
abbrev pub Represents : (ℕ → Bool) → Sigset → Type 0
Represents p s =
    (length s ≡ word_count)
    × ((m : ℕ) → m < 64 → sigismember (some s) (pos (suc m)) ≡ valid (answer (p m)) s)

signal_index-lt : (m : ℕ) → m < 64 → signal_index (pos (suc m)) ≡ some m
unfolding signal_index
signal_index-lt m lt = ground (arith, lt)

sigismember-member :
    (s : Sigset) (m : ℕ)
    → m < 64
    → sigismember (some s) (pos (suc m)) ≡ valid (answer (member s m)) s
unfolding sigismember
sigismember-member s m lt =
    let i = signal_index-lt m lt in
    let t = test_bit-member s m lt in
    rw (i, sigismember, t)
      (elim (Bool-cases (member s m)) [ inl e ↦ rw e refl | inr e ↦ rw e refl ])

same_answer : (a b : Bool) (s : Sigset) → valid (answer a) s ≡ valid (answer b) s → a ≡ b
unfolding valid
same_answer true true s h = refl
same_answer false false s h = refl
same_answer true false s h = let e = ap (λ (r : Answer). r.ret) h in cc
same_answer false true s h = let e = ap (λ (r : Answer). r.ret) h in cc

member-lem : (p : ℕ → Bool) (s : Sigset) (m : ℕ) → Represents p s → m < 64 → member s m ≡ p m
member-lem p s m (l, h) lt = same_answer _ _ s (sym (sigismember-member s m lt) ∙ h m lt)

pub from_members :
    (p : ℕ → Bool) (s : Sigset)
    → length s ≡ word_count
    → ((m : ℕ) → m < 64 → member s m ≡ p m)
    → Represents p s
from_members p s l h =
    (l, (λ m lt. sigismember-member s m lt ∙ ap (λ b. valid (answer b) s) (h m lt)))

length-add_bit : (s : Sigset) (n : ℕ) → length (add_bit s n) ≡ length s
unfolding add_bit
length-add_bit s n = length-set s (n / 64) _

length-delete_bit : (s : Sigset) (n : ℕ) → length (delete_bit s n) ≡ length s
unfolding delete_bit
length-delete_bit s n = length-set s (n / 64) _

pub empty-member : (m : ℕ) → m < 64 → member (replicate word_count 0) m ≡ false
unfolding member
empty-member m lt = let z = bit-zero m in rw z refl

full-member : (m : ℕ) → m < 64 → member (replicate word_count (2 ^ 64 - 1)) m ≡ true
unfolding member
full-member m lt =
    let z = bit-zero m in
    let one : bit m (2 ^ 64 - 1) ≡ 1 = bit-complement 64 m 0 (power_pos 64) lt ∙ omega (arith, z) in
    rw one refl

-- A set of 16 words that `sigismember` reads as a predicate on the signals from 1 to 64 stays one:
-- `sigaddset` adds the signal to the predicate, `sigdelset` takes it out, `sigemptyset` gives the
-- predicate that never holds and `sigfillset` the one that always holds; all return 0.
pub sigset-Represents :
    (p : ℕ → Bool) (s : Sigset) (n : ℕ)
    → Represents p s
    → n < 64
    → ((t : Sigset) × (sigaddset (some s) (pos (suc n)) ≡ valid 0 t)
        × Represents (λ m. n == m || p m) t)
      × ((t : Sigset) × (sigdelset (some s) (pos (suc n)) ≡ valid 0 t)
          × Represents (λ m. not (n == m) && p m) t)
      × ((t : Sigset) × (sigemptyset (some s) ≡ valid 0 t) × Represents (λ m. false) t)
      × ((t : Sigset) × (sigfillset (some s) ≡ valid 0 t) × Represents (λ m. true) t)
unfolding sigaddset sigdelset sigemptyset sigfillset
sigset-Represents p s n h lt =
    let i = signal_index-lt n lt in
    (
      (
        add_bit s n,
        rw (i, sigaddset) refl,
        from_members (λ m. n == m || p m) _ (length-add_bit s n ∙ h.0)
            (λ m lt'. add_bit-member s n m h.0 lt ∙ ap (λ b. n == m || b) (member-lem p s m h lt')),
      ),
      (
        delete_bit s n,
        rw (i, sigdelset) refl,
        from_members (λ m. not (n == m) && p m) _ (length-delete_bit s n ∙ h.0)
            (λ m lt'.
              delete_bit-member s n m h.0 lt lt'
              ∙ ap (λ b. not (n == m) && b) (member-lem p s m h lt')),
      ),
      (replicate word_count 0, refl, from_members (λ m. false) _ refl empty-member),
      (replicate word_count (2 ^ 64 - 1), refl, from_members (λ m. true) _ refl full-member),
    )
