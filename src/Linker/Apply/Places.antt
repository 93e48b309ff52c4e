-- ===== src/Linker/Apply/Places.antt =====
-- The places that a table of DT_RELR stands for.
use aic_lib.Base.{
  ℕ, zero, suc, ◌+◌, ◌*◌, ◌/◌, ◌%◌, ◌^◌, ◌≡◌, refl, arith, ◌==◌, if◌then◌else◌, List, [], ◌∷◌, ◌++◌,
  Bool-cases, inl, inr, ◌∙◌, ap, sym,
}
use native.Mathlib.Nat.{pow-suc, div-div-eq-div-mul}
use aic_lib.Memory.{Ptr, Memory, Outcome, done, fault, no_fuel, Cmd, pure, follow, ◌>>◌}
use aic_lib.Linker.Apply.{add_base, relr_bits, apply_relr}

-- The words from `p` on whose bits are set, of `n` bits from bit `i` on.
bit_places : ℕ → ℕ → ℕ → Ptr → List Ptr
bit_places zero i bits p = []
bit_places (suc n) i bits p =
    (if bits / 2 ^ i % 2 == 1 then (p + 8 * i) ∷ [] else []) ++ bit_places n (suc i) bits p

-- An even entry is an address and starts a stretch behind it; an odd one marks words of the 63 that
-- follow.
unfoldable pub relr_places : ℕ → List ℕ → Ptr → List Ptr
unfolding bit_places
relr_places base [] p = []
relr_places base (e ∷ table) p =
    if e % 2 == 0
    then (base + e) % 2 ^ 64 ∷ relr_places base table ((base + e) % 2 ^ 64 + 8)
    else bit_places 63 0 (e / 2) p ++ relr_places base table (p + 504)

unfoldable pub add_all : ℕ → List Ptr → Cmd (Unit {0})
add_all base [] = pure tt
add_all base (p ∷ ps) = add_base base p >> add_all base ps

twice : (i : ℕ) → 2 ^ i * 2 ≡ 2 ^ suc i
twice i = omega (arith, pow-suc 2 i)

follow_same :
    (o : Outcome (Unit {0})) (f g : Cmd (Unit {0}))
    → ((m : Memory) → f m ≡ g m)
    → follow o (λ _. f) ≡ follow o (λ _. g)
follow_same (done u m) f g h = h m
follow_same fault f g h = refl
follow_same no_fuel f g h = refl

follow_assoc :
    (o : Outcome (Unit {0})) (f g : Cmd (Unit {0}))
    → follow (follow o (λ _. f)) (λ _. g) ≡ follow o (λ _. f >> g)
follow_assoc (done u m) f g = refl
follow_assoc fault f g = refl
follow_assoc no_fuel f g = refl

module _ (base : ℕ) where
  add_all-append :
      (ps qs : List Ptr) (m : Memory)
      → add_all base (ps ++ qs) m ≡ (add_all base ps >> add_all base qs) m
  unfolding add_all
  add_all-append [] qs m = refl
  add_all-append (p ∷ ps) qs m =
      follow_same (add_base base p m) (add_all base (ps ++ qs)) (add_all base ps >> add_all base qs)
        (add_all-append ps qs)
      ∙ sym (follow_assoc (add_base base p m) (add_all base ps) (add_all base qs))

  relr_bits-places :
      (n i bits h : ℕ) (p q : Ptr) (m : Memory)
      → h ≡ bits / 2 ^ i
      → q ≡ p + 8 * i
      → relr_bits base n h q m ≡ add_all base (bit_places n i bits p) m
  unfolding relr_bits bit_places add_all
  relr_bits-places zero i bits h p q m e f = refl
  relr_bits-places (suc n) i bits h p q m e f =
      let half : h / 2 ≡ bits / 2 ^ suc i =
        rw e (div-div-eq-div-mul bits (2 ^ i) 2 ∙ ap (λ (t : ℕ). bits / t) (twice i)) in
      let now : bits / 2 ^ i ≡ h = sym e in
      let here : p + 8 * i ≡ q = sym f in
      let rest = λ (m' : Memory).
        relr_bits-places n (suc i) bits (h / 2) p (q + 8) m' half (omega (arith, f)) in
      elim (Bool-cases (h % 2 == 1)) [
        | inl set ↦
            rw (now, here, set)
              (follow_same (add_base base q m) (relr_bits base n (h / 2) (q + 8))
                (add_all base (bit_places n (suc i) bits p)) rest)
        | inr unset ↦ rw (now, unset) (rest m)
      ]

  relr_bits-then :
      (n e : ℕ) (p : Ptr) (f g : Cmd (Unit {0})) (m : Memory)
      → ((m' : Memory) → f m' ≡ g m')
      → (relr_bits base n (e / 2) p >> f) m ≡ (add_all base (bit_places n 0 (e / 2) p) >> g) m
  relr_bits-then n e p f g m h =
      rw (relr_bits-places n 0 (e / 2) (e / 2) p p m (omega arith) (omega arith))
        (follow_same (add_all base (bit_places n 0 (e / 2) p) m) f g h)

  -- `apply_relr` adds the base to the word at each of the places that the table stands for, in their
  -- order, and does nothing else.
  pub apply_relr-places :
      (table : List ℕ) (p : Ptr) (m : Memory)
      → apply_relr base table p m ≡ add_all base (relr_places base table p) m
  unfolding apply_relr relr_places add_all
  apply_relr-places [] p m = refl
  apply_relr-places (e ∷ table) p m = elim (Bool-cases (e % 2 == 0)) [
    | inl even ↦ rw even (
        follow_same (add_base base ((base + e) % 2 ^ 64) m) _ _
          (apply_relr-places table ((base + e) % 2 ^ 64 + 8)))
    | inr odd ↦ rw odd (
        relr_bits-then 63 e p (apply_relr base table (p + 504))
          (add_all base (relr_places base table (p + 504))) m (apply_relr-places table (p + 504))
        ∙ sym (add_all-append (bit_places 63 0 (e / 2) p) (relr_places base table (p + 504)) m))
  ]
