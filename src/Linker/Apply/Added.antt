-- ===== src/Linker/Apply/Added.antt =====
-- What a table of DT_RELR does to the words that it stands for.
use aic_lib.Base.{
  ℕ, zero, suc, ◌+◌, ◌*◌, ◌/◌, ◌%◌, ◌^◌, ◌≡◌, ◌≢◌, none, ◌<◌, ◌≤◌, refl, arith, List, [], ◌∷◌, All,
  map, ◌∙◌, ap, sym,
}
use aic_lib.Memory.{Ptr, Memory, write, Outcome, done, fault, no_fuel}
use aic_lib.Memory.Region.{
  Mapped, SameOutside, Outside, Apart, Mapped-write, mapped_byte, load-done, store-done,
}
use aic_lib.Linker.Relocate.{load_word, store_word}
use aic_lib.Linker.Apply.{add_base, apply_relr}
use aic_lib.Linker.Apply.Words.{store_word-Stored}
use aic_lib.Linker.Apply.Places.{add_all, relr_places, apply_relr-places}

-- The places are mapped and hold the words of 8 bytes.
abbrev pub AreWords : Memory → List Ptr → List ℕ → Type 0
AreWords m [] [] = Unit
AreWords m [] (w ∷ ws) = ⊥
AreWords m (p ∷ ps) [] = ⊥
AreWords m (p ∷ ps) (w ∷ ws) = Mapped m p 8 × (load_word 8 p m ≡ done w m) × AreWords m ps ws

-- No two of the places share a byte.
abbrev pub Separate : List Ptr → Type 0
Separate [] = Unit
Separate (p ∷ ps) = All (λ q. Apart p 8 q 8) ps × Separate ps

-- Nothing has changed but at the places.
abbrev pub SameElsewhere : List Ptr → Memory → Memory → Type 0
SameElsewhere ps m m' = (q : Ptr) → All (λ p. Outside p 8 q) ps → m' q ≡ m q

-- The bytes of a word, and what loading it depends on.
load_word-total :
    (n p : ℕ) (m : Memory)
    → Mapped m p n
    → (w : ℕ) × ((m' : Memory)
        → ((q : Ptr) → p ≤ q → q < p + n → m' q ≡ m q)
        → load_word n p m' ≡ done w m')
unfolding load_word
load_word-total zero p m h = (0, λ m' same. refl)
load_word-total (suc n) p m h =
    let (b, at) = mapped_byte m p (h p (omega arith) (omega arith)) in
    let (w, loads) = load_word-total n (p + 1) m (λ q lo hi. h q (omega arith) (omega arith)) in
    (
      b + 256 * w,
      λ m' same.
          rw
            (
              load-done m' p (same p (omega arith) (omega arith) ∙ at),
              loads m' (λ q lo hi. same q (omega arith) (omega arith)),
            )
            refl,
    )

result : Outcome ℕ → ℕ
result (done w m) = w
result fault = 0
result no_fuel = 0

load_word-frame :
    (p w : ℕ) (m m' : Memory)
    → Mapped m p 8
    → ((q : Ptr) → p ≤ q → q < p + 8 → m' q ≡ m q)
    → load_word 8 p m ≡ done w m
    → load_word 8 p m' ≡ done w m'
unfolding result
load_word-frame p w m m' h same loaded =
    let (v, loads) = load_word-total 8 p m h in
    let value : v ≡ w = ap result (sym (loads m (λ q lo hi. refl)) ∙ loaded) in
    loads m' same ∙ ap (λ x. done x m') value

Mapped-frame :
    (p : ℕ) (m m' : Memory)
    → Mapped m p 8
    → ((q : Ptr) → p ≤ q → q < p + 8 → m' q ≡ m q)
    → Mapped m' p 8
Mapped-frame p m m' h same q lo hi gone = h q lo hi (sym (same q lo hi) ∙ gone)

AreWords-frame :
    (p : ℕ) (ps ws : List ℕ) (m m' : Memory)
    → All (λ q. Apart p 8 q 8) ps
    → SameOutside p 8 m m'
    → AreWords m ps ws
    → AreWords m' ps ws
AreWords-frame p [] [] m m' apart same h = tt
AreWords-frame p [] (w ∷ ws) m m' apart same h = h
AreWords-frame p (q ∷ ps) [] m m' apart same h = h
AreWords-frame p (q ∷ ps) (w ∷ ws) m m' apart same h =
    let kept : (r : Ptr) → q ≤ r → r < q + 8 → m' r ≡ m r =
      λ r lo hi. let a = apart.0 in same r (omega (arith, a, lo, hi)) in
    (
      Mapped-frame q m m' h.0 kept,
      load_word-frame q w m m' h.0 kept h.1,
      AreWords-frame p ps ws m m' apart.1 same h.2,
    )

Apart-Outside :
    (p r : Ptr) (ps : List Ptr)
    → p ≤ r
    → r < p + 8
    → All (λ q. Apart p 8 q 8) ps
    → All (λ q. Outside q 8 r) ps
Apart-Outside p r [] lo hi apart = tt
Apart-Outside p r (q ∷ ps) lo hi apart =
    (let a = apart.0 in omega (arith, a, lo, hi), Apart-Outside p r ps lo hi apart.1)

memory_of : Memory → Outcome (Unit {0}) → Memory
memory_of m (done u m') = m'
memory_of m fault = m
memory_of m no_fuel = m

-- A store unmaps nothing.
store_word-kept :
    (n p v : ℕ) (m m' : Memory)
    → Mapped m p n
    → store_word n p v m ≡ done tt m'
    → (q : Ptr) → m q ≢ none
    → m' q ≢ none
unfolding store_word memory_of
store_word-kept zero p v m m' h e q held = λ gone. held (ap (λ o. memory_of m o q) e ∙ gone)
store_word-kept (suc n) p v m m' h e q held =
    let (b, at) = mapped_byte m p (h p (omega arith) (omega arith)) in
    let rest = rw (store-done m p (v % 256) at) at e in
    store_word-kept n (p + 1) (v / 256) (write m p (v % 256)) m'
      (λ r lo hi. Mapped-write m p (v % 256) p (suc n) h r (omega arith) (omega arith)) rest q
      (Mapped-write m p (v % 256) q 1 (λ r lo hi. let e : r ≡ q = omega arith in rw e held) q
        (omega arith) (omega arith))

-- The base is added to each of the words.
abbrev pub Added : ℕ → List Ptr → List ℕ → Memory → Memory → Type 0
Added base ps ws m m' = AreWords m' ps (map (λ w. (w + base) % 2 ^ 64) ws) × SameElsewhere ps m m'

add_all-Added :
    (base : ℕ) (ps : List Ptr) (ws : List ℕ) (m : Memory)
    → Separate ps
    → AreWords m ps ws
    → (m' : Memory) × (add_all base ps m ≡ done tt m') × Added base ps ws m m'
unfolding add_all add_base
add_all-Added base [] [] m apart h = (m, refl, (tt, λ q out. refl))
add_all-Added base [] (w ∷ ws) m apart h = absurd h
add_all-Added base (p ∷ ps) [] m apart h = absurd h
add_all-Added base (p ∷ ps) (w ∷ ws) m apart h =
    let v = (w + base) % 2 ^ 64 in
    let (m₁, (stored, loaded, same)) = store_word-Stored 8 p v m (omega arith) h.0 in
    let there : Mapped m₁ p 8 = λ q lo hi. store_word-kept 8 p v m m₁ h.0 stored q (h.0 q lo hi) in
    let (m', run, (words, elsewhere)) =
      add_all-Added base ps ws m₁ apart.1 (AreWords-frame p ps ws m m₁ apart.0 same h.2) in
    let kept : (r : Ptr) → p ≤ r → r < p + 8 → m' r ≡ m₁ r =
      λ r lo hi. elsewhere r (Apart-Outside p r ps lo hi apart.0) in
    (
      m',
      rw (h.1, stored) run,
      (
        (Mapped-frame p m₁ m' there kept, load_word-frame p v m₁ m' there kept loaded, words),
        λ q out. elsewhere q out.1 ∙ same q out.0,
      ),
    )

-- For a table whose places hold mapped words and share no byte: `apply_relr` ends without a fault,
-- leaves at each place the word that it held plus the base modulo 2 ^ 64, and changes nothing else.
pub apply_relr-Added :
    (base : ℕ) (table : List ℕ) (p : Ptr) (ws : List ℕ) (m : Memory)
    → Separate (relr_places base table p)
    → AreWords m (relr_places base table p) ws
    → (m' : Memory) × (apply_relr base table p m ≡ done tt m')
      × Added base (relr_places base table p) ws m m'
apply_relr-Added base table p ws m apart h =
    let (m', run, added) = add_all-Added base (relr_places base table p) ws m apart h in
    (m', apply_relr-places base table p m ∙ run, added)
