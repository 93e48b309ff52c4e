-- ===== src/Linker/MainProgram/Base.antt =====
-- The load bias that is found.
use aic_lib.Base.{
  ℕ, ◌+◌, ◌-◌, ◌%◌, ◌^◌, ◌≡◌, ◌<◌, refl, ap, sym, ◌∙◌, arith, true, false, ◌==◌, if◌then◌else◌,
  List, [], ◌∷◌, Option, none, some, Bool-cases, inl, inr,
}
use aic_lib.Linker.Segments.{Phdr}
use aic_lib.Linker.MainProgram.{phdr_base, holds_table, load_base, find_base}

-- The first header of the table itself.
unfoldable pub table_header : List Phdr → Option Phdr
table_header [] = none
table_header (p ∷ ph) = if p.p_type == 6 then some p else table_header ph

-- The first segment to load that holds the table, for a program that is not moved.
unfoldable pub table_segment : ℕ → List Phdr → Option Phdr
table_segment exec_phdr [] = none
table_segment exec_phdr (p ∷ ph) =
    if holds_table exec_phdr p then some p else table_segment exec_phdr ph

load_base-segment :
    (exec_phdr : ℕ) (ph : List Phdr)
    → load_base exec_phdr ph
      ≡ elim (table_segment exec_phdr ph) [ none ↦ 0 | some q ↦ exec_phdr - q.p_vaddr ]
unfolding load_base table_segment
load_base-segment exec_phdr [] = refl
load_base-segment exec_phdr (p ∷ ph) = elim (Bool-cases (holds_table exec_phdr p)) [
  | inl e ↦ rw e refl
  | inr e ↦ rw e (load_base-segment exec_phdr ph)
]

no_header : (p : Phdr) → table_header [] ≡ some p → ⊥
unfolding table_header
no_header p h = cc

header_here : (q : Phdr) (ph : List Phdr) → (q.p_type == 6) ≡ true → table_header (q ∷ ph) ≡ some q
unfolding table_header
header_here q ph e = rw e refl

header_next :
    (q : Phdr) (ph : List Phdr) → (q.p_type == 6) ≡ false → table_header (q ∷ ph) ≡ table_header ph
unfolding table_header
header_next q ph e = rw e refl

distance :
    (exec_phdr base v w : ℕ)
    → w ≡ v
    → v < 2 ^ 64
    → base < 2 ^ 64
    → exec_phdr ≡ (base + v) % 2 ^ 64
    → (exec_phdr + 2 ^ 64 - w) % 2 ^ 64 ≡ base
distance exec_phdr base v w same lt fits at = omega (arith, same, lt, fits, at)

phdr_base-header :
    (exec_phdr base : ℕ) (ph : List Phdr) (p : Phdr)
    → table_header ph ≡ some p
    → p.p_vaddr < 2 ^ 64
    → base < 2 ^ 64
    → exec_phdr ≡ (base + p.p_vaddr) % 2 ^ 64
    → phdr_base exec_phdr ph ≡ base
unfolding phdr_base
phdr_base-header exec_phdr base [] p h lt fits at = let e = no_header p in absurd (e h)
phdr_base-header exec_phdr base (q ∷ ph) p h lt fits at = elim (Bool-cases (q.p_type == 6)) [
  | inl e ↦
      let found = sym (header_here q ph e) ∙ h in
      let same : q.p_vaddr ≡ p.p_vaddr =
        ap (λ (o : Option Phdr). elim o as (λ _. ℕ) [ none ↦ 0 | some r ↦ r.p_vaddr ]) found in
      rw e (distance exec_phdr base p.p_vaddr q.p_vaddr same lt fits at)
  | inr e ↦ rw e (phdr_base-header exec_phdr base ph p (sym (header_next q ph e) ∙ h) lt fits at)
]

-- Where the kernel mapped the program at a base, and the headers have one for their own table,
-- `find_base` gives the base if it is not zero. For a program at its own addresses, with base
-- zero, it gives the distance of the table from the start of the first segment that holds it.
pub find_base-bias :
    (exec_phdr base : ℕ) (ph : List Phdr) (p : Phdr)
    → table_header ph ≡ some p
    → p.p_vaddr < 2 ^ 64
    → base < 2 ^ 64
    → exec_phdr ≡ (base + p.p_vaddr) % 2 ^ 64
    → find_base exec_phdr ph ≡ (
        if base == 0
        then elim (table_segment exec_phdr ph) [ none ↦ 0 | some q ↦ exec_phdr - q.p_vaddr ]
        else base)
unfolding find_base
find_base-bias exec_phdr base ph p h lt fits at =
    rw (phdr_base-header exec_phdr base ph p h lt fits at, load_base-segment exec_phdr ph) refl
