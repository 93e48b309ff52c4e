-- ===== src/Linker/Segments/Steps.antt =====
-- The steps that map a segment, one by one, on the bytes of memory.
use aic_lib.Base.{
  ℕ, ◌+◌, ◌-◌, ◌%◌, ◌^◌, ◌≡◌, ◌<◌, ◌≤◌, refl, arith, Bool, true, ◌&&◌, ◌==◌, leb, ltb,
  if◌then◌else◌, List, [], ◌∷◌, ◌++◌, Bool-cases, inl, inr, ◌∙◌, ap,
}
use aic_lib.Linker.Pages.{align_down, align_up, pow_pos}
use aic_lib.Linker.Segments.{
  Phdr, Step, map_file, clear, map_zero, file_step, clear_step, zero_step, segment_start,
  segment_end, map_segment,
}

-- The bytes of memory after a step, for a file with the given bytes.
within : ℕ → ℕ → ℕ → Bool
within p n q = leb p q && ltb q (p + n)

after : (ℕ → ℕ) → Step → (ℕ → ℕ) → ℕ → ℕ
unfolding within
after file (map_file p n offset) m q = if within p n q then file (offset + (q - p)) else m q
after file (clear p n) m q = if within p n q then 0 else m q
after file (map_zero p n) m q = if within p n q then 0 else m q

unfoldable pub image : (ℕ → ℕ) → List Step → (ℕ → ℕ) → ℕ → ℕ
unfolding after
image file [] m q = m q
image file (s ∷ steps) m q = image file steps (after file s m) q

image-append :
    (file : ℕ → ℕ) (xs ys : List Step) (m : ℕ → ℕ) (q : ℕ)
    → image file (xs ++ ys) m q ≡ image file ys (image file xs m) q
unfolding image
image-append file [] ys m q = refl
image-append file (s ∷ xs) ys m q = image-append file xs ys (after file s m) q

zero_step-image :
    (file m : ℕ → ℕ) (base file_hi mem_hi q : ℕ)
    → base + mem_hi < 2 ^ 64
    → image file (zero_step base file_hi mem_hi) m q
      ≡ (if leb (base + file_hi) q && ltb q (base + mem_hi) then 0 else m q)
unfolding zero_step image after within
zero_step-image file m base file_hi mem_hi q lt = elim (Bool-cases (ltb file_hi mem_hi)) [
  | inl less ↦
      let sum : (base + file_hi) % 2 ^ 64 ≡ base + file_hi = ground arith in
      rw (less, sum, zero_step) (ground arith)
  | inr ge ↦ rw (ge, zero_step) (ground arith)
]

clear_step-image :
    (file m : ℕ → ℕ) (start end q : ℕ)
    → image file (clear_step start end) m q ≡ (if leb start q && ltb q end then 0 else m q)
unfolding clear_step image after within
clear_step-image file m start end q = elim (Bool-cases (ltb start end)) [
  | inl lt ↦ rw (lt, clear_step) (ground arith)
  | inr ge ↦ rw (ge, clear_step) (ground arith)
]

file_step-image :
    (file m : ℕ → ℕ) (p lo hi q : ℕ)
    → image file (file_step p lo hi) m q
      ≡ (if leb p q && ltb q (p + (hi - lo)) then file (lo + (q - p)) else m q)
unfolding file_step image after within
file_step-image file m p lo hi q = elim (Bool-cases (ltb lo hi)) [
  | inl lt ↦ rw (lt, file_step) (ground arith)
  | inr ge ↦ rw (ge, file_step) (ground arith)
]

pub no_wrap : (k x : ℕ) → x + 2 ^ k ≤ 2 ^ 64 → x % 2 ^ 64 ≡ x
no_wrap k x le = omega (arith, le, pow_pos k)

module _ (page base : ℕ) (p : Phdr) where
  unfoldable pub file_hi : ℕ
  file_hi = align_up ((p.p_offset + p.p_filesz) % 2 ^ 64) page

  pub file_part : List Step
  unfolding file_hi
  file_part =
      file_step ((base + segment_start page p) % 2 ^ 64) (align_down p.p_offset page) file_hi

  unfoldable pub bss : ℕ
  bss = (base + p.p_vaddr + p.p_filesz) % 2 ^ 64

  pub clear_part : List Step
  unfolding bss
  clear_part = clear_step bss (align_up bss page)

  pub zero_part : List Step
  unfolding file_hi
  zero_part = zero_step base file_hi (segment_end page p)

  map_segment-parts :
      (p.p_type == 1) ≡ true
      → ltb p.p_filesz p.p_memsz ≡ true
      → map_segment page base p ≡ file_part ++ (clear_part ++ zero_part)
  unfolding map_segment file_part clear_part zero_part
  map_segment-parts load more = rw (load, more, map_segment) refl

  pub map_segment-image :
      (file m : ℕ → ℕ) (q : ℕ)
      → (p.p_type == 1) ≡ true
      → ltb p.p_filesz p.p_memsz ≡ true
      → image file (map_segment page base p) m q
        ≡ image file zero_part (image file clear_part (image file file_part m)) q
  map_segment-image file m q load more =
      ap (λ (steps : List Step). image file steps m q) (map_segment-parts load more)
      ∙ image-append file file_part (clear_part ++ zero_part) m q
      ∙ image-append file clear_part zero_part (image file file_part m) q

  pub zero_part-image :
      (file m : ℕ → ℕ) (q : ℕ)
      → base + segment_end page p < 2 ^ 64
      → image file zero_part m q
        ≡ (if leb (base + file_hi) q && ltb q (base + segment_end page p) then 0 else m q)
  unfolding zero_part
  zero_part-image file m q lt = zero_step-image file m base file_hi (segment_end page p) q lt

module _ (page base : ℕ) (p : Phdr) (file m : ℕ → ℕ) where
  -- The bytes that a mapped segment leaves, from its three parts.
  pub image-cases :
      (q : ℕ)
      → (p.p_type == 1) ≡ true
      → p.p_filesz < p.p_memsz
      → base + segment_end page p < 2 ^ 64
      → image file (map_segment page base p) m q ≡ (
          if leb (base + file_hi page base p) q && ltb q (base + segment_end page p)
          then 0
          else if leb (bss page base p) q && ltb q (align_up (bss page base p) page)
          then 0
          else if leb ((base + segment_start page p) % 2 ^ 64) q
              && ltb q (
                  (base + segment_start page p) % 2 ^ 64
                  + (file_hi page base p - align_down p.p_offset page))
          then file (align_down p.p_offset page + (q - (base + segment_start page p) % 2 ^ 64))
          else m q)
  unfolding clear_part file_part
  image-cases q load more fits =
      map_segment-image page base p file m q load (ground (arith, more))
      ∙ zero_part-image page base p file _ q fits
      ∙ ap
          (λ (x : ℕ).
            if leb (base + file_hi page base p) q && ltb q (base + segment_end page p)
            then 0
            else x)
          (clear_step-image file _ (bss page base p) _ q
            ∙ ap
                (λ (x : ℕ).
                  if leb (bss page base p) q && ltb q (align_up (bss page base p) page)
                  then 0
                  else x)
                (file_step-image file m _ _ _ q))
