-- ===== src/Linker/Segments/Image.antt =====
-- What a mapped segment holds.
use aic_lib.Base.{
  ℕ, ◌+◌, ◌-◌, ◌*◌, ◌%◌, ◌^◌, ◌≡◌, ◌<◌, ◌≤◌, refl, arith, true, false, ◌&&◌, ◌==◌, leb, ltb,
  if◌then◌else◌, leb→le, Bool-cases, inl, inr, ◌∙◌, ap,
}
use native.Mathlib.Nat.{mul-le-mul_left}
use aic_lib.Linker.Pages.{align_down, align_up, pow_pos, align_down-greatest, align_up-least}
use aic_lib.Linker.Segments.{Phdr, segment_start, segment_end, map_segment}
use aic_lib.Linker.Segments.Steps.{
  image, file_hi, bss, no_wrap, zero_part-image, map_segment-image, image-cases,
}

if_inside : (lo hi q x y : ℕ) → lo ≤ q → q < hi → (if leb lo q && ltb q hi then x else y) ≡ x
if_inside lo hi q x y le lt = ground arith

if_below : (lo hi q x y : ℕ) → q < lo → (if leb lo q && ltb q hi then x else y) ≡ y
if_below lo hi q x y lt = ground arith

-- For pages of a power of two and a segment to load with more bytes in memory than in the file, where
-- nothing overflows: each byte of its part in the file whose address lies at or above the end of the
-- file's last page, as an offset in the file, is replaced by zero.
pub map_segment-wiped :
    (file m : ℕ → ℕ) (k j base a : ℕ) (p : Phdr)
    → k + j ≡ 64
    → (p.p_type == 1) ≡ true
    → p.p_filesz < p.p_memsz
    → p.p_vaddr + p.p_memsz + 2 ^ k ≤ 2 ^ 64
    → base + segment_end (2 ^ k) p < 2 ^ 64
    → align_up ((p.p_offset + p.p_filesz) % 2 ^ 64) (2 ^ k) ≤ a
    → a < p.p_vaddr + p.p_filesz
    → image file (map_segment (2 ^ k) base p) m (base + a) ≡ 0
unfolding file_hi segment_end
map_segment-wiped file m k j base a p e load more top fits lo hi =
    let small : (p.p_vaddr + p.p_memsz) % 2 ^ 64 ≡ p.p_vaddr + p.p_memsz = no_wrap k _ top in
    let (q, up, above, below) = align_up-least k j (p.p_vaddr + p.p_memsz) e top in
    let end : p.p_vaddr + p.p_memsz ≤ segment_end (2 ^ k) p = rw (small, up) above in
    map_segment-image (2 ^ k) base p file m (base + a) load (ground (arith, more))
    ∙ zero_part-image (2 ^ k) base p file _ (base + a) fits
    ∙ if_inside (base + file_hi (2 ^ k) base p) (base + segment_end (2 ^ k) p) (base + a) _ _
        (omega (arith, lo)) (omega (arith, hi, more, end))

multiples : (a b q t : ℕ) → a * b + a * q < a * t + a → a * b + a * q ≤ a * t
multiples a b q t lt = elim (Bool-cases (leb (b + q) t)) [
  | inl le ↦ omega (arith, mul-le-mul_left a (leb→le (b + q) t le))
  | inr gt ↦
      let more : t + 1 ≤ b + q = ground arith in absurd (omega (arith, lt, mul-le-mul_left a more))
]

-- Rounding up above a multiple is not less than the multiple with the rest rounded up.
align_up-base :
    (k j b x : ℕ)
    → k + j ≡ 64
    → 2 ^ k * b + x + 2 ^ k ≤ 2 ^ 64
    → 2 ^ k * b + align_up x (2 ^ k) ≤ align_up (2 ^ k * b + x) (2 ^ k)
align_up-base k j b x e le =
    let (q, up, above, below) = align_up-least k j x e (omega (arith, le)) in
    let (t, up', above', below') = align_up-least k j (2 ^ k * b + x) e le in
    rw (up, up') (multiples (2 ^ k) b q t (omega (arith, above', below)))

-- The three parts of a segment: `be` and `ae` bound what is cleared, `hi` ends the file's pages.
three_parts :
    (file : ℕ → ℕ) (x base v fs ms i hi me be ae w d : ℕ)
    → be ≡ base + v + fs
    → v + fs ≤ hi
    → v + ms ≤ me
    → base + hi ≤ ae
    → w ≡ base + d
    → d ≤ v
    → i < ms
    → (if leb (base + hi) (base + v + i) && ltb (base + v + i) (base + me)
        then 0
        else if leb be (base + v + i) && ltb (base + v + i) ae
        then 0
        else if leb w (base + v + i) && ltb (base + v + i) (w + (hi - d))
        then file (d + (base + v + i - w))
        else x)
      ≡ (if ltb i fs then file (v + i) else 0)
three_parts file x base v fs ms i hi me be ae w d hb hf hm ha hw hd lt =
    elim (Bool-cases (ltb i fs)) [
      | inl in_file ↦
          let first : leb (base + hi) (base + v + i) ≡ false = ground (arith, hf, in_file) in
          let second : leb be (base + v + i) ≡ false = ground (arith, hb, in_file) in
          let third : leb w (base + v + i) ≡ true = ground (arith, hw, hd) in
          let fourth : ltb (base + v + i) (w + (hi - d)) ≡ true =
            ground (arith, hw, hd, hf, in_file) in
          let at : d + (base + v + i - w) ≡ v + i = omega (arith, hw, hd) in
          rw (first, second, third, fourth, at, in_file) refl
      | inr past ↦ rw past (elim (Bool-cases (leb (base + hi) (base + v + i))) [
        | inl zeros ↦
            let inside : ltb (base + v + i) (base + me) ≡ true = ground (arith, hm, lt) in
            rw (zeros, inside) refl
        | inr before ↦
            let first : leb be (base + v + i) ≡ true = ground (arith, hb, past) in
            let second : ltb (base + v + i) ae ≡ true = ground (arith, ha, before) in
            rw (before, first, second) refl
      ])
    ]

-- For pages of a power of two and a segment to load with more bytes in memory than in the file, at
-- the same place in memory as in the file apart from a base that is a multiple of the page size,
-- where nothing overflows: the steps leave the bytes of the file for its part in the file and zeros
-- for the rest.
pub map_segment-loads :
    (file m : ℕ → ℕ) (k j b i : ℕ) (p : Phdr)
    → k + j ≡ 64
    → (p.p_type == 1) ≡ true
    → p.p_filesz < p.p_memsz
    → p.p_offset ≡ p.p_vaddr
    → 2 ^ k * b + p.p_vaddr + p.p_memsz + 2 ^ k < 2 ^ 64
    → i < p.p_memsz
    → image file (map_segment (2 ^ k) (2 ^ k * b) p) m (2 ^ k * b + p.p_vaddr + i)
      ≡ (if ltb i p.p_filesz then file (p.p_offset + i) else 0)
unfolding file_hi segment_end segment_start bss
map_segment-loads file m k j b i p e load more same top lt =
    let positive = pow_pos k in
    let small : (p.p_vaddr + p.p_memsz) % 2 ^ 64 ≡ p.p_vaddr + p.p_memsz = omega (arith, top) in
    let small' : (p.p_offset + p.p_filesz) % 2 ^ 64 ≡ p.p_vaddr + p.p_filesz =
      omega (arith, top, same, more) in
    let start : (2 ^ k * b + p.p_vaddr + p.p_filesz) % 2 ^ 64
        ≡ 2 ^ k * b + (p.p_vaddr + p.p_filesz) =
      omega (arith, top, more) in
    let (qd, down, below, above) = align_down-greatest k j p.p_vaddr e (omega (arith, top)) in
    let down' : align_down p.p_offset (2 ^ k) ≡ 2 ^ k * qd =
      ap (λ (x : ℕ). align_down x (2 ^ k)) same ∙ down in
    let (qm, up_m, above_m, below_m) =
      align_up-least k j (p.p_vaddr + p.p_memsz) e (omega (arith, top)) in
    let (qf, up_f, above_f, below_f) =
      align_up-least k j (p.p_vaddr + p.p_filesz) e (omega (arith, top, more)) in
    let based = align_up-base k j b (p.p_vaddr + p.p_filesz) e (omega (arith, top, more)) in
    image-cases (2 ^ k) (2 ^ k * b) p file m (2 ^ k * b + p.p_vaddr + i) load more
      (rw (small, up_m) (omega (arith, top, below_m)))
    ∙ three_parts file _ (2 ^ k * b) p.p_vaddr p.p_filesz p.p_memsz i _ _ _ _ _ _
        (omega (arith, start)) (rw (small', up_f) above_f) (rw (small, up_m) above_m)
        (rw (small', start) based) (omega (arith, top, below, down, down'))
        (omega (arith, down', below)) lt
    ∙ rw same refl
