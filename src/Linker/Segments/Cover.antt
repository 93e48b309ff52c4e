-- ===== src/Linker/Segments/Cover.antt =====
-- The memory that is reserved for an object covers its segments.
use aic_lib.Base.{
  ℕ, ◌+◌, ◌-◌, ◌%◌, ◌^◌, ◌≡◌, ◌≢◌, ◌<◌, ◌≤◌, refl, arith, Bool, true, false, ◌&&◌, ◌||◌, ◌==◌, leb,
  ltb, if◌then◌else◌, List, [], ◌∷◌, All,
}
use mathlib.Core.Path.{subst}
use native.Mathlib.Nat.{mod-eq_of_lt}
use aic_lib.Linker.Pages.{align_down-greatest, align_up-least, pow_pos}
use aic_lib.Linker.Segments.{
  Phdr, Extent, tls, refused, span, segment_start, segment_end, bad_segment, scan_headers,
}

-- What the checks and the two roundings give.
record Rounded (page lo hi : ℕ) (p : Phdr) : Type 0 where
  pub not_tls : (p.p_type == 7) ≡ false
  pub above : (p.p_type == 1) ≡ true → lo ≤ segment_start page p
  pub below : (p.p_type == 1) ≡ true → segment_end page p ≤ hi
  pub sizes : (p.p_type == 1) ≡ true → p.p_filesz ≤ p.p_memsz

abbrev Covers : ℕ → List Phdr → ℕ → ℕ → Extent → Type 0
Covers page ph minv maxv tls = Unit {0}
Covers page ph minv maxv refused = Unit {0}
Covers page ph minv maxv (span lo hi) =
    (lo < hi) × (lo ≤ minv) × (maxv ≤ hi) × All (Rounded page lo hi) ph

Covers-if :
    (page : ℕ) (ph : List Phdr) (minv maxv : ℕ) (b : Bool) (e f : Extent)
    → (b ≡ true → Covers page ph minv maxv e)
    → (b ≡ false → Covers page ph minv maxv f)
    → Covers page ph minv maxv (if b then e else f)
Covers-if page ph minv maxv true e f h k = h refl
Covers-if page ph minv maxv false e f h k = k refl

Covers-cons :
    (page : ℕ) (p : Phdr) (ph : List Phdr) (minv maxv : ℕ) (e : Extent)
    → (p.p_type == 7) ≡ false
    → ((p.p_type == 1) && bad_segment page p) ≡ false
    → Covers page ph
        (if (p.p_type == 1) && ltb (segment_start page p) minv then segment_start page p else minv)
        (if (p.p_type == 1) && ltb maxv (segment_end page p) then segment_end page p else maxv)
        e
    → Covers page (p ∷ ph) minv maxv e
unfolding bad_segment
Covers-cons page p ph minv maxv tls no_tls good h = tt
Covers-cons page p ph minv maxv refused no_tls good h = tt
Covers-cons page p ph minv maxv (span lo hi) no_tls good (lt, low, high, all) = (
  lt,
  ground (arith, low),
  ground (arith, high),
  (
    record {
      not_tls = no_tls;
      above = (λ load. ground (arith, low, load));
      below = (λ load. ground (arith, high, load));
      sizes = (λ load. ground (arith, good, load));
    },
    all,
  ),
)

scan_headers-Covers :
    (page : ℕ) (ph : List Phdr) (minv maxv : ℕ)
    → Covers page ph minv maxv (scan_headers page ph minv maxv)
unfolding scan_headers
scan_headers-Covers page [] minv maxv =
    Covers-if page [] minv maxv (minv == 2 ^ 64 - 1 || leb maxv minv) refused (span minv maxv)
      (λ h. tt) (λ h. (ground (arith, h), omega arith, omega arith, tt))
scan_headers-Covers page (p ∷ ph) minv maxv =
    Covers-if page (p ∷ ph) minv maxv (p.p_type == 7) _ _ (λ h. tt)
      (λ no_tls.
        Covers-if page (p ∷ ph) minv maxv ((p.p_type == 1) && bad_segment page p) _ _ (λ h. tt)
          (λ good. Covers-cons page p ph minv maxv _ no_tls good (scan_headers-Covers page ph _ _)))

-- Each byte of a segment to load lies from `lo` on and before `hi`, and the segment has no more
-- bytes in the file than in memory. No segment is thread-local.
pub record Inside (lo hi : ℕ) (p : Phdr) : Type 0 where
  pub not_tls : p.p_type ≢ 7
  pub above : p.p_type ≡ 1 → lo ≤ p.p_vaddr
  pub below : p.p_type ≡ 1 → p.p_vaddr + p.p_memsz ≤ hi
  pub sizes : p.p_type ≡ 1 → p.p_filesz ≤ p.p_memsz

-- The end of a segment to load does not wrap around, nor does it when it is rounded up.
abbrev pub NoWrap : ℕ → Phdr → Type 0
NoWrap page p = p.p_type ≡ 1 → p.p_vaddr + p.p_memsz + page ≤ 2 ^ 64

Rounded-Inside :
    (k j lo hi : ℕ) (p : Phdr)
    → k + j ≡ 64
    → NoWrap (2 ^ k) p
    → Rounded (2 ^ k) lo hi p
    → Inside lo hi p
unfolding segment_start segment_end
Rounded-Inside k j lo hi p e fit r = record {
  not_tls = λ tls_segment. let no = r.not_tls in ground (arith, no, tls_segment);
  above = λ load.
      let (q, down, le, _) =
        align_down-greatest k j p.p_vaddr e (omega (arith, fit load, pow_pos k)) in
      let low = r.above (ground arith) in omega (arith, low, down, le);
  below = λ load.
      let small : (p.p_vaddr + p.p_memsz) % 2 ^ 64 ≡ p.p_vaddr + p.p_memsz =
        mod-eq_of_lt (omega (arith, fit load, pow_pos k)) in
      let (q, up, le, _) = align_up-least k j (p.p_vaddr + p.p_memsz) e (fit load) in
      let high = r.below (ground arith) in omega (arith, rw small at high, up, le);
  sizes = λ load. r.sizes (ground arith);
}

All-Inside :
    (k j lo hi : ℕ) (ph : List Phdr)
    → k + j ≡ 64
    → All (NoWrap (2 ^ k)) ph
    → All (Rounded (2 ^ k) lo hi) ph
    → All (Inside lo hi) ph
All-Inside k j lo hi [] e fit h = tt
All-Inside k j lo hi (p ∷ ph) e fit h =
    (Rounded-Inside k j lo hi p e fit.0 h.0, All-Inside k j lo hi ph e fit.1 h.1)

-- For pages of a power of two and segments to load whose ends do not wrap around: when
-- `scan_headers` gives an extent, no segment is thread-local, the extent is not empty, and each byte
-- of a segment to load lies in it, and the segment is no longer in the file than in memory.
pub scan_headers-Inside :
    (k j : ℕ) (ph : List Phdr) (lo hi : ℕ)
    → k + j ≡ 64
    → All (NoWrap (2 ^ k)) ph
    → scan_headers (2 ^ k) ph (2 ^ 64 - 1) 0 ≡ span lo hi
    → (lo < hi) × All (Inside lo hi) ph
scan_headers-Inside k j ph lo hi e fit scanned =
    let (lt, low, high, all) : Covers (2 ^ k) ph (2 ^ 64 - 1) 0 (span lo hi) =
      subst (Covers (2 ^ k) ph (2 ^ 64 - 1) 0) scanned
        (scan_headers-Covers (2 ^ k) ph (2 ^ 64 - 1) 0) in
    (lt, All-Inside k j lo hi ph e fit all)
