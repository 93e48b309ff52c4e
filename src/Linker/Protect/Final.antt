-- ===== src/Linker/Protect/Final.antt =====
-- What protection each address has when the linker is done.
use aic_lib.Base.{
  ℕ, zero, suc, ◌+◌, ◌-◌, ◌*◌, ◌%◌, ◌/◌, ◌^◌, ◌<◌, ◌≤◌, ◌≡◌, refl, ap, ◌∙◌, arith, Bool, true,
  false, not, ◌&&◌, ◌==◌, leb, if◌then◌else◌, List, [], ◌∷◌, ◌++◌, Option, none, some, All,
  Bool-cases, inl, inr,
}
use native.Mathlib.Nat.{div-lt_iff_lt-mul, le-div_iff_mul-le}
use aic_lib.Linker.Pages.{align_down, align_up, align_down-greatest, align_up-least, pow_pos}
use aic_lib.Linker.Segments.{Phdr, seg_prot}
use aic_lib.Linker.Protect.{
  MappedObject, Protect, segment_protect, is_protected, protect_segments, set_protections,
  apply_relro, finish_protections,
}

-- The address lies in a page that has one of the `n` bytes from `start` on.
unfoldable pub in_pages : ℕ → ℕ → ℕ → ℕ → Bool
in_pages page start n a =
    not (n == 0) && (leb (start / page) (a / page) && leb (a / page) ((start + n - 1) / page))

-- mprotect(2) sets the protection of all pages that have a part of its range.
unfoldable pub touches : ℕ → Protect → ℕ → Bool
unfolding in_pages
touches page c a = in_pages page c.addr c.size a

-- The protection at an address after the calls, from the one before.
unfoldable pub prot_after : ℕ → List Protect → ℕ → ℕ → ℕ
unfolding touches
prot_after page [] a prot = prot
prot_after page (c ∷ cs) a prot = prot_after page cs a (if touches page c a then c.prot else prot)

-- The last segment to load that has a byte in the page of the address.
unfoldable pub covering : ℕ → MappedObject → List Phdr → ℕ → Option Phdr
unfolding in_pages
covering page o [] a = none
covering page o (p ∷ ph) a = elim (covering page o ph a) [
  | some q ↦ some q
  | none ↦
      if (p.p_type == 1) && in_pages page (o.base + p.p_vaddr) p.p_memsz a then some p else none
]

-- The page of the address has a byte of the object's data that is read-only after relocation.
unfoldable pub in_relro : ℕ → MappedObject → ℕ → Bool
unfolding in_pages
in_relro page o a = not (o.relro == 0) && in_pages page o.relro o.relrosz a

-- The end of a segment to load does not wrap around, nor does it when it is rounded up.
abbrev pub NoWrap : ℕ → MappedObject → Phdr → Type 0
NoWrap page o p = p.p_type ≡ 1 → o.base + p.p_vaddr + p.p_memsz + page ≤ 2 ^ 64

-- No segment of the object and no part of its read-only data covers the address.
abbrev pub Clear : ℕ → ℕ → MappedObject → Type 0
Clear page a o = (covering page o o.phdrs a ≡ none) × (in_relro page o a ≡ false)

-- Its protection for an address that no read-only data covers.
unfoldable pub segment_prot : Option Phdr → ℕ → ℕ
segment_prot none prot = prot
segment_prot (some p) prot = seg_prot p.p_flags

prot_after-append :
    (page : ℕ) (cs ds : List Protect) (a prot : ℕ)
    → prot_after page (cs ++ ds) a prot ≡ prot_after page ds a (prot_after page cs a prot)
unfolding prot_after
prot_after-append page [] ds a prot = refl
prot_after-append page (c ∷ cs) ds a prot = prot_after-append page cs ds a _

last-prot :
    (c : Option Phdr) (b : Bool) (p : Phdr) (prot : ℕ)
    → segment_prot c (if b then seg_prot p.p_flags else prot)
      ≡ segment_prot (elim c [ some q ↦ some q | none ↦ if b then some p else none ]) prot
unfolding segment_prot
last-prot (some q) b p prot = refl
last-prot none true p prot = refl
last-prot none false p prot = refl

head-prot :
    (page : ℕ) (b : Bool) (c : Protect) (rest : List Protect) (a prot : ℕ)
    → prot_after page (if b then c ∷ rest else rest) a prot
      ≡ prot_after page rest a (if b && touches page c a then c.prot else prot)
unfolding prot_after
head-prot page true c rest a prot = refl
head-prot page false c rest a prot = refl

-- A number between two multiples of the page.
quotient : (page x q : ℕ) → 0 < page → q * page ≤ x → x < suc q * page → x / page ≡ q
quotient page x q some_page le lt =
    let above : q ≤ x / page = (le-div_iff_mul-le some_page).1 le in
    let below : x / page < suc q = (div-lt_iff_lt-mul some_page).1 lt in omega (arith, above, below)

in_pages-rounded :
    (page start n lo size q r a : ℕ)
    → 0 < page
    → lo ≡ page * q
    → lo ≤ start
    → start < lo + page
    → lo + size ≡ page * suc r
    → page * suc r < start + n + page
    → start + n ≤ page * suc r
    → 0 < n
    → in_pages page lo size a ≡ in_pages page start n a
unfolding in_pages
in_pages-rounded page start n lo size q r a some_page e le lt f low high some_bytes =
    let first = quotient page start q some_page (omega (arith, e, le)) (omega (arith, e, lt)) in
    let first' = quotient page lo q some_page (omega (arith, e)) (omega (arith, e, some_page)) in
    let last =
      quotient page (start + n - 1) r some_page (omega (arith, low))
        (omega (arith, high, some_bytes)) in
    let last' =
      quotient page (lo + size - 1) r some_page (omega (arith, f, some_page))
        (omega (arith, f, some_page)) in
    let bytes : (n == 0) ≡ false = ground arith in
    let bytes' : (size == 0) ≡ false = ground (arith, e, le, lt, f, high) in
    rw (first, first', last, last', bytes, bytes') refl

-- A size that is not zero rounds up to at least one page.
pages_up : (page end q : ℕ) → 0 < end → end ≤ page * q → (r : ℕ) × (q ≡ suc r)
pages_up page end zero some_bytes le = absurd (omega (arith, le, some_bytes))
pages_up page end (suc r) some_bytes le = (r, refl)

same_guard : (b c t u : Bool) → b ≡ true → c ≡ true → t ≡ u → ((b && c) && t) ≡ (b && u)
same_guard b c t u e f same = rw (e, f) same

-- The pages of the rounded range are those of the segment.
segment_protect-in_pages :
    (k j : ℕ) (o : MappedObject) (p : Phdr) (a : ℕ)
    → k + j ≡ 64
    → NoWrap (2 ^ k) o p
    → (is_protected p && touches (2 ^ k) (segment_protect (2 ^ k) o false p) a)
      ≡ ((p.p_type == 1) && in_pages (2 ^ k) (o.base + p.p_vaddr) p.p_memsz a)
unfolding is_protected touches segment_protect
segment_protect-in_pages k j o p a e fit = elim (Bool-cases (p.p_type == 1)) [
  | inr other ↦ rw other refl
  | inl load ↦ elim (Bool-cases (p.p_memsz == 0)) [
    | inl nothing ↦ rw (load, nothing, in_pages) refl
    | inr some_bytes ↦
        let start = o.base + p.p_vaddr in
        let room : start + p.p_memsz + 2 ^ k ≤ 2 ^ 64 = fit (ground arith) in
        let positive = pow_pos k in
        let bytes : 0 < p.p_memsz = ground arith in
        let whole : start % 2 ^ 64 ≡ start = omega (arith, room, positive) in
        let whole' : (start + p.p_memsz) % 2 ^ 64 ≡ start + p.p_memsz =
          omega (arith, room, positive) in
        let (q, down, le, lt) = align_down-greatest k j start e (omega (arith, room, positive)) in
        let (q', up, high, low) = align_up-least k j (start + p.p_memsz) e room in
        let (t, last) = pages_up (2 ^ k) (start + p.p_memsz) q' (omega (arith, bytes)) high in
        let top : 2 ^ k * q' ≡ 2 ^ k * suc t = ap (λ (x : ℕ). 2 ^ k * x) last in
        let lo = align_down (start % 2 ^ 64) (2 ^ k) in
        let hi = align_up ((start + p.p_memsz) % 2 ^ 64) (2 ^ k) in
        let lo_at : lo ≡ 2 ^ k * q = ap (λ (x : ℕ). align_down x (2 ^ k)) whole ∙ down in
        let hi_at : hi ≡ 2 ^ k * suc t = ap (λ (x : ℕ). align_up x (2 ^ k)) whole' ∙ up ∙ top in
        let size : lo + (hi + 2 ^ 64 - lo) % 2 ^ 64 ≡ 2 ^ k * suc t =
          omega (arith, lo_at, hi_at, top, le, high, low, room, bytes) in
        same_guard (p.p_type == 1) (not (p.p_memsz == 0)) _ _ load (rw some_bytes refl) (
          in_pages-rounded (2 ^ k) start p.p_memsz lo ((hi + 2 ^ 64 - lo) % 2 ^ 64) q t a positive
            lo_at (omega (arith, lo_at, le)) (omega (arith, lo_at, lt)) size
            (omega (arith, low, top)) (omega (arith, high, top)) bytes)
  ]
]

-- A call that is made only for a range that is not empty.
call-prot :
    (page : ℕ) (b c d : Bool) (x : Protect) (a prot : ℕ)
    → touches page x a ≡ (c && d)
    → prot_after page (if b && c then x ∷ [] else []) a prot
      ≡ (if b && (c && d) then x.prot else prot)
unfolding prot_after
call-prot page false c d x a prot e = refl
call-prot page true false d x a prot e = refl
call-prot page true true d x a prot e = rw e refl

module _ (k j : ℕ) (word : k + j ≡ 64) where
  protect_segments-prot :
      (o : MappedObject) (ph : List Phdr) (a prot : ℕ)
      → All (NoWrap (2 ^ k) o) ph
      → prot_after (2 ^ k) (protect_segments (2 ^ k) o false ph) a prot
        ≡ segment_prot (covering (2 ^ k) o ph a) prot
  unfolding protect_segments prot_after covering segment_prot segment_protect
  protect_segments-prot o [] a prot fit = refl
  protect_segments-prot o (p ∷ ph) a prot fit =
      let c = segment_protect (2 ^ k) o false p in
      let b = (p.p_type == 1) && in_pages (2 ^ k) (o.base + p.p_vaddr) p.p_memsz a in
      head-prot (2 ^ k) (is_protected p) c (protect_segments (2 ^ k) o false ph) a prot
      ∙ (ap
            (λ (d : Bool).
              prot_after (2 ^ k) (protect_segments (2 ^ k) o false ph) a
                (if d then seg_prot p.p_flags else prot))
            (segment_protect-in_pages k j o p a word fit.0)
          ∙ protect_segments-prot o ph a (if b then seg_prot p.p_flags else prot) fit.1
          ∙ last-prot (covering (2 ^ k) o ph a) b p prot)

  relro-prot :
      (o : MappedObject) (a prot : ℕ)
      → prot_after (2 ^ k) (apply_relro o) a prot ≡ (if in_relro (2 ^ k) o a then 1 else prot)
  unfolding apply_relro prot_after in_relro touches in_pages
  relro-prot o a prot =
      call-prot (2 ^ k) (not (o.relro == 0)) (not (o.relrosz == 0)) _
        (record { addr = o.relro; size = o.relrosz; prot = 1 }) a prot refl

  -- An object after which the address has the protection of its read-only data, of its last segment
  -- there, or the one from before.
  object-prot :
      (o : MappedObject) (rest : List Protect) (a prot : ℕ)
      → All (NoWrap (2 ^ k) o) o.phdrs
      → prot_after (2 ^ k) (set_protections (2 ^ k) o false ++ (apply_relro o ++ rest)) a prot
        ≡ prot_after
            (2 ^ k)
            rest
            a
            (if in_relro (2 ^ k) o a then 1 else segment_prot (covering (2 ^ k) o o.phdrs a) prot)
  unfolding set_protections
  object-prot o rest a prot fit =
      prot_after-append (2 ^ k) (protect_segments (2 ^ k) o false o.phdrs) _ a prot
      ∙ (prot_after-append (2 ^ k) (apply_relro o) rest a _
          ∙ ap (prot_after (2 ^ k) rest a) (
              relro-prot o a _
              ∙ ap (λ v. if in_relro (2 ^ k) o a then 1 else v)
                  (protect_segments-prot o o.phdrs a prot fit)))

  Clear-prot :
      (os : List MappedObject) (a prot : ℕ)
      → All (Clear (2 ^ k) a) os
      → All (λ o. All (NoWrap (2 ^ k) o) o.phdrs) os
      → prot_after (2 ^ k) (finish_protections (2 ^ k) os) a prot ≡ prot
  unfolding finish_protections prot_after segment_prot
  Clear-prot [] a prot h fit = refl
  Clear-prot (o ∷ os) a prot h fit =
      let rest = finish_protections (2 ^ k) os in
      let same : (if in_relro (2 ^ k) o a
            then 1
            else segment_prot (covering (2 ^ k) o o.phdrs a) prot)
          ≡ prot =
        rw (h.0.0, h.0.1) refl in
      elim (Bool-cases o.used) [
        | inl e ↦ rw e (
            object-prot o rest a prot fit.0
            ∙ (ap (prot_after (2 ^ k) rest a) same ∙ Clear-prot os a prot h.1 fit.1))
        | inr e ↦ rw e (Clear-prot os a prot h.1 fit.1)
      ]

seg_prot-bits : (f : ℕ) → seg_prot f ≡ (f / 4 % 2) + 2 * (f / 2 % 2) + 4 * (f % 2)
unfolding seg_prot
seg_prot-bits f = ground arith

-- For pages of a power of two and segments to load whose ends do not wrap around: after the calls of
-- `finish_protections`, an address in a page of a segment of an object in use, of which no object
-- behind it in the table has a byte, can only be read where the page has data of the object that is
-- read-only after relocation; everywhere else it has just the rights of the last segment to load
-- with a byte in its page, written or executed only as the flags of the segment say, whatever was
-- allowed before.
pub finish_protections-rights :
    (k j : ℕ) (o : MappedObject) (os : List MappedObject) (a prot : ℕ) (p : Phdr)
    → k + j ≡ 64
    → All (λ o. All (NoWrap (2 ^ k) o) o.phdrs) (o ∷ os)
    → o.used ≡ true
    → All (Clear (2 ^ k) a) os
    → covering (2 ^ k) o o.phdrs a ≡ some p
    → prot_after (2 ^ k) (finish_protections (2 ^ k) (o ∷ os)) a prot ≡ (
        if in_relro (2 ^ k) o a
        then 1
        else (p.p_flags / 4 % 2) + 2 * (p.p_flags / 2 % 2) + 4 * (p.p_flags % 2))
unfolding finish_protections segment_prot
finish_protections-rights k j o os a prot p word fit used clear c =
    let rest = finish_protections (2 ^ k) os in
    simp used (
      object-prot k j word o rest a prot fit.0
      ∙ (Clear-prot k j word os a _ clear fit.1
          ∙ rw c (ap (λ v. if in_relro (2 ^ k) o a then 1 else v) (seg_prot-bits p.p_flags))))
