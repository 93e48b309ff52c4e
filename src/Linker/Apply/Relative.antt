-- ===== src/Linker/Apply/Relative.antt =====
-- Relocations relative to their own place.
use aic_lib.Base.{
  ℕ, ◌+◌, ◌-◌, ◌%◌, ◌^◌, ◌≡◌, ◌<◌, ◌≤◌, refl, arith, true, false, some, inl, inr, ◌⊎◌, Bool-cases,
  ◌==◌, ltb, if◌then◌else◌, List, get_elem?,
}
use aic_lib.Memory.{Ptr, Memory, done}
use aic_lib.Memory.Region.{Mapped, SameOutside}
use aic_lib.Linker.{Object, Rela, Sym}
use aic_lib.Linker.Relocate.{
  load_word, store_word, fits_s32, put, fatal, put_s32, symbol_action, reloc_type, reloc_sym,
  address, resolve_reloc_symbol,
}
use aic_lib.Linker.Apply.{
  with_symbol, resolved_action, rela_action, perform, left, stopped, left_by, apply_one_rela,
}
use aic_lib.Linker.Apply.Words.{store_word-Stored}

-- `(int64_t)(int32_t)w`
unfoldable pub sign_extend : ℕ → ℕ
sign_extend w = if ltb w (2 ^ 31) then w else w + (2 ^ 64 - 2 ^ 32)

-- The place of a relocation.
abbrev pub place : Object → Rela → Ptr
place o r = (o.base + r.r_offset) % 2 ^ 64

-- The distance from the place to the symbol and addend, as a 64-bit pattern.
abbrev pub displacement : Object → Rela → ℕ → ℕ
displacement o r s = ((s + r.r_addend) % 2 ^ 64 + 2 ^ 64 - place o r) % 2 ^ 64

-- The 64-bit pattern of a number from -2 ^ 31 to 2 ^ 31 - 1.
abbrev pub IsNear : ℕ → Type 0
IsNear v = (v < 2 ^ 31) ⊎ (2 ^ 64 - 2 ^ 31 ≤ v)

fits_s32-IsNear : (v : ℕ) → fits_s32 v ≡ true → IsNear v
unfolding fits_s32
fits_s32-IsNear v fits = ground (arith, fits)

fits_s32-far : (v : ℕ) → fits_s32 v ≡ false → (2 ^ 31 ≤ v) × (v < 2 ^ 64 - 2 ^ 31)
unfolding fits_s32
fits_s32-far v far = ground (arith, far)

sign_extend-fits : (v : ℕ) → v < 2 ^ 64 → fits_s32 v ≡ true → sign_extend (v % 2 ^ 32) ≡ v
unfolding sign_extend fits_s32
sign_extend-fits v lt fits = ground arith

put_s32-fits : (v : ℕ) → fits_s32 v ≡ true → put_s32 v ≡ put 4 (v % 2 ^ 32)
unfolding put_s32
put_s32-fits v fits = rw fits refl

put_s32-far : (v : ℕ) → fits_s32 v ≡ false → put_s32 v ≡ fatal
unfolding put_s32
put_s32-far v far = rw far refl

perform-put :
    (w v : ℕ) (p : Ptr) (m m' : Memory)
    → store_word w p v m ≡ done tt m'
    → perform (put w v) p m ≡ left m'
unfolding perform left_by
perform-put w v p m m' st = rw st refl

perform-fatal : (p : Ptr) (m : Memory) → perform fatal p m ≡ stopped
unfolding perform
perform-fatal p m = refl

-- The processor's sum of the place and the stored word.
displacement-target :
    (p t : ℕ) → p < 2 ^ 64 → t < 2 ^ 64 → (p + (t + 2 ^ 64 - p) % 2 ^ 64) % 2 ^ 64 ≡ t
displacement-target p t lt lt' = omega arith

module _ (call : ℕ → ℕ) (k : ℕ) (objects : List Object) (index : ℕ) (o : Object) (r : Rela)
    (sym : Sym) (s : ℕ) where
  -- The relocation has a symbol, which resolves to `s`.
  abbrev pub Refers : Type 0
  Refers =
      ((reloc_sym r == 0) ≡ false)
      × (get_elem? o.symtab (reloc_sym r) ≡ some sym)
      × (resolve_reloc_symbol call k objects index o (reloc_sym r) ≡ address s)

  pc32-action :
      Refers
      → (reloc_type r ≡ 2) ⊎ (reloc_type r ≡ 4)
      → rela_action call k objects index o r ≡ put_s32 (displacement o r s)
  unfolding rela_action with_symbol resolved_action symbol_action
  pc32-action (some_symbol, at, resolved) (inl e) = rw (e, some_symbol, at, resolved, e) refl
  pc32-action (some_symbol, at, resolved) (inr e) = rw (e, some_symbol, at, resolved, e) refl

  -- R_X86_64_PC32 and R_X86_64_PLT32, for a symbol that resolves to `s` and a mapped place: if the
  -- distance as a signed number lies from -2 ^ 31 to 2 ^ 31 - 1, the relocation ends and writes just
  -- the four bytes at its place, and the processor's sum of the place and these, extended by their
  -- sign, is the symbol's address plus the addend. Otherwise the relocation is fatal.
  pub apply_one_rela-pc32 :
      (m : Memory)
      → Refers
      → (reloc_type r ≡ 2) ⊎ (reloc_type r ≡ 4)
      → Mapped m (place o r) 4
      → (IsNear (displacement o r s)
          × ((m' : Memory) × (w : ℕ) × (apply_one_rela call k objects index o r m ≡ left m')
              × (load_word 4 (place o r) m' ≡ done w m')
              × ((place o r + sign_extend w) % 2 ^ 64 ≡ (s + r.r_addend) % 2 ^ 64)
              × SameOutside (place o r) 4 m m'))
        ⊎ ((2 ^ 31 ≤ displacement o r s)
            × (displacement o r s < 2 ^ 64 - 2 ^ 31)
            × (apply_one_rela call k objects index o r m ≡ stopped))
  unfolding apply_one_rela
  apply_one_rela-pc32 m refers type mapped =
      let action = pc32-action refers type in
      elim (Bool-cases (fits_s32 (displacement o r s))) [
        | inl fits ↦
            let (m', (st, ld, same)) =
              store_word-Stored 4 (place o r) (displacement o r s % 2 ^ 32) m (omega arith)
                mapped in
            let whole = sign_extend-fits (displacement o r s) (omega arith) fits in
            inl (
              fits_s32-IsNear (displacement o r s) fits,
              (
                m',
                displacement o r s % 2 ^ 32,
                rw action (
                    rw (put_s32-fits (displacement o r s) fits)
                      (perform-put 4 _ (place o r) m m' st)),
                ld,
                rw whole (
                    displacement-target (place o r) ((s + r.r_addend) % 2 ^ 64) (omega arith)
                      (omega arith)),
                same,
              ),
            )
        | inr far ↦
            let (above, below) = fits_s32-far (displacement o r s) far in
            inr (
              above,
              below,
              rw action (rw (put_s32-far (displacement o r s) far) (perform-fatal (place o r) m)),
            )
      ]
