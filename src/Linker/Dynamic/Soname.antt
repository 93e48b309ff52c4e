-- ===== src/Linker/Dynamic/Soname.antt =====
-- The name of a library and the place of its entry in the dynamic section.
use aic_lib.Base.{
  ℕ, ◌≡◌, refl, ap, ◌∙◌, arith, true, false, ◌==◌, if◌then◌else◌, List, [], ◌∷◌, ◌++◌, All,
}
use aic_lib.Linker.{Dyn}
use aic_lib.Linker.Strings.{Str}
use aic_lib.Linker.Dynamic.{
  DynInfo, set_address, set_size, set_other, set_entry, entries_loop, parse_dynamic,
}

-- Neither the end nor the address of the string table.
abbrev pub IsPlain : Dyn → Type 0
IsPlain (tag, val) = ((tag == 0) ≡ false) × ((tag == 5) ≡ false)

set_address-strtab :
    (tag at : ℕ) (o : DynInfo) → (tag == 5) ≡ false → (set_address tag at o).strtab ≡ o.strtab
unfolding set_address
set_address-strtab tag at o h = ground arith

set_size-strtab : (tag val : ℕ) (o : DynInfo) → (set_size tag val o).strtab ≡ o.strtab
unfolding set_size
set_size-strtab tag val o = ground arith

module _ (string : ℕ → Str) where
  set_other-strtab : (tag val : ℕ) (o : DynInfo) → (set_other string tag val o).strtab ≡ o.strtab
  unfolding set_other
  set_other-strtab tag val o = ground arith

  set_entry-strtab :
      (tag val : ℕ) (o : DynInfo)
      → (tag == 5) ≡ false
      → (set_entry string tag val o).strtab ≡ o.strtab
  unfolding set_entry
  set_entry-strtab tag val o h =
      set_other-strtab tag val _ ∙ (set_size-strtab tag val _ ∙ set_address-strtab tag _ o h)

  soname-ignored : (val : ℕ) (o : DynInfo) → o.strtab ≡ 0 → set_entry string 14 val o ≡ o
  unfolding set_entry set_other set_size set_address
  soname-ignored val o h = let e : (o.strtab == 0) ≡ true = ground (arith, h) in simp e refl

  entries-soname :
      (before after : List Dyn) (val : ℕ) (o : DynInfo)
      → o.strtab ≡ 0
      → All IsPlain before
      → entries_loop string (before ++ ((14, val) ∷ after)) o
        ≡ entries_loop string (before ++ after) o
  unfolding entries_loop
  entries-soname [] after val o h plain =
      ap (λ o'. entries_loop string after o') (soname-ignored val o h)
  entries-soname ((tag, v) ∷ before) after val o h plain =
      let kept = set_entry-strtab tag v o plain.0.1 in
      rw (plain.0.0) (entries-soname before after val (set_entry string tag v o) (kept ∙ h) plain.1)

  -- A DT_SONAME entry that stands before DT_STRTAB is without effect: for an object whose string
  -- table is not known yet, `parse_dynamic` gives the same without it.
  pub parse_dynamic-soname :
      (before after : List Dyn) (val : ℕ) (o : DynInfo)
      → o.strtab ≡ 0
      → All IsPlain before
      → parse_dynamic string (before ++ ((14, val) ∷ after)) o
        ≡ parse_dynamic string (before ++ after) o
  unfolding parse_dynamic
  parse_dynamic-soname before after val o h plain =
      ap (λ r. if o.dyn_addr == 0 then o else r) (entries-soname before after val o h plain)
