-- ===== src/Linker/Protect.antt =====
-- ld/dynlink.c, the protection of the pages of the loaded objects.
pub mod Final
use aic_lib.Base.{
  ℕ, ◌+◌, ◌-◌, ◌%◌, ◌^◌, Bool, true, false, not, ◌&&◌, ◌||◌, ◌==◌, leb, ltb, if◌then◌else◌, List,
  [], ◌∷◌, ◌++◌, bit_or,
}
use aic_lib.Linker.Pages.{align_down, align_up}
use aic_lib.Linker.Segments.{Phdr, seg_prot}

-- The part of an object that its protections depend on.
pub record MappedObject : Type 0 where
  pub used : Bool
  pub base : ℕ
  pub phdrs : List Phdr
  pub relro : ℕ
  pub relrosz : ℕ

-- A call of `mprotect`.
pub record Protect : Type 0 where
  pub addr : ℕ
  pub size : ℕ
  pub prot : ℕ

unfoldable pub segment_protect : ℕ → MappedObject → Bool → Phdr → Protect
unfolding align_down align_up seg_prot
segment_protect page o add_write p =
    let lo = align_down ((o.base + p.p_vaddr) % 2 ^ 64) page in
    let hi = align_up ((o.base + p.p_vaddr + p.p_memsz) % 2 ^ 64) page in
    let prot = seg_prot p.p_flags in
    record {
      addr = lo;
      size = (hi + 2 ^ 64 - lo) % 2 ^ 64;
      prot = if add_write then bit_or prot 2 else prot;
    }

unfoldable pub is_protected : Phdr → Bool
is_protected p = (p.p_type == 1) && not (p.p_memsz == 0)

protect_segments : ℕ → MappedObject → Bool → List Phdr → List Protect
unfolding segment_protect is_protected
protect_segments page o add_write [] = []
protect_segments page o add_write (p ∷ ph) =
    let rest = protect_segments page o add_write ph in
    if is_protected p then segment_protect page o add_write p ∷ rest else rest

-- The calls, each of which must succeed for the linker to go on.
unfoldable pub set_protections : ℕ → MappedObject → Bool → List Protect
unfolding protect_segments
set_protections page o add_write = protect_segments page o add_write o.phdrs

unfoldable pub apply_relro : MappedObject → List Protect
apply_relro o =
    if not (o.relro == 0) && not (o.relrosz == 0)
    then record { addr = o.relro; size = o.relrosz; prot = 1 } ∷ []
    else []

unfoldable pub finish_protections : ℕ → List MappedObject → List Protect
unfolding set_protections apply_relro
finish_protections page [] = []
finish_protections page (o ∷ os) =
    let rest = finish_protections page os in
    if o.used then set_protections page o false ++ (apply_relro o ++ rest) else rest
