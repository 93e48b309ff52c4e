-- ===== src/Linker/MainProgram.antt =====
-- ld/dynlink.c, load_main_from_stack: the program that the kernel has mapped before the linker runs.
pub mod Base
use aic_lib.Base.{
  ℕ, ◌+◌, ◌-◌, ◌%◌, ◌^◌, Bool, true, false, not, ◌&&◌, ◌||◌, ◌==◌, leb, ltb, if◌then◌else◌, List,
  [], ◌∷◌, Option, none, some,
}
use aic_lib.Linker.Segments.{Ehdr, Phdr, validate_ehdr}

-- `exec_phdr` is the address of the program headers in memory. Without a header of its own the
-- table leaves the base at zero.
unfoldable pub phdr_base : ℕ → List Phdr → ℕ
phdr_base exec_phdr [] = 0
phdr_base exec_phdr (p ∷ ph) =
    if p.p_type == 6 then (exec_phdr + 2 ^ 64 - p.p_vaddr) % 2 ^ 64 else phdr_base exec_phdr ph

unfoldable pub holds_table : ℕ → Phdr → Bool
holds_table exec_phdr p =
    (p.p_type == 1) && (leb p.p_vaddr exec_phdr && ltb exec_phdr ((p.p_vaddr + p.p_memsz) % 2 ^ 64))

unfoldable pub load_base : ℕ → List Phdr → ℕ
unfolding holds_table
load_base exec_phdr [] = 0
load_base exec_phdr (p ∷ ph) =
    if holds_table exec_phdr p then exec_phdr - p.p_vaddr else load_base exec_phdr ph

-- The load bias.
unfoldable pub find_base : ℕ → List Phdr → ℕ
unfolding phdr_base load_base
find_base exec_phdr ph =
    let base = phdr_base exec_phdr ph in if base == 0 then load_base exec_phdr ph else base

-- `read_ehdr` is the ELF header at an address.
module _ (read_ehdr : ℕ → Ehdr) where
  valid_at : ℕ → Option Ehdr → Option Ehdr
  unfolding validate_ehdr
  valid_at address before =
      if validate_ehdr (read_ehdr address) then some (read_ehdr address) else before

  -- The header at the first segment to load whose address is zero.
  first_segment : ℕ → List Phdr → Option Ehdr → Option Ehdr
  unfolding valid_at
  first_segment base [] before = before
  first_segment base (p ∷ ph) before =
      if (p.p_type == 1) && (p.p_vaddr == 0)
      then valid_at base before
      else first_segment base ph before

  main_header : ℕ → List Phdr → Option Ehdr
  unfolding first_segment
  main_header base ph = first_segment base ph (if base == 0 then none else valid_at base none)

-- The base and the header, if one was accepted, or a fatal error.
pub data MainProgram : Type 0 where
  no_table too_many_headers : MainProgram
  main_program : ℕ → Option Ehdr → MainProgram

-- The headers are as many as are counted.
unfoldable pub load_main_from_stack : (ℕ → Ehdr) → ℕ → ℕ → List Phdr → MainProgram
unfolding find_base main_header
load_main_from_stack read_ehdr exec_phdr exec_phnum ph =
    let base = find_base exec_phdr ph in
    if exec_phdr == 0 || exec_phnum == 0
    then no_table
    else if ltb 128 exec_phnum
    then too_many_headers
    else main_program base (main_header read_ehdr base ph)
