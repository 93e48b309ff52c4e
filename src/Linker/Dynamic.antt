-- ===== src/Linker/Dynamic.antt =====
-- ld/dynlink.c, the dynamic section of an object and the checks of its tables. `string` is the C
-- string at an address and `byte` the byte there.
pub mod Soname
use aic_lib.Base.{
  ℕ, ◌+◌, ◌-◌, ◌/◌, ◌%◌, ◌^◌, Bool, true, false, not, ◌&&◌, ◌||◌, ◌==◌, leb, if◌then◌else◌, List,
  [], ◌∷◌,
}
use aic_lib.Linker.{Dyn}
use aic_lib.Linker.Strings.{Str}
use aic_lib.Linker.Paths.{copied}
use aic_lib.Linker.Pages.{align_down, align_up}
use aic_lib.Linker.Segments.{Phdr}

-- The part of `Object` that the dynamic section sets, with the addresses of the tables.
pub record DynInfo : Type 0 where
  pub base : ℕ
  pub dyn_addr : ℕ
  pub dyn_count : ℕ
  pub relro : ℕ
  pub relrosz : ℕ
  pub strtab : ℕ
  pub got : ℕ
  pub strsz : ℕ
  pub symtab : ℕ
  pub syment : ℕ
  pub sysv_hash : ℕ
  pub gnu_hash : ℕ
  pub rela : ℕ
  pub relasz : ℕ
  pub relaent : ℕ
  pub relacount : ℕ
  pub jmprel : ℕ
  pub pltrelsz : ℕ
  pub pltrel_is_rela : Bool
  pub init : ℕ
  pub fini : ℕ
  pub init_array : ℕ
  pub init_arraysz : ℕ
  pub fini_array : ℕ
  pub fini_arraysz : ℕ
  pub soname : Str
  pub rpath : ℕ
  pub runpath : ℕ
  pub flags : ℕ
  pub flags1 : ℕ
  pub symbolic : Bool
  pub relrsz : ℕ
  pub relrent : ℕ
  pub relr : ℕ

-- The entries that hold an address; `at` is the address, with the base added.
set_address : ℕ → ℕ → DynInfo → DynInfo
set_address tag at o =
    if tag == 5
    then record o { strtab = at }
    else if tag == 3
    then record o { got = at }
    else if tag == 6
    then record o { symtab = at }
    else if tag == 4
    then record o { sysv_hash = at }
    else if tag == 0x6fff_fef5
    then record o { gnu_hash = at }
    else if tag == 7
    then record o { rela = at }
    else if tag == 23
    then record o { jmprel = at }
    else if tag == 12
    then record o { init = at }
    else if tag == 13
    then record o { fini = at }
    else if tag == 25
    then record o { init_array = at }
    else if tag == 26
    then record o { fini_array = at }
    else if tag == 36
    then record o { relr = at }
    else o

-- The entries that hold a size or a count.
set_size : ℕ → ℕ → DynInfo → DynInfo
set_size tag val o =
    if tag == 10
    then record o { strsz = val }
    else if tag == 11
    then record o { syment = val }
    else if tag == 8
    then record o { relasz = val }
    else if tag == 9
    then record o { relaent = val }
    else if tag == 0x6fff_fff9
    then record o { relacount = val }
    else if tag == 2
    then record o { pltrelsz = val }
    else if tag == 27
    then record o { init_arraysz = val }
    else if tag == 28
    then record o { fini_arraysz = val }
    else if tag == 35
    then record o { relrsz = val }
    else if tag == 37
    then record o { relrent = val }
    else o

module _ (string : ℕ → Str) where
  -- The other entries.
  set_other : ℕ → ℕ → DynInfo → DynInfo
  unfolding copied
  set_other tag val o =
      if tag == 20
      then record o { pltrel_is_rela = val == 7 }
      else if tag == 14
      then (if o.strtab == 0
          then o
          else record o { soname = copied o.soname (string ((o.strtab + val) % 2 ^ 64)) })
      else if tag == 15
      then record o { rpath = val }
      else if tag == 29
      then record o { runpath = val }
      else if tag == 30
      then record o { flags = val }
      else if tag == 0x6fff_fffb
      then record o { flags1 = val }
      else if tag == 16
      then record o { symbolic = true }
      else o

  -- The `switch` on the tag: no two of the three functions act on the same tag.
  unfoldable pub set_entry : ℕ → ℕ → DynInfo → DynInfo
  unfolding set_address set_size set_other
  set_entry tag val o =
      set_other tag val (set_size tag val (set_address tag ((o.base + val) % 2 ^ 64) o))

  entries_loop : List Dyn → DynInfo → DynInfo
  unfolding set_entry
  entries_loop [] o = o
  entries_loop ((tag, val) ∷ d) o =
      let rest = entries_loop d (set_entry tag val o) in if tag == 0 then o else rest

  -- The entries are those at `dyn_addr`.
  unfoldable pub parse_dynamic : List Dyn → DynInfo → DynInfo
  unfolding entries_loop
  parse_dynamic d o = if o.dyn_addr == 0 then o else entries_loop d o

find_sections : ℕ → List Phdr → DynInfo → DynInfo
unfolding align_down align_up
find_sections page [] o = o
find_sections page (p ∷ ph) o = find_sections page ph (
    if p.p_type == 2
    then record o { dyn_addr = (o.base + p.p_vaddr) % 2 ^ 64; dyn_count = p.p_memsz / 16 }
    else if p.p_type == 0x6474_e552
    then record o {
      relro = (o.base + align_down p.p_vaddr page) % 2 ^ 64;
      relrosz = align_up p.p_memsz page;
    }
    else o)

default_sizes : DynInfo → DynInfo
default_sizes o = record o {
  syment = if o.syment == 0 then 24 else o.syment;
  relaent = if not (o.rela == 0) && (o.relaent == 0) then 24 else o.relaent;
  relrent = if not (o.relr == 0) && (o.relrent == 0) then 8 else o.relrent;
}

-- What is left, or the fatal error of the first check that fails.
pub data Discovered : Type 0 where
  accepted : DynInfo → Discovered
  malformed_strings unsupported_syment unsupported_relaent unsupported_relrent : Discovered

check_tables : (ℕ → ℕ) → DynInfo → Discovered
check_tables byte o =
    if not (o.strtab == 0)
      && (leb 1 o.strsz && not (byte ((o.strtab + o.strsz + 2 ^ 64 - 1) % 2 ^ 64) == 0))
    then malformed_strings
    else if not (o.symtab == 0) && not (o.syment == 24)
    then unsupported_syment
    else if not (o.rela == 0) && not (o.relaent == 24)
    then unsupported_relaent
    else if not (o.relr == 0) && not (o.relrent == 8)
    then unsupported_relrent
    else accepted o

-- `entries` gives the dynamic section at an address, with as many entries as are counted.
unfoldable pub discover_dynamic :
    ℕ → (ℕ → ℕ → List Dyn) → (ℕ → Str) → (ℕ → ℕ) → List Phdr → DynInfo → Discovered
unfolding find_sections parse_dynamic default_sizes check_tables
discover_dynamic page entries string byte phdrs o =
    let found = find_sections page phdrs o in
    check_tables byte
      (default_sizes (parse_dynamic string (entries found.dyn_addr found.dyn_count) found))
