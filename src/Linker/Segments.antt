-- ===== src/Linker/Segments.antt =====
-- ld/dynlink.c, the checks of an ELF header and its program headers, and the mapping of a segment.
pub mod Cover
pub mod Steps
pub mod Image
use aic_lib.Base.{
  ℕ, zero, suc, ◌+◌, ◌-◌, ◌*◌, ◌/◌, ◌%◌, ◌^◌, Bool, true, false, not, ◌&&◌, ◌||◌, ◌==◌, leb, ltb,
  if◌then◌else◌, List, [], ◌∷◌, ◌++◌, Option, none, some, get_or, bit_and,
}
use aic_lib.Linker.Pages.{align_down, align_up}

pub record Ehdr : Type 0 where
  pub e_ident : List ℕ
  pub e_type : ℕ
  pub e_machine : ℕ
  pub e_version : ℕ
  pub e_phentsize : ℕ
  pub e_phnum : ℕ

pub record Phdr : Type 0 where
  pub p_type : ℕ
  pub p_flags : ℕ
  pub p_offset : ℕ
  pub p_vaddr : ℕ
  pub p_filesz : ℕ
  pub p_memsz : ℕ

-- Whether the header is accepted.
unfoldable pub validate_ehdr : Ehdr → Bool
validate_ehdr e =
    (get_or e.e_ident 0 0 == 0x7f)
    && (get_or e.e_ident 1 0 == b'E')
    && (get_or e.e_ident 2 0 == b'L')
    && (get_or e.e_ident 3 0 == b'F')
    && (get_or e.e_ident 4 0 == 2)
    && (get_or e.e_ident 5 0 == 1)
    && (e.e_version == 1)
    && (e.e_machine == 62)
    && (e.e_type == 3 || e.e_type == 2)
    && (e.e_phentsize == 56)
    && not (e.e_phnum == 0)
    && leb e.e_phnum 128

-- The bits of read, write and execute change places.
unfoldable pub seg_prot : ℕ → ℕ
seg_prot f =
    (if f / 4 % 2 == 1 then 1 else 0)
    + (if f / 2 % 2 == 1 then 2 else 0)
    + (if f % 2 == 1 then 4 else 0)

-- What the program headers ask for: thread-local storage, which is fatal, something that is
-- refused, or memory from one address up to another.
pub data Extent : Type 0 where
  tls : Extent
  refused : Extent
  span : ℕ → ℕ → Extent

unfoldable pub segment_start : ℕ → Phdr → ℕ
unfolding align_down
segment_start page p = align_down p.p_vaddr page

unfoldable pub segment_end : ℕ → Phdr → ℕ
unfolding align_up
segment_end page p = align_up ((p.p_vaddr + p.p_memsz) % 2 ^ 64) page

bad_segment : ℕ → Phdr → Bool
bad_segment page p =
    ltb p.p_memsz p.p_filesz || not (bit_and p.p_offset (page - 1) == bit_and p.p_vaddr (page - 1))

unfoldable pub scan_headers : ℕ → List Phdr → ℕ → ℕ → Extent
unfolding segment_start segment_end bad_segment
scan_headers page [] minv maxv =
    if minv == 2 ^ 64 - 1 || leb maxv minv then refused else span minv maxv
scan_headers page (p ∷ ph) minv maxv =
    let load = p.p_type == 1 in
    let lo = segment_start page p in
    let hi = segment_end page p in
    let rest =
      scan_headers page ph (if load && ltb lo minv then lo else minv)
        (if load && ltb maxv hi then hi else maxv) in
    if p.p_type == 7 then tls else if load && bad_segment page p then refused else rest

-- A change of the address space: file pages, a block cleared, fresh zero pages.
pub data Step : Type 0 where
  map_file : ℕ → ℕ → ℕ → Step
  clear : ℕ → ℕ → Step
  map_zero : ℕ → ℕ → Step

pub file_step : ℕ → ℕ → ℕ → List Step
file_step where_ file_lo file_hi =
    if ltb file_lo file_hi then map_file where_ (file_hi - file_lo) file_lo ∷ [] else []

pub clear_step : ℕ → ℕ → List Step
clear_step bss_start page_end =
    if ltb bss_start page_end then clear bss_start (page_end - bss_start) ∷ [] else []

pub zero_step : ℕ → ℕ → ℕ → List Step
zero_step base file_hi mem_hi =
    if ltb file_hi mem_hi then map_zero ((base + file_hi) % 2 ^ 64) (mem_hi - file_hi) ∷ [] else []

-- The steps that put a segment at its place, where each of them succeeds.
unfoldable pub map_segment : ℕ → ℕ → Phdr → List Step
unfolding segment_start segment_end align_down align_up file_step clear_step zero_step
map_segment page base p =
    let file_lo = align_down p.p_offset page in
    let file_hi = align_up ((p.p_offset + p.p_filesz) % 2 ^ 64) page in
    let bss_start = (base + p.p_vaddr + p.p_filesz) % 2 ^ 64 in
    if not (p.p_type == 1)
    then []
    else file_step ((base + segment_start page p) % 2 ^ 64) file_lo file_hi
      ++ (if ltb p.p_filesz p.p_memsz
          then clear_step bss_start (align_up bss_start page)
            ++ zero_step base file_hi (segment_end page p)
          else [])
