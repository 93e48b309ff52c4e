-- ===== src/Tests/Mapping.antt =====
-- Relocation and the mapping of segments.
use aic_lib.Base.{
  ℕ, ◌+◌, ◌-◌, ◌*◌, ◌%◌, ◌^◌, ◌<◌, ◌≤◌, ◌≡◌, ◌⊎◌, refl, arith, ltb, if◌then◌else◌, [], ◌∷◌, All,
  inl,
}
use aic_lib.Memory.{Memory, done, load}
use aic_lib.Memory.Region.{SameOutside}
use aic_lib.Linker.{Object, Rela}
use aic_lib.Linker.Symbols.{st_bind, st_visibility}
use aic_lib.Linker.Scope.{is_visible}
use aic_lib.Linker.Relocate.{load_word, reloc_sym, reloc_type, resolve_reloc_symbol, symbol_addr}
use aic_lib.Linker.Apply.{apply_one_rela, apply_relr, left, stopped}
use aic_lib.Linker.Apply.Places.{relr_places}
use aic_lib.Linker.Apply.Added.{Added, apply_relr-Added}
use aic_lib.Linker.Apply.Relative.{IsNear, sign_extend, place, displacement, apply_one_rela-pc32}
use aic_lib.Linker.Pages.{align_up, align_down}
use aic_lib.Linker.Segments.{Phdr, scan_headers, map_segment, segment_end}
use aic_lib.Linker.Segments.Cover.{Inside, scan_headers-Inside}
use aic_lib.Linker.Segments.Steps.{image}
use aic_lib.Linker.Segments.Image.{map_segment-loads, map_segment-wiped}
use aic_lib.Tests.Store.{blocks, is_mapped_sound}
use aic_lib.Tests.Loader.{object, local_symbol, a}

abbrev word : Memory
word = blocks (1 ∷ 2 ∷ 3 ∷ 4 ∷ 5 ∷ []) []

abbrev holder : Object
holder = object local_symbol a []

-- R_X86_64_PC32 with symbol 1 and the addend -4.
abbrev rela : Rela
rela = record { r_offset = 0; r_info = 0x1_0000_0002; r_addend = 0xffff_ffff_ffff_fffc }

abbrev same_address : ℕ → ℕ
same_address x = x

apply_one_rela-pc32_example :
    (IsNear (displacement holder rela 150)
      × ((m' : Memory) × (w : ℕ) × (apply_one_rela same_address 5 (holder ∷ []) 0 holder rela word
            ≡ left m')
          × (load_word 4 (place holder rela) m' ≡ done w m')
          × ((place holder rela + sign_extend w) % 2 ^ 64 ≡ (150 + rela.r_addend) % 2 ^ 64)
          × SameOutside (place holder rela) 4 word m'))
    ⊎ ((2 ^ 31 ≤ displacement holder rela 150)
        × (displacement holder rela 150 < 2 ^ 64 - 2 ^ 31)
        × (apply_one_rela same_address 5 (holder ∷ []) 0 holder rela word ≡ stopped))
unfolding reloc_sym reloc_type resolve_reloc_symbol symbol_addr is_visible st_bind st_visibility
apply_one_rela-pc32_example =
    apply_one_rela-pc32 same_address 5 (holder ∷ []) 0 holder rela local_symbol 150 word
      (refl, refl, refl) (inl refl) (is_mapped_sound word 100 4 refl)

-- 0x220 bytes of the file at 0x2df0, and 0x228 in memory, at `vaddr`.
abbrev segment : ℕ → Phdr
segment vaddr = record {
  p_type = 1;
  p_flags = 6;
  p_offset = 0x2df0;
  p_vaddr = vaddr;
  p_filesz = 0x220;
  p_memsz = 0x228;
}

scan_headers-Inside_example : (0x2000 < 0x4000) × All (Inside 0x2000 0x4000) (segment 0x2df0 ∷ [])
unfolding scan_headers align_up align_down
scan_headers-Inside_example =
    scan_headers-Inside 12 52 (segment 0x2df0 ∷ []) 0x2000 0x4000 refl ((λ load. omega arith), tt)
      refl

abbrev bytes : ℕ → ℕ
bytes q = q % 251 + 1

abbrev before : ℕ → ℕ
before q = 7

map_segment-loads_example :
    image bytes
      (map_segment (2 ^ 12) (2 ^ 12 * 16) (segment 0x2df0))
      before
      (2 ^ 12 * 16 + 0x2df0 + 0x21f)
    ≡ (if ltb 0x21f 0x220 then bytes (0x2df0 + 0x21f) else 0)
map_segment-loads_example =
    map_segment-loads bytes before 12 52 16 0x21f (segment 0x2df0) refl refl (omega arith) refl
      (omega arith) (omega arith)

map_segment-wiped_example :
    image bytes (map_segment (2 ^ 12) 0 (segment 0x3df0)) before (0 + 0x4000) ≡ 0
unfolding segment_end align_up align_down
map_segment-wiped_example =
    map_segment-wiped bytes before 12 52 0 0x4000 (segment 0x3df0) refl refl (omega arith)
      (omega arith) (omega arith) (omega arith) (omega arith)

-- The words 1 and 2 at 208 and 216, marked by the address 108 and a bitmap, with the base 100.
abbrev two_words : Memory
two_words = blocks [] (
    0 ∷ 0 ∷ 0 ∷ 0 ∷ 0 ∷ 0 ∷ 0 ∷ 0 ∷ 1 ∷ 0 ∷ 0 ∷ 0 ∷ 0 ∷ 0 ∷ 0 ∷ 0 ∷ 2 ∷ 0 ∷ 0 ∷ 0 ∷ 0 ∷ 0 ∷ 0 ∷ 0
    ∷ [])

apply_relr-Added_example :
    (m' : Memory) × (apply_relr 100 (108 ∷ 3 ∷ []) 0 two_words ≡ done tt m')
    × Added 100 (208 ∷ 216 ∷ []) (1 ∷ 2 ∷ []) two_words m'
unfolding relr_places load_word load
apply_relr-Added_example =
    apply_relr-Added 100 (108 ∷ 3 ∷ []) 0 (1 ∷ 2 ∷ []) two_words ((inl (omega arith), tt), (tt, tt))
      (is_mapped_sound two_words 208 8 refl, refl, (is_mapped_sound two_words 216 8 refl, refl, tt))
