-- ===== src/Tests/Program.antt =====
-- The program that the dynamic linker hands over to, and the rights of its pages.
use aic_lib.Base.{ℕ, ◌≡◌, refl, arith, true, false, List, [], ◌∷◌, ◌++◌, some, take, drop}
use aic_lib.Linker.Segments.{Phdr}
use aic_lib.Linker.Startup.{initial_startup, read_env, parse_initial_stack, replace_args}
use aic_lib.Linker.Startup.Stack.{aux_words, stack, aux_values, parse_initial_stack-stack}
use aic_lib.Linker.Startup.Handover.{replace_args-leftover}
use aic_lib.Linker.Protect.{MappedObject, finish_protections}
use aic_lib.Linker.Protect.Final.{
  prot_after, in_relro, in_pages, covering, finish_protections-rights,
}
use aic_lib.Linker.Dynamic.{DynInfo, parse_dynamic}
use aic_lib.Linker.Dynamic.Soname.{parse_dynamic-soname}
use aic_lib.Linker.MainProgram.{find_base, holds_table}
use aic_lib.Linker.MainProgram.Base.{table_header, table_segment, find_base-bias}
use aic_lib.Tests.Loader.{a}

-- The linker and a program with one argument, an environment of three strings, and the entries for
-- the page size and the entry point.
abbrev argv : List ℕ
argv = 0x7000 ∷ 0x7010 ∷ 0x7020 ∷ []

abbrev env : List ℕ
env = 0x7100 ∷ 0x7110 ∷ 0x7120 ∷ []

abbrev aux : List (ℕ × ℕ)
aux = (6, 8192) ∷ (9, 0x1000) ∷ []

parse_initial_stack-stack_example :
    parse_initial_stack (stack argv env aux)
    ≡ some (env, record initial_startup { page = 8192; main_entry = 0x1000 })
unfolding aux_values initial_startup
parse_initial_stack-stack_example =
    parse_initial_stack-stack argv env aux (refl, (refl, (refl, tt))) (refl, (refl, tt))

replace_args-leftover_example :
    (take 3 (replace_args 1 (stack argv env aux)) ≡ 2 ∷ 0x7010 ∷ 0x7020 ∷ [])
    × (read_env (drop 4 (replace_args 1 (stack argv env aux)))
        ≡ some ([], env ++ (0 ∷ aux_words aux)))
replace_args-leftover_example =
    replace_args-leftover 2 1 argv env aux refl (omega arith) (refl, (refl, (refl, tt)))

-- Code in the first page and data in the next two, of which the first is read-only.
abbrev data_segment : Phdr
data_segment = record {
  p_type = 1;
  p_flags = 6;
  p_offset = 4096;
  p_vaddr = 4096;
  p_filesz = 4096;
  p_memsz = 8192;
}

abbrev mapped : MappedObject
mapped = record {
  used = true;
  base = 0x10000;
  phdrs =
      record { p_type = 1; p_flags = 5; p_offset = 0; p_vaddr = 0; p_filesz = 4096; p_memsz = 4096 }
      ∷ data_segment
      ∷ [];
  relro = 0x11000;
  relrosz = 4096;
}

finish_protections-rights_example :
    prot_after 4096 (finish_protections 4096 (mapped ∷ [])) 0x11400 7 ≡ 1
unfolding covering in_relro in_pages
finish_protections-rights_example =
    finish_protections-rights 12 52 mapped [] 0x11400 7 data_segment refl
      (((λ load. omega arith), ((λ load. omega arith), tt)), tt) refl tt refl

abbrev no_dynamic : DynInfo
no_dynamic = record {
  base = 0x10000;
  dyn_addr = 0x12000;
  dyn_count = 4;
  relro = 0;
  relrosz = 0;
  strtab = 0;
  got = 0;
  strsz = 0;
  symtab = 0;
  syment = 0;
  sysv_hash = 0;
  gnu_hash = 0;
  rela = 0;
  relasz = 0;
  relaent = 0;
  relacount = 0;
  jmprel = 0;
  pltrelsz = 0;
  pltrel_is_rela = false;
  init = 0;
  fini = 0;
  init_array = 0;
  init_arraysz = 0;
  fini_array = 0;
  fini_arraysz = 0;
  soname = [];
  rpath = 0;
  runpath = 0;
  flags = 0;
  flags1 = 0;
  symbolic = false;
  relrsz = 0;
  relrent = 0;
  relr = 0;
}

-- A section as linkers write it: what is needed, the name, and then the string table.
parse_dynamic-soname_example :
    parse_dynamic (λ address. a) ((1, 5) ∷ (14, 1) ∷ (5, 0x200) ∷ (0, 0) ∷ []) no_dynamic
    ≡ parse_dynamic (λ address. a) ((1, 5) ∷ (5, 0x200) ∷ (0, 0) ∷ []) no_dynamic
parse_dynamic-soname_example =
    parse_dynamic-soname (λ address. a) ((1, 5) ∷ []) ((5, 0x200) ∷ (0, 0) ∷ []) 1 no_dynamic refl
      ((refl, refl), tt)

-- The headers of a program at its own addresses: that of the table, and the first segment.
abbrev table_phdr : Phdr
table_phdr = record {
  p_type = 6;
  p_flags = 4;
  p_offset = 64;
  p_vaddr = 0x400040;
  p_filesz = 112;
  p_memsz = 112;
}

abbrev text_segment : Phdr
text_segment = record {
  p_type = 1;
  p_flags = 5;
  p_offset = 0;
  p_vaddr = 0x400000;
  p_filesz = 4096;
  p_memsz = 4096;
}

-- Its base is zero, and 64 is found.
find_base-bias_example : find_base 0x400040 (table_phdr ∷ text_segment ∷ []) ≡ 64
unfolding table_segment holds_table table_header
find_base-bias_example =
    find_base-bias 0x400040 0 (table_phdr ∷ text_segment ∷ []) table_phdr refl (omega arith)
      (omega arith) refl
