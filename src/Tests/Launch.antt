-- ===== src/Tests/Launch.antt =====
-- Loading and starting with the dynamic linker.
use aic_lib.Base.{◌≡◌, refl, arith, true, false, ◌==◌, if◌then◌else◌, [], ◌∷◌, none, some}
use aic_lib.Linker.{Globals}
use aic_lib.Linker.Strings.{string_at, until_zero, same_string, scmp, is_zero}
use aic_lib.Linker.Paths.{base_name}
use aic_lib.Linker.Init.{
  State, finished, find_loaded_soname_or_basename, init_object_recursive, assign,
}
use aic_lib.Linker.Init.Order.{has_run}
use aic_lib.Linker.Load.{
  ElfFile, Kernel, Table, done, is_scanned, names_of, needed_names, mark_scanned,
  find_or_load_dependency, load_needed_recursive,
}
use aic_lib.Linker.Load.Scanned.{unmarked-le}
use aic_lib.Linker.Load.Ready.{IsTable}
use aic_lib.Linker.Load.Found.{Ends}
use aic_lib.Linker.Load.Closure.{Loads, load_needed_recursive-Loads}
use aic_lib.Linker.Launch.{RunsAfter, init_object_recursive-RunsAfter}
use aic_lib.Linker.Preload.{preload_one}
use aic_lib.Linker.Preload.Found.{Preloads, preload_one-Preloads}
use aic_lib.Linker.Paths.Search.{elements}
use aic_lib.Tests.Loader.{object, f_symbol, a, chain, fresh, rank, chain_Ranked}

-- A library that needs nothing, in every file.
abbrev library_file : ElfFile
library_file = record {
  ehdr = record {
    e_ident = 0x7f ∷ b'E' ∷ b'L' ∷ b'F' ∷ 2 ∷ 1 ∷ [];
    e_type = 3;
    e_machine = 62;
    e_version = 1;
    e_phentsize = 56;
    e_phnum = 1;
  };
  phdrs =
      record { p_type = 1; p_flags = 5; p_offset = 0; p_vaddr = 0; p_filesz = 4096; p_memsz = 4096 }
      ∷ [];
  tables = λ base. some (object f_symbol [] []);
}

abbrev kernel : Kernel
kernel = record {
  page = 4096;
  open_file = λ path. some 3;
  read_file = λ fd. some library_file;
  reserve = λ type minv size. some 0x10000;
  map_steps = λ base steps. true;
  make_writable = λ o. true;
}

abbrev globals : Globals
globals = record { envp = []; execfn = a; at_secure = false; library_path = none }

-- The program alone, and the program with the library that it needs.
abbrev alone : Table
alone = record {
  objects = object f_symbol a ((1, 5) ∷ (0, 0) ∷ []) ∷ [];
  needed_scanned = λ i. false;
}

abbrev both : Table
both = record { objects = chain; needed_scanned = λ i. false }

alone-IsTable : IsTable alone
alone-IsTable = ((refl, tt), omega arith, (λ j h. cc))

both-IsTable : IsTable both
both-IsTable = ((refl, (refl, tt)), omega arith, (λ j h. cc))

load_needed_recursive-Loads_example :
    Ends kernel globals
      (Loads kernel globals 0 alone)
      (load_needed_recursive kernel globals 513 0 alone)
load_needed_recursive-Loads_example =
    load_needed_recursive-Loads kernel globals 513 0 alone alone-IsTable (omega arith)
      (omega (arith, unmarked-le alone.needed_scanned 512))

-- The names of both objects are read.
abbrev both_read : Table
both_read = record {
  objects = chain;
  needed_scanned = λ j. if 1 == j then true else if 0 == j then true else false;
}

both_loads : load_needed_recursive kernel globals 513 0 both ≡ done both_read
unfolding load_needed_recursive find_or_load_dependency is_scanned names_of needed_names
    mark_scanned assign find_loaded_soname_or_basename same_string scmp is_zero string_at until_zero
    base_name
both_loads = refl

init_object_recursive-RunsAfter_example :
    (s' : State) × (init_object_recursive chain 2 0 fresh ≡ finished s')
    × RunsAfter both_read s'.started
    × (has_run 0 s'.started ≡ true)
unfolding has_run
init_object_recursive-RunsAfter_example =
    init_object_recursive-RunsAfter kernel globals 513 0 both both_read fresh rank both-IsTable
      (omega arith) (omega arith) (λ j. refl) both_loads chain_Ranked (tt, (λ j. refl), (λ j h. cc))
      (λ j. refl)

-- The list "b:".
preload_one-Preloads_example :
    Ends kernel globals
      (Preloads kernel globals (elements (b'b' ∷ b':' ∷ [])) alone)
      (preload_one kernel globals 0 (b'b' ∷ b':' ∷ []) alone)
preload_one-Preloads_example =
    preload_one-Preloads kernel globals 0 (b'b' ∷ b':' ∷ []) alone alone-IsTable
