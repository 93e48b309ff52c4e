-- ===== src/Tests/Linker.antt =====
-- The dynamic linker.
use aic_lib.Base.{ℕ, ◌≡◌, refl, arith, false, [], ◌∷◌, Option, none, some}
use aic_lib.Linker.{Globals}
use aic_lib.Linker.Strings.{Str}
use aic_lib.Linker.Paths.{
  max_path, find_library_file, path_has_slash, build_join, path_dir, base_name,
}
use aic_lib.Linker.Paths.Join.{build_join-split}
use aic_lib.Linker.Paths.Search.{candidates, first_opened, find_library_file-first_opened}
use aic_lib.Linker.Cli.{Settings}

abbrev libc : Str
libc = b'l' ∷ b'i' ∷ b'b' ∷ b'c' ∷ []

abbrev usr_lib : Str
usr_lib = b'/' ∷ b'u' ∷ b's' ∷ b'r' ∷ b'/' ∷ b'l' ∷ b'i' ∷ b'b' ∷ []

build_join-split_example :
    (path : Str) × (build_join usr_lib libc ≡ some path)
    × (path_dir path ≡ some usr_lib)
    × (base_name path ≡ libc)
unfolding path_has_slash max_path
build_join-split_example = build_join-split usr_lib libc (omega arith) refl refl (omega arith)

-- Every file opens as descriptor 3.
abbrev opens : Str → Option ℕ
opens path = some 3

abbrev globals : Globals
globals = record {
  envp = [];
  execfn = [];
  at_secure = false;
  library_path = some (b'/' ∷ b'o' ∷ b':' ∷ b'.' ∷ []);
}

find_library_file-first_opened_example :
    find_library_file opens globals none libc [] ≡ first_opened opens (candidates globals none libc)
unfolding path_has_slash
find_library_file-first_opened_example =
    find_library_file-first_opened opens globals none libc [] refl

abbrev no_settings : Settings
no_settings = record {
  list_mode = false;
  verify_mode = false;
  library_path = none;
  preload_path = none;
}
