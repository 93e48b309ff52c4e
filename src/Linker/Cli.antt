-- ===== src/Linker/Cli.antt =====
-- ld/dynlink.c, `cli_parse`: the command line of the linker run by hand.
pub mod Text
pub mod Print
use aic_lib.Base.{
  ℕ, suc, ◌+◌, Bool, true, false, not, ◌&&◌, ◌||◌, ◌==◌, if◌then◌else◌, List, [], ◌∷◌, Option, none,
  some, drop,
}
use aic_lib.Linker.Cli.Text
use aic_lib.Linker.Strings.{Str, same_string, sncmp, is_zero}

pub record Settings : Type 0 where
  pub list_mode : Bool
  pub verify_mode : Bool
  pub library_path : Option Str
  pub preload_path : Option Str

-- What the program does next: go on with the settings and the index of the target, if any, or
-- leave with the usage text, the version, an error for a missing argument or for an unknown option.
pub data Command : Type 0 where
  ready : Settings → Option ℕ → Command
  usage : Command
  version : Command
  missing : Command
  unknown : Str → Command

-- What an argument is.
pub data Word : Type 0 where
  end_options : Word
  ask_usage : Word
  ask_version : Word
  list : Word
  verify : Word
  library_path : Word
  library_path_of : Str → Word
  preload : Word
  preload_of : Str → Word
  ignored : Word
  bad : Word
  target : Word

-- `a[0] == '-' && a[1] != 0`
unfoldable pub is_option : Str → Bool
is_option [] = false
is_option (c ∷ []) = false
is_option (c ∷ d ∷ a) = c == b'-'

unfoldable pub classify : Str → Word
classify a =
    if same_string a Text.double_dash
    then end_options
    else if same_string a Text.help || same_string a Text.h
    then ask_usage
    else if same_string a Text.version
    then ask_version
    else if same_string a Text.list || same_string a Text.ldd
    then list
    else if same_string a Text.verify
    then verify
    else if same_string a Text.library_path || same_string a Text.l
    then library_path
    else if is_zero (sncmp a Text.library_path_is 15)
    then library_path_of (drop 15 a)
    else if same_string a Text.preload
    then preload
    else if is_zero (sncmp a Text.preload_is 10)
    then preload_of (drop 10 a)
    else if same_string a Text.inhibit_cache || same_string a Text.inhibit_rpath
    then ignored
    else if same_string a Text.v || same_string a Text.verbose
    then list
    else if is_option a
    then bad
    else target

-- `*target_index` after `--`.
next_index : ℕ → List Str → Option ℕ
next_index i [] = none
next_index i (a ∷ argv) = some i

-- The arguments from index `i` on.
cli_loop : ℕ → List Str → Settings → Command
unfolding classify next_index
cli_loop i [] s = ready s none
cli_loop i (a ∷ []) s = elim (classify a) [
  | end_options ↦ ready s none
  | ask_usage ↦ usage
  | ask_version ↦ version
  | list ↦ cli_loop (suc i) [] (record s { list_mode = true })
  | verify ↦ cli_loop (suc i) [] (record s { verify_mode = true })
  | library_path ↦ missing
  | library_path_of path ↦ cli_loop (suc i) [] (record s { library_path = some path })
  | preload ↦ missing
  | preload_of names ↦ cli_loop (suc i) [] (record s { preload_path = some names })
  | ignored ↦ cli_loop (suc i) [] s
  | bad ↦ unknown a
  | target ↦ ready s (some i)
]
cli_loop i (a ∷ b ∷ argv) s = elim (classify a) [
  | end_options ↦ ready s (next_index (suc i) (b ∷ argv))
  | ask_usage ↦ usage
  | ask_version ↦ version
  | list ↦ cli_loop (suc i) (b ∷ argv) (record s { list_mode = true })
  | verify ↦ cli_loop (suc i) (b ∷ argv) (record s { verify_mode = true })
  | library_path ↦ cli_loop (suc (suc i)) argv (record s { library_path = some b })
  | library_path_of path ↦ cli_loop (suc i) (b ∷ argv) (record s { library_path = some path })
  | preload ↦ cli_loop (suc (suc i)) argv (record s { preload_path = some b })
  | preload_of names ↦ cli_loop (suc i) (b ∷ argv) (record s { preload_path = some names })
  | ignored ↦ cli_loop (suc i) (b ∷ argv) s
  | bad ↦ unknown a
  | target ↦ ready s (some i)
]

-- `argv` is what follows the program's name.
unfoldable pub cli_parse : List Str → Settings → Command
unfolding cli_loop
cli_parse argv s = cli_loop 1 argv (record s { list_mode = false; verify_mode = false })
