-- ===== src/Linker/Paths.antt =====
-- ld/dynlink.c, file names and the search for a library. `open_file` is the kernel's answer to
-- opening a file: a descriptor, or none.
pub mod Join
pub mod Search
pub mod Every
pub mod Bounds
use aic_lib.Base.{
  ℕ, zero, suc, ◌+◌, ◌-◌, ◌≡◌, Bool, true, false, not, ◌&&◌, ◌||◌, ◌==◌, leb, ltb, if◌then◌else◌,
  List, [], ◌∷◌, ◌++◌, Option, none, some, length, get_or, take, drop,
}
use aic_lib.Linker.{Object, Globals, ◌>>=◌}
use aic_lib.Linker.Strings.{Str, string_at, sncmp, is_zero}

unfoldable pub max_path : ℕ
max_path = 4096

unfoldable pub copy_path : Str → Option Str
unfolding max_path
copy_path src = if leb max_path (length src) then none else some src

-- `for (i = n; i > 0; --i)`: up to the last slash.
path_dir_loop : ℕ → Str → Option Str
unfolding max_path
path_dir_loop zero path = some (b'.' ∷ [])
path_dir_loop (suc i) path =
    if get_or path i 0 == b'/'
    then (if i == 0
        then some (b'/' ∷ [])
        else if leb max_path (suc i)
        then none
        else some (take i path))
    else path_dir_loop i path

unfoldable pub path_dir : Str → Option Str
unfolding max_path path_dir_loop
path_dir path =
    let n = length path in if n == 0 || leb max_path n then none else path_dir_loop n path

unfoldable pub build_join : Str → Str → Option Str
unfolding max_path
build_join dir name =
    let a = length dir in
    if leb max_path (a + 1 + length name + 1)
    then none
    else if ltb 0 a && not (get_or dir (a - 1) 0 == b'/')
    then some (dir ++ (b'/' ∷ name))
    else some (dir ++ name)

pub base_name_loop : Str → Str → Str
base_name_loop q [] = q
base_name_loop q (c ∷ p) = base_name_loop (if c == b'/' then p else q) p

-- Also the loop from the end in `find_loaded_soname_or_basename` and `load_by_fd`.
unfoldable pub base_name : Str → Str
unfolding base_name_loop
base_name p = base_name_loop p p

abbrev origin : Str
origin = b'$' ∷ b'O' ∷ b'R' ∷ b'I' ∷ b'G' ∷ b'I' ∷ b'N' ∷ []

abbrev origin_braces : Str
origin_braces = b'$' ∷ b'{' ∷ b'O' ∷ b'R' ∷ b'I' ∷ b'G' ∷ b'I' ∷ b'N' ∷ b'}' ∷ []

-- The directory, and what follows the first `n` bytes of the entry.
join_rest : Str → Str → ℕ → Option Str
unfolding max_path
join_rest dir p n =
    if leb max_path (length dir + length (drop n p) + 1) then none else some (dir ++ drop n p)

build_in : Str → Str → Option Str
unfolding join_rest max_path
build_in dir p =
    if is_zero (sncmp p origin 7)
    then join_rest dir p 7
    else if is_zero (sncmp p origin_braces 9)
    then join_rest dir p 9
    else if leb max_path (length p)
    then none
    else some p

unfoldable pub build_origin_path : Str → Str → Option Str
unfolding build_in
build_origin_path path entry = do dir ← path_dir path; build_in dir entry

unfoldable pub path_has_slash : Str → Bool
path_has_slash [] = false
path_has_slash (c ∷ s) = c == b'/' || path_has_slash s

-- The length of the first element of a list of directories.
unfoldable pub element_length : Str → ℕ
element_length [] = 0
element_length (c ∷ p) = if c == b':' then 0 else suc (element_length p)

unfoldable pub skip_colon : Str → Str
skip_colon [] = []
skip_colon (c ∷ p) = if c == b':' then p else c ∷ p

-- The file name that an element of the list stands for.
element_path : Str → Str → Str → Option Str
element_path objpath name elem = do
  candidate ← build_origin_path objpath (elim elem [ [] ↦ b'.' ∷ [] | c ∷ rest ↦ c ∷ rest ])
  build_join candidate name

-- A descriptor and the name of the file.
abbrev pub Opened : Type 0
Opened = ℕ × Str

or_else : Option Opened → Option Opened → Option Opened
or_else none next = next
or_else (some found) next = some found

module _ (open_file : Str → Option ℕ) where
  try_open : Option Str → Option Opened
  try_open none = none
  try_open (some path) = do fd ← open_file path; some (fd, path)

  try_path_list_loop : ℕ → Str → Str → Str → Option Opened
  unfolding max_path element_length skip_colon element_path try_open or_else
  try_path_list_loop zero p objpath name = none
  try_path_list_loop (suc k) [] objpath name = none
  try_path_list_loop (suc k) (c ∷ p) objpath name =
      let n = element_length (c ∷ p) in
      if leb max_path n
      then none
      else or_else (try_open (element_path objpath name (take n (c ∷ p))))
          (try_path_list_loop k (skip_colon (drop n (c ∷ p))) objpath name)

  unfoldable pub try_path_list : Str → Str → Str → Option Opened
  unfolding try_path_list_loop
  try_path_list list objpath name = try_path_list_loop (suc (length list)) list objpath name

unfoldable pub getenv_raw : List Str → Str → Option Str
getenv_raw [] name = none
getenv_raw (e ∷ envp) name =
    let n = length name in
    if is_zero (sncmp e name n) && (get_or e n 0 == b'=')
    then some (drop (n + 1) e)
    else getenv_raw envp name

abbrev ld_library_path : Str
ld_library_path =
    b'L' ∷ b'D' ∷ b'_' ∷ b'L' ∷ b'I' ∷ b'B' ∷ b'R' ∷ b'A' ∷ b'R' ∷ b'Y' ∷ b'_' ∷ b'P' ∷ b'A' ∷ b'T'
    ∷ b'H' ∷ []

-- The list of directories that the user gives, an absent one empty.
unfoldable pub user_list : Globals → Str
unfolding getenv_raw
user_list g = if g.at_secure then [] else elim g.library_path [
  | some list ↦ list
  | none ↦ elim (getenv_raw g.envp ld_library_path) [ none ↦ [] | some list ↦ list ]
]

abbrev pub lib64 : Str
lib64 = b'/' ∷ b'l' ∷ b'i' ∷ b'b' ∷ b'6' ∷ b'4' ∷ []

abbrev pub lib : Str
lib = b'/' ∷ b'l' ∷ b'i' ∷ b'b' ∷ []

abbrev pub usr : Str
usr = b'/' ∷ b'u' ∷ b's' ∷ b'r' ∷ []

abbrev pub path_of : Globals → Option Object → Str
path_of g none = g.execfn
path_of g (some o) = o.path

main_dir_join : Object → Str → Option Str
main_dir_join o name = do dir ← path_dir o.path; build_join dir name

-- `opened_path` when the copy fails.
unfoldable pub copied : Str → Str → Str
copied before src = elim (copy_path src) [ none ↦ before | some path ↦ path ]

module _ (open_file : Str → Option ℕ) where
  try_rpath : Option Object → Str → Option Opened
  unfolding try_path_list
  try_rpath none name = none
  try_rpath (some o) name =
      if not (o.rpath == 0) && (o.runpath == 0)
      then try_path_list open_file (string_at o.strtab o.rpath) o.path name
      else none

  try_runpath : Option Object → Str → Option Opened
  unfolding try_path_list
  try_runpath none name = none
  try_runpath (some o) name =
      if not (o.runpath == 0)
      then try_path_list open_file (string_at o.strtab o.runpath) o.path name
      else none

  try_main : Option Object → Str → Option Opened
  unfolding main_dir_join try_open
  try_main none name = none
  try_main (some o) name = if o.is_main then try_open open_file (main_dir_join o name) else none

  -- `before` is what `opened_path` holds at the call.
  unfoldable pub find_library_file : Globals → Option Object → Str → Str → Option Opened
  unfolding copied try_rpath try_path_list try_runpath try_main try_open or_else
  find_library_file g from name before =
      if path_has_slash name
      then (do fd ← open_file name; some (fd, copied before name))
      else or_else (try_rpath from name) (
          or_else (try_path_list open_file (user_list g) (path_of g from) name) (
            or_else (try_runpath from name) (
              or_else (try_main from name) (
                or_else (try_open open_file (build_join lib64 name)) (
                  or_else (try_open open_file (build_join (usr ++ lib64) name)) (
                    or_else (try_open open_file (build_join lib name))
                      (try_open open_file (build_join (usr ++ lib) name))))))))
