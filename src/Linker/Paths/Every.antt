-- ===== src/Linker/Paths/Every.antt =====
-- What holds of every file name that is joined from a directory and the name of a library holds of
-- the file that the search finds.
use aic_lib.Base.{
  ℕ, ◌≡◌, Bool, true, false, if◌then◌else◌, List, [], ◌∷◌, ◌++◌, Option, none, some, map, inl, inr,
  All, All-append, Option-cases,
}
use aic_lib.Linker.{Object, Globals, ◌>>=◌}
use aic_lib.Linker.Strings.{Str, string_at}
use aic_lib.Linker.Paths.{
  element_path, path_dir, Opened, or_else, try_open, main_dir_join, find_library_file,
  path_has_slash, build_join, user_list, path_of, lib64, lib, usr,
}
use aic_lib.Linker.Paths.Search.{
  elements, short_ones, list_candidates, rpath_candidates, runpath_candidates, main_candidates,
  system_candidates, candidates, first_opened, find_library_file-first_opened,
}

module _ (P : Str → Type 0) where
  abbrev pub Holds : Option Str → Type 0
  Holds none = Unit {0}
  Holds (some path) = P path

  abbrev pub HoldsOpened : Option Opened → Type 0
  HoldsOpened none = Unit {0}
  HoldsOpened (some (fd, path)) = P path

  All-if : (b : Bool) (cs : List (Option Str)) → All Holds cs → All Holds (if b then cs else [])
  All-if true cs h = h
  All-if false cs h = tt

  pub Holds-if : (b : Bool) (o p : Option Str) → Holds o → Holds p → Holds (if b then o else p)
  Holds-if true o p h k = h
  Holds-if false o p h k = k

module _ (P : Str → Type 0) (name : Str)
    (joined : (dir : Str) → Holds P (build_join dir name)) where
  after_dir-Holds : (o : Option Str) → Holds P (do dir ← o; build_join dir name)
  after_dir-Holds none = tt
  after_dir-Holds (some dir) = joined dir

  element_path-Holds : (objpath elem : Str) → Holds P (element_path objpath name elem)
  unfolding element_path
  element_path-Holds objpath elem = after_dir-Holds _

  map-Holds : (objpath : Str) (es : List Str) → All (Holds P) (map (element_path objpath name) es)
  map-Holds objpath [] = tt
  map-Holds objpath (e ∷ es) = (element_path-Holds objpath e, map-Holds objpath es)

  list_candidates-Holds : (list objpath : Str) → All (Holds P) (list_candidates list objpath name)
  unfolding list_candidates
  list_candidates-Holds list objpath = map-Holds objpath (short_ones (elements list))

  rpath-Holds : (from : Option Object) → All (Holds P) (rpath_candidates from name)
  unfolding rpath_candidates
  rpath-Holds none = tt
  rpath-Holds (some o) = All-if P _ _ (list_candidates-Holds (string_at o.strtab o.rpath) o.path)

  runpath-Holds : (from : Option Object) → All (Holds P) (runpath_candidates from name)
  unfolding runpath_candidates
  runpath-Holds none = tt
  runpath-Holds (some o) =
      All-if P _ _ (list_candidates-Holds (string_at o.strtab o.runpath) o.path)

  main-Holds : (from : Option Object) → All (Holds P) (main_candidates from name)
  unfolding main_candidates main_dir_join
  main-Holds none = tt
  main-Holds (some o) = All-if P o.is_main _ (after_dir-Holds (path_dir o.path), tt)

  system-Holds : All (Holds P) (system_candidates name)
  unfolding system_candidates
  system-Holds = (joined lib64, (joined (usr ++ lib64), (joined lib, (joined (usr ++ lib), tt))))

  candidates-Holds : (g : Globals) (from : Option Object) → All (Holds P) (candidates g from name)
  unfolding candidates
  candidates-Holds g from = All-append (Holds P) (rpath_candidates from name) _ (rpath-Holds from) (
      All-append (Holds P) (list_candidates (user_list g) (path_of g from) name) _
        (list_candidates-Holds (user_list g) (path_of g from))
        (All-append (Holds P) (runpath_candidates from name) _ (runpath-Holds from)
          (All-append (Holds P) (main_candidates from name) _ (main-Holds from) system-Holds)))

  module _ (open_file : Str → Option ℕ) where
    try_open-Holds : (o : Option Str) → Holds P o → HoldsOpened P (try_open open_file o)
    unfolding try_open
    try_open-Holds none h = tt
    try_open-Holds (some path) h = elim (Option-cases (open_file path)) [
      | inl e ↦ rw e tt
      | inr (fd, e) ↦ rw e h
    ]

    or_else-Holds :
        (o p : Option Opened) → HoldsOpened P o → HoldsOpened P p → HoldsOpened P (or_else o p)
    unfolding or_else
    or_else-Holds none p h k = k
    or_else-Holds (some found) p h k = h

    first_opened-Holds :
        (cs : List (Option Str)) → All (Holds P) cs → HoldsOpened P (first_opened open_file cs)
    unfolding first_opened
    first_opened-Holds [] h = tt
    first_opened-Holds (c ∷ cs) h =
        or_else-Holds _ _ (try_open-Holds c h.0) (first_opened-Holds cs h.1)

    pub find_library_file-HoldsOpened :
        (g : Globals) (from : Option Object) (before : Str)
        → path_has_slash name ≡ false
        → HoldsOpened P (find_library_file open_file g from name before)
    find_library_file-HoldsOpened g from before plain =
        rw (find_library_file-first_opened open_file g from name before plain)
          (first_opened-Holds (candidates g from name) (candidates-Holds g from))
