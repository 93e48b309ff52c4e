-- ===== src/Linker/Paths/Search.antt =====
-- The order in which a library is searched for.
use aic_lib.Base.{
  ℕ, zero, suc, ◌≡◌, ◌<◌, ◌≤◌, refl, arith, false, not, ◌==◌, ◌&&◌, leb, if◌then◌else◌, List, [],
  ◌∷◌, ◌++◌, Option, none, some, length, take, drop, map, Bool-cases, inl, inr, ap, sym,
}
use aic_lib.Linker.{Object, Globals}
use aic_lib.Linker.Strings.{Str, string_at}
use aic_lib.Linker.Paths.{
  max_path, element_length, skip_colon, element_path, Opened, or_else, try_open, try_path_list_loop,
  try_path_list, user_list, lib64, lib, usr, path_of, main_dir_join, try_rpath, try_runpath,
  try_main, find_library_file, path_has_slash, build_join,
}

-- The elements between the colons. Nothing follows a colon at the end.
push : ℕ → List Str → List Str
push c [] = (c ∷ []) ∷ []
push c (e ∷ es) = (c ∷ e) ∷ es

unfoldable pub elements : Str → List Str
unfolding push
elements [] = []
elements (c ∷ list) = if c == b':' then [] ∷ elements list else push c (elements list)

-- The elements before the first that is too long for a file name.
unfoldable pub short_ones : List Str → List Str
unfolding max_path
short_ones [] = []
short_ones (e ∷ es) = if leb max_path (length e) then [] else e ∷ short_ones es

unfoldable pub list_candidates : Str → Str → Str → List (Option Str)
unfolding element_path short_ones elements
list_candidates list objpath name = map (element_path objpath name) (short_ones (elements list))

unfoldable pub rpath_candidates : Option Object → Str → List (Option Str)
unfolding list_candidates
rpath_candidates none name = []
rpath_candidates (some o) name =
    if not (o.rpath == 0) && (o.runpath == 0)
    then list_candidates (string_at o.strtab o.rpath) o.path name
    else []

unfoldable pub runpath_candidates : Option Object → Str → List (Option Str)
unfolding list_candidates
runpath_candidates none name = []
runpath_candidates (some o) name =
    if not (o.runpath == 0) then list_candidates (string_at o.strtab o.runpath) o.path name else []

unfoldable pub main_candidates : Option Object → Str → List (Option Str)
unfolding main_dir_join
main_candidates none name = []
main_candidates (some o) name = if o.is_main then main_dir_join o name ∷ [] else []

unfoldable pub system_candidates : Str → List (Option Str)
system_candidates name =
    build_join lib64 name
    ∷ build_join (usr ++ lib64) name
    ∷ build_join lib name
    ∷ build_join (usr ++ lib) name
    ∷ []

-- The file names to try, in order. One that does not fit counts as absent.
unfoldable pub candidates : Globals → Option Object → Str → List (Option Str)
unfolding user_list list_candidates rpath_candidates runpath_candidates main_candidates
    system_candidates
candidates g from name =
    rpath_candidates from name
    ++ (list_candidates (user_list g) (path_of g from) name
        ++ (runpath_candidates from name ++ (main_candidates from name ++ system_candidates name)))

-- The first of them that opens.
unfoldable pub first_opened : (Str → Option ℕ) → List (Option Str) → Option Opened
unfolding or_else try_open
first_opened open_file [] = none
first_opened open_file (c ∷ cs) = or_else (try_open open_file c) (first_opened open_file cs)

or_else_assoc : (a b c : Option Opened) → or_else (or_else a b) c ≡ or_else a (or_else b c)
unfolding or_else
or_else_assoc none b c = refl
or_else_assoc (some a) b c = refl

or_else-none : (a : Option Opened) → or_else a none ≡ a
unfolding or_else
or_else-none none = refl
or_else-none (some a) = refl

pub elements_step :
    (c : ℕ) (p : Str)
    → elements (c ∷ p)
      ≡ take (element_length (c ∷ p)) (c ∷ p)
        ∷ elements (skip_colon (drop (element_length (c ∷ p)) (c ∷ p)))
unfolding elements push element_length skip_colon
elements_step c [] = ground arith
elements_step c (d ∷ p) = ground (arith, elements_step d p)

skip_colon-length : (p : Str) → length (skip_colon p) ≤ length p
unfolding skip_colon
skip_colon-length [] = omega arith
skip_colon-length (c ∷ p) = ground arith

pub rest-length :
    (c : ℕ) (p : Str) → length (skip_colon (drop (element_length (c ∷ p)) (c ∷ p))) ≤ length p
unfolding skip_colon element_length
rest-length c [] = ground arith
rest-length c (d ∷ p) = elim (Bool-cases (c == b':')) [
  | inl e ↦ ground arith
  | inr ne ↦ ground (arith, rest-length d p)
]

element-length : (p : Str) → length (take (element_length p) p) ≡ element_length p
unfolding element_length
element-length [] = refl
element-length (c ∷ p) = ground (arith, element-length p)

module _ (open_file : Str → Option ℕ) where
  first_opened-append :
      (ps qs : List (Option Str))
      → first_opened open_file (ps ++ qs)
        ≡ or_else (first_opened open_file ps) (first_opened open_file qs)
  unfolding first_opened or_else
  first_opened-append [] qs = refl
  first_opened-append (a ∷ ps) qs = rw (first_opened-append ps qs) (
      sym (
        or_else_assoc (try_open open_file a) (first_opened open_file ps)
          (first_opened open_file qs)))

  short_ones-step :
      (f : Str → Option Str) (n : ℕ) (e : Str) (rest : Option Opened) (es : List Str)
      → length e ≡ n
      → rest ≡ first_opened open_file (map f (short_ones es))
      → (if leb max_path n then none else or_else (try_open open_file (f e)) rest)
        ≡ first_opened open_file (map f (short_ones (e ∷ es)))
  unfolding short_ones first_opened
  short_ones-step f n e rest es l h = elim (Bool-cases (leb max_path n)) [
    | inl long ↦ rw (l, long) refl
    | inr short ↦ rw (l, short, h) refl
  ]

  loop-first_opened :
      (k : ℕ) (p objpath name : Str)
      → length p < k
      → try_path_list_loop open_file k p objpath name
        ≡ first_opened open_file (list_candidates p objpath name)
  unfolding try_path_list_loop first_opened list_candidates short_ones elements
  loop-first_opened zero p objpath name lt = absurd (omega arith)
  loop-first_opened (suc k) [] objpath name lt = refl
  loop-first_opened (suc k) (c ∷ p) objpath name lt =
      let n = element_length (c ∷ p) in
      let rest = skip_colon (drop n (c ∷ p)) in
      let next = loop-first_opened k rest objpath name (omega (arith, rest-length c p, lt)) in
      rw (elements_step c p) (
        short_ones-step (element_path objpath name) n (take n (c ∷ p))
          (try_path_list_loop open_file k rest objpath name) (elements rest)
          (element-length (c ∷ p)) next)

  list-first_opened :
      (list objpath name : Str)
      → try_path_list open_file list objpath name
        ≡ first_opened open_file (list_candidates list objpath name)
  unfolding try_path_list
  list-first_opened list objpath name =
      loop-first_opened (suc (length list)) list objpath name (omega arith)

  one-first_opened : (p : Option Str) → try_open open_file p ≡ first_opened open_file (p ∷ [])
  unfolding first_opened
  one-first_opened p = sym (or_else-none (try_open open_file p))

  rpath-first_opened :
      (from : Option Object) (name : Str)
      → try_rpath open_file from name ≡ first_opened open_file (rpath_candidates from name)
  unfolding try_rpath rpath_candidates first_opened
  rpath-first_opened none name = refl
  rpath-first_opened (some o) name = elim (Bool-cases (not (o.rpath == 0) && (o.runpath == 0))) [
    | inl e ↦ rw e (list-first_opened (string_at o.strtab o.rpath) o.path name)
    | inr e ↦ rw e refl
  ]

  runpath-first_opened :
      (from : Option Object) (name : Str)
      → try_runpath open_file from name ≡ first_opened open_file (runpath_candidates from name)
  unfolding try_runpath runpath_candidates first_opened
  runpath-first_opened none name = refl
  runpath-first_opened (some o) name = elim (Bool-cases (not (o.runpath == 0))) [
    | inl e ↦ rw e (list-first_opened (string_at o.strtab o.runpath) o.path name)
    | inr e ↦ rw e refl
  ]

  main-first_opened :
      (from : Option Object) (name : Str)
      → try_main open_file from name ≡ first_opened open_file (main_candidates from name)
  unfolding try_main main_candidates first_opened
  main-first_opened none name = refl
  main-first_opened (some o) name = elim (Bool-cases o.is_main) [
    | inl e ↦ rw e (one-first_opened (main_dir_join o name))
    | inr e ↦ rw e refl
  ]

  system-first_opened :
      (name : Str)
      → or_else (try_open open_file (build_join lib64 name)) (
          or_else (try_open open_file (build_join (usr ++ lib64) name)) (
            or_else
              (try_open open_file (build_join lib name))
              (try_open open_file (build_join (usr ++ lib) name))))
        ≡ first_opened open_file (system_candidates name)
  unfolding first_opened system_candidates
  system-first_opened name =
      ap
        (λ o. or_else (try_open open_file (build_join lib64 name)) (
          or_else (try_open open_file (build_join (usr ++ lib64) name))
            (or_else (try_open open_file (build_join lib name)) o)))
        (one-first_opened (build_join (usr ++ lib) name))

  before-first_opened :
      (o rest : Option Opened) (ps qs : List (Option Str))
      → o ≡ first_opened open_file ps
      → rest ≡ first_opened open_file qs
      → or_else o rest ≡ first_opened open_file (ps ++ qs)
  before-first_opened o rest ps qs h k = rw (h, k) (sym (first_opened-append ps qs))

  -- For a name without a slash, `find_library_file` opens the first of the candidates that opens:
  -- the object's DT_RPATH, where it has no DT_RUNPATH, the user's list, DT_RUNPATH, the directory
  -- of the main program for the main program, and the four system directories, with each list
  -- split at its colons and cut before an element that is too long. With no candidate that opens it finds nothing.
  pub find_library_file-first_opened :
      (g : Globals) (from : Option Object) (name before : Str)
      → path_has_slash name ≡ false
      → find_library_file open_file g from name before
        ≡ first_opened open_file (candidates g from name)
  unfolding find_library_file candidates
  find_library_file-first_opened g from name before plain = rw plain (
      before-first_opened _ _ (rpath_candidates from name) _ (rpath-first_opened from name) (
        before-first_opened _ _ (list_candidates (user_list g) (path_of g from) name) _
          (list-first_opened (user_list g) (path_of g from) name)
          (before-first_opened _ _ (runpath_candidates from name) _ (runpath-first_opened from name)
            (before-first_opened _ _ (main_candidates from name) _ (main-first_opened from name)
              (system-first_opened name)))))
