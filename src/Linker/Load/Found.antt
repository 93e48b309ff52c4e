-- ===== src/Linker/Load/Found.antt =====
-- Finding a library in the table, or loading it.
use aic_lib.Base.{
  ℕ, ◌-◌, ◌≡◌, ◌<◌, refl, ap, ◌∙◌, arith, Bool, true, false, leb, [], ◌∷◌, Option, none, some,
  length, get_elem?, length-append, All-append, Bool-cases, Option-cases, inl, inr,
}
use mathlib.Core.Path.{subst}
use aic_lib.Linker.{Object, Globals}
use aic_lib.Linker.Strings.{Str}
use aic_lib.Linker.Paths.{base_name, copied, copy_path, max_path, path_has_slash, find_library_file}
use aic_lib.Linker.Paths.Every.{HoldsOpened}
use aic_lib.Linker.Paths.Bounds.{find_library_file-FitsOpened, find_library_file-base_name}
use aic_lib.Linker.Init.{assign, find_loaded_soname_or_basename}
use aic_lib.Linker.Load.{
  max_objects, Kernel, Attempt, done, missing, malformed, thread_local, too_many, too_long,
  not_protected, no_fuel, ◌>>=◌, Table, object_new, named, load_object_file, add_object,
  set_writable, load_by_fd, find_or_load_dependency, load_span, ElfFile,
}
use aic_lib.Linker.Segments.{Extent, tls, refused, span, validate_ehdr}
use aic_lib.Linker.Load.Grow.{
  IsUsed, free_index-IsUsed, put_free-IsUsed, found-lt, found-new, Extends, Extends-self,
}
use aic_lib.Linker.Load.Ready.{IsTable}

module _ (kernel : Kernel) (g : Globals) where
  -- What holds where the attempt is done. One that fails for a name has no file for it.
  abbrev pub Ends : {A : Type 0} → (A → Type 0) → Attempt A → Type 0
  Ends P (done a) = P a
  Ends P (missing name) =
      (from : Option Object) × (find_library_file kernel.open_file g from name [] ≡ none)
  Ends P (malformed path) = Unit {0}
  Ends P (thread_local path) = Unit {0}
  Ends P too_many = Unit {0}
  Ends P too_long = Unit {0}
  Ends P (not_protected path) = Unit {0}
  Ends P no_fuel = ⊥

  pub Ends-bind :
      {A B : Type 0} (P : A → Type 0) (Q : B → Type 0) (m : Attempt A) (k : A → Attempt B)
      → Ends P m
      → ((a : A) → P a → Ends Q (k a))
      → Ends Q (m >>= k)
  Ends-bind P Q (done a) k h f = f a h
  Ends-bind P Q (missing name) k h f = h
  Ends-bind P Q (malformed path) k h f = tt
  Ends-bind P Q (thread_local path) k h f = tt
  Ends-bind P Q too_many k h f = tt
  Ends-bind P Q too_long k h f = tt
  Ends-bind P Q (not_protected path) k h f = tt
  Ends-bind P Q no_fuel k h f = h

  tables-Ends :
      (path : Str) (mapped : Bool) (o : Option Object)
      → Ends
          (λ o. Unit {0})
          (elim mapped [
            | false ↦ malformed path
            | true ↦ elim o [ none ↦ malformed path | some o' ↦ done o' ]
          ])
  tables-Ends path false o = tt
  tables-Ends path true none = tt
  tables-Ends path true (some o) = tt

  load_span-Ends :
      (path : Str) (file : ElfFile) (minv maxv : ℕ)
      → Ends (λ o. Unit {0}) (load_span kernel path file minv maxv)
  unfolding load_span
  load_span-Ends path file minv maxv =
      elim (Option-cases (kernel.reserve file.ehdr.e_type minv (maxv - minv))) [
        | inl e ↦ rw (e, load_span) tt
        | inr (addr, e) ↦ rw (e, load_span) (tables-Ends path _ _)
      ]

  extent-Ends :
      (path : Str) (file : ElfFile) (e : Extent)
      → Ends
          (λ o. Unit {0})
          (elim e [
            | tls ↦ thread_local path
            | refused ↦ malformed path
            | span minv maxv ↦ load_span kernel path file minv maxv
          ])
  extent-Ends path file tls = tt
  extent-Ends path file refused = tt
  extent-Ends path file (span minv maxv) = load_span-Ends path file minv maxv

  pub Ends-map :
      {A : Type 0} (P Q : A → Type 0) (m : Attempt A) → Ends P m → ((a : A) → P a → Q a) → Ends Q m
  Ends-map P Q (done a) h f = f a h
  Ends-map P Q (missing name) h f = h
  Ends-map P Q (malformed path) h f = tt
  Ends-map P Q (thread_local path) h f = tt
  Ends-map P Q too_many h f = tt
  Ends-map P Q too_long h f = tt
  Ends-map P Q (not_protected path) h f = tt
  Ends-map P Q no_fuel h f = h

  load_object_file-Ends :
      (fd : ℕ) (path : Str) → Ends (λ o. Unit {0}) (load_object_file kernel fd path)
  unfolding load_object_file
  load_object_file-Ends fd path = elim (Option-cases (kernel.read_file fd)) [
    | inl e ↦ rw (e, load_object_file) tt
    | inr (file, e) ↦ elim (Bool-cases (validate_ehdr file.ehdr)) [
      | inl v ↦ rw (e, v, load_object_file) (extent-Ends path file _)
      | inr v ↦ rw (e, v, load_object_file) tt
    ]
  ]

  -- What `find_or_load_dependency` gives for a name.
  abbrev pub IsFound : Table → Str → ℕ × Table → Type 0
  IsFound s name (i, t) =
      IsTable t
      × Extends s t
      × (i < length t.objects)
      × ((j : ℕ) → t.needed_scanned j ≡ true → s.needed_scanned j ≡ true)
      × (path_has_slash name ≡ false → find_loaded_soname_or_basename t.objects name ≡ some i)

  pub copied-fits : (path : Str) → length path < max_path → copied [] path ≡ path
  unfolding copied copy_path max_path
  copied-fits path lt = ground arith

  add_object-IsFound :
      (s : Table) (name path : Str) (is_main : Bool) (o : Object)
      → IsTable s
      → find_loaded_soname_or_basename s.objects name ≡ none
      → length s.objects < max_objects
      → (path_has_slash name ≡ false → base_name (copied [] path) ≡ name)
      → IsFound s name (length s.objects, add_object (length s.objects) (named path is_main o) s)
  unfolding add_object assign named
  add_object-IsFound s name path is_main o ok absent room base =
      let new = named path is_main o in
      let put = put_free-IsUsed new s.objects ok.0 in
      let l = ap (λ os. length os) put in
      let l' = length-append s.objects (new ∷ []) in
      (
        (
          rw put (All-append IsUsed s.objects (new ∷ []) ok.0 (refl, tt)),
          omega (arith, l, l', room),
          (λ j h. let k = ok.2 j in ground (arith, l, l')),
        ),
        (((new ∷ []), put), (λ j h. let k = ok.2 j h in ground (arith, k))),
        omega (arith, l, l'),
        (λ j h. ground arith),
        (λ plain.
            ap (λ os. find_loaded_soname_or_basename os name) put
            ∙ found-new name s.objects new refl (base plain) absent),
      )

  pub load_by_fd-Ends :
      (s : Table) (name path : Str) (fd : ℕ) (is_main : Bool)
      → IsTable s
      → find_loaded_soname_or_basename s.objects name ≡ none
      → (path_has_slash name ≡ false → base_name (copied [] path) ≡ name)
      → Ends (IsFound s name) (load_by_fd kernel g s fd path is_main)
  unfolding load_by_fd object_new set_writable
  load_by_fd-Ends s name path fd is_main ok absent base =
      let i = free_index-IsUsed s.objects ok.0 in
      elim (Bool-cases (leb max_objects (length s.objects))) [
        | inl full ↦ rw (i, full) tt
        | inr room ↦
            rw (i, room)
              (Ends-bind (λ o. Unit {0}) (IsFound s name) (load_object_file kernel fd path) _
                (load_object_file-Ends fd path)
                (λ o u. elim (Bool-cases (kernel.make_writable (named path is_main o))) [
                  | inl granted ↦
                      rw (set_writable, granted)
                        (add_object-IsFound s name path is_main o ok absent (ground arith) base)
                  | inr denied ↦ rw (set_writable, denied) tt
                ]))
      ]

  pub opened-Ends :
      (s : Table) (from : Option Object) (name : Str) (r : Option (ℕ × Str))
      → find_library_file kernel.open_file g from name [] ≡ r
      → IsTable s
      → find_loaded_soname_or_basename s.objects name ≡ none
      → Ends
          (IsFound s name)
          (elim r [ none ↦ missing name | some (fd, path) ↦ load_by_fd kernel g s fd path false ])
  opened-Ends s from name none e ok absent = (from, e)
  opened-Ends s from name (some (fd, path)) e ok absent =
      load_by_fd-Ends s name path fd false ok absent λ plain.
        let fits : length path < max_path =
          subst (HoldsOpened (λ path. length path < max_path)) e
            (find_library_file-FitsOpened kernel.open_file g from name [] plain) in
        let last : base_name path ≡ name =
          subst (HoldsOpened (λ path. base_name path ≡ name)) e
            (find_library_file-base_name kernel.open_file g from name [] plain) in
        rw (copied-fits path fits) last

  pub find_or_load_dependency-Ends :
      (s : Table) (from : ℕ) (name : Str)
      → IsTable s
      → Ends (IsFound s name) (find_or_load_dependency kernel g s from name)
  unfolding find_or_load_dependency
  find_or_load_dependency-Ends s from name ok =
      elim (Option-cases (find_loaded_soname_or_basename s.objects name)) [
        | inr (i, e) ↦
            rw (e, find_or_load_dependency)
              (ok, Extends-self s, found-lt name s.objects i e, (λ j h. h), (λ plain. e))
        | inl absent ↦
            rw (absent, find_or_load_dependency)
              (opened-Ends s (get_elem? s.objects from) name _ refl ok absent)
      ]
