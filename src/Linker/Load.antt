-- ===== src/Linker/Load.antt =====
-- ld/dynlink.c, the table of objects, and the loading of an object and of all that it needs. An
-- object is named by its index in the table.
pub mod Scanned
pub mod Grow
pub mod Ready
pub mod Found
pub mod Closure
use aic_lib.Base.{
  ℕ, zero, suc, ◌+◌, ◌-◌, ◌%◌, ◌^◌, Bool, true, false, ◌||◌, ◌==◌, leb, if◌then◌else◌, List, [],
  ◌∷◌, Option, none, some, length, get_elem?,
}
use aic_lib.Linker.{Object, Dyn, Globals}
use aic_lib.Linker.Strings.{Str, string_at}
use aic_lib.Linker.Paths.{base_name, copied, find_library_file}
use aic_lib.Linker.Segments.{
  Ehdr, Phdr, Extent, tls, refused, span, Step, map_segment, validate_ehdr, scan_headers,
}
use aic_lib.Linker.Init.{Flags, assign, find_loaded_soname_or_basename}

abbrev pub max_objects : ℕ
max_objects = 512

-- A file as the linker reads it: its headers, and what `discover_dynamic` finds in the object that
-- is mapped at an address, if it accepts it.
pub record ElfFile : Type 0 where
  pub ehdr : Ehdr
  pub phdrs : List Phdr
  pub tables : ℕ → Option Object

-- The kernel's answers. `reserve` has the type of the file, the lowest address and the size, and
-- gives the address of the memory; `map_steps` says whether the steps of a segment succeed, and
-- `make_writable` whether the calls of `mprotect` that `set_protections(o, 1)` makes for an object do.
pub record Kernel : Type 0 where
  pub page : ℕ
  pub open_file : Str → Option ℕ
  pub read_file : ℕ → Option ElfFile
  pub reserve : ℕ → ℕ → ℕ → Option ℕ
  pub map_steps : ℕ → List Step → Bool
  pub make_writable : Object → Bool

-- What is done, or the fatal error that ends the program.
pub data Attempt (A : Type 0) : Type 0 where
  done : A → Attempt A
  missing : Str → Attempt A
  malformed : Str → Attempt A
  thread_local : Str → Attempt A
  too_many : Attempt A
  too_long : Attempt A
  not_protected : Str → Attempt A
  no_fuel : Attempt A

infixl 5 ◌>>=◌
abbrev pub ◌>>=◌ : {A B : Type 0} → Attempt A → (A → Attempt B) → Attempt B
done a >>= k = k a
missing name >>= k = missing name
malformed path >>= k = malformed path
thread_local path >>= k = thread_local path
too_many >>= k = too_many
too_long >>= k = too_long
not_protected path >>= k = not_protected path
no_fuel >>= k = no_fuel

-- The objects, and the flag `needed_scanned` of each.
pub record Table : Type 0 where
  pub objects : List Object
  pub needed_scanned : Flags

-- The first entry that is not in use; those behind the list are not.
unfoldable pub free_index : List Object → ℕ
free_index [] = 0
free_index (o ∷ os) = if o.used then suc (free_index os) else 0

unfoldable pub put_free : Object → List Object → List Object
put_free new [] = new ∷ []
put_free new (o ∷ os) = if o.used then o ∷ put_free new os else new ∷ os

unfoldable pub object_new : Table → Attempt ℕ
unfolding free_index
object_new s = let i = free_index s.objects in if leb max_objects i then too_many else done i

module _ (kernel : Kernel) where
  map_segments : ℕ → List Phdr → Bool
  unfolding map_segment
  map_segments base [] = true
  map_segments base (p ∷ ph) =
      if kernel.map_steps base (map_segment kernel.page base p) then map_segments base ph else false

  load_span : Str → ElfFile → ℕ → ℕ → Attempt Object
  unfolding map_segments
  load_span path file minv maxv = elim (kernel.reserve file.ehdr.e_type minv (maxv - minv)) [
    | none ↦ malformed path
    | some addr ↦
        let base = if file.ehdr.e_type == 2 then 0 else (addr + 2 ^ 64 - minv) % 2 ^ 64 in
        elim (map_segments base file.phdrs) [
          | false ↦ malformed path
          | true ↦ elim (file.tables base) [ none ↦ malformed path | some o ↦ done o ]
        ]
  ]

  load_object_file : ℕ → Str → Attempt Object
  unfolding validate_ehdr scan_headers load_span
  load_object_file fd path = elim (kernel.read_file fd) [
    | none ↦ malformed path
    | some file ↦ elim (validate_ehdr file.ehdr) [
      | false ↦ malformed path
      | true ↦ elim (scan_headers kernel.page file.phdrs (2 ^ 64 - 1) 0) [
        | tls ↦ thread_local path
        | refused ↦ malformed path
        | span minv maxv ↦ load_span path file minv maxv
      ]
    ]
  ]

-- The name of the object, and its soname where the file has none.
unfoldable pub named : Str → Bool → Object → Object
unfolding copied base_name
named path is_main o =
    let path' = copied [] path in
    record o {
      used = true;
      is_main = is_main;
      path = path';
      soname = if length o.soname == 0 then copied [] (base_name path') else o.soname;
    }

-- `set_protections(o, 1)`, where a call that fails is fatal.
unfoldable pub set_writable : Kernel → Object → Attempt Object
set_writable kernel o = if kernel.make_writable o then done o else not_protected o.path

unfoldable pub add_object : ℕ → Object → Table → Table
unfolding put_free assign
add_object i o s = record {
  objects = put_free o s.objects;
  needed_scanned = assign s.needed_scanned i false;
}

-- The `DT_NEEDED` entries before `DT_NULL`.
unfoldable pub needed_names : List ℕ → List Dyn → List Str
unfolding string_at
needed_names strtab [] = []
needed_names strtab ((tag, val) ∷ d) =
    let rest = needed_names strtab d in
    if tag == 0 then [] else if tag == 1 then string_at strtab val ∷ rest else rest

-- `!o || o->needed_scanned || !o->strtab`; an object without a string table has an empty one.
pub no_names : Option Object → Bool
no_names none = true
no_names (some o) = length o.strtab == 0

unfoldable pub is_scanned : Table → ℕ → Bool
unfolding no_names
is_scanned s i = s.needed_scanned i || no_names (get_elem? s.objects i)

unfoldable pub names_of : List Object → ℕ → List Str
unfolding needed_names
names_of objects i = elim (get_elem? objects i) [ none ↦ [] | some o ↦ needed_names o.strtab o.dyn ]

unfoldable pub mark_scanned : Table → ℕ → Table
unfolding assign
mark_scanned s i = record s { needed_scanned = assign s.needed_scanned i true }

module _ (kernel : Kernel) (g : Globals) where
  unfoldable pub load_by_fd : Table → ℕ → Str → Bool → Attempt (ℕ × Table)
  unfolding load_object_file named add_object object_new set_writable
  load_by_fd s fd path is_main = object_new s >>= λ i. load_object_file kernel fd path >>= λ o.
      set_writable kernel (named path is_main o) >>= λ o'. done (i, add_object i o' s)

  unfoldable pub find_or_load_dependency : Table → ℕ → Str → Attempt (ℕ × Table)
  unfolding load_by_fd find_library_file find_loaded_soname_or_basename
  find_or_load_dependency s from name = elim (find_loaded_soname_or_basename s.objects name) [
    | some i ↦ done (i, s)
    | none ↦ elim (find_library_file kernel.open_file g (get_elem? s.objects from) name []) [
      | none ↦ missing name
      | some (fd, path) ↦ load_by_fd s fd path false
    ]
  ]

  pub load_all : (ℕ → Table → Attempt Table) → ℕ → List Str → Table → Attempt Table
  unfolding find_or_load_dependency
  load_all load from [] s = done s
  load_all load from (name ∷ names) s = find_or_load_dependency s from name >>= λ (dep, t).
      load dep t >>= λ u. load_all load from names u

  -- The fuel bounds the depth of the calls.
  unfoldable pub load_needed_recursive : ℕ → ℕ → Table → Attempt Table
  unfolding is_scanned names_of mark_scanned load_all
  load_needed_recursive zero i s = no_fuel
  load_needed_recursive (suc k) i s = elim (is_scanned s i) [
    | true ↦ done s
    | false ↦ load_all (load_needed_recursive k) i (names_of s.objects i) (mark_scanned s i)
  ]
