-- ===== src/Linker/Launch.antt =====
-- Loading a program and then running the constructors: the names in the files decide the order.
use aic_lib.Base.{
  ℕ, suc, ◌≡◌, ◌<◌, refl, ◌⊎◌, arith, Bool, true, false, ◌==◌, if◌then◌else◌, List, [], ◌∷◌, All,
  Option, none, some, get_elem?, length, inl, inr,
}
use mathlib.Core.Path.{subst}
use aic_lib.Linker.{Object, Dyn, Globals}
use aic_lib.Linker.Strings.{Str, string_at}
use aic_lib.Linker.Paths.{path_has_slash}
use aic_lib.Linker.Init.{
  State, finished, needed, dependencies, find_loaded_soname_or_basename, init_object_recursive,
}
use aic_lib.Linker.Init.Order.{
  Log, has_run, Ordered, IsState, Ranked, init_object_recursive-Initializes,
}
use aic_lib.Linker.Load.{
  Kernel, Table, done, max_objects, needed_names, names_of, load_needed_recursive,
}
use aic_lib.Linker.Load.Scanned.{unmarked, unmarked-le}
use aic_lib.Linker.Load.Ready.{IsTable, IsReady}
use aic_lib.Linker.Load.Found.{Ends}
use aic_lib.Linker.Load.Closure.{Loads, load_needed_recursive-Loads}

-- A name has a slash, or is that of a library in the table that has run.
abbrev pub HasRun : List Object → Log → Str → Type 0
HasRun objects log name =
    (path_has_slash name ≡ true)
    ⊎ ((d : ℕ) × (find_loaded_soname_or_basename objects name ≡ some d) × (has_run d log ≡ true))

-- Each object that ran and whose names were read ran after all that it needs.
abbrev pub RunsAfter : Table → Log → Type 0
RunsAfter t [] = Unit {0}
RunsAfter t ((i, calls) ∷ log) =
    (t.needed_scanned i ≡ true → All (HasRun t.objects log) (names_of t.objects i))
    × RunsAfter t log

module _ (t : Table) (log : Log) where
  head-HasRun :
      (name : Str) (r : Option ℕ) (rest : List ℕ)
      → find_loaded_soname_or_basename t.objects name ≡ r
      → All (λ d. has_run d log ≡ true) (elim r [ none ↦ rest | some dep ↦ dep ∷ rest ])
      → IsReady t name
      → HasRun t.objects log name × All (λ d. has_run d log ≡ true) rest
  head-HasRun name none rest e h (inl slash) = (inl slash, h)
  head-HasRun name none rest e h (inr (i, f, r)) = absurd (cc)
  head-HasRun name (some dep) rest e h ready = (inr (dep, e, h.0), h.1)

  entry-HasRun :
      (stop is_needed : Bool) (name : Str) (names : List Str) (r : Option ℕ) (rest : List ℕ)
      → find_loaded_soname_or_basename t.objects name ≡ r
      → (All (IsReady t) names
          → All (λ d. has_run d log ≡ true) rest
          → All (HasRun t.objects log) names)
      → All (IsReady t) (if stop then [] else if is_needed then name ∷ names else names)
      → All
          (λ d. has_run d log ≡ true)
          (if stop
            then []
            else if is_needed
            then elim r [ none ↦ rest | some dep ↦ dep ∷ rest ]
            else rest)
      → All (HasRun t.objects log) (if stop then [] else if is_needed then name ∷ names else names)
  entry-HasRun true is_needed name names r rest e next ready h = tt
  entry-HasRun false false name names r rest e next ready h = next ready h
  entry-HasRun false true name names r rest e next ready h =
      let (first, others) = head-HasRun name r rest e h ready.0 in (first, next ready.1 others)

  needed-HasRun :
      (o : Object) (d : List Dyn)
      → All (IsReady t) (needed_names o.strtab d)
      → All (λ d'. has_run d' log ≡ true) (needed t.objects o d)
      → All (HasRun t.objects log) (needed_names o.strtab d)
  unfolding needed needed_names
  needed-HasRun o [] ready h = tt
  needed-HasRun o ((tag, val) ∷ d) ready h =
      entry-HasRun (tag == 0) (tag == 1) (string_at o.strtab val) (needed_names o.strtab d) _ _ refl
        (needed-HasRun o d) ready h

  object-HasRun :
      (i : ℕ) (r : Option Object)
      → All (IsReady t) (elim r [ none ↦ [] | some o ↦ needed_names o.strtab o.dyn ])
      → All (λ d. has_run d log ≡ true) (elim r [ none ↦ [] | some o ↦ needed t.objects o o.dyn ])
      → All (HasRun t.objects log) (elim r [ none ↦ [] | some o ↦ needed_names o.strtab o.dyn ])
  object-HasRun i none ready h = tt
  object-HasRun i (some o) ready h = needed-HasRun o o.dyn ready h

  names-HasRun :
      (i : ℕ)
      → All (IsReady t) (names_of t.objects i)
      → All (λ d. has_run d log ≡ true) (dependencies t.objects i)
      → All (HasRun t.objects log) (names_of t.objects i)
  unfolding names_of dependencies
  names-HasRun i ready h = object-HasRun i (get_elem? t.objects i) ready h

Ordered-RunsAfter :
    (t : Table) (log : Log)
    → ((i : ℕ) → t.needed_scanned i ≡ true → All (IsReady t) (names_of t.objects i))
    → Ordered t.objects log
    → RunsAfter t log
Ordered-RunsAfter t [] ready h = tt
Ordered-RunsAfter t ((i, calls) ∷ log) ready (own, once, deps, rest) =
    ((λ read. names-HasRun t log i (ready i read) deps), Ordered-RunsAfter t log ready rest)

-- Where loading from a table in which no names were read ends without a fatal error, and each of
-- the objects then has a rank above those of the objects it depends on, running the constructors
-- from a state in which none is running or has run ends within as many calls as the rank of the
-- object and one more. The object has run, and every object that ran and whose names were read ran
-- after all the libraries that it names without a slash.
pub init_object_recursive-RunsAfter :
    (kernel : Kernel) (g : Globals) (k i : ℕ) (s t : Table) (start : State) (rank : ℕ → ℕ)
    → IsTable s
    → i < length s.objects
    → max_objects < k
    → ((j : ℕ) → s.needed_scanned j ≡ false)
    → load_needed_recursive kernel g k i s ≡ done t
    → Ranked t.objects rank
    → IsState t.objects start
    → ((j : ℕ) → start.init_running j ≡ false)
    → (s' : State) × (init_object_recursive t.objects (suc (rank i)) i start ≡ finished s')
      × RunsAfter t s'.started
      × (has_run i s'.started ≡ true)
init_object_recursive-RunsAfter kernel g k i s t start rank ok lt fuel fresh loaded ranked state
      idle =
    let few : unmarked s.needed_scanned max_objects < k =
      omega (arith, fuel, unmarked-le s.needed_scanned max_objects) in
    let (ok', ext, settled, read) =
      subst (Ends kernel g (Loads kernel g i s)) loaded
        (load_needed_recursive-Loads kernel g k i s ok lt few) in
    let (s', e, state', ext', ran) =
      init_object_recursive-Initializes t.objects rank (suc (rank i)) i start ranked state
        (λ j le. idle j) (omega arith) in
    (s', e, Ordered-RunsAfter t s'.started (λ j here. settled j (fresh j) here) state'.0, ran)
