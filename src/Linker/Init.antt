-- ===== src/Linker/Init.antt =====
-- ld/dynlink.c, the constructors and the destructors of the loaded objects. An object is named by
-- its index in the table.
pub mod Order
pub mod Cycle
use aic_lib.Base.{
  ℕ, zero, suc, Bool, true, false, not, ◌&&◌, ◌||◌, ◌==◌, if◌then◌else◌, List, [], ◌∷◌, ◌++◌,
  Option, none, some, get_elem?, length, reverse,
}
use aic_lib.Linker.{Object, Dyn}
use aic_lib.Linker.Strings.{Str, string_at, same_string}
use aic_lib.Linker.Paths.{base_name}

unfoldable pub has_name : Str → Object → Bool
has_name name o =
    o.used
    && ((not (length o.soname == 0) && same_string o.soname name)
        || same_string (base_name o.path) name)

unfoldable pub find_loaded : ℕ → Str → List Object → Option ℕ
find_loaded i name [] = none
find_loaded i name (o ∷ os) = if has_name name o then some i else find_loaded (suc i) name os

unfoldable pub find_loaded_soname_or_basename : List Object → Str → Option ℕ
unfolding find_loaded has_name
find_loaded_soname_or_basename objects name = find_loaded 0 name objects

-- The `DT_NEEDED` entries before `DT_NULL`, each with the loaded object that it names, if any.
unfoldable pub needed : List Object → Object → List Dyn → List ℕ
needed objects o [] = []
needed objects o ((tag, val) ∷ d) =
    let rest = needed objects o d in
    if tag == 0
    then []
    else if tag == 1
    then elim (find_loaded_soname_or_basename objects (string_at o.strtab val)) [
      | none ↦ rest
      | some dep ↦ dep ∷ rest
    ]
    else rest

unfoldable pub dependencies : List Object → ℕ → List ℕ
unfolding needed
dependencies objects i = elim (get_elem? objects i) [ none ↦ [] | some o ↦ needed objects o o.dyn ]

-- `call0` does nothing at a null address.
called : List ℕ → List ℕ
called [] = []
called (fn ∷ fns) = if fn == 0 then called fns else fn ∷ called fns

unfoldable pub constructors : List Object → ℕ → List ℕ
unfolding called
constructors objects i = elim (get_elem? objects i) [
  | none ↦ []
  | some o ↦ called (o.init ∷ o.init_array)
]

unfoldable pub destructors : List Object → ℕ → List ℕ
unfolding called
destructors objects i = elim (get_elem? objects i) [
  | none ↦ []
  | some o ↦ called (reverse o.fini_array ++ (o.fini ∷ []))
]

abbrev pub Flags : Type 0
Flags = ℕ → Bool

unfoldable pub assign : Flags → ℕ → Bool → Flags
assign flags i b j = if i == j then b else flags j

-- `started` has the objects whose constructors have run, the latest first, each with the functions
-- that were called.
pub record State : Type 0 where
  pub initialized : Flags
  pub init_running : Flags
  pub started : List (ℕ × List ℕ)

-- `cycle` is the fatal error.
pub data Result : Type 0 where
  finished : State → Result
  cycle : ℕ → Result
  no_fuel : Result

unfoldable pub begin : State → ℕ → State
unfolding assign
begin s i = record s { init_running = assign s.init_running i true }

unfoldable pub complete : List Object → State → ℕ → State
unfolding assign
complete objects s i = record {
  initialized = assign s.initialized i true;
  init_running = assign s.init_running i false;
  started = (i, constructors objects i) ∷ s.started;
}

pub init_all : (ℕ → State → Result) → List ℕ → State → Result
init_all init [] s = finished s
init_all init (d ∷ ds) s = elim (init d s) [
  | finished s' ↦ init_all init ds s'
  | cycle i ↦ cycle i
  | no_fuel ↦ no_fuel
]

-- The last part of `init_object_recursive`, after its dependencies.
pub run_constructors : List Object → ℕ → Result → Result
unfolding complete
run_constructors objects i (finished s) = finished (complete objects s i)
run_constructors objects i (cycle j) = cycle j
run_constructors objects i no_fuel = no_fuel

unfoldable pub init_object_recursive : List Object → ℕ → ℕ → State → Result
unfolding init_all begin run_constructors
init_object_recursive objects zero i s = no_fuel
init_object_recursive objects (suc k) i s = elim (s.initialized i) [
  | true ↦ finished s
  | false ↦ elim (s.init_running i) [
    | true ↦ cycle i
    | false ↦
        run_constructors objects i
          (init_all (init_object_recursive objects k) (dependencies objects i) (begin s i))
  ]
]

is_used : List Object → ℕ → Bool
is_used objects i = elim (get_elem? objects i) [ none ↦ false | some o ↦ o.used ]

-- `for (oi = g_object_count; oi-- > 0;)`: the objects whose destructors run, and the functions
-- called, in order. `fini_ran` are the flags at the start.
unfoldable pub run_fini_reverse : List Object → Flags → Flags → ℕ → List (ℕ × List ℕ)
unfolding is_used
run_fini_reverse objects initialized fini_ran zero = []
run_fini_reverse objects initialized fini_ran (suc oi) =
    let rest = run_fini_reverse objects initialized fini_ran oi in
    if is_used objects oi && (initialized oi && not (fini_ran oi))
    then (oi, destructors objects oi) ∷ rest
    else rest
