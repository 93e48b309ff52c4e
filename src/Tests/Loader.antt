-- ===== src/Tests/Loader.antt =====
-- Symbols and constructors of the dynamic linker.
use aic_lib.Base.{
  ℕ, zero, suc, ◌≡◌, refl, arith, true, false, if◌then◌else◌, ◌==◌, List, [], ◌∷◌, Option, none,
  some,
}
use mathlib.Core.Path.{subst, sym}
use aic_lib.Linker.{Object, Sym, GnuTable}
use aic_lib.Linker.Strings.{Str, string_at, until_zero, same_string, scmp, is_zero}
use aic_lib.Linker.Paths.{base_name}
use aic_lib.Linker.Symbols.{bloom_test, lookup_one, is_match, sym_usable}
use aic_lib.Linker.Symbols.Table.{Defines, Finds, Sound, lookup_one-Sound}
use aic_lib.Linker.Symbols.Found.{Placed, IsTable, name_hash, lookup_one-Finds}
use aic_lib.Linker.Symbols.Hash.{polynomial}
use aic_lib.Base.Positions.{bit}
use aic_lib.Base.{◌∙◌, ap}
use aic_lib.Linker.Scope.{lookup_global}
use aic_lib.Linker.Scope.Order.{binding, lookup_global-binding}
use aic_lib.Linker.Init.{
  State, cycle, dependencies, find_loaded_soname_or_basename, init_object_recursive,
}
use aic_lib.Linker.Init.Cycle.{init_object_recursive-mutual}
use aic_lib.Linker.Init.Order.{Initializes, Ranked, has_run, init_object_recursive-Initializes}

abbrev null_symbol : Sym
null_symbol = record {
  st_name = 0;
  st_info = 0;
  st_other = 0;
  st_shndx = 0;
  st_value = 0;
  st_size = 0;
}

-- A global function.
abbrev pub f_symbol : Sym
f_symbol = record {
  st_name = 1;
  st_info = 18;
  st_other = 0;
  st_shndx = 5;
  st_value = 50;
  st_size = 8;
}

-- A local one.
abbrev pub local_symbol : Sym
local_symbol = record {
  st_name = 1;
  st_info = 2;
  st_other = 0;
  st_shndx = 5;
  st_value = 50;
  st_size = 8;
}

abbrev table : GnuTable
table = record {
  symoffset = 1;
  bloom_shift = 6;
  bloom = 16779264 ∷ [];
  buckets = 1 ∷ [];
  chains = 177675 ∷ [];
}

-- The strings are "", "f", "a" and "b".
abbrev pub object : Sym → Str → List (ℕ × ℕ) → Object
object s soname dyn = record {
  used = true;
  is_main = false;
  path = [];
  soname = soname;
  base = 100;
  dyn = dyn;
  strtab = 0 ∷ b'f' ∷ 0 ∷ b'a' ∷ 0 ∷ b'b' ∷ 0 ∷ [];
  symtab = null_symbol ∷ s ∷ [];
  gnu_hash = some table;
  sysv_hash = none;
  rela = [];
  relacount = 0;
  jmprel = none;
  pltrel_is_rela = false;
  relr = [];
  rpath = 0;
  runpath = 0;
  flags = 0;
  symbolic = false;
  init = 7;
  fini = 0;
  init_array = 8 ∷ 9 ∷ [];
  fini_array = [];
}

abbrev f : Str
f = b'f' ∷ []

abbrev pub a : Str
a = b'a' ∷ []

abbrev pub b : Str
b = b'b' ∷ []

f-Placed : Placed table (name_hash f) 1
unfolding polynomial bit
f-Placed = record {
  word = 16779264;
  start = 1;
  entry = 177675;
  filter = refl;
  first_bit = refl;
  second_bit = refl;
  bucket = refl;
  hashed = omega arith;
  reached = omega arith;
  chain = refl;
  same_hash = refl;
  before = λ i from upto. absurd (omega arith);
}

f-Defines : Defines (object f_symbol a []) f f_symbol
unfolding string_at until_zero
f-Defines = record {
  defined = λ e. omega (arith, e);
  not_local = λ e. omega (arith, e);
  named = refl;
}

table_IsTable : IsTable (object f_symbol a []) table
unfolding string_at until_zero
table_IsTable zero s name at d =
    let same : null_symbol ≡ s = cc in absurd (d.defined (ap (λ (t : Sym). t.st_shndx) (sym same)))
table_IsTable (suc zero) s name at d =
    let same : s ≡ f_symbol = cc in
    let named : name ≡ f =
      sym d.named ∙ ap (λ (t : Sym). string_at (object f_symbol a []).strtab t.st_name) same in
    subst (λ n. Placed table (name_hash n) 1) (sym named) f-Placed
table_IsTable (suc (suc j)) s name at d = absurd (cc)

lookup_one-Finds_example : Finds (object f_symbol a []) f (lookup_one 5 (object f_symbol a []) f)
lookup_one-Finds_example =
    lookup_one-Finds (object f_symbol a []) table f 5 1 f_symbol refl table_IsTable (omega arith)
      refl f-Defines (omega arith)

lookup_one-Sound_example : Sound (object f_symbol a []) f (lookup_one 5 (object f_symbol a []) f)
lookup_one-Sound_example = lookup_one-Sound (object f_symbol a []) f 5

abbrev find : Object → Option Sym
find o = elim (lookup_one 5 o f) [ none ↦ none | some found ↦ found ]

-- A reference from the first of two objects that both define `f`.
lookup_global-binding_example :
    lookup_global 5 (object f_symbol a [] ∷ object f_symbol b [] ∷ []) f (some 0) true
    ≡ some (
        binding find
          (object f_symbol a [] ∷ object f_symbol b [] ∷ [])
          0
          (object f_symbol a [])
          true)
unfolding lookup_one bloom_test is_match sym_usable same_string is_zero scmp string_at until_zero
lookup_global-binding_example =
    lookup_global-binding find 5 f (object f_symbol a [] ∷ object f_symbol b [] ∷ []) 0
      (object f_symbol a []) true (refl, (refl, tt)) refl

-- The first object needs the second.
abbrev pub chain : List Object
chain = object f_symbol a ((1, 5) ∷ (0, 0) ∷ []) ∷ object f_symbol b [] ∷ []

-- Each needs the other.
abbrev ring : List Object
ring = object f_symbol a ((1, 5) ∷ []) ∷ object f_symbol b ((1, 3) ∷ []) ∷ []

abbrev pub fresh : State
fresh = record { initialized = λ i. false; init_running = λ i. false; started = [] }

abbrev pub rank : ℕ → ℕ
rank i = if i == 0 then 1 else 0

pub chain_Ranked : Ranked chain rank
unfolding dependencies find_loaded_soname_or_basename same_string is_zero scmp string_at until_zero
    base_name
chain_Ranked zero = (omega arith, tt)
chain_Ranked (suc zero) = tt
chain_Ranked (suc (suc i)) = tt

init_object_recursive-Initializes_example :
    Initializes chain 0 fresh (init_object_recursive chain 2 0 fresh)
unfolding has_run
init_object_recursive-Initializes_example =
    init_object_recursive-Initializes chain rank 2 0 fresh chain_Ranked
      (tt, (λ j. refl), (λ j h. refl)) (λ j h. refl) (omega arith)

init_object_recursive-mutual_example : init_object_recursive ring 3 0 fresh ≡ cycle 0
unfolding dependencies find_loaded_soname_or_basename same_string is_zero scmp string_at until_zero
    base_name
init_object_recursive-mutual_example =
    init_object_recursive-mutual ring 0 0 1 [] [] fresh refl refl refl refl refl refl refl
