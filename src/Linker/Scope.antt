-- ===== src/Linker/Scope.antt =====
-- ld/dynlink.c, the search for a symbol among the loaded objects. An object is named by its index
-- in the table.
pub mod Order
use aic_lib.Base.{
  ℕ, zero, suc, ◌+◌, ◌%◌, ◌/◌, ◌≡◌, refl, arith, Bool, true, false, not, ◌&&◌, ◌||◌, ◌==◌,
  if◌then◌else◌, List, [], ◌∷◌, ◌++◌, Option, none, some, length, get_elem?, All, Bool-cases,
  Option-cases, inl, inr, ◌⊎◌, ◌^◌,
}
use aic_lib.Linker.{Object, Sym, ◌>>=◌}
use aic_lib.Linker.Strings.{Str}
use aic_lib.Linker.Symbols.{st_bind, st_visibility, lookup_one}

-- The index of the defining object, and the symbol.
abbrev pub Definition : Type 0
Definition = ℕ × Sym

unfoldable pub is_visible : Sym → Bool
is_visible s = not (st_visibility s == 2) && not (st_visibility s == 1)

unfoldable pub is_weak : Sym → Bool
is_weak s = st_bind s == 2

keep_weak : Option Definition → Definition → Option Definition
keep_weak none d = some d
keep_weak (some w) d = some w

is_requester : Option ℕ → ℕ → Bool
is_requester none i = false
is_requester (some r) i = r == i

-- What a symbol found in object `i` makes of the search: it ends, or goes on with a weak definition.
judge : Option Definition → ℕ → Option Sym → Definition ⊎ Option Definition
unfolding keep_weak is_visible is_weak
judge weak i none = inr weak
judge weak i (some s) =
    if not (is_visible s)
    then inr weak
    else if is_weak s
    then inr (keep_weak weak (i, s))
    else inl (i, s)

-- The objects from index `i` on, with the first weak definition so far.
lookup_objects :
    ℕ → Str → Option ℕ → ℕ → List Object → Option Definition → Option (Option Definition)
unfolding judge is_requester
lookup_objects k name requester i [] weak = some weak
lookup_objects k name requester i (o ∷ os) weak = do
  found ← if not o.used || is_requester requester i then some none else lookup_one k o name
  elim (judge weak i found) as (λ x. Option (Option Definition)) [
    | inl d ↦ some (some d)
    | inr weak' ↦ lookup_objects k name requester (suc i) os weak'
  ]

-- `requester->symbolic || (requester->flags & DF_SYMBOLIC)`
unfoldable pub is_symbolic : Object → Bool
is_symbolic o = o.symbolic || (o.flags / 2 % 2 == 1)

-- The last part of `lookup_global`, after the requester.
lookup_rest :
    ℕ → Str → List Object → Option ℕ → (Definition ⊎ Option Definition) → Option (Option Definition)
unfolding lookup_objects
lookup_rest k name objects requester (inl d) = some (some d)
lookup_rest k name objects requester (inr weak) = lookup_objects k name requester 0 objects weak

unfoldable pub lookup_global : ℕ → List Object → Str → Option ℕ → Bool → Option (Option Definition)
unfolding lookup_objects lookup_rest judge is_symbolic
lookup_global k objects name none skip_requester = lookup_objects k name none 0 objects none
lookup_global k objects name (some r) skip_requester = do
  o ← get_elem? objects r
  own ← if is_symbolic o then lookup_one k o name else some none
  elim own as (λ x. Option (Option Definition)) [
    | some s ↦ some (some (r, s))
    | none ↦ do
      found ← if skip_requester then some none else lookup_one k o name
      lookup_rest k name objects (some r) (judge none r found)
  ]
