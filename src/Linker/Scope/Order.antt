-- ===== src/Linker/Scope/Order.antt =====
-- Which definition a symbol is bound to.
use aic_lib.Base.{
  ℕ, zero, suc, ◌≡◌, refl, Bool, true, false, not, ◌||◌, if◌then◌else◌, List, [], ◌∷◌, ◌++◌, Option,
  none, some, get_elem?, All, Bool-cases, Option-cases, inl, inr, ◌⊎◌, ◌∙◌, sym,
}
use aic_lib.Linker.{Object, Sym, ◌>>=◌}
use aic_lib.Linker.Strings.{Str}
use aic_lib.Linker.Symbols.{lookup_one}
use aic_lib.Linker.Scope.{
  Definition, is_visible, is_weak, keep_weak, is_requester, judge, lookup_objects, is_symbolic,
  lookup_rest, lookup_global,
}

first_strong : List Definition → Option Definition
first_strong [] = none
first_strong (d ∷ ds) = if is_weak d.1 then first_strong ds else some d

first_weak : List Definition → Option Definition
first_weak [] = none
first_weak (d ∷ ds) = if is_weak d.1 then some d else first_weak ds

or_first : Option Definition → Option Definition → Option Definition
or_first none next = next
or_first (some d) next = some d

-- The first definition that is not weak, or else the first weak one.
unfoldable pub preferred : List Definition → Option Definition
unfolding first_strong first_weak or_first
preferred ds = or_first (first_strong ds) (first_weak ds)

-- The same in one pass, with the first weak definition so far.
choose : Option Definition → List Definition → Option Definition
unfolding keep_weak
choose weak [] = weak
choose weak (d ∷ ds) = if is_weak d.1 then choose (keep_weak weak d) ds else some d

choose-or_first :
    (weak : Option Definition) (ds : List Definition)
    → choose weak ds ≡ or_first (first_strong ds) (or_first weak (first_weak ds))
unfolding choose keep_weak first_strong first_weak or_first
choose-or_first none [] = refl
choose-or_first (some w) [] = refl
choose-or_first none (d ∷ ds) = elim (Bool-cases (is_weak d.1)) [
  | inl weak ↦ rw weak (choose-or_first (some d) ds)
  | inr strong ↦ rw strong refl
]
choose-or_first (some w) (d ∷ ds) = elim (Bool-cases (is_weak d.1)) [
  | inl weak ↦ rw weak (choose-or_first (some w) ds)
  | inr strong ↦ rw strong refl
]

choose-preferred : (ds : List Definition) → preferred ds ≡ choose none ds
unfolding preferred or_first
choose-preferred ds = sym (choose-or_first none ds)

-- The definition of object `i`, if it may be seen from outside.
visible : ℕ → Option Sym → List Definition
visible i none = []
visible i (some s) = if is_visible s then (i, s) ∷ [] else []

module _ (find : Object → Option Sym) where
  -- The visible definitions in the objects in use but the requester, in the order of the table.
  others : Option ℕ → ℕ → List Object → List Definition
  unfolding visible
  others requester i [] = []
  others requester i (o ∷ os) =
      (if not o.used || is_requester requester i then [] else visible i (find o))
      ++ others requester (suc i) os

  -- The definition that a reference binds to: the requester's own if it is symbolic, and else the
  -- first that is not weak, or else the first weak one, of the requester's and the others'.
  unfoldable pub binding : List Object → ℕ → Object → Bool → Option Definition
  unfolding others visible is_requester
  binding objects r o skip_requester = elim (if is_symbolic o then find o else none) [
    | some s ↦ some (r, s)
    | none ↦
        preferred ((if skip_requester then [] else visible r (find o)) ++ others (some r) 0 objects)
  ]

module _ (find : Object → Option Sym) (objects : List Object) (r : ℕ) (o : Object)
    (skip : Bool) where
  binding-own :
      (s : Sym)
      → (if is_symbolic o then find o else none) ≡ some s
      → binding find objects r o skip ≡ some (r, s)
  unfolding binding
  binding-own s own = rw (own, binding) refl

  binding-absent :
      (if is_symbolic o then find o else none) ≡ none
      → binding find objects r o skip
        ≡ choose none ((if skip then [] else visible r (find o)) ++ others find (some r) 0 objects)
  unfolding binding
  binding-absent absent =
      rw (absent, binding)
        (choose-preferred
          ((if skip then [] else visible r (find o)) ++ others find (some r) 0 objects))

judge-visible :
    (weak : Option Definition) (i : ℕ) (found : Option Sym)
    (rest : Option Definition → Option (Option Definition)) (ds : List Definition)
    → ((w : Option Definition) → rest w ≡ some (choose w ds))
    → elim (judge weak i found) as (λ x. Option (Option Definition)) [
      | inl d ↦ some (some d)
      | inr w ↦ rest w
    ]
      ≡ some (choose weak (visible i found ++ ds))
unfolding judge visible choose
judge-visible weak i none rest ds h = h weak
judge-visible weak i (some s) rest ds h = elim (Bool-cases (is_visible s)) [
  | inl v ↦ elim (Bool-cases (is_weak s)) [
    | inl w ↦ rw (v, w) (h (keep_weak weak (i, s)))
    | inr w ↦ rw (v, w) refl
  ]
  | inr v ↦ rw v (h weak)
]

if-some : (b : Bool) (x y : Option Sym) → (if b then some x else some y) ≡ some (if b then x else y)
if-some true x y = refl
if-some false x y = refl

-- What the search of each object gives.
abbrev pub Searched : (Object → Option Sym) → ℕ → Str → List Object → Type 0
Searched find k name = All (λ o. lookup_one k o name ≡ some (find o))

module _ (find : Object → Option Sym) (k : ℕ) (name : Str) where
  lookup_objects-choose :
      (requester : Option ℕ) (i : ℕ) (objects : List Object) (weak : Option Definition)
      → Searched find k name objects
      → lookup_objects k name requester i objects weak
        ≡ some (choose weak (others find requester i objects))
  unfolding lookup_objects others choose
  lookup_objects-choose requester i [] weak h = refl
  lookup_objects-choose requester i (o ∷ os) weak h =
      let rest = λ (w : Option Definition). lookup_objects-choose requester (suc i) os w h.1 in
      elim (Bool-cases (not o.used || is_requester requester i)) [
        | inl skip ↦ rw skip (rest weak)
        | inr seen ↦
            rw (seen, h.0)
              (judge-visible weak i (find o) (lookup_objects k name requester (suc i) os)
                (others find requester (suc i) os) rest)
      ]

  Searched-at :
      (objects : List Object) (r : ℕ) (o : Object)
      → Searched find k name objects
      → get_elem? objects r ≡ some o
      → lookup_one k o name ≡ some (find o)
  Searched-at [] r o h e = absurd (cc)
  Searched-at (x ∷ xs) zero o h e = let p = h.0 in cc
  Searched-at (x ∷ xs) (suc r) o h e = Searched-at xs r o h.1 e

  lookup_rest-elim :
      (objects : List Object) (r : Option ℕ) (j : Definition ⊎ Option Definition)
      → lookup_rest k name objects r j ≡ elim j as (λ x. Option (Option Definition)) [
        | inl d ↦ some (some d)
        | inr w ↦ lookup_objects k name r 0 objects w
      ]
  unfolding lookup_rest
  lookup_rest-elim objects r (inl d) = refl
  lookup_rest-elim objects r (inr w) = refl

  lookup_rest-choose :
      (objects : List Object) (r : ℕ) (found : Option Sym)
      → Searched find k name objects
      → lookup_rest k name objects (some r) (judge none r found)
        ≡ some (choose none (visible r found ++ others find (some r) 0 objects))
  lookup_rest-choose objects r found h =
      lookup_rest-elim objects (some r) (judge none r found)
      ∙ judge-visible none r found (lookup_objects k name (some r) 0 objects)
          (others find (some r) 0 objects)
          (λ (w : Option Definition). lookup_objects-choose (some r) 0 objects w h)

  -- Where the search of every object ends, `lookup_global` binds a reference from the loaded object
  -- `r` to its own definition if it is symbolic and has one, and else to the first definition that
  -- is not weak, or else to the first weak one, among the visible ones of the requester, unless it
  -- is skipped, and of the other objects in use in the order in which they were loaded.
  pub lookup_global-binding :
      (objects : List Object) (r : ℕ) (o : Object) (skip_requester : Bool)
      → Searched find k name objects
      → get_elem? objects r ≡ some o
      → lookup_global k objects name (some r) skip_requester
        ≡ some (binding find objects r o skip_requester)
  unfolding lookup_global
  lookup_global-binding objects r o skip h e =
      let searched = Searched-at objects r o h e in
      simp e (
        simp searched (elim (Option-cases (if is_symbolic o then find o else none)) [
          | inl absent ↦
              rw
                (
                  if-some (is_symbolic o) (find o) none,
                  absent,
                  binding-absent find objects r o skip absent,
                )
                (bound skip)
          | inr (s, own) ↦
              rw
                (
                  if-some (is_symbolic o) (find o) none,
                  own,
                  binding-own find objects r o skip s own,
                )
                refl
        ]))
    where
      bound :
          (b : Bool)
          → (do
            found ← if b then some none else lookup_one k o name
            lookup_rest k name objects (some r) (judge none r found))
            ≡ some (
                choose none
                  ((if b then [] else visible r (find o)) ++ others find (some r) 0 objects))
      bound true = lookup_objects-choose (some r) 0 objects none h
      bound false = rw (Searched-at objects r o h e) (lookup_rest-choose objects r (find o) h)
