-- ===== src/Linker/Load/Ready.antt =====
-- What a table holds of what its objects need, and that more objects do not change it.
use aic_lib.Base.{
  ℕ, ◌≡◌, ◌<◌, ◌≤◌, ap, ◌∙◌, ◌⊎◌, true, false, List, [], ◌∷◌, none, some, length, get_elem?, All,
  Bool-cases, inl, inr,
}
use aic_lib.Linker.Strings.{Str}
use aic_lib.Linker.Paths.{path_has_slash}
use aic_lib.Linker.Init.{find_loaded_soname_or_basename}
use aic_lib.Linker.Load.{max_objects, Table, is_scanned, names_of, needed_names}
use aic_lib.Linker.Load.Grow.{
  IsUsed, found-append, found-lt, get_elem?-append, Extends, is_scanned-Extends,
}

-- Every entry of the table is in use, there is room for it, and just entries are marked.
abbrev pub IsTable : Table → Type 0
IsTable s =
    All IsUsed s.objects
    × (length s.objects ≤ max_objects)
    × ((j : ℕ) → s.needed_scanned j ≡ true → j < length s.objects)

-- A name has a slash, or is found in the table, at an object whose names are read.
abbrev pub IsReady : Table → Str → Type 0
IsReady s name =
    (path_has_slash name ≡ true)
    ⊎ ((i : ℕ) × (find_loaded_soname_or_basename s.objects name ≡ some i) × (is_scanned s i ≡ true))

-- All that is needed by an object whose names were read in between is ready.
abbrev pub Settled : Table → Table → Type 0
Settled s t =
    (j : ℕ)
    → s.needed_scanned j ≡ false
    → t.needed_scanned j ≡ true
    → All (IsReady t) (names_of t.objects j)

pub All-map {ℓ κ} :
    {A : Type ℓ} (P Q : A → Type κ) (xs : List A) → ((x : A) → P x → Q x) → All P xs → All Q xs
All-map P Q [] f h = tt
All-map P Q (x ∷ xs) f h = (f x h.0, All-map P Q xs f h.1)

pub IsReady-Extends : (s t : Table) (name : Str) → Extends s t → IsReady s name → IsReady t name
IsReady-Extends s t name ext (inl slash) = inl slash
IsReady-Extends s t name ext (inr (i, e, r)) =
    let ((more, f), keep) = ext in
    inr (
      i,
      ap (λ os. find_loaded_soname_or_basename os name) f ∙ found-append name s.objects more i e,
      is_scanned-Extends s t i ext (found-lt name s.objects i e) r,
    )

pub names_of-Extends :
    (s t : Table) (j : ℕ)
    → Extends s t
    → j < length s.objects
    → names_of t.objects j ≡ names_of s.objects j
unfolding names_of
names_of-Extends s t j ((more, e), keep) lt =
    let same : get_elem? t.objects j ≡ get_elem? s.objects j =
      ap (λ l. get_elem? l j) e ∙ get_elem?-append s.objects more j lt in
    ap (λ o. elim o [ none ↦ [] | some o' ↦ needed_names o'.strtab o'.dyn ]) same

pub Settled-trans :
    (s t u : Table) → IsTable t → Extends t u → Settled s t → Settled t u → Settled s u
Settled-trans s t u ok ext first second j new marked = elim (Bool-cases (t.needed_scanned j)) [
  | inl before ↦ rw (names_of-Extends t u j ext (ok.2 j before)) (
      All-map (IsReady t) (IsReady u) (names_of t.objects j) (λ name. IsReady-Extends t u name ext)
        (first j new before))
  | inr later ↦ second j later marked
]
