-- ===== src/Linker/Load/Closure.antt =====
-- Loading an object ends, with all that it needs in the table.
use aic_lib.Base.{
  ℕ, zero, suc, ◌≡◌, ◌<◌, ◌≤◌, refl, ap, ◌∙◌, arith, true, false, ◌==◌, List, [], ◌∷◌, length, All,
  Bool-cases, inl, inr,
}
use native.Mathlib.Nat.{le_refl}
use aic_lib.Linker.{Globals}
use aic_lib.Linker.Strings.{Str}
use aic_lib.Linker.Paths.{path_has_slash}
use aic_lib.Linker.Init.{assign, find_loaded_soname_or_basename}
use aic_lib.Linker.Load.{
  max_objects, Kernel, Attempt, Table, is_scanned, names_of, mark_scanned, find_or_load_dependency,
  load_all, load_needed_recursive,
}
use aic_lib.Linker.Load.Scanned.{
  unmarked, unmarked-more, unmarked-assign, assign_keeps, assign_other, assign_self,
}
use aic_lib.Linker.Load.Grow.{found-append, Extends, Extends-self, Extends-on}
use aic_lib.Linker.Load.Ready.{
  IsTable, IsReady, Settled, IsReady-Extends, names_of-Extends, Settled-trans,
}
use aic_lib.Linker.Load.Found.{Ends, Ends-bind, Ends-map, IsFound, find_or_load_dependency-Ends}

module _ (kernel : Kernel) (g : Globals) where
  -- What is left when all that an object needs is loaded, and when an object is.
  abbrev pub LoadsAll : List Str → Table → Table → Type 0
  LoadsAll names s t = IsTable t × Extends s t × Settled s t × All (IsReady t) names

  abbrev pub Loads : ℕ → Table → Table → Type 0
  Loads i s t = IsTable t × Extends s t × Settled s t × (is_scanned t i ≡ true)

  loaded-all :
      (s t u : Table) (name : Str) (names : List Str) (dep : ℕ)
      → IsFound kernel g s name (dep, t)
      → Loads dep t u
      → (v : Table) → LoadsAll names u v
      → LoadsAll (name ∷ names) s v
  loaded-all s t u name names dep (ok, ext, lt, marks, here) (ok', ext', settled, r) v rest =
      let ready : IsReady u name = elim (Bool-cases (path_has_slash name)) [
        | inl slash ↦ inl slash
        | inr plain ↦ inr (
          dep,
          ap (λ os. find_loaded_soname_or_basename os name) ext'.0.1
              ∙ found-append name t.objects ext'.0.0 dep (here plain),
          r,
        )
      ] in
      let none_new : Settled s t = λ j new marked. let same = marks j marked in cc in
      (
        rest.0,
        Extends-on s t v ext (Extends-on t u v ext' rest.1),
        Settled-trans s t v ok (Extends-on t u v ext' rest.1) none_new
            (Settled-trans t u v ok' rest.1 settled rest.2),
        (IsReady-Extends u v name rest.1 ready, rest.3),
      )

  load_all-Ends :
      (load : ℕ → Table → Attempt Table) (from n : ℕ) (names : List Str) (s : Table)
      → ((i : ℕ) (t : Table)
          → IsTable t
          → i < length t.objects
          → unmarked t.needed_scanned max_objects ≤ n
          → Ends kernel g (Loads i t) (load i t))
      → IsTable s
      → unmarked s.needed_scanned max_objects ≤ n
      → Ends kernel g (LoadsAll names s) (load_all kernel g load from names s)
  unfolding load_all
  load_all-Ends load from n [] s spec ok few = (ok, Extends-self s, (λ j h k. cc), tt)
  load_all-Ends load from n (name ∷ names) s spec ok few =
      Ends-bind kernel g (IsFound kernel g s name) (LoadsAll (name ∷ names) s)
        (find_or_load_dependency kernel g s from name) _
        (find_or_load_dependency-Ends kernel g s from name ok)
        λ (dep, t) found.
          let (ok', ext, lt, marks, here) = found in
          let few' = unmarked-more s.needed_scanned t.needed_scanned max_objects ext.1 in
          Ends-bind kernel g (Loads dep t) (LoadsAll (name ∷ names) s) (load dep t) _
            (spec dep t ok' lt (omega (arith, few', few)))
            λ u loaded.
              let few'' = unmarked-more t.needed_scanned u.needed_scanned max_objects loaded.1.1 in
              Ends-map kernel g (LoadsAll names u) (LoadsAll (name ∷ names) s) _
                (load_all-Ends load from n names u spec loaded.0 (omega (arith, few', few'', few)))
                (loaded-all s t u name names dep found loaded)

  mark_scanned-IsTable :
      (s : Table) (i : ℕ) → IsTable s → i < length s.objects → IsTable (mark_scanned s i)
  unfolding mark_scanned assign
  mark_scanned-IsTable s i ok lt = (
    ok.0,
    ok.1,
    (λ j h.
        let e = ok.2 j in
        elim (Bool-cases (i == j)) [
          | inl here ↦ let same : i ≡ j = ground arith in omega (arith, same, lt)
          | inr other ↦ ground arith
        ]),
  )

  mark_scanned-Extends : (s : Table) (i : ℕ) → Extends s (mark_scanned s i)
  unfolding mark_scanned
  mark_scanned-Extends s i = ((Extends-self s).0, (λ j. assign_keeps s.needed_scanned i j))

  -- When all that the object needs is loaded, the object is.
  loaded-object :
      (s v : Table) (i : ℕ)
      → IsTable s
      → i < length s.objects
      → LoadsAll (names_of s.objects i) (mark_scanned s i) v
      → Loads i s v
  unfolding mark_scanned is_scanned
  loaded-object s v i ok lt (ok', ext, settled, ready) =
      let all = Extends-on s (mark_scanned s i) v (mark_scanned-Extends s i) ext in
      let marked : v.needed_scanned i ≡ true = ext.1 i (assign_self s.needed_scanned i) in
      (
        ok',
        all,
        (λ j new here. elim (Bool-cases (i == j)) [
          | inl e ↦
              let same : i ≡ j = ground arith in
              let names = names_of-Extends s v i all lt in rw⁻¹ same (rw names ready)
          | inr e ↦ settled j (assign_other s.needed_scanned i j e ∙ new) here
        ]),
        rw marked refl,
      )

  not_marked : (s : Table) (i : ℕ) → is_scanned s i ≡ false → s.needed_scanned i ≡ false
  unfolding is_scanned
  not_marked s i h = ground arith

  -- From a table with room for `max_objects` objects, all of whose entries are in use and of which
  -- fewer than the fuel are still to be read, `load_needed_recursive` never runs out of fuel. It
  -- may end in a fatal error: a library that no file is found for, a file that is refused, or a
  -- full table. Otherwise the objects that were loaded keep their indices, the names in the
  -- object are read, and for every object whose names were read, each needed name without a slash
  -- is found in the table, at an object whose names are read.
  pub load_needed_recursive-Loads :
      (k i : ℕ) (s : Table)
      → IsTable s
      → i < length s.objects
      → unmarked s.needed_scanned max_objects < k
      → Ends kernel g (Loads i s) (load_needed_recursive kernel g k i s)
  unfolding load_needed_recursive mark_scanned
  load_needed_recursive-Loads zero i s ok lt few = absurd (omega (arith, few))
  load_needed_recursive-Loads (suc k) i s ok lt few = elim (Bool-cases (is_scanned s i)) [
    | inl e ↦ rw (e, load_needed_recursive) (ok, Extends-self s, (λ j h m. cc), e)
    | inr e ↦
        let t = mark_scanned s i in
        let less =
          unmarked-assign s.needed_scanned i max_objects (omega (arith, lt, ok.1))
            (not_marked s i e) in
        rw (e, load_needed_recursive)
          (Ends-map kernel g (LoadsAll (names_of s.objects i) t) (Loads i s) _
            (load_all-Ends (load_needed_recursive kernel g k) i
              (unmarked t.needed_scanned max_objects) (names_of s.objects i) t
              (λ j u ok' lt' few'.
                load_needed_recursive-Loads k j u ok' lt' (omega (arith, few', less, few)))
              (mark_scanned-IsTable s i ok lt) (le_refl _))
            (λ v. loaded-object s v i ok lt))
  ]
