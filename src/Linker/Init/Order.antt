-- ===== src/Linker/Init/Order.antt =====
-- The order in which constructors run.
use aic_lib.Base.{
  ℕ, zero, suc, ◌<◌, ◌≤◌, ◌≡◌, refl, arith, Bool, true, false, ◌||◌, ◌==◌, List, [], ◌∷◌, All,
  Bool-cases, inl, inr, ◌∙◌, sym, ap,
}
use aic_lib.Linker.{Object}
use aic_lib.Linker.Init.{
  dependencies, constructors, assign, State, Result, finished, begin, complete, init_all,
  run_constructors, init_object_recursive,
}

abbrev pub Log : Type 0
Log = List (ℕ × List ℕ)

unfoldable pub has_run : ℕ → Log → Bool
has_run j [] = false
has_run j ((i, calls) ∷ log) = i == j || has_run j log

pub begin-running : (s : State) (i : ℕ) → (begin s i).init_running i ≡ true
unfolding begin assign
begin-running s i = ground arith

begin-idle :
    (s : State) (i j : ℕ) (rank : ℕ → ℕ)
    → rank j < rank i
    → s.init_running j ≡ false
    → (begin s i).init_running j ≡ false
unfolding begin assign
begin-idle s i j rank lt idle = elim (Bool-cases (i == j)) [
  | inl here ↦
      let same : i ≡ j = ground arith in absurd (let e = ap rank same in omega (arith, e, lt))
  | inr other ↦ rw other idle
]

module _ (objects : List Object) where
  -- Every object ran once, with its own constructors, after all that it depends on.
  abbrev pub Ordered : Log → Type 0
  Ordered [] = Unit {0}
  Ordered ((i, calls) ∷ log) =
      (calls ≡ constructors objects i)
      × (has_run i log ≡ false)
      × All (λ d. has_run d log ≡ true) (dependencies objects i)
      × Ordered log

  -- The constructors that ran are in order, just their objects are marked, and none of an object
  -- that is still running has run.
  abbrev pub IsState : State → Type 0
  IsState s =
      Ordered s.started
      × ((j : ℕ) → s.initialized j ≡ has_run j s.started)
      × ((j : ℕ) → s.init_running j ≡ true → has_run j s.started ≡ false)

  -- What has run has run, and what is running is the same.
  abbrev pub Extends : State → State → Type 0
  Extends s s' =
      ((j : ℕ) → has_run j s.started ≡ true → has_run j s'.started ≡ true)
      × ((j : ℕ) → s'.init_running j ≡ s.init_running j)

  abbrev pub Initializes : ℕ → State → Result → Type 0
  Initializes i s r =
      (s' : State) × (r ≡ finished s') × IsState s' × Extends s s' × (has_run i s'.started ≡ true)

  -- Each object depends on objects of smaller rank.
  abbrev pub Ranked : (ℕ → ℕ) → Type 0
  Ranked rank = (i : ℕ) → All (λ d. rank d < rank i) (dependencies objects i)

  init_all-lem :
      (init : ℕ → State → Result) (rank : ℕ → ℕ) (n : ℕ) (ds : List ℕ) (s : State)
      → ((d : ℕ) (t : State)
          → rank d < n
          → IsState t
          → ((j : ℕ) → rank j < n → t.init_running j ≡ false)
          → Initializes d t (init d t))
      → All (λ d. rank d < n) ds
      → IsState s
      → ((j : ℕ) → rank j < n → s.init_running j ≡ false)
      → (s' : State) × (init_all init ds s ≡ finished s')
        × IsState s'
        × Extends s s'
        × All (λ d. has_run d s'.started ≡ true) ds
  unfolding init_all
  init_all-lem init rank n [] s spec below ok idle = (s, refl, ok, ((λ j h. h), (λ j. refl)), tt)
  init_all-lem init rank n (d ∷ ds) s spec below ok idle =
      let (t, e, ok', ext, ran) = spec d s below.0 ok idle in
      let (u, f, ok'', ext', all) =
        init_all-lem init rank n ds t spec below.1 ok'
          (λ (j : ℕ) (lt : rank j < n). ext.1 j ∙ idle j lt) in
      (
        u,
        rw (e, init_all) f,
        ok'',
        ((λ j h. ext'.0 j (ext.0 j h)), (λ j. ext'.1 j ∙ ext.1 j)),
        (ext'.0 d ran, all),
      )

  -- The state while the dependencies of `i` run.
  begin-IsState :
      (s : State) (i : ℕ) → IsState s → has_run i s.started ≡ false → IsState (begin s i)
  unfolding begin assign
  begin-IsState s i ok new = (
    ok.0,
    ok.1,
    (λ j h. elim (Bool-cases (i == j)) [
      | inl here ↦ let e : i ≡ j = ground arith in rw⁻¹ e new
      | inr other ↦ ok.2 j (ground arith)
    ]),
  )

  complete-IsState :
      (t : State) (i : ℕ)
      → IsState t
      → t.init_running i ≡ true
      → All (λ d. has_run d t.started ≡ true) (dependencies objects i)
      → IsState (complete objects t i)
  unfolding complete has_run assign
  complete-IsState t i ok running deps = (
    (refl, ok.2 i running, deps, ok.0),
    (λ j. let e = ok.1 j in ground arith),
    (λ j h. let e = ok.2 j in ground arith),
  )

  complete-Extends :
      (s t : State) (i : ℕ)
      → s.init_running i ≡ false
      → Extends (begin s i) t
      → Extends s (complete objects t i)
  unfolding complete begin has_run assign
  complete-Extends s t i idle ext = (
    (λ j h. let e = ext.0 j h in ground arith),
    (λ j.
        let e = ext.1 j in
        elim (Bool-cases (i == j)) [
          | inl here ↦ let same : i ≡ j = ground arith in rw here (rw⁻¹ same (sym idle))
          | inr other ↦ ground arith
        ]),
  )

  init-initialized :
      (k i : ℕ) (s : State)
      → s.initialized i ≡ true
      → init_object_recursive objects (suc k) i s ≡ finished s
  unfolding init_object_recursive
  init-initialized k i s e = rw (e, init_object_recursive) refl

  pub init-new :
      (k i : ℕ) (s : State)
      → s.initialized i ≡ false
      → s.init_running i ≡ false
      → init_object_recursive objects (suc k) i s
        ≡ run_constructors objects i
            (init_all (init_object_recursive objects k) (dependencies objects i) (begin s i))
  unfolding init_object_recursive
  init-new k i s e idle = rw (e, idle, init_object_recursive) refl

  complete-run : (t : State) (i : ℕ) → has_run i (complete objects t i).started ≡ true
  unfolding complete has_run
  complete-run t i = ground arith

  step-Initializes :
      (rank : ℕ → ℕ) (k i : ℕ) (s : State)
      → ((d : ℕ) (t : State)
          → rank d < rank i
          → IsState t
          → ((j : ℕ) → rank j < rank i → t.init_running j ≡ false)
          → Initializes d t (init_object_recursive objects k d t))
      → All (λ d. rank d < rank i) (dependencies objects i)
      → IsState s
      → ((j : ℕ) → rank j ≤ rank i → s.init_running j ≡ false)
      → has_run i s.started ≡ false
      → Initializes i s (
          run_constructors objects i
            (init_all (init_object_recursive objects k) (dependencies objects i) (begin s i)))
  unfolding run_constructors
  step-Initializes rank k i s spec below ok idle new =
      let (t, e, ok', ext, deps) =
        init_all-lem (init_object_recursive objects k) rank (rank i) (dependencies objects i)
          (begin s i) spec below (begin-IsState s i ok new)
          (λ (j : ℕ) (lt : rank j < rank i).
            begin-idle s i j rank lt (idle j (omega (arith, lt)))) in
      (
        complete objects t i,
        rw e refl,
        complete-IsState t i ok' (ext.1 i ∙ begin-running s i) deps,
        complete-Extends s t i (idle i (omega arith)) ext,
        complete-run t i,
      )

  -- Where no object depends on itself through others, so that each has a rank above those that it
  -- depends on, and no object of rank up to that of `i` is being initialized, fuel above the rank
  -- of `i` is enough: `init_object_recursive` ends, every object has run at most once, with its own
  -- constructors, after all its dependencies, and `i` has run. What has run before stays.
  pub init_object_recursive-Initializes :
      (rank : ℕ → ℕ) (k i : ℕ) (s : State)
      → Ranked rank
      → IsState s
      → ((j : ℕ) → rank j ≤ rank i → s.init_running j ≡ false)
      → rank i < k
      → Initializes i s (init_object_recursive objects k i s)
  init_object_recursive-Initializes rank zero i s ranked ok idle lt = absurd (omega (arith, lt))
  init_object_recursive-Initializes rank (suc k) i s ranked ok idle lt =
      let e = ok.1 i in
      let quiet = idle i (omega arith) in
      elim (Bool-cases (has_run i s.started)) [
        | inl ran ↦ (s, init-initialized k i s (e ∙ ran), ok, ((λ j h. h), (λ j. refl)), ran)
        | inr new ↦ rw (init-new k i s (e ∙ new) quiet) (
            step-Initializes rank k i s
              (λ (d : ℕ) (t : State) (l : rank d < rank i) (ok' : IsState t)
                  (idle' : (j : ℕ) → rank j < rank i → t.init_running j ≡ false).
                init_object_recursive-Initializes rank k d t ranked ok'
                  (λ (j : ℕ) (le : rank j ≤ rank d). idle' j (omega (arith, l, le)))
                  (omega (arith, l, lt)))
              (ranked i) ok idle new)
      ]
