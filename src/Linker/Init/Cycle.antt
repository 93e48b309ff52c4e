-- ===== src/Linker/Init/Cycle.antt =====
-- Objects that need each other.
use aic_lib.Base.{ℕ, suc, ◌≡◌, refl, arith, Bool, true, false, ◌==◌, List, ◌∷◌, ◌∙◌, ap}
use aic_lib.Linker.{Object}
use aic_lib.Linker.Init.{
  dependencies, assign, State, Result, cycle, begin, init_all, run_constructors,
  init_object_recursive,
}
use aic_lib.Linker.Init.Order.{begin-running, init-new}

module _ (objects : List Object) where
  init_all-cycle :
      (init : ℕ → State → Result) (d : ℕ) (ds : List ℕ) (s : State) (i : ℕ)
      → init d s ≡ cycle i
      → init_all init (d ∷ ds) s ≡ cycle i
  unfolding init_all
  init_all-cycle init d ds s i e = rw (e, init_all) refl

  run_constructors-cycle : (i j : ℕ) → run_constructors objects i (cycle j) ≡ cycle j
  unfolding run_constructors
  run_constructors-cycle i j = refl

  init-running :
      (k i : ℕ) (s : State)
      → s.initialized i ≡ false
      → s.init_running i ≡ true
      → init_object_recursive objects (suc k) i s ≡ cycle i
  unfolding init_object_recursive
  init-running k i s e busy = rw (e, busy, init_object_recursive) refl

  begin-keeps :
      (s : State) (i j : ℕ) (b : Bool)
      → (i == j) ≡ false
      → s.init_running j ≡ b
      → (begin s i).init_running j ≡ b
  unfolding begin assign
  begin-keeps s i j b other e = rw other e

  begin-initialized : (s : State) (i j : ℕ) → (begin s i).initialized j ≡ s.initialized j
  unfolding begin
  begin-initialized s i j = refl

  -- The first dependency fails with the cycle, and so does the whole.
  first-cycle :
      (k i d : ℕ) (ds : List ℕ) (s : State)
      → dependencies objects i ≡ d ∷ ds
      → s.initialized i ≡ false
      → s.init_running i ≡ false
      → (j : ℕ) → init_object_recursive objects k d (begin s i) ≡ cycle j
      → init_object_recursive objects (suc k) i s ≡ cycle j
  first-cycle k i d ds s deps new idle j e =
      init-new objects k i s new idle
      ∙ ap
          (λ (l : List ℕ).
            run_constructors objects i (init_all (init_object_recursive objects k) l (begin s i)))
          deps
      ∙ ap (run_constructors objects i)
          (init_all-cycle (init_object_recursive objects k) d ds (begin s i) j e)
      ∙ run_constructors-cycle i j

  -- Two objects that each have the other as their first dependency, neither of them initialized or
  -- being initialized, end in the fatal error for a cycle, whatever the fuel above two.
  pub init_object_recursive-mutual :
      (k i j : ℕ) (ds es : List ℕ) (s : State)
      → dependencies objects i ≡ j ∷ ds
      → dependencies objects j ≡ i ∷ es
      → (i == j) ≡ false
      → s.initialized i ≡ false
      → s.initialized j ≡ false
      → s.init_running i ≡ false
      → s.init_running j ≡ false
      → init_object_recursive objects (suc (suc (suc k))) i s ≡ cycle i
  init_object_recursive-mutual k i j ds es s deps_i deps_j other new_i new_j idle_i idle_j =
      first-cycle (suc (suc k)) i j ds s deps_i new_i idle_i i (
        first-cycle (suc k) j i es (begin s i) deps_j (begin-initialized s i j ∙ new_j)
          (begin-keeps s i j false other idle_j) i
          (init-running k i (begin (begin s i) j)
            (begin-initialized (begin s i) j i ∙ begin-initialized s i i ∙ new_i)
            (begin-keeps (begin s i) j i true (ground arith) (begin-running s i))))
