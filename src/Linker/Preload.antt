-- ===== src/Linker/Preload.antt =====
-- ld/dynlink.c, preload_one: loading the libraries of a list before those that the program needs.
pub mod Found
use aic_lib.Base.{
  ℕ, zero, suc, ◌+◌, ◌≡◌, ◌<◌, ◌≤◌, refl, ap, ◌∙◌, arith, true, false, ◌==◌, leb, if◌then◌else◌,
  List, [], ◌∷◌, ◌++◌, Option, none, some, length, get_elem?, take, drop, All, Bool-cases,
  Option-cases, inl, inr,
}
use aic_lib.Linker.{Object, Globals}
use aic_lib.Linker.Strings.{Str}
use aic_lib.Linker.Paths.{
  max_path, path_has_slash, element_length, skip_colon, copied, find_library_file,
}
use aic_lib.Linker.Init.{find_loaded_soname_or_basename}
use aic_lib.Linker.Load.{
  Kernel, Attempt, done, missing, too_long, no_fuel, ◌>>=◌, Table, load_by_fd,
}

module _ (kernel : Kernel) (g : Globals) where
  preload_file : ℕ → Str → Table → Attempt Table
  unfolding load_by_fd find_library_file copied
  preload_file main token s =
      if path_has_slash token
      then elim (kernel.open_file token) [
        | none ↦ missing token
        | some fd ↦ load_by_fd kernel g s fd (copied [] token) false >>= λ (i, t). done t
      ]
      else elim (find_library_file kernel.open_file g (get_elem? s.objects main) token []) [
        | none ↦ missing token
        | some (fd, path) ↦ load_by_fd kernel g s fd path false >>= λ (i, t). done t
      ]

  preload_token : ℕ → Str → Table → Attempt Table
  unfolding preload_file find_loaded_soname_or_basename
  preload_token main [] s = done s
  preload_token main (c ∷ token) s = elim (find_loaded_soname_or_basename s.objects (c ∷ token)) [
    | some already ↦ done s
    | none ↦ preload_file main (c ∷ token) s
  ]

  preload_loop : ℕ → ℕ → Str → Table → Attempt Table
  unfolding max_path element_length skip_colon preload_token
  preload_loop zero main p s = no_fuel
  preload_loop (suc k) main [] s = done s
  preload_loop (suc k) main (c ∷ p) s =
      let n = element_length (c ∷ p) in
      if leb max_path n
      then too_long
      else (preload_token main (take n (c ∷ p)) s >>= λ t.
          preload_loop k main (skip_colon (drop n (c ∷ p))) t)

  unfoldable pub preload_one : ℕ → Str → Table → Attempt Table
  unfolding preload_loop
  preload_one main name s = preload_loop (suc (length name)) main name s
