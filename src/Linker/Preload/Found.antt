-- ===== src/Linker/Preload/Found.antt =====
-- The libraries of a preload list are in the table afterwards.
use aic_lib.Base.{
  ℕ, zero, suc, ◌≡◌, ◌<◌, refl, ap, ◌⊎◌, ◌∙◌, arith, Bool, true, false, leb, if◌then◌else◌, List,
  [], ◌∷◌, Option, none, some, length, get_elem?, take, drop, All, Bool-cases, Option-cases, inl,
  inr,
}
use aic_lib.Linker.{Object, Globals}
use aic_lib.Linker.Strings.{Str}
use aic_lib.Linker.Paths.{
  max_path, path_has_slash, element_length, skip_colon, copied, find_library_file,
}
use aic_lib.Linker.Paths.Search.{elements, elements_step, rest-length}
use aic_lib.Linker.Init.{find_loaded_soname_or_basename}
use aic_lib.Linker.Load.{Kernel, Attempt, done, missing, ◌>>=◌, Table, load_by_fd}
use aic_lib.Linker.Load.Grow.{Extends, Extends-self, Extends-on, found-append}
use aic_lib.Linker.Load.Ready.{IsTable}
use aic_lib.Linker.Load.Found.{IsFound, Ends, Ends-bind, Ends-map, load_by_fd-Ends, opened-Ends}
use aic_lib.Linker.Preload.{preload_file, preload_token, preload_loop, preload_one}

-- An element of the list is empty, has a slash, or is the name of a library in the table.
abbrev pub IsPresent : Table → Str → Type 0
IsPresent t [] = Unit {0}
IsPresent t (c ∷ token) =
    (path_has_slash (c ∷ token) ≡ true)
    ⊎ ((i : ℕ) × (find_loaded_soname_or_basename t.objects (c ∷ token) ≡ some i))

IsPresent-Extends :
    (s t : Table) (token : Str) → Extends s t → IsPresent s token → IsPresent t token
IsPresent-Extends s t [] ext h = tt
IsPresent-Extends s t (c ∷ token) ext (inl slash) = inl slash
IsPresent-Extends s t (c ∷ token) ((more, e), keep) (inr (i, f)) = inr (
  i,
  ap (λ os. find_loaded_soname_or_basename os (c ∷ token)) e
      ∙ found-append (c ∷ token) s.objects more i f,
)

found-IsPresent :
    (t : Table) (c : ℕ) (token : Str) (i : ℕ)
    → (path_has_slash (c ∷ token) ≡ false
        → find_loaded_soname_or_basename t.objects (c ∷ token) ≡ some i)
    → IsPresent t (c ∷ token)
found-IsPresent t c token i here = elim (Bool-cases (path_has_slash (c ∷ token))) [
  | inl slash ↦ inl slash
  | inr plain ↦ inr (i, here plain)
]

module _ (kernel : Kernel) (g : Globals) where
  abbrev pub Preloads : List Str → Table → Table → Type 0
  Preloads tokens s t = IsTable t × Extends s t × All (IsPresent t) tokens

  abbrev Added : Str → Table → Table → Type 0
  Added token s t = IsTable t × Extends s t × IsPresent t token

  table-Ends :
      (s : Table) (c : ℕ) (token : Str) (m : Attempt (ℕ × Table))
      → Ends kernel g (IsFound kernel g s (c ∷ token)) m
      → Ends kernel g (Added (c ∷ token) s) (m >>= λ (i, t). done t)
  table-Ends s c token m h =
      Ends-bind kernel g (IsFound kernel g s (c ∷ token)) (Added (c ∷ token) s) m _ h
        λ (i, t) (ok, ext, lt, marks, here). (ok, ext, found-IsPresent t c token i here)

  named-Ends :
      (s : Table) (from : Option Object) (c : ℕ) (token : Str) (r : Option (ℕ × Str))
      → find_library_file kernel.open_file g from (c ∷ token) [] ≡ r
      → IsTable s
      → find_loaded_soname_or_basename s.objects (c ∷ token) ≡ none
      → Ends kernel g (Added (c ∷ token) s) (elim r [
        | none ↦ missing (c ∷ token)
        | some (fd, path) ↦ load_by_fd kernel g s fd path false >>= λ (i, t). done t
      ])
  named-Ends s from c token none e ok absent = (from, e)
  named-Ends s from c token (some (fd, path)) e ok absent =
      table-Ends s c token _ (opened-Ends kernel g s from (c ∷ token) (some (fd, path)) e ok absent)

  slash-Ends :
      (s : Table) (c : ℕ) (token : Str) (r : Option ℕ)
      → path_has_slash (c ∷ token) ≡ true
      → kernel.open_file (c ∷ token) ≡ r
      → IsTable s
      → find_loaded_soname_or_basename s.objects (c ∷ token) ≡ none
      → Ends kernel g (Added (c ∷ token) s) (elim r [
        | none ↦ missing (c ∷ token)
        | some fd ↦ load_by_fd kernel g s fd (copied [] (c ∷ token)) false >>= λ (i, t). done t
      ])
  unfolding find_library_file
  slash-Ends s c token none slash e ok absent = (none, rw (slash, e) refl)
  slash-Ends s c token (some fd) slash e ok absent = table-Ends s c token _ (
      load_by_fd-Ends kernel g s (c ∷ token) (copied [] (c ∷ token)) fd false ok absent
        (λ plain. cc))

  file-Ends :
      (s : Table) (main c : ℕ) (token : Str) (slash : Bool)
      → path_has_slash (c ∷ token) ≡ slash
      → IsTable s
      → find_loaded_soname_or_basename s.objects (c ∷ token) ≡ none
      → Ends kernel g (Added (c ∷ token) s) (
          if slash
          then elim (kernel.open_file (c ∷ token)) [
            | none ↦ missing (c ∷ token)
            | some fd ↦ load_by_fd kernel g s fd (copied [] (c ∷ token)) false >>= λ (i, t). done t
          ]
          else elim (find_library_file kernel.open_file g
              (get_elem? s.objects main)
              (c ∷ token)
              []) [
                | none ↦ missing (c ∷ token)
                | some (fd, path) ↦ load_by_fd kernel g s fd path false >>= λ (i, t). done t
              ])
  file-Ends s main c token true e ok absent = slash-Ends s c token _ e refl ok absent
  file-Ends s main c token false e ok absent =
      named-Ends s (get_elem? s.objects main) c token _ refl ok absent

  preload_file-Ends :
      (s : Table) (main c : ℕ) (token : Str)
      → IsTable s
      → find_loaded_soname_or_basename s.objects (c ∷ token) ≡ none
      → Ends kernel g (Added (c ∷ token) s) (preload_file kernel g main (c ∷ token) s)
  unfolding preload_file
  preload_file-Ends s main c token ok absent = file-Ends s main c token _ refl ok absent

  preload_token-Ends :
      (s : Table) (main : ℕ) (token : Str)
      → IsTable s
      → Ends kernel g (Added token s) (preload_token kernel g main token s)
  unfolding preload_token
  preload_token-Ends s main [] ok = (ok, Extends-self s, tt)
  preload_token-Ends s main (c ∷ token) ok =
      elim (Option-cases (find_loaded_soname_or_basename s.objects (c ∷ token))) [
        | inr (i, e) ↦ rw (e, preload_token) (ok, Extends-self s, inr (i, e))
        | inl e ↦ rw (e, preload_token) (preload_file-Ends s main c token ok e)
      ]

  preload_loop-Ends :
      (k main : ℕ) (p : Str) (s : Table)
      → length p < k
      → IsTable s
      → Ends kernel g (Preloads (elements p) s) (preload_loop kernel g k main p s)
  unfolding preload_loop elements
  preload_loop-Ends zero main p s lt ok = absurd (omega (arith, lt))
  preload_loop-Ends (suc k) main [] s lt ok = (ok, Extends-self s, tt)
  preload_loop-Ends (suc k) main (c ∷ p) s lt ok =
      let n = element_length (c ∷ p) in
      let token = take n (c ∷ p) in
      let rest = skip_colon (drop n (c ∷ p)) in
      let shorter = rest-length c p in
      elim (Bool-cases (leb max_path n)) [
        | inl long ↦ rw (long, preload_loop) tt
        | inr short ↦
            rw (elements_step c p, short, preload_loop)
              (Ends-bind kernel g (Added token s) (Preloads (token ∷ elements rest) s)
                (preload_token kernel g main token s) _ (preload_token-Ends s main token ok)
                λ t (ok', ext, here).
                  Ends-map kernel g (Preloads (elements rest) t)
                    (Preloads (token ∷ elements rest) s) _
                    (preload_loop-Ends k main rest t (omega (arith, shorter, lt)) ok')
                    λ u (ok'', ext', all). (
                      ok'',
                      Extends-on s t u ext ext',
                      (IsPresent-Extends t u token ext' here, all),
                    ))
      ]

  -- From a table with room whose entries are all in use, `preload_one` ends, without the fuel
  -- running out. It may end in a fatal error: an element that is too long, a library that no file
  -- is found for, a file that is refused, or a full table. Otherwise the objects that were loaded
  -- keep their indices, and every element of the list without a slash that is not empty is found
  -- in the table.
  pub preload_one-Preloads :
      (main : ℕ) (list : Str) (s : Table)
      → IsTable s
      → Ends kernel g (Preloads (elements list) s) (preload_one kernel g main list s)
  unfolding preload_one
  preload_one-Preloads main list s ok =
      preload_loop-Ends (suc (length list)) main list s (omega arith) ok
