-- ===== src/Linker/Startup/Handover.antt =====
-- What the program that is started reads on its stack.
use aic_lib.Base.{
  ℕ, zero, suc, ◌+◌, ◌-◌, ◌≡◌, ◌<◌, refl, ap, ◌∙◌, sym, arith, false, ◌==◌, List, [], ◌∷◌, ◌++◌,
  some, length, length-append, append_assoc, take-length-append, drop-length-append, drop-past,
  drop-get_or, get_or-append_left, set-length-append, length-drop, get_or, set, take, drop, All,
}
use aic_lib.Linker.Startup.{
  read_env, move_args, replace_args, MainInfo, new_aux, patch_aux, set_exec_auxv,
}
use aic_lib.Linker.Startup.Stack.{Aux, aux_words, stack, NotZero, Tagged, read_env-words, drop_args}

abbrev pub patched : MainInfo → List Aux → List Aux
patched m [] = []
patched m ((tag, val) ∷ aux) = (tag, new_aux m tag val) ∷ patched m aux

patch_aux-words :
    (m : MainInfo) (aux : List Aux)
    → All Tagged aux
    → patch_aux m (aux_words aux) ≡ aux_words (patched m aux)
unfolding patch_aux
patch_aux-words m [] h = refl
patch_aux-words m ((tag, val) ∷ aux) h =
    rw h.0 (ap (λ ws. tag ∷ new_aux m tag val ∷ ws) (patch_aux-words m aux h.1))

patched-Tagged : (m : MainInfo) (aux : List Aux) → All Tagged aux → All Tagged (patched m aux)
patched-Tagged m [] h = tt
patched-Tagged m ((tag, val) ∷ aux) h = (h.0, patched-Tagged m aux h.1)

-- The words of the environment as pairs, none of which is an entry that is replaced.
abbrev pub Apart : List ℕ → Type 0
Apart [] = Unit {0}
Apart (a ∷ []) = ⊥
Apart (a ∷ b ∷ env) = (31 < a) × Apart env

new_aux-apart : (m : MainInfo) (tag val : ℕ) → 31 < tag → new_aux m tag val ≡ val
unfolding new_aux
new_aux-apart m tag val h = ground (arith, h)

patch_aux-Apart :
    (m : MainInfo) (env rest : List ℕ)
    → Apart env
    → patch_aux m (env ++ (0 ∷ rest)) ≡ env ++ (0 ∷ rest)
unfolding patch_aux new_aux
patch_aux-Apart m [] [] h = refl
patch_aux-Apart m [] (b ∷ rest) h = refl
patch_aux-Apart m (a ∷ []) rest h = absurd h
patch_aux-Apart m (a ∷ b ∷ env) rest h =
    let ih = patch_aux-Apart m env rest h.1 in
    let z : (a == 0) ≡ false = ground (arith, h) in
    let same : new_aux m a b ≡ b = new_aux-apart m a b h.0 in rw (z, same, ih) refl

set_exec_auxv-split :
    (m : MainInfo) (envp : ℕ) (pre post : List ℕ)
    → envp + 1 ≡ length pre
    → set_exec_auxv m envp (pre ++ post) ≡ pre ++ patch_aux m post
unfolding set_exec_auxv
set_exec_auxv-split m envp pre post e =
    let t = take-length-append pre post in let d = drop-length-append pre post in rw (e, t, d) refl

-- With an empty environment, `set_exec_auxv` replaces the values in the auxiliary vector and
-- nothing else.
pub set_exec_auxv-empty :
    (m : MainInfo) (argv : List ℕ) (aux : List Aux)
    → All Tagged aux
    → set_exec_auxv m (length argv + 2) (stack argv [] aux) ≡ stack argv [] (patched m aux)
unfolding stack
set_exec_auxv-empty m argv aux h =
    let pre = length argv ∷ (argv ++ (0 ∷ 0 ∷ [])) in
    let l = length-append argv (0 ∷ 0 ∷ []) in
    ap (λ ws. set_exec_auxv m (length argv + 2) (length argv ∷ ws))
      (sym (append_assoc argv (0 ∷ 0 ∷ []) (aux_words aux)))
    ∙ (set_exec_auxv-split m (length argv + 2) pre (aux_words aux) (omega (arith, l))
        ∙ (ap (λ ws. pre ++ ws) (patch_aux-words m aux h)
            ∙ ap (λ ws. length argv ∷ ws)
                (append_assoc argv (0 ∷ 0 ∷ []) (aux_words (patched m aux)))))

-- With an environment of an odd number of addresses above 31, `set_exec_auxv` changes nothing.
pub set_exec_auxv-odd :
    (m : MainInfo) (argv : List ℕ) (e : ℕ) (env : List ℕ) (aux : List Aux)
    → Apart env
    → set_exec_auxv m (length argv + 2) (stack argv (e ∷ env) aux) ≡ stack argv (e ∷ env) aux
unfolding stack
set_exec_auxv-odd m argv e env aux h =
    let pre = length argv ∷ (argv ++ (0 ∷ e ∷ [])) in
    let post = env ++ (0 ∷ aux_words aux) in
    let l = length-append argv (0 ∷ e ∷ []) in
    let whole = append_assoc argv (0 ∷ e ∷ []) post in
    ap (λ ws. set_exec_auxv m (length argv + 2) (length argv ∷ ws)) (sym whole)
    ∙ (set_exec_auxv-split m (length argv + 2) pre post (omega (arith, l))
        ∙ (ap (λ ws. pre ++ ws) (patch_aux-Apart m env (aux_words aux) h)
            ∙ ap (λ ws. length argv ∷ ws) whole))

moved :
    (n target : ℕ) (argv rest : List ℕ)
    → length argv ≡ n + target
    → move_args n target (argv ++ rest) ≡ drop target argv ++ (drop n argv ++ rest)
unfolding move_args
moved zero target argv rest e =
    let none_left = drop-past target argv (omega (arith, e)) in rw none_left refl
moved (suc n) target [] rest e = absurd (omega (arith, e))
moved (suc n) target (a ∷ argv) rest e =
    let lt : target < length (a ∷ argv) = omega (arith, e) in
    let first = get_or-append_left (a ∷ argv) rest target 0 lt in
    let step = drop-get_or target (a ∷ argv) 0 lt in
    rw (first, step, moved n target argv rest (omega (arith, e))) refl

-- The words of the stack whose first arguments are dropped.
abbrev pub shifted : ℕ → List ℕ → List ℕ → List Aux → List ℕ
shifted n argv env aux = drop (suc n) argv ++ (0 ∷ (env ++ (0 ∷ aux_words aux)))

replace_args-shifted :
    (n target : ℕ) (argv env : List ℕ) (aux : List Aux)
    → length argv ≡ n + target
    → 0 < target
    → replace_args target (stack argv env aux)
      ≡ n ∷ (drop target argv ++ (0 ∷ shifted n argv env aux))
unfolding replace_args stack
replace_args-shifted n target argv env aux e pos_target =
    let rest = 0 ∷ (env ++ (0 ∷ aux_words aux)) in
    let left : length argv - target ≡ n = omega (arith, e) in
    let count : n ≡ length (drop target argv) = omega (arith, e, length-drop target argv) in
    let here = drop-get_or n argv 0 (omega (arith, e, pos_target)) in
    let there = moved n target argv rest e ∙ ap (λ l. drop target argv ++ (l ++ rest)) here in
    let cleared =
      set-length-append (drop target argv) (drop (suc n) argv ++ rest) (get_or argv n 0) 0 in
    ap (λ k. k ∷ set (move_args k target (argv ++ rest)) k 0) left
    ∙ ap (λ ws. n ∷ ws)
        (ap (λ ws. set ws n 0) there
          ∙ (ap (λ k. set (drop target argv ++ ((get_or argv n 0 ∷ drop (suc n) argv) ++ rest)) k 0)
                count
              ∙ cleared))

All-drop {κ} : (P : ℕ → Type κ) (n : ℕ) (xs : List ℕ) → All P xs → All P (drop n xs)
All-drop P zero xs h = h
All-drop P (suc n) [] h = tt
All-drop P (suc n) (x ∷ xs) h = All-drop P n xs h.1

take_args : (k a : ℕ) (xs ys : List ℕ) → k ≡ length xs + 1 → take k (a ∷ (xs ++ ys)) ≡ a ∷ xs
take_args zero a xs ys e = absurd (omega (arith, e))
take_args (suc k) a xs ys e =
    let same : k ≡ length xs = omega (arith, e) in
    rw same (ap (λ l. a ∷ l) (take-length-append xs ys))

drop_words :
    (k a : ℕ) (xs rest : List ℕ) → k ≡ length xs + 2 → drop k (a ∷ (xs ++ (0 ∷ rest))) ≡ rest
drop_words zero a xs rest e = absurd (omega (arith, e))
drop_words (suc k) a xs rest e = drop_args k xs rest (omega (arith, e))

-- Where the program is not the first argument, and no argument is a null address, `replace_args`
-- leaves the program's arguments on the stack, but the program reads as its environment the last
-- arguments that were left over, one less than were dropped, and as its auxiliary vector what
-- starts with the environment.
pub replace_args-leftover :
    (n target : ℕ) (argv env : List ℕ) (aux : List Aux)
    → length argv ≡ n + target
    → 0 < target
    → All NotZero argv
    → (take (n + 1) (replace_args target (stack argv env aux)) ≡ n ∷ drop target argv)
      × (read_env (drop (n + 2) (replace_args target (stack argv env aux)))
          ≡ some (drop (suc n) argv, env ++ (0 ∷ aux_words aux)))
replace_args-leftover n target argv env aux e pos_target args =
    let whole = replace_args-shifted n target argv env aux e pos_target in
    let count : n ≡ length (drop target argv) = omega (arith, e, length-drop target argv) in
    (
      ap (λ ws. take (n + 1) ws) whole
          ∙ take_args (n + 1) n (drop target argv) _ (omega (arith, count)),
      ap (λ ws. read_env (drop (n + 2) ws)) whole
          ∙ (ap read_env (
                drop_words (n + 2) n (drop target argv) (shifted n argv env aux)
                  (omega (arith, count)))
              ∙ read_env-words (drop (suc n) argv) _ (All-drop NotZero (suc n) argv args)),
    )
