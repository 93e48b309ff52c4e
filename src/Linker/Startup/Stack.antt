-- ===== src/Linker/Startup/Stack.antt =====
-- Reading the initial stack gives what was put on it.
use aic_lib.Base.{
  ℕ, zero, suc, ◌+◌, ◌≡◌, refl, ap, ◌∙◌, arith, false, ◌==◌, if◌then◌else◌, List, [], ◌∷◌, ◌++◌,
  some, length, get_or, drop, All,
}
use aic_lib.Linker.Startup.{
  Startup, initial_startup, set_aux, read_env, read_aux, parse_initial_stack,
}

-- An entry of the auxiliary vector: its tag and its value.
abbrev pub Aux : Type 0
Aux = ℕ × ℕ

abbrev pub aux_words : List Aux → List ℕ
aux_words [] = 0 ∷ 0 ∷ []
aux_words ((tag, val) ∷ aux) = tag ∷ val ∷ aux_words aux

-- The stack as the kernel lays it out.
unfoldable pub stack : List ℕ → List ℕ → List Aux → List ℕ
stack argv env aux = length argv ∷ (argv ++ (0 ∷ (env ++ (0 ∷ aux_words aux))))

abbrev pub NotZero : ℕ → Type 0
NotZero w = (w == 0) ≡ false

abbrev pub Tagged : Aux → Type 0
Tagged (tag, val) = (tag == 0) ≡ false

-- The value of the last entry with the tag, or the default.
unfoldable pub last_value : ℕ → List Aux → ℕ → ℕ
last_value t [] d = d
last_value t ((tag, val) ∷ aux) d = last_value t aux (if tag == t then val else d)

-- The same where a zero is left out.
unfoldable pub last_page : List Aux → ℕ → ℕ
last_page [] d = d
last_page ((tag, val) ∷ aux) d =
    last_page aux (if tag == 6 then (if val == 0 then d else val) else d)

unfoldable pub aux_values : List Aux → Startup → Startup
unfolding last_value last_page
aux_values aux s = record {
  exec_phdr = last_value 3 aux s.exec_phdr;
  exec_phent = last_value 4 aux s.exec_phent;
  exec_phnum = last_value 5 aux s.exec_phnum;
  page = last_page aux s.page;
  main_entry = last_value 9 aux s.main_entry;
  execfn = last_value 31 aux s.execfn;
  loader_base = last_value 7 aux s.loader_base;
  at_secure = last_value 23 aux s.at_secure;
}

pub aux_values-step :
    (tag val : ℕ) (aux : List Aux) (s : Startup)
    → aux_values aux (set_aux tag val s) ≡ aux_values ((tag, val) ∷ aux) s
unfolding aux_values set_aux last_value last_page
aux_values-step tag val aux s = ground arith

pub read_aux-words :
    (aux : List Aux) (s : Startup)
    → All Tagged aux
    → read_aux (aux_words aux) s ≡ some (aux_values aux s)
unfolding read_aux aux_values last_value last_page
read_aux-words [] s h = refl
read_aux-words ((tag, val) ∷ aux) s h =
    rw (h.0) (read_aux-words aux (set_aux tag val s) h.1 ∙ ap some (aux_values-step tag val aux s))

pub read_env-words :
    (env rest : List ℕ) → All NotZero env → read_env (env ++ (0 ∷ rest)) ≡ some (env, rest)
unfolding read_env
read_env-words [] rest h = refl
read_env-words (w ∷ env) rest h = rw (h.0, read_env-words env rest h.1) refl

pub drop_args :
    (n : ℕ) (argv rest : List ℕ) → n ≡ length argv + 1 → drop n (argv ++ (0 ∷ rest)) ≡ rest
drop_args zero argv rest e = absurd (omega (arith, e))
drop_args (suc n) [] rest e = let z : n ≡ 0 = omega (arith, e) in rw z refl
drop_args (suc n) (a ∷ argv) rest e = drop_args n argv rest (omega (arith, e))

pub drop-stack :
    (n : ℕ) (argv env : List ℕ) (aux : List Aux)
    → n ≡ length argv + 2
    → drop n (stack argv env aux) ≡ env ++ (0 ∷ aux_words aux)
unfolding stack
drop-stack zero argv env aux e = absurd (omega (arith, e))
drop-stack (suc n) argv env aux e = drop_args n argv _ (omega (arith, e))

pub parse-read :
    (words env ws : List ℕ) (s : Startup)
    → read_env (drop (get_or words 0 0 + 2) words) ≡ some (env, ws)
    → read_aux ws initial_startup ≡ some s
    → parse_initial_stack words ≡ some (env, s)
unfolding parse_initial_stack
parse-read words env ws s e a = rw (parse_initial_stack, e, a) refl

-- From a stack whose environment has no null address and whose auxiliary entries have no zero tag,
-- `parse_initial_stack` reads back the environment, and for each global the value of the last
-- entry with its tag, or the value at the start if there is none; a page size of zero is left out.
pub parse_initial_stack-stack :
    (argv env : List ℕ) (aux : List Aux)
    → All NotZero env
    → All Tagged aux
    → parse_initial_stack (stack argv env aux) ≡ some (env, aux_values aux initial_startup)
unfolding stack
parse_initial_stack-stack argv env aux he ha =
    parse-read (stack argv env aux) env (aux_words aux) (aux_values aux initial_startup)
      (ap read_env (drop-stack (length argv + 2) argv env aux refl)
        ∙ read_env-words env (aux_words aux) he)
      (read_aux-words aux initial_startup ha)
