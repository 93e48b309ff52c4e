-- ===== src/Linker/Startup.antt =====
-- ld/dynlink.c, the initial stack: reading it, and changing it for the program that is started. The
-- stack is the list of its 64-bit words from the stack pointer on.
pub mod Stack
pub mod Handover
use aic_lib.Base.{
  ℕ, zero, suc, ◌+◌, ◌-◌, ◌*◌, ◌%◌, ◌^◌, Bool, true, false, not, ◌&&◌, ◌==◌, leb, if◌then◌else◌,
  List, [], ◌∷◌, ◌++◌, Option, none, some, length, get_or, set, take, drop,
}
use aic_lib.Linker.Segments.{Phdr}

-- The globals that the auxiliary vector sets.
pub record Startup : Type 0 where
  pub exec_phdr : ℕ
  pub exec_phent : ℕ
  pub exec_phnum : ℕ
  pub page : ℕ
  pub main_entry : ℕ
  pub execfn : ℕ
  pub loader_base : ℕ
  pub at_secure : ℕ

unfoldable pub initial_startup : Startup
initial_startup = record {
  exec_phdr = 0;
  exec_phent = 0;
  exec_phnum = 0;
  page = 4096;
  main_entry = 0;
  execfn = 0;
  loader_base = 0;
  at_secure = 0;
}

unfoldable pub set_aux : ℕ → ℕ → Startup → Startup
set_aux tag val s =
    if tag == 3
    then record s { exec_phdr = val }
    else if tag == 4
    then record s { exec_phent = val }
    else if tag == 5
    then record s { exec_phnum = val }
    else if tag == 6
    then (if val == 0 then s else record s { page = val })
    else if tag == 9
    then record s { main_entry = val }
    else if tag == 31
    then record s { execfn = val }
    else if tag == 7
    then record s { loader_base = val }
    else if tag == 23
    then record s { at_secure = val }
    else s

-- `while (*env) ++env;`: the environment, and the words behind its end.
unfoldable pub read_env : List ℕ → Option (List ℕ × List ℕ)
read_env [] = none
read_env (w ∷ ws) =
    if w == 0
    then some ([], ws)
    else elim (read_env ws) [ none ↦ none | some (env, aux) ↦ some (w ∷ env, aux) ]

unfoldable pub read_aux : List ℕ → Startup → Option Startup
unfolding set_aux
read_aux [] s = none
read_aux (tag ∷ []) s = none
read_aux (tag ∷ val ∷ ws) s = if tag == 0 then some s else read_aux ws (set_aux tag val s)

-- The words of the environment, and the globals; none if the stack ends too soon.
unfoldable pub parse_initial_stack : List ℕ → Option (List ℕ × Startup)
unfolding read_env read_aux initial_startup
parse_initial_stack words =
    let argc = get_or words 0 0 in
    elim (read_env (drop (argc + 2) words)) [
      | none ↦ none
      | some (env, aux) ↦ elim (read_aux aux initial_startup) [
        | none ↦ none
        | some s ↦ some (env, s)
      ]
    ]

-- The index of `g_envp`.
unfoldable pub envp_index : List ℕ → ℕ
envp_index words = get_or words 0 0 + 2

-- `av[j] = argv[target_index + j]`, where what is read has not been written yet.
move_args : ℕ → ℕ → List ℕ → List ℕ
move_args zero target av = av
move_args (suc n) target [] = []
move_args (suc n) target (a ∷ av) = get_or (a ∷ av) target 0 ∷ move_args n target av

-- Replacing the arguments of the linker by those of the program.
unfoldable pub replace_args : ℕ → List ℕ → List ℕ
unfolding move_args
replace_args target [] = []
replace_args target (argc ∷ av) =
    let new_argc = argc - target in new_argc ∷ set (move_args new_argc target av) new_argc 0

-- What the linker tells the program about itself.
pub record MainInfo : Type 0 where
  pub base : ℕ
  pub entry : ℕ
  pub e_phoff : ℕ
  pub e_phnum : ℕ
  pub phdrs : List Phdr
  pub loader_base : ℕ
  pub execfn : ℕ

find_phdr : ℕ → List Phdr → ℕ
find_phdr base [] = 0
find_phdr base (p ∷ ph) = if p.p_type == 6 then (base + p.p_vaddr) % 2 ^ 64 else find_phdr base ph

holds_phdrs : MainInfo → Phdr → Bool
holds_phdrs m p =
    (p.p_type == 1)
    && leb p.p_offset m.e_phoff
    && leb ((m.e_phoff + m.e_phnum * 56) % 2 ^ 64) ((p.p_offset + p.p_filesz) % 2 ^ 64)

load_phdr : MainInfo → List Phdr → ℕ
unfolding holds_phdrs
load_phdr m [] = 0
load_phdr m (p ∷ ph) =
    if holds_phdrs m p
    then (m.base + p.p_vaddr + (m.e_phoff - p.p_offset)) % 2 ^ 64
    else load_phdr m ph

-- The address of the program headers at run time.
unfoldable pub phdr_rt : MainInfo → ℕ
unfolding find_phdr load_phdr
phdr_rt m =
    let found = find_phdr m.base m.phdrs in if found == 0 then load_phdr m m.phdrs else found

unfoldable pub new_aux : MainInfo → ℕ → ℕ → ℕ
unfolding phdr_rt
new_aux m tag val =
    if tag == 3
    then phdr_rt m
    else if tag == 4
    then 56
    else if tag == 5
    then m.e_phnum
    else if tag == 9
    then m.entry
    else if tag == 7
    then m.loader_base
    else if tag == 31
    then m.execfn
    else val

unfoldable pub patch_aux : MainInfo → List ℕ → List ℕ
unfolding new_aux
patch_aux m [] = []
patch_aux m (tag ∷ []) = tag ∷ []
patch_aux m (tag ∷ val ∷ ws) =
    if tag == 0 then tag ∷ val ∷ ws else tag ∷ new_aux m tag val ∷ patch_aux m ws

-- `envp` is the index of `g_envp` in the stack.
unfoldable pub set_exec_auxv : MainInfo → ℕ → List ℕ → List ℕ
unfolding patch_aux
set_exec_auxv m envp words = take (envp + 1) words ++ patch_aux m (drop (envp + 1) words)
