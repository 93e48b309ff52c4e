-- ===== src/Environment.antt =====
-- src/stdlib/os.c, `getenv`. `environ` is the list of its pointers before the `NULL` at its end.
pub mod First
use aic_lib.Base.{ℕ, ◌+◌, Bool, false, ◌==◌, if◌then◌else◌, List, [], ◌∷◌, Option, none, some}
use aic_lib.Base.Int.{ℤ, pos, negsuc}
use aic_lib.Memory.{Ptr, Cmd, pure, ◌>>=◌, load}
use aic_lib.CString.{strlen, strncmp}

abbrev pub equals_zero : ℤ → Bool
equals_zero (pos n) = n == 0
equals_zero (negsuc n) = false

-- The address of the value, if the string at `env` is one of the variable `name`.
unfoldable pub value_in : Ptr → Ptr → ℕ → Cmd (Option Ptr)
value_in env name len = do
  r ← strncmp env name len
  if equals_zero r
      then (do c ← load (env + len); pure (if c == b'=' then some (env + len + 1) else none))
      else pure none

-- `for (char **env = environ; *env != NULL; env++)`
pub getenv_loop : List Ptr → Ptr → ℕ → Cmd (Option Ptr)
getenv_loop [] name len = pure none
getenv_loop (env ∷ envs) name len = do
  found ← value_in env name len
  elim found [ some value ↦ pure (some value) | none ↦ getenv_loop envs name len ]

-- `NULL` is `none`, for `environ`, the name and the result.
unfoldable pub getenv : ℕ → Option (List Ptr) → Option Ptr → Cmd (Option Ptr)
unfolding getenv_loop
getenv k environ none = pure none
getenv k none (some name) = pure none
getenv k (some environ) (some name) = do len ← strlen k name; getenv_loop environ name len
