-- ===== src/Linker/Apply.antt =====
-- ld/dynlink.c, the relocations of an object applied to memory. `call` is the function at an
-- address, and `r` the index of the object in the table.
pub mod Words
pub mod Relative
pub mod Places
pub mod Added
use aic_lib.Base.{
  ℕ, zero, suc, ◌+◌, ◌-◌, ◌*◌, ◌/◌, ◌%◌, ◌^◌, Bool, true, false, not, ◌&&◌, ◌||◌, ◌==◌, leb, ltb,
  if◌then◌else◌, List, [], ◌∷◌, Option, none, some, length, get_elem?, take, min,
}
use aic_lib.Memory.{Ptr, Memory, Outcome, done, fault, no_fuel, Cmd, pure, ◌>>=◌, ◌>>◌, load, store}
use aic_lib.Linker.{Object, Sym, Rela}
use aic_lib.Linker.Strings.{string_at}
use aic_lib.Linker.Scope.{Definition, lookup_global}
use aic_lib.Linker.Relocate.{
  load_word, store_word, reloc_type, reloc_sym, Resolved, address, unresolved, unread, Action,
  nothing, put, copy, fatal, outside, symbol_action, symbol_addr, resolve_reloc_symbol,
}

-- The types that `apply_one_rela` handles before it resolves a symbol, and those that need one.
needs_symbol : ℕ → Bool
needs_symbol type =
    (leb 1 type && leb type 15 && not (type == 5 || type == 8))
    || (leb 24 type && leb type 33)
    || (type == 41 || type == 42)

copy_action : (ℕ → ℕ) → List Object → Sym → Option (Option Definition) → Action
unfolding symbol_addr
copy_action call objects sym none = outside
copy_action call objects sym (some none) = fatal
copy_action call objects sym (some (some (d, source))) = elim (get_elem? objects d) [
  | none ↦ outside
  | some def ↦
      copy (symbol_addr call def source)
        (if ltb source.st_size sym.st_size then source.st_size else sym.st_size)
]

resolved_action : Object → Rela → Sym → Resolved → Action
unfolding symbol_action
resolved_action o r sym (address s) = symbol_action o r s sym.st_size
resolved_action o r sym unresolved = fatal
resolved_action o r sym unread = outside

module _ (call : ℕ → ℕ) (k : ℕ) (objects : List Object) (index : ℕ) (o : Object) where
  with_symbol : Rela → (Sym → Action) → Action
  with_symbol r next = if reloc_sym r == 0 then fatal else elim (get_elem? o.symtab (reloc_sym r)) [
    | none ↦ if length o.symtab == 0 then fatal else outside
    | some sym ↦ next sym
  ]

  unfoldable pub rela_action : Rela → Action
  unfolding with_symbol copy_action resolved_action needs_symbol resolve_reloc_symbol
  rela_action r =
      let type = reloc_type r in
      if type == 0
      then nothing
      else if type == 8
      then put 8 ((o.base + r.r_addend) % 2 ^ 64)
      else if type == 37
      then put 8 (call ((o.base + r.r_addend) % 2 ^ 64))
      else if type == 5
      then with_symbol r (λ sym.
        copy_action call objects sym
          (lookup_global k objects (string_at o.strtab sym.st_name) (some index) true))
      else if needs_symbol type
      then with_symbol r (λ sym.
        resolved_action o r sym (resolve_reloc_symbol call k objects index o (reloc_sym r)))
      else fatal

-- How relocation goes on: with the memory left, or not at all.
pub data Relocated : Type 0 where
  left : Memory → Relocated
  stopped : Relocated
  failed : Relocated

left_by : Outcome (Unit {0}) → Relocated
left_by (done u m) = left m
left_by fault = failed
left_by no_fuel = failed

-- `mcpy`
copy_bytes : ℕ → Ptr → Ptr → Cmd (Unit {0})
copy_bytes zero dst src = pure tt
copy_bytes (suc n) dst src = do b ← load src; store dst b >> copy_bytes n (dst + 1) (src + 1)

unfoldable pub perform : Action → Ptr → Memory → Relocated
unfolding left_by copy_bytes
perform nothing p m = left m
perform (put w v) p m = left_by (store_word w p v m)
perform (copy src n) p m = left_by (copy_bytes n p src m)
perform fatal p m = stopped
perform outside p m = failed

unfoldable pub and_next : Relocated → (Memory → Relocated) → Relocated
and_next (left m) next = next m
and_next stopped next = stopped
and_next failed next = failed

-- `*(uintptr_t *)where += base`
unfoldable pub add_base : ℕ → Ptr → Cmd (Unit {0})
add_base base p = do v ← load_word 8 p; store_word 8 p ((v + base) % 2 ^ 64)

-- The places that a bitmap of `n` bits marks, from `p` on.
relr_bits : ℕ → ℕ → ℕ → Ptr → Cmd (Unit {0})
unfolding add_base
relr_bits base zero bits p = pure tt
relr_bits base (suc n) bits p =
    (if bits % 2 == 1 then add_base base p else pure tt) >> relr_bits base n (bits / 2) (p + 8)

unfoldable pub apply_relr : ℕ → List ℕ → Ptr → Cmd (Unit {0})
unfolding relr_bits add_base
apply_relr base [] p = pure tt
apply_relr base (e ∷ table) p =
    if e % 2 == 0
    then add_base base ((base + e) % 2 ^ 64) >> apply_relr base table ((base + e) % 2 ^ 64 + 8)
    else relr_bits base 63 (e / 2) p >> apply_relr base table (p + 63 * 8)

module _ (call : ℕ → ℕ) (k : ℕ) (objects : List Object) (index : ℕ) (o : Object) where
  unfoldable pub apply_one_rela : Rela → Memory → Relocated
  unfolding rela_action perform
  apply_one_rela r m =
      perform (rela_action call k objects index o r) ((o.base + r.r_offset) % 2 ^ 64) m

  unfoldable pub apply_relas : List Rela → Memory → Relocated
  unfolding apply_one_rela and_next
  apply_relas [] m = left m
  apply_relas (r ∷ rs) m = and_next (apply_one_rela r m) (apply_relas rs)

  -- The entries that `DT_RELACOUNT` counts must be relative ones.
  apply_prefix : ℕ → List Rela → Memory → Relocated
  unfolding apply_relas apply_one_rela and_next
  apply_prefix zero rs m = apply_relas rs m
  apply_prefix (suc n) [] m = left m
  apply_prefix (suc n) (r ∷ rs) m =
      if reloc_type r == 8 then and_next (apply_one_rela r m) (apply_prefix n rs) else stopped

  apply_jmprel : Option (List Rela) → Memory → Relocated
  unfolding apply_relas
  apply_jmprel none m = left m
  apply_jmprel (some []) m = left m
  apply_jmprel (some (r ∷ rs)) m = if o.pltrel_is_rela then apply_relas (r ∷ rs) m else stopped

  -- `relocated` is the object's flag.
  unfoldable pub relocate_object : Bool → Memory → Relocated
  unfolding apply_prefix apply_jmprel and_next left_by apply_relr
  relocate_object relocated m =
      if relocated
      then left m
      else and_next (apply_prefix o.relacount o.rela m) (λ m'.
        and_next (apply_jmprel o.jmprel m') (λ m''. left_by (apply_relr o.base o.relr 0 m'')))
