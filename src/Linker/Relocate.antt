-- ===== src/Linker/Relocate.antt =====
-- ld/dynlink.c, relocation. Addresses and addends are 64-bit patterns.
use aic_lib.Base.{
  ℕ, zero, suc, ◌+◌, ◌-◌, ◌*◌, ◌/◌, ◌%◌, ◌^◌, Bool, false, not, ◌&&◌, ◌||◌, ◌==◌, leb, ltb,
  if◌then◌else◌, List, [], ◌∷◌, Option, none, some, length, get_elem?,
}
use aic_lib.Memory.{Ptr, Cmd, pure, ◌>>=◌, ◌>>◌, load, store}
use aic_lib.Linker.{Object, Sym, Rela}
use aic_lib.Linker.Strings.{string_at}
use aic_lib.Linker.Symbols.{st_bind}
use aic_lib.Linker.Scope.{Definition, is_visible, is_weak, lookup_global}

-- `*(uintN_t *)p` of `w` bytes, least significant first.
unfoldable pub load_word : ℕ → Ptr → Cmd ℕ
load_word zero p = pure 0
load_word (suc w) p = do b ← load p; rest ← load_word w (p + 1); pure (b + 256 * rest)

unfoldable pub store_word : ℕ → Ptr → ℕ → Cmd (Unit {0})
store_word zero p v = pure tt
store_word (suc w) p v = store p (v % 256) >> store_word w (p + 1) (v / 256)

unfoldable pub reloc_type : Rela → ℕ
reloc_type r = r.r_info % 2 ^ 32

unfoldable pub reloc_sym : Rela → ℕ
reloc_sym r = r.r_info / 2 ^ 32 % 2 ^ 32

unfoldable pub fits_s32 : ℕ → Bool
fits_s32 x = leb x 0x7fff_ffff || leb (2 ^ 64 - 2 ^ 31) x

-- What a symbol resolves to: an address, the fatal error for a missing one, or a read outside a
-- table.
pub data Resolved : Type 0 where
  address : ℕ → Resolved
  unresolved : Resolved
  unread : Resolved

-- What a relocation does at its place: nothing, a store of so many bytes, a copy of so many bytes
-- from an address, or the fatal error.
pub data Action : Type 0 where
  nothing : Action
  put : ℕ → ℕ → Action
  copy : ℕ → ℕ → Action
  fatal : Action
  outside : Action

slot_in : (Rela → Bool) → List Rela → Option ℕ
slot_in test [] = none
slot_in test (r ∷ rs) = if test r then some r.r_offset else slot_in test rs

has_slot : ℕ → Rela → Bool
has_slot symidx r = (reloc_type r == 6 || reloc_type r == 7) && (reloc_sym r == symidx)

has_jump_slot : ℕ → Rela → Bool
has_jump_slot symidx r = (reloc_type r == 7) && (reloc_sym r == symidx)

jmprel_slot : Object → ℕ → ℕ
unfolding slot_in has_jump_slot
jmprel_slot o symidx = elim o.jmprel [
  | none ↦ 0
  | some table ↦
      if o.pltrel_is_rela
      then elim (slot_in (has_jump_slot symidx) table) [
        | none ↦ 0
        | some offset ↦ (o.base + offset) % 2 ^ 64
      ]
      else 0
]

unfoldable pub got_slot_for_sym : Object → ℕ → ℕ
unfolding slot_in has_slot jmprel_slot
got_slot_for_sym o symidx = elim (slot_in (has_slot symidx) o.rela) [
  | some offset ↦ (o.base + offset) % 2 ^ 64
  | none ↦ jmprel_slot o symidx
]

-- `if (!G) G = S;`
unfoldable pub got_or_symbol : Object → ℕ → ℕ → ℕ
got_or_symbol o symidx s = let g = got_slot_for_sym o symidx in if g == 0 then s else g

pltgot : Object → List (ℕ × ℕ) → Option ℕ
pltgot o [] = none
pltgot o ((tag, val) ∷ d) =
    if tag == 3 then some ((o.base + val) % 2 ^ 64) else if tag == 0 then none else pltgot o d

-- The address that `R_X86_64_GOTPC32` takes for the global offset table.
unfoldable pub got_base : Object → ℕ
unfolding pltgot
got_base o = elim o.jmprel [
  | none ↦ o.base
  | some table ↦
      if o.base == 0 then o.base else elim (pltgot o o.dyn) [ none ↦ o.base | some got ↦ got ]
]

unfoldable pub put_s32 : ℕ → Action
unfolding fits_s32
put_s32 v = if fits_s32 v then put 4 (v % 2 ^ 32) else fatal

unfoldable pub put_u32 : ℕ → Action
put_u32 v = if ltb 0xffff_ffff v then fatal else put 4 v

-- The second `switch` of `apply_one_rela`: `s` is the symbol's address, `size` its size.
unfoldable pub symbol_action : Object → Rela → ℕ → ℕ → Action
symbol_action o r s size =
    let type = reloc_type r in
    let p = (o.base + r.r_offset) % 2 ^ 64 in
    let sum = (s + r.r_addend) % 2 ^ 64 in
    let got = (got_or_symbol o (reloc_sym r) s + r.r_addend) % 2 ^ 64 in
    if type == 1
    then put 8 sum
    else if type == 2 || type == 4
    then put_s32 ((sum + 2 ^ 64 - p) % 2 ^ 64)
    else if type == 3
    then put 4 (got % 2 ^ 32)
    else if type == 6 || type == 7
    then put 8 s
    else if type == 9 || (type == 41 || type == 42)
    then put_s32 ((got + 2 ^ 64 - p) % 2 ^ 64)
    else if type == 10
    then put_u32 sum
    else if type == 11
    then put_s32 sum
    else if type == 12
    then put 2 (sum % 2 ^ 16)
    else if type == 13
    then put 2 ((sum + 2 ^ 64 - p) % 2 ^ 16)
    else if type == 14
    then put 1 (sum % 2 ^ 8)
    else if type == 15
    then put 1 ((sum + 2 ^ 64 - p) % 2 ^ 8)
    else if type == 25
    then put 8 ((sum + 2 ^ 64 - o.base) % 2 ^ 64)
    else if type == 26
    then put_s32 ((got_base o + r.r_addend + 2 ^ 64 - p) % 2 ^ 64)
    else if type == 32
    then put_u32 ((sum + size) % 2 ^ 64)
    else if type == 33
    then put 8 ((sum + size) % 2 ^ 64)
    else fatal

-- `call` is the function at an address.
module _ (call : ℕ → ℕ) where
  unfoldable pub symbol_addr : Object → Sym → ℕ
  symbol_addr o s =
      let a = if s.st_shndx == 0xfff1 then s.st_value else (o.base + s.st_value) % 2 ^ 64 in
      if s.st_info % 16 == 10 then call a else a

  defined_addr : List Object → Option Definition → Bool → Resolved
  unfolding symbol_addr
  defined_addr objects none weak = if weak then address 0 else unresolved
  defined_addr objects (some (d, s)) weak = elim (get_elem? objects d) [
    | none ↦ unread
    | some def ↦ address (symbol_addr def s)
  ]

  -- `r` is the index of `o` in the table.
  resolve_symbol : ℕ → List Object → ℕ → Object → Sym → Resolved
  unfolding symbol_addr defined_addr
  resolve_symbol k objects r o s =
      if not (s.st_shndx == 0) && (not (is_visible s) || (st_bind s == 0))
      then address (symbol_addr o s)
      else if length (string_at o.strtab s.st_name) == 0
      then address 0
      else elim (lookup_global k objects (string_at o.strtab s.st_name) (some r) false) [
        | none ↦ unread
        | some found ↦ defined_addr objects found (is_weak s)
      ]

  unfoldable pub resolve_reloc_symbol : ℕ → List Object → ℕ → Object → ℕ → Resolved
  unfolding resolve_symbol
  resolve_reloc_symbol k objects r o symidx = elim (get_elem? o.symtab symidx) [
    | none ↦ unread
    | some s ↦ resolve_symbol k objects r o s
  ]
