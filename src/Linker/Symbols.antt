-- ===== src/Linker/Symbols.antt =====
-- ld/dynlink.c, the hash functions and the lookup of symbols. A search ends with `none` where it
-- would read outside a table.
pub mod Hash
pub mod Table
pub mod Found
use aic_lib.Base.{
  ℕ, zero, suc, ◌+◌, ◌-◌, ◌*◌, ◌/◌, ◌%◌, ◌^◌, ◌≡◌, Bool, true, false, not, ◌&&◌, ◌||◌, ◌==◌, leb,
  ltb, if◌then◌else◌, List, [], ◌∷◌, Option, none, some, length, get_elem?, bit_and, bit_or,
  bit_xor,
}
use aic_lib.Linker.{Object, Sym, GnuTable, SysvTable, ◌>>=◌}
use aic_lib.Linker.Strings.{Str, string_at, same_string}

-- One round of the loop in `elf_hash`, on 32-bit words.
elf_step : ℕ → ℕ → ℕ
elf_step h c =
    let shifted = (h * 16 + c) % 2 ^ 32 in
    let g = bit_and shifted 0xf000_0000 in
    let mixed = if g == 0 then shifted else bit_xor shifted (g / 2 ^ 24) in
    bit_and mixed (2 ^ 32 - 1 - g)

elf_hash_loop : ℕ → Str → ℕ
elf_hash_loop h [] = h
elf_hash_loop h (c ∷ name) = elf_hash_loop (elf_step h c) name

unfoldable pub elf_hash : Str → ℕ
unfolding elf_hash_loop elf_step
elf_hash name = elf_hash_loop 0 name

gnu_hash_loop : ℕ → Str → ℕ
gnu_hash_loop h [] = h
gnu_hash_loop h (c ∷ name) = gnu_hash_loop ((h * 2 ^ 5 % 2 ^ 32 + h + c) % 2 ^ 32) name

unfoldable pub gnu_hash : Str → ℕ
unfolding gnu_hash_loop
gnu_hash name = gnu_hash_loop 5381 name

-- `ELF64_ST_BIND` and `ELF64_ST_VISIBILITY`.
unfoldable pub st_bind : Sym → ℕ
st_bind s = s.st_info / 16

unfoldable pub st_visibility : Sym → ℕ
st_visibility s = s.st_other % 4

unfoldable pub sym_usable : Sym → Bool → Bool
unfolding st_bind
sym_usable s allow_weak =
    if s.st_shndx == 0
    then false
    else if st_bind s == 0
    then false
    else if not allow_weak && (st_bind s == 2)
    then false
    else true

-- `sym_usable(s, 1) && scmp(o->strtab + s->st_name, name) == 0`
unfoldable pub is_match : Object → Str → Sym → Bool
is_match o name s = sym_usable s true && same_string (string_at o.strtab s.st_name) name

-- Whether the two bits of the hash are set in its word of the filter.
unfoldable pub bloom_test : GnuTable → ℕ → Option Bool
bloom_test t h = do
  word ← get_elem? t.bloom (h / 64 % length t.bloom)
  let mask = bit_or (2 ^ (h % 64)) (2 ^ (h / 2 ^ t.bloom_shift % 64))
  some (bit_and word mask == mask)

module _ (o : Object) (t : GnuTable) (name : Str) (h : ℕ) where
  gnu_chain : ℕ → ℕ → Option (Option Sym)
  gnu_chain zero idx = none
  gnu_chain (suc k) idx = do
    c ← get_elem? t.chains (idx - t.symoffset)
    let rest = if c % 2 == 1 then some none else gnu_chain k (suc idx)
    if bit_or c 1 == bit_or h 1
        then (do s ← get_elem? o.symtab idx; if is_match o name s then some (some s) else rest)
        else rest

  gnu_lookup : ℕ → Option (Option Sym)
  unfolding gnu_chain
  gnu_lookup k = do
    pass ← bloom_test t h
    if not pass then some none else do
      idx ← get_elem? t.buckets (h % length t.buckets)
      if ltb idx t.symoffset then some none else gnu_chain k idx

module _ (o : Object) (t : SysvTable) (name : Str) where
  sysv_chain : ℕ → ℕ → Option (Option Sym)
  sysv_chain zero idx = none
  sysv_chain (suc k) idx = if idx == 0 then some none else do
    s ← get_elem? o.symtab idx
    if is_match o name s then some (some s) else do next ← get_elem? t.chains idx; sysv_chain k next

-- With no hash table there are no symbols to look at. An absent symbol or string table is empty.
unfoldable pub lookup_one : ℕ → Object → Str → Option (Option Sym)
unfolding gnu_lookup sysv_chain elf_hash gnu_hash
lookup_one k o name =
    if (length o.symtab == 0) || (length o.strtab == 0) then some none else elim o.gnu_hash [
      | some t ↦ gnu_lookup o t name (gnu_hash name) k
      | none ↦ elim o.sysv_hash [
        | some t ↦ do
          idx ← get_elem? t.buckets (elf_hash name % length t.buckets)
          sysv_chain o t name k idx
        | none ↦ some none
      ]
    ]
