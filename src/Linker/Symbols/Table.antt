-- ===== src/Linker/Symbols/Table.antt =====
-- A lookup in a hash table against the symbols that the table holds.
use aic_lib.Base.{
  ℕ, zero, suc, ◌-◌, ◌%◌, ◌/◌, ◌≡◌, ◌≢◌, arith, Bool, true, false, not, ◌&&◌, ◌||◌, ◌==◌, ltb,
  if◌then◌else◌, Option, none, some, length, get_elem?, bit_or, Bool-cases, Option-cases, inl, inr,
}
use aic_lib.Linker.{Object, Sym, GnuTable, SysvTable, ◌>>=◌}
use aic_lib.Linker.Strings.{Str, string_at, same_string, same_string-eq, same_string_self}
use mathlib.Core.Path.{subst}
use aic_lib.Linker.Symbols.{
  gnu_hash, elf_hash, st_bind, sym_usable, is_match, bloom_test, gnu_chain, gnu_lookup, sysv_chain,
  lookup_one,
}

-- A definition of the name: the symbol's section is not SHN_UNDEF, its binding is not STB_LOCAL,
-- and its name in the string table is the one.
pub record Defines (o : Object) (name : Str) (s : Sym) : Type 0 where
  pub defined : s.st_shndx ≢ 0
  pub not_local : s.st_info / 16 ≢ 0
  pub named : string_at o.strtab s.st_name ≡ name

-- What a search may return: nothing, or a symbol of the table that defines the name.
pub data Sound (o : Object) (name : Str) : Option (Option Sym) → Type 0 where
  outside : Sound o name none
  nothing : Sound o name (some none)
  symbol :
      {s : Sym} (j : ℕ)
      → get_elem? o.symtab j ≡ some s
      → Defines o name s
      → Sound o name (some (some s))

-- The search returns a symbol that defines the name.
abbrev pub Finds : Object → Str → Option (Option Sym) → Type 0
Finds o name r = (s : Sym) × (r ≡ some (some s)) × Defines o name s

is_match-parts :
    (o : Object) (name : Str) (s : Sym)
    → is_match o name s ≡ true
    → (sym_usable s true ≡ true) × (string_at o.strtab s.st_name ≡ name)
unfolding is_match
is_match-parts o name s m = elim (Bool-cases (sym_usable s true)) [
  | inl u ↦ (
    u,
    same_string-eq (string_at o.strtab s.st_name) name
        (subst (λ (b : Bool). b && same_string (string_at o.strtab s.st_name) name ≡ true) u m),
  )
  | inr u ↦ absurd (
      let bad : false ≡ true =
        subst (λ (b : Bool). b && same_string (string_at o.strtab s.st_name) name ≡ true) u m in
      cc)
]

sym_usable-defined : (s : Sym) → sym_usable s true ≡ true → (s.st_shndx ≢ 0) × (s.st_info / 16 ≢ 0)
unfolding sym_usable st_bind
sym_usable-defined s u = (λ e. ground (arith, u, e), λ e. ground (arith, u, e))

usable-sym_usable : (s : Sym) → s.st_shndx ≢ 0 → s.st_info / 16 ≢ 0 → sym_usable s true ≡ true
unfolding sym_usable st_bind
usable-sym_usable s defined not_local = ground (arith, defined, not_local)

pub is_match-Defines :
    (o : Object) (name : Str) (s : Sym) → is_match o name s ≡ true → Defines o name s
is_match-Defines o name s m =
    let (usable, same) = is_match-parts o name s m in
    let (defined, not_local) = sym_usable-defined s usable in
    record { defined = defined; not_local = not_local; named = same }

pub Defines-is_match :
    (o : Object) (name : Str) (s : Sym) → Defines o name s → is_match o name s ≡ true
unfolding is_match
Defines-is_match o name s d =
    rw (usable-sym_usable s d.defined d.not_local, d.named) (same_string_self name)

module _ (o : Object) (name : Str) where
  Sound-if :
      (b : Bool) {r q : Option (Option Sym)}
      → Sound o name r
      → Sound o name q
      → Sound o name (if b then r else q)
  Sound-if true h k = h
  Sound-if false h k = k

  Sound-match :
      (j : ℕ) (q : Option (Option Sym))
      → Sound o name q
      → Sound o name (do s ← get_elem? o.symtab j; if is_match o name s then some (some s) else q)
  Sound-match j q k = elim (Option-cases (get_elem? o.symtab j)) [
    | inl e ↦ rw e outside
    | inr (s, e) ↦ elim (Bool-cases (is_match o name s)) [
      | inl m ↦ rw (e, m) (symbol j e (is_match-Defines o name s m))
      | inr m ↦ rw (e, m) k
    ]
  ]

  gnu_chain-Sound : (t : GnuTable) (h k idx : ℕ) → Sound o name (gnu_chain o t name h k idx)
  unfolding gnu_chain
  gnu_chain-Sound t h zero idx = outside
  gnu_chain-Sound t h (suc k) idx = elim (Option-cases (get_elem? t.chains (idx - t.symoffset))) [
    | inl e ↦ rw e outside
    | inr (c, e) ↦
        let rest = Sound-if (c % 2 == 1) nothing (gnu_chain-Sound t h k (suc idx)) in
        rw e (Sound-if (bit_or c 1 == bit_or h 1) (Sound-match idx _ rest) rest)
  ]

  sysv_chain-Sound : (t : SysvTable) (k idx : ℕ) → Sound o name (sysv_chain o t name k idx)
  unfolding sysv_chain
  sysv_chain-Sound t zero idx = outside
  sysv_chain-Sound t (suc k) idx =
      let rest : Sound o name (do next ← get_elem? t.chains idx; sysv_chain o t name k next) =
        elim (Option-cases (get_elem? t.chains idx)) [
          | inl e ↦ rw e outside
          | inr (next, e) ↦ rw e (sysv_chain-Sound t k next)
        ] in
      Sound-if (idx == 0) nothing (Sound-match idx _ rest)

  gnu_lookup-Sound : (t : GnuTable) (h k : ℕ) → Sound o name (gnu_lookup o t name h k)
  unfolding gnu_lookup
  gnu_lookup-Sound t h k = elim (Option-cases (bloom_test t h)) [
    | inl e ↦ rw e outside
    | inr (pass, e) ↦
        let chain : Sound o name (do
          idx ← get_elem? t.buckets (h % length t.buckets)
          if ltb idx t.symoffset then some none else gnu_chain o t name h k idx) =
          elim (Option-cases (get_elem? t.buckets (h % length t.buckets))) [
            | inl b ↦ rw b outside
            | inr (idx, b) ↦
                rw b (Sound-if (ltb idx t.symoffset) nothing (gnu_chain-Sound t h k idx))
          ] in
        rw e (Sound-if (not pass) nothing chain)
  ]

  tables-Sound :
      (gnu : Option GnuTable) (sysv : Option SysvTable) (k g s : ℕ)
      → Sound o name (elim gnu as (λ x. Option (Option Sym)) [
        | some t ↦ gnu_lookup o t name g k
        | none ↦ elim sysv as (λ x. Option (Option Sym)) [
          | some t ↦ do idx ← get_elem? t.buckets (s % length t.buckets); sysv_chain o t name k idx
          | none ↦ some none
        ]
      ])
  tables-Sound (some t) sysv k g s = gnu_lookup-Sound t g k
  tables-Sound none none k g s = nothing
  tables-Sound none (some t) k g s =
      elim (Option-cases (get_elem? t.buckets (s % length t.buckets))) [
        | inl e ↦ rw e outside
        | inr (idx, e) ↦ rw e (sysv_chain-Sound t k idx)
      ]

  -- Whatever the tables hold, a symbol that `lookup_one` returns is an entry of the object's
  -- symbol table that is defined, not local, and has the name that is looked for.
  pub lookup_one-Sound : (k : ℕ) → Sound o name (lookup_one k o name)
  unfolding lookup_one
  lookup_one-Sound k =
      Sound-if (length o.symtab == 0 || length o.strtab == 0) nothing
        (tables-Sound o.gnu_hash o.sysv_hash k (gnu_hash name) (elf_hash name))
