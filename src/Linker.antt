-- ===== src/Linker.antt =====
-- ld/dynlink.c, the dynamic linker. A C string is the list of its bytes, without the terminator.
-- What the linker finds in an object's mapped tables is a field of the object.
pub mod Strings
pub mod Paths
pub mod Symbols
pub mod Scope
pub mod Init
pub mod Load
pub mod Preload
pub mod Startup
pub mod Protect
pub mod Dynamic
pub mod Launch
pub mod MainProgram
pub mod Relocate
pub mod Apply
pub mod Pages
pub mod Segments
pub mod Cli
use aic_lib.Base.{ℕ, Bool, List, Option, none, some}

-- An entry of the dynamic section: its tag and its value.
abbrev pub Dyn : Type 0
Dyn = ℕ × ℕ

-- An entry of the symbol table.
pub record Sym : Type 0 where
  pub st_name : ℕ
  pub st_info : ℕ
  pub st_other : ℕ
  pub st_shndx : ℕ
  pub st_value : ℕ
  pub st_size : ℕ

-- The table of `DT_GNU_HASH`: its header and its three arrays.
pub record GnuTable : Type 0 where
  pub symoffset : ℕ
  pub bloom_shift : ℕ
  pub bloom : List ℕ
  pub buckets : List ℕ
  pub chains : List ℕ

-- The table of `DT_HASH`.
pub record SysvTable : Type 0 where
  pub buckets : List ℕ
  pub chains : List ℕ

-- An entry of a relocation table. The addend is a 64-bit pattern.
pub record Rela : Type 0 where
  pub r_offset : ℕ
  pub r_info : ℕ
  pub r_addend : ℕ

pub record Object : Type 0 where
  pub used : Bool
  pub is_main : Bool
  pub path : List ℕ
  pub soname : List ℕ
  pub base : ℕ
  pub dyn : List Dyn
  pub strtab : List ℕ
  pub symtab : List Sym
  pub gnu_hash : Option GnuTable
  pub sysv_hash : Option SysvTable
  pub rela : List Rela
  pub relacount : ℕ
  pub jmprel : Option (List Rela)
  pub pltrel_is_rela : Bool
  pub relr : List ℕ
  pub rpath : ℕ
  pub runpath : ℕ
  pub flags : ℕ
  pub symbolic : Bool
  pub init : ℕ
  pub fini : ℕ
  pub init_array : List ℕ
  pub fini_array : List ℕ

-- The values that the linker keeps in its globals. No name stands for an empty one.
pub record Globals : Type 0 where
  pub envp : List (List ℕ)
  pub execfn : List ℕ
  pub at_secure : Bool
  pub library_path : Option (List ℕ)

module _ {A B : Type 0} where
  infixl 5 ◌>>=◌
  abbrev pub ◌>>=◌ : Option A → (A → Option B) → Option B
  none >>= k = none
  some a >>= k = k a
