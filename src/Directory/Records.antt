-- ===== src/Directory/Records.antt =====
-- Reading a record as the kernel lays it out.
use aic_lib.Base.{
  ℕ, zero, suc, ◌+◌, ◌/◌, ◌%◌, ◌^◌, ◌≡◌, ◌<◌, ◌≤◌, refl, ap, ◌∙◌, arith, false, ◌==◌, List, [], ◌∷◌,
  ◌++◌, some, length, drop, replicate, All, length-append, length-replicate, append_assoc,
}
use native.Mathlib.Nat.{pow-suc}
use aic_lib.Directory.{Dirent, name_max, read_le, copy_name, read_dirent}

-- A directory entry, with the bytes that fill its record up behind the name.
pub record Entry : Type 0 where
  pub ino : ℕ
  pub off : ℕ
  pub type : ℕ
  pub name : List ℕ
  pub padding : ℕ

pub le_bytes : ℕ → ℕ → List ℕ
le_bytes zero v = []
le_bytes (suc n) v = v % 256 ∷ le_bytes n (v / 256)

unfoldable pub reclen : Entry → ℕ
reclen e = 20 + length e.name + e.padding

unfoldable pub name_field : Entry → List ℕ
name_field e = e.name ++ (0 ∷ replicate e.padding 0)

-- A `linux_dirent64`.
unfoldable pub encode : Entry → List ℕ
unfolding le_bytes reclen name_field
encode e =
    le_bytes 8 e.ino
    ++ (le_bytes 8 e.off ++ (le_bytes 2 (reclen e) ++ (le_bytes 1 e.type ++ name_field e)))

unfoldable pub dirent_of : Entry → Dirent
unfolding reclen
dirent_of e = record {
  d_ino = e.ino;
  d_off = e.off;
  d_reclen = reclen e;
  d_type = e.type;
  d_name = e.name;
}

-- The fields fit, and the name is a file name.
abbrev pub IsEntry : Entry → Type 0
IsEntry e =
    (e.ino < 256 ^ 8)
    × (e.off < 256 ^ 8)
    × (reclen e < 256 ^ 2)
    × (e.type < 256 ^ 1)
    × (length e.name ≤ name_max)
    × All (λ c. (c == 0) ≡ false) e.name

pub length-le_bytes : (n v : ℕ) → length (le_bytes n v) ≡ n
unfolding le_bytes
length-le_bytes zero v = refl
length-le_bytes (suc n) v = ap suc (length-le_bytes n (v / 256))

read_le-bytes : (n v : ℕ) (rest : List ℕ) → v < 256 ^ n → read_le n (le_bytes n v ++ rest) ≡ some v
unfolding read_le le_bytes
read_le-bytes zero v rest lt = ap some (omega (arith, lt))
read_le-bytes (suc n) v rest lt =
    let p = pow-suc 256 n in
    rw (read_le-bytes n (v / 256) rest (omega (arith, lt, p))) (ap some (omega arith))

copy_name-field :
    (n : ℕ) (name rest : List ℕ)
    → length name ≤ n
    → All (λ c. (c == 0) ≡ false) name
    → copy_name n (name ++ (0 ∷ rest)) ≡ some name
unfolding copy_name
copy_name-field zero [] rest le h = refl
copy_name-field zero (c ∷ name) rest le h = absurd (omega (arith, le))
copy_name-field (suc n) [] rest le h = refl
copy_name-field (suc n) (c ∷ name) rest le h =
    rw (h.0, copy_name-field n name rest (omega (arith, le)) h.1) refl

pub length-encode : (e : Entry) → length (encode e) ≡ reclen e
unfolding encode reclen name_field le_bytes
length-encode e =
    omega (
      arith,
      length-append e.name (0 ∷ replicate e.padding 0),
      length-replicate {A = ℕ} e.padding 0,
    )

read_dirent-fields :
    (ld : List ℕ) (ino off len type : ℕ) (name : List ℕ)
    → read_le 8 ld ≡ some ino
    → read_le 8 (drop 8 ld) ≡ some off
    → read_le 2 (drop 16 ld) ≡ some len
    → read_le 1 (drop 18 ld) ≡ some type
    → copy_name name_max (drop 19 ld) ≡ some name
    → read_dirent ld
      ≡ some (record { d_ino = ino; d_off = off; d_reclen = len; d_type = type; d_name = name })
unfolding read_dirent
read_dirent-fields ld ino off len type name a b c d e = rw (a, b, c, d, e) refl

-- Whatever follows the record.
pub read_dirent-encode :
    (e : Entry) (rest : List ℕ) → IsEntry e → read_dirent (encode e ++ rest) ≡ some (dirent_of e)
unfolding encode le_bytes dirent_of name_field
read_dirent-encode e rest (ino, off, len, type, short, name) =
    let ld = encode e ++ rest in
    read_dirent-fields ld e.ino e.off (reclen e) e.type e.name
      (read_le-bytes 8 e.ino (drop 8 ld) ino) (read_le-bytes 8 e.off (drop 16 ld) off)
      (read_le-bytes 2 (reclen e) (drop 18 ld) len) (read_le-bytes 1 e.type (drop 19 ld) type)
      (ap (copy_name name_max) (append_assoc e.name (0 ∷ replicate e.padding 0) rest)
        ∙ copy_name-field name_max e.name (replicate e.padding 0 ++ rest) short name)
