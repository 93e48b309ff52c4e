-- ===== src/Directory.antt =====
-- src/dirent/dirent.c: reading the entries of a directory out of the buffer that the kernel fills.
-- The buffer is the list of its bytes, and what lies outside it cannot be read.
pub mod Records
pub mod Listing
use aic_lib.Base.{
  ℕ, zero, suc, ◌+◌, ◌*◌, ◌≡◌, Bool, true, false, ◌==◌, leb, if◌then◌else◌, List, [], ◌∷◌, ◌++◌,
  Option, none, some, length, replicate, drop,
}
use aic_lib.Base.Int.{ℤ, pos, negsuc}

-- `DIR`
pub record Dir : Type 0 where
  pub fd : ℤ
  pub buf_pos : ℕ
  pub buf_end : ℕ
  pub buf : List ℕ

-- `struct dirent`, with the name up to its terminator.
pub record Dirent : Type 0 where
  pub d_ino : ℕ
  pub d_off : ℕ
  pub d_reclen : ℕ
  pub d_type : ℕ
  pub d_name : List ℕ

-- The kernel's calls, over a state of its own. `malloc` gives the bytes that the buffer of
-- the new stream holds, `getdents64` also those that it writes to the buffer.
pub record DirKernel (W : Type 0) : Type 0 where
  pub pal_open : List ℕ → W → ℤ × W
  pub pal_close : ℤ → W → ℤ × W
  pub malloc : W → Option (List ℕ) × W
  pub pal_getdents64 : ℤ → ℕ → W → ℤ × List ℕ × W

abbrev pub buf_size : ℕ
buf_size = 2048

abbrev pub name_max : ℕ
name_max = 255

-- What a call gives: a result, or a read outside the buffer.
pub data Reading (A : Type 0) : Type 0 where
  value : A → Reading A
  outside : Reading A

module _ {A B : Type 0} where
  infixl 5 ◌>>=◌
  abbrev pub ◌>>=◌ : Option A → (A → Option B) → Option B
  none >>= next = none
  some a >>= next = next a

-- The number whose lowest byte comes first, in `n` bytes.
unfoldable pub read_le : ℕ → List ℕ → Option ℕ
read_le zero bytes = some 0
read_le (suc n) [] = none
read_le (suc n) (b ∷ bytes) = elim (read_le n bytes) [ none ↦ none | some v ↦ some (b + 256 * v) ]

-- `while (ld->d_name[i] && i < sizeof(de.d_name) - 1)`, with the rounds left for `i`.
unfoldable pub copy_name : ℕ → List ℕ → Option (List ℕ)
copy_name n [] = none
copy_name zero (c ∷ bytes) = some []
copy_name (suc n) (c ∷ bytes) =
    if c == 0
    then some []
    else elim (copy_name n bytes) [ none ↦ none | some name ↦ some (c ∷ name) ]

-- The entry that `ld` points to.
unfoldable pub read_dirent : List ℕ → Option Dirent
unfolding read_le copy_name
read_dirent ld = do
  ino ← read_le 8 ld
  off ← read_le 8 (drop 8 ld)
  reclen ← read_le 2 (drop 16 ld)
  type ← read_le 1 (drop 18 ld)
  name ← copy_name name_max (drop 19 ld)
  some (record { d_ino = ino; d_off = off; d_reclen = reclen; d_type = type; d_name = name })

-- The bytes from the start of the buffer on are replaced.
unfoldable pub fill : List ℕ → List ℕ → List ℕ
fill bytes buf = bytes ++ drop (length bytes) buf

module _ {W : Type 0} (k : DirKernel W) where
  new_dir : ℤ → List ℕ → Dir
  new_dir fd bytes = record { fd = fd; buf_pos = 0; buf_end = 0; buf = bytes }

  unfoldable pub fdopendir : ℤ → W → Option Dir × W
  unfolding new_dir
  fdopendir fd w =
      let (block, w') = k.malloc w in
      (elim block [ none ↦ none | some bytes ↦ some (new_dir fd bytes) ], w')

  unfoldable pub opendir : List ℕ → W → Option Dir × W
  unfolding fdopendir
  opendir name w =
      let (fd, w1) = k.pal_open name w in
      elim fd [
        | negsuc n ↦ (none, w1)
        | pos n ↦
            let (dir, w2) = fdopendir (pos n) w1 in
            elim dir [ some dir' ↦ (some dir', w2) | none ↦ (none, (k.pal_close (pos n) w2).1) ]
      ]

  taken : Dir → ℤ × List ℕ × W → Option Dir × W
  unfolding fill
  taken dirp (pos zero, bytes, w) = (none, w)
  taken dirp (negsuc n, bytes, w) = (none, w)
  taken dirp (pos (suc n), bytes, w) =
      (some (record dirp { buf_end = suc n; buf_pos = 0; buf = fill bytes dirp.buf }), w)

  -- With an empty buffer it is filled; `none` at the end or on an error.
  unfoldable pub refill : Dir → W → Option Dir × W
  unfolding taken
  refill dirp w =
      if leb dirp.buf_end dirp.buf_pos
      then taken dirp (k.pal_getdents64 dirp.fd buf_size w)
      else (some dirp, w)

  take_entry : Dir → Option Dir × W → Reading (Option Dirent × Dir × W)
  unfolding read_dirent
  take_entry dirp (none, w) = value (none, dirp, w)
  take_entry dirp (some d, w) = elim (read_dirent (drop d.buf_pos d.buf)) [
    | none ↦ outside
    | some de ↦ value (some de, record d { buf_pos = d.buf_pos + de.d_reclen }, w)
  ]

  -- The entry, none at the end or on an error; the stream and the kernel's state.
  unfoldable pub readdir : Dir → W → Reading (Option Dirent × Dir × W)
  unfolding refill take_entry
  readdir dirp w = take_entry dirp (refill dirp w)

  -- `none` stands for `NULL`.
  unfoldable pub closedir : Option Dir → W → ℤ × W
  closedir none w = (negsuc 0, w)
  closedir (some dirp) w = k.pal_close dirp.fd w

  unfoldable pub dirfd : Dir → ℤ
  dirfd dirp = dirp.fd
