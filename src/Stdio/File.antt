-- ===== src/Stdio/File.antt =====
-- src/stdio/file.c: the table of open files, opening and closing; the operations on a stream are in
-- Stream. What the kernel does behind the `pal_` calls is a parameter, over a state of its own. A `FILE *` is the index of its
-- entry in the table, `none` for `NULL`.
pub mod Stream
pub mod Pushback
pub mod Table
pub mod Reading
pub mod Input
use aic_lib.Base.{
  ℕ, zero, suc, ◌+◌, ◌-◌, ◌*◌, ◌/◌, ◌%◌, ◌^◌, Bool, true, false, not, ◌&&◌, ◌||◌, ◌==◌, ltb, leb,
  if◌then◌else◌, List, [], ◌∷◌, ◌++◌, Option, none, some, get_or, set, replicate, length, map,
}
use aic_lib.Base.Int.{ℤ, pos, negsuc, ltb_ℤ, pos_part, sub_ℕ}

-- `FILE_impl`. A file descriptor of -1 marks a free entry.
pub record FileImpl : Type 0 where
  pub fd : ℤ
  pub flags : ℕ
  pub error : Bool
  pub eof : Bool
  pub ungetc_buf : List ℕ
  pub ungetc_count : ℕ

abbrev pub closed : ℤ
closed = negsuc 0

abbrev pub table_size : ℕ
table_size = 32

abbrev pub ungetc_buf_size : ℕ
ungetc_buf_size = 4

-- The calls of the kernel that the streams make. A read returns the bytes as well.
pub record Pal (W : Type 0) : Type 0 where
  pub pal_open : List ℕ → ℕ → ℕ → W → ℤ × W
  pub pal_close : ℤ → W → W
  pub pal_read : ℤ → ℕ → W → ℤ × List ℕ × W
  pub pal_write : ℤ → List ℕ → W → ℤ × W
  pub pal_lseek : ℤ → ℤ → ℕ → W → ℤ × W

pub data Errno : Type 0 where
  unchanged einval emfile ebadf : Errno

-- The library's state: the table, whether it was set up, `errno`, and the kernel's state.
pub record Files (W : Type 0) : Type 0 where
  pub table : List FileImpl
  pub initialized : Bool
  pub errno : Errno
  pub world : W

-- An entry of zeros, as static storage starts out.
abbrev pub zero_entry : FileImpl
zero_entry = record {
  fd = pos 0;
  flags = 0;
  error = false;
  eof = false;
  ungetc_buf = replicate ungetc_buf_size 0;
  ungetc_count = 0;
}

abbrev pub is_closed : FileImpl → Bool
is_closed f = elim (f.fd) [ pos n ↦ false | negsuc n ↦ n == 0 ]

unfoldable pub reset_entry : FileImpl → FileImpl
reset_entry f = record f { fd = closed; ungetc_count = 0 }

abbrev pub open_entry : ℤ → ℕ → FileImpl → FileImpl
open_entry fd flags f = record f {
  fd = fd;
  flags = flags;
  error = false;
  eof = false;
  ungetc_count = 0;
}

-- `strcmp(mode, "…") == 0`
abbrev pub same_text : List ℕ → List ℕ → Bool
same_text [] [] = true
same_text [] (y ∷ ys) = false
same_text (x ∷ xs) [] = false
same_text (x ∷ xs) (y ∷ ys) = (x == y) && same_text xs ys

abbrev pub o_wronly : ℕ
o_wronly = 1

abbrev pub o_rdwr : ℕ
o_rdwr = 2

abbrev pub o_creat : ℕ
o_creat = 0o100

abbrev pub o_trunc : ℕ
o_trunc = 0o1000

abbrev pub o_append : ℕ
o_append = 0o2000

-- The flags for a mode. The bits are disjoint, so that `|` is a sum.
unfoldable pub mode_flags : List ℕ → Option ℕ
mode_flags mode =
    if same_text mode (b'r' ∷ []) || same_text mode (b'r' ∷ b'b' ∷ [])
    then some 0
    else if same_text mode (b'w' ∷ []) || same_text mode (b'w' ∷ b'b' ∷ [])
    then some (o_wronly + o_creat + o_trunc)
    else if same_text mode (b'a' ∷ []) || same_text mode (b'a' ∷ b'b' ∷ [])
    then some (o_wronly + o_creat + o_append)
    else if same_text mode (b'r' ∷ b'+' ∷ []) || same_text mode (b'r' ∷ b'+' ∷ b'b' ∷ [])
    then some o_rdwr
    else if same_text mode (b'w' ∷ b'+' ∷ []) || same_text mode (b'w' ∷ b'+' ∷ b'b' ∷ [])
    then some (o_rdwr + o_creat + o_trunc)
    else if same_text mode (b'a' ∷ b'+' ∷ []) || same_text mode (b'a' ∷ b'+' ∷ b'b' ∷ [])
    then some (o_rdwr + o_creat + o_append)
    else none

-- The first free entry from index `i` on.
unfoldable pub free_entry : List FileImpl → ℕ → Option ℕ
free_entry [] i = none
free_entry (f ∷ fs) i = if is_closed f then some i else free_entry fs (i + 1)

module _ {W : Type 0} where
  -- The entry at an index.
  abbrev pub entry : Files W → ℕ → FileImpl
  entry s i = get_or s.table i zero_entry

  abbrev pub update : Files W → ℕ → FileImpl → Files W
  update s i f = record s { table = set s.table i f }

module _ {W : Type 0} (pal : Pal W) where
  unfoldable pub init_file_table : Files W → Files W
  init_file_table s =
      if s.initialized then s else record s { table = map reset_entry s.table; initialized = true }

  -- The loop of `fopen` and `fdopen`: the file goes into the first free entry.
  unfoldable pub install : Files W → ℤ → ℕ → Option ℕ → Option ℕ × Files W
  install s fd flags none = (none, s)
  install s fd flags (some i) = (some i, update s i (open_entry fd flags (entry s i)))

  -- Behind the call of `pal_open`.
  unfoldable pub fopen_fd : ℕ → ℤ × W → Files W → Option ℕ × Files W
  fopen_fd flags (fd, w) s =
      if ltb_ℤ fd (pos 0)
      then (none, record s { world = w })
      else let s₁ = init_file_table (record s { world = w }) in
        elim (free_entry s₁.table 0) [
          | none ↦ (none, record s₁ { errno = emfile; world = pal.pal_close fd s₁.world })
          | some i ↦ install s₁ fd flags (some i)
        ]

  -- A `NULL` mode is `none`. New files get the mode bits 0644.
  unfoldable pub fopen : List ℕ → Option (List ℕ) → Files W → Option ℕ × Files W
  fopen pathname none s = (none, record s { errno = einval })
  fopen pathname (some mode) s = elim (mode_flags mode) [
    | none ↦ (none, record s { errno = einval })
    | some flags ↦ fopen_fd flags (pal.pal_open pathname flags 0o644 s.world) s
  ]

  unfoldable pub fdopen : ℤ → Files W → Option ℕ × Files W
  fdopen fd s =
      let s₁ = init_file_table s in
      elim (free_entry s₁.table 0) [
        | none ↦ (none, record s₁ { errno = emfile })
        | some i ↦ install s₁ fd 0 (some i)
      ]

  -- `true` stands for 0, `false` for `EOF`.
  unfoldable pub fclose : Option ℕ → Files W → Bool × Files W
  fclose none s = (false, s)
  fclose (some i) s =
      let f = entry s i in
      if is_closed f then (false, s) else (
        true,
        record s {
          table = set s.table i (record f { fd = closed; ungetc_count = 0 });
          world = pal.pal_close f.fd s.world;
        },
      )

  unfoldable pub fileno : Option ℕ → Files W → ℤ × Files W
  fileno none s = (negsuc 0, record s { errno = ebadf })
  fileno (some i) s = ((entry s i).fd, s)

  unfoldable pub freopen : List ℕ → Option (List ℕ) → Option ℕ → Files W → Option ℕ × Files W
  freopen pathname mode none s = fopen pathname mode s
  freopen pathname mode (some i) s = fopen pathname mode (fclose (some i) s).1
