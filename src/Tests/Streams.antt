-- ===== src/Tests/Streams.antt =====
-- Streams over a kernel with one file.
use aic_lib.Base.{
  ℕ, zero, suc, get_or, ap, sym, ◌%◌, ◌≡◌, refl, arith, List, [], ◌∷◌, some, length, true, false,
  ◌<◌, map, replicate,
}
use aic_lib.Base.Int.{ℤ, pos}
use aic_lib.Stdio.File.{
  Pal, Files, emfile, unchanged, zero_entry, reset_entry, open_entry, is_closed, fopen,
}
use aic_lib.Stdio.File.Stream.{fgets}
use aic_lib.Stdio.File.Table.{FirstFree, found, Opened, ready, mode_r, fopen-Opened}
use aic_lib.Stdio.File.Reading.{Readable, upcoming, OnFile}
use aic_lib.Stdio.File.Input.{fgets-line}

-- What the kernel has of its file: descriptor 3 gives it byte by byte.
abbrev next_byte : List ℕ → ℤ × List ℕ × List ℕ
next_byte [] = (pos 0, [], [])
next_byte (c ∷ cs) = (pos 1, c % 256 ∷ [], cs)

abbrev kernel : Pal (List ℕ)
kernel = record {
  pal_open = λ path flags mode w. (pos 3, w);
  pal_close = λ fd w. w;
  pal_read = λ fd n w. next_byte w;
  pal_write = λ fd bytes w. (pos (length bytes), w);
  pal_lseek = λ fd offset whence w. (pos 0, w);
}

-- What is left of the file, as bytes.
abbrev contents : List ℕ → List ℕ
contents w = map (λ c. c % 256) w

head_of : {c d : ℕ} {cs ds : List ℕ} → c ∷ cs ≡ d ∷ ds → c ≡ d
head_of e = ground arith

tail_of : {c d : ℕ} {cs ds : List ℕ} → c ∷ cs ≡ d ∷ ds → cs ≡ ds
tail_of e = ground arith

kernel-Readable : Readable kernel (pos 3) contents
kernel-Readable = record { at_end = at_end; next = next }
  where
    at_end :
        (w : List ℕ)
        → contents w ≡ []
        → (w' : List ℕ) × (next_byte w ≡ (pos 0, [], w')) × (contents w' ≡ [])
    at_end [] e = ([], refl, refl)
    at_end (c ∷ cs) e = ground arith

    next :
        (w : List ℕ) (c : ℕ) (cs : List ℕ)
        → contents w ≡ c ∷ cs
        → (w' : List ℕ) × (next_byte w ≡ (pos 1, c ∷ [], w')) × (contents w' ≡ cs) × (c < 256)
    next [] c cs e = ground arith
    next (d ∷ ds) c cs e = (
      ds,
      ap (λ b. (pos 1, b ∷ [], ds)) (head_of e),
      tail_of e,
      rw (sym (head_of e)) (omega arith),
    )

-- "a\nb", with the first entry of the table open.
abbrev open_files : Files (List ℕ)
open_files = record {
  table = open_entry (pos 3) 0 zero_entry ∷ replicate 31 (reset_entry zero_entry);
  initialized = true;
  errno = unchanged;
  world = b'a' ∷ 10 ∷ b'b' ∷ [];
}

fgets-line_example :
    ((fgets kernel true 9 (some 0) open_files).0 ≡ some (b'a' ∷ 10 ∷ 0 ∷ []))
    × (upcoming kernel (pos 3) contents 0 (fgets kernel true 9 (some 0) open_files).1 ≡ b'b' ∷ [])
    × OnFile kernel (pos 3) contents 0 (fgets kernel true 9 (some 0) open_files).1
fgets-line_example =
    fgets-line kernel (pos 3) contents 0 kernel-Readable 9 open_files (omega arith, refl)
      (omega arith)

-- The mode "r".
fopen-Opened_example :
    Opened kernel
      (ready kernel open_files open_files.world)
      (pos 3)
      0
      (record (ready kernel open_files open_files.world) { errno = emfile })
      (fopen kernel (b'f' ∷ []) (some (b'r' ∷ [])) open_files)
fopen-Opened_example =
    fopen-Opened kernel (b'f' ∷ []) (b'r' ∷ []) open_files 0 3 open_files.world mode_r refl

-- The second entry is the first closed one.
second_free : FirstFree open_files.table (some 1)
unfolding reset_entry
second_free = found 1 (omega arith) refl before
  where
    before : (j : ℕ) → j < 1 → is_closed (get_or open_files.table j zero_entry) ≡ false
    before zero h = refl
    before (suc j) h = absurd (omega arith)
