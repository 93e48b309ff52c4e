-- ===== src/Stdio/File/Stream.antt =====
-- src/stdio/file.c: reading, pushing back, writing and positioning.
use aic_lib.Base.{
  ℕ, zero, suc, ◌+◌, ◌-◌, ◌*◌, ◌/◌, ◌%◌, ◌^◌, Bool, true, false, not, ◌||◌, ◌==◌, ltb, leb,
  if◌then◌else◌, List, [], ◌∷◌, ◌++◌, Option, none, some, get_or, set, length,
}
use aic_lib.Base.Int.{ℤ, pos, negsuc, ltb_ℤ, pos_part, sub_ℕ}
use aic_lib.Stdio.File.{Pal, Files, ungetc_buf_size, entry, update}

module _ {W : Type 0} (pal : Pal W) where
  -- Behind the call of `pal_read` in `fgetc`.
  unfoldable pub fgetc_ret : ℕ → ℤ × List ℕ × W → Files W → Option ℕ × Files W
  fgetc_ret i (ret, bytes, w) s =
      if ltb_ℤ (pos 0) ret
      then (some (get_or bytes 0 0 % 256), record s { world = w })
      else (none, record (update s i (record (entry s i) { eof = true })) { world = w })

  -- `EOF` is `none`.
  unfoldable pub fgetc : Option ℕ → Files W → Option ℕ × Files W
  fgetc none s = (none, s)
  fgetc (some i) s =
      let f = entry s i in
      if ltb 0 f.ungetc_count
      then (
        some (get_or f.ungetc_buf (f.ungetc_count - 1) 0),
        update s i (record f { ungetc_count = f.ungetc_count - 1 }),
      )
      else fgetc_ret i (pal.pal_read f.fd 1 s.world) s

  -- The argument `EOF` is `none`; any other is a byte pattern of 32 bits.
  unfoldable pub ungetc : Option ℕ → Option ℕ → Files W → Option ℕ × Files W
  ungetc none stream s = (none, s)
  ungetc (some c) none s = (none, s)
  ungetc (some c) (some i) s =
      let f = entry s i in
      if leb ungetc_buf_size f.ungetc_count then (none, s) else (
        some (c % 256),
        update s i (record f {
          ungetc_buf = set f.ungetc_buf f.ungetc_count (c % 256);
          ungetc_count = f.ungetc_count + 1;
          eof = false;
        }),
      )

  -- `while (i < size - 1)`: the bytes stored from `s[i]` on, with that many rounds left.
  unfoldable pub fgets_loop : ℕ → ℕ → Files W → List ℕ × Files W
  fgets_loop i zero s = ([], s)
  fgets_loop i (suc left) s =
      let (ch, s₁) = fgetc (some i) s in
      elim ch [
        | none ↦ ([], s₁)
        | some c ↦
            if c == 10
            then (c ∷ [], s₁)
            else let (rest, s₂) = fgets_loop i left s₁ in (c ∷ rest, s₂)
      ]

  -- The bytes stored in the buffer, terminator included, or `none` for `NULL`. A buffer that is
  -- `NULL` is the first argument `false`.
  unfoldable pub fgets : Bool → ℕ → Option ℕ → Files W → Option (List ℕ) × Files W
  unfolding fgets_loop
  fgets buffer size none s = (none, s)
  fgets buffer size (some i) s =
      if not buffer || (size == 0)
      then (none, s)
      else if size == 1
      then (some (0 ∷ []), s)
      else let (bytes, s₁) = fgets_loop i (size - 1) s in
        elim bytes [ [] ↦ (none, s₁) | c ∷ cs ↦ (some (c ∷ cs ++ 0 ∷ []), s₁) ]

  -- `while (bytes_read < total_bytes)`
  unfoldable pub fread_loop : ℕ → ℕ → Files W → List ℕ × Files W
  fread_loop i zero s = ([], s)
  fread_loop i (suc left) s =
      let (ch, s₁) = fgetc (some i) s in
      elim ch [ none ↦ ([], s₁) | some c ↦ let (rest, s₂) = fread_loop i left s₁ in (c ∷ rest, s₂) ]

  -- The number of whole items and the bytes stored. `size * nmemb` wraps.
  unfoldable pub fread : Bool → ℕ → ℕ → Option ℕ → Files W → (ℕ × List ℕ) × Files W
  unfolding fread_loop
  fread buffer size nmemb none s = ((0, []), s)
  fread buffer size nmemb (some i) s =
      if not buffer || ((size == 0) || (nmemb == 0))
      then ((0, []), s)
      else let (bytes, s₁) = fread_loop i (size * nmemb % 2 ^ 64) s in
        ((length bytes / size, bytes), s₁)

  -- The bytes of the items are given; `none` is a `NULL` pointer.
  unfoldable pub fwrite : Option (List ℕ) → ℕ → ℕ → Option ℕ → Files W → ℕ × Files W
  fwrite none size nmemb stream s = (0, s)
  fwrite (some bytes) size nmemb none s = (0, s)
  fwrite (some bytes) size nmemb (some i) s =
      if (size == 0) || (nmemb == 0)
      then (0, s)
      else let (ret, w) = pal.pal_write (entry s i).fd bytes s.world in
        if ltb_ℤ ret (pos 0)
        then (0, record (update s i (record (entry s i) { error = true })) { world = w })
        else (pos_part ret / size, record s { world = w })

  -- `true` stands for 0, `false` for -1.
  unfoldable pub fseek : Option ℕ → ℤ → ℕ → Files W → Bool × Files W
  fseek none offset whence s = (false, s)
  fseek (some i) offset whence s =
      let f = record (entry s i) { ungetc_count = 0 } in
      let (ret, w) = pal.pal_lseek f.fd offset whence s.world in
      if ltb_ℤ ret (pos 0)
      then (false, record (update s i (record f { error = true })) { world = w })
      else (true, record (update s i (record f { eof = false })) { world = w })

  unfoldable pub ftell : Option ℕ → Files W → ℤ × Files W
  ftell none s = (negsuc 0, s)
  ftell (some i) s =
      let (p, w) = pal.pal_lseek (entry s i).fd (pos 0) 1 s.world in
      if ltb_ℤ p (pos 0)
      then (negsuc 0, record (update s i (record (entry s i) { error = true })) { world = w })
      else (sub_ℕ (pos_part p) (entry s i).ungetc_count, record s { world = w })
