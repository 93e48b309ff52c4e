-- ===== src/Stdio/Buffered.antt =====
-- src/stdio/putchar.c: the output buffer of `stdout`, as the list of its bytes in use, and the
-- functions of src/stdio/stdio_globals.c. The kernel's call is a parameter.
use aic_lib.Base.{
  ℕ, ◌%◌, ◌<◌, ◌≤◌, ◌≡◌, refl, arith, false, ◌==◌, leb, ltb, if◌then◌else◌, Option, none, some,
  List, [], ◌∷◌, ◌++◌, length, map, ◌∙◌, ap, sym, inl, inr, Bool-cases, length-append,
}
use aic_lib.Base.Int.{ℤ, pos, negsuc, ltb_ℤ}
use mathlib.Core.List.{append_assoc, append-nil}

abbrev pub buf_size : ℕ
buf_size = 1024

-- The bytes in `stdout_buf` and the kernel's state. Whether `errno` was set is not kept.
pub record Output (W : Type 0) : Type 0 where
  pub stdout_buf : List ℕ
  pub world : W

-- The argument of `fflush`: the pointer `stdout`, `NULL`, or any other stream.
pub data Target : Type 0 where
  stdout null_stream other_stream : Target

-- `_ferror` and `_feof`, which are shared by all streams.
pub record Indicators : Type 0 where
  pub error : ℕ
  pub eof : ℕ

unfoldable pub ferror : Target → Indicators → ℕ
ferror stream s = s.error

unfoldable pub feof : Target → Indicators → ℕ
feof stream s = s.eof

unfoldable pub clearerr : Target → Indicators → Indicators
clearerr stream s = record { error = 0; eof = 0 }

nothing : (xs : List ℕ) → ltb 0 (length xs) ≡ false → xs ≡ []
nothing [] e = refl
nothing (x ∷ xs) e = ground arith

module _ {W : Type 0} (pal_write : ℤ → List ℕ → W → ℤ × W) where
  unfoldable pub flush : Output W → Output W
  flush s =
      if ltb 0 (length s.stdout_buf)
      then record { stdout_buf = []; world = (pal_write (pos 1) s.stdout_buf s.world).1 }
      else s

  -- `if (c == '\n')`
  abbrev end_line : ℕ → Output W → Output W
  end_line c s = if c == 10 then flush s else s

  -- A `NULL` stream is `none`, any other is its descriptor. The result is `none` for `EOF`.
  unfoldable pub fputc : ℕ → Option ℤ → Output W → Option ℕ × Output W
  fputc c stream s =
      let fd : ℤ = elim stream [ none ↦ pos 1 | some d ↦ d ] in
      if elim fd [ pos n ↦ n == 2 | negsuc n ↦ false ]
      then (
        if ltb_ℤ (pal_write fd (c % 256 ∷ []) s.world).0 (pos 0) then none else some c,
        record s { world = (pal_write fd (c % 256 ∷ []) s.world).1 },
      )
      else let s₁ : Output W = if leb buf_size (length s.stdout_buf) then flush s else s in
        (some c, end_line c (record s₁ { stdout_buf = s₁.stdout_buf ++ c % 256 ∷ [] }))

  unfoldable pub putchar : ℕ → Output W → Option ℕ × Output W
  putchar c s = fputc c (some (pos 1)) s

  unfoldable pub fflush : Target → Output W → Output W
  fflush stdout s = flush s
  fflush null_stream s = flush s
  fflush other_stream s = s

  -- `putchar` of each byte.
  abbrev pub put_all : List ℕ → Output W → Output W
  put_all [] s = s
  put_all (c ∷ cs) s = put_all cs (putchar c s).1

  -- What the kernel has got on descriptor 1, for a kernel that takes every byte.
  module _ (written : W → List ℕ)
      (takes : (xs : List ℕ) (w : W) → written (pal_write (pos 1) xs w).1 ≡ written w ++ xs) where
    abbrev pub sent : Output W → List ℕ
    sent s = written s.world ++ s.stdout_buf

    flush-sent : (s : Output W) → (sent (flush s) ≡ sent s) × ((flush s).stdout_buf ≡ [])
    unfolding flush
    flush-sent s = elim (Bool-cases (ltb 0 (length s.stdout_buf))) [
      | inl some_bytes ↦ rw (some_bytes, append-nil) (takes s.stdout_buf s.world, refl)
      | inr empty ↦ rw empty (refl, nothing s.stdout_buf empty)
    ]

    -- One more byte behind what is there.
    add-sent :
        (s : Output W) (c : ℕ)
        → sent (record s { stdout_buf = s.stdout_buf ++ c ∷ [] }) ≡ sent s ++ c ∷ []
    add-sent s c = sym (append_assoc (written s.world) s.stdout_buf (c ∷ []))

    -- Where the buffer has room, a byte that is put in.
    put :
        (s : Output W) (c : ℕ)
        → length s.stdout_buf < buf_size
        → (sent (end_line c (record s { stdout_buf = s.stdout_buf ++ c % 256 ∷ [] }))
            ≡ sent s ++ c % 256 ∷ [])
          × (length (end_line c (record s { stdout_buf = s.stdout_buf ++ c % 256 ∷ [] })).stdout_buf
              ≤ buf_size)
    put s c room = elim (Bool-cases (c == 10)) [
      | inl nl ↦
          let after : Output W = record s { stdout_buf = s.stdout_buf ++ c % 256 ∷ [] } in
          rw nl
            ((flush-sent after).0 ∙ add-sent s (c % 256), rw ((flush-sent after).1) (omega arith))
      | inr other ↦
          rw other
            (add-sent s (c % 256), rw (length-append s.stdout_buf (c % 256 ∷ [])) (omega arith))
    ]

    -- On a kernel that takes every byte written to descriptor 1, with at most 1024 bytes in the
    -- buffer, `putchar` returns its argument, adds its low byte to what the kernel has got
    -- followed by the buffer, and leaves at most 1024 bytes in the buffer.
    pub putchar-sent :
        (s : Output W) (c : ℕ)
        → length s.stdout_buf ≤ buf_size
        → ((putchar c s).0 ≡ some c)
          × (sent (putchar c s).1 ≡ sent s ++ c % 256 ∷ [])
          × (length (putchar c s).1.stdout_buf ≤ buf_size)
    unfolding putchar fputc
    putchar-sent s c h = elim (Bool-cases (leb buf_size (length s.stdout_buf))) [
      | inl full ↦
          let (kept, empty) = flush-sent s in
          let (more, bound) = put (flush s) c (rw empty (omega arith)) in
          rw full (refl, more ∙ ap (λ xs. xs ++ c % 256 ∷ []) kept, bound)
      | inr room ↦ rw room (refl, (put s c (ground arith)).0, (put s c (ground arith)).1)
    ]

    put_all-sent :
        (cs : List ℕ) (s : Output W)
        → length s.stdout_buf ≤ buf_size
        → (sent (put_all cs s) ≡ sent s ++ map (λ c. c % 256) cs)
          × (length (put_all cs s).stdout_buf ≤ buf_size)
    put_all-sent [] s h = (sym (append-nil (sent s)), h)
    put_all-sent (c ∷ cs) s h =
        let (_, more, room) = putchar-sent s c h in
        let (all, bound) = put_all-sent cs (putchar c s).1 room in
        (
          all
              ∙ ap (λ xs. xs ++ map (λ b. b % 256) cs) more
              ∙ append_assoc (sent s) (c % 256 ∷ []) (map (λ b. b % 256) cs),
          bound,
        )

    -- On a kernel that takes every byte written to descriptor 1, with at most 1024 bytes in the
    -- buffer: after any calls of `putchar` there are again at most 1024 bytes in the buffer, and
    -- `fflush` of `stdout` then leaves it empty and the kernel with what it had got, the bytes that
    -- were in the buffer, and the low bytes of all the arguments, in this order.
    pub fflush-put_all :
        (s : Output W) (cs : List ℕ)
        → length s.stdout_buf ≤ buf_size
        → (length (put_all cs s).stdout_buf ≤ buf_size)
          × ((fflush stdout (put_all cs s)).stdout_buf ≡ [])
          × (written (fflush stdout (put_all cs s)).world ≡ sent s ++ map (λ c. c % 256) cs)
    unfolding fflush
    fflush-put_all s cs h =
        let (all, bound) = put_all-sent cs s h in
        let (kept, empty) = flush-sent (put_all cs s) in
        (
          bound,
          empty,
          sym (append-nil (written (flush (put_all cs s)).world))
              ∙ ap (λ xs. written (flush (put_all cs s)).world ++ xs) (sym empty)
              ∙ kept
              ∙ all,
        )
