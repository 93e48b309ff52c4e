-- ===== src/Stdio/File/Pushback.antt =====
-- `ungetc` and `fgetc`: a stack of four bytes in front of the file.
use aic_lib.Base.{
  ℕ, suc, ◌+◌, ◌-◌, ◌%◌, ◌<◌, ◌≡◌, refl, arith, Option, some, false, get_or, set, length,
  get_or-set_self, set-set, ◌∙◌,
}
use aic_lib.Stdio.File.{FileImpl, Pal, Files, zero_entry, ungetc_buf_size, entry, update}
use aic_lib.Stdio.File.Stream.{ungetc, fgetc}

pub pop_count : (n : ℕ) → suc n - 1 ≡ n
pop_count n = omega arith

module _ {W : Type 0} (pal : Pal W) where
  -- The entry with the byte on its stack.
  abbrev pub pushed : ℕ → FileImpl → FileImpl
  pushed c f = record f {
    ungetc_buf = set f.ungetc_buf f.ungetc_count (c % 256);
    ungetc_count = f.ungetc_count + 1;
    eof = false;
  }

  pub ungetc_room :
      (s : Files W) (i c : ℕ)
      → (entry s i).ungetc_count < ungetc_buf_size
      → ungetc pal (some c) (some i) s ≡ (some (c % 256), update s i (pushed c (entry s i)))
  unfolding ungetc
  ungetc_room s i c room = ground arith

  pub fgetc_pushed :
      (s : Files W) (i n : ℕ) (f : FileImpl)
      → entry s i ≡ f
      → f.ungetc_count ≡ suc n
      → fgetc pal (some i) s
        ≡ (some (get_or f.ungetc_buf n 0), update s i (record f { ungetc_count = n }))
  unfolding fgetc
  fgetc_pushed s i n f e q = rw (e, q, pop_count n) (ground arith)

  -- Taking a pushed byte off again.
  popped :
      (s : Files W) (i c : ℕ) (f : FileImpl)
      → length f.ungetc_buf ≡ ungetc_buf_size
      → f.ungetc_count < ungetc_buf_size
      → ◌≡◌ {A = Option ℕ × Files W}
          (
            some (get_or (set f.ungetc_buf f.ungetc_count (c % 256)) f.ungetc_count 0),
            update
                (update s i (pushed c f))
                i
                (record (pushed c f) { ungetc_count = f.ungetc_count }),
          )
          (
            some (c % 256),
            update s i
                (record f { ungetc_buf = set f.ungetc_buf f.ungetc_count (c % 256); eof = false }),
          )
  popped s i c f buf room =
      rw (get_or-set_self f.ungetc_buf f.ungetc_count (c % 256) 0 (rw buf room), set-set s.table i)
        refl

  -- On an open table entry with room, `ungetc` returns the low byte, `fgetc` then returns it
  -- again without a call of the kernel, and leaves the state as before, but for the end-of-file
  -- mark, which is cleared, and the used place of the buffer.
  pub fgetc-ungetc :
      (s : Files W) (i c : ℕ)
      → i < length s.table
      → length (entry s i).ungetc_buf ≡ ungetc_buf_size
      → (entry s i).ungetc_count < ungetc_buf_size
      → ((ungetc pal (some c) (some i) s).0 ≡ some (c % 256))
        × (fgetc pal (some i) (ungetc pal (some c) (some i) s).1 ≡ (
          some (c % 256),
          update s i (record (entry s i) {
            ungetc_buf = set (entry s i).ungetc_buf (entry s i).ungetc_count (c % 256);
            eof = false;
          }),
        ))
  fgetc-ungetc s i c inside buf room = rw (ungetc_room s i c room) (
    refl,
    fgetc_pushed (update s i (pushed c (entry s i))) i (entry s i).ungetc_count
          (pushed c (entry s i))
          (get_or-set_self s.table i (pushed c (entry s i)) zero_entry inside) (omega arith)
        ∙ popped s i c (entry s i) buf room,
  )
