-- ===== src/Stdio/File/Reading.antt =====
-- `fgetc`, `ungetc`, `fgets` and `fread` against the text that a stream still has to give: the
-- bytes pushed back, the last one first, and behind them what the kernel has of the file.
use aic_lib.Base.{
  ℕ, zero, suc, ◌+◌, ◌%◌, ◌<◌, ◌≤◌, ◌≡◌, refl, arith, List, [], ◌∷◌, ◌++◌, Option, none, some, true,
  get_or, set, drop, length, get_or-set_self, get_or-set_ne, ap, ◌∙◌, sym, length-set,
}
use mathlib.Core.Path.{subst}
use native.Mathlib.Numerals.{add-one}
use aic_lib.Stdio.File.Pushback.{fgetc_pushed, ungetc_room, pushed}
use aic_lib.Base.Int.{ℤ, pos}
use aic_lib.Stdio.File.{FileImpl, Pal, Files, zero_entry, ungetc_buf_size, entry, update}
use aic_lib.Stdio.File.Stream.{ungetc, fgetc, fgetc_ret}

-- The first bytes of the buffer, the last one first.
abbrev pub pushed_back : List ℕ → ℕ → List ℕ
pushed_back buf zero = []
pushed_back buf (suc n) = get_or buf n 0 ∷ pushed_back buf n

-- A byte stored behind the last one comes out first.
pushed_back-above :
    (buf : List ℕ) (n k b : ℕ) → k ≤ n → pushed_back (set buf n b) k ≡ pushed_back buf k
pushed_back-above buf n zero b h = refl
pushed_back-above buf n (suc k) b h =
    rw
      (
        get_or-set_ne buf n k b 0 (λ e. absurd (omega arith)),
        pushed_back-above buf n k b (omega arith),
      )
      refl

pushed_back-set :
    (buf : List ℕ) (n b : ℕ)
    → n < length buf
    → pushed_back (set buf n b) (n + 1) ≡ b ∷ pushed_back buf n
pushed_back-set buf n b h =
    rw (add-one, get_or-set_self buf n b 0 h, pushed_back-above buf n n b (omega arith)) refl

abbrev pub first : List ℕ → Option ℕ
first [] = none
first (c ∷ cs) = some c

-- What the kernel does on a descriptor that has text to read: a read of one byte takes the first
-- one, and returns 0 at the end.
pub record Readable {W : Type 0} (pal : Pal W) (fd : ℤ) (contents : W → List ℕ) : Type 0 where
  pub at_end :
      (w : W)
      → contents w ≡ []
      → (w' : W) × (pal.pal_read fd 1 w ≡ (pos 0, [], w')) × (contents w' ≡ [])
  pub next :
      (w : W) (c : ℕ) (cs : List ℕ)
      → contents w ≡ c ∷ cs
      → (w' : W) × (pal.pal_read fd 1 w ≡ (pos 1, c ∷ [], w')) × (contents w' ≡ cs) × (c < 256)

module _ {W : Type 0} (pal : Pal W) (fd : ℤ) (contents : W → List ℕ) (i : ℕ) where
  abbrev pub upcoming : Files W → List ℕ
  upcoming s = pushed_back (entry s i).ungetc_buf (entry s i).ungetc_count ++ contents s.world

  -- The stream is an entry of the table and stands for the descriptor.
  abbrev pub OnFile : Files W → Type 0
  OnFile s = (i < length s.table) × ((entry s i).fd ≡ fd)

  -- A call has taken the first byte of the text, or met its end.
  abbrev pub Takes : List ℕ → Option ℕ × Files W → Type 0
  Takes text (o, s') = (o ≡ first text) × (upcoming s' ≡ drop 1 text) × OnFile s'

  set_OnFile :
      (s : Files W) (f : FileImpl) (w : W)
      → i < length s.table
      → f.fd ≡ fd
      → OnFile (record (update s i f) { world = w })
        × (upcoming (record (update s i f) { world = w })
            ≡ pushed_back f.ungetc_buf f.ungetc_count ++ contents w)
  set_OnFile s f w lt e =
      rw (get_or-set_self s.table i f zero_entry lt) ((rw (length-set s.table i f) lt, e), refl)

  -- The call takes a byte that was pushed back.
  pushed_byte :
      (s : Files W) (n : ℕ)
      → OnFile s
      → (entry s i).ungetc_count ≡ suc n
      → Takes
          (pushed_back (entry s i).ungetc_buf (suc n) ++ contents s.world)
          (fgetc pal (some i) s)
  pushed_byte s n (lt, e) q =
      let own = set_OnFile s (record (entry s i) { ungetc_count = n }) s.world lt e in
      subst (Takes (pushed_back (entry s i).ungetc_buf (suc n) ++ contents s.world))
        (sym (fgetc_pushed pal s i n (entry s i) refl q)) (refl, own.1, own.0)

  -- Nothing was pushed back: the call reads a byte.
  fgetc_empty :
      (s : Files W)
      → (entry s i).ungetc_count ≡ 0
      → fgetc pal (some i) s ≡ fgetc_ret pal i (pal.pal_read (entry s i).fd 1 s.world) s
  unfolding fgetc
  fgetc_empty s none_pushed = rw none_pushed refl

  read_byte :
      (s : Files W) (w : W)
      → OnFile s
      → (entry s i).ungetc_count ≡ 0
      → (c : ℕ) (cs : List ℕ) → pal.pal_read fd 1 s.world ≡ (pos 1, c ∷ [], w)
      → contents w ≡ cs
      → c < 256
      → Takes (c ∷ cs) (fgetc_ret pal i (pal.pal_read (entry s i).fd 1 s.world) s)
  unfolding fgetc_ret
  read_byte s w (lt, e) q c cs r k small = rw (e, r) (ground arith, rw q k, (lt, e))

  end_of_file :
      (s : Files W) (w : W)
      → OnFile s
      → (entry s i).ungetc_count ≡ 0
      → pal.pal_read fd 1 s.world ≡ (pos 0, [], w)
      → contents w ≡ []
      → Takes [] (fgetc_ret pal i (pal.pal_read (entry s i).fd 1 s.world) s)
  unfolding fgetc_ret
  end_of_file s w (lt, e) q r k =
      let own = set_OnFile s (record (entry s i) { eof = true }) w lt e in
      subst (λ x. Takes [] (fgetc_ret pal i x s)) (sym (ap (λ d. pal.pal_read d 1 s.world) e ∙ r))
        (refl, own.1 ∙ rw q k, own.0)

  -- `ungetc` of a byte other than `EOF`, on a stream with fewer than four bytes pushed back, puts
  -- its low eight bits in front of the text.
  pub ungetc-upcoming :
      (c : ℕ) (s : Files W)
      → i < length s.table
      → length (entry s i).ungetc_buf ≡ ungetc_buf_size
      → (entry s i).ungetc_count < ungetc_buf_size
      → upcoming (ungetc pal (some c) (some i) s).1 ≡ c % 256 ∷ upcoming s
  ungetc-upcoming c s lt buf room =
      rw
        (
          ungetc_room pal s i c room,
          get_or-set_self s.table i (pushed pal c (entry s i)) zero_entry lt,
        )
        (ap (λ xs. xs ++ contents s.world)
          (pushed_back-set (entry s i).ungetc_buf (entry s i).ungetc_count (c % 256) (rw buf room)))

  module _ (readable : Readable pal fd contents) where
    read_text :
        (s : Files W)
        → OnFile s
        → (entry s i).ungetc_count ≡ 0
        → (text : List ℕ) → contents s.world ≡ text
        → Takes text (fgetc_ret pal i (pal.pal_read (entry s i).fd 1 s.world) s)
    read_text s on q [] k = let (w, r, l) = readable.at_end s.world k in end_of_file s w on q r l
    read_text s on q (c ∷ cs) k =
        let (w, r, l, small) = readable.next s.world c cs k in read_byte s w on q c cs r l small

    fgetc_from :
        (s : Files W)
        → OnFile s
        → (n : ℕ) → (entry s i).ungetc_count ≡ n
        → Takes (pushed_back (entry s i).ungetc_buf n ++ contents s.world) (fgetc pal (some i) s)
    fgetc_from s on zero q =
        subst (Takes (contents s.world)) (sym (fgetc_empty s q))
          (read_text s on q (contents s.world) refl)
    fgetc_from s on (suc n) q = pushed_byte s n on q

    -- `fgetc` returns the first byte of what the stream still has to give, pushed back or in the
    -- file, and leaves the rest; at the end it returns `EOF`, and the text stays empty.
    pub fgetc-Takes : (s : Files W) → OnFile s → Takes (upcoming s) (fgetc pal (some i) s)
    fgetc-Takes s on = fgetc_from s on (entry s i).ungetc_count refl
