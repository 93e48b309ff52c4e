-- ===== src/Stdio/Console/Chars.antt =====
-- getchar gives the bytes of the standard input in order.
use aic_lib.Base.{
  ℕ, suc, ◌+◌, ◌%◌, ◌≡◌, ◌<◌, ◌≤◌, refl, ap, ◌∙◌, sym, arith, true, false, leb, List, [], ◌∷◌, ◌++◌,
  length, drop, get_or, length-append, append_assoc,
}
use mathlib.Core.Path.{subst}
use aic_lib.Base.Int.{ℤ, pos, negsuc}
use aic_lib.Stdio.Console.{in_buf_size, Input, next_char, received, getchar}

abbrev pub concat : List (List ℕ) → List ℕ
concat [] = []
concat (b ∷ bs) = b ++ concat bs

get_or-middle : (xs ys : List ℕ) (y : ℕ) → get_or (xs ++ (y ∷ ys)) (length xs) 0 ≡ y
get_or-middle [] ys y = refl
get_or-middle (x ∷ xs) ys y = get_or-middle xs ys y

module _ {W : Type 0} (pal_read : ℤ → ℕ → W → ℤ × List ℕ × W) where
  -- The kernel gives the chunks one after the other, and then nothing.
  abbrev pub Delivers : List (List ℕ) → W → Type 0
  Delivers [] w =
      (bytes : List ℕ) × (w' : W) × (pal_read (pos 0) in_buf_size w ≡ (pos 0, bytes, w'))
  Delivers (b ∷ bs) w =
      (w' : W) × (pal_read (pos 0) in_buf_size w ≡ (pos (length b), b, w'))
      × (0 < length b)
      × (length b ≤ in_buf_size)
      × Delivers bs w'

  -- What is left in the buffer, and the chunks that the kernel has yet to deliver.
  abbrev pub Holds : Input W → List ℕ → List (List ℕ) → Type 0
  Holds s rest bs =
      (before : List ℕ) × (after : List ℕ) × (s.in_buf ≡ before ++ (rest ++ after))
      × (s.in_ptr ≡ length before)
      × (s.in_len ≡ length before + length rest)
      × Delivers bs s.world

  -- The input that is still to come.
  abbrev pub Pending : Input W → List ℕ → Type 0
  Pending s input =
      (rest : List ℕ) × (bs : List (List ℕ)) × Holds s rest bs × (input ≡ rest ++ concat bs)

  getchar-held : (s : Input W) → s.in_ptr < s.in_len → getchar pal_read s ≡ next_char pal_read s
  unfolding getchar
  getchar-held s lt = let f : leb s.in_len s.in_ptr ≡ false = ground (arith, lt) in rw f refl

  getchar-empty :
      (s : Input W) (r : ℤ × List ℕ × W)
      → s.in_ptr ≡ s.in_len
      → pal_read (pos 0) in_buf_size s.world ≡ r
      → getchar pal_read s ≡ received pal_read s r
  unfolding getchar
  getchar-empty s r e given =
      let t : leb s.in_len s.in_ptr ≡ true = ground (arith, e) in
      rw t (ap (received pal_read s) given)

  next_char-Holds :
      (s : Input W) (c : ℕ) (rest : List ℕ) (bs : List (List ℕ))
      → Holds s (c ∷ rest) bs
      → ((next_char pal_read s).0 ≡ pos (c % 256)) × Holds (next_char pal_read s).1 rest bs
  unfolding next_char
  next_char-Holds s c rest bs (before, after, whole, p, q, more) =
      let here : get_or s.in_buf s.in_ptr 0 ≡ c =
        ap (λ i. get_or s.in_buf i 0) p
        ∙ (ap (λ b. get_or b (length before) 0) whole ∙ get_or-middle before (rest ++ after) c) in
      let l = length-append before (c ∷ []) in
      (
        ap (λ v. pos (v % 256)) here,
        (
          before ++ (c ∷ []),
          after,
          whole ∙ sym (append_assoc before (c ∷ []) (rest ++ after)),
          omega (arith, l, p),
          omega (arith, l, q),
          more,
        ),
      )

  -- The next byte and the rest of the input, or the end.
  abbrev pub Takes : List ℕ → ℤ × Input W → Type 0
  Takes [] (ret, s) = ret ≡ negsuc 0
  Takes (c ∷ input) (ret, s) = (ret ≡ pos (c % 256)) × Pending s input

  filled : Input W → List ℕ → W → Input W
  filled s bytes w = record {
    in_buf = bytes ++ drop (length bytes) s.in_buf;
    in_ptr = 0;
    in_len = length bytes;
    world = w;
  }

  held-Takes :
      (s : Input W) (rest : List ℕ) (bs : List (List ℕ))
      → Holds s rest bs
      → Takes (rest ++ concat bs) (getchar pal_read s)
  unfolding received filled
  held-Takes s (c ∷ rest) bs h =
      let (before, after, whole, p, q, more) = h in
      let (ret, held) = next_char-Holds s c rest bs h in
      rw (getchar-held s (omega (arith, p, q))) (ret, (rest, bs, held, refl))
  held-Takes s [] [] (before, after, whole, p, q, (bytes, w', given)) =
      rw (getchar-empty s (pos 0, bytes, w') (omega (arith, p, q)) given) refl
  held-Takes s [] ([] ∷ bs) (before, after, whole, p, q, (w', given, nonempty, room, more)) =
      absurd (omega (arith, nonempty))
  held-Takes s [] ((c ∷ b) ∷ bs) (before, after, whole, p, q, more) =
      let (w', given, nonempty, room, later) = more in
      let (ret, held) =
        next_char-Holds (filled s (c ∷ b) w') c b bs
          ([], drop (length (c ∷ b)) s.in_buf, refl, refl, omega arith, later) in
      rw (getchar-empty s (pos (suc (length b)), c ∷ b, w') (omega (arith, p, q)) given)
        (ret, (b, bs, held, refl))

  -- Where the kernel gives the input in chunks of at least one byte and no longer than the buffer,
  -- and then nothing, `getchar` returns the next byte of the input and leaves the rest to come; at
  -- the end of the input it returns -1.
  pub getchar-Takes :
      (s : Input W) (input : List ℕ) → Pending s input → Takes input (getchar pal_read s)
  getchar-Takes s input (rest, bs, h, e) =
      subst (λ i. Takes i (getchar pal_read s)) (sym e) (held-Takes s rest bs h)
