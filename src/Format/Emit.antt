-- ===== src/Format/Emit.antt =====
-- The output functions as one: `emit` sends a list of bytes through `output_char`. A state that has
-- been sent a list keeps as much of it as there is room for and counts all of it.
use mathlib.Core.List.{append-nil, append_assoc}
use aic_lib.Base.{
  ℕ, zero, suc, ◌+◌, ◌-◌, ◌%◌, ◌^◌, ◌<◌, ◌≤◌, ◌≡◌, ◌≢◌, refl, arith, true, false, ◌==◌, ltb, min,
  List, [], ◌∷◌, ◌++◌, some, length, replicate, get_elem?, All, ◌∙◌, sym, inl, inr, Bool-cases,
  length-append, ==_iff,
}
use aic_lib.Memory.{null, Memory, Outcome, Cmd, pure, done, fault, no_fuel, follow, ◌>>=◌, write}
use aic_lib.Memory.Region.{
  Mapped, SameOutside, mapped_byte, store-done, Mapped-write, write_same, write_other,
}
use aic_lib.Memory.Ends
use aic_lib.Memory.Ends.{Ends, ends}
use aic_lib.Format.Output.{State, room, output_char, output_array, output_padding}
use aic_lib.Format.Integer.{output_prefix}

unfoldable pub emit : State → List ℕ → Cmd State
emit st [] = pure st
emit st (c ∷ cs) = do st' ← output_char st c; emit st' cs

-- Commands that agree on what they follow.
pub follow-cong :
    {A B : Type 0} (o : Outcome A) (f g : A → Cmd B)
    → ((a : A) (m : Memory) → f a m ≡ g a m)
    → follow o f ≡ follow o g
follow-cong (done a m) f g h = h a m
follow-cong fault f g h = refl
follow-cong no_fuel f g h = refl

pub follow_assoc :
    {A B C : Type 0} (o : Outcome A) (f : A → Cmd B) (g : B → Cmd C)
    → follow (follow o f) g ≡ follow o (λ a m. follow (f a m) g)
follow_assoc (done a m) f g = refl
follow_assoc fault f g = refl
follow_assoc no_fuel f g = refl

pub emit-append :
    (st : State) (xs ys : List ℕ) (m : Memory)
    → emit st (xs ++ ys) m ≡ follow (emit st xs m) (λ st'. emit st' ys)
unfolding emit
emit-append st [] ys m = refl
emit-append st (c ∷ xs) ys m =
    follow-cong (output_char st c m) _ _ (λ st' m'. emit-append st' xs ys m')
    ∙ sym (follow_assoc (output_char st c m) (λ st'. emit st' xs) (λ st'. emit st' ys))

pub output_prefix-emit :
    (st : State) (xs : List ℕ) (m : Memory) → output_prefix st xs m ≡ emit st xs m
unfolding output_prefix emit
output_prefix-emit st [] m = refl
output_prefix-emit st (c ∷ xs) m =
    follow-cong (output_char st c m) _ _ (λ st' m'. output_prefix-emit st' xs m')

pub output_padding-emit :
    (st : State) (pad n : ℕ) (m : Memory) → output_padding st pad n m ≡ emit st (replicate n pad) m
unfolding output_padding emit
output_padding-emit st pad zero m = refl
output_padding-emit st pad (suc n) m =
    follow-cong (output_char st pad m) _ _ (λ st' m'. output_padding-emit st' pad n m')

-- Bytes other than zero at the front of an array.
pub output_array-emit :
    (st : State) (xs ys : List ℕ) (m : Memory)
    → All (λ c. c ≢ 0) xs
    → output_array st (length xs) (xs ++ ys) m ≡ emit st xs m
unfolding output_array emit
output_array-emit st [] ys m ne = refl
output_array-emit st (c ∷ xs) ys m ne =
    let go : (c == 0) ≡ false = ground (arith, ne.0) in
    rw go (follow-cong (output_char st c m) _ _ (λ st' m'. output_array-emit st' xs ys m' ne.1))

-- After `xs` has been sent to a fresh state over a buffer of `size` bytes at `buf`: the memory `m`
-- differs from `m₀` only in the first `size - 1` bytes of the buffer, which hold as much of `xs`
-- as fits; the position is the number of bytes kept, and the total that of all bytes.
pub record IsEmitted (buf size : ℕ) (xs : List ℕ) (m₀ : Memory) (st : State) (m : Memory)
    : Type 0 where
  pub buffer_is : st.buffer ≡ buf
  pub size_is : st.size ≡ size
  pub pos_is : st.pos ≡ min (length xs) (size - 1)
  pub total_is : st.total ≡ length xs % 2 ^ 64
  pub kept : (i : ℕ) → i < min (length xs) (size - 1) → m (buf + i) ≡ get_elem? xs i
  pub same : SameOutside buf (size - 1) m₀ m
  pub mapped : Mapped m buf size

get_elem?-append_left :
    (xs : List ℕ) (c i : ℕ) → i < length xs → get_elem? (xs ++ c ∷ []) i ≡ get_elem? xs i
get_elem?-append_left [] c i lt = absurd (omega arith)
get_elem?-append_left (x ∷ xs) c zero lt = refl
get_elem?-append_left (x ∷ xs) c (suc i) lt = get_elem?-append_left xs c i (omega arith)

get_elem?-append_end : (xs : List ℕ) (c : ℕ) → get_elem? (xs ++ c ∷ []) (length xs) ≡ some c
get_elem?-append_end [] c = refl
get_elem?-append_end (x ∷ xs) c = get_elem?-append_end xs c

-- A buffer that vsnprintf is given.
pub record IsBuffer (buf size : ℕ) : Type 0 where
  pub ne_null : buf ≢ null
  pub pos : 0 < size
  pub word : size < 2 ^ 64

-- A byte that fits goes behind the others.
kept_one :
    (buf : ℕ) (xs : List ℕ) (c : ℕ) (m : Memory)
    → ((i : ℕ) → i < length xs → m (buf + i) ≡ get_elem? xs i)
    → (i : ℕ) → i < suc (length xs)
    → write m (buf + length xs) c (buf + i) ≡ get_elem? (xs ++ c ∷ []) i
kept_one buf xs c m kept i lt = elim (Bool-cases (i == length xs)) [
  | inl last ↦
      let e : i ≡ length xs = (==_iff i (length xs)).0 last in
      rw (e, write_same m (buf + length xs) c) (sym (get_elem?-append_end xs c))
  | inr before ↦
      write_other m (buf + length xs) (buf + i) c (ground arith)
      ∙ kept i (ground arith)
      ∙ sym (get_elem?-append_left xs c i (ground arith))
]

module _ {buf size : ℕ} (ok : IsBuffer buf size) {m₀ : Memory} where
  fitting :
      (xs : List ℕ) (c : ℕ) (st : State) (m : Memory)
      → IsEmitted buf size xs m₀ st m
      → length xs < size - 1
      → IsEmitted buf size
          (xs ++ c ∷ [])
          m₀
          (record st { pos = (st.pos + 1) % 2 ^ 64; total = (st.total + 1) % 2 ^ 64 })
          (write m (buf + length xs) c)
  fitting xs c st m e fits = record {
    buffer_is = e.buffer_is;
    size_is = e.size_is;
    pos_is = omega (arith, e.pos_is, ok.word, length-append xs (c ∷ []));
    total_is = omega (arith, e.total_is, length-append xs (c ∷ []));
    kept = λ i lt.
        kept_one buf xs c m (λ j lj. e.kept j (omega arith)) i
          (omega (arith, length-append xs (c ∷ [])));
    same = λ q out. write_other m (buf + length xs) q c (omega arith) ∙ e.same q out;
    mapped = Mapped-write m (buf + length xs) c buf size e.mapped;
  }

  past_end :
      (xs : List ℕ) (c : ℕ) (st : State) (m : Memory)
      → IsEmitted buf size xs m₀ st m
      → size - 1 ≤ length xs
      → IsEmitted buf size
          (xs ++ c ∷ [])
          m₀
          (record st { total = (st.total + 1) % 2 ^ 64; overflow = true })
          m
  past_end xs c st m e full = record {
    buffer_is = e.buffer_is;
    size_is = e.size_is;
    pos_is = omega (arith, e.pos_is, length-append xs (c ∷ []));
    total_is = omega (arith, e.total_is, length-append xs (c ∷ []));
    kept = λ i lt. e.kept i (omega arith) ∙ sym (get_elem?-append_left xs c i (omega arith));
    same = e.same;
    mapped = e.mapped;
  }

  output_char-IsEmitted :
      (xs : List ℕ) (c : ℕ) (st : State) (m : Memory)
      → IsEmitted buf size xs m₀ st m
      → Ends (IsEmitted buf size (xs ++ c ∷ []) m₀) (output_char st c m)
  unfolding output_char
  output_char-IsEmitted xs c st m e = elim (Bool-cases (ltb st.pos (room st.size))) [
    | inl fits ↦
        let at : st.buffer + st.pos ≡ buf + length xs =
          ground (arith, e.buffer_is, e.pos_is, e.size_is, ok.word, ok.pos) in
        let (o, to) = mapped_byte m (buf + length xs) (
          e.mapped (buf + length xs) (omega arith)
            (ground (arith, e.pos_is, e.size_is, ok.word, ok.pos))) in
        let given : (st.buffer == null) ≡ false = ground (arith, e.buffer_is, ok.ne_null) in
        rw (fits, given, at, store-done m (buf + length xs) c to)
          (ends (fitting xs c st m e (ground (arith, e.pos_is, e.size_is, ok.word, ok.pos))))
    | inr full ↦
        rw full (ends (past_end xs c st m e (ground (arith, e.pos_is, e.size_is, ok.word, ok.pos))))
  ]

  -- Sending a list of bytes through `output_char` appends them to what has been sent: nothing is
  -- written outside the first `size - 1` bytes of the buffer, and nothing faults.
  pub emit-IsEmitted :
      (xs cs : List ℕ) (st : State) (m : Memory)
      → IsEmitted buf size xs m₀ st m
      → Ends (IsEmitted buf size (xs ++ cs) m₀) (emit st cs m)
  unfolding emit
  emit-IsEmitted xs [] st m e = rw append-nil (ends e)
  emit-IsEmitted xs (c ∷ cs) st m e =
      Ends.and_then (output_char-IsEmitted xs c st m e)
        (λ st' m' e'. let r = emit-IsEmitted (xs ++ c ∷ []) cs st' m' e' in rw append_assoc at r)
