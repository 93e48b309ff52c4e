-- ===== src/Format/Render.antt =====
-- `vsnprintf` against the text of its format: every conversion sends its text through
-- `output_char`.
use aic_lib.Base.{
  ℕ, zero, suc, ◌+◌, ◌-◌, ◌≤◌, ◌≡◌, ◌≢◌, refl, arith, false, not, ◌&&◌, ◌==◌, ltb, if◌then◌else◌,
  List, [], ◌∷◌, ◌++◌, Option, some, length, replicate, take, drop, All, ◌∙◌, sym, ap, take-all,
  length-take, inl, inr, Bool-cases,
}
use aic_lib.Memory.{Memory, Outcome, Cmd, pure, done, fault, no_fuel, follow, ◌>>=◌}
use aic_lib.Format.Output.{State, output_char, output_array, output_string, output_padding}
use aic_lib.Format.Integer.{Flags, overlay, output_prefix, output_number, format_string}
use aic_lib.Format.Emit.{
  emit, emit-append, follow-cong, output_prefix-emit, output_padding-emit, output_array-emit,
}
use aic_lib.Format.Text.{number_layout, string_text, shown_string}

-- The command sends the bytes.
abbrev pub Sends : (State → Cmd State) → List ℕ → Type 0
Sends f xs = (st : State) (m : Memory) → f st m ≡ emit st xs m

pub Sends-then :
    (f g : State → Cmd State) (xs ys : List ℕ)
    → Sends f xs
    → Sends g ys
    → Sends (λ st. f st >>= g) (xs ++ ys)
Sends-then f g xs ys hf hg st m =
    ap (λ o. follow o g) (hf st m)
    ∙ follow-cong (emit st xs m) _ _ hg
    ∙ sym (emit-append st xs ys m)

pub follow_done : (o : Outcome State) → follow o pure ≡ o
follow_done (done a m) = refl
follow_done fault = refl
follow_done no_fuel = refl

pub Sends-char : (c : ℕ) → Sends (λ st. output_char st c) (c ∷ [])
unfolding emit
Sends-char c st m = sym (follow_done (output_char st c m))

pub output_padding-Sends : (c n : ℕ) → Sends (λ st. output_padding st c n) (replicate n c)
output_padding-Sends c n st m = output_padding-emit st c n m

output_array-take :
    (n : ℕ) (str : List ℕ)
    → n ≤ length str
    → All (λ c. c ≢ 0) str
    → Sends (λ st. output_array st n str) (take n str)
unfolding output_array emit
output_array-take zero str h ne st m = refl
output_array-take (suc n) [] h ne st m = absurd (omega arith)
output_array-take (suc n) (c ∷ str) h ne st m =
    let go : (c == 0) ≡ false = ground (arith, ne.0) in
    rw go (
      follow-cong (output_char st c m) _ _
        (λ st' m'. output_array-take n str (omega arith) ne.1 st' m'))

module _ (flags : Flags) (width : ℕ) where
  -- The padding that the code computes is that of the layout.
  pad-layout : (n w : ℕ) → (if ltb n w then w - n else 0) ≡ w - n
  pad-layout n w = ground arith

  pub output_number-Sends :
      (prefix num junk : List ℕ)
      → All (λ c. c ≢ 0) num
      → Sends
          (λ st. output_number st flags width prefix (overlay num junk) (length num))
          (number_layout flags width prefix num)
  unfolding output_number number_layout
  output_number-Sends prefix num junk ne st m =
      let pad = width - (length prefix + length num) in
      let put_digits : State → Cmd State = λ s. output_array s (length num) (overlay num junk) in
      let put_front : State → Cmd State = λ s. output_prefix s prefix in
      let digits : Sends put_digits num =
        λ s m'. output_array-emit s num (drop (length num) junk) m' ne in
      let front : Sends put_front prefix = λ s m'. output_prefix-emit s prefix m' in
      let padding = λ (c : ℕ) (s : State) (m' : Memory). output_padding-emit s c pad m' in
      rw (pad-layout (length prefix + length num) width) (elim (Bool-cases flags.left) [
        | inl left ↦ rw left (
            Sends-then put_front _ prefix _ front
              (Sends-then put_digits _ num _ digits (padding b' ')) st m)
        | inr right ↦ rw right (elim (Bool-cases (flags.zero_pad && not flags.has_precision)) [
          | inl zeros ↦ rw zeros (
              Sends-then put_front _ prefix _ front
                (Sends-then (λ s. output_padding s b'0' pad) put_digits _ num (padding b'0') digits)
                st m)
          | inr spaces ↦ rw spaces (
              Sends-then (λ s. output_padding s b' ' pad) _ _ _ (padding b' ')
                (Sends-then put_front put_digits prefix num front digits) st m)
        ])
      ])

  -- The length that the code computes is that of the text shown.
  shown_length : ℕ → List ℕ → ℕ
  shown_length precision str =
      if flags.has_precision && ltb precision (length str) then precision else length str

  take-shown_length :
      (precision : ℕ) (str : List ℕ)
      → take (shown_length precision str) str
        ≡ (if flags.has_precision then take precision str else str)
  unfolding shown_length
  take-shown_length precision str = elim (Bool-cases (flags.has_precision)) [
    | inl cut ↦ elim (Bool-cases (ltb precision (length str))) [
      | inl short ↦ rw (cut, short) refl
      | inr long ↦
          rw (cut, long)
            (take-all (length str) str (omega arith) ∙ sym (take-all precision str (ground arith)))
    ]
    | inr whole ↦ rw whole (take-all (length str) str (omega arith))
  ]

  shown_length-le : (precision : ℕ) (str : List ℕ) → shown_length precision str ≤ length str
  unfolding shown_length
  shown_length-le precision str = ground arith

  string_layout-Sends :
      (str shown : List ℕ) (n : ℕ)
      → take n str ≡ shown
      → n ≤ length str
      → All (λ c. c ≢ 0) str
      → Sends
          (λ st.
            if flags.left
            then (output_string st (some str) n
                >>= (λ st₁. output_padding st₁ b' ' (if ltb n width then width - n else 0)))
            else (output_padding st b' ' (if ltb n width then width - n else 0)
                >>= (λ st₁. output_string st₁ (some str) n)))
          (if flags.left
            then shown ++ replicate (width - length shown) b' '
            else replicate (width - length shown) b' ' ++ shown)
  unfolding output_string
  string_layout-Sends str shown n e h ne st m =
      let put_text : State → Cmd State = λ s. output_array s n str in
      let put_spaces : State → Cmd State = λ s. output_padding s b' ' (width - n) in
      let text : Sends put_text (take n str) = λ s m'. output_array-take n str h ne s m' in
      let spaces = λ (s : State) (m' : Memory). output_padding-emit s b' ' (width - n) m' in
      let size : length shown ≡ n = ap length (sym e) ∙ length-take n str ∙ omega arith in
      rw (pad-layout n width, size, ← e)
        (elim (Bool-cases flags.left) [
          | inl left ↦ rw left (Sends-then put_text put_spaces _ _ text spaces st m)
          | inr right ↦ rw right (Sends-then put_spaces put_text _ _ spaces text st m)
        ])

  pub format_string-Sends :
      (str : Option (List ℕ)) (precision : ℕ)
      → All (λ c. c ≢ 0) (shown_string str)
      → Sends
          (λ st. format_string st str flags width precision)
          (string_text flags width precision (shown_string str))
  unfolding format_string string_text shown_length
  format_string-Sends str precision ne =
      string_layout-Sends (shown_string str) _ (shown_length precision (shown_string str))
        (take-shown_length precision (shown_string str))
        (shown_length-le precision (shown_string str)) ne
