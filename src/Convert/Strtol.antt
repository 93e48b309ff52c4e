-- ===== src/Convert/Strtol.antt =====
-- `strtol` on every C string, against the number that its text means.
use native.Mathlib.Nat.{mod-eq_of_lt, mod_self, add-zero}
use native.Mathlib.Numerals.{add-two}
use aic_lib.Base.{
  ℕ, zero, suc, ◌+◌, ◌-◌, ◌*◌, ◌/◌, ◌%◌, ◌<◌, ◌≤◌, ◌≡◌, ◌≢◌, refl, arith, List, [], ◌∷◌, ◌++◌,
  length, get_or, drop, All, length-append, length-drop, ltb, ltb→lt, leb, ◌==◌, ◌||◌, ◌&&◌, Bool,
  Bool-cases, true, false, inl, inr, ap, ◌∙◌, if◌then◌else◌,
}
use aic_lib.Base.Int.{ℤ, pos, neg_ℕ}
use aic_lib.Memory.{Ptr, Memory, done, load}
use aic_lib.Memory.Region.{IsString, IsString-head, IsString-drop}
use aic_lib.Ctype.{isspace}
use aic_lib.Convert.{
  Seen, nothing, digits, overflow, add_digit, Converted, read_sign, read_base, finish, strtol,
}
use aic_lib.Convert.Digits.{
  digit_prefix, accumulate, digit_prefix-lt, digit_loop-digit_prefix, skip_spaces_lem,
}
use aic_lib.Convert.Accumulate.{value, accumulate-value}

pub data Sign : Type 0 where
  unsigned plus minus : Sign

abbrev pub sign_text : Sign → List ℕ
sign_text unsigned = []
sign_text plus = b'+' ∷ []
sign_text minus = b'-' ∷ []

abbrev pub is_negative : Sign → Bool
is_negative minus = true
is_negative unsigned = false
is_negative plus = false

-- Does the text begin with the prefix of base 16, where the base admits it?
unfoldable pub has_prefix : ℕ → List ℕ → Bool
has_prefix base [] = false
has_prefix base (a ∷ []) = false
has_prefix base (a ∷ b ∷ xs) =
    ((base == 0) || (base == 16)) && ((a == b'0') && ((b == b'x') || (b == b'X')))

abbrev pub prefix_length : ℕ → List ℕ → ℕ
prefix_length base xs = if has_prefix base xs then 2 else 0

-- Base 0 leaves the choice to the text.
abbrev pub chosen_base : ℕ → List ℕ → ℕ
chosen_base base xs =
    if has_prefix base xs
    then 16
    else if base == 0
    then (if get_or xs 0 0 == b'0' then 8 else 10)
    else base

-- The nearest value of a `long` to the number.
abbrev pub clamp : ℕ → Bool → ℕ → ℤ
clamp half true v = if ltb half v then neg_ℕ half else neg_ℕ v
clamp half false v = if ltb v half then pos v else pos (half - 1)

abbrev pub out_of_range : ℕ → Bool → ℕ → Bool
out_of_range half true v = ltb half v
out_of_range half false v = leb half v

-- What a text with these digits is to give: with no digit, zero and the start of the text.
abbrev pub meaning : ℕ → Bool → Ptr → ℕ → List ℕ → Ptr → Converted
meaning half neg nptr base [] end = record { value = pos 0; end = nptr; range_error = false }
meaning half neg nptr base (d ∷ ds) end = record {
  value = clamp half neg (value base 0 (d ∷ ds));
  end = end;
  range_error = out_of_range half neg (value base 0 (d ∷ ds));
}

abbrev top_value : ℕ → Bool → ℕ
top_value half neg = if neg then half else half - 1

top_fits : (half : ℕ) (neg : Bool) → 0 < half → top_value half neg < 2 * half
top_fits half true h = omega arith
top_fits half false h = omega arith

finish-digits :
    (half : ℕ) (neg : Bool) (nptr v s : ℕ)
    → 0 < half
    → v ≤ top_value half neg
    → finish half neg nptr (digits, v) s
      ≡ record { value = clamp half neg v; end = s - 1; range_error = out_of_range half neg v }
unfolding finish
finish-digits half false nptr v s h le = ground arith
finish-digits half true nptr zero s h le = ground (arith, mod_self (2 * half))
finish-digits half true nptr (suc v) s h le =
    let small : (2 * half - suc v) % (2 * half) ≡ 2 * half - suc v = mod-eq_of_lt (omega arith) in
    ground (arith, small)

finish-overflow :
    (half : ℕ) (neg : Bool) (nptr v s : ℕ) (st : Seen × ℕ)
    → 0 < half
    → top_value half neg < v
    → st.0 ≡ overflow
    → finish half neg nptr st s
      ≡ record { value = clamp half neg v; end = s - 1; range_error = out_of_range half neg v }
unfolding finish
finish-overflow half neg nptr v s (overflow, acc) h lt e = ground arith
finish-overflow half neg nptr v s (digits, acc) h lt e = cc
finish-overflow half neg nptr v s (nothing, acc) h lt e = cc

read_base_lem :
    (base c p s : ℕ) (m : Memory) (xs : List ℕ)
    → IsString m p xs
    → c ≡ get_or xs 0 0
    → s ≡ suc p
    → read_base base c s m
      ≡ done
          (
            chosen_base base xs,
            get_or (drop (prefix_length base xs) xs) 0 0,
            s + prefix_length base xs,
          )
          m
unfolding read_base has_prefix load
read_base_lem base c p s m [] h ec es = ground arith
read_base_lem base c p s m (a ∷ []) h ec es = ground arith
read_base_lem base c p s m (a ∷ b ∷ xs) h ec es =
    ground (arith, IsString-head m (suc (suc p)) xs h.2.2)

-- The first digit sets `any`, whatever it was.
accumulate_start :
    (half base cutoff cutlim d : ℕ) (ds : List ℕ)
    → accumulate half base cutoff cutlim (nothing, 0) (d ∷ ds)
      ≡ accumulate half base cutoff cutlim (digits, 0) (d ∷ ds)
unfolding accumulate add_digit
accumulate_start half base cutoff cutlim d ds = refl

finish-meaning :
    (half : ℕ) (neg : Bool) (nptr base s : ℕ) (ds : List ℕ)
    → 0 < half
    → 1 ≤ base
    → All (λ d. d < base) ds
    → finish half neg nptr
        (accumulate half base
          (top_value half neg / base)
          (top_value half neg % base)
          (nothing, 0)
          ds)
        s
      ≡ meaning half neg nptr base ds (s - 1)
unfolding finish
finish-meaning half neg nptr base s [] h hb hd = unfold accumulate in refl
finish-meaning half neg nptr base s (d ∷ ds) h hb hd =
    let top = top_value half neg in
    let start = accumulate_start half base (top / base) (top % base) d ds in
    let (fit, pass) =
      accumulate-value half base top hb (top_fits half neg h) 0 (d ∷ ds) hd (omega arith) in
    elim (Bool-cases (ltb top (value base 0 (d ∷ ds)))) [
      | inl over ↦
          finish-overflow half neg nptr (value base 0 (d ∷ ds)) s _ h (ltb→lt _ _ over)
            (ap (λ st. st.0) start ∙ pass (ltb→lt _ _ over))
      | inr under ↦
          let le : value base 0 (d ∷ ds) ≤ top = ground (arith, under) in
          ap (λ st. finish half neg nptr st s) (start ∙ fit le)
          ∙ finish-digits half neg nptr (value base 0 (d ∷ ds)) s h le
    ]

-- The prefix, if there is one, lies within the text.
IsString-prefix :
    (base p : ℕ) (m : Memory) (xs : List ℕ)
    → IsString m p xs
    → IsString m (p + prefix_length base xs) (drop (prefix_length base xs) xs)
unfolding has_prefix
IsString-prefix base p m [] h = rw add-zero h
IsString-prefix base p m (a ∷ []) h = rw add-zero h
IsString-prefix base p m (a ∷ b ∷ xs) h = elim (Bool-cases (has_prefix base (a ∷ b ∷ xs))) [
  | inl yes_prefix ↦ rw yes_prefix (rw (add-two p) h.2.2)
  | inr no_prefix ↦ rw no_prefix (rw add-zero h)
]

-- A text with no sign does not begin with one.
abbrev pub NoSign : Sign → List ℕ → Type 0
NoSign unsigned xs = (get_or xs 0 0 ≢ b'-') × (get_or xs 0 0 ≢ b'+')
NoSign plus xs = Unit
NoSign minus xs = Unit

read_sign_lem :
    (sg : Sign) (c p s : ℕ) (m : Memory) (xs : List ℕ)
    → IsString m p (sign_text sg ++ xs)
    → NoSign sg xs
    → c ≡ get_or (sign_text sg ++ xs) 0 0
    → s ≡ suc p
    → read_sign c s m ≡ done (is_negative sg, get_or xs 0 0, s + length (sign_text sg)) m
unfolding read_sign load
read_sign_lem unsigned c p s m xs h free ec es = ground arith
read_sign_lem plus c p s m xs h free ec es = ground (arith, IsString-head m (suc p) xs h.2)
read_sign_lem minus c p s m xs h free ec es = ground (arith, IsString-head m (suc p) xs h.2)

chosen_base_pos : (base : ℕ) (xs : List ℕ) → 1 ≤ chosen_base base xs
chosen_base_pos base xs = ground arith

-- On every C string, read as white space, an optional sign and a body, and for every base that is
-- not negative: `strtol` ends without a fault, changes no memory, and returns the nearest `long`
-- to the number that the longest run of digits of the base stands for; it reports `ERANGE` just
-- when the number is out of range, and sets the end pointer behind the digits. With no digit it
-- returns 0, and the end pointer is the start of the text.
pub strtol-meaning :
    (half k nptr base : ℕ) (m : Memory) (ws : List ℕ) (sg : Sign) (xs : List ℕ)
    → 0 < half
    → IsString m nptr (ws ++ (sign_text sg ++ xs))
    → All (λ c. isspace c ≡ true) ws
    → isspace (get_or (sign_text sg ++ xs) 0 0) ≡ false
    → NoSign sg xs
    → length (ws ++ (sign_text sg ++ xs)) < k
    → strtol half k nptr base m
      ≡ done
          (meaning half
            (is_negative sg)
            nptr
            (chosen_base base xs)
            (digit_prefix (chosen_base base xs) (drop (prefix_length base xs) xs))
            (nptr
              + length ws
              + length (sign_text sg)
              + prefix_length base xs
              + length (digit_prefix (chosen_base base xs) (drop (prefix_length base xs) xs))))
          m
unfolding strtol
strtol-meaning half k nptr base m ws sg xs h str sp other free lt =
    let b = chosen_base base xs in
    let n = prefix_length base xs in
    let p₁ = nptr + length ws in
    let p₂ = p₁ + length (sign_text sg) in
    let at₁ = IsString-drop m nptr p₁ ws (sign_text sg ++ xs) refl str in
    let at₂ = IsString-drop m p₁ p₂ (sign_text sg) xs refl at₁ in
    let at₃ : IsString m (p₂ + n) (drop n xs) = IsString-prefix base p₂ m xs at₂ in
    let short : length (drop n xs) < k = omega (
      arith,
      length-append ws (sign_text sg ++ xs),
      length-append (sign_text sg) xs,
      length-drop n xs,
    ) in
    let top = top_value half (is_negative sg) in
    rw
      (
        skip_spaces_lem k nptr m ws (sign_text sg ++ xs) str sp other
            (omega (arith, length-append ws (sign_text sg ++ xs))),
        read_sign_lem sg _ p₁ (p₁ + 1) m xs at₁ free refl (omega arith),
        read_base_lem base _ p₂ (p₁ + 1 + length (sign_text sg)) m xs at₂ refl (omega arith),
        digit_loop-digit_prefix half b (top / b) (top % b) k (nothing, 0) _ (p₂ + n)
            (p₁ + 1 + length (sign_text sg) + n) m (drop n xs) at₃ short refl (omega arith),
      )
      (ap (λ r. done r m)
        (finish-meaning half (is_negative sg) nptr b _ (digit_prefix b (drop n xs)) h
            (chosen_base_pos base xs) (digit_prefix-lt b (drop n xs))
          ∙ ap (meaning half (is_negative sg) nptr b (digit_prefix b (drop n xs))) (omega arith)))
