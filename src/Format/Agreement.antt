-- ===== src/Format/Agreement.antt =====
-- The flags and the length modifier that vsnprintf.c reads against their meaning.
pub mod Width
pub mod Digits
use aic_lib.Base.{
  ℕ, ◌+◌, ◌-◌, ◌%◌, ◌^◌, ◌≤◌, ◌≡◌, refl, arith, Bool, true, false, not, ◌&&◌, ◌==◌, ltb, leb, min,
  if◌then◌else◌, List, [], ◌∷◌, ◌++◌, Option, none, some, length, replicate, ◌∙◌, sym, ap, inl, inr,
  Bool-cases, ==_iff,
}
use mathlib.Core.Path.{subst}
use aic_lib.Format.Integer.{Flags, prefix_of, number_text}
use aic_lib.Format.Number.{int_max}
use aic_lib.Format.Field.{
  Arg, word, text, real, Rest, no_flags, parse_flags, parse_width, parse_precision, dot_precision,
  int_arg, Length, length_none, length_hh, length_h, length_l, length_ll, length_j, length_z,
  length_t, length_ldbl, parse_length, bits,
}
use aic_lib.Format.Driver.{magnitude, is_negative}
use aic_lib.Format.Number.Decimal.{parse_format_int-decimal}
use aic_lib.Format.Meaning.{
  has, flag_bytes, flag_run, behind_flags, add_flags, given_flags, digit_run, behind_digits,
  decimal, star_arg, star_width, given_width, star_precision, given_precision, behind_dot,
  below_zero, absolute, front_text, digits_text, sign_text, mark_text, length_modifier, type_bits,
}

if_true : (b : Bool) → (if b then true else true) ≡ true
if_true true = refl
if_true false = refl

-- The flags at the front.
abbrev ReadsFlags : List ℕ → Type 0
ReadsFlags format =
    (fl : Flags) → parse_flags format fl ≡ (add_flags fl (flag_run format), behind_flags format)

at_byte :
    (c x : ℕ) (format : List ℕ)
    → (c == x) ≡ true
    → ReadsFlags (x ∷ format)
    → ReadsFlags (c ∷ format)
at_byte c x format e h = subst (λ y. ReadsFlags (y ∷ format)) (sym ((==_iff c x).0 e)) h

-- One byte more.
one_byte : (c : ℕ) (format : List ℕ) → ReadsFlags format → ReadsFlags (c ∷ format)
unfolding parse_flags flag_run behind_flags
one_byte c format ih = elim (Bool-cases (c == b'-')) [
  | inl is ↦ at_byte c b'-' format is (λ fl.
      ih (record fl { left = true })
      ∙ ap (λ x. (record (add_flags fl (flag_run format)) { left = x }, behind_flags format))
          (if_true (has (flag_run format) b'-')))
  | inr n0 ↦ elim (Bool-cases (c == b'+')) [
    | inl is ↦ at_byte c b'+' format is (λ fl.
        ih (record fl { plus = true })
        ∙ ap (λ x. (record (add_flags fl (flag_run format)) { plus = x }, behind_flags format))
            (if_true (has (flag_run format) b'+')))
    | inr n1 ↦ elim (Bool-cases (c == b' ')) [
      | inl is ↦ at_byte c b' ' format is (λ fl.
          ih (record fl { space = true })
          ∙ ap (λ x. (record (add_flags fl (flag_run format)) { space = x }, behind_flags format))
              (if_true (has (flag_run format) b' ')))
      | inr n2 ↦ elim (Bool-cases (c == b'0')) [
        | inl is ↦ at_byte c b'0' format is (λ fl.
            ih (record fl { zero_pad = true })
            ∙ ap
                (λ x.
                  (record (add_flags fl (flag_run format)) { zero_pad = x }, behind_flags format))
                (if_true (has (flag_run format) b'0')))
        | inr n3 ↦ elim (Bool-cases (c == b'#')) [
          | inl is ↦ at_byte c b'#' format is (λ fl.
              ih (record fl { hash = true })
              ∙ ap
                  (λ x. (record (add_flags fl (flag_run format)) { hash = x }, behind_flags format))
                  (if_true (has (flag_run format) b'#')))
          | inr n4 ↦ elim (Bool-cases (c == 39)) [
            | inl is ↦ at_byte c 39 format is (λ fl.
                ih (record fl { group = true })
                ∙ ap
                    (λ x.
                      (record (add_flags fl (flag_run format)) { group = x }, behind_flags format))
                    (if_true (has (flag_run format) 39)))
            | inr n5 ↦ λ fl.
                let none_of : has flag_bytes c ≡ false = ground arith in
                rw (parse_flags, n0, n1, n2, n3, n4, n5, none_of) refl
          ]
        ]
      ]
    ]
  ]
]

parse_flags-add_flags : (format : List ℕ) → ReadsFlags format
unfolding parse_flags flag_run behind_flags
parse_flags-add_flags [] fl = refl
parse_flags-add_flags (c ∷ format) fl = one_byte c format (parse_flags-add_flags format) fl

if_id : (b : Bool) → (if b then true else false) ≡ b
if_id true = refl
if_id false = refl

pub parse_flags-given_flags :
    (format : List ℕ)
    → parse_flags format no_flags ≡ (given_flags (flag_run format), behind_flags format)
parse_flags-given_flags format =
    let run = flag_run format in
    parse_flags-add_flags format no_flags
    ∙ rw
        (
          if_id (has run b'-'),
          if_id (has run b'+'),
          if_id (has run b' '),
          if_id (has run b'0'),
          if_id (has run b'#'),
          if_id (has run 39),
        )
        refl

-- A byte is one of the six of a length modifier, or none of them.
modifier_cases :
    (P : ℕ → Type 0) (c : ℕ)
    → P b'h'
    → P b'l'
    → P b'j'
    → P b'z'
    → P b't'
    → P b'L'
    → (has (b'j' ∷ b'z' ∷ b't' ∷ b'h' ∷ b'l' ∷ b'L' ∷ []) c ≡ false
        → (c == b'h') ≡ false
        → (c == b'l') ≡ false
        → (c == b'j') ≡ false
        → (c == b'z') ≡ false
        → (c == b't') ≡ false
        → (c == b'L') ≡ false
        → P c)
    → P c
modifier_cases P c ph pl pj pz pt pL other = elim (Bool-cases (c == b'h')) [
  | inl is ↦ subst P (sym ((==_iff c b'h').0 is)) ph
  | inr n0 ↦ elim (Bool-cases (c == b'l')) [
    | inl is ↦ subst P (sym ((==_iff c b'l').0 is)) pl
    | inr n1 ↦ elim (Bool-cases (c == b'j')) [
      | inl is ↦ subst P (sym ((==_iff c b'j').0 is)) pj
      | inr n2 ↦ elim (Bool-cases (c == b'z')) [
        | inl is ↦ subst P (sym ((==_iff c b'z').0 is)) pz
        | inr n3 ↦ elim (Bool-cases (c == b't')) [
          | inl is ↦ subst P (sym ((==_iff c b't').0 is)) pt
          | inr n4 ↦ elim (Bool-cases (c == b'L')) [
            | inl is ↦ subst P (sym ((==_iff c b'L').0 is)) pL
            | inr n5 ↦ other (ground arith) n0 n1 n2 n3 n4 n5
          ]
        ]
      ]
    ]
  ]
]

pub parse_length-length_modifier : (format : List ℕ) → parse_length format ≡ length_modifier format
unfolding parse_length length_modifier
parse_length-length_modifier [] = refl
parse_length-length_modifier (c ∷ []) =
    modifier_cases (λ x. parse_length (x ∷ []) ≡ length_modifier (x ∷ [])) c refl refl refl refl
      refl refl (λ no n0 n1 n2 n3 n4 n5. rw (no, n0, n1, n2, n3, n4, n5) refl)
parse_length-length_modifier (c ∷ d ∷ format) =
    modifier_cases (λ x. parse_length (x ∷ d ∷ format) ≡ length_modifier (x ∷ d ∷ format)) c
      (elim (Bool-cases (d == b'h')) [ inl two ↦ rw two refl | inr one ↦ rw one refl ])
      (elim (Bool-cases (d == b'l')) [ inl two ↦ rw two refl | inr one ↦ rw one refl ]) refl refl
      refl refl (λ no n0 n1 n2 n3 n4 n5. rw (no, n0, n1, n2, n3, n4, n5) refl)
