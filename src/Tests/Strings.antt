-- ===== src/Tests/Strings.antt =====
-- Strings and blocks.
use aic_lib.Base.{
  get_elem?-past, length, take, ◌-◌, Bool-cases, if◌then◌else◌, ltb, ℕ, ◌+◌, ◌≡◌, ◌≢◌, ◌⊎◌, refl,
  arith, List, [], ◌∷◌, Option, none, some, inl, inr, ◌≤◌, ◌++◌,
}
use aic_lib.Base.Int.{ℤ}
use aic_lib.Memory.{Ptr, Memory, done, null, Cmd}
use aic_lib.Memory.Ends.{Ends, ends}
use aic_lib.Tokens.{strtok}
use aic_lib.Tokens.Token.{trimmed, token_length, cut, strtok-token}
use aic_lib.Memory.Region.{IsString, SameOutside}
use aic_lib.CString.{strcmp, strstr}
use aic_lib.Environment.{getenv}
use aic_lib.Environment.First.{PointsTo, getenv-PointsTo}
use aic_lib.CString.Compare.{Compares, strcmp-Compares}
use aic_lib.CString.Search.{strstr-FirstPlace, FirstPlace, at_index}
use aic_lib.CString.Span.{member, span}
use aic_lib.Block.{memmove}
use aic_lib.Block.Copy.{Copied, memmove-Copied}
use aic_lib.StringCopy.{strcat}
use aic_lib.StringCopy.Overwrite.{strcat-append}
use aic_lib.StringCopy.Duplicate.{Allocated}
use aic_lib.Tests.Store.{blocks, is_string_sound, is_mapped_sound}

-- "hello" and "lo".
abbrev hello : List ℕ
hello = b'h' ∷ b'e' ∷ b'l' ∷ b'l' ∷ b'o' ∷ []

abbrev lo : List ℕ
lo = b'l' ∷ b'o' ∷ []

abbrev two : Memory
two =
    blocks (b'h' ∷ b'e' ∷ b'l' ∷ b'l' ∷ b'o' ∷ 0 ∷ 7 ∷ 7 ∷ 7 ∷ [])
      (b'l' ∷ b'o' ∷ 0 ∷ 7 ∷ 7 ∷ 7 ∷ [])

hello_there : IsString two 100 hello
hello_there = is_string_sound two 100 hello refl

lo_there : IsString two 200 lo
lo_there = is_string_sound two 200 lo refl

strcmp-Compares_example : (r : ℤ) × (strcmp 6 100 200 two ≡ done r two) × Compares hello lo r
strcmp-Compares_example = strcmp-Compares 6 100 200 two hello lo hello_there lo_there (omega arith)

strstr-FirstPlace_example :
    (o : Option ℕ) × (strstr 6 100 200 two ≡ done (at_index 100 o) two) × FirstPlace lo hello o
strstr-FirstPlace_example =
    strstr-FirstPlace 6 100 200 two hello lo hello_there lo_there (omega arith)

memmove-Copied_example : Ends (λ p m'. (p ≡ 102) × Copied 102 100 5 two m') (memmove 102 100 5 two)
memmove-Copied_example =
    memmove-Copied 102 100 5 two (is_mapped_sound two 100 5 refl) (is_mapped_sound two 102 5 refl)

strcat-append_example :
    Ends
      (λ p m'. (p ≡ 100) × IsString m' 100 (hello ++ lo) × SameOutside 105 3 two m')
      (strcat 6 100 200 two)
strcat-append_example =
    strcat-append 6 100 200 two hello lo hello_there lo_there (omega arith) (omega arith)
      (is_mapped_sound two 105 3 refl) (inl (omega arith))

-- An allocator that maps fresh bytes from 300 on.
abbrev fresh : ℕ → Cmd Ptr
fresh n m = done 300 (λ q. if ltb q 300 then m q else if ltb q (300 + n) then some 0 else m q)

nothing_behind : (q : Ptr) → 300 ≤ q → two q ≡ none
nothing_behind q h =
    ground (arith, get_elem?-past {A = ℕ} (b'l' ∷ b'o' ∷ 0 ∷ 7 ∷ 7 ∷ 7 ∷ []) (q - 200))

fresh_kept :
    (q : Ptr)
    → two q ≢ none
    → (if ltb q 300 then two q else if ltb q 306 then some 0 else two q) ≡ two q
fresh_kept q h = elim (Bool-cases (ltb q 300)) [
  | inl below ↦ rw below refl
  | inr above ↦ absurd (h (nothing_behind q (ground arith)))
]

fresh_allocates : Ends (Allocated 6 two) (fresh 6 two)
fresh_allocates = ends (record {
  kept = fresh_kept;
  block = inr (is_mapped_sound _ 300 6 refl, λ q lo hi. nothing_behind q lo);
})

-- The token "he" of "hello" with the delimiters "lo".
strtok-token_example :
    ((length (trimmed lo hello) ≡ 0) × (strtok 9 0 100 200 two ≡ done (null, null) two))
    ⊎ ((length (trimmed lo hello) ≢ 0)
        × (strtok 9 0 100 200 two ≡ done (100, 103) (cut lo hello 100 two))
        × IsString (cut lo hello 100 two) 100 (take (token_length lo hello) (trimmed lo hello)))
unfolding span member
strtok-token_example =
    strtok-token 9 0 100 200 two hello lo (λ e. ground arith) hello_there lo_there (omega arith)

-- The environment "B=2", "A=1", and the name "A".
abbrev variables : Memory
variables = blocks (b'B' ∷ b'=' ∷ b'2' ∷ 0 ∷ b'A' ∷ b'=' ∷ b'1' ∷ 0 ∷ []) (b'A' ∷ 0 ∷ [])

getenv-PointsTo_example :
    (r : Option Ptr) × (getenv 2 (some (100 ∷ 104 ∷ [])) (some 200) variables ≡ done r variables)
    × PointsTo variables (some (b'1' ∷ [])) r
getenv-PointsTo_example =
    getenv-PointsTo variables 2 (100 ∷ 104 ∷ [])
      ((b'B' ∷ b'=' ∷ b'2' ∷ []) ∷ (b'A' ∷ b'=' ∷ b'1' ∷ []) ∷ []) 200 (b'A' ∷ [])
      (
        is_string_sound variables 100 (b'B' ∷ b'=' ∷ b'2' ∷ []) refl,
        (is_string_sound variables 104 (b'A' ∷ b'=' ∷ b'1' ∷ []) refl, tt),
      )
      (is_string_sound variables 200 (b'A' ∷ []) refl) (omega arith)
