-- ===== src/Stdio/File/Input.antt =====
-- `fread` and `fgets` against the text that a stream still has to give.
use aic_lib.Base.{
  ℕ, zero, suc, ◌-◌, ◌*◌, ◌/◌, ◌^◌, ◌<◌, ◌≡◌, refl, arith, List, [], ◌∷◌, ◌++◌, Option, none, some,
  true, false, ◌==◌, take, drop, length, if◌then◌else◌, ap, ◌∙◌, inl, inr, Bool-cases,
}
use mathlib.Core.Path.{subst}
use native.Mathlib.Nat.{mod-eq_of_lt}
use aic_lib.Base.Int.{ℤ}
use aic_lib.Stdio.File.{Pal, Files}
use aic_lib.Stdio.File.Stream.{fgetc, fgets, fgets_loop, fread, fread_loop}
use aic_lib.Stdio.File.Reading.{Readable, upcoming, OnFile, Takes, fgetc-Takes}

-- The text up to its first newline, which counts, and no more than `n` bytes.
abbrev pub line : ℕ → List ℕ → List ℕ
line zero text = []
line (suc n) [] = []
line (suc n) (c ∷ cs) = if c == 10 then c ∷ [] else (c ∷ line n cs)

-- What `fgets` returns for the bytes stored.
abbrev pub terminated : List ℕ → Option (List ℕ)
terminated [] = none
terminated (c ∷ cs) = some (c ∷ cs ++ 0 ∷ [])

ne : (m n : ℕ) → n < m → (m == n) ≡ false
ne m n h = ground arith

get_some : {x y : ℕ} → some x ≡ some y → x ≡ y
get_some e = ground arith

module _ {W : Type 0} (pal : Pal W) (fd : ℤ) (contents : W → List ℕ) (i : ℕ) where
  -- Several calls have taken the first `n` bytes, or all there are.
  abbrev Gets : ℕ → List ℕ → List ℕ × Files W → Type 0
  Gets n text (bytes, s') =
      (bytes ≡ take n text)
      × (upcoming pal fd contents i s' ≡ drop n text)
      × OnFile pal fd contents i s'

  -- They have taken a line.
  abbrev GetsLine : ℕ → List ℕ → List ℕ × Files W → Type 0
  GetsLine n text (bytes, s') =
      (bytes ≡ line n text)
      × (upcoming pal fd contents i s' ≡ drop (length (line n text)) text)
      × OnFile pal fd contents i s'

  module _ (readable : Readable pal fd contents) where
    fread_more :
        (n : ℕ) (text : List ℕ) (o : Option ℕ) (s : Files W)
        → Takes pal fd contents i text (o, s)
        → Gets n (upcoming pal fd contents i s) (fread_loop pal i n s)
        → Gets (suc n) text (elim o [
          | none ↦ ([], s)
          | some c ↦ (c ∷ (fread_loop pal i n s).0, (fread_loop pal i n s).1)
        ])
    fread_more n [] none s (e, left, on) ih = (refl, left, on)
    fread_more n [] (some c) s (e, left, on) ih = ground arith
    fread_more n (d ∷ text) none s (e, left, on) ih = ground arith
    fread_more n (d ∷ text) (some c) s (e, left, on) (same, rest, on') =
        (cc, rest ∙ ap (drop n) left, on')

    fread_loop-take :
        (n : ℕ) (s : Files W)
        → OnFile pal fd contents i s
        → Gets n (upcoming pal fd contents i s) (fread_loop pal i n s)
    unfolding fread_loop
    fread_loop-take zero s on = (refl, refl, on)
    fread_loop-take (suc n) s on =
        let t = fgetc-Takes pal fd contents i readable s on in
        fread_more n (upcoming pal fd contents i s) (fgetc pal (some i) s).0
          (fgetc pal (some i) s).1 t (fread_loop-take n (fgetc pal (some i) s).1 t.2)

    fread_items :
        (size nmemb : ℕ) (s : Files W)
        → 0 < size
        → 0 < nmemb
        → size * nmemb < 2 ^ 64
        → fread pal true size nmemb (some i) s ≡ (
          (
            length (fread_loop pal i (size * nmemb) s).0 / size,
            (fread_loop pal i (size * nmemb) s).0,
          ),
          (fread_loop pal i (size * nmemb) s).1,
        )
    unfolding fread
    fread_items size nmemb s some_size some_items small = rw (mod-eq_of_lt small) (ground arith)

    -- `fread` with a buffer and items of at least one byte, the total of which does not wrap, stores
    -- the next bytes of the text, as many as asked for or as there are, leaves the rest, and returns
    -- the number of whole items.
    pub fread-take :
        (size nmemb : ℕ) (s : Files W)
        → OnFile pal fd contents i s
        → 0 < size
        → 0 < nmemb
        → size * nmemb < 2 ^ 64
        → ((fread pal true size nmemb (some i) s).0 ≡ (
          length (take (size * nmemb) (upcoming pal fd contents i s)) / size,
          take (size * nmemb) (upcoming pal fd contents i s),
        ))
          × (upcoming pal fd contents i (fread pal true size nmemb (some i) s).1
              ≡ drop (size * nmemb) (upcoming pal fd contents i s))
          × OnFile pal fd contents i (fread pal true size nmemb (some i) s).1
    fread-take size nmemb s on some_size some_items small =
        let (same, left, on') = fread_loop-take (size * nmemb) s on in
        rw (fread_items size nmemb s some_size some_items small, same) (refl, left, on')

    fgets_more :
        (n : ℕ) (text : List ℕ) (o : Option ℕ) (s : Files W)
        → Takes pal fd contents i text (o, s)
        → GetsLine n (upcoming pal fd contents i s) (fgets_loop pal i n s)
        → GetsLine (suc n) text (elim o [
          | none ↦ ([], s)
          | some c ↦
              if c == 10
              then (c ∷ [], s)
              else (c ∷ (fgets_loop pal i n s).0, (fgets_loop pal i n s).1)
        ])
    fgets_more n [] none s (e, left, on) ih = (refl, left, on)
    fgets_more n [] (some c) s (e, left, on) ih = ground arith
    fgets_more n (d ∷ text) none s (e, left, on) ih = ground arith
    fgets_more n (d ∷ text) (some c) s (e, left, on) ih =
        let (same, rest, on') = subst (λ t. GetsLine n t (fgets_loop pal i n s)) left ih in
        rw (get_some e) (elim (Bool-cases (d == 10)) [
          | inl nl ↦ rw nl (refl, left, on)
          | inr other ↦ rw other (ap (λ xs. d ∷ xs) same, rest, on')
        ])

    fgets_loop-line :
        (n : ℕ) (s : Files W)
        → OnFile pal fd contents i s
        → GetsLine n (upcoming pal fd contents i s) (fgets_loop pal i n s)
    unfolding fgets_loop
    fgets_loop-line zero s on = (refl, refl, on)
    fgets_loop-line (suc n) s on =
        let t = fgetc-Takes pal fd contents i readable s on in
        fgets_more n (upcoming pal fd contents i s) (fgetc pal (some i) s).0
          (fgetc pal (some i) s).1 t (fgets_loop-line n (fgetc pal (some i) s).1 t.2)

    ends_with :
        (bytes : List ℕ) (s : Files W)
        → ◌≡◌ {A = Option (List ℕ) × Files W}
            (elim bytes [ [] ↦ (none, s) | c ∷ cs ↦ (some (c ∷ cs ++ 0 ∷ []), s) ])
            (terminated bytes, s)
    ends_with [] s = refl
    ends_with (c ∷ cs) s = refl

    fgets_stores :
        (size : ℕ) (s : Files W)
        → 1 < size
        → fgets pal true size (some i) s
          ≡ (terminated (fgets_loop pal i (size - 1) s).0, (fgets_loop pal i (size - 1) s).1)
    unfolding fgets
    fgets_stores size s lt =
        rw ((ne size 0 (omega arith)), (ne size 1 (omega arith)))
          (ends_with (fgets_loop pal i (size - 1) s).0 (fgets_loop pal i (size - 1) s).1)

    -- `fgets` into a buffer of at least two bytes takes the text up to the first newline, which it
    -- takes too, but no more bytes than one less than the size, and leaves the rest. It stores those
    -- bytes and a terminator, or returns `NULL` if there are none.
    pub fgets-line :
        (size : ℕ) (s : Files W)
        → OnFile pal fd contents i s
        → 1 < size
        → ((fgets pal true size (some i) s).0
            ≡ terminated (line (size - 1) (upcoming pal fd contents i s)))
          × (upcoming pal fd contents i (fgets pal true size (some i) s).1
              ≡ drop
                  (length (line (size - 1) (upcoming pal fd contents i s)))
                  (upcoming pal fd contents i s))
          × OnFile pal fd contents i (fgets pal true size (some i) s).1
    fgets-line size s on lt =
        let (same, left, on') = fgets_loop-line (size - 1) s on in
        rw (fgets_stores size s lt, same) (refl, left, on')
