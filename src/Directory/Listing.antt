-- ===== src/Directory/Listing.antt =====
-- Reading a directory to its end gives its entries in order.
use aic_lib.Base.{
  ℕ, zero, suc, ◌+◌, ◌≡◌, ◌<◌, ◌≤◌, refl, ap, ◌∙◌, sym, arith, true, false, leb, List, [], ◌∷◌,
  ◌++◌, Option, none, some, length, drop, map, All, length-append, append_assoc, drop-length-append,
}
use aic_lib.Base.Int.{ℤ, pos}
use aic_lib.Directory.{
  Dir, Dirent, DirKernel, buf_size, Reading, value, outside, fill, read_dirent, taken, refill,
  take_entry, readdir,
}
use aic_lib.Directory.Records.{
  Entry, reclen, encode, dirent_of, IsEntry, length-encode, read_dirent-encode,
}

unfoldable pub encode_all : List Entry → List ℕ
encode_all [] = []
encode_all (e ∷ es) = encode e ++ encode_all es

abbrev pub concat : List (List Entry) → List Entry
concat [] = []
concat (b ∷ bs) = b ++ concat bs

-- A batch with an entry is not empty.
size_of : (e : Entry) (es : List Entry) → (n : ℕ) × (length (encode_all (e ∷ es)) ≡ suc n)
unfolding encode_all reclen
size_of e es = (
  19 + length e.name + e.padding + length (encode_all es),
  omega (arith, length-append (encode e) (encode_all es), length-encode e),
)

module _ {W : Type 0} (k : DirKernel W) where
  -- The kernel gives the batches of records one after the other, and then nothing.
  abbrev pub Delivers : ℤ → List (List Entry) → W → Type 0
  Delivers fd [] w =
      (bytes : List ℕ) × (w' : W) × (k.pal_getdents64 fd buf_size w ≡ (pos 0, bytes, w'))
  Delivers fd (b ∷ bs) w =
      (w' : W) × (k.pal_getdents64 fd buf_size w ≡ (pos (length (encode_all b)), encode_all b, w'))
      × (0 < length b)
      × (length (encode_all b) ≤ buf_size)
      × Delivers fd bs w'

  -- The entries in the buffer from the position on, and those that the kernel has yet to deliver.
  abbrev pub Holds : Dir → W → List Entry → List (List Entry) → Type 0
  Holds d w es bs =
      (before : List ℕ) × (after : List ℕ) × (d.buf ≡ before ++ (encode_all es ++ after))
      × (d.buf_pos ≡ length before)
      × (d.buf_end ≡ length before + length (encode_all es))
      × Delivers d.fd bs w

  collect :
      (Dir → W → Option (List Dirent)) → Reading (Option Dirent × Dir × W) → Option (List Dirent)
  collect next outside = none
  collect next (value (none, d, w)) = some []
  collect next (value (some de, d, w)) = elim (next d w) [
    | none ↦ none
    | some rest ↦ some (de ∷ rest)
  ]

  -- Calls of `readdir` until it returns `NULL`; the fuel bounds their number.
  pub list_dir : ℕ → Dir → W → Option (List Dirent)
  unfolding collect
  list_dir zero d w = none
  list_dir (suc n) d w = collect (list_dir n) (readdir k d w)

  refill-held :
      (d : Dir) (w : W) (e : Entry) (es : List Entry) (bs : List (List Entry))
      → Holds d w (e ∷ es) bs
      → refill k d w ≡ (some d, w)
  unfolding refill taken encode_all reclen
  refill-held d w e es bs (before, after, whole, p, q, more) =
      let l = length-append (encode e) (encode_all es) in
      let some_left : leb d.buf_end d.buf_pos ≡ false = ground (arith, l, length-encode e, p, q) in
      rw some_left refl

  refill-next :
      (d : Dir) (w w' : W) (n : ℕ) (bytes : List ℕ)
      → d.buf_pos ≡ d.buf_end
      → k.pal_getdents64 d.fd buf_size w ≡ (pos (suc n), bytes, w')
      → refill k d w
        ≡ (some (record d { buf_end = suc n; buf_pos = 0; buf = fill bytes d.buf }), w')
  unfolding refill taken
  refill-next d w w' n bytes e given =
      let empty : leb d.buf_end d.buf_pos ≡ true = ground (arith, e) in
      rw (empty, given, refill) refl

  refill-end :
      (d : Dir) (w w' : W) (bytes : List ℕ)
      → d.buf_pos ≡ d.buf_end
      → k.pal_getdents64 d.fd buf_size w ≡ (pos 0, bytes, w')
      → refill k d w ≡ (none, w')
  unfolding refill taken
  refill-end d w w' bytes e given =
      let empty : leb d.buf_end d.buf_pos ≡ true = ground (arith, e) in
      rw (empty, given, refill) refl

  readdir-entry :
      (d d' : Dir) (w w' : W) (de : Dirent)
      → refill k d w ≡ (some d', w')
      → read_dirent (drop d'.buf_pos d'.buf) ≡ some de
      → readdir k d w ≡ value (some de, record d' { buf_pos = d'.buf_pos + de.d_reclen }, w')
  unfolding readdir take_entry
  readdir-entry d d' w w' de e f = rw (e, f, readdir, take_entry) refl

  readdir-null :
      (d : Dir) (w w' : W) → refill k d w ≡ (none, w') → readdir k d w ≡ value (none, d, w')
  unfolding readdir take_entry
  readdir-null d w w' e = rw (e, readdir, take_entry) refl

  held-entry :
      (d : Dir) (w : W) (e : Entry) (es : List Entry) (bs : List (List Entry))
      → IsEntry e
      → Holds d w (e ∷ es) bs
      → read_dirent (drop d.buf_pos d.buf) ≡ some (dirent_of e)
  unfolding encode_all
  held-entry d w e es bs ok (before, after, whole, p, q, more) =
      let rest = encode_all es ++ after in
      let here : drop d.buf_pos d.buf ≡ encode e ++ rest =
        ap (λ n. drop n d.buf) p
        ∙ (ap (drop (length before)) whole
            ∙ (drop-length-append before _ ∙ append_assoc (encode e) (encode_all es) after)) in
      ap read_dirent here ∙ read_dirent-encode e rest ok

  held-after :
      (d : Dir) (w : W) (e : Entry) (es : List Entry) (bs : List (List Entry))
      → Holds d w (e ∷ es) bs
      → Holds (record d { buf_pos = d.buf_pos + reclen e }) w es bs
  unfolding encode_all
  held-after d w e es bs (before, after, whole, p, q, more) =
      let l = length-append before (encode e) in
      let l' = length-append (encode e) (encode_all es) in
      let len = length-encode e in
      (
        before ++ encode e,
        after,
        whole
            ∙ (ap (λ ys. before ++ ys) (append_assoc (encode e) (encode_all es) after)
                ∙ sym (append_assoc before (encode e) (encode_all es ++ after))),
        omega (arith, l, len, p),
        omega (arith, l, l', q),
        more,
      )

  -- One more entry is read.
  list_dir-step :
      (n : ℕ) (d d' : Dir) (w w' : W) (e : Entry) (rest : List Dirent)
      → refill k d w ≡ (some d', w')
      → read_dirent (drop d'.buf_pos d'.buf) ≡ some (dirent_of e)
      → list_dir n (record d' { buf_pos = d'.buf_pos + reclen e }) w' ≡ some rest
      → list_dir (suc n) d w ≡ some (dirent_of e ∷ rest)
  unfolding list_dir dirent_of
  list_dir-step n d d' w w' e rest r here next =
      rw (readdir-entry d d' w w' (dirent_of e) r here, next, list_dir, collect) refl

  drained :
      (d : Dir) (before : List ℕ)
      → d.buf_pos ≡ length before
      → d.buf_end ≡ length before + length (encode_all [])
      → d.buf_pos ≡ d.buf_end
  unfolding encode_all
  drained d before p q = omega (arith, p, q)

  list_dir-held :
      (n : ℕ) (d : Dir) (w : W) (es : List Entry) (bs : List (List Entry))
      → length (es ++ concat bs) < n
      → All IsEntry (es ++ concat bs)
      → Holds d w es bs
      → list_dir n d w ≡ some (map dirent_of (es ++ concat bs))
  unfolding list_dir encode_all fill
  list_dir-held zero d w es bs lt ok h = absurd (omega (arith, lt))
  list_dir-held (suc n) d w (e ∷ es) bs lt ok h =
      list_dir-step n d d w w e _ (refill-held d w e es bs h) (held-entry d w e es bs ok.0 h)
        (list_dir-held n _ w es bs (omega (arith, lt)) ok.1 (held-after d w e es bs h))
  list_dir-held (suc n) d w [] [] lt ok (before, after, whole, p, q, (bytes, w', given)) =
      rw
        (
          readdir-null d w w' (refill-end d w w' bytes (drained d before p q) given),
          list_dir,
          collect,
        )
        refl
  list_dir-held (suc n) d w [] ([] ∷ bs) lt ok (before, after, whole, p, q, more) =
      absurd (omega (arith, more.2))
  list_dir-held (suc n) d w [] ((e ∷ es) ∷ bs) lt ok (before, after, whole, p, q, more) =
      let (w', given, nonempty, room, later) = more in
      let (n', size) = size_of e es in
      let d' = record d { buf_end = suc n'; buf_pos = 0; buf = fill (encode_all (e ∷ es)) d.buf } in
      let h : Holds d' w' (e ∷ es) bs =
        ([], drop (length (encode_all (e ∷ es))) d.buf, refl, refl, omega (arith, size), later) in
      list_dir-step n d d' w w' e _
        (refill-next d w w' n' (encode_all (e ∷ es)) (drained d before p q)
          (given ∙ ap (λ m. (pos m, encode_all (e ∷ es), w')) size))
        (held-entry d' w' e es bs ok.0 h)
        (list_dir-held n _ w' es bs (omega (arith, lt)) ok.1 (held-after d' w' e es bs h))

  -- Where the kernel gives batches of directory records, each of at least one and no
  -- longer than the buffer, and then nothing,
  -- reading a stream with an empty buffer to its end takes one call of `readdir` for each record
  -- and one more, touches nothing outside the buffer, and returns all the entries in order, each
  -- with its numbers and its name.
  pub list_dir-entries :
      (d : Dir) (w : W) (bs : List (List Entry))
      → d.buf_pos ≡ 0
      → d.buf_end ≡ 0
      → All IsEntry (concat bs)
      → Delivers d.fd bs w
      → list_dir (suc (length (concat bs))) d w ≡ some (map dirent_of (concat bs))
  unfolding encode_all
  list_dir-entries d w bs p q ok given =
      list_dir-held (suc (length (concat bs))) d w [] bs (omega arith) ok
        ([], d.buf, refl, p, q, given)
