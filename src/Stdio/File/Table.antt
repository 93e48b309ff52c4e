-- ===== src/Stdio/File/Table.antt =====
-- `fopen` and `fclose` on the table of open files: which entry is taken and what a full table
-- does.
use aic_lib.Base.{
  ℕ, zero, suc, ◌+◌, ◌<◌, ◌≡◌, refl, arith, map, if◌then◌else◌, List, [], ◌∷◌, Option, none, some,
  Bool, true, false, get_or, set, length, length-set, get_or-set_ne, get_or-set_self, set-set, ap,
  ◌∙◌, sym, inl, inr, Bool-cases,
}
use mathlib.Core.Path.{subst}
use aic_lib.Base.Int.{ℤ, pos, negsuc, ltb_ℤ}
use aic_lib.Stdio.File.{
  FileImpl, Pal, Files, Errno, emfile, zero_entry, entry, update, is_closed, open_entry, closed,
  mode_flags, free_entry, reset_entry, init_file_table, install, fopen_fd, fopen, fdopen, fclose,
}

-- What the search from index `i` on finds.
pub data FirstFree (fs : List FileImpl) : Option ℕ → Type 0 where
  found :
      (i : ℕ)
      → i < length fs
      → is_closed (get_or fs i zero_entry) ≡ true
      → ((j : ℕ) → j < i → is_closed (get_or fs j zero_entry) ≡ false)
      → FirstFree fs (some i)
  full : ((j : ℕ) → j < length fs → is_closed (get_or fs j zero_entry) ≡ false) → FirstFree fs none

-- An open entry in front.
later :
    (f : FileImpl) (fs : List FileImpl) (k : ℕ)
    → is_closed f ≡ false
    → ((j : ℕ) → j < k → is_closed (get_or fs j zero_entry) ≡ false)
    → (j : ℕ) → j < suc k
    → is_closed (get_or (f ∷ fs) j zero_entry) ≡ false
later f fs k e h zero lt = e
later f fs k e h (suc j) lt = h j (omega arith)

abbrev counted_from : ℕ → Option ℕ → Option ℕ
counted_from i none = none
counted_from i (some k) = some (k + i)

from_zero : (o : Option ℕ) → counted_from 0 o ≡ o
from_zero none = refl
from_zero (some k) = ap some (omega arith)

-- The search goes on behind an open entry.
in_the_rest :
    (f : FileImpl) (fs : List FileImpl) (i : ℕ)
    → is_closed f ≡ false
    → (o : Option ℕ) × FirstFree fs o × (free_entry fs (i + 1) ≡ counted_from (i + 1) o)
    → free_entry (f ∷ fs) i ≡ free_entry fs (i + 1)
    → (o : Option ℕ) × FirstFree (f ∷ fs) o × (free_entry (f ∷ fs) i ≡ counted_from i o)
in_the_rest f fs i e (o, full h, q) step = (none, full (later f fs (length fs) e h), step ∙ q)
in_the_rest f fs i e (o, found k lt c h, q) step = (
  some (suc k),
  found (suc k) (omega arith) c (later f fs k e h),
  step ∙ q ∙ ap some (omega arith),
)

free_entry-FirstFree :
    (fs : List FileImpl) (i : ℕ)
    → (o : Option ℕ) × FirstFree fs o × (free_entry fs i ≡ counted_from i o)
unfolding free_entry
free_entry-FirstFree [] i = (none, full (λ j lt. elim lt [ ]), refl)
free_entry-FirstFree (f ∷ fs) i = elim (Bool-cases (is_closed f)) [
  | inl e ↦ (some 0, found 0 (omega arith) e (λ j lt. absurd (omega arith)), ground arith)
  | inr e ↦ in_the_rest f fs i e (free_entry-FirstFree fs (i + 1)) (ground arith)
]

-- The modes and the flags of open(2) for them: O_WRONLY 1, O_RDWR 2, O_CREAT 0100, O_TRUNC 01000 and
-- O_APPEND 02000.
pub data IsMode : List ℕ → ℕ → Type 0 where
  mode_r : IsMode (b'r' ∷ []) 0
  mode_rb : IsMode (b'r' ∷ b'b' ∷ []) 0
  mode_w : IsMode (b'w' ∷ []) 0o1101
  mode_wb : IsMode (b'w' ∷ b'b' ∷ []) 0o1101
  mode_a : IsMode (b'a' ∷ []) 0o2101
  mode_ab : IsMode (b'a' ∷ b'b' ∷ []) 0o2101
  mode_r_plus : IsMode (b'r' ∷ b'+' ∷ []) 2
  mode_rb_plus : IsMode (b'r' ∷ b'+' ∷ b'b' ∷ []) 2
  mode_w_plus : IsMode (b'w' ∷ b'+' ∷ []) 0o1102
  mode_wb_plus : IsMode (b'w' ∷ b'+' ∷ b'b' ∷ []) 0o1102
  mode_a_plus : IsMode (b'a' ∷ b'+' ∷ []) 0o2102
  mode_ab_plus : IsMode (b'a' ∷ b'+' ∷ b'b' ∷ []) 0o2102

mode_flags-IsMode : {mode : List ℕ} {flags : ℕ} → IsMode mode flags → mode_flags mode ≡ some flags
unfolding mode_flags
mode_flags-IsMode mode_r = refl
mode_flags-IsMode mode_rb = refl
mode_flags-IsMode mode_w = refl
mode_flags-IsMode mode_wb = refl
mode_flags-IsMode mode_a = refl
mode_flags-IsMode mode_ab = refl
mode_flags-IsMode mode_r_plus = refl
mode_flags-IsMode mode_rb_plus = refl
mode_flags-IsMode mode_w_plus = refl
mode_flags-IsMode mode_wb_plus = refl
mode_flags-IsMode mode_a_plus = refl
mode_flags-IsMode mode_ab_plus = refl

-- An entry of an open file.
abbrev pub filled : ℤ → ℕ → FileImpl → FileImpl
filled fd flags f = record {
  fd = fd;
  flags = flags;
  error = false;
  eof = false;
  ungetc_buf = f.ungetc_buf;
  ungetc_count = 0;
}

module _ {W : Type 0} (pal : Pal W) where
  -- The end of a `fopen` or `fdopen` that has the descriptor, with the entries of state `s`.
  pub data Opened (s : Files W) (fd : ℤ) (flags : ℕ) (full_end : Files W)
      : Option ℕ × Files W → Type 0 where
    opened :
        (i : ℕ)
        → FirstFree s.table (some i)
        → Opened s fd flags full_end (some i, update s i (filled fd flags (entry s i)))
    no_room : FirstFree s.table none → Opened s fd flags full_end (none, full_end)

  settled :
      (s : Files W) (fd : ℤ) (flags : ℕ) (full_end : Files W)
      → Opened s fd flags full_end (elim (free_entry s.table 0) [
        | none ↦ (none, full_end)
        | some i ↦ install pal s fd flags (some i)
      ])
  unfolding install
  settled s fd flags full_end = settled_at (free_entry-FirstFree s.table 0)
    where
      settled_at :
          (o : Option ℕ) × FirstFree s.table o × (free_entry s.table 0 ≡ counted_from 0 o)
          → Opened s fd flags full_end (elim (free_entry s.table 0) [
            | none ↦ (none, full_end)
            | some i ↦ install pal s fd flags (some i)
          ])
      settled_at (none, free, q) = rw (q ∙ from_zero none) (no_room free)
      settled_at (some i, free, q) = rw (q ∙ from_zero (some i)) (opened i free)

  fopen_fd_open :
      (s : Files W) (flags : ℕ) (fd : ℤ) (w : W)
      → ltb_ℤ fd (pos 0) ≡ false
      → fopen_fd pal flags (fd, w) s
        ≡ elim (free_entry (init_file_table pal (record s { world = w })).table 0) [
          | none ↦ (
            none,
            (record (init_file_table pal (record s { world = w })) {
              errno = emfile;
              world = pal.pal_close fd (init_file_table pal (record s { world = w })).world;
            }),
          )
          | some i ↦ install pal (init_file_table pal (record s { world = w })) fd flags (some i)
        ]
  unfolding fopen_fd
  fopen_fd_open s flags fd w e = rw e refl

  fopen_open :
      (pathname mode : List ℕ) (s : Files W) (flags : ℕ) (fd : ℤ) (w : W)
      → mode_flags mode ≡ some flags
      → pal.pal_open pathname flags 0o644 s.world ≡ (fd, w)
      → ltb_ℤ fd (pos 0) ≡ false
      → fopen pal pathname (some mode) s
        ≡ elim (free_entry (init_file_table pal (record s { world = w })).table 0) [
          | none ↦ (
            none,
            (record (init_file_table pal (record s { world = w })) {
              errno = emfile;
              world = pal.pal_close fd (init_file_table pal (record s { world = w })).world;
            }),
          )
          | some i ↦ install pal (init_file_table pal (record s { world = w })) fd flags (some i)
        ]
  unfolding fopen
  fopen_open pathname mode s flags fd w e₁ e₂ e₃ =
      rw (e₁, fopen) (ap (λ r. fopen_fd pal flags r s) e₂) ∙ fopen_fd_open s flags fd w e₃

  -- The state with the table set up: if it was not, each of its entries is closed and has no bytes
  -- pushed back.
  abbrev pub ready : Files W → W → Files W
  ready s w = record {
    table =
        if s.initialized
        then s.table
        else map {A = FileImpl} (λ f. record f { fd = negsuc 0; ungetc_count = 0 }) s.table;
    initialized = true;
    errno = s.errno;
    world = w;
  }

  init-ready :
      (t : List FileImpl) (b : Bool) (e : Errno) (w₀ w : W)
      → init_file_table pal (record { table = t; initialized = b; errno = e; world = w })
        ≡ ready (record { table = t; initialized = b; errno = e; world = w₀ }) w
  unfolding init_file_table reset_entry
  init-ready t true e w₀ w = refl
  init-ready t false e w₀ w = refl

  init_file_table-ready :
      (s : Files W) (w : W) → init_file_table pal (record s { world = w }) ≡ ready s w
  init_file_table-ready s w = init-ready s.table s.initialized s.errno s.world w

  -- For one of the twelve modes, where the kernel opens the file with the flags of the mode: `fopen`
  -- sets the table up if that was not done, and takes its first closed entry, whose number it
  -- returns and which it fills in, all other entries staying as they are. If every entry is open, it
  -- closes the descriptor again, sets `errno` to `EMFILE` and returns `NULL`.
  pub fopen-Opened :
      (pathname mode : List ℕ) (s : Files W) (flags n : ℕ) (w : W)
      → IsMode mode flags
      → pal.pal_open pathname flags 0o644 s.world ≡ (pos n, w)
      → Opened
          (ready s w)
          (pos n)
          flags
          (record (ready s w) { errno = emfile; world = pal.pal_close (pos n) w })
          (fopen pal pathname (some mode) s)
  fopen-Opened pathname mode s flags n w is_mode opens =
      let start =
        fopen_open pathname mode s flags (pos n) w (mode_flags-IsMode is_mode) opens
          (ground arith) in
      subst (Opened (ready s w) (pos n) flags _)
        (sym (
          start
          ∙ ap
              (λ (t : Files W). elim (free_entry t.table 0) [
                | none ↦
                    (none, (record t { errno = emfile; world = pal.pal_close (pos n) t.world }))
                | some i ↦ install pal t (pos n) flags (some i)
              ])
              (init_file_table-ready s w)))
        (settled (ready s w) (pos n) flags _)

  -- `fdopen` takes the first closed entry in the same way. If every entry is open, it sets `errno`
  -- to `EMFILE` and returns `NULL`, and the descriptor stays open.
  pub fdopen-Opened :
      (s : Files W) (fd : ℤ)
      → Opened
          (init_file_table pal s)
          fd
          0
          (record (init_file_table pal s) { errno = emfile })
          (fdopen pal fd s)
  unfolding fdopen
  fdopen-Opened s fd =
      settled (init_file_table pal s) fd 0 (record (init_file_table pal s) { errno = emfile })

  -- `fclose` of a stream just opened in the first closed entry returns 0, closes the descriptor in
  -- the kernel, changes only that entry, and leaves it as the first closed one, so that the next
  -- `fopen` takes the same entry.
  pub fclose-opened :
      (s : Files W) (i n flags : ℕ) (free : FirstFree s.table (some i))
      → (f : FileImpl) × (fclose pal (some i) (update s i (open_entry (pos n) flags (entry s i)))
          ≡ (true, record (update s i f) { world = pal.pal_close (pos n) s.world }))
        × FirstFree (set s.table i f) (some i)
  unfolding fclose
  fclose-opened s k n flags (found i lt c before) = (
    record (open_entry (pos n) flags (entry s i)) { fd = closed; ungetc_count = 0 },
    rw
        (
          get_or-set_self s.table i (open_entry (pos n) flags (entry s i)) zero_entry lt,
          set-set s.table i,
        )
        refl,
    found i (rw (length-set s.table i) lt) (rw (get_or-set_self s.table i) refl) (λ j h.
        rw (get_or-set_ne s.table i j _ zero_entry (λ e. absurd (omega arith))) (before j h)),
  )
