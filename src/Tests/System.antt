-- ===== src/Tests/System.antt =====
-- Directories, signals, terminals and the standard input.
use aic_lib.Base.{
  ℕ, ◌+◌, ◌≡◌, refl, arith, true, false, not, ◌&&◌, ◌||◌, ◌==◌, List, [], ◌∷◌, none, some, length,
  replicate, bit_and,
}
use aic_lib.Base.Int.{ℤ, pos}
use aic_lib.Directory.{Dir, DirKernel}
use aic_lib.Directory.Records.{Entry, dirent_of, reclen, encode, name_field}
use aic_lib.Directory.Listing.{encode_all, list_dir, list_dir-entries}
use aic_lib.Signals.{Sigset, sigaddset, sigdelset, sigemptyset, sigfillset, valid}
use aic_lib.Signals.Members.{Represents, from_members, empty-member, sigset-Represents}
use aic_lib.Terminal.{
  Termios, call_failed, succeeded, einval, cbaud, b4000000, complement, cfgetospeed, cfsetospeed,
}
use aic_lib.Terminal.Speed.{cfsetospeed-cfgetospeed}
use aic_lib.Stdio.Console.{Input, getchar}
use aic_lib.Stdio.Console.Chars.{Takes, getchar-Takes}

abbrev dot : Entry
dot = record { ino = 2; off = 1; type = 4; name = b'.' ∷ []; padding = 3 }

abbrev readme : Entry
readme = record { ino = 70000; off = 2; type = 8; name = b'R' ∷ b'E' ∷ []; padding = 2 }

-- A kernel that gives the records of its state and is then at the end.
dir_kernel : DirKernel (List Entry)
dir_kernel = record {
  pal_open = λ name w. (pos 3, w);
  pal_close = λ fd w. (pos 0, w);
  malloc = λ w. (some [], w);
  pal_getdents64 = λ fd size w. (pos (length (encode_all w)), encode_all w, []);
}

abbrev opened : Dir
opened = record { fd = pos 3; buf_pos = 0; buf_end = 0; buf = replicate 2048 0 }

list_dir-entries_example :
    list_dir dir_kernel 3 opened (dot ∷ readme ∷ []) ≡ some (dirent_of dot ∷ dirent_of readme ∷ [])
unfolding dir_kernel encode_all encode reclen name_field
list_dir-entries_example =
    list_dir-entries dir_kernel opened (dot ∷ readme ∷ []) ((dot ∷ readme ∷ []) ∷ []) refl refl
      (
        (omega arith, omega arith, omega arith, omega arith, omega arith, (refl, tt)),
        ((omega arith, omega arith, omega arith, omega arith, omega arith, (refl, (refl, tt))), tt),
      )
      ([], refl, omega arith, omega arith, ([], [], refl))

abbrev no_signals : Sigset
no_signals = replicate 16 0

no_signals-Represents : Represents (λ m. false) no_signals
no_signals-Represents = from_members (λ m. false) no_signals refl empty-member

-- Adding, deleting, clearing and filling, for signal 15.
sigset-Represents_example :
    ((t : Sigset) × (sigaddset (some no_signals) (pos 15) ≡ valid 0 t)
      × Represents (λ m. 14 == m || false) t)
    × ((t : Sigset) × (sigdelset (some no_signals) (pos 15) ≡ valid 0 t)
        × Represents (λ m. not (14 == m) && false) t)
    × ((t : Sigset) × (sigemptyset (some no_signals) ≡ valid 0 t) × Represents (λ m. false) t)
    × ((t : Sigset) × (sigfillset (some no_signals) ≡ valid 0 t) × Represents (λ m. true) t)
sigset-Represents_example =
    sigset-Represents (λ m. false) no_signals 14 no_signals-Represents (omega arith)

terminal : Termios
terminal = record { c_iflag = 0x500; c_oflag = 5; c_cflag = 0xbf; c_lflag = 0x8a3b; c_cc = [] }

-- 57600 baud is number 16.
cfsetospeed-cfgetospeed_example :
    (t' : Termios) × (cfsetospeed (some terminal) 16 ≡ (succeeded, some t'))
    × (cfgetospeed (some t') ≡ (0, none))
    × (bit_and t'.c_cflag (complement cbaud) ≡ bit_and terminal.c_cflag (complement cbaud))
    × (cfsetospeed (some terminal) (b4000000 + 1) ≡ (call_failed einval, some terminal))
cfsetospeed-cfgetospeed_example = cfsetospeed-cfgetospeed terminal 16 0 (omega arith)

-- Input of two bytes in one chunk.
abbrev pal_read : ℤ → ℕ → List ℕ → ℤ × List ℕ × List ℕ
pal_read fd size w = (pos (length w), w, [])

abbrev empty_input : Input (List ℕ)
empty_input = record { in_buf = replicate 1024 0; in_ptr = 0; in_len = 0; world = b'h' ∷ b'i' ∷ [] }

getchar-Takes_example : Takes pal_read (b'h' ∷ b'i' ∷ []) (getchar pal_read empty_input)
getchar-Takes_example = getchar-Takes pal_read empty_input (b'h' ∷ b'i' ∷ []) (
  [],
  (b'h' ∷ b'i' ∷ []) ∷ [],
  ([], empty_input.in_buf, refl, refl, refl, ([], refl, omega arith, omega arith, ([], [], refl))),
  refl,
)
