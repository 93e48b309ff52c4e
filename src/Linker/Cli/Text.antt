-- ===== src/Linker/Cli/Text.antt =====
-- The options of ld/dynlink.c's `cli_parse`, byte by byte.
use aic_lib.Base.{[], ◌∷◌}
use aic_lib.Linker.Strings.{Str}

abbrev pub double_dash : Str
double_dash = b'-' ∷ b'-' ∷ []

abbrev pub help : Str
help = b'-' ∷ b'-' ∷ b'h' ∷ b'e' ∷ b'l' ∷ b'p' ∷ []

abbrev pub h : Str
h = b'-' ∷ b'h' ∷ []

abbrev pub version : Str
version = b'-' ∷ b'-' ∷ b'v' ∷ b'e' ∷ b'r' ∷ b's' ∷ b'i' ∷ b'o' ∷ b'n' ∷ []

abbrev pub list : Str
list = b'-' ∷ b'-' ∷ b'l' ∷ b'i' ∷ b's' ∷ b't' ∷ []

abbrev pub ldd : Str
ldd = b'-' ∷ b'-' ∷ b'l' ∷ b'd' ∷ b'd' ∷ []

abbrev pub verify : Str
verify = b'-' ∷ b'-' ∷ b'v' ∷ b'e' ∷ b'r' ∷ b'i' ∷ b'f' ∷ b'y' ∷ []

abbrev pub library_path : Str
library_path =
    b'-' ∷ b'-' ∷ b'l' ∷ b'i' ∷ b'b' ∷ b'r' ∷ b'a' ∷ b'r' ∷ b'y' ∷ b'-' ∷ b'p' ∷ b'a' ∷ b't' ∷ b'h'
    ∷ []

abbrev pub l : Str
l = b'-' ∷ b'L' ∷ []

abbrev pub library_path_is : Str
library_path_is =
    b'-' ∷ b'-' ∷ b'l' ∷ b'i' ∷ b'b' ∷ b'r' ∷ b'a' ∷ b'r' ∷ b'y' ∷ b'-' ∷ b'p' ∷ b'a' ∷ b't' ∷ b'h'
    ∷ b'=' ∷ []

abbrev pub preload : Str
preload = b'-' ∷ b'-' ∷ b'p' ∷ b'r' ∷ b'e' ∷ b'l' ∷ b'o' ∷ b'a' ∷ b'd' ∷ []

abbrev pub preload_is : Str
preload_is = b'-' ∷ b'-' ∷ b'p' ∷ b'r' ∷ b'e' ∷ b'l' ∷ b'o' ∷ b'a' ∷ b'd' ∷ b'=' ∷ []

abbrev pub inhibit_cache : Str
inhibit_cache =
    b'-' ∷ b'-' ∷ b'i' ∷ b'n' ∷ b'h' ∷ b'i' ∷ b'b' ∷ b'i' ∷ b't' ∷ b'-' ∷ b'c' ∷ b'a' ∷ b'c' ∷ b'h'
    ∷ b'e' ∷ []

abbrev pub inhibit_rpath : Str
inhibit_rpath =
    b'-' ∷ b'-' ∷ b'i' ∷ b'n' ∷ b'h' ∷ b'i' ∷ b'b' ∷ b'i' ∷ b't' ∷ b'-' ∷ b'r' ∷ b'p' ∷ b'a' ∷ b't'
    ∷ b'h' ∷ []

abbrev pub v : Str
v = b'-' ∷ b'v' ∷ []

abbrev pub verbose : Str
verbose = b'-' ∷ b'-' ∷ b'v' ∷ b'e' ∷ b'r' ∷ b'b' ∷ b'o' ∷ b's' ∷ b'e' ∷ []
