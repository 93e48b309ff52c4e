-- ===== src/Lib.antt =====
-- Kora Libc: the C library's own logic on strings, memory blocks, characters, numbers in text,
-- formatted output, streams, dates and messages, its dynamic linker, and what they guarantee.
--
-- Memory (Memory) is a function from addresses to bytes, with no byte where nothing is mapped. A C
-- function that reads or writes memory is a command: it ends with a result and a memory, faults,
-- or runs out of fuel. Ends states that it ends without a fault, with a property of what it
-- returns and leaves behind. Memory/Region has the C strings and mapped stretches, and the lemmas
-- on loads and stores.
--
-- The files and the code they are about:
--   CString       src/string/string.c, the functions that only read, and src/string/strcoll.c
--   StringCopy    src/string/string.c, the functions that write
--   Block         src/string/memcpy.c and src/string/memset.c
--   Ctype         src/ctype/ctype.c and src/ctype/wctype.c, on 32-bit patterns
--   Convert       src/string/strtol.c, src/string/strtoll.c and, in Convert/Itoa,
--                 src/string/itoa.c; the width of `long` is a parameter
--   Format        src/stdio/vsnprintf.c: Output has the bounded output state, Number the texts of
--                 numbers, Integer the integer, string and pointer conversions, Field the parsing
--                 of flags, width, precision and length, Driver the main loop
--                 Format/Text has the text that a format stands for, written without the buffer,
--                 with Format/Meaning for its flags, width, precision, sign and digits, which
--                 Format/Agreement compares with the parser, and Format/Refine the refinement
--   Stdio/File    src/stdio/file.c: the table of open files and, in Stream, the operations on a
--                 stream, over a kernel that is a parameter
--   Stdio/Buffered src/stdio/putchar.c, flush, fputc and putchar, and the functions of
--                 src/stdio/stdio_globals.c
--   Stdio/Console src/stdio/getchar.c, puts.c, print_str.c, print_hex.c, and fputs of putchar.c
--   Directory     src/dirent/dirent.c, over the records that the kernel gives
--   Signals       src/signal/signal.c, the sets of signals
--   Terminal      src/termios/termios.c, over the answers of the kernel
--   Calendar      src/time/time.c, gmtime_r and mktime
--   Tokens        src/string/strtok.c
--   ErrorText     src/string/strerror.c
--   Environment   src/stdlib/os.c, getenv
--   Linker        ld/dynlink.c: Strings and Paths the file names and the search for a library, Pages
--                 rounding, Segments the headers and the mapping, Symbols the hash
--                 tables, Scope the search among the objects, Relocate and Apply relocation, Init
--                 constructors and destructors, Cli the command line, Dynamic the dynamic section,
--                 Load the table of objects and load_needed_recursive, Preload preload_one, Protect
--                 the rights of pages, Startup the initial stack, MainProgram the program that the
--                 kernel has mapped
--                 Linker/Launch puts Load and Init together
-- Each definition has the name of the C function, and each loop of it a definition of its own. The
-- modules below a component hold its proofs. Tests has the examples at concrete values.
--
-- The parts meet as in the code: Convert uses Ctype for white space and letters, StringCopy uses
-- CString and Block (strncpy fills with memset, strdup copies with memcpy and takes malloc as a
-- parameter), Format writes through the memory commands of Memory. In the linker, Load searches
-- with Paths, checks and maps with Segments, and fills the table that Scope, Apply and Init read.
--
-- Fuel: a loop that the source bounds by a count recurs on the count. Any other loop over memory
-- takes fuel, one unit a round, and the theorems ask for more fuel than the string is long, which
-- is enough for it to end. The loop over the years takes the number of days as its fuel, one over
-- a format its length.
--
-- Machine integers are natural numbers with the wrap-around written out, for size_t modulo 2 ^ 64.
-- Addresses do not wrap. Bytes are numbers, compared as unsigned char.
--
-- The linker takes strings as lists of bytes without the terminator, and an object as a record of
-- what its mapped tables hold. The kernel's open and the functions at an address are parameters. A
-- search that would read outside a table ends with none. The fuel of a search in a table is a
-- bound on its rounds, that of the constructors a bound on the depth of the dependencies, and that
-- of loading one more than the table has entries, since each call within a call marks another one.
-- load_object_file takes the segments as the steps of Segments, whose success the kernel decides,
-- and the tables in the mapped object, which Dynamic reads from their addresses, as given.
--
-- Not modelled: the conversions of doubles (a parameter of vsnprintf) and src/string/strtod.c,
-- which are arithmetic on doubles; the allocator in src/stdlib/mallocng, src/math and src/getopt,
-- which are copies of other libraries; the variadic front ends of vsnprintf, the system call
-- wrappers, start-up code and assembly, which only pass arguments on; in src/signal and
-- src/stdio/file.c the functions that do nothing; in src/time/time.c asctime_r, which is a row of
-- calls of sprintf, strftime, which copies its format, and the clock calls; of ld/dynlink.c the
-- printing of dependencies and messages. What is left of the repository's own code is of these
-- kinds.
pub mod Base
pub mod Linker
pub mod Memory
pub mod Ctype
pub mod Block
pub mod CString
pub mod Directory
pub mod Signals
pub mod Terminal
pub mod StringCopy
pub mod Convert
pub mod Environment
pub mod Format
pub mod Stdio
pub mod Calendar
pub mod Tokens
pub mod ErrorText
mod Tests
