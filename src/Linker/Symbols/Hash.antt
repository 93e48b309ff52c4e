-- ===== src/Linker/Symbols/Hash.antt =====
-- `gnu_hash` without the wrap-around.
use aic_lib.Base.{ℕ, ◌+◌, ◌*◌, ◌%◌, ◌^◌, ◌≡◌, ◌<◌, arith, [], ◌∷◌, ◌∙◌}
use aic_lib.Linker.Strings.{Str}
use aic_lib.Linker.Symbols.{gnu_hash_loop, gnu_hash}

-- The polynomial of the bytes at 33.
unfoldable pub polynomial : ℕ → Str → ℕ
polynomial h [] = h
polynomial h (c ∷ name) = polynomial (33 * h + c) name

polynomial-mod :
    (h g : ℕ) (name : Str)
    → h % 2 ^ 32 ≡ g % 2 ^ 32
    → polynomial h name % 2 ^ 32 ≡ polynomial g name % 2 ^ 32
unfolding polynomial
polynomial-mod h g [] e = e
polynomial-mod h g (c ∷ name) e = polynomial-mod (33 * h + c) (33 * g + c) name (omega (arith, e))

gnu_hash_loop-polynomial :
    (h : ℕ) (name : Str) → h < 2 ^ 32 → gnu_hash_loop h name ≡ polynomial h name % 2 ^ 32
unfolding gnu_hash_loop polynomial
gnu_hash_loop-polynomial h [] lt = omega arith
gnu_hash_loop-polynomial h (c ∷ name) lt =
    gnu_hash_loop-polynomial ((h * 2 ^ 5 % 2 ^ 32 + h + c) % 2 ^ 32) name (omega arith)
    ∙ polynomial-mod ((h * 2 ^ 5 % 2 ^ 32 + h + c) % 2 ^ 32) (33 * h + c) name (omega arith)

-- `gnu_hash`, with each step on 32-bit words, is the polynomial of the bytes at 33 with the leading
-- coefficient 5381, reduced once at the end.
pub gnu_hash-polynomial : (name : Str) → gnu_hash name ≡ polynomial 5381 name % 2 ^ 32
unfolding gnu_hash
gnu_hash-polynomial name = gnu_hash_loop-polynomial 5381 name (omega arith)
