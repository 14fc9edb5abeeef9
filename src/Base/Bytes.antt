-- ===== src/Base/Bytes.antt =====
-- Facts about one byte, by trying every value.
use Prim.Native.Nat.{ℕ, zero, suc, ◌<◌, bit_and}
use mathlib.Core.Path.{◌≡◌, refl}
use mathlib.Core.Bool.{Bool, true, false}
use native.Mathlib.Omega.{arith}
use appytizer_app_server.Base.Tests.{◌==◌, if◌then◌else◌}

-- Whether the test is false for one of the numbers under the limit.
some_fails : (ℕ → Bool) → ℕ → Bool
some_fails test zero = false
some_fails test (suc limit) = if test limit then some_fails test limit else true

some_fails-false :
    (test : ℕ → Bool) (limit byte : ℕ)
    → byte < limit
    → some_fails test limit ≡ false
    → test byte ≡ true
unfolding some_fails
some_fails-false test zero byte under tried = absurd (omega arith)
some_fails-false test (suc limit) byte under tried =
    ground (arith, some_fails-false test limit byte)

short_lengths : some_fails (λ byte. bit_and byte 0xc0 == 0) 64 ≡ false
unfolding some_fails
short_lengths = refl

-- The two bits that mark a compressed name are clear in a length below 64.
pub bit_and-short_label : (len : ℕ) → len < 64 → (bit_and len 0xc0 == 0) ≡ true
bit_and-short_label len under =
    some_fails-false (λ byte. bit_and byte 0xc0 == 0) 64 len under short_lengths
