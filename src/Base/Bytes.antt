-- ===== src/Base/Bytes.antt =====
-- Numbers as bytes, the most significant first (network order).
use Prim.Native.Nat.{ℕ, ◌+◌, ◌*◌, ◌/◌, ◌%◌, ◌^◌, ◌<◌}
use mathlib.Core.Path.{◌≡◌}
use mathlib.Core.List.{List, [], ◌∷◌}
use native.Mathlib.Omega.{arith}

abbrev pub be16 : ℕ → List ℕ
be16 n = n / 256 % 256 ∷ n % 256 ∷ []

abbrev pub be32 : ℕ → List ℕ
be32 n = n / 2 ^ 24 % 256 ∷ n / 2 ^ 16 % 256 ∷ n / 256 % 256 ∷ n % 256 ∷ []

abbrev pub be64 : ℕ → List ℕ
be64 n =
    n / 2 ^ 56 % 256
    ∷ n / 2 ^ 48 % 256
    ∷ n / 2 ^ 40 % 256
    ∷ n / 2 ^ 32 % 256
    ∷ n / 2 ^ 24 % 256
    ∷ n / 2 ^ 16 % 256
    ∷ n / 256 % 256
    ∷ n % 256
    ∷ []

-- The number that bytes stand for, with `acc` before them.
abbrev pub of_be : ℕ → List ℕ → ℕ
of_be acc [] = acc
of_be acc (b ∷ bs) = of_be (acc * 256 + b) bs

pub of_be-be32 : (n : ℕ) → n < 2 ^ 32 → of_be 0 (be32 n) ≡ n
of_be-be32 n h = omega arith

pub of_be-be64 : (n : ℕ) → n < 2 ^ 64 → of_be 0 (be64 n) ≡ n
of_be-be64 n h = omega arith
