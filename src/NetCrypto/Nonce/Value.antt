-- ===== src/NetCrypto/Nonce/Value.antt =====
-- toxcore/crypto_core.c: the increments of a nonce, as additions to the number that its bytes stand for.
use insert_project_name_here.Base.{
  ℕ, zero, suc, ◌+◌, ◌-◌, ◌*◌, ◌/◌, ◌%◌, ◌^◌, ◌≤◌, ◌<◌, ◌≡◌, refl, List, [], ◌∷◌, ◌++◌, arith,
  length, ap, sym, ◌∙◌, length-append, length-replicate, replicate, be32,
}
use native.Mathlib.Nat.{
  add-mul, mul_assoc, mul_comm, div-add-mod, mul-add-mod_self_right, mod-eq_of_lt, mul-le-mul_right,
  add_comm,
}
use insert_project_name_here.NetCrypto.Nonce.{
  add_carry, increment_nonce, add_bytes, num_as_nonce, increment_nonce_number,
}

-- The weight of the byte before the bytes.
abbrev pub weight : List ℕ → ℕ
weight [] = 1
weight (b ∷ bs) = 256 * weight bs

abbrev pub nonce_value : List ℕ → ℕ
nonce_value [] = 0
nonce_value (b ∷ bs) = b * weight bs + nonce_value bs

-- A number in base 256, times a weight.
digit-weight : (x w : ℕ) → x % 256 * w + x / 256 * (256 * w) ≡ x * w
digit-weight x w = omega (
  arith,
  ap (λ (t : ℕ). t * w) (div-add-mod x 256),
  add-mul (256 * (x / 256)) (x % 256) w,
  mul_assoc (x / 256) 256 w,
  mul_comm 256 (x / 256),
)

digit_le : (x : ℕ) → x % 256 ≤ 255
digit_le x = omega arith

weight-add_carry : (bs : List ℕ) (carry : ℕ) → weight (add_carry bs carry).0 ≡ weight bs
unfolding add_carry
weight-add_carry [] carry = refl
weight-add_carry (b ∷ bs) carry = omega (arith, weight-add_carry bs carry)

weight-add_bytes : (bs ks : List ℕ) → weight (add_bytes bs ks).0 ≡ weight bs
unfolding add_bytes
weight-add_bytes [] ks = refl
weight-add_bytes (b ∷ bs) [] = refl
weight-add_bytes (b ∷ bs) (k ∷ ks) = omega (arith, weight-add_bytes bs ks)

weight-eq : (xs ys : List ℕ) → length xs ≡ length ys → weight xs ≡ weight ys
weight-eq [] [] h = refl
weight-eq [] (y ∷ ys) h = absurd (omega arith)
weight-eq (x ∷ xs) [] h = absurd (omega arith)
weight-eq (x ∷ xs) (y ∷ ys) h = omega (arith, weight-eq xs ys (omega arith))

add_carry-value :
    (bs : List ℕ) (carry : ℕ)
    → nonce_value (add_carry bs carry).0 + (add_carry bs carry).1 * weight bs
      ≡ nonce_value bs + carry
unfolding add_carry
add_carry-value [] carry = omega arith
add_carry-value (b ∷ bs) carry =
    let c = (add_carry bs carry).1 in
    rw (weight-add_carry bs carry) (
      omega (
        arith,
        add_carry-value bs carry,
        digit-weight (c + b) (weight bs),
        add-mul c b (weight bs),
      ))

add_bytes-value :
    (bs ks : List ℕ)
    → length ks ≡ length bs
    → nonce_value (add_bytes bs ks).0 + (add_bytes bs ks).1 * weight bs
      ≡ nonce_value bs + nonce_value ks
unfolding add_bytes
add_bytes-value [] [] h = refl
add_bytes-value [] (k ∷ ks) h = absurd (omega arith)
add_bytes-value (b ∷ bs) [] h = absurd (omega arith)
add_bytes-value (b ∷ bs) (k ∷ ks) h =
    let c = (add_bytes bs ks).1 in
    rw (weight-add_bytes bs ks) (
      omega (
        arith,
        add_bytes-value bs ks (omega arith),
        digit-weight (c + (b + k)) (weight bs),
        add-mul c (b + k) (weight bs),
        add-mul b k (weight bs),
        weight-eq ks bs (omega arith),
        ap (λ (t : ℕ). k * t) (weight-eq ks bs (omega arith)),
      ))

add_carry-lt : (bs : List ℕ) (carry : ℕ) → nonce_value (add_carry bs carry).0 < weight bs
unfolding add_carry
add_carry-lt [] carry = omega arith
add_carry-lt (b ∷ bs) carry =
    let d = ((add_carry bs carry).1 + b) % 256 in
    rw (weight-add_carry bs carry) (
      omega (
        arith,
        add_carry-lt bs carry,
        mul-le-mul_right (weight bs) (digit_le ((add_carry bs carry).1 + b)),
      ))

add_bytes-lt :
    (bs ks : List ℕ) → length ks ≡ length bs → nonce_value (add_bytes bs ks).0 < weight bs
unfolding add_bytes
add_bytes-lt [] ks h = omega arith
add_bytes-lt (b ∷ bs) [] h = absurd (omega arith)
add_bytes-lt (b ∷ bs) (k ∷ ks) h = rw (weight-add_bytes bs ks) (
    omega (
      arith,
      add_bytes-lt bs ks (omega arith),
      mul-le-mul_right (weight bs) (digit_le ((add_bytes bs ks).1 + (b + k))),
    ))

-- A sum below the weight, and a multiple of it.
mod_of_sum : (v c w x : ℕ) → v + c * w ≡ x → v < w → v ≡ x % w
mod_of_sum v c w x e h = sym (
    ap (λ (t : ℕ). t % w) (sym e ∙ add_comm v (c * w))
    ∙ mul-add-mod_self_right c w v
    ∙ mod-eq_of_lt h)

-- `increment_nonce` adds one to the big-endian number that the nonce stands for, modulo 256 to
-- the number of its bytes.
pub increment_nonce-value :
    (nonce : List ℕ) → nonce_value (increment_nonce nonce) ≡ (nonce_value nonce + 1) % weight nonce
unfolding increment_nonce
increment_nonce-value nonce =
    mod_of_sum _ (add_carry nonce 1).1 (weight nonce) _ (add_carry-value nonce 1)
      (add_carry-lt nonce 1)

nonce_value-zeros : (k : ℕ) (xs : List ℕ) → nonce_value (replicate k 0 ++ xs) ≡ nonce_value xs
nonce_value-zeros zero xs = refl
nonce_value-zeros (suc k) xs = omega (arith, nonce_value-zeros k xs)

-- `increment_nonce_number` adds a word of 32 bits to the big-endian number that a nonce of at
-- least four bytes stands for, modulo 256 to the number of its bytes.
pub increment_nonce_number-value :
    (nonce : List ℕ) (num : ℕ)
    → 4 ≤ length nonce
    → num < 2 ^ 32
    → nonce_value (increment_nonce_number nonce num) ≡ (nonce_value nonce + num) % weight nonce
unfolding increment_nonce_number
increment_nonce_number-value nonce num h hn =
    let size : length (num_as_nonce (length nonce) num) ≡ length nonce =
      length-append (replicate (length nonce - 4) 0) (be32 num)
      ∙ omega (arith, length-replicate {A = ℕ} (length nonce - 4) 0) in
    let number : nonce_value (num_as_nonce (length nonce) num) ≡ num =
      nonce_value-zeros (length nonce - 4) (be32 num) ∙ omega arith in
    mod_of_sum _ (add_bytes nonce (num_as_nonce (length nonce) num)).1 (weight nonce) _
      (add_bytes-value nonce (num_as_nonce (length nonce) num) size
        ∙ ap (λ (t : ℕ). nonce_value nonce + t) number)
      (add_bytes-lt nonce (num_as_nonce (length nonce) num) size)
