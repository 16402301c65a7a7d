-- ===== src/Transport/Sws/Mask.antt =====
-- sws.c: masking twice with one key gives the bytes back.
use Prim.Native.Nat.{bit_xor, digits, differ, bit_xor-bitwise}
use msgbroker.Prelude.{
  ℕ, zero, suc, ◌+◌, ◌*◌, ◌/◌, ◌%◌, ◌≤◌, ◌<◌, ◌≡◌, refl, ap, ap₂, ◌∙◌, List, [], ◌∷◌, length,
  get_or, arith,
}
use msgbroker.Transport.Sws.{mask}

abbrev xor_digits : ℕ → ℕ → ℕ → ℕ
xor_digits n a b = digits (λ b. b) differ n a b

xor_digits_fuel : (n m a b : ℕ) → a ≤ n → a ≤ m → xor_digits n a b ≡ xor_digits m a b
xor_digits_fuel zero zero a b p q = refl
xor_digits_fuel zero (suc m) zero b p q = refl
xor_digits_fuel zero (suc m) (suc a) b p q = absurd (omega arith)
xor_digits_fuel (suc n) zero zero b p q = refl
xor_digits_fuel (suc n) zero (suc a) b p q = absurd (omega arith)
xor_digits_fuel (suc n) (suc m) zero b p q = refl
xor_digits_fuel (suc n) (suc m) (suc a) b p q =
    ap (λ t. t * 2 + differ (suc a % 2) (b % 2))
      (xor_digits_fuel n m (suc a / 2) (b / 2) (omega arith) (omega arith))

zero-bit_xor : (b : ℕ) → bit_xor 0 b ≡ b
zero-bit_xor b = bit_xor-bitwise 0 b

differ-bits : (x y : ℕ) → x < 2 → y < 2 → differ x y ≡ (x + y) % 2
differ-bits zero y p q = omega arith
differ-bits (suc zero) zero p q = omega arith
differ-bits (suc zero) (suc zero) p q = omega arith
differ-bits (suc zero) (suc (suc y)) p q = absurd (omega arith)
differ-bits (suc (suc x)) y p q = absurd (omega arith)

bit_xor_step : (a b : ℕ) → bit_xor a b ≡ bit_xor (a / 2) (b / 2) * 2 + (a + b) % 2
bit_xor_step zero b = omega (arith, zero-bit_xor b, zero-bit_xor (b / 2))
bit_xor_step (suc a) b = omega (
  arith,
  bit_xor-bitwise (suc a) b,
  bit_xor-bitwise (suc a / 2) (b / 2),
  xor_digits_fuel a (suc a / 2) (suc a / 2) (b / 2) (omega arith) (omega arith),
  differ-bits (suc a % 2) (b % 2) (omega arith) (omega arith),
)

xor_self : (n k : ℕ) → k ≤ n → bit_xor k k ≡ 0
xor_self n zero h = zero-bit_xor 0
xor_self zero (suc k) h = absurd (omega arith)
xor_self (suc n) (suc k) h =
    omega (arith, bit_xor_step (suc k) (suc k), xor_self n (suc k / 2) (omega arith))

xor_fuel : (n a k : ℕ) → a ≤ n → bit_xor (bit_xor a k) k ≡ a
xor_fuel n zero k h = ap (λ t. bit_xor t k) (zero-bit_xor k) ∙ xor_self k k (omega arith)
xor_fuel zero (suc a) k h = absurd (omega arith)
xor_fuel (suc n) (suc a) k h =
    let x = bit_xor (suc a) k in
    let y = bit_xor (suc a / 2) (k / 2) in
    let step = bit_xor_step (suc a) k in
    let half : x / 2 ≡ y = omega (arith, step) in
    omega (
      arith,
      step,
      bit_xor_step x k,
      ap (λ t. bit_xor t (k / 2)) half,
      xor_fuel n (suc a / 2) (k / 2) (omega arith),
    )

pub bit_xor_twice : (a k : ℕ) → bit_xor (bit_xor a k) k ≡ a
bit_xor_twice a k = xor_fuel a a k (omega arith)

pub mask-mask : (key : List ℕ) (i : ℕ) (bs : List ℕ) → mask key i (mask key i bs) ≡ bs
unfolding mask
mask-mask key i [] = refl
mask-mask key i (b ∷ bs) =
    ap₂ ◌∷◌ (bit_xor_twice b (get_or key (i % 4) 0)) (mask-mask key (suc i) bs)

pub length-mask : (key : List ℕ) (i : ℕ) (bs : List ℕ) → length (mask key i bs) ≡ length bs
unfolding mask
length-mask key i [] = refl
length-mask key i (b ∷ bs) = ap suc (length-mask key (suc i) bs)
