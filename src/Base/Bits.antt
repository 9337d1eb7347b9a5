-- ===== src/Base/Bits.antt =====
-- Bits of native numbers: what holds of every small number by evaluation, and a mask that is undone by
-- a second application.
use Prim.Native.Nat.{
  ℕ, zero, suc, ◌+◌, ◌*◌, ◌/◌, ◌%◌, ◌≤◌, ◌<◌, bit_xor, differ, digits, bit_xor-bitwise,
}
use mathlib.Core.Path.{◌≡◌, refl}
use mathlib.Core.Bool.{Bool, true, ◌&&◌}
use native.Mathlib.Omega.{arith}

-- The test holds of the numbers below the bound.
unfoldable pub passes : (ℕ → Bool) → ℕ → Bool
passes test zero = true
passes test (suc bound) = passes test bound && test bound

pub passes_lem :
    (test : ℕ → Bool) (bound x : ℕ) → passes test bound ≡ true → x < bound → test x ≡ true
unfolding passes
passes_lem test zero x all h = absurd (omega arith)
passes_lem test (suc bound) x all h = ground (arith, passes_lem test bound x)

-- Exclusive or with `k` digits to go.
abbrev masked : ℕ → ℕ → ℕ → ℕ
masked k x mask = digits (λ m. m) differ k x mask

differ_self : (d : ℕ) → differ d d ≡ 0
differ_self zero = refl
differ_self (suc d) = differ_self d

abbrev Undoes : ℕ → ℕ → Type 0
Undoes d e = (differ d e < 2) × (differ (differ d e) e ≡ d)

differ_twice : (d e : ℕ) → d < 2 → e < 2 → Undoes d e
differ_twice zero e p q = (q, differ_self e)
differ_twice (suc zero) zero p q = (p, refl)
differ_twice (suc zero) (suc zero) p q = (omega arith, refl)
differ_twice (suc zero) (suc (suc e)) p q = absurd (omega arith)
differ_twice (suc (suc d)) e p q = absurd (omega arith)

masked_self : (k mask : ℕ) → mask ≤ k → masked k mask mask ≡ 0
masked_self zero zero p = refl
masked_self zero (suc mask) p = absurd (omega arith)
masked_self (suc k) zero p = refl
masked_self (suc k) (suc mask) p =
    rw (masked_self k (suc mask / 2) (omega arith), differ_self (suc mask % 2)) refl

masked_zero : (k mask : ℕ) → masked k 0 mask ≡ mask
masked_zero zero mask = refl
masked_zero (suc k) mask = refl

-- A number is masked by its half and its lowest digit.
masked_halves :
    (k y mask q d half digit : ℕ)
    → y ≡ q * 2 + d
    → d < 2
    → y ≤ k
    → ((n : ℕ) → q ≤ n → masked n q (mask / 2) ≡ half)
    → differ d (mask % 2) ≡ digit
    → masked k y mask ≡ half * 2 + digit
masked_halves k zero mask q d half digit split small enough rest low =
    let none_left : d ≡ 0 = omega arith in
    let last : mask % 2 ≡ digit = (rw none_left at low) in
    omega (arith, masked_zero k mask, rest 0 (omega arith), last)
masked_halves zero (suc y) mask q d half digit split small enough rest low = absurd (omega arith)
masked_halves (suc k) (suc y) mask q d half digit split small enough rest low =
    let high : suc y / 2 ≡ q = omega arith in
    let lowest : suc y % 2 ≡ d = omega arith in rw (high, lowest, rest k (omega arith), low) refl

masked_twice : (n k x mask : ℕ) → x ≤ n → masked n x mask ≤ k → masked k (masked n x mask) mask ≡ x
masked_twice zero k zero mask p q = masked_self k mask q
masked_twice zero k (suc x) mask p q = absurd (omega arith)
masked_twice (suc n) k zero mask p q = masked_self k mask q
masked_twice (suc n) k (suc x) mask p q =
    let digit = differ_twice (suc x % 2) (mask % 2) (omega arith) (omega arith) in
    omega (
      arith,
      masked_halves k _ mask (masked n (suc x / 2) (mask / 2)) (differ (suc x % 2) (mask % 2))
          (suc x / 2) (suc x % 2) refl digit.0 q
          (λ m. masked_twice n m (suc x / 2) (mask / 2) (omega arith)) digit.1,
    )

-- A mask that is applied twice is undone.
pub xor_twice : (x mask : ℕ) → bit_xor (bit_xor x mask) mask ≡ x
xor_twice x mask =
    rw (bit_xor-bitwise x mask, bit_xor-bitwise (masked x x mask) mask)
      (masked_twice x (masked x x mask) x mask (omega arith) (omega arith))
