-- ===== src/Base/Bits.antt =====
-- Words of bits: the bit operations of C at variables, read through the test of one bit.
use Prim.Native.Nat.{
  ℕ, zero, suc, ◌-◌, ◌/◌, ◌%◌, ◌^◌, ◌≤◌, ◌<◌, min, max, bit_and, bit_or, digits, bit_and-bitwise,
  bit_or-bitwise,
}
use mathlib.Core.Path.{◌≡◌, refl, ◌∙◌, ap}
use mathlib.Core.Logic.{◌≢◌, ◌⊎◌, inl, inr}
use mathlib.Core.Bool.{Bool, true, false, not, ◌&&◌, ◌||◌}
use native.Mathlib.Nat.{pow-suc}
use native.Mathlib.Omega.{arith}
use ghost_userspace_o.Base.Tests.{◌==◌, if◌then◌else◌}

-- Bit `i` of a word.
unfoldable pub test_bit : ℕ → ℕ → Bool
test_bit n zero = n % 2 == 1
test_bit n (suc i) = test_bit (n / 2) i

pub test_bit-zero : (i : ℕ) → test_bit 0 i ≡ false
unfolding test_bit
test_bit-zero zero = refl
test_bit-zero (suc i) = test_bit-zero i

abbrev or_digits : ℕ → ℕ → ℕ → ℕ
or_digits n a b = digits (λ b. b) max n a b

abbrev and_digits : ℕ → ℕ → ℕ → ℕ
and_digits n a b = digits (λ b. zero) min n a b

test_bit-or_digits :
    (n a b i : ℕ) → a ≤ n → test_bit (or_digits n a b) i ≡ (test_bit a i || test_bit b i)
unfolding test_bit
test_bit-or_digits zero zero b i h = ground (arith, test_bit-zero i)
test_bit-or_digits zero (suc a) b i h = absurd (omega arith)
test_bit-or_digits (suc n) zero b i h = ground (arith, test_bit-zero i)
test_bit-or_digits (suc n) (suc a) b zero h = ground arith
test_bit-or_digits (suc n) (suc a) b (suc i) h =
    let e : or_digits (suc n) (suc a) b / 2 ≡ or_digits n (suc a / 2) (b / 2) = omega arith in
    ap (λ k. test_bit k i) e ∙ test_bit-or_digits n (suc a / 2) (b / 2) i (omega arith)

test_bit-and_digits :
    (n a b i : ℕ) → a ≤ n → test_bit (and_digits n a b) i ≡ (test_bit a i && test_bit b i)
unfolding test_bit
test_bit-and_digits zero zero b i h = ground (arith, test_bit-zero i)
test_bit-and_digits zero (suc a) b i h = absurd (omega arith)
test_bit-and_digits (suc n) zero b i h = ground (arith, test_bit-zero i)
test_bit-and_digits (suc n) (suc a) b zero h = ground arith
test_bit-and_digits (suc n) (suc a) b (suc i) h =
    let e : and_digits (suc n) (suc a) b / 2 ≡ and_digits n (suc a / 2) (b / 2) = omega arith in
    ap (λ k. test_bit k i) e ∙ test_bit-and_digits n (suc a / 2) (b / 2) i (omega arith)

pub test_bit-bit_or : (a b i : ℕ) → test_bit (bit_or a b) i ≡ (test_bit a i || test_bit b i)
test_bit-bit_or a b i =
    ap (λ k. test_bit k i) (bit_or-bitwise a b) ∙ test_bit-or_digits a a b i (omega arith)

pub test_bit-bit_and : (a b i : ℕ) → test_bit (bit_and a b) i ≡ (test_bit a i && test_bit b i)
test_bit-bit_and a b i =
    ap (λ k. test_bit k i) (bit_and-bitwise a b) ∙ test_bit-and_digits a a b i (omega arith)

or_digits-lt : (w n a b : ℕ) → a ≤ n → a < 2 ^ w → b < 2 ^ w → or_digits n a b < 2 ^ w
or_digits-lt w zero zero b h p q = q
or_digits-lt w zero (suc a) b h p q = absurd (omega arith)
or_digits-lt w (suc n) zero b h p q = q
or_digits-lt zero (suc n) (suc a) b h p q = absurd (omega arith)
or_digits-lt (suc w) (suc n) (suc a) b h p q = omega (
  arith,
  pow-suc 2 w,
  or_digits-lt w n (suc a / 2) (b / 2) (omega arith) (omega (arith, pow-suc 2 w))
      (omega (arith, pow-suc 2 w)),
)

and_digits-le : (n a b : ℕ) → a ≤ n → and_digits n a b ≤ a
and_digits-le zero a b h = omega arith
and_digits-le (suc n) zero b h = omega arith
and_digits-le (suc n) (suc a) b h = omega (arith, and_digits-le n (suc a / 2) (b / 2) (omega arith))

pub bit_or-lt : (w a b : ℕ) → a < 2 ^ w → b < 2 ^ w → bit_or a b < 2 ^ w
bit_or-lt w a b p q = omega (arith, bit_or-bitwise a b, or_digits-lt w a a b (omega arith) p q)

pub bit_and-le : (a b : ℕ) → bit_and a b ≤ a
bit_and-le a b = omega (arith, bit_and-bitwise a b, and_digits-le a a b (omega arith))

pow_pos : (w : ℕ) → 0 < 2 ^ w
pow_pos zero = omega arith
pow_pos (suc w) = omega (arith, pow-suc 2 w, pow_pos w)

pub pow-lt : (k w : ℕ) → k < w → 2 ^ k < 2 ^ w
pow-lt k zero h = absurd (omega arith)
pow-lt zero (suc w) h = omega (arith, pow-suc 2 w, pow_pos w)
pow-lt (suc k) (suc w) h = omega (arith, pow-suc 2 w, pow-suc 2 k, pow-lt k w (omega arith))

-- 1 << k has bit k alone.
pub test_bit-pow : (k i : ℕ) → test_bit (2 ^ k) i ≡ (k == i)
unfolding test_bit
test_bit-pow zero zero = refl
test_bit-pow zero (suc i) = ground (arith, test_bit-zero i)
test_bit-pow (suc k) zero = ground (arith, pow-suc 2 k)
test_bit-pow (suc k) (suc i) =
    let e : 2 ^ suc k / 2 ≡ 2 ^ k = omega (arith, pow-suc 2 k) in
    ap (λ m. test_bit m i) e ∙ test_bit-pow k i ∙ ground arith

-- ~m for a word of `w` bits.
unfoldable pub complement : ℕ → ℕ → ℕ
complement w m = 2 ^ w - 1 - m

pub test_bit-complement :
    (w m i : ℕ) → m < 2 ^ w → i < w → test_bit (complement w m) i ≡ not (test_bit m i)
unfolding complement test_bit
test_bit-complement zero m i h p = absurd (omega arith)
test_bit-complement (suc w) m zero h p = ground (arith, pow-suc 2 w)
test_bit-complement (suc w) m (suc i) h p =
    let e : complement (suc w) m / 2 ≡ complement w (m / 2) = omega (arith, pow-suc 2 w) in
    ap (λ k. test_bit k i) e
    ∙ test_bit-complement w (m / 2) i (omega (arith, pow-suc 2 w)) (omega arith)

-- __builtin_ctzll: the place of the lowest bit that is set, sought in `w` bits.
unfoldable pub count_trailing_zeros : ℕ → ℕ → ℕ
count_trailing_zeros zero n = 0
count_trailing_zeros (suc w) n =
    let rest = count_trailing_zeros w (n / 2) in if n % 2 == 1 then 0 else suc rest

-- Of a word that has bit `k` it finds a bit that is set,
pub test_bit-count_trailing_zeros :
    (w n k : ℕ) → k < w → test_bit n k ≡ true → test_bit n (count_trailing_zeros w n) ≡ true
unfolding count_trailing_zeros test_bit
test_bit-count_trailing_zeros zero n k p h = absurd (omega arith)
test_bit-count_trailing_zeros (suc w) n zero p h = ground arith
test_bit-count_trailing_zeros (suc w) n (suc k) p h =
    ground (arith, test_bit-count_trailing_zeros w (n / 2) k (omega arith) h)

-- at or below every other.
pub count_trailing_zeros-le : (w n k : ℕ) → test_bit n k ≡ true → count_trailing_zeros w n ≤ k
unfolding count_trailing_zeros test_bit
count_trailing_zeros-le zero n k h = omega arith
count_trailing_zeros-le (suc w) n zero h = ground arith
count_trailing_zeros-le (suc w) n (suc k) h = ground (arith, count_trailing_zeros-le w (n / 2) k h)

parity : (n : ℕ) → (n % 2 ≡ 1) ⊎ (n % 2 ≡ 0)
parity n = ground arith

-- A word below 2 ^ w that is not 0 has a bit set.
pub some_bit : (w n : ℕ) → n < 2 ^ w → n ≢ 0 → (k : ℕ) × (k < w) × (test_bit n k ≡ true)
unfolding test_bit
some_bit zero n h p = absurd (p (omega arith))
some_bit (suc w) n h p = elim (parity n) [
  | inl e ↦ (0, omega arith, rw e)
  | inr e ↦
      let (k, q, t) = some_bit w (n / 2) (omega (arith, pow-suc 2 w)) (λ z. p (omega arith)) in
      (suc k, omega arith, t)
]
