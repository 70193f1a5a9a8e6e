-- ===== src/Base/Bits.antt =====
-- Bitwise operations seen one binary digit at a time.
use Prim.Native.Nat.{digits, bit_and-bitwise, bit_or-bitwise}
use native.Mathlib.Nat.{pow-suc}
use venom_os.Base.Core.{
  ℕ, zero, suc, ◌+◌, ◌*◌, ◌/◌, ◌%◌, ◌^◌, ◌≤◌, ◌<◌, min, max, bit_and, bit_or, ◌≡◌, ◌≢◌, refl, ap,
  sym, subst, ◌-◌, ◌∙◌, arith,
}

-- The binary digit of weight 2 ^ k.
abbrev pub bit : ℕ → ℕ → ℕ
bit x zero = x % 2
bit x (suc k) = bit (x / 2) k

-- Rounds past the length of the first operand add no digit.
module _ (past : ℕ → ℕ) (join : ℕ → ℕ → ℕ) where
  digits_past : (more x y : ℕ) → x ≡ 0 → digits past join more x y ≡ past y
  digits_past zero x y e = refl
  digits_past (suc more) zero y e = refl
  digits_past (suc more) (suc x) y e = absurd (omega (arith, e))

  digits_more :
      (rounds more x y : ℕ)
      → x ≤ rounds
      → digits past join (rounds + more) x y ≡ digits past join rounds x y
  digits_more zero more x y h =
      digits_past (zero + more) x y (omega arith) ∙ sym (digits_past zero x y (omega arith))
  digits_more (suc rounds) more zero y h = omega (arith, digits_past (suc rounds + more) zero y)
  digits_more (suc rounds) more (suc x) y h =
      let shift : suc rounds + more ≡ suc (rounds + more) = omega arith in
      rw shift (
        ap (λ (high : ℕ). high * 2 + join (suc x % 2) (y % 2))
          (digits_more rounds more (suc x / 2) (y / 2) (omega arith)))

  -- As many rounds as the operand halved are enough for the digits above the lowest.
  digits_half :
      (x y : ℕ) → digits past join x (suc x / 2) y ≡ digits past join (suc x / 2) (suc x / 2) y
  digits_half x y =
      subst
        (λ (n : ℕ). digits past join n (suc x / 2) y ≡ digits past join (suc x / 2) (suc x / 2) y)
        (omega arith) (digits_more (suc x / 2) (x - suc x / 2) (suc x / 2) y (omega arith))

and_digit : (x y : ℕ) → bit_and x y ≡ bit_and (x / 2) (y / 2) * 2 + min (x % 2) (y % 2)
and_digit zero y = simp bit_and-bitwise (omega arith)
and_digit (suc x) y =
    let high = digits_half (λ y. 0) min x (y / 2) in
    omega (arith, high, bit_and-bitwise (suc x / 2) (y / 2), bit_and-bitwise (suc x) y)

or_digit : (x y : ℕ) → bit_or x y ≡ bit_or (x / 2) (y / 2) * 2 + max (x % 2) (y % 2)
or_digit zero y = simp bit_or-bitwise (omega arith)
or_digit (suc x) y =
    let high = digits_half (λ y. y) max x (y / 2) in
    omega (arith, high, bit_or-bitwise (suc x / 2) (y / 2), bit_or-bitwise (suc x) y)

pub bit-lt : (x k : ℕ) → bit x k < 2
bit-lt x zero = omega arith
bit-lt x (suc k) = bit-lt (x / 2) k

-- A conjunction has the smaller of two digits, a disjunction the larger.
pub bit-and : (a b k : ℕ) → bit (bit_and a b) k ≡ min (bit a k) (bit b k)
bit-and a b zero = omega (arith, and_digit a b)
bit-and a b (suc k) =
    ap (λ (t : ℕ). bit t k) (omega (arith, and_digit a b)) ∙ bit-and (a / 2) (b / 2) k

pub bit-or : (a b k : ℕ) → bit (bit_or a b) k ≡ max (bit a k) (bit b k)
bit-or a b zero = omega (arith, or_digit a b)
bit-or a b (suc k) =
    ap (λ (t : ℕ). bit t k) (omega (arith, or_digit a b)) ∙ bit-or (a / 2) (b / 2) k

pub bit-pow_self : (k : ℕ) → bit (2 ^ k) k ≡ 1
bit-pow_self zero = refl
bit-pow_self (suc k) = ap (λ (t : ℕ). bit t k) (omega (arith, pow-suc 2 k)) ∙ bit-pow_self k

bit-zero : (k : ℕ) → bit 0 k ≡ 0
bit-zero zero = refl
bit-zero (suc k) = bit-zero k

pub bit-pow_ne : (j k : ℕ) → j ≢ k → bit (2 ^ j) k ≡ 0
bit-pow_ne zero zero h = absurd (h refl)
bit-pow_ne zero (suc k) h = bit-zero k
bit-pow_ne (suc j) zero h = omega (arith, pow-suc 2 j)
bit-pow_ne (suc j) (suc k) h =
    ap (λ (t : ℕ). bit t k) (omega (arith, pow-suc 2 j)) ∙ bit-pow_ne j k (λ e. h (ap suc e))
