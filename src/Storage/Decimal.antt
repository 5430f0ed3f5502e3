-- ===== src/Storage/Decimal.antt =====
-- `{}` of a `usize`: decimal digits, most significant first.
use edge_orchestrator.Common.{
  ℕ, zero, suc, ◌+◌, ◌-◌, ◌*◌, ◌/◌, ◌%◌, ◌<◌, ◌≡◌, ◌≢◌, refl, [], ◌∷◌, ◌++◌, inl, inr, arith, ltb,
  if◌then◌else◌, Bytes, All, Bool-cases,
}

-- One round for each digit; a number below the fuel has fewer digits than that.
digits_from : ℕ → ℕ → Bytes
digits_from zero n = []
digits_from (suc fuel) n =
    let higher = digits_from fuel (n / 10) in
    if ltb n 10 then (48 + n) ∷ [] else higher ++ (48 + n % 10) ∷ []

unfoldable pub show_decimal : ℕ → Bytes
unfolding digits_from
show_decimal n = digits_from (suc n) n

-- the number that a list of digits stands for, after the digits already read
pub read_decimal : ℕ → Bytes → ℕ
read_decimal acc [] = acc
read_decimal acc (d ∷ ds) = read_decimal (acc * 10 + (d - 48)) ds

read_decimal-append :
    (acc : ℕ) (ds es : Bytes) → read_decimal acc (ds ++ es) ≡ read_decimal (read_decimal acc ds) es
unfolding read_decimal
read_decimal-append acc [] es = refl
read_decimal-append acc (d ∷ ds) es = read_decimal-append (acc * 10 + (d - 48)) ds es

read-digits_from : (fuel n : ℕ) → n < fuel → read_decimal 0 (digits_from fuel n) ≡ n
unfolding digits_from read_decimal
read-digits_from zero n h = absurd (omega arith)
read-digits_from (suc fuel) n h = elim (Bool-cases (ltb n 10)) [
  | inl small ↦ rw small (omega arith)
  | inr large ↦
      rw (large, read_decimal-append)
        (rw (read-digits_from fuel (n / 10) (ground arith)) (omega arith))
]

-- The digits of a number are read back as that number: the fuel is enough.
pub read-show_decimal : (n : ℕ) → read_decimal 0 (show_decimal n) ≡ n
unfolding show_decimal
read-show_decimal n = read-digits_from (suc n) n (omega arith)

All-append_nonzero :
    (ds es : Bytes) → All (λ d. d ≢ 0) ds → All (λ d. d ≢ 0) es → All (λ d. d ≢ 0) (ds ++ es)
All-append_nonzero [] es h k = k
All-append_nonzero (d ∷ ds) es h k = (h.0, All-append_nonzero ds es h.1 k)

digits_nonzero : (fuel n : ℕ) → All (λ d. d ≢ 0) (digits_from fuel n)
unfolding digits_from
digits_nonzero zero n = tt
digits_nonzero (suc fuel) n = elim (Bool-cases (ltb n 10)) [
  | inl small ↦ rw small (λ e. omega arith, tt)
  | inr large ↦ rw large (
      All-append_nonzero (digits_from fuel (n / 10)) ((48 + n % 10) ∷ [])
        (digits_nonzero fuel (n / 10)) (λ e. omega arith, tt))
]

-- No digit is the byte that ends a header.
pub show_decimal_nonzero : (n : ℕ) → All (λ d. d ≢ 0) (show_decimal n)
unfolding show_decimal
show_decimal_nonzero n = digits_nonzero (suc n) n
