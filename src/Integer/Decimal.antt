-- ===== src/Integer/Decimal.antt =====
-- The verb %d of package fmt, on a number that is not negative.
use websocket.Common.{
  ℕ, zero, suc, ◌+◌, ◌-◌, ◌*◌, ◌/◌, ◌%◌, ◌^◌, ◌<◌, ◌≤◌, ◌≡◌, refl, ap, ◌∙◌, sym, true, ◌&&◌, some,
  [], ◌∷◌, ◌++◌, arith, ltb, leb, if◌then◌else◌, length, length-append, Bool-cases, inl, inr,
  if_cases,
}
use websocket.Text.{Str, text}
use websocket.Text.Printable.{IsPrintable, IsPrintable-append}
use websocket.Integer.{read_digits, read_natural}

-- Each digit takes one unit of fuel.
digits_of : ℕ → ℕ → Str
digits_of zero n = []
digits_of (suc fuel) n =
    let rest = digits_of fuel (n / 10) in
    if ltb n 10 then (b'0' + n) ∷ [] else rest ++ (b'0' + n % 10) ∷ []

unfoldable pub decimal : ℕ → Str
unfolding digits_of
decimal n = digits_of (suc n) n

read_digits-append :
    (s : Str) (c m v : ℕ)
    → read_digits s m ≡ some v
    → leb b'0' c && leb c b'9' ≡ true
    → read_digits (s ++ c ∷ []) m ≡ some (v * 10 + (c - b'0'))
unfolding read_digits
read_digits-append [] c m v h digit = ground arith
read_digits-append (d ∷ s) c m v h digit =
    ground (arith, read_digits-append s c (m * 10 + (d - b'0')) v)

read_digits-digits_of : (fuel n : ℕ) → n < fuel → read_digits (digits_of fuel n) 0 ≡ some n
unfolding read_digits digits_of
read_digits-digits_of zero n h = absurd (omega arith)
read_digits-digits_of (suc fuel) n h = elim (Bool-cases (ltb n 10)) [
  | inl small ↦ rw small (ground arith)
  | inr large ↦ rw large (
      read_digits-append (digits_of fuel (n / 10)) (b'0' + n % 10) 0 (n / 10)
        (read_digits-digits_of fuel (n / 10) (ground arith)) (ground arith)
      ∙ ap some (omega arith))
]

-- A number that is printed is not the empty text.
read_natural-cons :
    (s : Str) (n : ℕ) → read_digits s 0 ≡ some n → 0 < length s → read_natural s ≡ some n
unfolding read_natural
read_natural-cons [] n h full = absurd (omega arith)
read_natural-cons (c ∷ s) n h full = h

digits_of-full : (fuel n : ℕ) → 0 < length (digits_of (suc fuel) n)
unfolding digits_of
digits_of-full fuel n =
    let two = length-append {0} (digits_of fuel (n / 10)) ((b'0' + n % 10) ∷ []) in ground arith

-- A number that is printed in base 10 is read back as it was.
pub read_natural-decimal : (n : ℕ) → read_natural (decimal n) ≡ some n
unfolding decimal
read_natural-decimal n =
    read_natural-cons (digits_of (suc n) n) n (read_digits-digits_of (suc n) n (omega arith))
      (digits_of-full n n)

pub decimal-injective : (n m : ℕ) → decimal n ≡ decimal m → n ≡ m
decimal-injective n m e =
    let same : some n ≡ some m =
      sym (read_natural-decimal n) ∙ ap read_natural e ∙ read_natural-decimal m in
    cc

digits_of-IsPrintable : (fuel n : ℕ) → IsPrintable (digits_of fuel n)
unfolding digits_of
digits_of-IsPrintable zero n = tt
digits_of-IsPrintable (suc fuel) n =
    let last : IsPrintable ((b'0' + n % 10) ∷ []) = (omega arith, omega arith, tt) in
    if_cases IsPrintable (ltb n 10) (λ small. (omega arith, ground arith, tt))
      (λ large.
        IsPrintable-append (digits_of fuel (n / 10)) _ (digits_of-IsPrintable fuel (n / 10)) last)

pub decimal-IsPrintable : (n : ℕ) → IsPrintable (decimal n)
unfolding decimal
decimal-IsPrintable n = digits_of-IsPrintable (suc n) n

pow10 : ℕ → ℕ
pow10 zero = 1
pow10 (suc k) = 10 * pow10 k

digits_of-length : (fuel n k : ℕ) → n < pow10 (suc k) → length (digits_of fuel n) ≤ suc k
unfolding digits_of pow10
digits_of-length zero n k h = omega arith
digits_of-length (suc fuel) n zero h = ground arith
digits_of-length (suc fuel) n (suc k) h =
    let rest = digits_of-length fuel (n / 10) k (omega arith) in
    let two = length-append {0} (digits_of fuel (n / 10)) ((b'0' + n % 10) ∷ []) in ground arith

-- A 64-bit number has at most 20 digits.
pub decimal-length : (n : ℕ) → n < 2 ^ 64 → length (decimal n) ≤ 20
unfolding decimal pow10
decimal-length n h = digits_of-length (suc n) n 19 (omega arith)

decimal_test : decimal 4096 ≡ text "4096"
unfolding decimal
decimal_test = refl
