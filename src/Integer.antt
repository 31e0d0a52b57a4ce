-- ===== src/Integer.antt =====
-- Go's int64 where it may be negative, under the library's names, and strconv.ParseInt in base 10,
-- which Atoi agrees with on a 64-bit machine.
pub mod Decimal
use websocket.Common.{
  ℕ, ◌+◌, ◌-◌, ◌*◌, ◌^◌, Bool, true, false, ◌&&◌, Option, none, some, [], ◌∷◌, ltb, leb, nat_eq,
  if◌then◌else◌,
}
use websocket.Text.{Str}

-- `negsuc n` is -(n + 1).
pub data ℤ : Type 0 where
  pos : ℕ → ℤ
  negsuc : ℕ → ℤ

abbrev pub is_positive : ℤ → Bool
is_positive (pos n) = ltb 0 n
is_positive (negsuc n) = false

-- The number, where code reads only positive ones: 0 stands for the rest.
abbrev pub magnitude : ℤ → ℕ
magnitude (pos n) = n
magnitude (negsuc n) = 0

-- The number that decimal digits spell behind `n`.
unfoldable pub read_digits : Str → ℕ → Option ℕ
read_digits [] n = some n
read_digits (c ∷ s) n =
    let rest = read_digits s (n * 10 + (c - b'0')) in
    if leb b'0' c && leb c b'9' then rest else none

unfoldable pub read_natural : Str → Option ℕ
read_natural [] = none
read_natural (c ∷ s) = read_digits (c ∷ s) 0

unfoldable pub to_int64 : Bool → ℕ → Option ℤ
to_int64 true n =
    if leb n (2 ^ 63) then some (if nat_eq n 0 then pos 0 else negsuc (n - 1)) else none
to_int64 false n = if ltb n (2 ^ 63) then some (pos n) else none

unfoldable pub signed : Bool → Option ℕ → Option ℤ
unfolding to_int64
signed negative none = none
signed negative (some n) = to_int64 negative n

unfoldable pub parse_int : Str → Option ℤ
unfolding read_natural signed
parse_int [] = none
parse_int (c ∷ s) =
    if nat_eq c b'-'
    then signed true (read_natural s)
    else if nat_eq c b'+'
    then signed false (read_natural s)
    else signed false (read_natural (c ∷ s))
