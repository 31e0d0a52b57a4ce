-- ===== src/Text/Printable.antt =====
-- strings.TrimSpace leaves a text of printable ASCII characters without a space as it is.
use websocket.Common.{ℕ, ◌≡◌, ◌≤◌, refl, ap, ◌∙◌, false, [], ◌∷◌, ◌++◌, arith}
use websocket.Text.{
  Str, is_space, trim_after, trim_left, trim_right, trim_space, space_width, first_bytes,
}

-- The characters from ! to ~.
abbrev pub IsPrintable : Str → Type 0
IsPrintable [] = Unit
IsPrintable (c ∷ s) = (33 ≤ c) × (c ≤ 126) × IsPrintable s

pub IsPrintable-append : (s t : Str) → IsPrintable s → IsPrintable t → IsPrintable (s ++ t)
IsPrintable-append [] t h k = k
IsPrintable-append (c ∷ s) t (low, high, h) k = (low, high, IsPrintable-append s t h k)

not_space : (c : ℕ) (s : Str) → 33 ≤ c → c ≤ 126 → is_space (c ∷ s) ≡ false
not_space c [] low high = ground arith
not_space c (d ∷ []) low high = ground arith
not_space c (d ∷ e ∷ []) low high = ground arith
not_space c (d ∷ e ∷ f ∷ s) low high = refl

trim_right-printable : (s : Str) → IsPrintable s → trim_right s ≡ s
unfolding trim_right
trim_right-printable [] h = refl
trim_right-printable (c ∷ s) (low, high, h) =
    rw (trim_right-printable s h, not_space c s low high) refl

trim_left-printable : (s : Str) → IsPrintable s → trim_left s ≡ s
unfolding trim_left trim_after space_width first_bytes
trim_left-printable [] h = refl
trim_left-printable (c ∷ []) (low, high, h) = rw (not_space c [] low high) refl
trim_left-printable (c ∷ d ∷ []) (low, high, h) =
    rw (not_space c [] low high, not_space c (d ∷ []) low high) refl
trim_left-printable (c ∷ d ∷ e ∷ s) (low, high, h) =
    rw (not_space c [] low high, not_space c (d ∷ []) low high, not_space c (d ∷ e ∷ []) low high)
      refl

pub trim_space-printable : (s : Str) → IsPrintable s → trim_space s ≡ s
unfolding trim_space
trim_space-printable s h = ap trim_right (trim_left-printable s h) ∙ trim_right-printable s h
