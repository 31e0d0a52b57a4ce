-- ===== src/Text/Laws.antt =====
-- The functions on prefixes and suffixes, as equations on the text.
use websocket.Common.{
  ℕ, ◌≡◌, refl, sym, ap, ◌↔◌, true, false, [], ◌∷◌, ◌++◌, arith, nat_eq_iff, length, length-append,
  Bool-cases, inl, inr,
}
use websocket.Text.{Str, ◌==◌, ==_iff, ==_refl, has_prefix, has_suffix, trim_suffix}

pub has_prefix_iff : (s p : Str) → (has_prefix s p ≡ true) ↔ ((rest : Str) × (s ≡ p ++ rest))
unfolding has_prefix
has_prefix_iff s [] = (λ h. (s, refl), λ h. refl)
has_prefix_iff [] (p ∷ ps) = (λ h. absurd (ground arith), λ h. absurd (ground arith))
has_prefix_iff (c ∷ s) (p ∷ ps) = (
  λ h.
      let (rest, e) = (has_prefix_iff s ps).0 (ground arith) in
      (rest, ground (arith, nat_eq_iff c p)),
  λ (rest, e).
      let deeper = (has_prefix_iff s ps).1 (rest, ground arith) in ground (arith, nat_eq_iff c p),
)

-- A text with something in front of it is another text.
longer : (c : ℕ) (s suffix : Str) → ((c ∷ s ++ suffix) == suffix) ≡ false
longer c s suffix = elim (Bool-cases ((c ∷ s ++ suffix) == suffix)) [
  | inr differs ↦ differs
  | inl same ↦ absurd (
      omega
        (arith, ap length ((==_iff (c ∷ s ++ suffix) suffix).0 same), length-append {0} s suffix))
]

pub has_suffix-append : (s suffix : Str) → has_suffix (s ++ suffix) suffix ≡ true
unfolding has_suffix
has_suffix-append [] [] = ==_refl []
has_suffix-append [] (c ∷ suffix) = ground (arith, ==_refl (c ∷ suffix))
has_suffix-append (c ∷ s) suffix = ground (arith, has_suffix-append s suffix)

pub trim_suffix-append : (s suffix : Str) → trim_suffix (s ++ suffix) suffix ≡ s
unfolding trim_suffix
trim_suffix-append [] [] = refl
trim_suffix-append [] (c ∷ suffix) = ground (arith, ==_refl (c ∷ suffix))
trim_suffix-append (c ∷ s) suffix = ground (arith, longer c s suffix, trim_suffix-append s suffix)

pub append-trim_suffix :
    (s suffix : Str) → has_suffix s suffix ≡ true → trim_suffix s suffix ++ suffix ≡ s
unfolding has_suffix trim_suffix
append-trim_suffix [] suffix h = sym ((==_iff [] suffix).0 h)
append-trim_suffix (c ∷ s) suffix h =
    ground (arith, ==_iff (c ∷ s) suffix, append-trim_suffix s suffix)
