-- ===== src/Text.antt =====
-- Go strings as byte sequences, with what the program uses of package strings: equality, TrimSpace,
-- HasPrefix, HasSuffix and TrimSuffix.
pub mod Laws
pub mod Printable
use Prim.Native.Char.{code}
use Prim.Native.String.{String}
use websocket.Common.{
  ◌++◌, ℕ, zero, suc, ◌-◌, ◌≡◌, refl, ◌↔◌, Bool, true, false, ◌&&◌, ◌||◌, List, [], ◌∷◌, arith,
  nat_eq, leb, if◌then◌else◌,
}

abbrev pub Str : Type 0
Str = List ℕ

-- The bytes of an ASCII literal.
abbrev pub text : String → Str
text String.[] = []
text (String.◌∷◌ letter rest) = code letter ∷ text rest

infix 50 ◌==◌
unfoldable pub ◌==◌ : Str → Str → Bool
[] == [] = true
[] == (b ∷ t) = false
(a ∷ s) == [] = false
(a ∷ s) == (b ∷ t) = nat_eq a b && s == t

pub ==_iff : (s t : Str) → ((s == t) ≡ true) ↔ (s ≡ t)
unfolding ◌==◌
==_iff [] [] = ground arith
==_iff [] (b ∷ t) = ground arith
==_iff (a ∷ s) [] = ground arith
==_iff (a ∷ s) (b ∷ t) = ground (arith, ==_iff s t)

pub ==_refl : (s : Str) → (s == s) ≡ true
==_refl s = (==_iff s s).1 refl

-- Whether the bytes are the UTF-8 form of one character that unicode.IsSpace holds of.
abbrev pub is_space : Str → Bool
is_space (a ∷ []) = leb 9 a && leb a 13 || nat_eq a 32
is_space (a ∷ b ∷ []) = nat_eq a 0xC2 && (nat_eq b 0x85 || nat_eq b 0xA0)
is_space (a ∷ b ∷ c ∷ []) =
    nat_eq a 0xE1 && nat_eq b 0x9A && nat_eq c 0x80
    || nat_eq a 0xE2
      && nat_eq b 0x80
      && (leb 0x80 c && leb c 0x8A || nat_eq c 0xA8 || nat_eq c 0xA9 || nat_eq c 0xAF)
    || nat_eq a 0xE2 && nat_eq b 0x81 && nat_eq c 0x9F
    || nat_eq a 0xE3 && nat_eq b 0x80 && nat_eq c 0x80
is_space s = false

first_bytes : ℕ → Str → Str
first_bytes zero s = []
first_bytes (suc n) [] = []
first_bytes (suc n) (c ∷ s) = c ∷ first_bytes n s

-- How many bytes the space at the front takes: 0 if there is none.
space_width : Str → ℕ
unfolding first_bytes
space_width s =
    if is_space (first_bytes 1 s)
    then 1
    else if is_space (first_bytes 2 s)
    then 2
    else if is_space (first_bytes 3 s)
    then 3
    else 0

-- Drops n bytes, and then every space at the front.
trim_after : ℕ → Str → Str
unfolding space_width
trim_after n [] = []
trim_after (suc n) (c ∷ s) = trim_after n s
trim_after zero (c ∷ s) =
    let width = space_width (c ∷ s) in
    let rest = trim_after (width - 1) s in if nat_eq width 0 then c ∷ s else rest

unfoldable pub trim_left : Str → Str
unfolding trim_after
trim_left s = trim_after 0 s

-- One pass from the right: what is left of the rest is kept, unless it completes a space.
unfoldable pub trim_right : Str → Str
trim_right [] = []
trim_right (c ∷ s) = let rest = trim_right s in if is_space (c ∷ rest) then [] else c ∷ rest

unfoldable pub trim_space : Str → Str
unfolding trim_left trim_right
trim_space s = trim_right (trim_left s)

unfoldable pub has_prefix : Str → Str → Bool
has_prefix s [] = true
has_prefix [] (p ∷ ps) = false
has_prefix (c ∷ s) (p ∷ ps) = nat_eq c p && has_prefix s ps

unfoldable pub has_suffix : Str → Str → Bool
unfolding ◌==◌
has_suffix [] suffix = [] == suffix
has_suffix (c ∷ s) suffix = (c ∷ s) == suffix || has_suffix s suffix

unfoldable pub trim_suffix : Str → Str → Str
unfolding ◌==◌
trim_suffix [] suffix = []
trim_suffix (c ∷ s) suffix = if (c ∷ s) == suffix then [] else c ∷ trim_suffix s suffix

-- A no-break space before "a b", and a tab and an ideographic space after it.
trim_space_test : trim_space (0xC2 ∷ 0xA0 ∷ text "a b" ++ 9 ∷ 0xE3 ∷ 0x80 ∷ 0x80 ∷ []) ≡ text "a b"
unfolding trim_space
trim_space_test = refl
