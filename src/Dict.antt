-- ===== src/Dict.antt =====
-- Go's map[string]V as an association list: a read of a missing key is `none`, a write replaces or
-- adds, `delete` of a missing key changes nothing. Iteration follows the list.
use websocket.Common.{
  ◌+◌, ◌≤◌, ◌≡◌, refl, ◌≢◌, List, [], ◌∷◌, Option, none, some, arith, if◌then◌else◌, length,
  is_some,
}
use websocket.Text.{Str, ◌==◌, ==_iff}

abbrev pub Dict {ℓ} : Type ℓ → Type ℓ
Dict V = List (Str × V)

-- map[string]struct{}
abbrev pub StrSet : Type 0
StrSet = Dict (Unit {0})

module _ {ℓ} {V : Type ℓ} where
  unfoldable pub lookup : Str → Dict V → Option V
  lookup key [] = none
  lookup key ((other, value) ∷ entries) = if other == key then some value else lookup key entries

  unfoldable pub delete : Str → Dict V → Dict V
  delete key [] = []
  delete key ((other, held) ∷ entries) =
      if other == key then delete key entries else (other, held) ∷ delete key entries

  unfoldable pub insert : Str → V → Dict V → Dict V
  insert key value [] = (key, value) ∷ []
  insert key value ((other, held) ∷ entries) =
      if other == key then (key, value) ∷ entries else (other, held) ∷ insert key value entries

  pub lookup-nil : (key : Str) → lookup key [] ≡ none
  unfolding lookup
  lookup-nil key = refl

  pub lookup-delete :
      (key other : Str) (entries : Dict V)
      → lookup other (delete key entries) ≡ (if key == other then none else lookup other entries)
  unfolding lookup delete
  lookup-delete key other [] = ground arith
  lookup-delete key other ((first, held) ∷ entries) = ground (
    arith,
    ==_iff key other,
    ==_iff first key,
    ==_iff first other,
    lookup-delete key other entries,
  )

  pub lookup-insert :
      (key other : Str) (value : V) (entries : Dict V)
      → lookup other (insert key value entries)
        ≡ (if key == other then some value else lookup other entries)
  unfolding lookup insert
  lookup-insert key other value [] = refl
  lookup-insert key other value ((first, held) ∷ entries) = ground (
    arith,
    ==_iff key other,
    ==_iff first key,
    ==_iff first other,
    lookup-insert key other value entries,
  )

  -- A write adds an entry only under a new key.
  pub length-insert :
      (key : Str) (value : V) (entries : Dict V)
      → length (insert key value entries)
        ≡ (if is_some (lookup key entries) then length entries else length entries + 1)
  unfolding lookup insert
  length-insert key value [] = omega arith
  length-insert key value ((first, held) ∷ entries) =
      ground (arith, length-insert key value entries)

  pub length-delete-le :
      (key : Str) (entries : Dict V) → length (delete key entries) ≤ length entries
  unfolding delete
  length-delete-le key [] = omega arith
  length-delete-le key ((first, held) ∷ entries) = ground (arith, length-delete-le key entries)

  pub insert-ne-nil : (key : Str) (value : V) (entries : Dict V) → insert key value entries ≢ []
  unfolding insert
  insert-ne-nil key value [] = cc
  insert-ne-nil key value ((first, held) ∷ entries) = ground arith

-- A Go map holds a key once.
abbrev pub KeysDistinct {ℓ} : {A : Type ℓ} → Dict A → Type ℓ
KeysDistinct [] = Unit
KeysDistinct ((key, value) ∷ entries) = (lookup key entries ≡ none) × KeysDistinct entries

pub KeysDistinct-insert {ℓ} :
    {A : Type ℓ} (key : Str) (value : A) (entries : Dict A)
    → KeysDistinct entries
    → KeysDistinct (insert key value entries)
unfolding insert
KeysDistinct-insert key value [] h = (lookup-nil key, tt)
KeysDistinct-insert key value ((other, held) ∷ entries) h = ground (
  arith,
  ==_iff other key,
  ==_iff key other,
  lookup-insert key other value entries,
  KeysDistinct-insert key value entries h.1,
)

pub KeysDistinct-delete {ℓ} :
    {A : Type ℓ} (key : Str) (entries : Dict A)
    → KeysDistinct entries
    → KeysDistinct (delete key entries)
unfolding delete
KeysDistinct-delete key [] h = tt
KeysDistinct-delete key ((other, held) ∷ entries) h =
    ground (arith, lookup-delete key other entries, KeysDistinct-delete key entries h.1)

delete_absent-length {ℓ} :
    {A : Type ℓ} (key : Str) (entries : Dict A)
    → lookup key entries ≡ none
    → length (delete key entries) ≡ length entries
unfolding lookup delete
delete_absent-length key [] h = refl
delete_absent-length key ((other, held) ∷ entries) h =
    ground (arith, delete_absent-length key entries)

-- A delete of a key that is there takes one entry away.
pub length-delete {ℓ} :
    {A : Type ℓ} (key : Str) (value : A) (entries : Dict A)
    → KeysDistinct entries
    → lookup key entries ≡ some value
    → length (delete key entries) + 1 ≡ length entries
unfolding lookup delete
length-delete key value [] h e = absurd cc
length-delete key value ((other, held) ∷ entries) h e =
    ground (
      arith,
      ==_iff other key,
      delete_absent-length key entries,
      length-delete key value entries h.1,
    )
