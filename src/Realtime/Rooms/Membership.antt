-- ===== src/Realtime/Rooms/Membership.antt =====
-- What one change of the two room indexes does to every membership.
use websocket.Common.{
  ◌≡◌, ◌∙◌, ◌≢◌, true, false, ◌&&◌, [], ◌∷◌, none, some, arith, is_some, is_empty, if◌then◌else◌,
  Option-cases, if_cases, subst, Bool-cases, inl, inr, refl,
}
use websocket.Text.{Str, ◌==◌, ==_iff}
use websocket.Dict.{
  KeysDistinct, KeysDistinct-delete, Dict, StrSet, lookup, insert, delete, lookup-insert,
  lookup-delete,
}
use websocket.Realtime.Rooms.{ClientRef, member, joined, drop_member, drop_members, drop_room}

-- An emptied inner map has no entry, so dropping it whole loses nothing.
lookup-nil_of_is_empty {ℓ} :
    {A : Type ℓ} (k : Str) (m : Dict A) → is_empty m ≡ true → lookup k m ≡ none
unfolding lookup
lookup-nil_of_is_empty k [] h = refl
lookup-nil_of_is_empty k (e ∷ m) h = cc

pub member-drop_member :
    (conn room : Str) (rooms : Dict (Dict ClientRef)) (r k : Str)
    → member (drop_member conn room rooms) r k
      ≡ (if room == r && conn == k then none else member rooms r k)
unfolding member drop_member
member-drop_member conn room rooms r k = elim (Option-cases (lookup room rooms)) [
  | inl missing ↦ rw (missing, drop_member) (ground (arith, ==_iff room r))
  | inr (m, found) ↦ ground (
    arith,
    ==_iff room r,
    ==_iff conn k,
    lookup-delete conn k m,
    lookup-delete room r rooms,
    lookup-insert room r (delete conn m) rooms,
    lookup-nil_of_is_empty k (delete conn m),
  )
]

pub joined-drop_room :
    (conn room : Str) (sets : Dict StrSet) (k r : Str)
    → joined (drop_room conn room sets) k r
      ≡ (if conn == k && room == r then false else joined sets k r)
unfolding joined drop_room
joined-drop_room conn room sets k r = elim (Option-cases (lookup conn sets)) [
  | inl missing ↦ rw (missing, drop_room) (ground (arith, ==_iff conn k))
  | inr (m, found) ↦ ground (
    arith,
    ==_iff room r,
    ==_iff conn k,
    lookup-delete room r m,
    lookup-delete conn k sets,
    lookup-insert conn k (delete room m) sets,
    lookup-nil_of_is_empty r (delete room m),
  )
]

-- `drop_members` takes the connection out of every room of the set, and changes no other membership.
pub member-drop_members :
    (conn : Str) (set : StrSet) (rooms : Dict (Dict ClientRef)) (r k : Str)
    → member (drop_members conn set rooms) r k
      ≡ (if conn == k && is_some (lookup r set) then none else member rooms r k)
unfolding drop_members lookup
member-drop_members conn [] rooms r k = ground arith
member-drop_members conn ((room, u) ∷ set) rooms r k =
    member-drop_members conn set (drop_member conn room rooms) r k
    ∙ ground (arith, member-drop_member conn room rooms r k)

abbrev pub NoEmpty {ℓ} : {A : Type ℓ} → Dict (Dict A) → Type ℓ
NoEmpty {A} m = (k : Str) (inner : Dict A) → lookup k m ≡ some inner → inner ≢ []

pub NoEmpty-delete {ℓ} :
    {A : Type ℓ} (k : Str) (m : Dict (Dict A)) → NoEmpty m → NoEmpty (delete k m)
NoEmpty-delete k m h j inner e = ground (arith, lookup-delete k j m, h j inner)

pub NoEmpty-insert {ℓ} :
    {A : Type ℓ} (k : Str) (v : Dict A) (m : Dict (Dict A))
    → v ≢ []
    → NoEmpty m
    → NoEmpty (insert k v m)
NoEmpty-insert k v m v_full h j inner e = ground (arith, lookup-insert k j v m, h j inner)

ne-nil_of_not_is_empty {ℓ} : {A : Type ℓ} (m : Dict A) → is_empty m ≡ false → m ≢ []
ne-nil_of_not_is_empty [] h = cc
ne-nil_of_not_is_empty (e ∷ m) h = cc

pub NoEmpty-drop_member :
    (conn room : Str) (rooms : Dict (Dict ClientRef))
    → NoEmpty rooms
    → NoEmpty (drop_member conn room rooms)
unfolding drop_member
NoEmpty-drop_member conn room rooms h = elim (Option-cases (lookup room rooms)) [
  | inl missing ↦ rw (missing, drop_member) h
  | inr (m, found) ↦ elim (Bool-cases (is_empty (delete conn m))) [
    | inl gone ↦ rw (found, drop_member) (rw gone (NoEmpty-delete room rooms h))
    | inr left ↦
        rw (found, drop_member)
          (rw left (NoEmpty-insert room (delete conn m) rooms (ne-nil_of_not_is_empty _ left) h))
  ]
]

pub NoEmpty-drop_members :
    (conn : Str) (set : StrSet) (rooms : Dict (Dict ClientRef))
    → NoEmpty rooms
    → NoEmpty (drop_members conn set rooms)
unfolding drop_members
NoEmpty-drop_members conn [] rooms h = h
NoEmpty-drop_members conn ((room, u) ∷ set) rooms h =
    NoEmpty-drop_members conn set _ (NoEmpty-drop_member conn room rooms h)

pub NoEmpty-drop_room :
    (conn room : Str) (sets : Dict StrSet) → NoEmpty sets → NoEmpty (drop_room conn room sets)
unfolding drop_room
NoEmpty-drop_room conn room sets h = elim (Option-cases (lookup conn sets)) [
  | inl missing ↦ rw (missing, drop_room) h
  | inr (m, found) ↦ elim (Bool-cases (is_empty (delete room m))) [
    | inl gone ↦ rw (found, drop_room) (rw gone (NoEmpty-delete conn sets h))
    | inr left ↦
        rw (found, drop_room)
          (rw left (NoEmpty-insert conn (delete room m) sets (ne-nil_of_not_is_empty _ left) h))
  ]
]

-- No inner map holds a key twice.
abbrev pub AllDistinct {ℓ} : {A : Type ℓ} → Dict (Dict A) → Type ℓ
AllDistinct {A} m = (k : Str) (inner : Dict A) → lookup k m ≡ some inner → KeysDistinct inner

pub AllDistinct-insert {ℓ} :
    {A : Type ℓ} (k : Str) (v : Dict A) (m : Dict (Dict A))
    → KeysDistinct v
    → AllDistinct m
    → AllDistinct (insert k v m)
AllDistinct-insert k v m v_distinct h j inner e = elim (Bool-cases (k == j)) [
  | inl same ↦ subst KeysDistinct (ground (arith, lookup-insert k j v m)) v_distinct
  | inr other ↦ h j inner (ground (arith, lookup-insert k j v m))
]

AllDistinct-delete {ℓ} :
    {A : Type ℓ} (k : Str) (m : Dict (Dict A)) → AllDistinct m → AllDistinct (delete k m)
AllDistinct-delete k m h j inner e = h j inner (ground (arith, lookup-delete k j m))

pub AllDistinct-drop_member :
    (conn room : Str) (rooms : Dict (Dict ClientRef))
    → AllDistinct rooms
    → AllDistinct (drop_member conn room rooms)
unfolding drop_member
AllDistinct-drop_member conn room rooms h = elim (Option-cases (lookup room rooms)) [
  | inl missing ↦ rw (missing, drop_member) h
  | inr (m, found) ↦
      rw (found, drop_member)
        (if_cases AllDistinct (is_empty (delete conn m)) (λ gone. AllDistinct-delete room rooms h)
          (λ left.
            AllDistinct-insert room (delete conn m) rooms
              (KeysDistinct-delete conn m (h room m found)) h))
]

pub AllDistinct-drop_members :
    (conn : Str) (set : StrSet) (rooms : Dict (Dict ClientRef))
    → AllDistinct rooms
    → AllDistinct (drop_members conn set rooms)
unfolding drop_members
AllDistinct-drop_members conn [] rooms h = h
AllDistinct-drop_members conn ((room, u) ∷ set) rooms h =
    AllDistinct-drop_members conn set _ (AllDistinct-drop_member conn room rooms h)
