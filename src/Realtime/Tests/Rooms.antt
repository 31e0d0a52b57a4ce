-- ===== src/Realtime/Tests/Rooms.antt =====
-- The theorems about the rooms and the registry, at a concrete hub.
use websocket.Common.{◌≡◌, refl, none, [], ◌∷◌}
use websocket.Text.{◌==◌, text}
use websocket.Dict.{insert, lookup}
use websocket.Realtime.Rooms.{
  add_member, at_limit, install, Hub, room_limit, allow_all, new_hub, member, join, unregister,
}
use websocket.Realtime.Rooms.Invariant.{IsConsistent}
use websocket.Realtime.Rooms.Changes.{
  change, changes, installs, joins, changes-new_hub-IsConsistent,
}
use websocket.Realtime.Rooms.Specs.{unregister_lem, join-refused}
use websocket.Realtime.Rooms.Directory.{
  view, view-new_hub, replay, empty_directory, arrives, enters,
}
use websocket.Realtime.Tests.{ann, bob, lobby}

-- A hub with a limit of one room, in which ann has joined the lobby.
abbrev ann_joined : Hub
ann_joined = changes allow_all (new_hub 1) (installs ann ∷ joins ann lobby ∷ installs bob ∷ [])

ann_joined-IsConsistent : IsConsistent ann_joined
ann_joined-IsConsistent =
    changes-new_hub-IsConsistent allow_all 1 (installs ann ∷ joins ann lobby ∷ installs bob ∷ [])

changes-new_hub-IsConsistent_example :
    IsConsistent (changes allow_all (new_hub 3) (joins bob lobby ∷ joins ann lobby ∷ []))
changes-new_hub-IsConsistent_example =
    changes-new_hub-IsConsistent allow_all 3 (joins bob lobby ∷ joins ann lobby ∷ [])

unregister_lem_example : member (unregister ann_joined ann).0.rooms lobby (text "c0") ≡ none
unfolding ◌==◌
unregister_lem_example = (unregister_lem ann_joined ann ann_joined-IsConsistent).0 lobby (text "c0")

join-refused_example : (join allow_all ann_joined ann (text "attic")).0 ≡ ann_joined
unfolding ◌==◌ changes change install new_hub join at_limit add_member insert lookup
join-refused_example =
    (join-refused allow_all ann_joined ann (text "attic") room_limit ann_joined-IsConsistent refl).0

view-new_hub_example :
    view (
      changes allow_all
        (new_hub 1)
        (installs ann ∷ joins ann lobby ∷ joins ann (text "attic") ∷ []))
    ≡ replay empty_directory (arrives ann ∷ enters ann lobby ∷ [])
unfolding ◌==◌ changes change install new_hub join at_limit add_member insert lookup
view-new_hub_example =
    view-new_hub allow_all 1 (installs ann ∷ joins ann lobby ∷ joins ann (text "attic") ∷ [])
