-- ===== src/Broker/Tests.antt =====
-- The theorems about the in-memory bus, at a bus that writes down what it is handed.
use websocket.Common.{◌≡◌, ◌↔◌, true, List, [], ◌∷◌, ◌++◌}
use websocket.Text.{Str, text}
use websocket.Broker.Memory.{MemoryBroker, new_memory_broker, match_subject}
use websocket.Broker.Memory.Subject.{Matches, match_subject_iff}
use websocket.Broker.Memory.Laws.{subscribes, bus}

abbrev note : Str → Str → List Str → List Str
note subject bytes log = log ++ bytes ∷ []

abbrev rooms_bus : MemoryBroker (List Str)
rooms_bus = bus new_memory_broker (subscribes (text "blockforge.rooms.>") note ∷ [])

match_subject_iff_example :
    (match_subject (text "blockforge.rooms.>") (text "blockforge.rooms.lobby") ≡ true)
    ↔ Matches (text "blockforge.rooms.>") (text "blockforge.rooms.lobby")
match_subject_iff_example =
    match_subject_iff (text "blockforge.rooms.>") (text "blockforge.rooms.lobby")
