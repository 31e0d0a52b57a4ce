-- ===== src/Realtime/Delivery.antt =====
-- go-server/internal/realtime/client.go and hub.go: what Close and Send do to each session, and what
-- every session gets from a delivery to many.
use websocket.Common.{
  ◌||◌, nat_eq_iff, ℕ, ◌≡◌, refl, ◌∙◌, ap, Bool, true, false, ◌&&◌, some, Bool-cases, inl, inr,
  arith, ltb, not, if◌then◌else◌, length, nat_eq, List, [], ◌∷◌, ◌++◌,
}
use websocket.Text.{Str, text}
use websocket.Realtime.Message.{Codec, OutboundMessage}
use websocket.Realtime.Rooms.{ClientRef}
use websocket.Realtime.Node.{Node, Client, Frame}
use websocket.Realtime.Client.{close, send, send_json, text_message}
use websocket.Realtime.Hub.{deliver}
use websocket.Realtime.Moves.Close.{close_effect, close_again}

abbrev pub shut : Client → Client
shut c = record c { closed = true }

-- Close marks its session closed and changes no other session.
pub close-client :
    (a : ℕ) (reason : Str) (n : Node) (b : ℕ)
    → (close a reason n).client b ≡ (if nat_eq b a then shut (n.client a) else n.client b)
close-client a reason n b = elim (Bool-cases (n.client a).closed) [
  | inl gone ↦
      ap (λ (m : Node). m.client b) (close_again a reason n gone) ∙ ground (arith, nat_eq_iff b a)
  | inr alive ↦ ap (λ (f : ℕ → Client). f b) (close_effect a reason n alive).client
]

-- What a session becomes when it is offered a frame: it takes the frame at the end of its queue if it
-- is open and has room, and is closed if it is open and has none.
abbrev pub offered : Frame → Client → Client
offered frame c =
    if c.closed
    then c
    else if ltb (length c.send) c.queue_capacity
    then record c { send = c.send ++ frame ∷ [] }
    else shut c

-- Send offers the frame to its session, changes no other session, and returns true exactly if the
-- session is open and has room.
pub send_lem :
    (a type : ℕ) (payload : Str) (n : Node)
    → let c = n.client a in
      let frame : Frame = record { message_type = type; payload = payload } in
      ((send a type payload n).1 ≡ (not c.closed && ltb (length c.send) c.queue_capacity))
      × ((b : ℕ)
          → (send a type payload n).0.client b
            ≡ (if nat_eq b a then offered frame c else n.client b))
unfolding send
send_lem a type payload n = (
  ground arith,
  λ b. ground (arith, close-client a (text "outbound_queue_full") n b, nat_eq_iff b a),
)

abbrev pub has_address : ℕ → List ClientRef → Bool
has_address a [] = false
has_address a (c ∷ cs) = nat_eq a c.address || has_address a cs

abbrev pub AddressesDistinct : List ClientRef → Type 0
AddressesDistinct [] = Unit
AddressesDistinct (c ∷ cs) = (has_address c.address cs ≡ false) × AddressesDistinct cs

module _ (codec : Codec) (event : OutboundMessage) (payload : Str)
    (encodes : codec.marshal event ≡ some payload) where
  abbrev frame : Frame
  frame = record { message_type = text_message; payload = payload }

  pub send_json-client :
      (a : ℕ) (n : Node) (b : ℕ)
      → (send_json codec a event n).0.client b
        ≡ (if nat_eq b a then offered frame (n.client a) else n.client b)
  unfolding send_json
  send_json-client a n b = rw (encodes, send_json) ((send_lem a text_message payload n).1 b)

  -- A delivery, of an envelope that encodes, to sessions at distinct addresses offers the frame
  -- once to each of them, and changes no other session.
  pub deliver_lem :
      (cs : List ClientRef) (n : Node) (b : ℕ)
      → AddressesDistinct cs
      → (deliver codec event cs n).client b
        ≡ (if has_address b cs then offered frame (n.client b) else n.client b)
  unfolding deliver
  deliver_lem [] n b h = refl
  deliver_lem (c ∷ cs) n b h =
      deliver_lem cs (send_json codec c.address event n).0 b h.1
      ∙ ground (arith, send_json-client c.address n b, nat_eq_iff b c.address)
