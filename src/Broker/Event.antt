-- ===== src/Broker/Event.antt =====
-- go-server/internal/broker/event.go: the envelope that nodes exchange. Its JSON form is a parameter.
use websocket.Common.{Option}
use websocket.Text.{Str}

pub record BrokerEvent : Type 0 where
  pub node_id : Str
  pub type : Str
  pub room_id : Str
  pub sender_id : Str
  pub recipient_id : Str
  pub payload : Str

-- json.Marshal and json.Unmarshal of a BrokerEvent; `none` is an error.
pub record EventCodec : Type 0 where
  pub encode : BrokerEvent → Option Str
  pub decode : Str → Option BrokerEvent
