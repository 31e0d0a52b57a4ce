-- ===== src/Broker/Memory.antt =====
-- go-server/internal/broker/memory.go: the in-memory bus. A handler changes a state S; the bus calls
-- the handlers one after the other on the publisher's goroutine. The map of subscriptions is a list
-- in the order of its iteration, newest last. nextID does not reach 2^63.
pub mod Subject
pub mod Laws
use websocket.Common.{
  ℕ, suc, Bool, true, false, not, List, [], ◌∷◌, ◌++◌, Option, none, some, nat_eq, if◌then◌else◌,
}
use websocket.Text.{Str, ◌==◌, text, has_prefix, has_suffix, trim_suffix}

unfoldable pub match_subject : Str → Str → Bool
match_subject pattern subject =
    if pattern == subject
    then true
    else if has_suffix pattern (text ".>")
    then has_prefix subject (trim_suffix pattern (text ".>") ++ text ".")
    else pattern == text ">"

pub record MemorySubscription {ℓ} (S : Type ℓ) : Type ℓ where
  pub subject : Str
  pub handler : Str → Str → S → S

pub record MemoryBroker {ℓ} (S : Type ℓ) : Type ℓ where
  pub subscribers : List (ℕ × MemorySubscription S)
  pub next_id : ℕ
  pub closed : Bool

module _ {ℓ} {S : Type ℓ} where
  unfoldable pub new_memory_broker : MemoryBroker S
  new_memory_broker = record { subscribers = []; next_id = 0; closed = false }

  -- The subscriptions that match the subject.
  unfoldable pub matches : Str → List (ℕ × MemorySubscription S) → List (MemorySubscription S)
  matches subject [] = []
  matches subject ((_, sub) ∷ subs) =
      let rest = matches subject subs in
      if match_subject sub.subject subject then sub ∷ rest else rest

  unfoldable pub call_each : Str → Str → List (MemorySubscription S) → S → S
  call_each subject data_bytes [] s = s
  call_each subject data_bytes (sub ∷ subs) s =
      call_each subject data_bytes subs (sub.handler subject data_bytes s)

  -- The state after the handlers, and whether the error is nil.
  unfoldable pub publish : Str → Str → MemoryBroker S → S → S × Bool
  publish subject data_bytes b s =
      if b.closed
      then (s, false)
      else (call_each subject data_bytes (matches subject b.subscribers) s, true)

  -- The identifier stands for the function that cancels; `none` is ErrBrokerClosed.
  unfoldable pub subscribe : Str → (Str → Str → S → S) → MemoryBroker S → MemoryBroker S × Option ℕ
  subscribe subject handler b = if b.closed then (b, none) else (
    record b {
      subscribers =
          b.subscribers ++ (b.next_id, record { subject = subject; handler = handler }) ∷ [];
      next_id = suc b.next_id;
    },
    some b.next_id,
  )

  unfoldable pub remove_id : ℕ → List (ℕ × MemorySubscription S) → List (ℕ × MemorySubscription S)
  remove_id id [] = []
  remove_id id ((i, sub) ∷ subs) =
      let rest = remove_id id subs in if nat_eq i id then rest else (i, sub) ∷ rest

  unfoldable pub cancel : ℕ → MemoryBroker S → MemoryBroker S
  cancel id b = record b { subscribers = remove_id id b.subscribers }

  unfoldable pub ready : MemoryBroker S → Bool
  ready b = not b.closed

  unfoldable pub close_broker : MemoryBroker S → MemoryBroker S
  close_broker b = record b { closed = true; subscribers = [] }
