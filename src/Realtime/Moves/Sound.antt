-- ===== src/Realtime/Moves/Sound.antt =====
-- The invariant of a node, and that every move preserves it.
use websocket.Common.{
  ℕ, zero, suc, ◌+◌, ◌%◌, ◌^◌, ◌≡◌, refl, ap, ◌∙◌, ◌≤◌, ◌<◌, true, false, some, arith, nat_eq,
  if◌then◌else◌, length,
}
use websocket.Text.{Str}
use websocket.Dict.{lookup}
use websocket.Realtime.Rooms.{member, ClientRef}
use websocket.Realtime.Rooms.Invariant.{IsConsistent}
use websocket.Realtime.Node.{Node, Client, set_client}

-- How many of the first k sessions are open.
unfoldable pub open_count : (ℕ → Client) → ℕ → ℕ
open_count f zero = 0
open_count f (suc k) = (if (f k).closed then 0 else 1) + open_count f k

abbrev pub IsRegistered : Node → ClientRef → Type 0
IsRegistered n c =
    (c.address < n.next)
    × ((n.client c.address).self ≡ c)
    × ((n.client c.address).closed ≡ false)
    × ((n.client c.address).has_on_close ≡ true)

pub record IsSound (n : Node) : Type 0 where
  pub consistent : IsConsistent n.hub
  -- no queue is longer than its capacity
  pub bounded : (a : ℕ) → length (n.client a).send ≤ (n.client a).queue_capacity
  pub addressed : (a : ℕ) → a < n.next → (n.client a).self.address ≡ a
  pub fresh : (a : ℕ) → n.next ≤ a → (n.client a).closed ≡ true
  -- every session of the registry exists, is the one that it says, and is open
  pub registered :
      (user : Str) (c : ClientRef) → lookup user n.hub.clients ≡ some c → IsRegistered n c
  -- every member of a room exists, and is the one that it says
  pub roomed :
      (room conn : Str) (c : ClientRef)
      → member n.hub.rooms room conn ≡ some c
      → (c.address < n.next) × ((n.client c.address).self ≡ c)
  -- only sessions that exist are in their read loops
  pub readers : (a : ℕ) → (n.client a).reading ≡ true → a < n.next
  -- every open session unregisters itself when it is closed
  pub callbacks : (a : ℕ) → (n.client a).closed ≡ false → (n.client a).has_on_close ≡ true
  -- the gauge is the number of open sessions
  pub counted : n.metrics.active_connections ≡ open_count n.client n.next % 2 ^ 64

pub open_count-congr :
    (f g : ℕ → Client) (k : ℕ)
    → ((a : ℕ) → (f a).closed ≡ (g a).closed)
    → open_count f k ≡ open_count g k
unfolding open_count
open_count-congr f g zero h = refl
open_count-congr f g (suc k) h = ground (arith, h k, open_count-congr f g k h)

abbrev pub update : (ℕ → Client) → ℕ → Client → ℕ → Client
update f a c = λ b. if nat_eq b a then c else f b

-- A write at or above k does not show below it.
pub open_count-update_above :
    (f : ℕ → Client) (a : ℕ) (c : Client) (k : ℕ)
    → k ≤ a
    → open_count (update f a c) k ≡ open_count f k
unfolding open_count
open_count-update_above f a c zero h = refl
open_count-update_above f a c (suc k) h =
    ground (arith, open_count-update_above f a c k (omega arith))

pub open_count-close :
    (f : ℕ → Client) (a : ℕ) (c : Client) (k : ℕ)
    → a < k
    → (f a).closed ≡ false
    → c.closed ≡ true
    → open_count (update f a c) k + 1 ≡ open_count f k
unfolding open_count
open_count-close f a c zero h p q = elim h [ ]
open_count-close f a c (suc k) h p q =
    ground (arith, open_count-update_above f a c k, open_count-close f a c k)

pub open_count-create :
    (f : ℕ → Client) (k : ℕ) (c : Client)
    → c.closed ≡ false
    → open_count (update f k c) (suc k) ≡ suc (open_count f k)
unfolding open_count
open_count-create f k c h = ground (arith, open_count-update_above f k c k (omega arith))

-- A write that keeps the session's identity, its flags and the bound on its queue.
pub set_client-IsSound :
    (n : Node) (a : ℕ) (c : Client)
    → c.self ≡ (n.client a).self
    → c.closed ≡ (n.client a).closed
    → c.has_on_close ≡ (n.client a).has_on_close
    → length c.send ≤ c.queue_capacity
    → (c.reading ≡ true → a < n.next)
    → IsSound n
    → IsSound (set_client a c n)
set_client-IsSound n a c same_self same_closed same_callback room reader v = record {
  consistent = v.consistent;
  bounded = λ b. ground (arith, v.bounded b);
  addressed = λ b h. ground (arith, v.addressed b);
  fresh = λ b h. ground (arith, v.fresh b);
  registered = λ u d e. ground (arith, v.registered u d e);
  roomed = λ r k d e. ground (arith, v.roomed r k d e);
  readers = λ b h. ground (arith, v.readers b);
  callbacks = λ b h. ground (arith, v.callbacks b);
  counted =
      v.counted
      ∙ ap (λ (t : ℕ). t % 2 ^ 64)
          (open_count-congr n.client (update n.client a c) n.next (λ b. ground arith));
}
