-- ===== src/Broker/Memory/Laws.antt =====
-- go-server/internal/broker/memory.go: who is called by Publish, and what Close ends.
use websocket.Common.{
  ℕ, suc, ◌≡◌, ◌<◌, refl, ap, ◌∙◌, true, false, List, [], ◌∷◌, ◌++◌, Option, none, some, arith,
  nat_eq, nat_eq_iff, if◌then◌else◌, Bool-cases, inl, inr, if_cases,
}
use websocket.Text.{Str}
use websocket.Broker.Memory.{
  match_subject, MemorySubscription, MemoryBroker, new_memory_broker, matches, call_each, publish,
  subscribe, remove_id, cancel, ready, close_broker,
}

-- What can be done to a bus.
pub data BusStep {ℓ} (S : Type ℓ) : Type ℓ where
  subscribes : Str → (Str → Str → S → S) → BusStep S
  cancels : ℕ → BusStep S
  closes : BusStep S

module _ {ℓ} {S : Type ℓ} where
  matches-append :
      (subject : Str) (xs ys : List (ℕ × MemorySubscription S))
      → matches subject (xs ++ ys) ≡ matches subject xs ++ matches subject ys
  unfolding matches
  matches-append subject [] ys = refl
  matches-append subject ((i, sub) ∷ xs) ys =
      elim (Bool-cases (match_subject sub.subject subject)) [
        | inl takes ↦
            rw takes
              (ap (λ (t : List (MemorySubscription S)). sub ∷ t) (matches-append subject xs ys))
        | inr passes ↦ rw passes (matches-append subject xs ys)
      ]

  call_each-append :
      (subject bytes : Str) (xs ys : List (MemorySubscription S)) (s : S)
      → call_each subject bytes (xs ++ ys) s
        ≡ call_each subject bytes ys (call_each subject bytes xs s)
  unfolding call_each
  call_each-append subject bytes [] ys s = refl
  call_each-append subject bytes (x ∷ xs) ys s =
      call_each-append subject bytes xs ys (x.handler subject bytes s)

  -- On an open bus, a publish after a subscription calls whom it called before, and then the new
  -- handler once, exactly if the pattern matches.
  pub publish-subscribe :
      (pattern : Str) (handler : Str → Str → S → S) (b : MemoryBroker S) (subject bytes : Str)
      (s : S)
      → b.closed ≡ false
      → publish subject bytes (subscribe pattern handler b).0 s ≡ (
        let before = (publish subject bytes b s).0 in
            if match_subject pattern subject then handler subject bytes before else before,
        true,
      )
  unfolding publish subscribe matches call_each
  publish-subscribe pattern handler b subject bytes s open_bus =
      let sub : MemorySubscription S = record { subject = pattern; handler = handler } in
      let old = matches subject b.subscribers in
      rw (open_bus) (
        ap (λ (t : S). (t, true))
          (ap (λ (t : List (MemorySubscription S)). call_each subject bytes t s)
              (matches-append subject b.subscribers ((b.next_id, sub) ∷ []))
            ∙ call_each-append subject bytes old (matches subject ((b.next_id, sub) ∷ [])) s
            ∙ call_last sub (call_each subject bytes old s)))
    where
      call_last :
          (sub : MemorySubscription S) (t : S)
          → call_each subject bytes (matches subject ((b.next_id, sub) ∷ [])) t
            ≡ (if match_subject sub.subject subject then sub.handler subject bytes t else t)
      call_last sub t = elim (Bool-cases (match_subject sub.subject subject)) [
        | inl takes ↦ rw takes refl
        | inr passes ↦ rw passes refl
      ]

  -- Every identifier in the list was given out before.
  abbrev pub IdsBelow : ℕ → List (ℕ × MemorySubscription S) → Type 0
  IdsBelow n [] = Unit
  IdsBelow n ((i, sub) ∷ subs) = (i < n) × IdsBelow n subs

  IdsBelow-suc :
      (n : ℕ) (subs : List (ℕ × MemorySubscription S)) → IdsBelow n subs → IdsBelow (suc n) subs
  IdsBelow-suc n [] h = tt
  IdsBelow-suc n ((i, sub) ∷ subs) h = (omega (arith, h.0), IdsBelow-suc n subs h.1)

  IdsBelow-append :
      (n : ℕ) (subs : List (ℕ × MemorySubscription S)) (sub : MemorySubscription S)
      → IdsBelow n subs
      → IdsBelow (suc n) (subs ++ (n, sub) ∷ [])
  IdsBelow-append n [] sub h = (omega arith, tt)
  IdsBelow-append n ((i, x) ∷ subs) sub h = (omega (arith, h.0), IdsBelow-append n subs sub h.1)

  IdsBelow-remove_id :
      (n id : ℕ) (subs : List (ℕ × MemorySubscription S))
      → IdsBelow n subs
      → IdsBelow n (remove_id id subs)
  unfolding remove_id
  IdsBelow-remove_id n id [] h = tt
  IdsBelow-remove_id n id ((i, sub) ∷ subs) h =
      let rest = IdsBelow-remove_id n id subs h.1 in
      if_cases (IdsBelow n) (nat_eq i id) (λ e. rest) (λ e. (h.0, rest))

  remove_id-append :
      (n : ℕ) (subs : List (ℕ × MemorySubscription S)) (sub : MemorySubscription S)
      → IdsBelow n subs
      → remove_id n (subs ++ (n, sub) ∷ []) ≡ subs
  unfolding remove_id
  remove_id-append n [] sub h =
      if_cases (λ (l : List (ℕ × MemorySubscription S)). l ≡ []) (nat_eq n n) (λ e. refl)
        (λ e. absurd (ground (arith, nat_eq_iff n n)))
  remove_id-append n ((i, x) ∷ subs) sub h =
      if_cases (λ (l : List (ℕ × MemorySubscription S)). l ≡ (i, x) ∷ subs) (nat_eq i n)
        (λ e. absurd (omega (arith, (nat_eq_iff i n).0 e, h.0)))
        (λ e.
          ap (λ (l : List (ℕ × MemorySubscription S)). (i, x) ∷ l)
            (remove_id-append n subs sub h.1))

  abbrev pub bus : MemoryBroker S → List (BusStep S) → MemoryBroker S
  bus b [] = b
  bus b (subscribes pattern handler ∷ steps) = bus (subscribe pattern handler b).0 steps
  bus b (cancels id ∷ steps) = bus (cancel id b) steps
  bus b (closes ∷ steps) = bus (close_broker b) steps

  bus-IdsBelow :
      (b : MemoryBroker S) (steps : List (BusStep S))
      → IdsBelow b.next_id b.subscribers
      → IdsBelow (bus b steps).next_id (bus b steps).subscribers
  unfolding subscribe cancel close_broker
  bus-IdsBelow b [] h = h
  bus-IdsBelow b (subscribes pattern handler ∷ steps) h =
      bus-IdsBelow (subscribe pattern handler b).0 steps (
        if_cases (λ (r : MemoryBroker S × Option ℕ). IdsBelow r.0.next_id r.0.subscribers) b.closed
          (λ e. h) (λ e. IdsBelow-append b.next_id b.subscribers _ h))
  bus-IdsBelow b (cancels id ∷ steps) h =
      bus-IdsBelow (cancel id b) steps (IdsBelow-remove_id b.next_id id b.subscribers h)
  bus-IdsBelow b (closes ∷ steps) h = bus-IdsBelow (close_broker b) steps tt

  -- On an open bus that any sequence of subscriptions, cancellations and closes led to, a subscription
  -- that is cancelled again leaves exactly the subscriptions that were there, and whether it is open.
  pub cancel-subscribe :
      (steps : List (BusStep S)) (pattern : Str) (handler : Str → Str → S → S)
      → let b = bus new_memory_broker steps in
        b.closed ≡ false
        → ((cancel b.next_id (subscribe pattern handler b).0).subscribers ≡ b.subscribers)
          × ((cancel b.next_id (subscribe pattern handler b).0).closed ≡ b.closed)
          × ((subscribe pattern handler b).1 ≡ some b.next_id)
  unfolding subscribe cancel new_memory_broker
  cancel-subscribe steps pattern handler open_bus =
      let b = bus new_memory_broker steps in
      rw (open_bus, subscribe)
        (
          remove_id-append b.next_id b.subscribers _ (bus-IdsBelow new_memory_broker steps tt),
          refl,
          refl,
        )

  stays_closed :
      (b : MemoryBroker S) (steps : List (BusStep S))
      → b.closed ≡ true
      → (bus b steps).closed ≡ true
  unfolding subscribe cancel close_broker
  stays_closed b [] h = h
  stays_closed b (subscribes pattern handler ∷ steps) h =
      stays_closed (subscribe pattern handler b).0 steps
        (if_cases (λ (r : MemoryBroker S × Option ℕ). r.0.closed ≡ true) b.closed (λ e. h) (λ e. h))
  stays_closed b (cancels id ∷ steps) h = stays_closed (cancel id b) steps h
  stays_closed b (closes ∷ steps) h = stays_closed (close_broker b) steps refl

  -- Once a bus is closed, whatever is done to it afterwards, a publish calls nobody and fails, a
  -- subscription fails and changes nothing, and the bus is not ready.
  pub closed_for_good :
      (b : MemoryBroker S) (steps : List (BusStep S)) (pattern subject bytes : Str)
      (handler : Str → Str → S → S) (s : S)
      → let after = bus (close_broker b) steps in
        (publish subject bytes after s ≡ (s, false))
        × (subscribe pattern handler after ≡ (after, none))
        × (ready after ≡ false)
  unfolding publish subscribe ready
  closed_for_good b steps pattern subject bytes handler s =
      let gone = stays_closed (close_broker b) steps (unfold close_broker in refl) in
      (
        rw gone refl,
        if_cases (λ (r : MemoryBroker S × Option ℕ). r ≡ (bus (close_broker b) steps, none))
            (bus (close_broker b) steps).closed (λ e. refl) (λ e. absurd cc),
        rw gone refl,
      )
