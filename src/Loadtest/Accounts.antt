-- ===== src/Loadtest/Accounts.antt =====
-- go-server/cmd/loadtest/main.go: what a step of one client does to the accounts.
use websocket.Common.{
  ℕ, zero, suc, ◌+◌, ◌-◌, ◌%◌, ◌^◌, ◌≤◌, ◌<◌, ◌≡◌, refl, sym, ap, true, false, ◌++◌, arith, none,
  some, subst, Bool-cases, Option-cases, inl, inr, nat_eq, nat_eq_iff,
}
use native.Mathlib.Decide.{dec_lt}
use mathlib.Core.List.{append_cancel_left}
use websocket.Text.{Str, text}
use websocket.Dict.{lookup, KeysDistinct}
use websocket.Integer.Decimal.{decimal, decimal-injective}
use websocket.Loadtest.Commands.{request_id}
use websocket.Loadtest.{Stats, Stage, waiting, done, Worker, LoadTest, set_worker, is_stage, finish}
use websocket.Loadtest.Balance.{
  is_holding, total, holding, ended, undecided, outstanding, unwritten, IsBalanced,
  set_worker-IsBalanced,
}

request_id-injective : (i j k : ℕ) → request_id i j ≡ request_id i k → j ≡ k
unfolding request_id
request_id-injective i j k e =
    decimal-injective j k
      (append_cancel_left (text "msg_" ++ decimal i ++ text "_") (decimal j) (decimal k) e)

-- The recorded times stand under identifiers that the client has given out.
pub record IsKnown (i : ℕ) (w : Worker) : Type 0 where
  pub distinct : KeysDistinct w.sent_times
  pub named :
      (key : Str) (sent : ℕ)
      → lookup key w.sent_times ≡ some sent
      → (k : ℕ) × (k ≤ w.msg_seq) × (key ≡ request_id i k)

-- The next identifier is new.
pub next_absent :
    (i : ℕ) (w : Worker) → IsKnown i w → lookup (request_id i (suc w.msg_seq)) w.sent_times ≡ none
next_absent i w v = elim (Option-cases (lookup (request_id i (suc w.msg_seq)) w.sent_times)) [
  | inl absent ↦ absent
  | inr (sent, found) ↦
      let (k, low, e) = v.named (request_id i (suc w.msg_seq)) sent found in
      absurd (omega (arith, request_id-injective i (suc w.msg_seq) k e))
]

pub record IsAccounted (t : LoadTest) : Type 0 where
  pub balanced : IsBalanced t
  pub known : (i : ℕ) → IsKnown i (t.worker i)

pub total-le :
    (measure : Worker → ℕ) (f : ℕ → Worker) (i k : ℕ) → i < k → measure (f i) ≤ total measure f k
total-le measure f i zero below = absurd (omega arith)
total-le measure f i (suc k) below = elim (dec_lt i k) [
  | yes earlier ↦ omega (arith, total-le measure f i k earlier)
  | no later ↦
      let here : i ≡ k = omega arith in
      let same = ap (λ (j : ℕ). measure (f j)) here in omega (arith, same)
]

-- Only a client leaves its first stage.
pub started_below :
    (t : LoadTest) (i : ℕ)
    → IsBalanced t
    → is_stage (t.worker i).stage waiting ≡ false
    → i < t.num_clients
started_below t i v moved = elim (dec_lt i t.num_clients) [
  | yes below ↦ below
  | no above ↦
      let first =
        ap (λ (w : Worker). is_stage w.stage waiting) (v.outside i (omega (arith, above))) in
      absurd (ground arith)
]

pub set_worker-IsKnown :
    (t : LoadTest) (i : ℕ) (w : Worker)
    → ((j : ℕ) → IsKnown j (t.worker j))
    → IsKnown i w
    → (j : ℕ) → IsKnown j ((set_worker i w t).worker j)
set_worker-IsKnown t i w known v j = elim (Bool-cases (nat_eq j i)) [
  | inr other ↦ rw other (known j)
  | inl here ↦ rw here (subst (λ (k : ℕ). IsKnown k w) (sym ((nat_eq_iff j i).0 here)) v)
]

-- A stage that a client takes leaves its recorded times alone.
pub staged :
    (i : ℕ) (w : Worker) (stage : Stage) → IsKnown i w → IsKnown i (record w { stage = stage })
staged i w stage v = record { distinct = v.distinct; named = v.named }

-- A client that holds its token gives it back, and an attempt that was going on has failed.
pub finish-IsAccounted :
    (t : LoadTest) (i errors : ℕ)
    → i < t.num_clients
    → is_holding (t.worker i).stage ≡ true
    → errors % 2 ^ 64 ≡ (t.stats.connection_errors + undecided (t.worker i)) % 2 ^ 64
    → IsAccounted t
    → IsAccounted (record (finish i t) { stats = record t.stats { connection_errors = errors } })
unfolding finish
finish-IsAccounted t i errors below held failed v =
    let b = v.balanced in
    let some_held = total-le holding t.worker i t.num_clients below in
    record {
      balanced =
          set_worker-IsBalanced t i (t.slots - 1) (record (t.worker i) { stage = done }) _ below
            (ground (arith, b.slots_held)) (omega (arith, b.limited)) (ground (arith, b.attempts))
            (ground arith) (omega (arith, failed)) refl b.measured b;
      known = set_worker-IsKnown t i _ v.known (staged i (t.worker i) done (v.known i));
    }

-- A step of a client that neither takes nor gives back a token.
pub goes-IsAccounted :
    (t : LoadTest) (i : ℕ) (w : Worker) (s : Stats)
    → i < t.num_clients
    → holding w ≡ holding (t.worker i)
    → ended w ≡ ended (t.worker i)
    → s.connections_attempted ≡ t.stats.connections_attempted
    → (t.stats.connections_established + t.stats.connection_errors + undecided (t.worker i))
        % 2 ^ 64
      ≡ (s.connections_established + s.connection_errors + undecided w) % 2 ^ 64
    → (s.messages_sent + unwritten w + t.stats.messages_acked + outstanding (t.worker i)) % 2 ^ 64
      ≡ (t.stats.messages_sent + unwritten (t.worker i) + s.messages_acked + outstanding w) % 2 ^ 64
    → s.latency_count ≡ s.messages_acked
    → IsKnown i w
    → IsAccounted t
    → IsAccounted (record (set_worker i w t) { stats = s })
goes-IsAccounted t i w s below held over attempted decided answered latencies known v =
    let b = v.balanced in
    record {
      balanced =
          set_worker-IsBalanced t i t.slots w s below (omega (arith, held)) b.limited
            (omega (arith, held, over, attempted, b.attempts)) (omega (arith, held, over))
            (omega (arith, decided, attempted)) answered latencies b;
      known = set_worker-IsKnown t i w v.known known;
    }

-- A client that leaves runClient, where no attempt is going on.
pub leave-IsAccounted :
    (t : LoadTest) (i : ℕ)
    → i < t.num_clients
    → is_holding (t.worker i).stage ≡ true
    → undecided (t.worker i) ≡ 0
    → IsAccounted t
    → IsAccounted (finish i t)
unfolding finish
leave-IsAccounted t i below held decided v =
    finish-IsAccounted t i t.stats.connection_errors below held (omega (arith, decided)) v
