-- ===== src/Broker/Nats/Names.antt =====
-- go-server/internal/broker/nats.go: sanitizeConsumerName, and which nodes share a consumer.
use mathlib.Core.List.{append_cancel_left, append_cancel_right}
use websocket.Common.{
  ℕ, ◌≡◌, refl, sym, ◌∙◌, ◌↔◌, false, [], ◌∷◌, ◌++◌, arith, if◌then◌else◌, length,
}
use websocket.Text.{Str, text}
use websocket.Broker.Nats.{is_invalid, sanitize_consumer_name, consumer_name, consumer_prefix}

-- A text in which no character has to be replaced.
abbrev pub IsClean : Str → Type 0
IsClean [] = Unit
IsClean (ch ∷ name) = (is_invalid ch ≡ false) × IsClean name

replaced_clean : (ch : ℕ) → is_invalid (if is_invalid ch then b'-' else ch) ≡ false
unfolding is_invalid
replaced_clean ch = ground arith

sanitize-IsClean : (name : Str) → IsClean (sanitize_consumer_name name)
unfolding sanitize_consumer_name
sanitize-IsClean [] = tt
sanitize-IsClean (ch ∷ name) = (replaced_clean ch, sanitize-IsClean name)

sanitize-length : (name : Str) → length (sanitize_consumer_name name) ≡ length name
unfolding sanitize_consumer_name
sanitize-length [] = refl
sanitize-length (ch ∷ name) = omega (arith, sanitize-length name)

sanitize-clean : (name : Str) → IsClean name → sanitize_consumer_name name ≡ name
unfolding sanitize_consumer_name
sanitize-clean [] h = refl
sanitize-clean (ch ∷ name) h = rw (h.0, sanitize-clean name h.1) refl

-- The sanitised name is as long as the name and has none of the characters that NATS refuses, and a
-- name without them is left as it is.
pub sanitize_consumer_name_lem :
    (name : Str)
    → (length (sanitize_consumer_name name) ≡ length name)
      × IsClean (sanitize_consumer_name name)
      × (IsClean name → sanitize_consumer_name name ≡ name)
sanitize_consumer_name_lem name = (sanitize-length name, sanitize-IsClean name, sanitize-clean name)

sanitize-append :
    (s t : Str)
    → sanitize_consumer_name (s ++ t) ≡ sanitize_consumer_name s ++ sanitize_consumer_name t
unfolding sanitize_consumer_name
sanitize-append [] t = refl
sanitize-append (ch ∷ s) t = rw (sanitize-append s t) refl

consumer_name-append :
    (node subject : Str)
    → consumer_name node subject
      ≡ sanitize_consumer_name consumer_prefix
        ++ sanitize_consumer_name node
        ++ sanitize_consumer_name (text "-")
        ++ sanitize_consumer_name subject
unfolding consumer_name
consumer_name-append node subject =
    rw
      (
        sanitize-append (consumer_prefix ++ node ++ text "-") subject,
        sanitize-append (consumer_prefix ++ node) (text "-"),
        sanitize-append consumer_prefix node,
      )
      refl

-- Two nodes subscribe to a subject under the same consumer name exactly if their identifiers are
-- the same once sanitised.
pub consumer_name_iff :
    (node other subject : Str)
    → (consumer_name node subject ≡ consumer_name other subject)
      ↔ (sanitize_consumer_name node ≡ sanitize_consumer_name other)
consumer_name_iff node other subject = (
  λ e.
      append_cancel_left (sanitize_consumer_name consumer_prefix) (sanitize_consumer_name node)
        (sanitize_consumer_name other)
        (append_cancel_right _ _ (sanitize_consumer_name (text "-")) (
          append_cancel_right _ _ (sanitize_consumer_name subject)
            (sym (consumer_name-append node subject) ∙ e ∙ consumer_name-append other subject))),
  λ e. consumer_name-append node subject ∙ rw e (sym (consumer_name-append other subject)),
)
