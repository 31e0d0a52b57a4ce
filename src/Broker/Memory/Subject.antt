-- ===== src/Broker/Memory/Subject.antt =====
-- go-server/internal/broker/memory.go: which subjects a pattern matches.
use websocket.Common.{◌≡◌, ◌↔◌, refl, sym, Bool, true, ◌++◌, arith, Bool-cases, inl, inr, if_cases}
use websocket.Text.{Str, ◌==◌, ==_iff, text, has_suffix, trim_suffix}
use websocket.Text.Laws.{has_prefix_iff, has_suffix-append, trim_suffix-append, append-trim_suffix}
use websocket.Broker.Memory.{match_subject}

-- The patterns: the subject itself, a prefix of whole tokens with `>` for one or more that follow,
-- and `>` alone.
pub data Matches (pattern subject : Str) : Type 0 where
  exactly : pattern ≡ subject → Matches pattern subject
  below :
      (prefix rest : Str)
      → pattern ≡ prefix ++ text ".>"
      → subject ≡ (prefix ++ text ".") ++ rest
      → Matches pattern subject
  everything : pattern ≡ text ">" → Matches pattern subject

match_subject-Matches :
    (pattern subject : Str) → match_subject pattern subject ≡ true → Matches pattern subject
unfolding match_subject
match_subject-Matches pattern subject h = elim (Bool-cases (pattern == subject)) [
  | inl same ↦ exactly ((==_iff pattern subject).0 same)
  | inr differs ↦ elim (Bool-cases (has_suffix pattern (text ".>"))) [
    | inl wild ↦
        let prefix = trim_suffix pattern (text ".>") in
        let (rest, e) = (has_prefix_iff subject (prefix ++ text ".")).0 (ground arith) in
        below prefix rest (sym (append-trim_suffix pattern (text ".>") wild)) e
    | inr plain ↦ everything ((==_iff pattern (text ">")).0 (ground arith))
  ]
]

every : (subject : Str) → match_subject (text ">") subject ≡ true
unfolding match_subject has_suffix ◌==◌
every subject =
    if_cases (λ (b : Bool). b ≡ true) (text ">" == subject) (λ same. refl) (λ differs. refl)

Matches-match_subject :
    (pattern subject : Str) → Matches pattern subject → match_subject pattern subject ≡ true
unfolding match_subject
Matches-match_subject pattern subject (exactly e) = ground (arith, ==_iff pattern subject)
Matches-match_subject pattern subject (below prefix rest p e) =
    let wild : has_suffix pattern (text ".>") ≡ true =
      rw p (has_suffix-append prefix (text ".>")) in
    let trimmed : trim_suffix pattern (text ".>") ≡ prefix =
      rw p (trim_suffix-append prefix (text ".>")) in
    let found = (has_prefix_iff subject (prefix ++ text ".")).1 (rest, e) in
    if_cases (λ (b : Bool). b ≡ true) (pattern == subject) (λ same. refl)
      (λ differs. rw (wild, trimmed) found)
Matches-match_subject pattern subject (everything e) = rw e (every subject)

-- A pattern matches exactly the subjects that it describes: itself; for `p.>`, those that begin
-- with `p.`; for `>`, all.
pub match_subject_iff :
    (pattern subject : Str) → (match_subject pattern subject ≡ true) ↔ Matches pattern subject
match_subject_iff pattern subject =
    (match_subject-Matches pattern subject, Matches-match_subject pattern subject)
