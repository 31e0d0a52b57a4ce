-- ===== src/Config/Csv.antt =====
-- go-server/internal/config/config.go: the lists that splitCSV reads.
use websocket.Common.{
  ◌≡◌, ◌≢◌, refl, ap, ◌∙◌, Bool, false, ◌||◌, List, [], ◌∷◌, ◌++◌, arith, is_empty_iff, nat_eq,
}
use websocket.Text.{Str, trim_space}
use websocket.Config.{split_comma, keep_values, split_csv}

unfoldable pub has_comma : Str → Bool
has_comma [] = false
has_comma (c ∷ s) = nat_eq c b',' || has_comma s

-- The values with a comma between each two.
unfoldable pub join_csv : List Str → Str
join_csv [] = []
join_csv (v ∷ []) = v
join_csv (v ∷ w ∷ rest) = v ++ b',' ∷ join_csv (w ∷ rest)

-- A value that is not blank, has no white space at its ends and no comma.
abbrev pub IsCsvValue : Str → Type 0
IsCsvValue v = (v ≢ []) × (trim_space v ≡ v) × (has_comma v ≡ false)

abbrev pub AllCsvValues : List Str → Type 0
AllCsvValues [] = Unit
AllCsvValues (v ∷ rest) = IsCsvValue v × AllCsvValues rest

split_comma-plain : (v : Str) → has_comma v ≡ false → split_comma v ≡ (v, [])
unfolding split_comma has_comma
split_comma-plain [] h = refl
split_comma-plain (c ∷ v) h = ground (arith, split_comma-plain v)

split_comma-append :
    (v s : Str)
    → has_comma v ≡ false
    → split_comma (v ++ b',' ∷ s) ≡ (v, (split_comma s).0 ∷ (split_comma s).1)
unfolding split_comma has_comma
split_comma-append [] s h = refl
split_comma-append (c ∷ v) s h = ground (arith, split_comma-append v s)

keep_value :
    (v : Str) (parts : List Str) → IsCsvValue v → keep_values (v ∷ parts) ≡ v ∷ keep_values parts
unfolding keep_values
keep_value v parts (full, trimmed, plain) = ground (arith, is_empty_iff v)

blank_csv : split_csv [] ≡ []
unfolding split_csv split_comma keep_values trim_space
blank_csv = refl

-- Values that are not blank, are trimmed and hold no comma are read back from their list, in order.
pub split_csv-join_csv : (vs : List Str) → AllCsvValues vs → split_csv (join_csv vs) ≡ vs
unfolding split_csv join_csv
split_csv-join_csv [] h = blank_csv
split_csv-join_csv (v ∷ []) h =
    rw (split_comma-plain v h.0.2) (keep_value v [] h.0 ∙ (unfold keep_values in refl))
split_csv-join_csv (v ∷ w ∷ rest) h =
    rw (split_comma-append v (join_csv (w ∷ rest)) h.0.2)
      (keep_value v _ h.0 ∙ ap (λ (t : List Str). v ∷ t) (split_csv-join_csv (w ∷ rest) h.1))
