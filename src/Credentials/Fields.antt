-- ===== src/Credentials/Fields.antt =====
-- Lemmas on the parts of a line of the password file, src/credentials.rs.
use pg_maintainer.Prelude.{
  ◌≡◌, refl, sym, ap, ◌∙◌, ℕ, Bool-cases, false, List, [], ◌∷◌, ◌++◌, append_assoc, append-nil, map,
  join, inl, inr, Text, ◌==◌, ==_iff, if◌then◌else◌,
}
use pg_maintainer.Credentials.{split_fields, split_pgpass_line}

-- A field as it is written: `:` and `\` behind a `\`.
abbrev pub escape_field : Text → Text
escape_field [] = []
escape_field (c ∷ s) =
    (if c == b'\\' then b'\\' ∷ b'\\' ∷ [] else if c == b':' then b'\\' ∷ b':' ∷ [] else c ∷ [])
    ++ escape_field s

split_fields_plain :
    (current : Text) (c : ℕ) (s : Text)
    → (c == b'\\') ≡ false
    → (c == b':') ≡ false
    → split_fields current (c ∷ s) ≡ split_fields (current ++ c ∷ []) s
unfolding split_fields
split_fields_plain current c [] h q = rw (h, q) refl
split_fields_plain current c (d ∷ s) h q = rw (split_fields, h, q) refl

split_fields_close :
    (current s : Text) → split_fields current (b':' ∷ s) ≡ current ∷ split_fields [] s
unfolding split_fields
split_fields_close current [] = refl
split_fields_close current (d ∷ s) = refl

split_fields_colon :
    (current s : Text)
    → split_fields current (b'\\' ∷ b':' ∷ s) ≡ split_fields (current ++ b':' ∷ []) s
unfolding split_fields
split_fields_colon current s = refl

split_fields_backslash :
    (current s : Text)
    → split_fields current (b'\\' ∷ b'\\' ∷ s) ≡ split_fields (current ++ b'\\' ∷ []) s
unfolding split_fields
split_fields_backslash current s = refl

-- a field, and what follows it
split_fields-escape_field :
    (current field s : Text)
    → split_fields current (escape_field field ++ s) ≡ split_fields (current ++ field) s
split_fields-escape_field current [] s = ap (λ t. split_fields t s) (sym (append-nil current))
split_fields-escape_field current (c ∷ field) s =
    let ih = split_fields-escape_field (current ++ c ∷ []) field s in
    let whole : split_fields (current ++ c ∷ [] ++ field) s
        ≡ split_fields (current ++ c ∷ field) s =
      ap (λ t. split_fields t s) (append_assoc current (c ∷ []) field) in
    elim (Bool-cases (c == b'\\')) [
      | inl back ↦
          rw (back, split_fields_backslash current (escape_field field ++ s))
            (ap (λ k. split_fields (current ++ k ∷ []) (escape_field field ++ s))
                (sym ((==_iff c b'\\').0 back))
              ∙ (ih ∙ whole))
      | inr b ↦ elim (Bool-cases (c == b':')) [
        | inl colon ↦
            rw (b, colon, split_fields_colon current (escape_field field ++ s))
              (ap (λ k. split_fields (current ++ k ∷ []) (escape_field field ++ s))
                  (sym ((==_iff c b':').0 colon))
                ∙ (ih ∙ whole))
        | inr q ↦ rw (b, q, split_fields_plain current c (escape_field field ++ s) b q) (ih ∙ whole)
      ]
    ]

-- Fields written with `\` before each `:` and each `\`, and a `:` between them, are the parts of the line
-- that they make, whatever they hold.
pub split_pgpass_line-escape_field :
    (field : Text) (fields : List Text)
    → split_pgpass_line (join (b':' ∷ []) (map escape_field (field ∷ fields))) ≡ field ∷ fields
unfolding split_pgpass_line join split_fields
split_pgpass_line-escape_field field [] =
    ap (split_fields []) (sym (append-nil (escape_field field)))
    ∙ split_fields-escape_field [] field []
split_pgpass_line-escape_field field (next ∷ fields) =
    split_fields-escape_field [] field (b':' ∷ join (b':' ∷ []) (map escape_field (next ∷ fields)))
    ∙ (split_fields_close field _
        ∙ ap (λ t. field ∷ t) (split_pgpass_line-escape_field next fields))
