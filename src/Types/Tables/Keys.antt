-- ===== src/Types/Tables/Keys.antt =====
-- The equality of keys.
use pg_maintainer.Prelude.{◌≡◌, Bool-cases, true, false, Text, text_eq, text_eq_iff, arith}
use mathlib.Core.Logic.{⊎_elim}
use pg_maintainer.Types.Tables.{TableKey, key_eq}

text_eq_sym : (a b : Text) → text_eq a b ≡ false → text_eq b a ≡ false
text_eq_sym a b h =
    ⊎_elim (λ yes. ground (arith, h, text_eq_iff a b, text_eq_iff b a)) (λ no. no)
      (Bool-cases (text_eq b a))

pub key_eq_sym : (a b : TableKey) → key_eq a b ≡ false → key_eq b a ≡ false
key_eq_sym a b h = ground (arith, h, text_eq_sym a.schema b.schema, text_eq_sym a.table b.table)

pub key_eq-path : (a b : TableKey) → key_eq a b ≡ true → a ≡ b
key_eq-path a b h =
    let schemas : a.schema ≡ b.schema = (text_eq_iff a.schema b.schema).0 (ground (arith, h)) in
    let tables : a.table ≡ b.table = (text_eq_iff a.table b.table).0 (ground (arith, h)) in cc
