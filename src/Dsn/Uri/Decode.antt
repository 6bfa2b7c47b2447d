-- ===== src/Dsn/Uri/Decode.antt =====
-- Lemmas on percent_decode of src/dsn.rs.
use pg_maintainer.Prelude.{
  ◌≡◌, refl, ap, Bool-cases, inl, inr, ℕ, ◌+◌, ◌/◌, ◌%◌, ◌<◌, Bool, true, false, List, [], ◌∷◌,
  some, ltb, ◌==◌, if◌then◌else◌, All, arith,
}
use pg_maintainer.Dsn.Uri.{hex_digit, hex_byte, is_boundary, push_byte, decode_bytes}

-- An upper-case hexadecimal digit.
abbrev pub hex_of : ℕ → ℕ
hex_of n = if ltb n 10 then 48 + n else 55 + n

hex_digit-hex_of : (n : ℕ) → n < 16 → hex_digit (hex_of n) ≡ some n
unfolding hex_digit
hex_digit-hex_of n h = ground arith

plain : (b : ℕ) → b < 256 → (hex_of (b / 16) == b'+') ≡ false
plain b h = ground arith

hex_byte-hex_of : (b : ℕ) → b < 256 → hex_byte (hex_of (b / 16)) (hex_of (b % 16)) ≡ some b
unfolding hex_byte
hex_byte-hex_of b h =
    rw (hex_digit-hex_of (b / 16) (omega (arith, h)), hex_digit-hex_of (b % 16) (omega arith))
      (rw (plain b h) (ap some (omega arith)))

push_byte_plain :
    (b : ℕ) (bs : List ℕ)
    → (b == b'%') ≡ false
    → decode_bytes (b ∷ bs) ≡ push_byte b (decode_bytes bs)
unfolding decode_bytes push_byte
push_byte_plain b [] h = refl
push_byte_plain b (c ∷ []) h = refl
push_byte_plain b (c ∷ d ∷ bs) h = rw (decode_bytes, h) refl

push_byte_coded :
    (c d v : ℕ) (bs : List ℕ)
    → is_boundary bs ≡ true
    → hex_byte c d ≡ some v
    → decode_bytes (b'%' ∷ c ∷ d ∷ bs) ≡ push_byte v (decode_bytes bs)
unfolding decode_bytes
push_byte_coded c d v bs end h = rw (decode_bytes, end, h) refl

-- `keep` says which bytes an encoder leaves as they are: ASCII ones at most, and not `%`.
module _ (keep : ℕ → Bool) where
  abbrev pub IsEncoder : Type 0
  IsEncoder = (b : ℕ) → keep b ≡ true → (b < 128) × ((b == b'%') ≡ false)

  -- every other byte as `%XX`
  abbrev pub percent_encode : List ℕ → List ℕ
  percent_encode [] = []
  percent_encode (b ∷ bs) =
      if keep b
      then b ∷ percent_encode bs
      else b'%' ∷ hex_of (b / 16) ∷ hex_of (b % 16) ∷ percent_encode bs

  module _ (encoder : IsEncoder) where
    is_boundary-percent_encode : (bs : List ℕ) → is_boundary (percent_encode bs) ≡ true
    unfolding is_boundary
    is_boundary-percent_encode [] = refl
    is_boundary-percent_encode (b ∷ bs) = elim (Bool-cases (keep b)) [
      | inl kept ↦ rw kept (ground (arith, encoder b kept))
      | inr coded ↦ rw coded refl
    ]

    -- Whatever ASCII bytes but `%` an encoder leaves as they are, bytes that it writes are decoded to the
    -- same bytes, without a panic.
    pub decode_bytes-percent_encode :
        (bs : List ℕ) → All (λ b. b < 256) bs → decode_bytes (percent_encode bs) ≡ some bs
    unfolding push_byte decode_bytes
    decode_bytes-percent_encode [] h = refl
    decode_bytes-percent_encode (b ∷ bs) (hb, h) = elim (Bool-cases (keep b)) [
      | inl kept ↦
          rw
            (
              kept,
              push_byte_plain b (percent_encode bs) (encoder b kept).1,
              decode_bytes-percent_encode bs h,
            )
            refl
      | inr coded ↦
          rw
            (
              coded,
              push_byte_coded _ _ b (percent_encode bs) (is_boundary-percent_encode bs)
                  (hex_byte-hex_of b hb),
              decode_bytes-percent_encode bs h,
            )
            refl
    ]
