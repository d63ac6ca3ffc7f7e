-- ===== src/Controls/Fields.antt =====
-- The fields of a control's data: `data[0] = x`, SHORT_TO_SW and INT_TO_DW on the way out, and
-- the assignment to a parameter's C type on the way in.
use tcluvc.Prelude.{
  ℕ, ◌+◌, ◌-◌, ◌/◌, ◌%◌, ◌≤◌, ◌<◌, ◌≡◌, refl, ap₂, List, [], ◌∷◌, ◌++◌, ltb, if◌then◌else◌, drop,
  arith,
}
use tcluvc.Prelude.Int.{ℤ, pos, negsuc, pos_part, neg_part}
use tcluvc.Bytes.{byte_at, sw_to_short, dw_to_int, short_to_sw, int_to_dw}

-- The C type of a parameter.
pub data Kind : Type 0 where
  u8 i8 u16 i16 u32 i32 : Kind

abbrev pub width : Kind → ℕ
width u8 = 1
width i8 = 1
width u16 = 2
width i16 = 2
width u32 = 4
width i32 = 4

-- The bits of an integer in a word of `m` values, and the signed integer that such bits stand for.
unfoldable pub word : ℕ → ℤ → ℕ
word m (pos n) = n % m
word m (negsuc n) = m - 1 - n % m

unfoldable pub signed : ℕ → ℕ → ℤ
signed m b = if ltb b (m / 2) then pos b else negsuc (m - 1 - b)

unfoldable pub encode_field : Kind → ℤ → List ℕ
unfolding word short_to_sw int_to_dw
encode_field u8 v = word 256 v ∷ []
encode_field i8 v = word 256 v ∷ []
encode_field u16 v = short_to_sw (word 65536 v)
encode_field i16 v = short_to_sw (word 65536 v)
encode_field u32 v = int_to_dw (word 4294967296 v)
encode_field i32 v = int_to_dw (word 4294967296 v)

unfoldable pub decode_field : Kind → List ℕ → ℤ
unfolding signed byte_at sw_to_short dw_to_int
decode_field u8 p = pos (byte_at p 0)
decode_field i8 p = signed 256 (byte_at p 0)
decode_field u16 p = pos (sw_to_short p 0)
decode_field i16 p = signed 65536 (sw_to_short p 0)
decode_field u32 p = pos (dw_to_int p 0)
decode_field i32 p = signed 4294967296 (dw_to_int p 0)

-- Fields stand one behind the other.
unfoldable pub encode_fields : List Kind → List ℤ → List ℕ
encode_fields (k ∷ ks) (v ∷ vs) = encode_field k v ++ encode_fields ks vs
encode_fields _ _ = []

unfoldable pub decode_fields : List Kind → List ℕ → List ℤ
decode_fields [] p = []
decode_fields (k ∷ ks) p = decode_field k p ∷ decode_fields ks (drop (width k) p)

-- `sizeof(data)`.
abbrev pub size : List Kind → ℕ
size [] = 0
size (k ∷ ks) = width k + size ks

-- The values of a C type.
abbrev pub half : Kind → ℕ
half u8 = 128
half i8 = 128
half u16 = 32768
half i16 = 32768
half u32 = 2147483648
half i32 = 2147483648

abbrev pub InRange : Kind → ℤ → Type 0
InRange u8 v = (neg_part v ≡ 0) × (pos_part v < 256)
InRange i8 v = (neg_part v ≤ 128) × (pos_part v < 128)
InRange u16 v = (neg_part v ≡ 0) × (pos_part v < 65536)
InRange i16 v = (neg_part v ≤ 32768) × (pos_part v < 32768)
InRange u32 v = (neg_part v ≡ 0) × (pos_part v < 4294967296)
InRange i32 v = (neg_part v ≤ 2147483648) × (pos_part v < 2147483648)

-- One value in range for each field.
abbrev pub AreInRange : List Kind → List ℤ → Type 0
AreInRange [] [] = Unit {0}
AreInRange (k ∷ ks) (v ∷ vs) = InRange k v × AreInRange ks vs
AreInRange _ _ = ⊥

decode_field-encode_field :
    (k : Kind) (v : ℤ) (rest : List ℕ) → InRange k v → decode_field k (encode_field k v ++ rest) ≡ v
unfolding decode_field encode_field
decode_field-encode_field u8 v rest h = ground arith
decode_field-encode_field i8 v rest h = ground arith
decode_field-encode_field u16 v rest h = ground arith
decode_field-encode_field i16 v rest h = ground arith
decode_field-encode_field u32 v rest h = ground arith
decode_field-encode_field i32 v rest h = ground arith

drop-encode_field :
    (k : Kind) (v : ℤ) (rest : List ℕ) → drop (width k) (encode_field k v ++ rest) ≡ rest
unfolding encode_field
drop-encode_field u8 v rest = refl
drop-encode_field _ v rest = refl

-- Values in the range of their types come back from the bytes that they were written as.
pub decode_fields-encode_fields :
    (ks : List Kind) (vs : List ℤ) → AreInRange ks vs → decode_fields ks (encode_fields ks vs) ≡ vs
unfolding decode_fields encode_fields
decode_fields-encode_fields [] [] h = refl
decode_fields-encode_fields [] (v ∷ vs) h = elim h [ ]
decode_fields-encode_fields (k ∷ ks) [] h = elim h [ ]
decode_fields-encode_fields (k ∷ ks) (v ∷ vs) (h, hs) =
    ap₂ ◌∷◌ (decode_field-encode_field k v (encode_fields ks vs) h)
      (rw (drop-encode_field k v (encode_fields ks vs)) (decode_fields-encode_fields ks vs hs))
