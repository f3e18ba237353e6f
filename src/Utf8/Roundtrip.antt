-- ===== src/Utf8/Roundtrip.antt =====
-- Decoding and encoding of runes, one after the other.
use clientkit.Prelude.{
  ℕ, zero, suc, ◌+◌, ◌-◌, ◌/◌, ◌%◌, ◌≤◌, ◌<◌, ◌≡◌, refl, ◌⊎◌, inl, inr, true, List, [], ◌∷◌, ◌++◌,
  length, All, arith, ap, ◌∙◌,
}
use clientkit.Text.{Text}
use clientkit.Utf8.{decode_rune, encode_rune, encode, runes, runes_from, is_scalar, rune_len}

pub decode_two :
    (r : ℕ) (s : Text)
    → 0x80 ≤ r
    → r < 0x800
    → decode_rune (0xC0 + r / 0x40) ((0x80 + r % 0x40) ∷ s) ≡ (r, 2)
unfolding decode_rune
decode_two r s h k = ground arith

pub decode_three :
    (r : ℕ) (s : Text)
    → 0x800 ≤ r
    → r < 0x10000
    → (r < 0xD800) ⊎ (0xE000 ≤ r)
    → decode_rune (0xE0 + r / 0x1000) ((0x80 + r / 0x40 % 0x40) ∷ (0x80 + r % 0x40) ∷ s) ≡ (r, 3)
unfolding decode_rune
decode_three r s h k v = ground arith

pub decode_four :
    (r : ℕ) (s : Text)
    → 0x10000 ≤ r
    → r ≤ 0x10FFFF
    → decode_rune
        (0xF0 + r / 0x40000)
        ((0x80 + r / 0x1000 % 0x40) ∷ (0x80 + r / 0x40 % 0x40) ∷ (0x80 + r % 0x40) ∷ s)
      ≡ (r, 4)
unfolding decode_rune
decode_four r s h k = ground arith

decode_one : (r : ℕ) (s : Text) → r < 0x80 → decode_rune r s ≡ (r, 1)
unfolding decode_rune
decode_one r s h = ground arith

-- How the encoding of a rune that has one reads.
unfoldable pub Encoding : ℕ → Text → Type 0
Encoding r t =
    ((r < 0x80) × (t ≡ r ∷ []))
    ⊎ ((0x80 ≤ r) × (r < 0x800) × (t ≡ (0xC0 + r / 0x40) ∷ (0x80 + r % 0x40) ∷ []))
    ⊎ ((0x800 ≤ r)
        × (r < 0x10000)
        × ((r < 0xD800) ⊎ (0xE000 ≤ r))
        × (t ≡ (0xE0 + r / 0x1000) ∷ (0x80 + r / 0x40 % 0x40) ∷ (0x80 + r % 0x40) ∷ []))
    ⊎ ((0x10000 ≤ r)
        × (r ≤ 0x10FFFF)
        × (t
            ≡ (0xF0 + r / 0x40000)
              ∷ (0x80 + r / 0x1000 % 0x40)
              ∷ (0x80 + r / 0x40 % 0x40)
              ∷ (0x80 + r % 0x40)
              ∷ []))

pub encode_rune-Encoding : (r : ℕ) → is_scalar r ≡ true → Encoding r (encode_rune r)
unfolding Encoding encode_rune is_scalar
encode_rune-Encoding r h = ground arith

-- One rune that has an encoding, in front of any bytes.
runes-encode_rune :
    (r : ℕ) (s : Text) → is_scalar r ≡ true → runes_from 0 (encode_rune r ++ s) ≡ r ∷ runes_from 0 s
unfolding runes_from Encoding
runes-encode_rune r s h = elim (encode_rune-Encoding r h) [
  | inl (b, e) ↦ rw (e, decode_one r s b)
  | inr (inl (a, b, e)) ↦ rw (e, decode_two r s a b)
  | inr (inr (inl (a, b, v, e))) ↦ rw (e, decode_three r s a b v)
  | inr (inr (inr (a, b, e))) ↦ rw (e, decode_four r s a b)
]

-- Decoding the encoding of runes that have one gives them back.
pub runes-encode : (rs : List ℕ) → All (λ r. is_scalar r ≡ true) rs → runes (encode rs) ≡ rs
unfolding runes runes_from
runes-encode [] h = refl
runes-encode (r ∷ rs) h = runes-encode_rune r (encode rs) h.0 ∙ ap (◌∷◌ r) (runes-encode rs h.1)

decode_rune-scalar : (a : ℕ) (s : Text) → is_scalar (decode_rune a s).0 ≡ true
unfolding decode_rune is_scalar
decode_rune-scalar a s = ground arith

runes_from-scalar : (skip : ℕ) (s : Text) → All (λ r. is_scalar r ≡ true) (runes_from skip s)
unfolding runes_from
runes_from-scalar zero [] = tt
runes_from-scalar (suc skip) [] = tt
runes_from-scalar (suc skip) (a ∷ s) = runes_from-scalar skip s
runes_from-scalar zero (a ∷ s) =
    (decode_rune-scalar a s, runes_from-scalar ((decode_rune a s).1 - 1) s)

-- Every rune of every text, invalid bytes included, has an encoding.
pub runes-scalar : (s : Text) → All (λ r. is_scalar r ≡ true) (runes s)
unfolding runes
runes-scalar s = runes_from-scalar 0 s

pub length-encode_rune : (r : ℕ) → is_scalar r ≡ true → length (encode_rune r) ≡ rune_len r
unfolding encode_rune is_scalar rune_len
length-encode_rune r h = ground arith
