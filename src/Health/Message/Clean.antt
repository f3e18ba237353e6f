-- ===== src/Health/Message/Clean.antt =====
-- What a bounded message is made of.
use mathlib.Core.List.{
  reverse, reverse-append, reverse-cons, reverse-reverse, append-nil, append_assoc,
}
use clientkit.Prelude.{
  ℕ, zero, suc, ◌+◌, ◌-◌, ◌≤◌, ◌<◌, ◌≡◌, refl, ◌∙◌, ap, sym, subst, inl, inr, true, List, [], ◌∷◌,
  ◌++◌, ltb, length, All, All-append, arith, Bool-cases, length-append, if◌then◌else◌, leb, le→leb,
  nat_eq,
}
use clientkit.Text.{Text}
use clientkit.Utf8.{encode_rune, encode, runes, is_scalar, is_continuation, rune_len}
use clientkit.Utf8.Roundtrip.{
  Encoding, encode_rune-Encoding, decode_two, decode_three, decode_four, runes-encode, runes-scalar,
  length-encode_rune,
}
use clientkit.Health.Message.{
  keeps_rune, kept_runes, last_rune_size, take, drop_last_runes, fill, bounded_health_message,
}

-- A rune that the sanitizer keeps, and that has an encoding.
abbrev pub IsClean : ℕ → Type 0
IsClean r = (keeps_rune r ≡ true) × (is_scalar r ≡ true)

kept_runes-IsClean : (rs : List ℕ) → All (λ r. is_scalar r ≡ true) rs → All IsClean (kept_runes rs)
unfolding kept_runes
kept_runes-IsClean [] h = tt
kept_runes-IsClean (r ∷ rs) h = ground (arith, kept_runes-IsClean rs h.1)

-- A clean run of runes loses nothing.
kept_runes_id : (rs : List ℕ) → All IsClean rs → kept_runes rs ≡ rs
unfolding kept_runes
kept_runes_id [] h = refl
kept_runes_id (r ∷ rs) h = ground (arith, kept_runes_id rs h.1)

encode-append : (rs ts : List ℕ) → encode (rs ++ ts) ≡ encode rs ++ encode ts
encode-append [] ts = refl
encode-append (r ∷ rs) ts = simp (encode-append rs ts, append_assoc)

-- The last rune of an encoding is found whole.
last_rune_size-encode_rune :
    (r : ℕ) (before : Text)
    → is_scalar r ≡ true
    → last_rune_size (reverse (encode_rune r) ++ before) ≡ rune_len r
unfolding last_rune_size Encoding rune_len is_continuation
last_rune_size-encode_rune r before h = elim (encode_rune-Encoding r h) [
  | inl (b, e) ↦ rw e (ground arith)
  | inr (inl (a, b, e)) ↦ rw e (ground (arith, decode_two r [] a b))
  | inr (inr (inl (a, b, v, e))) ↦ rw e (ground (arith, decode_three r [] a b v))
  | inr (inr (inr (a, b, e))) ↦ rw e (ground (arith, decode_four r [] a b))
]

take-append : (u v : Text) → take (length u) (u ++ v) ≡ u
take-append [] [] = refl
take-append [] (b ∷ v) = refl
take-append (a ∷ u) v = ap (◌∷◌ a) (take-append u v)

rune_len_pos : (r : ℕ) → 0 < rune_len r
unfolding rune_len
rune_len_pos r = ground arith

take_before_last :
    (u : Text) (q : ℕ)
    → is_scalar q ≡ true
    → take (length (u ++ encode_rune q) - rune_len q) (u ++ encode_rune q) ≡ u
take_before_last u q h =
    ap (λ n. take n (u ++ encode_rune q))
      (omega (arith, length-append u (encode_rune q), length-encode_rune q h))
    ∙ take-append u (encode_rune q)

-- A round of the loop takes one whole rune off.
drop_step :
    (fuel : ℕ) (u : Text) (q : ℕ)
    → is_scalar q ≡ true
    → drop_last_runes (suc fuel) (u ++ encode_rune q) ≡ (
        if ltb 256 (length (u ++ encode_rune q))
        then drop_last_runes fuel u
        else u ++ encode_rune q)
unfolding drop_last_runes
drop_step fuel u q h =
    rw
      (
        reverse-append u (encode_rune q),
        last_rune_size-encode_rune q (reverse u) h,
        take_before_last u q h,
      )
      (ground (arith, rune_len_pos q))

encode-reverse-cons :
    (q : ℕ) (qs : List ℕ) → encode (reverse (q ∷ qs)) ≡ encode (reverse qs) ++ encode_rune q
encode-reverse-cons q qs =
    ap encode (reverse-cons q qs)
    ∙ encode-append (reverse qs) (q ∷ [])
    ∙ ap (◌++◌ (encode (reverse qs))) (append-nil (encode_rune q))

-- A text that encodes clean runes and meets the bound.
pub record IsBounded (t : Text) : Type 0 where
  pub kept : List ℕ
  pub clean : All IsClean kept
  pub encoded : t ≡ encode kept
  pub within : length t ≤ 256

All-reverse : (rs : List ℕ) → All IsClean rs → All IsClean (reverse rs)
All-reverse [] h = tt
All-reverse (r ∷ rs) h =
    subst (All IsClean) (sym (reverse-cons r rs))
      (All-append IsClean (reverse rs) (r ∷ []) (All-reverse rs h.1) (h.0, tt))

drop_last_runes-IsBounded :
    (fuel : ℕ) (qs : List ℕ)
    → All IsClean qs
    → length (encode (reverse qs)) ≤ fuel
    → IsBounded (drop_last_runes fuel (encode (reverse qs)))
unfolding drop_last_runes
drop_last_runes-IsBounded zero qs c h = record {
  kept = reverse qs;
  clean = All-reverse qs c;
  encoded = refl;
  within = omega arith;
}
drop_last_runes-IsBounded (suc fuel) [] c h = record {
  kept = [];
  clean = tt;
  encoded = refl;
  within = omega arith;
}
drop_last_runes-IsBounded (suc fuel) (q ∷ qs) c h =
    let e = encode-reverse-cons q qs in
    let size = length-append (encode (reverse qs)) (encode_rune q) in
    elim (Bool-cases (ltb 256 (length (encode (reverse qs) ++ encode_rune q)))) [
      | inl long ↦
          subst IsBounded
            (sym (
              ap (drop_last_runes (suc fuel)) e
              ∙ drop_step fuel (encode (reverse qs)) q c.0.1
              ∙ rw long))
            (drop_last_runes-IsBounded fuel qs c.1
              (omega (arith, ap length e, size, length-encode_rune q c.0.1, rune_len_pos q)))
      | inr short ↦
          subst IsBounded
            (sym (
              ap (drop_last_runes (suc fuel)) e
              ∙ drop_step fuel (encode (reverse qs)) q c.0.1
              ∙ rw short))
            (record {
              kept = reverse (q ∷ qs);
              clean = All-reverse (q ∷ qs) c;
              encoded = sym e;
              within = ground arith;
            })
    ]

drop_last_runes_id : (fuel : ℕ) (t : Text) → length t ≤ 256 → drop_last_runes fuel t ≡ t
unfolding drop_last_runes
drop_last_runes_id zero t h = refl
drop_last_runes_id (suc fuel) t h = ground arith

scalars : (rs : List ℕ) → All IsClean rs → All (λ r. is_scalar r ≡ true) rs
scalars [] c = tt
scalars (r ∷ rs) c = (c.0.1, scalars rs c.1)

kept_only : (rs : List ℕ) → All IsClean rs → All (λ r. keeps_rune r ≡ true) rs
kept_only [] c = tt
kept_only (r ∷ rs) c = (c.0.0, kept_only rs c.1)

-- The loop over the runes of a long message.
record IsFilled (written : ℕ) (t : Text) : Type 0 where
  kept : List ℕ
  clean : All IsClean kept
  encoded : t ≡ encode kept
  within : written + length t ≤ 256

fill_one :
    (written : ℕ) {t : Text} (r : ℕ)
    → IsClean r
    → IsFilled (written + rune_len r) t
    → IsFilled written (encode_rune r ++ t)
fill_one written {t} r c f = record {
  kept = r ∷ f.kept;
  clean = (c, f.clean);
  encoded = ap (◌++◌ (encode_rune r)) f.encoded;
  within = omega (arith, f.within, length-append (encode_rune r) t, length-encode_rune r c.1);
}

fill-IsFilled :
    (written : ℕ) (rs : List ℕ)
    → All (λ r. is_scalar r ≡ true) rs
    → written ≤ 256
    → IsFilled written (fill written rs)
unfolding fill
fill-IsFilled written [] h w = record {
  kept = [];
  clean = tt;
  encoded = refl;
  within = omega arith;
}
fill-IsFilled written (r ∷ rs) h w = elim (Bool-cases (keeps_rune r)) [
  | inr drops ↦ rw drops (fill-IsFilled written rs h.1 w)
  | inl keeps ↦ elim (Bool-cases (ltb 256 (written + rune_len r))) [
    | inl full ↦
        rw (keeps, full) (record { kept = []; clean = tt; encoded = refl; within = omega arith })
    | inr room ↦
        rw (keeps, room)
          (fill_one written r (keeps, h.0)
            (fill-IsFilled (written + rune_len r) rs h.1 (ground arith)))
  ]
]

-- Whatever the bytes, the result encodes kept runes in at most 256 bytes.
pub bounded_health_message-IsBounded : (m : Text) → IsBounded (bounded_health_message m)
unfolding bounded_health_message
bounded_health_message-IsBounded m = elim (Bool-cases (leb (length m) 256)) [
  | inl short ↦
      rw short (mapped (kept_runes (runes m)) (kept_runes-IsClean (runes m) (runes-scalar m)))
  | inr long ↦
      let f = fill-IsFilled 0 (runes m) (runes-scalar m) (omega arith) in
      rw long (record {
        kept = f.kept;
        clean = f.clean;
        encoded = f.encoded;
        within = omega (arith, f.within);
      })
]
  where
    mapped :
        (rs : List ℕ)
        → All IsClean rs
        → IsBounded (drop_last_runes (length (encode rs)) (encode rs))
    mapped rs c =
        subst (λ qs. IsBounded (drop_last_runes (length (encode qs)) (encode qs)))
          (reverse-reverse rs)
          (drop_last_runes-IsBounded _ (reverse rs) (All-reverse rs c) (omega arith))

IsBounded-runes : {t : Text} → (b : IsBounded t) → runes t ≡ b.kept
IsBounded-runes b = ap runes b.encoded ∙ runes-encode b.kept (scalars b.kept b.clean)

-- A message that is bounded already is left as it is.
pub bounded_health_message_id : (t : Text) → IsBounded t → bounded_health_message t ≡ t
unfolding bounded_health_message
bounded_health_message_id t b =
    rw
      (
        le→leb (length t) 256 b.within,
        IsBounded-runes b,
        kept_runes_id b.kept b.clean,
        sym b.encoded,
      )
      (drop_last_runes_id (length t) t b.within)

-- The result has at most 256 bytes, its runes are all kept by the sanitizer, and to bound it
-- once more changes nothing.
pub bounded_health_message_lem :
    (m : Text)
    → (length (bounded_health_message m) ≤ 256)
      × All (λ r. keeps_rune r ≡ true) (runes (bounded_health_message m))
      × (bounded_health_message (bounded_health_message m) ≡ bounded_health_message m)
bounded_health_message_lem m =
    let b = bounded_health_message-IsBounded m in
    (
      b.within,
      subst (All (λ r. keeps_rune r ≡ true)) (sym (IsBounded-runes b)) (kept_only b.kept b.clean),
      bounded_health_message_id _ b,
    )
