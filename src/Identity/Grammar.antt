-- ===== src/Identity/Grammar.antt =====
-- What the validators accept, said without their tests.
use mathlib.Core.List.{reverse, reverse-reverse, reverse-append, reverse-cons}
use clientkit.Prelude.{
  ℕ, ◌≡◌, ◌≢◌, ◌≤◌, ◌<◌, ◌↔◌, ◌⊎◌, inl, inr, refl, ap, ◌∙◌, true, false, [], ◌∷◌, ◌++◌, none, ◌==◌,
  nat_eq, every, All, length, arith, Bool-cases, sym, subst, true-ne-false,
}
use clientkit.Text.{Text, text_eq, contains_dots, contains_dots_sound, contains_dots_complete}
use clientkit.Text.Trim.{trim_space, trim_space_id, Printable}
use clientkit.Identity.{
  validate_client_name, validate_client_protocol, client_name_alphanumeric, client_name_byte,
  first_byte, last_byte,
}

-- A lower-case ASCII letter or a digit.
abbrev pub IsAlphanumeric : ℕ → Type 0
IsAlphanumeric c = ((b'a' ≤ c) × (c ≤ b'z')) ⊎ ((b'0' ≤ c) × (c ≤ b'9'))

abbrev pub IsNameByte : ℕ → Type 0
IsNameByte c = IsAlphanumeric c ⊎ (c ≡ b'-') ⊎ (c ≡ b'_') ⊎ (c ≡ b'.')

-- The identifiers of at most `limit` bytes that ValidateClientName documents.
pub record IsIdentifier (limit : ℕ) (s : Text) : Type 0 where
  pub starts : (c : ℕ) × (rest : Text) × (s ≡ c ∷ rest) × IsAlphanumeric c
  pub ends : (init : Text) × (c : ℕ) × (s ≡ init ++ c ∷ []) × IsAlphanumeric c
  pub bounded : length s ≤ limit
  pub bytes : All IsNameByte s
  pub no_dots : (u v : Text) → s ≢ u ++ b'.' ∷ b'.' ∷ v

every-IsNameByte : (s : Text) → (every client_name_byte s ≡ true) ↔ All IsNameByte s
unfolding client_name_byte client_name_alphanumeric
every-IsNameByte [] = (λ h. tt, λ h. refl)
every-IsNameByte (c ∷ s) = ground (arith, every-IsNameByte s)

IsAlphanumeric-iff : (c : ℕ) → (client_name_alphanumeric c ≡ true) ↔ IsAlphanumeric c
unfolding client_name_alphanumeric
IsAlphanumeric-iff c = ground arith

alphanumeric-Printable : (c : ℕ) → client_name_alphanumeric c ≡ true → (32 < c) × (c < 128)
unfolding client_name_alphanumeric
alphanumeric-Printable c h = ground arith

-- The tests of the two validators, all passed.
record IsAccepted (limit : ℕ) (s : Text) : Type 0 where
  present : (s == []) ≡ false
  trimmed : (trim_space s == s) ≡ true
  bounded : length s ≤ limit
  undotted : contains_dots s ≡ false
  starts : client_name_alphanumeric (first_byte s) ≡ true
  ends : client_name_alphanumeric (last_byte s) ≡ true
  bytes : every client_name_byte s ≡ true

validate_client_name-IsAccepted : (s : Text) → (validate_client_name s ≡ none) ↔ IsAccepted 64 s
unfolding validate_client_name
validate_client_name-IsAccepted s = ground arith

split_first :
    (s : Text)
    → client_name_alphanumeric (first_byte s) ≡ true
    → (c : ℕ) × (rest : Text) × (s ≡ c ∷ rest) × IsAlphanumeric c
unfolding client_name_alphanumeric
split_first [] h = cc
split_first (c ∷ rest) h = (c, rest, refl, ground arith)

split_last :
    (s : Text)
    → client_name_alphanumeric (last_byte s) ≡ true
    → (init : Text) × (c : ℕ) × (s ≡ init ++ c ∷ []) × IsAlphanumeric c
split_last s h =
    let (c, rest, e, alnum) = split_first (reverse s) h in
    (reverse rest, c, sym (reverse-reverse s) ∙ ap reverse e ∙ reverse-cons c rest, alnum)

first_of_snoc : (init : Text) (c : ℕ) → last_byte (init ++ c ∷ []) ≡ c
first_of_snoc init c = ap first_byte (reverse-append init (c ∷ []))

present_of_first : (s : Text) → client_name_alphanumeric (first_byte s) ≡ true → (s == []) ≡ false
unfolding client_name_alphanumeric
present_of_first [] h = cc
present_of_first (c ∷ rest) h = refl

first-Printable : (s : Text) → client_name_alphanumeric (first_byte s) ≡ true → Printable s
first-Printable [] h = tt
first-Printable (c ∷ rest) h = alphanumeric-Printable c h

IsAccepted-IsIdentifier : (limit : ℕ) (s : Text) → IsAccepted limit s → IsIdentifier limit s
IsAccepted-IsIdentifier limit s a = record {
  starts = split_first s a.starts;
  ends = split_last s a.ends;
  bounded = a.bounded;
  bytes = (every-IsNameByte s).0 a.bytes;
  no_dots = λ u v e.
      true-ne-false (subst (λ t. contains_dots t ≡ true) (sym e) (contains_dots_complete u v))
        a.undotted;
}

IsIdentifier-IsAccepted : (limit : ℕ) (s : Text) → IsIdentifier limit s → IsAccepted limit s
IsIdentifier-IsAccepted limit s a = record {
  present = present_of_first s front;
  trimmed =
      (text_eq.beq_iff _ _).1
        (trim_space_id s (first-Printable s front) (first-Printable (reverse s) back));
  bounded = a.bounded;
  undotted = elim (Bool-cases (contains_dots s)) [
    | inl dotted ↦ let (u, v, e) = contains_dots_sound s dotted in absurd (a.no_dots u v e)
    | inr undotted ↦ undotted
  ];
  starts = front;
  ends = back;
  bytes = (every-IsNameByte s).1 a.bytes;
}
  where
    front : client_name_alphanumeric (first_byte s) ≡ true
    front =
        let (c, rest, e, alnum) = a.starts in
        subst (λ t. client_name_alphanumeric (first_byte t) ≡ true) (sym e)
          ((IsAlphanumeric-iff c).1 alnum)

    back : client_name_alphanumeric (last_byte s) ≡ true
    back =
        let (init, c, e, alnum) = a.ends in
        subst (λ t. client_name_alphanumeric t ≡ true) (sym (ap last_byte e ∙ first_of_snoc init c))
          ((IsAlphanumeric-iff c).1 alnum)

-- ValidateClientName accepts exactly the identifiers of at most 64 bytes.
pub validate_client_name_iff : (s : Text) → (validate_client_name s ≡ none) ↔ IsIdentifier 64 s
validate_client_name_iff s = (
  λ h. IsAccepted-IsIdentifier 64 s ((validate_client_name-IsAccepted s).0 h),
  λ h. (validate_client_name-IsAccepted s).1 (IsIdentifier-IsAccepted 64 s h),
)

validate_client_protocol-IsAccepted :
    (s : Text) → (validate_client_protocol s ≡ none) ↔ IsAccepted 32 s
unfolding validate_client_protocol
validate_client_protocol-IsAccepted s = ground arith

-- ValidateClientProtocol accepts exactly the identifiers of at most 32 bytes.
validate_client_protocol_iff : (s : Text) → (validate_client_protocol s ≡ none) ↔ IsIdentifier 32 s
validate_client_protocol_iff s = (
  λ h. IsAccepted-IsIdentifier 32 s ((validate_client_protocol-IsAccepted s).0 h),
  λ h. (validate_client_protocol-IsAccepted s).1 (IsIdentifier-IsAccepted 32 s h),
)
