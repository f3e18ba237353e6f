-- ===== src/Text/Order.antt =====
-- The byte order of texts as an order.
use clientkit.Prelude.{◌≡◌, refl, true, false, [], ◌∷◌, nat_eq, arith}
use clientkit.Text.{Text, text_ltb}

pub text_ltb_irrefl : (s : Text) → text_ltb s s ≡ false
unfolding text_ltb
text_ltb_irrefl [] = refl
text_ltb_irrefl (a ∷ s) = ground (arith, text_ltb_irrefl s)

pub text_ltb_asymm : (s t : Text) → text_ltb s t ≡ true → text_ltb t s ≡ false
unfolding text_ltb
text_ltb_asymm [] [] h = refl
text_ltb_asymm [] (b ∷ t) h = refl
text_ltb_asymm (a ∷ s) [] h = cc
text_ltb_asymm (a ∷ s) (b ∷ t) h = ground (arith, text_ltb_asymm s t)

pub text_ltb_trans :
    (s t u : Text) → text_ltb s t ≡ true → text_ltb t u ≡ true → text_ltb s u ≡ true
unfolding text_ltb
text_ltb_trans [] [] u h k = cc
text_ltb_trans [] (b ∷ t) [] h k = cc
text_ltb_trans [] (b ∷ t) (c ∷ u) h k = refl
text_ltb_trans (a ∷ s) [] u h k = cc
text_ltb_trans (a ∷ s) (b ∷ t) [] h k = cc
text_ltb_trans (a ∷ s) (b ∷ t) (c ∷ u) h k = ground (arith, text_ltb_trans s t u)

pub text_ltb_total : (s t : Text) → text_ltb s t ≡ false → text_ltb t s ≡ false → s ≡ t
unfolding text_ltb
text_ltb_total [] [] h k = refl
text_ltb_total [] (b ∷ t) h k = cc
text_ltb_total (a ∷ s) [] h k = cc
text_ltb_total (a ∷ s) (b ∷ t) h k = ground (arith, text_ltb_total s t)
