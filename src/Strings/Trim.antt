-- ===== src/Strings/Trim.antt =====
-- `TrimSpace`: what it leaves starts with no space, and trimming again changes nothing.
use sub_share_go.Common.{cons-ne-nil, ◌≢◌, [], ◌∷◌, ◌≡◌, refl, false, arith, All}
use sub_share_go.Strings.{Text, is_space, is_empty, trim_left, trim_right, trim_space}

-- A text that starts with no space.
abbrev pub StartsClean : Text → Type 0
StartsClean [] = Unit
StartsClean (c ∷ s) = is_space c ≡ false

trim_left-StartsClean : (s : Text) → StartsClean (trim_left s)
unfolding trim_left
trim_left-StartsClean [] = tt
trim_left-StartsClean (c ∷ s) = ground (arith, trim_left-StartsClean s)

trim_left-clean : (s : Text) → StartsClean s → trim_left s ≡ s
unfolding trim_left
trim_left-clean [] h = refl
trim_left-clean (c ∷ s) h = rw h

trim_right-StartsClean : (s : Text) → StartsClean s → StartsClean (trim_right s)
unfolding trim_right
trim_right-StartsClean [] h = tt
trim_right-StartsClean (c ∷ s) h = rw h h

trim_right_idem : (s : Text) → trim_right (trim_right s) ≡ trim_right s
unfolding trim_right
trim_right_idem [] = refl
trim_right_idem (c ∷ s) = ground (arith, trim_right_idem s)

pub trim_space-StartsClean : (s : Text) → StartsClean (trim_space s)
unfolding trim_space
trim_space-StartsClean s = trim_right-StartsClean (trim_left s) (trim_left-StartsClean s)

pub trim_space_idem : (s : Text) → trim_space (trim_space s) ≡ trim_space s
unfolding trim_space
trim_space_idem s =
    rw (trim_left-clean (trim_right (trim_left s)) (trim_space-StartsClean s))
      (trim_right_idem (trim_left s))

pub trim_space-nil : trim_space [] ≡ []
unfolding trim_space
trim_space-nil = refl

pub is_empty_test : (s : Text) → s ≢ [] → is_empty s ≡ false
is_empty_test [] h = absurd (h refl)
is_empty_test (c ∷ s) h = refl

pub ne-nil_of_test : (s : Text) → is_empty s ≡ false → s ≢ []
ne-nil_of_test [] h = cc
ne-nil_of_test (c ∷ s) h = cons-ne-nil c s

-- a text without spaces
abbrev pub Solid : Text → Type 0
Solid = All (λ c. is_space c ≡ false)

trim_left-Solid : (s : Text) → Solid s → trim_left s ≡ s
unfolding trim_left
trim_left-Solid [] h = refl
trim_left-Solid (c ∷ s) h = rw h.0 refl

trim_right-Solid : (s : Text) → Solid s → trim_right s ≡ s
unfolding trim_right
trim_right-Solid [] h = refl
trim_right-Solid (c ∷ s) h = rw (h.0, trim_right-Solid s h.1) refl

pub trim_space-Solid : (s : Text) → Solid s → trim_space s ≡ s
unfolding trim_space
trim_space-Solid s h = rw (trim_left-Solid s h, trim_right-Solid s h) refl
