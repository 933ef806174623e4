-- ===== src/Strings/Split.antt =====
-- `Split` and `Join` at one rune: each undoes the other.
use sub_share_go.Common.{
  ℕ, List, [], ◌∷◌, ◌++◌, ◌≡◌, ◌≢◌, refl, sym, ap, ◌∙◌, arith, All, nat_eq, nat_eq_iff, Bool-cases,
  inl, inr, cons-ne-nil, append-ne-nil,
}
use sub_share_go.Strings.{Text, split, join, put_first}

abbrev pub Lacks : ℕ → Text → Type 0
Lacks sep = All (λ c. c ≢ sep)

put_first-ne-nil : (c : ℕ) (parts : List Text) → put_first c parts ≢ []
put_first-ne-nil c [] = cons-ne-nil (c ∷ []) []
put_first-ne-nil c (p ∷ ps) = cons-ne-nil (c ∷ p) ps

put_first-Lacks :
    (sep c : ℕ) (parts : List Text)
    → c ≢ sep
    → All (Lacks sep) parts
    → All (Lacks sep) (put_first c parts)
put_first-Lacks sep c [] ne h = ((ne, tt), tt)
put_first-Lacks sep c (p ∷ ps) ne h = ((ne, h.0), h.1)

pub split-ne-nil : (sep : ℕ) (s : Text) → split sep s ≢ []
unfolding split
split-ne-nil sep [] = cons-ne-nil [] []
split-ne-nil sep (c ∷ s) = elim (Bool-cases (nat_eq c sep)) [
  | inl e ↦ rw e (cons-ne-nil [] (split sep s))
  | inr e ↦ rw e (put_first-ne-nil c (split sep s))
]

-- a part put in front of the parts of the rest
pub split-append : (sep : ℕ) (p s : Text) → Lacks sep p → split sep (p ++ sep ∷ s) ≡ p ∷ split sep s
unfolding split
split-append sep [] s h = ground arith
split-append sep (c ∷ p) s h = ground (arith, split-append sep p s h.1)

pub split_one : (sep : ℕ) (p : Text) → Lacks sep p → split sep p ≡ p ∷ []
unfolding split
split_one sep [] h = refl
split_one sep (c ∷ p) h = ground (arith, split_one sep p h.1)

-- Splitting a join gives the parts back, if there is a part and none holds the separator.
pub split-join :
    (sep : ℕ) (parts : List Text)
    → parts ≢ []
    → All (Lacks sep) parts
    → split sep (join sep parts) ≡ parts
unfolding join
split-join sep [] ne h = absurd (ne refl)
split-join sep (p ∷ []) ne h = split_one sep p h.0
split-join sep (p ∷ q ∷ ps) ne h =
    split-append sep p (join sep (q ∷ ps)) h.0
    ∙ ap (λ r. p ∷ r) (split-join sep (q ∷ ps) (cons-ne-nil q ps) h.1)

join-put_first :
    (sep c : ℕ) (parts : List Text) → parts ≢ [] → join sep (put_first c parts) ≡ c ∷ join sep parts
unfolding join
join-put_first sep c [] ne = absurd (ne refl)
join-put_first sep c (p ∷ []) ne = refl
join-put_first sep c (p ∷ q ∷ ps) ne = refl

pub join-cons :
    (sep : ℕ) (p : Text) (parts : List Text)
    → parts ≢ []
    → join sep (p ∷ parts) ≡ p ++ sep ∷ join sep parts
unfolding join
join-cons sep p [] ne = absurd (ne refl)
join-cons sep p (q ∷ ps) ne = refl

-- Joining the parts of a split gives the text back, for every text.
pub join-split : (sep : ℕ) (s : Text) → join sep (split sep s) ≡ s
unfolding split
join-split sep [] = unfold join in refl
join-split sep (c ∷ s) = elim (Bool-cases (nat_eq c sep)) [
  | inl e ↦
      rw (e, join-cons sep [] (split sep s) (split-ne-nil sep s), join-split sep s)
        (ap (λ x. x ∷ s) (sym ((nat_eq_iff c sep).0 e)))
  | inr e ↦ rw (e, join-put_first sep c (split sep s) (split-ne-nil sep s), join-split sep s)
]

-- No part of a split holds the separator.
pub split-Lacks : (sep : ℕ) (s : Text) → All (Lacks sep) (split sep s)
unfolding split
split-Lacks sep [] = (tt, tt)
split-Lacks sep (c ∷ s) = elim (Bool-cases (nat_eq c sep)) [
  | inl e ↦ rw e (tt, split-Lacks sep s)
  | inr e ↦ rw e (put_first-Lacks sep c (split sep s) (ground arith) (split-Lacks sep s))
]

-- a join with a part that is not empty
pub join-ne-nil :
    (sep : ℕ) (left right : List Text) (p : Text) → p ≢ [] → join sep (left ++ p ∷ right) ≢ []
join-ne-nil sep [] [] p h = unfold join in h
join-ne-nil sep [] (q ∷ qs) p h =
    rw (join-cons sep p (q ∷ qs) (cons-ne-nil q qs)) (append-ne-nil p _ (cons-ne-nil sep _))
join-ne-nil sep (l ∷ left) right p h =
    rw (join-cons sep l (left ++ p ∷ right) (append-ne-nil left _ (cons-ne-nil p right)))
      (append-ne-nil l _ (cons-ne-nil sep _))
