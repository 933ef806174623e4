-- ===== src/Sources/Statements/Positions.antt =====
-- The positions that follow the first one.
use sub_share_go.Common.{
  ℕ, zero, suc, ◌+◌, ◌≤◌, true, ◌≡◌, refl, arith, ℤ, pos, negsuc, int_succ, int_minus, int_leb, leb,
  ◌-◌, ap, Bool-cases, inl, inr, text,
}
use sub_share_go.Sources.Statements.SortOrder.{int_leb_trans, int_leb_refl, int_succ_mono}

-- `n` positions further
abbrev pub further : ℕ → ℤ → ℤ
further zero x = x
further (suc n) x = int_succ (further n x)

pub further_mono :
    (n : ℕ) (a b : ℤ) → int_leb a b ≡ true → int_leb (further n a) (further n b) ≡ true
further_mono zero a b h = h
further_mono (suc n) a b h = int_succ_mono (further n a) (further n b) (further_mono n a b h)

int_succ-minus : (a : ℤ) (n : ℕ) → int_succ (int_minus a (suc n)) ≡ int_minus a n
int_succ-minus (pos a) n = elim (Bool-cases (leb (suc n) a)) [
  | inl far ↦
      let near : leb n a ≡ true = ground arith in
      let e : suc (a - suc n) ≡ a - n = ground arith in rw (far, near) (ap pos e)
  | inr short ↦ elim (Bool-cases (leb n a)) [
    | inl near ↦
        let none_left : suc n - a - 1 ≡ 0 = ground arith in
        let same : 0 ≡ a - n = ground arith in rw (short, near, none_left) (ap pos same)
    | inr beyond ↦
        let e : suc n - a - 1 ≡ suc (n - a - 1) = ground arith in rw (short, beyond, e) refl
  ]
]
int_succ-minus (negsuc a) n = let e : a + suc n ≡ suc (a + n) = omega arith in rw e refl

int_succ_le : (a : ℤ) → int_leb a (int_succ a) ≡ true
int_succ_le (pos a) = ground arith
int_succ_le (negsuc zero) = refl
int_succ_le (negsuc (suc a)) = ground arith

pub further_succ : (n : ℕ) (a : ℤ) → further n (int_succ a) ≡ further (suc n) a
further_succ zero a = refl
further_succ (suc n) a = ap int_succ (further_succ n a)

further-minus : (n m : ℕ) (a : ℤ) → further n (int_minus a (n + m)) ≡ int_minus a m
further-minus zero m a = let e : 0 + m ≡ m = omega arith in ap (int_minus a) e
further-minus (suc n) m a =
    let e : suc n + m ≡ n + suc m = omega arith in
    rw (e, further-minus n (suc m) a) (int_succ-minus a m)

int_minus_le : (a : ℤ) (n : ℕ) → int_leb (int_minus a n) a ≡ true
int_minus_le (pos a) n = ground arith
int_minus_le (negsuc a) n = ground arith

pub further_le : (n : ℕ) (a : ℤ) → int_leb a (further n a) ≡ true
further_le zero a = int_leb_refl a
further_le (suc n) a =
    int_leb_trans a (further n a) (int_succ (further n a)) (further_le n a)
      (int_succ_le (further n a))

pub further-above :
    (n incoming : ℕ) (first order : ℤ)
    → n ≤ incoming
    → int_leb first (int_minus order (incoming + 8)) ≡ true
    → int_leb (int_succ (further n first)) order ≡ true
further-above n incoming first order few h =
    let m : ℕ = incoming + 8 - suc n in
    let e : incoming + 8 ≡ suc n + m = omega (arith, few) in
    let moved = further_mono (suc n) first (int_minus order (suc n + m)) (rw e at h) in
    int_leb_trans (further (suc n) first) (int_minus order m) order
      (rw (further-minus (suc n) m order) at moved) (int_minus_le order m)
