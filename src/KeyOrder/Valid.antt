-- ===== src/KeyOrder/Valid.antt =====
-- `validateKeyOrder` accepts exactly the permutations of the stored ids.
use mathlib.Core.List.{
  Mem, Mem-prop, mem-cons_self, mem-cons_of_mem, Nodup, Nodup-nil, Nodup-cons, Perm, mem-cons,
  not-mem-nil,
}
use mathlib.Core.List.Perm
use mathlib.Core.Logic.Or
use sub_share_go.Common.{
  List, [], ◌∷◌, ◌≡◌, ◌↔◌, none, true, false, arith, ℤ, int, contains, length, contains→Mem,
  Mem→contains, not-contains→not-Mem, not-Mem→not-contains, length-perm, sym, perm_of_subset, refl,
}
use sub_share_go.KeyOrder.{check_order, validate_key_order}

counted :
    (existing ids : List ℤ)
    → validate_key_order existing ids ≡ none
    → (length ids ≡ length existing) × (check_order existing ids [] ≡ none)
unfolding validate_key_order
counted existing ids h = ground arith

accepted :
    (existing ids : List ℤ)
    → length existing ≡ length ids
    → check_order existing ids [] ≡ none
    → validate_key_order existing ids ≡ none
unfolding validate_key_order
accepted existing ids same checked = ground arith

-- what the loop has found out when it accepts
record IsChecked (existing ids seen : List ℤ) : Type 0 where
  known : (id : ℤ) → Mem id ids → Mem id existing
  distinct : Nodup ids
  unseen : (id : ℤ) → Mem id ids → ¬ Mem id seen

check_step :
    (existing ids seen : List ℤ) (id : ℤ)
    → (check_order existing (id ∷ ids) seen ≡ none) ↔ (
        (contains existing id ≡ true)
        × (contains seen id ≡ false)
        × (check_order existing ids (id ∷ seen) ≡ none))
unfolding check_order
check_step existing ids seen id = (ground arith, ground arith)

check_order_sound :
    (existing ids seen : List ℤ)
    → check_order existing ids seen ≡ none
    → IsChecked existing ids seen
check_order_sound existing [] seen h = record {
  known = λ id m. absurd (not-mem-nil m);
  distinct = Nodup-nil;
  unseen = λ id m. absurd (not-mem-nil m);
}
check_order_sound existing (id ∷ ids) seen h =
    let (stored, new, checked) = (check_step existing ids seen id).0 h in
    let rest = check_order_sound existing ids (id ∷ seen) checked in
    record {
      known = λ other m.
          Or.elim Mem-prop (mem-cons.0 m) (λ e. rw e (contains→Mem existing id stored))
            (rest.known other);
      distinct = Nodup-cons.1 ((λ m. rest.unseen id m mem-cons_self), rest.distinct);
      unseen = λ other m.
          Or.elim (hlevel) (mem-cons.0 m) (λ e. rw e (not-contains→not-Mem seen id new))
            (λ m' s. rest.unseen other m' (mem-cons_of_mem id s));
    }

check_order_complete :
    (existing ids seen : List ℤ)
    → IsChecked existing ids seen
    → check_order existing ids seen ≡ none
check_order_complete existing [] seen c = unfold check_order in refl
check_order_complete existing (id ∷ ids) seen c =
    let (absent, distinct) = Nodup-cons.0 c.distinct in
    (check_step existing ids seen id).1 (
      Mem→contains existing id (c.known id mem-cons_self),
      not-Mem→not-contains seen id (c.unseen id mem-cons_self),
      check_order_complete existing ids (id ∷ seen) (record {
        known = λ other m. c.known other (mem-cons_of_mem id m);
        distinct = distinct;
        unseen = λ other m s.
            Or.elim (hlevel) (mem-cons.0 s) (λ e. absent (rw e at m))
              (c.unseen other (mem-cons_of_mem id m));
      }),
    )

-- A new order is accepted exactly when it is a permutation of the stored ids, which are distinct.
pub validate_key_order_iff :
    (existing ids : List ℤ)
    → Nodup existing
    → (validate_key_order existing ids ≡ none) ↔ Perm ids existing
validate_key_order_iff existing ids stored = (sound, complete)
  where
    sound : validate_key_order existing ids ≡ none → Perm ids existing
    sound h =
        let (same, checked) = counted existing ids h in
        let c = check_order_sound existing ids [] checked in
        perm_of_subset ids existing c.distinct c.known same

    complete : Perm ids existing → validate_key_order existing ids ≡ none
    complete p = accepted existing ids (sym (length-perm p)) (
        check_order_complete existing ids [] (record {
          known = λ id m. (Perm.mem_iff p).0 m;
          distinct = Perm.nodup (Perm.symm p) stored;
          unseen = λ id _ m. not-mem-nil m;
        }))
