-- ===== src/Profiles/Authority/HostPort.antt =====
-- A host and its port, put together and split again.
use sub_share_go.Common.{
  ℕ, [], ◌∷◌, ◌++◌, none, some, true, false, ◌≡◌, refl, arith, nat_eq, contains, ℕ_eq, Bool-cases,
  inl, inr, append_assoc,
}
use sub_share_go.Common.Result.{ok}
use sub_share_go.Strings.{Text, is_empty}
use sub_share_go.Strings.Split.{Lacks}
use sub_share_go.Profiles.Authority.{
  cut_at, count_char, bracket_tail, split_bracketed, split_plain, split_raw_host_port,
  format_host_port,
}

pub cut_at-append :
    (sep : ℕ) (before after : Text)
    → Lacks sep before
    → cut_at sep (before ++ sep ∷ after) ≡ some (before, after)
unfolding cut_at
cut_at-append sep [] after h = ground arith
cut_at-append sep (c ∷ before) after h =
    let other : nat_eq c sep ≡ false = ground (arith, h.0) in
    rw (other, cut_at-append sep before after h.1) refl

pub cut_at-none : (sep : ℕ) (s : Text) → Lacks sep s → cut_at sep s ≡ none
unfolding cut_at
cut_at-none sep [] h = refl
cut_at-none sep (c ∷ s) h =
    let other : nat_eq c sep ≡ false = ground (arith, h.0) in rw (other, cut_at-none sep s h.1) refl

count_char-none : (sep : ℕ) (s : Text) → Lacks sep s → count_char sep s ≡ 0
unfolding count_char
count_char-none sep [] h = refl
count_char-none sep (c ∷ s) h =
    let other : nat_eq c sep ≡ false = ground (arith, h.0) in
    rw (other, count_char-none sep s h.1) refl

count_char_one :
    (sep : ℕ) (before after : Text)
    → Lacks sep before
    → Lacks sep after
    → count_char sep (before ++ sep ∷ after) ≡ 1
unfolding count_char
count_char_one sep [] after h k = ground (arith, count_char-none sep after k)
count_char_one sep (c ∷ before) after h k =
    let other : nat_eq c sep ≡ false = ground (arith, h.0) in
    rw (other, count_char_one sep before after h.1 k) refl

contains-Lacks : (c : ℕ) (s : Text) → contains s c ≡ false → Lacks c s
contains-Lacks c [] h = tt
contains-Lacks c (a ∷ s) h = (ground arith, contains-Lacks c s (ground arith))

split_plain-format :
    (host expression protocol : Text)
    → Lacks b':' host
    → Lacks b':' expression
    → split_plain protocol (host ++ b':' ∷ expression) ≡ ok (host, expression, true)
unfolding split_plain
split_plain-format host expression protocol h k =
    rw (cut_at-append b':' host expression h, count_char_one b':' host expression h k, split_plain)
      refl

split_bracketed-format :
    (c : ℕ) (host expression protocol : Text)
    → Lacks b']' (c ∷ host)
    → is_empty expression ≡ false
    → split_bracketed protocol (c ∷ host ++ b']' ∷ b':' ∷ expression)
      ≡ ok (c ∷ host, expression, true)
unfolding split_bracketed bracket_tail
split_bracketed-format c host expression protocol h k =
    rw (cut_at-append b']' (c ∷ host) (b':' ∷ expression) h, split_bracketed, bracket_tail, k) refl

-- A host and the expression of a port that are put together are split into the same, an IPv6 literal
-- as well as a name, when the host is not empty and has no brackets and the expression is not empty
-- and has no colon.
pub split_raw_host_port-format :
    (host expression protocol : Text)
    → is_empty host ≡ false
    → Lacks b'[' host
    → Lacks b']' host
    → is_empty expression ≡ false
    → Lacks b':' expression
    → split_raw_host_port (format_host_port host expression) protocol ≡ ok (host, expression, true)
unfolding format_host_port split_raw_host_port
split_raw_host_port-format [] expression protocol nonempty left right given plain =
    absurd (cc nonempty)
split_raw_host_port-format (c ∷ host) expression protocol nonempty left right given plain =
    let other : nat_eq c b'[' ≡ false = ground (arith, left.0) in
    elim (Bool-cases (contains (c ∷ host) b':')) [
      | inl literal ↦
          rw (literal, append_assoc host (b']' ∷ []) (b':' ∷ expression))
            (split_bracketed-format c host expression protocol right given)
      | inr name ↦
          rw (name, other)
            (split_plain-format (c ∷ host) expression protocol (contains-Lacks b':' (c ∷ host) name)
              plain)
    ]
