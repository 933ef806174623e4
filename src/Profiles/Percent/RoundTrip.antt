-- ===== src/Profiles/Percent/RoundTrip.antt =====
-- What is percent-encoded decodes to itself.
use Prim.Native.Nat.{◌/◌, ◌%◌}
use sub_share_go.Common.{
  ℕ, ◌<◌, List, [], ◌∷◌, some, Bool, true, false, ◌≡◌, refl, ap, arith, nat_eq, if◌then◌else◌, All,
  Bool-cases, inl, inr, ◌&&◌,
}
use sub_share_go.Profiles.Percent.{
  unreserved, hex_digit, percent_encode, colons, percent_encode_auth, unhex, push, escape,
  path_unescape,
}

abbrev pub Byte : ℕ → Type 0
Byte c = c < 256

-- what holds of the characters that an encoding is made of holds of it
pub percent_encode-All :
    (P : ℕ → Type 0) (s : List ℕ)
    → ((c : ℕ) → unreserved c ≡ true → P c)
    → P b'%'
    → ((d : ℕ) → d < 16 → P (hex_digit d))
    → All Byte s
    → All P (percent_encode s)
unfolding percent_encode
percent_encode-All P [] plain percent hex h = tt
percent_encode-All P (c ∷ s) plain percent hex h =
    let rest = percent_encode-All P s plain percent hex h.1 in
    elim (Bool-cases (unreserved c)) [
      | inl same ↦ rw same (plain c same, rest)
      | inr coded ↦
          rw coded
            (percent, (hex (c / 16) (omega (arith, h.0)), (hex (c % 16) (omega arith), rest)))
    ]

unhex-hex_digit : (d : ℕ) → d < 16 → unhex (hex_digit d) ≡ some d
unfolding unhex hex_digit
unhex-hex_digit d h = ground arith

unreserved-plain : (c : ℕ) → unreserved c ≡ true → nat_eq c b'%' ≡ false
unfolding unreserved
unreserved-plain c h = ground arith

path_unescape-plain :
    (c : ℕ) (s : List ℕ) → nat_eq c b'%' ≡ false → path_unescape (c ∷ s) ≡ push c (path_unescape s)
unfolding path_unescape
path_unescape-plain c [] h = rw h refl
path_unescape-plain c (b ∷ []) h = rw h refl
path_unescape-plain c (a ∷ b ∷ s) h = rw h refl

path_unescape-escape :
    (b c : ℕ) (s : List ℕ)
    → path_unescape (b'%' ∷ b ∷ c ∷ s) ≡ escape (unhex b) (unhex c) (path_unescape s)
unfolding path_unescape
path_unescape-escape b c s = refl

path_unescape-hex :
    (c : ℕ) (s : List ℕ)
    → Byte c
    → path_unescape (b'%' ∷ hex_digit (c / 16) ∷ hex_digit (c % 16) ∷ s) ≡ push c (path_unescape s)
unfolding escape
path_unescape-hex c s h =
    rw
      (
        path_unescape-escape (hex_digit (c / 16)) (hex_digit (c % 16)) s,
        unhex-hex_digit (c / 16) (omega (arith, h)),
        unhex-hex_digit (c % 16) (omega arith),
        escape,
      )
      (ap (λ n. push n (path_unescape s)) (omega arith))

-- Percent-encoding any string of bytes and decoding it gives the string back.
pub path_unescape-percent_encode :
    (s : List ℕ) → All Byte s → path_unescape (percent_encode s) ≡ some s
unfolding percent_encode
path_unescape-percent_encode [] h = unfold path_unescape in refl
path_unescape-percent_encode (c ∷ s) h =
    let rest = path_unescape-percent_encode s h.1 in
    elim (Bool-cases (unreserved c)) [
      | inl plain ↦
          rw (plain, path_unescape-plain c (percent_encode s) (unreserved-plain c plain), rest) refl
      | inr coded ↦ rw (coded, path_unescape-hex c (percent_encode s) h.0, rest) refl
    ]

colons-plain : (c : ℕ) (s : List ℕ) → nat_eq c b'%' ≡ false → colons (c ∷ s) ≡ c ∷ colons s
unfolding colons
colons-plain c [] h = refl
colons-plain c (b ∷ []) h = refl
colons-plain c (a ∷ b ∷ s) h = rw h refl

hex_digit-plain : (d : ℕ) → d < 16 → nat_eq (hex_digit d) b'%' ≡ false
unfolding hex_digit
hex_digit-plain d h = ground arith

colons-three :
    (a b c : ℕ) (s : List ℕ)
    → colons (a ∷ b ∷ c ∷ s) ≡ (
        if nat_eq a b'%' && nat_eq b b'3' && nat_eq c b'A'
        then b':' ∷ colons s
        else a ∷ colons (b ∷ c ∷ s))
unfolding colons
colons-three a b c s = refl

colons-escape :
    (x y : ℕ) (s : List ℕ)
    → nat_eq x b'%' ≡ false
    → nat_eq y b'%' ≡ false
    → colons (b'%' ∷ x ∷ y ∷ s)
      ≡ (if nat_eq x b'3' && nat_eq y b'A' then b':' ∷ colons s else b'%' ∷ x ∷ y ∷ colons s)
colons-escape x y s hx hy = elim (Bool-cases (nat_eq x b'3' && nat_eq y b'A')) [
  | inl colon ↦ rw (colon, colons-three b'%' x y s, colon) refl
  | inr other ↦
      rw (other, colons-three b'%' x y s, other, colons-plain x (y ∷ s) hx, colons-plain y s hy)
        refl
]

-- the escape of a colon is that of no other byte
colon_of_hex :
    (c : ℕ)
    → Byte c
    → (nat_eq (hex_digit (c / 16)) b'3' && nat_eq (hex_digit (c % 16)) b'A') ≡ true
    → c ≡ b':'
unfolding hex_digit
colon_of_hex c h e = ground (arith, h)

colons-hex :
    (c : ℕ) (s : List ℕ)
    → Byte c
    → path_unescape (colons (b'%' ∷ hex_digit (c / 16) ∷ hex_digit (c % 16) ∷ s))
      ≡ push c (path_unescape (colons s))
colons-hex c s h =
    let high = hex_digit (c / 16) in
    let low = hex_digit (c % 16) in
    let shape =
      colons-escape high low s (hex_digit-plain (c / 16) (omega (arith, h)))
        (hex_digit-plain (c % 16) (omega arith)) in
    elim (Bool-cases (nat_eq high b'3' && nat_eq low b'A')) [
      | inl colon ↦
          rw (shape, colon, path_unescape-plain b':' (colons s) refl)
            (ap (λ n. push n (path_unescape (colons s))) (omega (arith, colon_of_hex c h colon)))
      | inr other ↦ rw (shape, other) (path_unescape-hex c (colons s) h)
    ]

path_unescape-colons :
    (s : List ℕ) → All Byte s → path_unescape (colons (percent_encode s)) ≡ some s
unfolding percent_encode
path_unescape-colons [] h = unfold path_unescape colons in refl
path_unescape-colons (c ∷ s) h =
    let rest = path_unescape-colons s h.1 in
    elim (Bool-cases (unreserved c)) [
      | inl plain ↦
          let ne = unreserved-plain c plain in
          rw
            (
              plain,
              colons-plain c (percent_encode s) ne,
              path_unescape-plain c (colons (percent_encode s)) ne,
              rest,
            )
            refl
      | inr coded ↦ rw (coded, colons-hex c (percent_encode s) h.0, rest) refl
    ]

-- The encoding of a user name and password, which may leave colons as they are, decodes to them too.
pub path_unescape-percent_encode_auth :
    (s : List ℕ) (allow_colon : Bool)
    → All Byte s
    → path_unescape (percent_encode_auth s allow_colon) ≡ some s
unfolding percent_encode_auth
path_unescape-percent_encode_auth s false h = path_unescape-percent_encode s h
path_unescape-percent_encode_auth s true h = path_unescape-colons s h
