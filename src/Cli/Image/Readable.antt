-- ===== src/Cli/Image/Readable.antt =====
-- Which lines the loader of ROM images comes to the end of.
use v6502c.Base.{
  ℕ, zero, suc, ◌+◌, ◌≤◌, ◌<◌, ◌≡◌, ◌∙◌, refl, sym, ap, subst, arith, Bool, true, false, Option,
  none, some, [], ◌∷◌, inl, inr, Bool-cases, ◌⊎◌,
}
use v6502c.Base.{leb, ◌&&◌, ◌==◌, ◌||◌, ◌&&◌, leb, if◌then◌else◌, Bytes, length}
use v6502c.Cli.Image.{
  nibble, shift_in, take_nibbles, skip_blanks, at_line_end, Filled, put_value, woz_bytes,
}
use v6502c.Cli.Image.Loads.{take_nibbles-stuck, woz_bytes-stuck}

unfoldable pub is_digit : ℕ → Bool
is_digit c = (leb b'0' c && leb c b'9') || (leb b'A' c && leb c b'F') || (leb b'a' c && leb c b'f')

unfoldable pub is_end : ℕ → Bool
is_end c = c == 0 || c == b'\n' || c == b'\r'

unfoldable pub is_blank : ℕ → Bool
is_blank c = c == b' ' || c == b'\t'

-- Up to the end of the line there are digits and blanks only.
unfoldable pub is_readable : Bytes → Bool
is_readable [] = true
is_readable (c ∷ s) =
    let rest = is_readable s in
    if is_end c then true else if is_blank c || is_digit c then rest else false

abbrev pub has_ended : Option Filled → Bool
has_ended none = false
has_ended (some r) = true

digit_cases : (c : ℕ) → (nibble c ≡ none) ⊎ ((d : ℕ) × (nibble c ≡ some d))
digit_cases c = go (nibble c)
  where
    go : (o : Option ℕ) → (o ≡ none) ⊎ ((d : ℕ) × (o ≡ some d))
    go none = inl refl
    go (some d) = inr (d, refl)

at_line_end_lem : (c : ℕ) (s : Bytes) → at_line_end (c ∷ s) ≡ is_end c
unfolding at_line_end is_end
at_line_end_lem c s = refl

blank-end : (c : ℕ) → is_blank c ≡ true → is_end c ≡ false
unfolding is_blank is_end
blank-end c b = ground arith

blank-readable : (c : ℕ) (s : Bytes) → is_blank c ≡ true → is_readable (c ∷ s) ≡ is_readable s
unfolding is_readable
blank-readable c s b = rw (blank-end c b, b) refl

digit-end : (c d : ℕ) → nibble c ≡ some d → is_end c ≡ false
unfolding nibble is_end
digit-end c d e = ground arith

digit-is_digit : (c d : ℕ) → nibble c ≡ some d → is_digit c ≡ true
unfolding nibble is_digit
digit-is_digit c d e = ground arith

digit-readable : (c d : ℕ) (s : Bytes) → nibble c ≡ some d → is_readable (c ∷ s) ≡ is_readable s
unfolding is_readable
digit-readable c d s e =
    let end = digit-end c d e in let digit = digit-is_digit c d e in ground arith

no_digit : (c : ℕ) → nibble c ≡ none → is_digit c ≡ false
unfolding nibble is_digit
no_digit c e = ground arith

end-readable : (c : ℕ) (s : Bytes) → is_end c ≡ true → is_readable (c ∷ s) ≡ true
unfolding is_readable
end-readable c s e = rw e refl

skip_blanks-readable : (s : Bytes) → is_readable (skip_blanks s) ≡ is_readable s
unfolding skip_blanks is_blank
skip_blanks-readable [] = refl
skip_blanks-readable (c ∷ s) = elim (Bool-cases (c == b' ' || c == b'\t')) [
  | inl b ↦ rw b (skip_blanks-readable s ∙ sym (blank-readable c s b))
  | inr b ↦ rw b refl
]

length-skip_blanks : (s : Bytes) → length (skip_blanks s) ≤ length s
unfolding skip_blanks
length-skip_blanks [] = omega arith
length-skip_blanks (c ∷ s) = ground (arith, length-skip_blanks s)

abbrev IsSolid : Bytes → Type 0
IsSolid [] = Unit
IsSolid (c ∷ s) = is_blank c ≡ false

skip_blanks-IsSolid : (s : Bytes) → IsSolid (skip_blanks s)
unfolding skip_blanks is_blank
skip_blanks-IsSolid [] = tt
skip_blanks-IsSolid (c ∷ s) = elim (Bool-cases (c == b' ' || c == b'\t')) [
  | inl b ↦ rw b (skip_blanks-IsSolid s)
  | inr b ↦ subst (λ x. IsSolid (if x then skip_blanks s else c ∷ s)) (sym b) b
]

take_nibbles-step :
    (left count v c d : ℕ) (s : Bytes)
    → nibble c ≡ some d
    → take_nibbles (suc left) count v (c ∷ s) ≡ take_nibbles left (count + 1) (shift_in v d) s
unfolding take_nibbles
take_nibbles-step left count v c d s e =
    ap
      (λ o. elim o as (λ x. ℕ × ℕ × Bytes) [
        | none ↦ (count, v, c ∷ s)
        | some n ↦ take_nibbles left (count + 1) (shift_in v n) s
      ])
      e

take_nibbles-stop :
    (left count v c : ℕ) (s : Bytes)
    → nibble c ≡ none
    → take_nibbles (suc left) count v (c ∷ s) ≡ (count, v, c ∷ s)
unfolding take_nibbles
take_nibbles-stop left count v c s e =
    ap
      (λ o. elim o as (λ x. ℕ × ℕ × Bytes) [
        | none ↦ (count, v, c ∷ s)
        | some n ↦ take_nibbles left (count + 1) (shift_in v n) s
      ])
      e

-- What is left behind the digits.
take_nibbles-rest :
    (left count v : ℕ) (s : Bytes)
    → let t = (take_nibbles left count v s).2 in
      (is_readable t ≡ is_readable s) × (length t ≤ length s)
unfolding take_nibbles
take_nibbles-rest zero count v s = (refl, omega arith)
take_nibbles-rest (suc left) count v [] = (refl, omega arith)
take_nibbles-rest (suc left) count v (c ∷ s) = elim (digit_cases c) [
  | inl n ↦
      subst (λ t. (is_readable t.2 ≡ is_readable (c ∷ s)) × (length t.2 ≤ length (c ∷ s)))
        (sym (take_nibbles-stop left count v c s n)) (refl, omega arith)
  | inr (d, e) ↦
      let (same, shorter) = take_nibbles-rest left (count + 1) (shift_in v d) s in
      subst (λ t. (is_readable t.2 ≡ is_readable (c ∷ s)) × (length t.2 ≤ length (c ∷ s)))
        (sym (take_nibbles-step left count v c d s e))
        (same ∙ sym (digit-readable c d s e), omega arith)
]

solid-unreadable :
    (c : ℕ) (s : Bytes)
    → is_end c ≡ false
    → is_blank c ≡ false
    → nibble c ≡ none
    → is_readable (c ∷ s) ≡ false
unfolding is_readable
solid-unreadable c s e b n = let digit = no_digit c n in ground arith

module _ (max_size : ℕ) where
  woz_bytes-solid :
      (rounds at : ℕ) (r : Filled) (c : ℕ) (s : Bytes)
      → at_line_end (c ∷ s) ≡ false
      → is_blank c ≡ false
      → nibble c ≡ none
      → woz_bytes max_size rounds at r (c ∷ s) ≡ none
  unfolding is_blank
  woz_bytes-solid rounds at r c s e b n =
      woz_bytes-stuck max_size rounds at r c s n (ground arith) (ground arith) e

  -- One round on a text without a blank at its head.
  abbrev round : ℕ → ℕ → Filled → Bool → ℕ × ℕ × Bytes → Option Filled
  round rounds at r stop t =
      let p = put_value max_size t.0 t.1 at r in
      let rest = woz_bytes max_size rounds p.0 p.1 t.2 in if stop then some r else rest

  has_ended-round :
      (rounds at : ℕ) (r : Filled) (s : Bytes)
      → ((at' : ℕ) (r' : Filled) (t : Bytes)
          → length t < rounds
          → has_ended (woz_bytes max_size rounds at' r' t) ≡ is_readable t)
      → IsSolid s
      → length s ≤ rounds
      → has_ended (round rounds at r (at_line_end s) (take_nibbles 2 0 0 s)) ≡ is_readable s
  unfolding is_readable at_line_end
  has_ended-round rounds at r [] ends solid h = refl
  has_ended-round rounds at r (c ∷ s) ends solid h = elim (Bool-cases (is_end c)) [
    | inl e ↦
        ap (λ b. has_ended (round rounds at r b (take_nibbles 2 0 0 (c ∷ s))))
          (at_line_end_lem c s ∙ e)
        ∙ sym (end-readable c s e)
    | inr e ↦
        ap (λ b. has_ended (round rounds at r b (take_nibbles 2 0 0 (c ∷ s))))
          (at_line_end_lem c s ∙ e)
        ∙ elim (digit_cases c) [
          | inl n ↦
              ap (λ t. has_ended (round rounds at r false t)) (take_nibbles-stuck c s n)
              ∙ ap has_ended (woz_bytes-solid rounds _ _ c s (at_line_end_lem c s ∙ e) solid n)
              ∙ sym (solid-unreadable c s e solid n)
          | inr (d, digit) ↦
              let (same, shorter) = take_nibbles-rest 1 1 (shift_in 0 d) s in
              ap (λ t. has_ended (round rounds at r false t)) (take_nibbles-step 1 0 0 c d s digit)
              ∙ ends _ _ _ (omega arith)
              ∙ same
              ∙ sym (digit-readable c d s digit)
        ]
  ]

  -- With more rounds than the line has characters, the loader comes to the end of a line exactly if
  -- there are only digits, blanks and tabs before its end: a zero, an end of line, or the end of the
  -- text. On any other line it never ends.
  pub woz_bytes_ends :
      (rounds at : ℕ) (r : Filled) (s : Bytes)
      → length s < rounds
      → has_ended (woz_bytes max_size rounds at r s) ≡ is_readable s
  unfolding woz_bytes
  woz_bytes_ends zero at r s h = absurd (omega arith)
  woz_bytes_ends (suc rounds) at r s h =
      let shorter = length-skip_blanks s in
      has_ended-round rounds at r (skip_blanks s) (woz_bytes_ends rounds) (skip_blanks-IsSolid s)
        (omega arith)
      ∙ skip_blanks-readable s
