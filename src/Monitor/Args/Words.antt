-- ===== src/Monitor/Args/Words.antt =====
-- `parseargs` against a definition of the words of a text.
use v6502c.Base.{
  ℕ, suc, ◌+◌, ◌-◌, ◌*◌, ◌≤◌, ◌<◌, ◌≡◌, ◌∙◌, refl, ap, ap₂, arith, Bool, true, false, not, List, [],
  ◌∷◌, ◌++◌, map,
}
use v6502c.Base.{if◌then◌else◌, Bytes, until_zero, drop, length}
use v6502c.Monitor.Args.{is_whitespace, Parsed, args_step, args_loop, parseargs}

abbrev pub push_word : Bytes → List Bytes → List Bytes
push_word [] ws = ws
push_word (c ∷ cs) ws = (c ∷ cs) ∷ ws

-- A text from the right: the word that it begins with, empty if it begins with white space, and
-- the words behind that.
abbrev pub split : Bytes → Bytes × List Bytes
split [] = ([], [])
split (c ∷ cs) =
    let r = split cs in if is_whitespace c then ([], push_word r.0 r.1) else (c ∷ r.0, r.1)

abbrev pub words : Bytes → List Bytes
words s = push_word (split s).0 (split s).1

abbrev pub AllNonzero : Bytes → Type 0
AllNonzero [] = Unit
AllNonzero (c ∷ cs) = (0 < c) × AllNonzero cs

abbrev From : ℕ → List ℕ → Type 0
From at [] = Unit
From at (s ∷ ss) = (at ≤ s) × From at ss

From-le : (at : ℕ) (ss : List ℕ) → From (at + 1) ss → From at ss
From-le at [] h = tt
From-le at (s ∷ ss) h = (omega arith, From-le at ss h.1)

args_step-From :
    (blank inside : Bool) (c at : ℕ) (rest : Parsed)
    → From (at + 1) rest.starts
    → From at (args_step blank inside c at rest).starts
unfolding args_step
args_step-From true true c at rest h = From-le at rest.starts h
args_step-From true false c at rest h = From-le at rest.starts h
args_step-From false true c at rest h = From-le at rest.starts h
args_step-From false false c at rest h = (omega arith, From-le at rest.starts h)

args_loop-From : (cs : Bytes) (at : ℕ) (inside : Bool) → From at (args_loop cs at inside).starts
unfolding args_loop
args_loop-From [] at inside = tt
args_loop-From (c ∷ cs) at inside =
    let blank = is_whitespace c in
    args_step-From blank inside c at _ (args_loop-From cs (at + 1) (not blank))

until_zero-cons : (c : ℕ) (b : Bytes) → 0 < c → until_zero (c ∷ b) ≡ c ∷ until_zero b
until_zero-cons c b h = ground arith

-- The strings at these indices of a buffer that begins at the index `at`.
abbrev strings : ℕ → Bytes → List ℕ → List Bytes
strings at b ss = map (λ s. until_zero (drop (s - at) b)) ss

strings-cons :
    (at c : ℕ) (b : Bytes) (ss : List ℕ)
    → From (at + 1) ss
    → strings at (c ∷ b) ss ≡ strings (at + 1) b ss
strings-cons at c b [] h = refl
strings-cons at c b (s ∷ ss) h =
    let e : s - at ≡ suc (s - (at + 1)) = omega arith in
    ap₂ (λ x xs. x ∷ xs) (ap (λ n. until_zero (drop n (c ∷ b))) e) (strings-cons at c b ss h.1)

-- The arguments that a parse yields, given what the text before it is split into.
abbrev Yields : Parsed → ℕ → Bool → Bytes × List Bytes → Type 0
Yields p at inside r =
    (strings at p.buffer p.starts ≡ (if inside then r.1 else push_word r.0 r.1))
    × (inside ≡ true → until_zero p.buffer ≡ r.0)

args_step-Yields :
    (blank inside : Bool) (c at : ℕ) (rest : Parsed) (r : Bytes × List Bytes)
    → 0 < c
    → From (at + 1) rest.starts
    → Yields rest (at + 1) (not blank) r
    → Yields
        (args_step blank inside c at rest)
        at
        inside
        (if blank then ([], push_word r.0 r.1) else (c ∷ r.0, r.1))
unfolding args_step
args_step-Yields true true c at rest r h f y =
    (strings-cons at 0 rest.buffer rest.starts f ∙ y.0, λ e. refl)
args_step-Yields true false c at rest r h f y =
    (strings-cons at c rest.buffer rest.starts f ∙ y.0, λ e. cc)
args_step-Yields false true c at rest r h f y = (
  strings-cons at c rest.buffer rest.starts f ∙ y.0,
  λ e. until_zero-cons c rest.buffer h ∙ ap (λ w. c ∷ w) (y.1 refl),
)
args_step-Yields false false c at rest r h f y =
    let here : at - at ≡ 0 = omega arith in
    (
      ap₂ (λ x xs. x ∷ xs)
          (ap (λ n. until_zero (drop n (c ∷ rest.buffer))) here
            ∙ until_zero-cons c rest.buffer h
            ∙ ap (λ w. c ∷ w) (y.1 refl))
          (strings-cons at c rest.buffer rest.starts f ∙ y.0),
      λ e. cc,
    )

args_loop-Yields :
    (cs : Bytes) (at : ℕ) (inside : Bool)
    → AllNonzero cs
    → Yields (args_loop cs at inside) at inside (split cs)
unfolding args_loop
args_loop-Yields [] at true n = (refl, λ e. refl)
args_loop-Yields [] at false n = (refl, λ e. refl)
args_loop-Yields (c ∷ cs) at inside n =
    let blank = is_whitespace c in
    args_step-Yields blank inside c at _ (split cs) n.0 (args_loop-From cs (at + 1) (not blank))
      (args_loop-Yields cs (at + 1) (not blank) n.1)

strings-zero : (b : Bytes) (ss : List ℕ) → map (λ s. until_zero (drop s b)) ss ≡ strings 0 b ss
strings-zero b [] = refl
strings-zero b (s ∷ ss) =
    let e : s ≡ s - 0 = omega arith in
    ap₂ (λ x xs. x ∷ xs) (ap (λ n. until_zero (drop n b)) e) (strings-zero b ss)

-- The arguments that parseargs cuts out of a line are its words: the longest stretches without
-- white space, in their order.
pub parseargs-words : (s : Bytes) → AllNonzero s → parseargs s ≡ words s
unfolding parseargs
parseargs-words s n =
    let p = args_loop s 0 false in strings-zero p.buffer p.starts ∙ (args_loop-Yields s 0 false n).0

args_loop-length :
    (cs : Bytes) (at : ℕ) (inside : Bool)
    → 2 * length (args_loop cs at inside).starts ≤ length cs + (if inside then 0 else 1)
unfolding args_loop args_step
args_loop-length [] at inside = ground arith
args_loop-length (c ∷ cs) at inside =
    ground (arith, args_loop-length cs (at + 1) true, args_loop-length cs (at + 1) false)

length-map {ℓ} : {A B : Type ℓ} (f : A → B) (xs : List A) → length (map f xs) ≡ length xs
length-map f [] = refl
length-map f (x ∷ xs) = omega (arith, length-map f xs)

-- The arguments of a line fit: a string has at most half as many as it has characters and one, so
-- that 255 characters have no more than 128, and `argv` has 256 places.
pub length-parseargs : (s : Bytes) → 2 * length (parseargs s) ≤ length s + 1
unfolding parseargs
length-parseargs s =
    let p = args_loop s 0 false in
    omega (
      arith,
      length-map (λ start. until_zero (drop start p.buffer)) p.starts,
      args_loop-length s 0 false,
    )

-- A word: not empty, and with no white space in it.
abbrev pub AllSolid : Bytes → Type 0
AllSolid [] = Unit
AllSolid (c ∷ cs) = (is_whitespace c ≡ false) × AllSolid cs

abbrev pub IsWord : Bytes → Type 0
IsWord [] = ⊥
IsWord (c ∷ cs) = (is_whitespace c ≡ false) × AllSolid cs

abbrev pub AllWords : List Bytes → Type 0
AllWords [] = Unit
AllWords (w ∷ ws) = IsWord w × AllWords ws

-- Words behind one another, each with a blank before it.
abbrev pub unwords : List Bytes → Bytes
unwords [] = []
unwords (w ∷ ws) = b' ' ∷ (w ++ unwords ws)

split-append :
    (w : Bytes) (ws : List Bytes)
    → AllSolid w
    → split (unwords ws) ≡ ([], ws)
    → split (w ++ unwords ws) ≡ (w, ws)
split-append [] ws a e = e
split-append (c ∷ w) ws a e = ground (arith, split-append w ws a.1 e)

split-unwords : (ws : List Bytes) → AllWords ws → split (unwords ws) ≡ ([], ws)
unfolding is_whitespace
split-unwords [] a = refl
split-unwords ((c ∷ w) ∷ ws) a =
    let e = split-append (c ∷ w) ws a.0 (split-unwords ws a.1) in
    ap (λ (r : Bytes × List Bytes). ([], push_word r.0 r.1)) e
split-unwords ([] ∷ ws) a = absurd a.0

-- A line of words with single blanks between them is read back as those words.
pub words-unwords :
    (w : Bytes) (ws : List Bytes) → IsWord w → AllWords ws → words (w ++ unwords ws) ≡ w ∷ ws
words-unwords [] ws i a = absurd i
words-unwords (c ∷ w) ws i a =
    ap (λ (r : Bytes × List Bytes). push_word r.0 r.1)
      (split-append (c ∷ w) ws i (split-unwords ws a))
