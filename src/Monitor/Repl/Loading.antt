-- ===== src/Monitor/Repl/Loading.antt =====
-- Reading lines from a stream, and a file of rows of bytes that the monitor loads.
use v6502c.Base.{ℕ, zero, suc, ◌<◌, ◌≡◌, refl, arith, false, Option, some, none, [], ◌∷◌, ◌++◌}
use v6502c.Base.{Bytes, length}
use v6502c.Monitor.Session.{Setting}
use v6502c.Monitor.Repl.{is_line_end, cons_line, line_loop, read_line}

-- A text without an end of line.
abbrev pub OneLine : Bytes → Type 0
OneLine [] = Unit
OneLine (c ∷ cs) = (is_line_end c ≡ false) × OneLine cs

cons_line-none : {H : Type 0} (c : ℕ) (r : Option Bytes × H) → r.0 ≡ none → (cons_line c r).0 ≡ none
cons_line-none c (none, h) e = refl
cons_line-none c (some cs, h) e = absurd cc

-- The stream `f` has a content, which `fgetc` takes the first byte of, until it is empty.
pub record Stream {H : Type 0} (given : Setting H) (f : ℕ) (content : H → Bytes) : Type 0 where
  pub takes_first :
      (h : H) (c : ℕ) (cs : Bytes)
      → content h ≡ c ∷ cs
      → ((given.os.get_char f h).0 ≡ some c) × (content (given.os.get_char f h).1 ≡ cs)
  pub ends : (h : H) → content h ≡ [] → (given.os.get_char f h).0 ≡ none

module _ {H : Type 0} (given : Setting H) (f : ℕ) (content : H → Bytes) where
  open given use {os}
  open os use {get_char}

  line_loop-line :
      (stream : Stream given f content) (line : Bytes) (rest : Bytes) (left : ℕ) (h : H)
      → content h ≡ line ++ b'\n' ∷ rest
      → OneLine line
      → length line < left
      → let r = get_char f h in
        (h' : H) × (line_loop given f left r.0 r.1 ≡ (some line, h')) × (content h' ≡ rest)
  unfolding line_loop
  line_loop-line stream [] rest zero h e o n = absurd (omega arith)
  line_loop-line stream [] rest (suc zero) h e o n =
      let (c, after) = stream.takes_first h b'\n' rest e in ((get_char f h).1, rw c refl, after)
  line_loop-line stream [] rest (suc (suc left)) h e o n =
      let (c, after) = stream.takes_first h b'\n' rest e in ((get_char f h).1, rw c refl, after)
  line_loop-line stream (x ∷ line) rest zero h e o n = absurd (omega arith)
  line_loop-line stream (x ∷ line) rest (suc zero) h e o n = absurd (omega arith)
  line_loop-line stream (x ∷ line) rest (suc (suc left)) h e o n =
      let (c, after) = stream.takes_first h x (line ++ b'\n' ∷ rest) e in
      let (h', path, last) =
        line_loop-line stream line rest (suc left) (get_char f h).1 after o.1 (omega arith) in
      (h', rw (c, o.0, path) refl, last)

  -- A line of less than 255 characters that ends in a newline is returned as it is, and the stream
  -- goes on behind the newline.
  pub read_line-line :
      (stream : Stream given f content) (line : Bytes) (rest : Bytes) (h : H)
      → content h ≡ line ++ b'\n' ∷ rest
      → OneLine line
      → length line < 255
      → (h' : H) × (read_line given f 255 h ≡ (some line, h')) × (content h' ≡ rest)
  unfolding read_line
  read_line-line stream line rest h e o n = line_loop-line stream line rest 255 h e o n

  line_loop-last :
      (stream : Stream given f content) (line : Bytes) (left : ℕ) (h : H)
      → content h ≡ line
      → OneLine line
      → length line < left
      → let r = get_char f h in (line_loop given f left r.0 r.1).0 ≡ none
  unfolding line_loop
  line_loop-last stream [] left h e o n = rw (stream.ends h e) refl
  line_loop-last stream (x ∷ line) zero h e o n = absurd (omega arith)
  line_loop-last stream (x ∷ line) (suc zero) h e o n = absurd (omega arith)
  line_loop-last stream (x ∷ line) (suc (suc left)) h e o n =
      let (c, after) = stream.takes_first h x line e in
      let rest = line_loop-last stream line (suc left) (get_char f h).1 after o.1 (omega arith) in
      rw (c, o.0) (cons_line-none x _ rest)

  -- A last line without a newline, of fewer than 255 characters, is lost: at the end of the stream
  -- read_line returns no line.
  pub read_line-last :
      (stream : Stream given f content) (line : Bytes) (h : H)
      → content h ≡ line
      → OneLine line
      → length line < 255
      → (read_line given f 255 h).0 ≡ none
  unfolding read_line
  read_line-last stream line h e o n = line_loop-last stream line 255 h e o n
