-- ===== src/Monitor/Command/Protecting.antt =====
-- The commands PROTECT and UNPROTECT, on the line of a range.
use v6502c.Base.{
  ℕ, ◌<◌, ◌≡◌, ◌∙◌, refl, arith, true, false, ◌&&◌, ◌||◌, not, Option, some, [], ◌∷◌, ◌++◌,
}
use v6502c.Base.{Bytes, codes}
use v6502c.AddrList.{AddressRange, IsApart, range, is_address_in_range}
use v6502c.AddrList.Contains.{is_address_in_range_list-add, is_address_in_range_list-remove}
use v6502c.Machine.{add_protected_range, remove_protected_range, is_address_protected}
use v6502c.Monitor.Args.{is_whitespace, parseargs}
use v6502c.Monitor.Args.Words.{
  AllNonzero, AllSolid, IsWord, parseargs-words, unwords, words-unwords,
}
use v6502c.Monitor.Hex.{address_hex}
use v6502c.Monitor.Scan.{skip_whitespace}
use v6502c.Monitor.Scan.RoundTrip.{parse_address_range-address_hex}
use v6502c.Monitor.Session.{Session, Setting}
use v6502c.Monitor.Table.{find_command, to_upper, upper_first}
use v6502c.Monitor.Command.{run_command, run_args, parse_command, protect_range, unprotect_range}
use v6502c.Monitor.Command.Line.{Plain, address_hex-Plain, dot-Plain, AllNonzero-append}

-- A range as "%04X.%04X" prints it.
abbrev pub range_text : ℕ → ℕ → Bytes
range_text start end = address_hex start ++ b'.' ∷ (address_hex end ++ [])

range_text-Plain : (start end : ℕ) → start < 0x10000 → end < 0x10000 → Plain (range_text start end)
range_text-Plain start end hs he =
    address_hex-Plain start _ hs (dot-Plain _ (address_hex-Plain end [] he (tt, tt, refl)))

range_text-IsWord :
    (start end : ℕ) → AllSolid (range_text start end) → IsWord (range_text start end)
unfolding address_hex
range_text-IsWord start end h = h

-- The line of a command that takes a range.
abbrev pub range_line : Bytes → ℕ → ℕ → Bytes
range_line cmd start end = cmd ++ unwords (range_text start end ∷ [])

parseargs-range_line :
    (cmd : Bytes) (start end : ℕ)
    → IsWord cmd
    → AllNonzero cmd
    → start < 0x10000
    → end < 0x10000
    → parseargs (range_line cmd start end) ≡ cmd ∷ range_text start end ∷ []
parseargs-range_line cmd start end w n hs he =
    let p = range_text-Plain start end hs he in
    let args = range_text start end ∷ [] in
    parseargs-words (range_line cmd start end) (
      AllNonzero-append cmd (unwords args) n
        (omega arith, AllNonzero-append (range_text start end) [] p.1 tt))
    ∙ words-unwords cmd args w (range_text-IsWord start end p.0, tt)

protect-IsWord : IsWord (codes "PROTECT") × AllNonzero (codes "PROTECT")
unfolding is_whitespace
protect-IsWord = ground arith

unprotect-IsWord : IsWord (codes "UNPROTECT") × AllNonzero (codes "UNPROTECT")
unfolding is_whitespace
unprotect-IsWord = ground arith

module _ {H : Type 0} (given : Setting H) where
  open given use {bare_prefix, room}

  pub run_protect :
      (load_file : Bytes → Session H → Option (Session H)) (start end : ℕ) (s : Session H)
      → start < 0x10000
      → end < 0x10000
      → parse_command given load_file (range_line (codes "PROTECT") start end) s
        ≡ some (false, protect_range given s (range_text start end) (some (range start end)))
  unfolding parse_command run_args run_command upper_first skip_whitespace find_command to_upper
      is_whitespace
  run_protect load_file start end s hs he =
      let split =
        parseargs-range_line (codes "PROTECT") start end protect-IsWord.0 protect-IsWord.1 hs he in
      let parsed = parse_address_range-address_hex bare_prefix start end [] hs he in
      rw (split, parsed) refl

  run_unprotect :
      (load_file : Bytes → Session H → Option (Session H)) (start end : ℕ) (s : Session H)
      → start < 0x10000
      → end < 0x10000
      → parse_command given load_file (range_line (codes "UNPROTECT") start end) s
        ≡ some (false, unprotect_range given s (range_text start end) (some (range start end)))
  unfolding parse_command run_args run_command upper_first skip_whitespace find_command to_upper
      is_whitespace
  run_unprotect load_file start end s hs he =
      let split =
        parseargs-range_line (codes "UNPROTECT") start end unprotect-IsWord.0 unprotect-IsWord.1 hs
          he in
      let parsed = parse_address_range-address_hex bare_prefix start end [] hs he in
      rw (split, parsed) refl

  pub protect_range-covers :
      (s : Session H) (arg : Bytes) (ar : AddressRange)
      → room ≡ true
      → (a : ℕ)
      → is_address_protected (protect_range given s arg (some ar)).machine.bus.protected_ranges a
        ≡ (is_address_in_range ar a || is_address_protected s.machine.bus.protected_ranges a)
  unfolding protect_range add_protected_range is_address_protected
  protect_range-covers s arg ar r a =
      rw r (is_address_in_range_list-add s.machine.bus.protected_ranges ar a)

  -- PROTECT with a range as "%04X.%04X" prints it, where `malloc` gives a node: the monitor goes
  -- on, and protected are the addresses of the range beside those that were.
  pub parse_command-protect :
      (load_file : Bytes → Session H → Option (Session H)) (start end : ℕ) (s : Session H)
      → start < 0x10000
      → end < 0x10000
      → room ≡ true
      → (s' : Session H) × (parse_command given load_file (range_line (codes "PROTECT") start end) s
          ≡ some (false, s'))
        × ((a : ℕ)
            → is_address_protected s'.machine.bus.protected_ranges a ≡ (
                is_address_in_range (range start end) a
                || is_address_protected s.machine.bus.protected_ranges a))
  parse_command-protect load_file start end s hs he r = (
    protect_range given s (range_text start end) (some (range start end)),
    run_protect load_file start end s hs he,
    protect_range-covers s (range_text start end) (range start end) r,
  )

  -- UNPROTECT, of a list of ranges that are sorted and apart: the addresses of the range are no
  -- longer protected, and all others are as before.
  pub parse_command-unprotect :
      (load_file : Bytes → Session H → Option (Session H)) (start end : ℕ) (s : Session H)
      → start < 0x10000
      → end < 0x10000
      → room ≡ true
      → IsApart s.machine.bus.protected_ranges
      → (s' : Session H) × (parse_command given load_file
            (range_line (codes "UNPROTECT") start end)
            s
          ≡ some (false, s'))
        × ((a : ℕ)
            → is_address_protected s'.machine.bus.protected_ranges a ≡ (
                is_address_protected s.machine.bus.protected_ranges a
                && not (is_address_in_range (range start end) a)))
  unfolding unprotect_range remove_protected_range is_address_protected
  parse_command-unprotect load_file start end s hs he r apart = (
    unprotect_range given s (range_text start end) (some (range start end)),
    run_unprotect load_file start end s hs he,
    λ a.
        rw r (
          is_address_in_range_list-remove s.machine.bus.protected_ranges (range start end) a apart),
  )
