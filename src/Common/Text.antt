-- ===== src/Common/Text.antt =====
-- Text as bytes: the operations of `str` on ASCII that the program uses.
use edge_orchestrator.Common.Tests.{
  Bytes, Bytes-discrete, leb, ◌==◌, if◌then◌else◌, bytes_eq, nat_eq,
}
use Prim.Native.Nat.{ℕ, ◌+◌}
use mathlib.Core.Bool.{Bool, true, false, ◌&&◌, ◌||◌}
use mathlib.Core.Option.{Option, none, some}
use mathlib.Core.List.{List, [], ◌∷◌, ◌++◌, reverse}

-- the white space of ASCII: tab to carriage return, and the blank
abbrev pub is_whitespace : ℕ → Bool
is_whitespace c = (leb 9 c && leb c 13) || c == 32

abbrev pub trim_start : Bytes → Bytes
trim_start [] = []
trim_start (c ∷ s) = let rest = trim_start s in if is_whitespace c then rest else c ∷ s

-- `str::trim` of ASCII text
abbrev pub trim : Bytes → Bytes
trim s = reverse (trim_start (reverse (trim_start s)))

-- `to_ascii_lowercase`
abbrev pub to_lower : ℕ → ℕ
to_lower c = if leb 65 c && leb c 90 then c + 32 else c

abbrev pub to_ascii_lowercase : Bytes → Bytes
to_ascii_lowercase [] = []
to_ascii_lowercase (c ∷ s) = to_lower c ∷ to_ascii_lowercase s

-- the parts with a separator between them, `join`
abbrev pub join : Bytes → List Bytes → Bytes
join sep [] = []
join sep (p ∷ []) = p
join sep (p ∷ q ∷ ps) = p ++ sep ++ join sep (q ∷ ps)

abbrev pub is_one_of : Bytes → List Bytes → Bool
is_one_of s [] = false
is_one_of s (t ∷ ts) = elim (Bytes-discrete s t) [ yes _ ↦ true | no _ ↦ is_one_of s ts ]

-- what follows the first separator, `split_once(..).map(|(_, rest)| rest)`
abbrev pub after_first : ℕ → Bytes → Option Bytes
after_first sep [] = none
after_first sep (c ∷ s) = let rest = after_first sep s in if c == sep then some s else rest

-- `is_ascii_hexdigit`
abbrev pub is_hexdigit : ℕ → Bool
is_hexdigit c = (leb 48 c && leb c 57) || (leb 65 c && leb c 70) || (leb 97 c && leb c 102)

abbrev pub all_chars : (ℕ → Bool) → Bytes → Bool
all_chars p [] = true
all_chars p (c ∷ s) = p c && all_chars p s
