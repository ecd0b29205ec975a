-- ===== src/Base/Text.antt =====
-- Go strings as lists of bytes: literals, equality, the order `<`, prefixes and substrings.
use Prim.Native.Nat.{ℕ, ◌+◌, ◌-◌, ◌<◌}
use Prim.Native.Char.{code}
use Prim.Native.String.{String}
use mathlib.Core.Path.{◌≡◌, refl}
use mathlib.Core.Logic.{◌↔◌}
use mathlib.Core.Bool.{Bool, true, false, ◌&&◌, ◌||◌}
use mathlib.Core.List.{List, [], ◌∷◌, map}
use native.Mathlib.Omega.{arith}
use urbanist_atlas.Base.Tests.{ltb, leb, nat_eqb, if◌then◌else◌, Eq}
use urbanist_atlas.Base.Lists.{All, length}

abbrev pub Bytes : Type 0
Bytes = List ℕ

-- The code points of a literal: its bytes, if it is ASCII.
abbrev pub codes : String → Bytes
codes (String.◌∷◌ first rest) = code first ∷ codes rest
codes String.[] = []

unfoldable pub bytes_eqb : Bytes → Bytes → Bool
bytes_eqb [] [] = true
bytes_eqb [] (b ∷ t) = false
bytes_eqb (a ∷ s) [] = false
bytes_eqb (a ∷ s) (b ∷ t) = nat_eqb a b && bytes_eqb s t

pub bytes_eqb_iff : (s t : Bytes) → (bytes_eqb s t ≡ true) ↔ (s ≡ t)
unfolding bytes_eqb
bytes_eqb_iff [] [] = ground arith
bytes_eqb_iff [] (b ∷ t) = ground arith
bytes_eqb_iff (a ∷ s) [] = ground arith
bytes_eqb_iff (a ∷ s) (b ∷ t) = ground (arith, bytes_eqb_iff s t)

instance abbrev pub bytes_eq : Eq Bytes
bytes_eq = record { equal = bytes_eqb; equal_iff = bytes_eqb_iff }

-- `s < t` on Go strings: the first differing byte decides, and a proper prefix is smaller.
unfoldable pub bytes_ltb : Bytes → Bytes → Bool
bytes_ltb s [] = false
bytes_ltb [] (b ∷ t) = true
bytes_ltb (a ∷ s) (b ∷ t) = ltb a b || (nat_eqb a b && bytes_ltb s t)

pub bytes_ltb_irrefl : (s : Bytes) → bytes_ltb s s ≡ false
unfolding bytes_ltb
bytes_ltb_irrefl [] = refl
bytes_ltb_irrefl (a ∷ s) = ground (arith, bytes_ltb_irrefl s)

pub bytes_ltb_trans :
    (s t u : Bytes) → bytes_ltb s t ≡ true → bytes_ltb t u ≡ true → bytes_ltb s u ≡ true
unfolding bytes_ltb
bytes_ltb_trans s [] u h k = cc
bytes_ltb_trans s (b ∷ t) [] h k = cc
bytes_ltb_trans [] (b ∷ t) (c ∷ u) h k = refl
bytes_ltb_trans (a ∷ s) (b ∷ t) (c ∷ u) h k = ground (arith, bytes_ltb_trans s t u)

pub bytes_ltb_total : (s t : Bytes) → bytes_ltb s t ≡ false → bytes_ltb t s ≡ false → s ≡ t
unfolding bytes_ltb
bytes_ltb_total [] [] h k = refl
bytes_ltb_total [] (b ∷ t) h k = cc
bytes_ltb_total (a ∷ s) [] h k = cc
bytes_ltb_total (a ∷ s) (b ∷ t) h k = ground (arith, bytes_ltb_total s t)

pub bytes_ltb_asym : (s t : Bytes) → bytes_ltb s t ≡ true → bytes_ltb t s ≡ false
unfolding bytes_ltb
bytes_ltb_asym s [] h = cc
bytes_ltb_asym [] (b ∷ t) h = refl
bytes_ltb_asym (a ∷ s) (b ∷ t) h = ground (arith, bytes_ltb_asym s t)

pub bytes_ltb_not_trans :
    (s t u : Bytes) → bytes_ltb t s ≡ false → bytes_ltb u t ≡ false → bytes_ltb u s ≡ false
unfolding bytes_ltb
bytes_ltb_not_trans [] t u h k = refl
bytes_ltb_not_trans (a ∷ s) [] u h k = cc
bytes_ltb_not_trans (a ∷ s) (b ∷ t) [] h k = cc
bytes_ltb_not_trans (a ∷ s) (b ∷ t) (c ∷ u) h k = ground (arith, bytes_ltb_not_trans s t u)

-- strings.HasPrefix(s, p)
unfoldable pub has_prefix : Bytes → Bytes → Bool
has_prefix s [] = true
has_prefix [] (b ∷ p) = false
has_prefix (a ∷ s) (b ∷ p) = nat_eqb a b && has_prefix s p

-- strings.Contains(s, p)
unfoldable pub contains : Bytes → Bytes → Bool
unfolding has_prefix
contains [] p = has_prefix [] p
contains (a ∷ s) p = has_prefix (a ∷ s) p || contains s p

abbrev pub IsAscii : Bytes → Type 0
IsAscii = All (λ c. c < 128)

-- strings.ToLower and strings.ToUpper on one ASCII byte.
unfoldable pub lower_byte : ℕ → ℕ
lower_byte c = if leb b'A' c && leb c b'Z' then c + 32 else c

unfoldable pub upper_byte : ℕ → ℕ
upper_byte c = if leb b'a' c && leb c b'z' then c - 32 else c

-- The bytes that strings.TrimSpace strips in an ASCII string.
unfoldable pub is_space : ℕ → Bool
is_space c = nat_eqb c 32 || (leb 9 c && leb c 13)

unfoldable pub trim_left : Bytes → Bytes
unfolding is_space
trim_left [] = []
trim_left (c ∷ s) = if is_space c then trim_left s else c ∷ s

-- Drops the white bytes at the end.
unfoldable pub trim_right : Bytes → Bytes
unfolding is_space
trim_right [] = []
trim_right (c ∷ s) = trim_cons c (trim_right s)
  where
    trim_cons : ℕ → Bytes → Bytes
    trim_cons c [] = if is_space c then [] else c ∷ []
    trim_cons c (d ∷ t) = c ∷ d ∷ t

-- Case folding and white space in Go go by Unicode tables, which are not part of the repository.
-- What is used of them is their documented behaviour on ASCII strings. `rune_count` is
-- utf8.RuneCountInString.
pub record Unicode : Type 0 where
  pub to_lower : Bytes → Bytes
  pub to_upper : Bytes → Bytes
  pub trim_space : Bytes → Bytes
  pub to_lower_ascii : (s : Bytes) → IsAscii s → to_lower s ≡ map lower_byte s
  pub to_upper_ascii : (s : Bytes) → IsAscii s → to_upper s ≡ map upper_byte s
  pub trim_space_ascii : (s : Bytes) → IsAscii s → trim_space s ≡ trim_left (trim_right s)
  pub rune_count : Bytes → ℕ
  pub rune_count_ascii : (s : Bytes) → IsAscii s → rune_count s ≡ length s

-- A reading of them that folds ASCII letters alone.
abbrev pub ascii_only : Unicode
ascii_only = record {
  to_lower = map lower_byte;
  to_upper = map upper_byte;
  trim_space = λ s. trim_left (trim_right s);
  to_lower_ascii = λ s h. refl;
  to_upper_ascii = λ s h. refl;
  trim_space_ascii = λ s h. refl;
  rune_count = length;
  rune_count_ascii = λ s h. refl;
}
