-- ===== src/Prelude/Text.antt =====
-- Python's `str` where the program walks it: the list of its code points, read as ASCII (so
-- `lower`, `isdigit`, `\s`, `\d` and `\w` have their ASCII meaning).
use Prim.Native.Nat.{ℕ, zero, suc, ◌+◌, ◌-◌, ◌*◌, ◌/◌, ◌%◌}
use Prim.Native.Char.{code}
use Prim.Native.String.{String}
use mathlib.Core.Path.{◌≡◌, refl}
use mathlib.Core.Bool.{Bool, true, false, not, ◌&&◌, ◌||◌}
use mathlib.Core.List.{List, [], ◌∷◌, ◌++◌, map, reverse}
use mathlib.Core.Option.{Option, none, some}
use native.Mathlib.Omega.{arith}
use zero_node.Prelude.Tests.{◌==◌, leb, ltb, if◌then◌else◌}
use zero_node.Prelude.Lists.{is_empty}

abbrev pub Text : Type 0
Text = List ℕ

-- A literal of the source.
abbrev pub codes : String → Text
codes String.[] = []
codes (String.◌∷◌ c s) = code c ∷ codes s

abbrev pub text_eq : Text → Text → Bool
text_eq [] [] = true
text_eq [] (d ∷ t) = false
text_eq (c ∷ s) [] = false
text_eq (c ∷ s) (d ∷ t) = c == d && text_eq s t

pub text_eq_refl : (s : Text) → text_eq s s ≡ true
text_eq_refl [] = refl
text_eq_refl (c ∷ s) = ground (arith, text_eq_refl s)

pub text_eq→eq : (s t : Text) → text_eq s t ≡ true → s ≡ t
text_eq→eq [] [] h = refl
text_eq→eq [] (d ∷ t) h = cc
text_eq→eq (c ∷ s) [] h = cc
text_eq→eq (c ∷ s) (d ∷ t) h = ground (arith, text_eq→eq s t)

-- `s in (a, b, ...)`
abbrev pub one_of : List Text → Text → Bool
one_of [] s = false
one_of (t ∷ ts) s = text_eq s t || one_of ts s

abbrev pub is_space : ℕ → Bool
is_space c = (leb 9 c && leb c 13) || (leb 28 c && leb c 32)

abbrev pub is_digit : ℕ → Bool
is_digit c = leb 48 c && leb c 57

-- `\w`
abbrev pub is_word : ℕ → Bool
is_word c = is_digit c || (leb 65 c && leb c 90) || (leb 97 c && leb c 122) || c == 95

abbrev pub lower_code : ℕ → ℕ
lower_code c = if leb 65 c && leb c 90 then c + 32 else c

abbrev pub lower : Text → Text
lower = map lower_code

abbrev pub strip_left : Text → Text
strip_left [] = []
strip_left (c ∷ s) = elim (is_space c) [ true ↦ strip_left s | false ↦ c ∷ s ]

abbrev pub strip : Text → Text
strip s = reverse (strip_left (reverse (strip_left s)))

abbrev flush : Text → List Text → List Text
flush word rest = if is_empty word then rest else reverse word ∷ rest

abbrev words_from : Text → Text → List Text
words_from word [] = flush word []
words_from word (c ∷ s) = elim (is_space c) [
  | true ↦ flush word (words_from [] s)
  | false ↦ words_from (c ∷ word) s
]

-- `s.split()`
abbrev pub words : Text → List Text
words = words_from []

abbrev pub split_from : ℕ → Text → Text → List Text
split_from sep word [] = reverse word ∷ []
split_from sep word (c ∷ s) = elim (c == sep) [
  | true ↦ reverse word ∷ split_from sep [] s
  | false ↦ split_from sep (c ∷ word) s
]

-- `s.split(sep)` for a separator of one character
abbrev pub split_on : ℕ → Text → List Text
split_on sep = split_from sep []

abbrev pub all_digits : Text → Bool
all_digits [] = true
all_digits (c ∷ s) = is_digit c && all_digits s

-- `s.isdigit()`
abbrev pub is_number : Text → Bool
is_number s = not (is_empty s) && all_digits s

abbrev number_from : ℕ → Text → ℕ
number_from n [] = n
number_from n (c ∷ s) = number_from (n * 10 + (c - 48)) s

-- `int(s)` of a text of digits
abbrev pub number : Text → ℕ
number = number_from 0

abbrev pub starts_with : Text → Text → Bool
starts_with s [] = true
starts_with [] (p ∷ ps) = false
starts_with (c ∷ s) (p ∷ ps) = c == p && starts_with s ps

abbrev decimal_from : ℕ → ℕ → Text
decimal_from zero n = []
decimal_from (suc fuel) n =
    let more = decimal_from fuel (n / 10) ++ (48 + n % 10) ∷ [] in
    if ltb n 10 then (48 + n) ∷ [] else more

-- `str(n)`; a number has at most as many digits as its value and one more.
unfoldable pub decimal : ℕ → Text
decimal n = decimal_from (suc n) n

-- `s[n:]`
abbrev pub drop : ℕ → Text → Text
drop zero s = s
drop (suc n) [] = []
drop (suc n) (c ∷ s) = drop n s

-- `sub in s`
abbrev pub contains_text : Text → Text → Bool
contains_text [] sub = is_empty sub
contains_text (c ∷ s) sub = starts_with (c ∷ s) sub || contains_text s sub

pub one_of-append : (x : Text) (s t : List Text) → one_of (s ++ t) x ≡ (one_of s x || one_of t x)
one_of-append x [] t = refl
one_of-append x (y ∷ s) t = ground (arith, one_of-append x s t)

module _ {V : Type 0} where
  -- `d.get(k)` of a dict whose keys are walked too
  abbrev pub lookup_text : Text → List (Text × V) → Option V
  lookup_text k [] = none
  lookup_text k ((j, v) ∷ d) = if text_eq j k then some v else lookup_text k d

  -- `d[k] = v`
  abbrev pub put_text : Text → V → List (Text × V) → List (Text × V)
  put_text k v [] = (k, v) ∷ []
  put_text k v ((j, w) ∷ d) =
      let rest = put_text k v d in if text_eq j k then (j, v) ∷ d else (j, w) ∷ rest

  -- A write to the value under a key.
  abbrev pub change_text : Text → (V → V) → List (Text × V) → List (Text × V)
  change_text k f [] = []
  change_text k f ((j, w) ∷ d) =
      let rest = change_text k f d in if text_eq j k then (j, f w) ∷ d else (j, w) ∷ rest

abbrev is_break : ℕ → Bool
is_break c = (leb 10 c && leb c 13) || (leb 28 c && leb c 30)

-- The flag says that the code point before is a carriage return.
abbrev lines_from : Bool → Text → Text → List Text
lines_from cr word [] = flush word []
lines_from cr word (c ∷ s) = elim (cr && c == 10) [
  | true ↦ lines_from false word s
  | false ↦ elim (is_break c) [
    | true ↦ reverse word ∷ lines_from (c == 13) [] s
    | false ↦ lines_from false (c ∷ word) s
  ]
]

-- `s.splitlines()`
abbrev pub split_lines : Text → List Text
split_lines = lines_from false []

split_lines_lem : split_lines (codes "a\n\nbc\n") ≡ codes "a" ∷ [] ∷ codes "bc" ∷ []
split_lines_lem = refl

words_lem : words (codes " permit  tcp any ") ≡ codes "permit" ∷ codes "tcp" ∷ codes "any" ∷ []
words_lem = refl

strip_lem : strip (codes "  no x ") ≡ codes "no x"
strip_lem = refl
