-- ===== src/Prelude/Texts.antt =====
-- The operations of `str` that the source calls. A text is a native string; what walks it reads its
-- code points, whose order is the order of the UTF-8 bytes by which Rust compares strings.
use Prim.Native.Nat.{ℕ, compare, Ordering}
use Prim.Native.Char.{code}
use Prim.Native.String.{String}
use mathlib.Core.Bool.{Bool, true, false, ◌&&◌, ◌||◌}
use mathlib.Core.List.{List, [], ◌∷◌, reverse}
use pixiv_archive.Prelude.Tests.{leb, ◌==◌, if◌then◌else◌}
use pixiv_archive.Prelude.Lists.{all}

abbrev pub codes : String → List ℕ
codes String.[] = []
codes (String.◌∷◌ c s) = code c ∷ codes s

prefix_codes : List ℕ → List ℕ → Bool
prefix_codes [] t = true
prefix_codes (c ∷ s) [] = false
prefix_codes (c ∷ s) (d ∷ t) = c == d && prefix_codes s t

infix_codes : List ℕ → List ℕ → Bool
infix_codes s [] = prefix_codes s []
infix_codes s (d ∷ t) = prefix_codes s (d ∷ t) || infix_codes s t

-- `left.starts_with(right)`, `left.ends_with(right)` and `left.contains(right)`.
unfoldable pub starts_with : String → String → Bool
unfolding prefix_codes
starts_with left right = prefix_codes (codes right) (codes left)

unfoldable pub ends_with : String → String → Bool
unfolding prefix_codes
ends_with left right = prefix_codes (reverse (codes right)) (reverse (codes left))

unfoldable pub contains : String → String → Bool
unfolding infix_codes prefix_codes
contains left right = infix_codes (codes right) (codes left)

le_codes : List ℕ → List ℕ → Bool
le_codes [] t = true
le_codes (c ∷ s) [] = false
le_codes (c ∷ s) (d ∷ t) =
    let rest = le_codes s t in
    elim (compare c d) [ Ordering.lt ↦ true | Ordering.gt ↦ false | Ordering.eq ↦ rest ]

unfoldable pub str_le : String → String → Bool
unfolding le_codes
str_le s t = le_codes (codes s) (codes t)

-- The property White_Space, by which `trim` cuts.
is_whitespace : ℕ → Bool
is_whitespace c =
    leb 9 c && leb c 13
    || c == 32
    || c == 0x85
    || c == 0xA0
    || c == 0x1680
    || leb 0x2000 c && leb c 0x200A
    || c == 0x2028
    || c == 0x2029
    || c == 0x202F
    || c == 0x205F
    || c == 0x3000

-- `value.trim().is_empty()`.
unfoldable pub is_blank : String → Bool
unfolding is_whitespace
is_blank s = all is_whitespace (codes s)

insert_text : String → List String → List String
insert_text s [] = s ∷ []
insert_text s (t ∷ ts) = if str_le s t then s ∷ t ∷ ts else t ∷ insert_text s ts

-- `sort` of a vector of strings, as an insertion sort.
unfoldable pub sort : List String → List String
unfolding insert_text str_le
sort [] = []
sort (s ∷ ts) = insert_text s (sort ts)
