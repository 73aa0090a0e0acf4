-- ===== src/Base/Texts.antt =====
-- Texts that the program looks into, as lists of code points, and the types of those it does not.
use Prim.Native.Nat.{ℕ}
use Prim.Native.Char.{code}
use Prim.Native.String.{String}
use mathlib.Core.Path.{◌≡◌, refl}
use native.Mathlib.Omega.{arith}
use mathlib.Core.Bool.{Bool, true, false, not, ◌&&◌, ◌||◌}
use mathlib.Core.List.{List, [], ◌∷◌, ◌++◌, reverse}
use flood_agent.Base.Tests.{leb, ◌==◌, if◌then◌else◌}
use flood_agent.Base.Lists.{filter_by, any}

-- An identifier, a digest or another text that is only compared and tested for emptiness: a
-- number stands for each text, and 0 for the empty one.
abbrev pub Ident : Type 0
Ident = ℕ

-- An instant, in microseconds.
abbrev pub Time : Type 0
Time = ℕ

abbrev pub Text : Type 0
Text = List ℕ

-- The code points of a literal.
abbrev pub codes : String → Text
codes String.[] = []
codes (String.◌∷◌ c s) = code c ∷ codes s

abbrev pub text_eq : Text → Text → Bool
text_eq [] [] = true
text_eq (a ∷ s) (b ∷ t) = a == b && text_eq s t
text_eq _ _ = false

pub text_eq_refl : (s : Text) → text_eq s s ≡ true
text_eq_refl [] = refl
text_eq_refl (c ∷ s) = ground (arith, text_eq_refl s)

pub text_eq_sound : (s t : Text) → text_eq s t ≡ true → s ≡ t
text_eq_sound [] [] h = refl
text_eq_sound [] (b ∷ t) h = absurd (ground arith)
text_eq_sound (a ∷ s) [] h = absurd (ground arith)
text_eq_sound (a ∷ s) (b ∷ t) h = ground (arith, text_eq_sound s t)

-- `str.isspace` of one character, which `strip` and `\s` read.
abbrev pub is_space : ℕ → Bool
is_space c =
    leb 0x09 c && leb c 0x0d
    || leb 0x1c c && leb c 0x20
    || c == 0x85
    || c == 0xa0
    || c == 0x1680
    || leb 0x2000 c && leb c 0x200a
    || c == 0x2028
    || c == 0x2029
    || c == 0x202f
    || c == 0x205f
    || c == 0x3000

abbrev strip_left : Text → Text
strip_left [] = []
strip_left (c ∷ s) = let rest = strip_left s in if is_space c then rest else c ∷ s

-- `str.strip()`
unfoldable pub strip : Text → Text
strip s = reverse (strip_left (reverse (strip_left s)))

-- `re.sub(r"\s+", "", text)`
abbrev pub remove_spaces : Text → Text
remove_spaces = filter_by (λ c. not (is_space c))

abbrev pub starts_with : Text → Text → Bool
starts_with [] s = true
starts_with (a ∷ p) [] = false
starts_with (a ∷ p) (b ∷ s) = a == b && starts_with p s

-- `part in text`
abbrev pub contains : Text → Text → Bool
contains p [] = starts_with p []
contains p (b ∷ s) = starts_with p (b ∷ s) || contains p s

-- No character of the text is the separator.
abbrev pub Lacks : ℕ → Text → Type 0
Lacks sep s = any (λ c. c == sep) s ≡ false

-- A text is split at its first separator in one way.
pub first_separator :
    (sep : ℕ) (s t x y : Text)
    → Lacks sep s
    → Lacks sep t
    → s ++ sep ∷ x ≡ t ++ sep ∷ y
    → (s ≡ t) × (x ≡ y)
first_separator sep [] [] x y h k e = ground arith
first_separator sep [] (b ∷ t) x y h k e = absurd (ground arith)
first_separator sep (a ∷ s) [] x y h k e = absurd (ground arith)
first_separator sep (a ∷ s) (b ∷ t) x y h k e =
    let (same, rest) = first_separator sep s t x y (ground arith) (ground arith) (ground arith) in
    (ground arith, rest)
