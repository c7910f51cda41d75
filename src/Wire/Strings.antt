-- ===== src/Wire/Strings.antt =====
-- Python's `str` where the panel compares, trims and cuts it.
use Prim.Native.Char.{code}
use Prim.Native.String.{String}
use rvg_sever.Prelude.{
  ℕ, ◌+◌, ◌-◌, List, [], ◌∷◌, Bool, true, false, ◌==◌, ◌&&◌, ◌||◌, leb, if◌then◌else◌, Option, none,
  some, ◌≡◌, ◌↔◌, refl, arith,
}
use rvg_sever.Wire.Text.{Text}

-- The code points of a literal.
abbrev pub chars : String → Text
chars String.[] = []
chars (String.◌∷◌ c s) = code c ∷ chars s

abbrev pub same_text : Text → Text → Bool
same_text [] [] = true
same_text (a ∷ s) (b ∷ t) = a == b && same_text s t
same_text _ _ = false

pub same_text_iff : (s t : Text) → (same_text s t ≡ true) ↔ (s ≡ t)
same_text_iff [] [] = ground arith
same_text_iff [] (b ∷ t) = ground arith
same_text_iff (a ∷ s) [] = ground arith
same_text_iff (a ∷ s) (b ∷ t) = ground (arith, same_text_iff s t)

-- t in texts
abbrev pub is_one_of : Text → List Text → Bool
is_one_of t [] = false
is_one_of t (u ∷ us) = same_text t u || is_one_of t us

-- c.isspace()
unfoldable pub is_blank : ℕ → Bool
is_blank c =
    (leb 9 c && leb c 13)
    || (leb 28 c && leb c 32)
    || (c == 133 || c == 160 || c == 5760)
    || (leb 8192 c && leb c 8202)
    || (c == 8232 || c == 8233 || c == 8239 || c == 8287 || c == 12288)

unfoldable pub lstrip : Text → Text
unfolding is_blank
lstrip [] = []
lstrip (c ∷ t) = let rest = lstrip t in if is_blank c then rest else c ∷ t

-- A text without the blanks at its end.
unfoldable pub rstrip : Text → Text
unfolding is_blank
rstrip [] = []
rstrip (c ∷ t) = keep c (rstrip t)
  where
    keep : ℕ → Text → Text
    keep c [] = if is_blank c then [] else c ∷ []
    keep c (d ∷ rest) = c ∷ d ∷ rest

unfoldable pub strip : Text → Text
unfolding lstrip rstrip
strip t = rstrip (lstrip t)

-- t.lower(), for ASCII
unfoldable pub lower : Text → Text
lower [] = []
lower (c ∷ t) = (if leb 65 c && leb c 90 then c + 32 else c) ∷ lower t

-- t.upper(), for ASCII
unfoldable pub upper : Text → Text
upper [] = []
upper (c ∷ t) = (if leb 97 c && leb c 122 then c - 32 else c) ∷ upper t

-- t or default, of a text that may be missing
abbrev pub or_else : Text → Option Text → Text
or_else default none = default
or_else default (some []) = default
or_else default (some (c ∷ t)) = c ∷ t

-- t.startswith(prefix)
abbrev pub starts_with : Text → Text → Bool
starts_with t [] = true
starts_with [] (c ∷ prefix) = false
starts_with (d ∷ t) (c ∷ prefix) = d == c && starts_with t prefix

strip_sample : strip (chars "  a b ") ≡ chars "a b"
unfolding strip
strip_sample = refl

lower_sample : lower (chars "XRay-1") ≡ chars "xray-1"
unfolding lower
lower_sample = refl
