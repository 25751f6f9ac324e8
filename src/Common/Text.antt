-- ===== src/Common/Text.antt =====
-- JavaScript's texts as the rules read them: their length in UTF-16 units, trim, and classes of
-- characters.
use Prim.Native.Nat.{ℕ, zero, suc, ◌+◌, ◌-◌, ◌*◌}
use Prim.Native.Char.{code}
use Prim.Native.String.{String}
use mathlib.Core.Bool.{Bool, true, false, ◌&&◌, ◌||◌}
use mathlib.Core.List.{List, [], ◌∷◌}
use nuvrion.Common.Tests.{leb, ◌==◌, if◌then◌else◌}
use nuvrion.Common.Lists.{any}

-- The code points of a text.
abbrev pub codes : String → List ℕ
codes String.[] = []
codes (String.◌∷◌ c s) = code c ∷ codes s

-- text.length
unfoldable pub units : String → ℕ
units String.[] = 0
units (String.◌∷◌ c s) = (if leb 0x10000 (code c) then 2 else 1) + units s

abbrev pub between : ℕ → ℕ → ℕ → Bool
between lo hi c = leb lo c && leb c hi

-- \s
unfoldable pub is_space : ℕ → Bool
is_space c =
    between 9 13 c
    || (c == 32
        || (c == 0xa0
            || (c == 0x1680
                || (between 0x2000 0x200a c
                    || (c == 0x2028
                        || (c == 0x2029
                            || (c == 0x202f || (c == 0x205f || (c == 0x3000 || c == 0xfeff)))))))))

unfoldable pub trim_start : String → String
trim_start String.[] = String.[]
trim_start (String.◌∷◌ c s) =
    let rest = trim_start s in if is_space (code c) then rest else String.◌∷◌ c s

-- A text of white space only ends here; `is_blank` is that.
unfoldable pub is_blank : String → Bool
is_blank String.[] = true
is_blank (String.◌∷◌ c s) = is_space (code c) && is_blank s

unfoldable pub trim_end : String → String
trim_end String.[] = String.[]
trim_end (String.◌∷◌ c s) =
    let rest = trim_end s in if is_blank (String.◌∷◌ c s) then String.[] else String.◌∷◌ c rest

-- text.trim()
unfoldable pub trim : String → String
unfolding trim_start trim_end is_blank is_space
trim s = trim_end (trim_start s)

-- [\p{Cc}\p{Cf}\p{Zl}\p{Zp}]
unfoldable pub is_control : ℕ → Bool
is_control c =
    leb c 31
    || (between 127 159 c
        || (c == 0xad
            || (between 0x600 0x605 c
                || (c == 0x61c
                    || (c == 0x6dd
                        || (c == 0x70f
                            || (between 0x890 0x891 c
                                || (c == 0x8e2
                                    || (c == 0x180e
                                        || (between 0x200b 0x200f c
                                            || (between 0x2028 0x202e c
                                                || (between 0x2060 0x2064 c
                                                    || (between 0x2066 0x206f c
                                                        || (c == 0xfeff
                                                            || (between 0xfff9 0xfffb c
                                                            || (c == 0x110bd
                                                            || (c == 0x110cd
                                                            || (between 0x13430 0x1343f c
                                                            || (between 0x1bca0 0x1bca3 c
                                                            || (between 0x1d173 0x1d17a c
                                                            || (c == 0xe0001
                                                            || between 0xe0020 0xe007f
                                                            c)))))))))))))))))))))

unfoldable pub has_control : String → Bool
unfolding is_control
has_control s = any is_control (codes s)

unfoldable pub is_digit : ℕ → Bool
is_digit c = between b'0' b'9' c

unfoldable pub is_lower : ℕ → Bool
is_lower c = between b'a' b'z' c

-- [0-9a-f], with the flag i
unfoldable pub is_hex : ℕ → Bool
unfolding is_digit
is_hex c = is_digit c || (between b'a' b'f' c || between b'A' b'F' c)

-- So many characters of a class, then the rest.
unfoldable pub run_of : ℕ → (ℕ → Bool) → List ℕ → (List ℕ → Bool) → Bool
run_of zero p cs then_rest = then_rest cs
run_of (suc n) p [] then_rest = false
run_of (suc n) p (c ∷ cs) then_rest = p c && run_of n p cs then_rest

unfoldable pub dash_then : (List ℕ → Bool) → List ℕ → Bool
dash_then p [] = false
dash_then p (c ∷ cs) = c == b'-' && p cs

abbrev pub at_end : List ℕ → Bool
at_end [] = true
at_end (c ∷ cs) = false

-- /^[0-9a-f]{8}-[0-9a-f]{4}-[0-9a-f]{4}-[0-9a-f]{4}-[0-9a-f]{12}$/i
unfoldable pub is_uuid : String → Bool
unfolding run_of dash_then is_hex
is_uuid s = run_of 8 is_hex (codes s) (
    dash_then λ a. run_of 4 is_hex a (
      dash_then λ b.
        run_of 4 is_hex b
          (dash_then λ c. run_of 4 is_hex c (dash_then λ d. run_of 12 is_hex d at_end))))

-- /^([01]\d|2[0-3]):[0-5]\d$/
unfoldable pub is_time : List ℕ → Bool
unfolding is_digit
is_time (a ∷ b ∷ c ∷ d ∷ e ∷ []) =
    ((a == b'0' || a == b'1') && is_digit b || a == b'2' && between b'0' b'3' b)
    && (c == b':' && (between b'0' b'5' d && is_digit e))
is_time _ = false

-- The minute of the day that such a time names.
unfoldable pub minute_of : List ℕ → ℕ
minute_of (a ∷ b ∷ c ∷ d ∷ e ∷ []) =
    ((a - b'0') * 10 + (b - b'0')) * 60 + ((d - b'0') * 10 + (e - b'0'))
minute_of _ = 0
