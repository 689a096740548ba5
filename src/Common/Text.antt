-- ===== src/Common/Text.antt =====
-- Go's strings: the `strings` functions that the program calls, formatting, byte order and bytes.
use Prim.Native.Nat.{ℕ, zero, suc, ◌+◌, ◌-◌, ◌/◌, ◌%◌}
use Prim.Native.Char.{code}
use Prim.Native.String
use Prim.Native.String.{String}
use mathlib.Core.Path.{◌≡◌, refl, ap₂, sym, subst}
use mathlib.Core.Logic.{inl, inr}
use mathlib.Core.Bool.{Bool, true, false, ◌||◌, ◌&&◌}
use mathlib.Core.List.{List, [], ◌∷◌, ◌++◌}
use native.Mathlib.Omega.{arith}
use text.Mathlib.Text.{◌==◌}
use text.Mathlib.TextEquality.{Char-path, eq_iff}
use text.Mathlib.TextPositions.{eq_refl}
use kube_agentic_networking.Common.Bools.{eqb, ltb, leb, if◌then◌else◌, Bool-cases}

-- `fmt.Sprintf` with `%s` verbs: the pieces in order.
unfoldable pub concat : List String → String
concat [] = ""
concat (s ∷ parts) = String.◌++◌ s (concat parts)

-- strings.HasPrefix(s, p)
unfoldable pub has_prefix : String → String → Bool
has_prefix s String.[] = true
has_prefix String.[] (String.◌∷◌ d p) = false
has_prefix (String.◌∷◌ c s) (String.◌∷◌ d p) = eqb (code c) (code d) && has_prefix s p

-- strings.HasSuffix(s, t)
unfoldable pub has_suffix : String → String → Bool
has_suffix String.[] t = "" == t
has_suffix (String.◌∷◌ c s) t = (String.◌∷◌ c s) == t || has_suffix s t

-- strings.TrimSuffix(s, t)
unfoldable pub trim_suffix : String → String → String
trim_suffix String.[] t = ""
trim_suffix (String.◌∷◌ c s) t =
    let shorter = String.◌∷◌ c (trim_suffix s t) in if (String.◌∷◌ c s) == t then "" else shorter

-- strings.ReplaceAll(s, `\`, "")
unfoldable pub remove_backslashes : String → String
remove_backslashes String.[] = ""
remove_backslashes (String.◌∷◌ c s) =
    let rest = remove_backslashes s in if eqb (code c) 92 then rest else String.◌∷◌ c rest

single_at : ℕ → String → String
single_at n String.[] = ""
single_at zero (String.◌∷◌ c s) = String.◌∷◌ c String.[]
single_at (suc n) (String.◌∷◌ c s) = single_at n s

-- strings.ToLower(s) of a text in ASCII; other letters are kept
unfoldable pub to_lower : String → String
unfolding single_at
to_lower String.[] = ""
to_lower (String.◌∷◌ c s) =
    let rest = to_lower s in
    if leb 65 (code c) && leb (code c) 90
    then String.◌++◌ (single_at (code c - 65) "abcdefghijklmnopqrstuvwxyz") rest
    else String.◌∷◌ c rest

-- s[1:], where the first character is one byte
abbrev pub drop_one : String → String
drop_one String.[] = ""
drop_one (String.◌∷◌ c s) = s

-- s < t: the order of the code points is the order of the bytes of UTF-8
unfoldable pub str_ltb : String → String → Bool
str_ltb String.[] String.[] = false
str_ltb String.[] (String.◌∷◌ d t) = true
str_ltb (String.◌∷◌ c s) String.[] = false
str_ltb (String.◌∷◌ c s) (String.◌∷◌ d t) =
    ltb (code c) (code d) || (eqb (code c) (code d) && str_ltb s t)

-- `fmt.Sprintf` with `%d` of a number that is not negative
abbrev digit : ℕ → String
digit zero = "0"
digit (suc zero) = "1"
digit (suc (suc zero)) = "2"
digit (suc (suc (suc zero))) = "3"
digit (suc (suc (suc (suc zero)))) = "4"
digit (suc (suc (suc (suc (suc zero))))) = "5"
digit (suc (suc (suc (suc (suc (suc zero)))))) = "6"
digit (suc (suc (suc (suc (suc (suc (suc zero))))))) = "7"
digit (suc (suc (suc (suc (suc (suc (suc (suc zero)))))))) = "8"
digit _ = "9"

decimal_from : ℕ → ℕ → String → String
decimal_from zero n acc = acc
decimal_from (suc fuel) n acc =
    let longer = decimal_from fuel (n / 10) (String.◌++◌ (digit (n % 10)) acc) in
    if ltb n 10 then String.◌++◌ (digit n) acc else longer

-- The fuel is above the number of digits, which is at most the number plus one.
unfoldable pub decimal : ℕ → String
unfolding decimal_from
decimal n = decimal_from (suc n) n ""

-- []byte(s): the bytes of UTF-8
utf8 : ℕ → List ℕ
utf8 c =
    if ltb c 0x80
    then c ∷ []
    else if ltb c 0x800
    then (0xC0 + c / 64) ∷ (0x80 + c % 64) ∷ []
    else if ltb c 0x10000
    then (0xE0 + c / 4096) ∷ (0x80 + c / 64 % 64) ∷ (0x80 + c % 64) ∷ []
    else (0xF0 + c / 262144) ∷ (0x80 + c / 4096 % 64) ∷ (0x80 + c / 64 % 64) ∷ (0x80 + c % 64) ∷ []

unfoldable pub bytes : String → List ℕ
unfolding utf8
bytes String.[] = []
bytes (String.◌∷◌ c s) = utf8 (code c) ++ bytes s

-- `<` on strings is a strict total order.
pub str_ltb_irrefl : (s : String) → str_ltb s s ≡ false
unfolding str_ltb
str_ltb_irrefl String.[] = refl
str_ltb_irrefl (String.◌∷◌ c s) = ground (arith, str_ltb_irrefl s)

pub str_ltb_asymm : (s t : String) → str_ltb s t ≡ true → str_ltb t s ≡ false
unfolding str_ltb
str_ltb_asymm String.[] String.[] h = refl
str_ltb_asymm String.[] (String.◌∷◌ d t) h = refl
str_ltb_asymm (String.◌∷◌ c s) String.[] h = cc
str_ltb_asymm (String.◌∷◌ c s) (String.◌∷◌ d t) h = ground (arith, str_ltb_asymm s t)

pub str_ltb_trans : (s t u : String) → str_ltb s t ≡ true → str_ltb t u ≡ true → str_ltb s u ≡ true
unfolding str_ltb
str_ltb_trans String.[] String.[] u h k = cc
str_ltb_trans s (String.◌∷◌ d t) String.[] h k = cc
str_ltb_trans (String.◌∷◌ c s) String.[] u h k = cc
str_ltb_trans String.[] (String.◌∷◌ d t) (String.◌∷◌ e u) h k = refl
str_ltb_trans (String.◌∷◌ c s) (String.◌∷◌ d t) (String.◌∷◌ e u) h k =
    ground (arith, str_ltb_trans s t u)

pub str_ltb_total : (s t : String) → str_ltb s t ≡ false → str_ltb t s ≡ false → s ≡ t
unfolding str_ltb
str_ltb_total String.[] String.[] h k = refl
str_ltb_total String.[] (String.◌∷◌ d t) h k = cc
str_ltb_total (String.◌∷◌ c s) String.[] h k = cc
str_ltb_total (String.◌∷◌ c s) (String.◌∷◌ d t) h k =
    ap₂ String.◌∷◌ (Char-path c d (ground arith)) (str_ltb_total s t (ground arith) (ground arith))

-- A suffix of a suffix is a suffix.
pub has_suffix_trans :
    (s t u : String) → has_suffix s t ≡ true → has_suffix t u ≡ true → has_suffix s u ≡ true
unfolding has_suffix
has_suffix_trans String.[] t u h k = subst (λ r. has_suffix r u ≡ true) (sym ((eq_iff "" t).0 h)) k
has_suffix_trans (String.◌∷◌ c s) t u h k = elim (Bool-cases ((String.◌∷◌ c s) == t)) [
  | inl same ↦ subst (λ r. has_suffix r u ≡ true) (sym ((eq_iff _ t).0 same)) k
  | inr other ↦ ground (arith, has_suffix_trans s t u)
]

pub has_suffix_refl : (s : String) → has_suffix s s ≡ true
unfolding has_suffix
has_suffix_refl String.[] = eq_refl ""
has_suffix_refl (String.◌∷◌ c s) = rw (eq_refl (String.◌∷◌ c s))

to_lower_test : to_lower "gRPC-Z" ≡ "grpc-z"
unfolding to_lower
to_lower_test = refl

decimal_test : decimal 15001 ≡ "15001"
unfolding decimal
decimal_test = refl
