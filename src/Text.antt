-- ===== src/Text.antt =====
-- C strings as lists of bytes, and what the sources use of <string.h> and <ctype.h>.
pub mod Decimal
use Prim.Native.Char.{code}
use Prim.Native.String.{String}
use rockchip_1106_voice_agen.Prelude.{
  ℕ, zero, suc, ◌+◌, ◌-◌, ◌*◌, ◌/◌, ◌%◌, ◌^◌, ◌≤◌, ◌<◌, min, ◌≡◌, refl, sym, ap, ◌∙◌, ◌≢◌, ◌↔◌, ◌⊎◌,
  inl, inr, Bool, true, false, not, ◌&&◌, ◌||◌, Option, none, some, List, [], ◌∷◌, ◌++◌, map, arith,
  ltb, leb, ◌==◌, if◌then◌else◌, ltb→lt, lt→ltb, leb→le, ==_iff, Bool-cases, Option-cases, length,
  get_elem?, set, get_or, take, drop, replicate, length-append, length-set, length-take,
  length-drop, length-replicate, take-append-drop, take-length_append, drop-length_append,
  get_or-append_left, get_or-append_right, take-all, get_elem?-set_self, get_elem?-set_ne,
}

-- The string that starts at a buffer's first byte: its bytes before the first NUL.
unfoldable pub cstr : List ℕ → List ℕ
cstr [] = []
cstr (c ∷ cs) = if c == 0 then [] else c ∷ cstr cs

-- No byte is NUL.
abbrev pub IsText : List ℕ → Type 0
IsText [] = Unit
IsText (c ∷ cs) = (c ≢ 0) × IsText cs

pub cstr-text : (s : List ℕ) → IsText s → cstr s ≡ s
unfolding cstr
cstr-text [] h = refl
cstr-text (c ∷ cs) h = ground (arith, cstr-text cs h.1)

pub cstr-append_nul : (s t : List ℕ) → IsText s → cstr (s ++ (0 ∷ t)) ≡ s
unfolding cstr
cstr-append_nul [] t h = refl
cstr-append_nul (c ∷ cs) t h = ground (arith, cstr-append_nul cs t h.1)

-- `strncmp(s, prefix, strlen(prefix)) == 0`
unfoldable pub is_prefix : List ℕ → List ℕ → Bool
is_prefix [] s = true
is_prefix (p ∷ ps) [] = false
is_prefix (p ∷ ps) (c ∷ cs) = p == c && is_prefix ps cs

-- strstr: the index of the first occurrence.
unfoldable pub strstr : List ℕ → List ℕ → Option ℕ
unfolding is_prefix
strstr [] pattern = if is_prefix pattern [] then some 0 else none
strstr (c ∷ cs) pattern =
    if is_prefix pattern (c ∷ cs)
    then some 0
    else elim (strstr cs pattern) [ none ↦ none | some i ↦ some (suc i) ]

-- strcmp(a, b) == 0
unfoldable pub str_eq : List ℕ → List ℕ → Bool
str_eq [] [] = true
str_eq [] (b ∷ bs) = false
str_eq (a ∷ as') [] = false
str_eq (a ∷ as') (b ∷ bs) = a == b && str_eq as' bs

pub str_eq_refl : (s : List ℕ) → str_eq s s ≡ true
unfolding str_eq
str_eq_refl [] = refl
str_eq_refl (c ∷ cs) = ground (arith, str_eq_refl cs)

pub str_eq_sound : (s t : List ℕ) → str_eq s t ≡ true → s ≡ t
unfolding str_eq
str_eq_sound [] [] h = refl
str_eq_sound [] (b ∷ bs) h = cc
str_eq_sound (a ∷ as') [] h = cc
str_eq_sound (a ∷ as') (b ∷ bs) h = ground (arith, str_eq_sound as' bs)

-- isspace of the C locale
unfoldable pub isspace : ℕ → Bool
isspace c = c == 0x20 || (leb 9 c && leb c 13)

-- The bytes from the first that is no space on.
unfoldable pub skip_spaces : List ℕ → List ℕ
unfolding isspace
skip_spaces [] = []
skip_spaces (c ∷ cs) = if isspace c then skip_spaces cs else c ∷ cs

-- The code points of a literal of the source: its bytes, for ASCII.
abbrev pub codes : String → List ℕ
codes String.[] = []
codes (String.◌∷◌ c s) = code c ∷ codes s

-- `snprintf(dst, n, "%s", src)`: what the string at `dst` is after it.
abbrev pub copy_str : ℕ → List ℕ → List ℕ
copy_str n src = take (n - 1) src
