-- ===== src/Face/Escape.antt =====
-- zh_json_escape of src/face_recognition.c.
pub mod Laws
use rockchip_1106_voice_agen.Prelude.{
  ℕ, zero, suc, ◌+◌, ◌-◌, ◌*◌, ◌/◌, ◌%◌, ◌^◌, ◌≤◌, ◌<◌, min, ◌≡◌, refl, sym, ap, ◌∙◌, ◌≢◌, ◌↔◌, ◌⊎◌,
  inl, inr, Bool, true, false, not, ◌&&◌, ◌||◌, Option, none, some, List, [], ◌∷◌, ◌++◌, map, arith,
  ltb, leb, ◌==◌, if◌then◌else◌, ltb→lt, lt→ltb, leb→le, ==_iff, Bool-cases, Option-cases, length,
  get_elem?, set, get_or, take, drop, replicate, length-append, length-set, length-take,
  length-drop, length-replicate, take-append-drop, take-length_append, drop-length_append,
  get_or-append_left, get_or-append_right, take-all, get_elem?-set_self, get_elem?-set_ne,
}

-- The text that stands for a byte.
unfoldable pub replacement : ℕ → List ℕ
replacement c =
    if c == b'\\'
    then b'\\' ∷ b'\\' ∷ []
    else if c == b'"'
    then b'\\' ∷ b'"' ∷ []
    else if c == b'\n'
    then b'\\' ∷ b'n' ∷ []
    else if c == b'\r'
    then b'\\' ∷ b'r' ∷ []
    else if c == b'\t'
    then b'\\' ∷ b't' ∷ []
    else c ∷ []

-- The inner loop: what it writes, and the room that is left, if any of the text was not cut off.
unfoldable pub put : ℕ → List ℕ → List ℕ × Option ℕ
put room [] = ([], some room)
put zero (x ∷ xs) = ([], none)
put (suc room) (x ∷ xs) = let r = put room xs in (x ∷ r.0, r.1)

-- What follows is written into the room that is left.
abbrev pub follow : List ℕ × Option ℕ → (ℕ → List ℕ) → List ℕ
follow (out, none) next = out
follow (out, some left) next = out ++ next left

-- zh_json_escape into `room` bytes and a NUL.
unfoldable pub json_escape : ℕ → List ℕ → List ℕ
json_escape room [] = []
json_escape room (c ∷ cs) = follow (put room (replacement c)) (λ left. json_escape left cs)
