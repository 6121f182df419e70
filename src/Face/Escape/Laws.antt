-- ===== src/Face/Escape/Laws.antt =====
-- What zh_json_escape of src/face_recognition.c keeps of a text.
use rockchip_1106_voice_agen.Face.Escape.{replacement, put, follow, json_escape}
use rockchip_1106_voice_agen.Prelude.{
  ℕ, zero, suc, ◌≤◌, ◌≡◌, refl, ap, ◌∙◌, false, Option, none, some, List, [], ◌∷◌, ◌++◌, arith,
  ◌==◌, if◌then◌else◌, length, take, take-all,
}

-- The whole text, without a limit.
abbrev pub escaped : List ℕ → List ℕ
escaped [] = []
escaped (c ∷ cs) = replacement c ++ escaped cs

-- A reader of such texts.
unfoldable pub unescape : List ℕ → List ℕ
unescape [] = []
unescape (c ∷ []) = c ∷ []
unescape (c ∷ d ∷ cs) =
    let short = unescape cs in
    let long = unescape (d ∷ cs) in
    if c == b'\\'
    then (if d == b'n' then b'\n' else if d == b'r' then b'\r' else if d == b't' then b'\t' else d)
      ∷ short
    else c ∷ long

follow-cons :
    (x : ℕ) (r : List ℕ × Option ℕ) (next : ℕ → List ℕ)
    → follow (x ∷ r.0, r.1) next ≡ x ∷ follow r next
follow-cons x (out, none) next = refl
follow-cons x (out, some left) next = refl

follow-cong :
    (r : List ℕ × Option ℕ) (next other : ℕ → List ℕ)
    → ((left : ℕ) → next left ≡ other left)
    → follow r next ≡ follow r other
follow-cong (out, none) next other e = refl
follow-cong (out, some left) next other e = ap (λ l. out ++ l) (e left)

put-take :
    (room : ℕ) (xs ys : List ℕ) → follow (put room xs) (λ left. take left ys) ≡ take room (xs ++ ys)
unfolding put
put-take room [] ys = refl
put-take zero (x ∷ xs) ys = refl
put-take (suc room) (x ∷ xs) ys =
    follow-cons x (put room xs) (λ left. take left ys) ∙ ap (λ l. x ∷ l) (put-take room xs ys)

-- The text that is written is the first part of the whole one, as much as there is room for.
pub json_escape-take : (room : ℕ) (s : List ℕ) → json_escape room s ≡ take room (escaped s)
unfolding json_escape
json_escape-take zero [] = refl
json_escape-take (suc room) [] = refl
json_escape-take room (c ∷ cs) =
    follow-cong (put room (replacement c)) (λ left. json_escape left cs)
      (λ left. take left (escaped cs)) (λ left. json_escape-take left cs)
    ∙ put-take room (replacement c) (escaped cs)

unescape-plain : (c : ℕ) (xs : List ℕ) → (c == b'\\') ≡ false → unescape (c ∷ xs) ≡ c ∷ unescape xs
unfolding unescape
unescape-plain c [] h = refl
unescape-plain c (d ∷ xs) h = rw h

unescape-replacement : (c : ℕ) (xs : List ℕ) → unescape (replacement c ++ xs) ≡ c ∷ unescape xs
unfolding replacement unescape
unescape-replacement c xs = ground (arith, unescape-plain c xs)

unescape-escaped : (s : List ℕ) → unescape (escaped s) ≡ s
unescape-escaped [] = unfold unescape in refl
unescape-escaped (c ∷ cs) =
    unescape-replacement c (escaped cs) ∙ ap (λ l. c ∷ l) (unescape-escaped cs)

-- A text whose escaped form fits its buffer is read back as it was.
pub unescape-json_escape :
    (room : ℕ) (s : List ℕ) → length (escaped s) ≤ room → unescape (json_escape room s) ≡ s
unescape-json_escape room s fits =
    ap unescape (json_escape-take room s ∙ take-all room (escaped s) fits) ∙ unescape-escaped s
