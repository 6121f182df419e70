-- ===== src/Device/Files.antt =====
-- zh_read_file and zh_cmd_get_json_line of src/utils.c. What fread and fgets deliver is given.
use rockchip_1106_voice_agen.Text.{cstr, IsText, cstr-text, is_prefix, strstr, isspace, skip_spaces}
use rockchip_1106_voice_agen.Prelude.{
  ℕ, zero, suc, ◌+◌, ◌-◌, ◌≤◌, ◌<◌, min, ◌≡◌, refl, ap, ◌∙◌, Bool, true, false, not, Option, none,
  some, List, [], ◌∷◌, ◌++◌, arith, ltb, ◌==◌, if◌then◌else◌, length, get_or, take, drop,
  length-append, length-take, take-all, take-length_append, get_or-append_left, get_or-append_right,
}

-- The loop from the end of the string: how many bytes stay.
unfoldable pub trimmed_len : List ℕ → ℕ → ℕ
unfolding isspace
trimmed_len s zero = 0
trimmed_len s (suc n) =
    let shorter = trimmed_len s n in if isspace (get_or s n 0) then shorter else suc n

-- The string that zh_read_file leaves in `out` of a file that begins with these bytes.
unfoldable pub trimmed : ℕ → List ℕ → List ℕ
unfolding cstr skip_spaces trimmed_len
trimmed out_len bytes =
    let s = skip_spaces (cstr (take (out_len - 1) bytes)) in take (trimmed_len s (length s)) s

-- zh_read_file, `none` for a file that cannot be opened: whether it returns 0, and `out`.
unfoldable pub read_file : ℕ → Option (List ℕ) → Bool × List ℕ
unfolding trimmed
read_file out_len none = (false, [])
read_file out_len (some bytes) =
    if out_len == 0
    then (false, [])
    else (let s = trimmed out_len bytes in (not (length s == 0), s))

-- The loop of zh_cmd_get_json_line without a prefix, with the bytes in `out` so far.
unfoldable pub join_lines : ℕ → List ℕ → List (List ℕ) → List ℕ
join_lines out_len out [] = out
join_lines out_len out (line ∷ lines) =
    let remain = if ltb (length out) out_len then out_len - length out - 1 else 0 in
    let rest = join_lines out_len (out ++ take (min (length line) remain) line) lines in
    if remain == 0 then out else rest

-- What a line gives with a prefix: from the prefix on, if it has one.
unfoldable pub hit : List ℕ → List ℕ → Option (List ℕ)
unfolding skip_spaces is_prefix strstr
hit prefix line =
    let s = skip_spaces line in
    if is_prefix prefix s
    then some s
    else elim (strstr s prefix) [ none ↦ none | some i ↦ some (drop i s) ]

-- The loop with a prefix: the last line that has it.
unfoldable pub last_hit : ℕ → List ℕ → List ℕ → List (List ℕ) → List ℕ
unfolding hit
last_hit out_len prefix out [] = out
last_hit out_len prefix out (line ∷ lines) =
    last_hit out_len prefix (elim (hit prefix line) [ none ↦ out | some s ↦ take (out_len - 1) s ])
      lines

-- zh_cmd_get_json_line: whether it returns 0, and `out`. `none` is a failure of popen. No line that
-- fgets gives is empty.
unfoldable pub cmd_get_json_line : ℕ → List ℕ → Option (List (List ℕ)) → Bool × List ℕ
unfolding join_lines last_hit
cmd_get_json_line out_len prefix none = (false, [])
cmd_get_json_line out_len prefix (some lines) =
    if out_len == 0
    then (false, [])
    else (let out =
          if length prefix == 0
          then join_lines out_len [] lines
          else last_hit out_len prefix [] lines in
        (not (length out == 0), out))

-- All bytes are spaces.
abbrev pub AreSpaces : List ℕ → Type 0
AreSpaces [] = Unit
AreSpaces (c ∷ cs) = (isspace c ≡ true) × AreSpaces cs

skip-spaces_append : (lead s : List ℕ) → AreSpaces lead → skip_spaces (lead ++ s) ≡ skip_spaces s
unfolding skip_spaces
skip-spaces_append [] s h = refl
skip-spaces_append (c ∷ cs) s h = rw h.0 (skip-spaces_append cs s h.1)

AreSpaces-get :
    (tail : List ℕ) (k : ℕ) → AreSpaces tail → k < length tail → isspace (get_or tail k 0) ≡ true
AreSpaces-get [] k h lt = absurd (omega arith)
AreSpaces-get (c ∷ cs) zero h lt = h.0
AreSpaces-get (c ∷ cs) (suc k) h lt = AreSpaces-get cs k h.1 (omega arith)

trimmed_len-stays :
    (s : List ℕ) (m n : ℕ) → n ≡ suc m → isspace (get_or s m 0) ≡ false → trimmed_len s n ≡ n
unfolding trimmed_len
trimmed_len-stays s m zero e h = absurd (omega arith)
trimmed_len-stays s m (suc n) e h = let k : n ≡ m = omega arith in rw (trimmed_len, k, h) refl

trimmed_len-drops :
    (s : List ℕ) (m n : ℕ)
    → n ≡ suc m
    → isspace (get_or s m 0) ≡ true
    → trimmed_len s n ≡ trimmed_len s m
unfolding trimmed_len
trimmed_len-drops s m zero e h = absurd (omega arith)
trimmed_len-drops s m (suc n) e h = let k : n ≡ m = omega arith in rw (trimmed_len, k, h) refl

trimmed_len-body :
    (body tail : List ℕ) (m k : ℕ)
    → length body ≡ suc m
    → isspace (get_or body m 0) ≡ false
    → AreSpaces tail
    → k ≤ length tail
    → trimmed_len (body ++ tail) (length body + k) ≡ length body
trimmed_len-body body tail m zero e h sp le =
    let z : length body + 0 ≡ length body = omega arith in
    let last = get_or-append_left body tail m 0 (omega (arith, e)) in
    rw z (trimmed_len-stays (body ++ tail) m (length body) e (ap isspace last ∙ h))
trimmed_len-body body tail m (suc k) e h sp le =
    let last = get_or-append_right body tail k 0 in
    trimmed_len-drops (body ++ tail) (length body + k) (length body + suc k) (omega arith)
      (ap isspace last ∙ AreSpaces-get tail k sp (omega arith))
    ∙ trimmed_len-body body tail m k e h sp (omega arith)

trimmed-body :
    (out_len : ℕ) (lead : List ℕ) (first : ℕ) (rest tail : List ℕ)
    → AreSpaces lead
    → isspace first ≡ false
    → isspace (get_or (first ∷ rest) (length rest) 0) ≡ false
    → AreSpaces tail
    → IsText (lead ++ ((first ∷ rest) ++ tail))
    → length (lead ++ ((first ∷ rest) ++ tail)) < out_len
    → trimmed out_len (lead ++ ((first ∷ rest) ++ tail)) ≡ first ∷ rest
unfolding trimmed
trimmed-body out_len lead first rest tail sl hf hl st text room =
    let body = first ∷ rest in
    let all = lead ++ (body ++ tail) in
    let whole : take (out_len - 1) all ≡ all = take-all (out_len - 1) all (omega arith) in
    let skipped : skip_spaces all ≡ body ++ tail =
      skip-spaces_append lead (body ++ tail) sl ∙ unfold skip_spaces in rw hf refl in
    let len : trimmed_len (body ++ tail) (length (body ++ tail)) ≡ length body =
      ap (trimmed_len (body ++ tail)) (length-append body tail)
      ∙ trimmed_len-body body tail (length rest) (length tail) refl hl st (omega arith) in
    ap (λ s. take (trimmed_len s (length s)) s)
      (ap (λ b. skip_spaces (cstr b)) whole ∙ ap skip_spaces (cstr-text all text) ∙ skipped)
    ∙ ap (λ n. take n (body ++ tail)) len
    ∙ take-length_append body tail

-- A file that fits the buffer and holds no NUL is read as its text without the spaces around it: if
-- `first ∷ rest` begins and ends with no space, that is what zh_read_file leaves, and it returns 0.
pub read_file-trims :
    (out_len : ℕ) (lead : List ℕ) (first : ℕ) (rest tail : List ℕ)
    → AreSpaces lead
    → isspace first ≡ false
    → isspace (get_or (first ∷ rest) (length rest) 0) ≡ false
    → AreSpaces tail
    → IsText (lead ++ ((first ∷ rest) ++ tail))
    → length (lead ++ ((first ∷ rest) ++ tail)) < out_len
    → read_file out_len (some (lead ++ ((first ∷ rest) ++ tail))) ≡ (true, first ∷ rest)
unfolding read_file
read_file-trims out_len lead first rest tail sl hf hl st text room =
    let some_room : (out_len == 0) ≡ false = ground arith in
    rw (some_room, trimmed-body out_len lead first rest tail sl hf hl st text room) (ground arith)

-- No line has the prefix.
abbrev pub NoHit : List ℕ → List (List ℕ) → Type 0
NoHit prefix [] = Unit
NoHit prefix (line ∷ lines) = (hit prefix line ≡ none) × NoHit prefix lines

last_hit-none :
    (out_len : ℕ) (prefix out : List ℕ) (lines : List (List ℕ))
    → NoHit prefix lines
    → last_hit out_len prefix out lines ≡ out
unfolding last_hit
last_hit-none out_len prefix out [] h = refl
last_hit-none out_len prefix out (line ∷ lines) h =
    rw h.0 (last_hit-none out_len prefix out lines h.1)

last_hit-append :
    (out_len : ℕ) (prefix out line s : List ℕ) (before after : List (List ℕ))
    → hit prefix line ≡ some s
    → NoHit prefix after
    → last_hit out_len prefix out (before ++ (line ∷ after)) ≡ take (out_len - 1) s
unfolding last_hit
last_hit-append out_len prefix out line s [] after h later =
    rw (last_hit, h) (last_hit-none out_len prefix (take (out_len - 1) s) after later)
last_hit-append out_len prefix out line s (b ∷ bs) after h later =
    last_hit-append out_len prefix
      (elim (hit prefix b) [ none ↦ out | some t ↦ take (out_len - 1) t ]) line s bs after h later

-- With a prefix zh_cmd_get_json_line gives the last line of the output that has it, from the prefix
-- on and cut to the buffer: whatever came before it, and if no later line has the prefix.
pub cmd_get_json_line-last :
    (out_len : ℕ) (prefix line s : List ℕ) (before after : List (List ℕ))
    → 1 < out_len
    → 0 < length prefix
    → 0 < length s
    → hit prefix line ≡ some s
    → NoHit prefix after
    → cmd_get_json_line out_len prefix (some (before ++ (line ∷ after)))
      ≡ (true, take (out_len - 1) s)
unfolding cmd_get_json_line
cmd_get_json_line-last out_len prefix line s before after room named found h later =
    let some_room : (out_len == 0) ≡ false = ground arith in
    let with_prefix : (length prefix == 0) ≡ false = ground arith in
    rw
      (
        some_room,
        with_prefix,
        last_hit-append out_len prefix [] line s before after h later,
        length-take (out_len - 1) s,
      )
      (ground arith)
