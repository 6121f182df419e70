-- ===== src/Face/Enroll/Index.antt =====
-- What zh_upsert_index_json of src/face_recognition.c leaves in the index.
use rockchip_1106_voice_agen.Text.{codes, str_eq, str_eq_refl, str_eq_sound}
use rockchip_1106_voice_agen.Face.Match.{Entry, find_entry}
use rockchip_1106_voice_agen.Face.Enroll.{
  OldEntry, Row, row_text, keep, comma, copy_entries, upsert_index,
}
use mathlib.Core.List.{append-nil, append_assoc}
use rockchip_1106_voice_agen.Prelude.{
  ℕ, ◌≡◌, refl, sym, ap, ◌∙◌, ◌≢◌, inl, inr, true, false, Option, none, some, List, if◌then◌else◌,
  [], ◌∷◌, ◌++◌, map, arith, take, Bool-cases, Option-cases,
}

-- Texts with a comma in front of each.
abbrev pub followed : List (List ℕ) → List ℕ
followed [] = []
followed (x ∷ xs) = b',' ∷ (x ++ followed xs)

-- Texts with commas between them.
abbrev pub join : List (List ℕ) → List ℕ
join [] = []
join (x ∷ xs) = x ++ followed xs

-- An old entry with no member missing, as a row.
abbrev pub row_of : OldEntry → Option Row
row_of e = elim e.old_name [
  | none ↦ none
  | some n ↦ elim e.old_id [
    | none ↦ none
    | some i ↦ elim e.old_path [
      | none ↦ none
      | some p ↦ elim e.old_ts [
        | none ↦ none
        | some t ↦ some (record { row_id = i; row_name = n; row_path = p; row_ts = t })
      ]
    ]
  ]
]

-- The rows of these entries with another name, in their order.
unfoldable pub kept : List ℕ → List OldEntry → List Row
unfolding str_eq
kept name [] = []
kept name (e ∷ es) = elim (row_of e) [
  | none ↦ kept name es
  | some r ↦ if str_eq r.row_name name then kept name es else r ∷ kept name es
]

abbrev pub cut_text : Row → List ℕ
cut_text r = take 1023 (row_text r)

followed-append : (xs ys : List (List ℕ)) → followed (xs ++ ys) ≡ followed xs ++ followed ys
followed-append [] ys = refl
followed-append (x ∷ xs) ys =
    ap (λ l. b',' ∷ (x ++ l)) (followed-append xs ys)
    ∙ ap (λ l. b',' ∷ l) (sym (append_assoc x (followed xs) (followed ys)))

kept-none :
    (name : List ℕ) (e : OldEntry) (es : List OldEntry)
    → keep name e ≡ none
    → kept name (e ∷ es) ≡ kept name es
unfolding kept keep
kept-none name e es h = ground arith

kept-some :
    (name : List ℕ) (e : OldEntry) (es : List OldEntry) (r : Row)
    → keep name e ≡ some r
    → kept name (e ∷ es) ≡ r ∷ kept name es
unfolding kept keep
kept-some name e es r h = ground arith

copy_entries-followed :
    (name : List ℕ) (es : List OldEntry)
    → copy_entries name false es ≡ (followed (map cut_text (kept name es)), false)
unfolding copy_entries
copy_entries-followed name [] = unfold kept in refl
copy_entries-followed name (e ∷ es) = elim (Option-cases (keep name e)) [
  | inl n ↦ rw (kept-none name e es n, n, copy_entries-followed name es) refl
  | inr (r, k) ↦ rw (kept-some name e es r k, k, copy_entries-followed name es) refl
]

-- The old entries from the first on, and a last text.
copy_entries-join :
    (name last : List ℕ) (es : List OldEntry)
    → let c = copy_entries name true es in
      c.0 ++ (comma (c.1) ++ last) ≡ join (map cut_text (kept name es) ++ (last ∷ []))
unfolding copy_entries
copy_entries-join name last [] = unfold kept in sym (append-nil last)
copy_entries-join name last (e ∷ es) = elim (Option-cases (keep name e)) [
  | inl n ↦ rw (kept-none name e es n, n) (copy_entries-join name last es)
  | inr (r, k) ↦
      let rows = map cut_text (kept name es) in
      let ends = followed-append rows (last ∷ []) in
      rw (kept-some name e es r k, k, copy_entries-followed name es, ends)
        (append_assoc (cut_text r) (followed rows) (b',' ∷ last)
          ∙ ap (λ l. cut_text r ++ (followed rows ++ (b',' ∷ l))) (sym (append-nil last)))
]

-- No row has this name.
abbrev pub OtherNames : List ℕ → List Row → Type 0
OtherNames name [] = Unit
OtherNames name (r ∷ rs) = (r.row_name ≢ name) × OtherNames name rs

-- No row has this path.
abbrev pub OtherPaths : List ℕ → List Row → Type 0
OtherPaths path [] = Unit
OtherPaths path (r ∷ rs) = (r.row_path ≢ path) × OtherPaths path rs

-- A row as zh_index_find_name reads it.
abbrev pub as_entry : Row → Entry
as_entry r = record { entry_path = some r.row_path; entry_name = some r.row_name }

keep-other : (name : List ℕ) (e : OldEntry) (r : Row) → keep name e ≡ some r → r.row_name ≢ name
unfolding keep
keep-other name e r h = λ same. ground (arith, str_eq_refl name)

kept-OtherNames : (name : List ℕ) (es : List OldEntry) → OtherNames name (kept name es)
kept-OtherNames name [] = unfold kept in tt
kept-OtherNames name (e ∷ es) = elim (Option-cases (keep name e)) [
  | inl n ↦ rw (kept-none name e es n) (kept-OtherNames name es)
  | inr (r, k) ↦ rw (kept-some name e es r k) (keep-other name e r k, kept-OtherNames name es)
]

str_eq-other : (a b : List ℕ) → a ≢ b → str_eq a b ≡ false
str_eq-other a b h = elim (Bool-cases (str_eq a b)) [
  | inl e ↦ absurd (h (str_eq_sound a b e))
  | inr e ↦ e
]

find_entry-last :
    (rows : List Row) (row : Row)
    → OtherPaths row.row_path rows
    → find_entry row.row_path (map as_entry (rows ++ (row ∷ []))) ≡ some row.row_name
unfolding find_entry
find_entry-last [] row o = rw (str_eq_refl row.row_path) refl
find_entry-last (r ∷ rs) row o =
    rw (str_eq-other r.row_path row.row_path o.0) (find_entry-last rs row o.1)

-- If the path of the new entry is new, the index that is written is the array of the old entries
-- that are whole and of other names, each with its own members, in their order and cut to 1023 bytes,
-- and of the new one behind, with commas between them; over an index that is no array it is the new
-- one alone. The name is that of the new row alone, and a search by its path in the rows, before
-- they are cut and written, finds its name.
pub upsert_index-lem :
    (es : List OldEntry) (row : Row)
    → OtherPaths row.row_path (kept row.row_name es)
    → let rows = kept row.row_name es in
      (upsert_index (some es) row
        ≡ b'[' ∷ (join (map cut_text rows ++ (row_text row ∷ [])) ++ codes "]\n"))
      × (upsert_index none row ≡ b'[' ∷ (row_text row ++ codes "]\n"))
      × OtherNames row.row_name rows
      × (find_entry row.row_path (map as_entry (rows ++ (row ∷ []))) ≡ some row.row_name)
unfolding upsert_index
upsert_index-lem es row fresh =
    let c = copy_entries row.row_name true es in
    (
      ap (λ l. b'[' ∷ l)
          (ap (λ l. c.0 ++ l) (sym (append_assoc (comma (c.1)) (row_text row) (codes "]\n")))
            ∙ sym (append_assoc c.0 (comma (c.1) ++ row_text row) (codes "]\n"))
            ∙ ap (λ l. l ++ codes "]\n") (copy_entries-join row.row_name (row_text row) es)),
      refl,
      kept-OtherNames row.row_name es,
      find_entry-last (kept row.row_name es) row fresh,
    )
