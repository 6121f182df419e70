-- ===== src/Face/Enroll.antt =====
-- The enrolment of a face, src/face_recognition.c: zh_face_enroll_on_recog, zh_face_enroll_on_owner
-- and zh_upsert_index_json. The engine, the file system and the JSON reader are the rest of the
-- program; an embedding is a value of any type.
pub mod Index
pub mod Laws
use rockchip_1106_voice_agen.Text.{codes, copy_str, str_eq}
use rockchip_1106_voice_agen.Text.Decimal.{dec, dec_int}
use rockchip_1106_voice_agen.Face.Cache.{Cache, cache_set}
use rockchip_1106_voice_agen.Face.Escape.{json_escape}
use rockchip_1106_voice_agen.Prelude.Int.{ℤ, pos}
use rockchip_1106_voice_agen.Prelude.{
  ℕ, Bool, true, false, not, ◌||◌, Option, none, some, List, [], ◌∷◌, ◌++◌, ◌==◌, if◌then◌else◌,
  length, take,
}

-- An entry of the old index, as the JSON reader finds its members.
pub record OldEntry : Type 0 where
  pub old_name : Option (List ℕ)
  pub old_id : Option (List ℕ)
  pub old_path : Option (List ℕ)
  pub old_ts : Option ℤ  -- cast to long

-- An entry that is written.
pub record Row : Type 0 where
  pub row_id : List ℕ
  pub row_name : List ℕ
  pub row_path : List ℕ
  pub row_ts : ℤ

-- The text of an entry, with the escaped name in 256 bytes and the escaped path in 512.
unfoldable pub row_text : Row → List ℕ
row_text r =
    codes "{\"id\":\""
    ++ r.row_id
    ++ codes "\",\"name\":\""
    ++ json_escape 255 r.row_name
    ++ codes "\",\"path\":\""
    ++ json_escape 511 r.row_path
    ++ codes "\",\"ts\":"
    ++ dec_int r.row_ts
    ++ codes "}"

-- What the loop of zh_upsert_index_json makes of an old entry: nothing of one without a name, of the
-- same name, or with a member missing.
unfoldable pub keep : List ℕ → OldEntry → Option Row
unfolding str_eq
keep name e = elim e.old_name [
  | none ↦ none
  | some n ↦ if str_eq n name then none else elim e.old_id [
    | none ↦ none
    | some i ↦ elim e.old_path [
      | none ↦ none
      | some p ↦ elim e.old_ts [
        | none ↦ none
        | some t ↦ some (record { row_id = i; row_name = n; row_path = p; row_ts = t })
      ]
    ]
  ]
]

-- A comma, unless the entry is the first.
abbrev pub comma : Bool → List ℕ
comma first = if first then [] else b',' ∷ []

-- The loop: what it writes, and `first` after it. An entry is cut to 1023 bytes.
unfoldable pub copy_entries : List ℕ → Bool → List OldEntry → List ℕ × Bool
unfolding keep row_text
copy_entries name first [] = ([], first)
copy_entries name first (e ∷ es) =
    let row = keep name e in
    let next : Bool = elim row [ none ↦ first | some r ↦ false ] in
    let rest = copy_entries name next es in
    (elim row [ none ↦ [] | some r ↦ comma first ++ take 1023 (row_text r) ] ++ rest.0, rest.1)

-- zh_upsert_index_json: what it writes into the index file. `old` is `none` for an index that cannot
-- be read, is empty or is no array.
unfoldable pub upsert_index : Option (List OldEntry) → Row → List ℕ
unfolding copy_entries row_text
upsert_index old row =
    let copied : List ℕ × Bool = elim old [
      | none ↦ ([], true)
      | some es ↦ copy_entries row.row_name true es
    ] in
    (b'[' ∷ []) ++ (copied.0 ++ (comma (copied.1) ++ (row_text row ++ codes "]\n")))

-- g_face_enroll_valid with g_face_enroll_emb, and g_face_enroll_err.
pub record Enrolment (E : Type 0) : Type 0 where
  pub enrolled : Option E
  pub enroll_err : List ℕ

-- The answer of the engine to get_face_emb_avg: `emb` is what zh_parse_emb makes of it, `message`
-- what zh_parse_err does.
pub record EngineReply (E : Type 0) : Type 0 where
  pub answer_ok : Bool
  pub emb : Option E
  pub message : Option (List ℕ)

-- What an enrolment leaves behind.
pub data Deed (E : Type 0) : Type 0 where
  write_emb : List ℕ → E → Deed E
  write_index : List ℕ → Deed E
  report_face : List ℕ → ℕ → Deed E

-- The name of the file of an embedding.
unfoldable pub emb_path : List ℕ → List ℕ
emb_path id = copy_str 512 (codes "/data/zh_work/face/save/" ++ id ++ codes ".emb")

module _ {E : Type 0} where
  -- The failed end of zh_face_enroll_on_recog.
  unfoldable pub recog_failed : List ℕ → Enrolment E
  recog_failed err = record {
    enrolled = none;
    enroll_err = copy_str 128 (if length err == 0 then codes "no_face_or_failed" else err);
  }

  -- zh_face_enroll_on_recog. `answer` is `none` if the engine cannot be reached.
  unfoldable pub enroll_on_recog : Option (EngineReply E) → Enrolment E × Bool
  unfolding recog_failed
  enroll_on_recog none = (recog_failed [], false)
  enroll_on_recog (some a) =
      if a.answer_ok
      then elim a.emb [
        | none ↦ (recog_failed [], false)
        | some e ↦ (record { enrolled = some e; enroll_err = [] }, true)
      ]
      else (recog_failed (elim a.message [ none ↦ [] | some m ↦ copy_str 128 m ]), false)

  -- The last report of zh_face_enroll_on_owner.
  abbrev pub report_of : Bool → Deed E
  report_of ok =
      if ok
      then report_face (codes "face_collection_successful") 1003
      else report_face (codes "face_collection_failed") 1004

  -- zh_face_enroll_on_owner. `wrote` says that the embedding could be written, `opens` that the index
  -- could be opened; `slots` is ZH_FACE_CACHE_MAX, `wall_ms` and `now` the times that it reads.
  unfoldable pub enroll_on_owner :
      ℕ
      → Bool
      → Option (List OldEntry)
      → Bool
      → ℕ
      → ℤ
      → List ℕ
      → Enrolment E
      → Cache
      → Cache × List (Deed E) × Bool
  unfolding emb_path upsert_index
  enroll_on_owner slots wrote old can_open wall_ms now name s c =
      let id = copy_str 64 (dec wall_ms) in
      let path = emb_path id in
      let row : Row = record { row_id = id; row_name = name; row_path = path; row_ts = now } in
      if length name == 0 then (c, report_of false ∷ [], false) else elim s.enrolled [
        | none ↦ (c, report_of false ∷ [], false)
        | some e ↦
            if not wrote
            then (c, report_of false ∷ [], false)
            else if not can_open
            then (c, write_emb path e ∷ report_of false ∷ [], false)
            else (
              cache_set slots path name c,
              write_emb path e ∷ write_index (upsert_index old row) ∷ report_of true ∷ [],
              true,
            )
      ]
