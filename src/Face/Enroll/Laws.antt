-- ===== src/Face/Enroll/Laws.antt =====
-- The two halves of an enrolment in src/face_recognition.c together.
use rockchip_1106_voice_agen.Text.{codes, copy_str}
use rockchip_1106_voice_agen.Text.Decimal.{dec}
use rockchip_1106_voice_agen.Face.Cache.{Cache, cache_set, cache_get}
use rockchip_1106_voice_agen.Face.Cache.Laws.{IsAbsent, cache_get-cache_set}
use rockchip_1106_voice_agen.Face.Match.{index_find_name, Entry}
use rockchip_1106_voice_agen.Face.Enroll.{
  OldEntry, Row, upsert_index, Enrolment, EngineReply, Deed, write_emb, write_index, recog_failed,
  enroll_on_recog, report_of, emb_path, enroll_on_owner,
}
use rockchip_1106_voice_agen.Prelude.Int.{ℤ}
use rockchip_1106_voice_agen.Prelude.{
  ℕ, ◌<◌, ◌≡◌, refl, ap, ◌∙◌, ◌≢◌, ◌⊎◌, inl, inr, Bool, true, false, ◌&&◌, Option, none, some, List,
  [], ◌∷◌, ◌++◌, arith, ◌==◌, if◌then◌else◌, length, length-take, Bool-cases, Option-cases,
}

-- The answer of the engine has an embedding, this one.
abbrev pub Answered : {E : Type 0} → Option (EngineReply E) → E → Type 0
Answered none e = ⊥
Answered (some a) e = (a.answer_ok ≡ true) × (a.emb ≡ some e)

-- The row of a new face.
abbrev pub new_row : List ℕ → ℕ → ℤ → Row
new_row name wall_ms now =
    let id = copy_str 64 (dec wall_ms) in
    record { row_id = id; row_name = name; row_path = emb_path id; row_ts = now }

some_path : (wall_ms : ℕ) → 0 < length (emb_path (copy_str 64 (dec wall_ms)))
unfolding emb_path
some_path wall_ms = omega arith

path_fits : (wall_ms : ℕ) → length (emb_path (copy_str 64 (dec wall_ms))) < 512
unfolding emb_path
path_fits wall_ms = omega (
  arith,
  length-take 511 (codes "/data/zh_work/face/save/" ++ copy_str 64 (dec wall_ms) ++ codes ".emb"),
)

found_in_cache :
    (slots out_len : ℕ) (index : Option (List Entry)) (path name : List ℕ) (c : Cache)
    → cache_get out_len path c ≡ some name
    → index_find_name slots out_len index path c ≡ (c, some name)
unfolding index_find_name
found_in_cache slots out_len index path name c h = rw (index_find_name, h) refl

module _ {E : Type 0} where
  enroll_on_recog-cases :
      (answer : Option (EngineReply E))
      → let r = enroll_on_recog answer in
        ((r.1 ≡ false) × (r.0.enrolled ≡ none))
        ⊎ ((e : E) × (r.1 ≡ true) × (r.0.enrolled ≡ some e) × Answered answer e)
  unfolding enroll_on_recog recog_failed
  enroll_on_recog-cases none = inl (refl, refl)
  enroll_on_recog-cases (some a) = elim (Bool-cases a.answer_ok) [
    | inr bad ↦ inl (rw bad (refl, refl))
    | inl good ↦ elim (Option-cases a.emb) [
      | inl n ↦ inl (rw (good, n) (refl, refl))
      | inr (e, h) ↦ inr (e, rw (good, h) refl, rw (good, h) refl, (good, h))
    ]
  ]

  -- What zh_face_enroll_on_owner does with an embedding.
  abbrev pub owned :
      ℕ
      → Bool
      → Option (List OldEntry)
      → Bool
      → ℕ
      → ℤ
      → List ℕ
      → E
      → Cache
      → Cache × List (Deed E) × Bool
  owned slots wrote old can_open wall_ms now name e c =
      let row = new_row name wall_ms now in
      if wrote && can_open
      then (
        cache_set slots row.row_path name c,
        write_emb row.row_path e ∷ write_index (upsert_index old row) ∷ report_of true ∷ [],
        true,
      )
      else (
        c,
        (if wrote then write_emb row.row_path e ∷ [] else []) ++ (report_of false ∷ []),
        false,
      )

  -- An owner's name goes to the face of the last recognition: if the engine gave an embedding, that
  -- one is written under a new path, the index gets the entry and the success is reported, or the
  -- failure if a file could not be written; the index is not touched unless the embedding is there.
  -- If the recognition has failed, an earlier face is not used: nothing is written and the failure
  -- is reported. There is one report in each case.
  pub enroll-uses_last :
      (answer : Option (EngineReply E)) (slots : ℕ) (wrote : Bool) (old : Option (List OldEntry))
      (can_open : Bool) (wall_ms : ℕ) (now : ℤ) (name : List ℕ) (c : Cache)
      → name ≢ []
      → let recog = enroll_on_recog answer in
        let owner = enroll_on_owner slots wrote old can_open wall_ms now name recog.0 c in
        ((recog.1 ≡ false) × (owner ≡ (c, report_of false ∷ [], false)))
        ⊎ ((e : E) × (recog.1 ≡ true)
            × Answered answer e
            × (owner ≡ owned slots wrote old can_open wall_ms now name e c))
  unfolding enroll_on_owner
  enroll-uses_last answer slots wrote old can_open wall_ms now [] c named = absurd (named refl)
  enroll-uses_last answer slots wrote old can_open wall_ms now (b ∷ bs) c named =
      let e : (length (b ∷ bs) == 0) ≡ false = ground arith in
      elim (enroll_on_recog-cases answer) [
        | inl (failed, nobody) ↦ inl (failed, rw (e, nobody) refl)
        | inr (emb, ok, some_emb, answered) ↦
            inr (emb, ok, answered, rw (e, some_emb) (ground arith))
      ]

  owner_cache :
      (slots wall_ms : ℕ) (old : Option (List OldEntry)) (now : ℤ) (name : List ℕ) (e : E)
      (err : List ℕ) (c : Cache)
      → name ≢ []
      → let s : Enrolment E = record { enrolled = some e; enroll_err = err } in
        (enroll_on_owner slots true old true wall_ms now name s c).0
        ≡ cache_set slots (new_row name wall_ms now).row_path name c
  unfolding enroll_on_owner
  owner_cache slots wall_ms old now [] e err c named = absurd (named refl)
  owner_cache slots wall_ms old now (b ∷ bs) e err c named =
      let some_name : (length (b ∷ bs) == 0) ≡ false = ground arith in rw some_name refl

  -- Until its slot is used again, a new owner is found under the path of the embedding: if both files
  -- could be written, the path is in no slot of the cache and the name fits, the lookup in the index
  -- gives the name, whatever the index file holds.
  pub enroll_on_owner-found :
      (slots out_len wall_ms : ℕ) (old : Option (List OldEntry)) (now : ℤ) (name : List ℕ) (e : E)
      (err : List ℕ) (c : Cache) (index : Option (List Entry))
      → name ≢ []
      → c.pos < length c.items
      → IsAbsent (new_row name wall_ms now).row_path c.items
      → length name < 128
      → length name < out_len
      → let s : Enrolment E = record { enrolled = some e; enroll_err = err } in
        let r = enroll_on_owner slots true old true wall_ms now name s c in
        index_find_name slots out_len index (new_row name wall_ms now).row_path r.0
        ≡ (r.0, some name)
  enroll_on_owner-found slots out_len wall_ms old now name e err c index named i a f g =
      let path = (new_row name wall_ms now).row_path in
      let s : Enrolment E = record { enrolled = some e; enroll_err = err } in
      found_in_cache slots out_len index path name
        (enroll_on_owner slots true old true wall_ms now name s c).0
        (ap (cache_get out_len path) (owner_cache slots wall_ms old now name e err c named)
          ∙ cache_get-cache_set slots out_len path name c i a (some_path wall_ms)
              (path_fits wall_ms) f g)
