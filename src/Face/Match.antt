-- ===== src/Face/Match.antt =====
-- Which name a comparison gives, src/face_recognition.c: the lookup in the index, the loop for the
-- best match, and its two users. A distance is a double of which only `<` is used; the JSON reader is
-- the core's, so the answer of the engine and the index are what it reads in them.
pub mod Laws
use rockchip_1106_voice_agen.Text.{codes, copy_str, str_eq, strstr}
use rockchip_1106_voice_agen.Face.Cache.{Cache, cache_set, cache_get}
use rockchip_1106_voice_agen.Prelude.{
  ℕ, zero, suc, ◌+◌, ◌-◌, ◌*◌, ◌/◌, ◌%◌, ◌^◌, ◌≤◌, ◌<◌, min, ◌≡◌, refl, sym, ap, ◌∙◌, ◌≢◌, ◌↔◌, ◌⊎◌,
  inl, inr, Bool, true, false, not, ◌&&◌, ◌||◌, Option, none, some, List, [], ◌∷◌, ◌++◌, map, arith,
  ltb, leb, ◌==◌, if◌then◌else◌, ltb→lt, lt→ltb, leb→le, ==_iff, Bool-cases, Option-cases, length,
  get_elem?, set, get_or, take, drop, replicate, length-append, length-set, length-take,
  length-drop, length-replicate, take-append-drop, take-length_append, drop-length_append,
  get_or-append_left, get_or-append_right, take-all, get_elem?-set_self, get_elem?-set_ne,
}

-- An entry of the index file, as zh_index_find_name reads it.
pub record Entry : Type 0 where
  pub entry_path : Option (List ℕ)
  pub entry_name : Option (List ℕ)

-- The loop of zh_index_find_name: the first entry of the path that has a name.
unfoldable pub find_entry : List ℕ → List Entry → Option (List ℕ)
find_entry path [] = none
find_entry path (e ∷ es) =
    let rest = find_entry path es in
    elim e.entry_path [
      | none ↦ rest
      | some p ↦ if str_eq p path then elim e.entry_name [ none ↦ rest | some n ↦ some n ] else rest
    ]

-- zh_index_find_name. `index` is `none` if the file cannot be read or is no array.
unfoldable pub index_find_name :
    ℕ → ℕ → Option (List Entry) → List ℕ → Cache → Cache × Option (List ℕ)
index_find_name slots out_len index path c = elim (cache_get out_len path c) [
  | some name ↦ (c, some name)
  | none ↦ elim index [
    | none ↦ (c, none)
    | some es ↦ elim (find_entry path es) [
      | none ↦ (c, none)
      | some name ↦ (cache_set slots path name c, some (copy_str out_len name))
    ]
  ]
]

-- One result of the engine. `none` is a member that is missing.
pub record Item (D : Type 0) : Type 0 where
  pub item_ok : Bool
  pub dist : Option D
  pub same : Bool
  pub file : Option (List ℕ)

-- What the engine answers to compare_face_emb_dir.
pub record Reply (D : Type 0) : Type 0 where
  pub reply_ok : Bool
  pub results : Option (List (Item D))  -- `none` if they are no array
  pub err : Option (List ℕ)  -- zh_parse_err

-- What zh_face_do_compare_and_report does.
pub data Report : Type 0 where
  nothing_sent : Report
  sent : List ℕ → ℕ → List ℕ → Report  -- zh_ws_report_face

module _ {D : Type 0} where
  -- The tests on an item, down to its file and its distance.
  unfoldable pub matching : Item D → Option (List ℕ × D)
  matching item =
      if item.item_ok && item.same
      then elim item.dist [
        | none ↦ none
        | some d ↦ elim item.file [ none ↦ none | some f ↦ some (f, d) ]
      ]
      else none

  -- `best_has`, `best_dist` and `best_name` after an item with a name.
  unfoldable pub better : (D → D → Bool) → D → List ℕ → Option (D × List ℕ) → Option (D × List ℕ)
  better lt d name none = some (d, copy_str 128 name)
  better lt d name (some (best, old)) =
      if lt d best then some (d, copy_str 128 name) else some (best, old)

module _ {D C : Type 0} (lt : D → D → Bool) (find : List ℕ → C → C × Option (List ℕ)) where
  -- An item of the loop: the file of a match is looked up. `find` is zh_index_find_name on the cache.
  unfoldable pub consider : Option (List ℕ × D) → C → Option (D × List ℕ) → C × Option (D × List ℕ)
  consider none c best = (c, best)
  consider (some (f, d)) c best =
      let r = find f c in (r.0, elim (r.1) [ none ↦ best | some name ↦ better lt d name best ])

  -- The loop over the results.
  unfoldable pub best_match : List (Item D) → C → Option (D × List ℕ) → C × Option (D × List ℕ)
  best_match [] c best = (c, best)
  best_match (item ∷ items) c best =
      let r = consider (matching item) c best in best_match items (r.0) (r.1)

  -- zh_face_do_compare_and_report, from the answer of the engine on; `none` is for no answer.
  unfoldable pub compare_and_report : Option (Reply D) → C → C × Report
  compare_and_report none c = (c, nothing_sent)
  compare_and_report (some reply) c =
      if reply.reply_ok
      then elim reply.results [
        | none ↦ (c, nothing_sent)
        | some items ↦
            let r = best_match items c none in
            (
              r.0,
              elim (r.1) [
                | none ↦ sent (codes "face_not_match") 1001 []
                | some (d, name) ↦ sent (codes "face_match") 1000 name
              ],
            )
      ]
      else (
        c,
        elim reply.err [
          | none ↦ nothing_sent
          | some err ↦ elim (strstr err (codes "no_face")) [
            | none ↦ nothing_sent
            | some i ↦ sent (codes "no_face") 1002 []
          ]
        ],
      )

  -- zh_face_detect_name_for_commit: `none` for -1.
  unfoldable pub detect_name_for_commit : Option (Reply D) → C → C × Option (List ℕ)
  detect_name_for_commit none c = (c, none)
  detect_name_for_commit (some reply) c =
      if reply.reply_ok
      then elim reply.results [
        | none ↦ (c, some (codes "face_not_match"))
        | some items ↦
            let r = best_match items c none in
            (r.0, some (elim (r.1) [ none ↦ codes "face_not_match" | some (d, name) ↦ name ]))
      ]
      else (
        c,
        elim reply.err [
          | none ↦ none
          | some err ↦ elim (strstr err (codes "no_face")) [
            | none ↦ none
            | some i ↦ some (codes "no_face")
          ]
        ],
      )
