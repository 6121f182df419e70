-- ===== src/Face/Cache.antt =====
-- The ring of names by path, zh_face_cache_set and zh_face_cache_get of src/face_recognition.c.
pub mod Laws
use rockchip_1106_voice_agen.Text.{copy_str, str_eq}
use rockchip_1106_voice_agen.Prelude.{
  ℕ, zero, suc, ◌+◌, ◌-◌, ◌*◌, ◌/◌, ◌%◌, ◌^◌, ◌≤◌, ◌<◌, min, ◌≡◌, refl, sym, ap, ◌∙◌, ◌≢◌, ◌↔◌, ◌⊎◌,
  inl, inr, Bool, true, false, not, ◌&&◌, ◌||◌, Option, none, some, List, [], ◌∷◌, ◌++◌, map, arith,
  ltb, leb, ◌==◌, if◌then◌else◌, ltb→lt, lt→ltb, leb→le, ==_iff, Bool-cases, Option-cases, length,
  get_elem?, set, get_or, take, drop, replicate, length-append, length-set, length-take,
  length-drop, length-replicate, take-append-drop, take-length_append, drop-length_append,
  get_or-append_left, get_or-append_right, take-all, get_elem?-set_self, get_elem?-set_ne,
}

-- zh_face_cache_item_t: strings of at most 511 and 127 bytes.
pub record CacheItem : Type 0 where
  pub path : List ℕ
  pub name : List ℕ

-- `g_face_cache`, all of its slots, and `g_face_cache_pos`.
pub record Cache : Type 0 where
  pub items : List CacheItem
  pub pos : ℕ

-- zh_face_cache_set. `slots` is ZH_FACE_CACHE_MAX.
unfoldable pub cache_set : ℕ → List ℕ → List ℕ → Cache → Cache
cache_set slots path name c = record {
  items = set c.items c.pos (record { path = copy_str 512 path; name = copy_str 128 name });
  pos = (c.pos + 1) % slots;
}

-- The loop of zh_face_cache_get over the slots.
unfoldable pub find_item : List ℕ → List CacheItem → Option (List ℕ)
unfolding str_eq
find_item path [] = none
find_item path (item ∷ items) =
    if not (length item.path == 0) && str_eq item.path path
    then some item.name
    else find_item path items

-- zh_face_cache_get into `out_len` bytes: `none` for -1.
unfoldable pub cache_get : ℕ → List ℕ → Cache → Option (List ℕ)
unfolding find_item
cache_get out_len path c =
    if out_len == 0
    then none
    else elim (find_item path c.items) [ none ↦ none | some name ↦ some (copy_str out_len name) ]
