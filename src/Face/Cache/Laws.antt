-- ===== src/Face/Cache/Laws.antt =====
-- What the cache of src/face_recognition.c answers.
use rockchip_1106_voice_agen.Text.{copy_str, str_eq, str_eq_refl}
use rockchip_1106_voice_agen.Face.Cache.{CacheItem, Cache, cache_set, find_item, cache_get}
use rockchip_1106_voice_agen.Prelude.{
  ℕ, zero, suc, ◌-◌, ◌<◌, ◌≡◌, refl, ap, ◌∙◌, Bool, true, false, not, ◌&&◌, Option, none, some,
  List, [], ◌∷◌, ◌++◌, arith, ◌==◌, if◌then◌else◌, if_true, if_false, length, set, take-all,
}

-- No slot has the path.
abbrev pub IsAbsent : List ℕ → List CacheItem → Type 0
IsAbsent path [] = Unit
IsAbsent path (item ∷ items) = (str_eq item.path path ≡ false) × IsAbsent path items

named :
    (p path : List ℕ) → p ≡ path → 0 < length path → (not (length p == 0) && str_eq p path) ≡ true
named p path e some_path =
    let there : (length path == 0) ≡ false = ground arith in rw (e, there, str_eq_refl path)

and_false : (a b : Bool) → b ≡ false → (a && b) ≡ false
and_false true b h = h
and_false false b h = refl

find_item-hit :
    (path : List ℕ) (item : CacheItem) (items : List CacheItem)
    → item.path ≡ path
    → 0 < length path
    → find_item path (item ∷ items) ≡ some item.name
unfolding find_item
find_item-hit path item items e some_path =
    if_true (not (length item.path == 0) && str_eq item.path path) (some item.name)
      (find_item path items) (named item.path path e some_path)

find_item-miss :
    (path : List ℕ) (item : CacheItem) (items : List CacheItem)
    → str_eq item.path path ≡ false
    → find_item path (item ∷ items) ≡ find_item path items
unfolding find_item
find_item-miss path item items h =
    if_false (not (length item.path == 0) && str_eq item.path path) (some item.name)
      (find_item path items) (and_false (not (length item.path == 0)) (str_eq item.path path) h)

find_item-set :
    (path : List ℕ) (items : List CacheItem) (i : ℕ) (item : CacheItem)
    → i < length items
    → IsAbsent path items
    → 0 < length path
    → item.path ≡ path
    → find_item path (set items i item) ≡ some item.name
find_item-set path [] i item h away some_path e = absurd (omega arith)
find_item-set path (x ∷ items) zero item h away some_path e =
    find_item-hit path item items e some_path
find_item-set path (x ∷ items) (suc i) item h (a, away) some_path e =
    find_item-miss path x (set items i item) a
    ∙ find_item-set path items i item (omega arith) away some_path e

-- The copy of the name that was found.
answer-whole :
    (out_len : ℕ) (name : List ℕ) (o : Option (List ℕ))
    → o ≡ some name
    → length name < out_len
    → (if out_len == 0
        then none
        else elim o [ none ↦ none | some found ↦ some (copy_str out_len found) ])
      ≡ some name
answer-whole out_len name o e fits =
    let some_room : (out_len == 0) ≡ false = ground arith in
    rw (e, some_room, take-all (out_len - 1) name (omega arith))

-- A name that is stored under a path that no slot has is found again under it, if the position is
-- inside the slots, the path is not empty, path and name fit their fields and the name fits the
-- answer's buffer.
pub cache_get-cache_set :
    (slots out_len : ℕ) (path name : List ℕ) (c : Cache)
    → c.pos < length c.items
    → IsAbsent path c.items
    → 0 < length path
    → length path < 512
    → length name < 128
    → length name < out_len
    → cache_get out_len path (cache_set slots path name c) ≡ some name
unfolding cache_get cache_set
cache_get-cache_set slots out_len path name c inside away some_path path_fits name_fits fits =
    let item : CacheItem = record { path = copy_str 512 path; name = copy_str 128 name } in
    let found =
      find_item-set path c.items c.pos item inside away some_path
        (take-all 511 path (omega arith)) in
    answer-whole out_len name (find_item path (set c.items c.pos item))
      (found ∙ ap some (take-all 127 name (omega arith))) fits

find_item-later :
    (path old : List ℕ) (before items : List CacheItem) (i : ℕ) (item : CacheItem)
    → IsAbsent path before
    → 0 < length path
    → length before < i
    → find_item path (set (before ++ (record { path = path; name = old } ∷ items)) i item)
      ≡ some old
find_item-later path old [] items zero item away some_path later = absurd (omega arith)
find_item-later path old [] items (suc i) item away some_path later =
    find_item-hit path (record { path = path; name = old }) (set items i item) refl some_path
find_item-later path old (x ∷ before) items zero item away some_path later = absurd (omega arith)
find_item-later path old (x ∷ before) items (suc i) item (a, away) some_path later =
    find_item-miss path x (set (before ++ (record { path = path; name = old } ∷ items)) i item) a
    ∙ find_item-later path old before items i item away some_path (omega arith)

-- A path that is stored a second time in a later slot keeps its old name: the cache answers the
-- first slot that has it.
pub cache_get-stale :
    (slots out_len : ℕ) (path old name : List ℕ) (before items : List CacheItem) (pos : ℕ)
    → IsAbsent path before
    → 0 < length path
    → length before < pos
    → pos < length (before ++ (record { path = path; name = old } ∷ items))
    → length old < out_len
    → cache_get out_len path (
        cache_set slots path name
          (record { items = before ++ (record { path = path; name = old } ∷ items); pos = pos }))
      ≡ some old
unfolding cache_get cache_set
cache_get-stale slots out_len path old name before items pos away some_path later inside fits =
    let item : CacheItem = record { path = copy_str 512 path; name = copy_str 128 name } in
    answer-whole out_len old
      (find_item path (set (before ++ (record { path = path; name = old } ∷ items)) pos item))
      (find_item-later path old before items pos item away some_path later) fits
