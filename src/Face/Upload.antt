-- ===== src/Face/Upload.antt =====
-- The upload of a captured frame, zh_face_upload_one_frame and zh_http_put_binary of
-- src/face_recognition.c. What the server, the store and the core answer are inputs.
pub mod Laws
use rockchip_1106_voice_agen.Text.{codes, str_eq}
use rockchip_1106_voice_agen.Session.{UploadResponse, VisionDone}
use rockchip_1106_voice_agen.Prelude.{
  ℕ, zero, suc, ◌+◌, ◌-◌, ◌*◌, ◌/◌, ◌%◌, ◌^◌, ◌≤◌, ◌<◌, min, ◌≡◌, refl, sym, ap, ◌∙◌, ◌≢◌, ◌↔◌, ◌⊎◌,
  inl, inr, Bool, true, false, not, ◌&&◌, ◌||◌, Option, none, some, List, [], ◌∷◌, ◌++◌, map, arith,
  ltb, leb, ◌==◌, if◌then◌else◌, ltb→lt, lt→ltb, leb→le, ==_iff, Bool-cases, Option-cases, length,
  get_elem?, set, get_or, take, drop, replicate, length-append, length-set, length-take,
  length-drop, length-replicate, take-append-drop, take-length_append, drop-length_append,
  get_or-append_left, get_or-append_right, take-all, get_elem?-set_self, get_elem?-set_ne,
}

-- zh_http_put_binary, with the answers to its first and second try: a status, or `none` for a failed
-- transfer. It gives the number of tries and whether it returns 0.
unfoldable pub is_success : ℕ → Bool
is_success status = leb 200 status && ltb status 300

unfoldable pub http_put_binary : Option ℕ → Option ℕ → ℕ × Bool
http_put_binary none second = (1, false)
http_put_binary (some status) second =
    if is_success status
    then (1, true)
    else if status == 400
    then (2, elim second [ none ↦ false | some again ↦ is_success again ])
    else (1, false)

-- The messages and transfers of an upload.
pub data UploadCall : Type 0 where
  request : List ℕ → UploadCall
  put : List ℕ → ℕ → UploadCall  -- the URL and the number of tries
  commit : List ℕ → List ℕ → List ℕ → List ℕ → UploadCall

-- What the others answer.
pub record Answers : Type 0 where
  pub device_id : List ℕ
  pub request_sent : Bool
  pub upload : Option UploadResponse  -- zh_ws_wait_vision_upload_response
  pub first_put : Option ℕ
  pub second_put : Option ℕ
  pub face_name : Option (List ℕ)  -- zh_face_detect_name_for_commit
  pub commit_sent : Bool
  pub done : Option VisionDone  -- zh_ws_wait_vision_done

abbrev pub blank : List ℕ → Bool
blank s = length s == 0

-- From the response that can be used on.
unfoldable pub finish_upload : Answers → List ℕ → UploadResponse → List UploadCall × Bool
finish_upload a frame_id resp =
    let stored = http_put_binary a.first_put a.second_put in
    let name : List ℕ = elim a.face_name [ none ↦ codes "error" | some n ↦ n ] in
    let tried = request frame_id ∷ put resp.upload_url (stored.0) ∷ [] in
    let told = tried ++ (commit frame_id resp.upload_id resp.object_key name ∷ []) in
    if not stored.1
    then (tried, false)
    else if not a.commit_sent
    then (told, false)
    else (told, elim a.done [ none ↦ false | some d ↦ str_eq d.result (codes "ok") ])

unfoldable pub usable : UploadResponse → Bool
usable resp =
    str_eq resp.status (codes "ok")
    && (not (blank resp.upload_url) && (not (blank resp.upload_id) && not (blank resp.object_key)))

-- zh_face_upload_one_frame, with a session and a frame
unfoldable pub upload_one_frame : Answers → List ℕ → List UploadCall × Bool
upload_one_frame a frame_id =
    if blank a.device_id
    then ([], false)
    else if not a.request_sent
    then (request frame_id ∷ [], false)
    else elim a.upload [
      | none ↦ (request frame_id ∷ [], false)
      | some resp ↦
          if usable resp then finish_upload a frame_id resp else (request frame_id ∷ [], false)
    ]
