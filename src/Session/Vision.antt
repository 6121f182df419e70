-- ===== src/Session/Vision.antt =====
-- The requests of an image upload and the waits for their answers, src/bithion_core_compat.c. While
-- a wait sleeps on the condition variable the other threads change the session: a wait is given what
-- each of its sleeps finds when it wakes.
pub mod Laws
use rockchip_1106_voice_agen.Text.{codes, str_eq}
use rockchip_1106_voice_agen.Session.{
  UploadResponse, VisionDone, no_response, no_vision, Session, Call, send_str,
}
use rockchip_1106_voice_agen.Prelude.{
  ℕ, zero, suc, ◌+◌, ◌-◌, ◌*◌, ◌/◌, ◌%◌, ◌^◌, ◌≤◌, ◌<◌, min, ◌≡◌, refl, sym, ap, ◌∙◌, ◌≢◌, ◌↔◌, ◌⊎◌,
  inl, inr, Bool, true, false, not, ◌&&◌, ◌||◌, Option, none, some, List, [], ◌∷◌, ◌++◌, map, arith,
  ltb, leb, ◌==◌, if◌then◌else◌, ltb→lt, lt→ltb, leb→le, ==_iff, Bool-cases, Option-cases, length,
  get_elem?, set, get_or, take, drop, replicate, length-append, length-set, length-take,
  length-drop, length-replicate, take-append-drop, take-length_append, drop-length_append,
  get_or-append_left, get_or-append_right, take-all, get_elem?-set_self, get_elem?-set_ne,
}

-- One sleep of 200 ms: whether `*running_flag` was still set before it (a NULL flag counts as set),
-- and what the other threads did meanwhile.
pub record Sleep : Type 0 where
  pub running : Bool
  pub during : Session → Session

-- How a wait ends.
pub data Wait (A : Type 0) : Type 0 where
  still_waiting : Wait A
  failed : Wait A  -- -1
  answered : A → Wait A

-- zh_json_escape_copy into `n` bytes. bithion_core_json_escape is the core's; `none` for its failure.
abbrev pub escape_copy : (List ℕ → ℕ → Option (List ℕ)) → ℕ → List ℕ → List ℕ
escape_copy escape n src = elim (escape src n) [ none ↦ [] | some text ↦ text ]

-- zh_ws_send_vision_upload_request
unfoldable pub send_upload_request :
    (List ℕ → ℕ → Option (List ℕ))
    → Bool
    → Bool
    → List ℕ
    → List ℕ
    → List ℕ
    → Session
    → Session × Bool × List Call
send_upload_request escape there sent device_id frame_id content_type s =
    if there
    then send_str there sent
        (take 1023 (
          codes "{\"type\":\"vision_upload_request\",\"device_id\":\""
          ++ (escape_copy escape 128 device_id
              ++ (codes "\",\"frame_id\":\""
                  ++ (escape_copy escape 256 frame_id
                      ++ (codes "\",\"content_type\":\""
                          ++ (escape_copy escape 128 content_type ++ codes "\"}")))))))
        (record s { vision_upload_ready = false; vision_upload_resp = no_response })
    else (s, false, [])

-- zh_ws_send_vision_upload_commit
unfoldable pub send_upload_commit :
    (List ℕ → ℕ → Option (List ℕ))
    → Bool
    → Bool
    → List ℕ
    → List ℕ
    → List ℕ
    → List ℕ
    → Option (List ℕ)
    → Session
    → Session × Bool × List Call
send_upload_commit escape there sent device_id frame_id upload_id object_key face_name s =
    if there
    then send_str there sent
        (take 2047 (
          codes "{\"type\":\"vision_upload_commit\",\"device_id\":\""
          ++ (escape_copy escape 128 device_id
              ++ (codes "\",\"frame_id\":\""
                  ++ (escape_copy escape 256 frame_id
                      ++ (codes "\",\"upload_id\":\""
                          ++ (escape_copy escape 256 upload_id
                              ++ (codes "\",\"object_key\":\""
                                  ++ (escape_copy escape 1024 object_key
                                      ++ (codes "\",\"face_name\":\""
                                          ++ (escape_copy escape 256 (name_of face_name)
                                              ++ codes "\"}")))))))))))
        (record s { vision_done_ready = false; vision_done = no_vision })
    else (s, false, [])
  where
    name_of : Option (List ℕ) → List ℕ
    name_of none = []
    name_of (some name) = name

-- The end of zh_ws_wait_vision_upload_response, when its loop is left by its condition.
unfoldable pub take_upload : Session → Session × Wait UploadResponse
take_upload s =
    if s.vision_upload_ready
    then (record s { vision_upload_ready = false }, answered s.vision_upload_resp)
    else (s, failed)

-- zh_ws_wait_vision_upload_response on a valid session
unfoldable pub wait_upload : List Sleep → Session → Session × Wait UploadResponse
unfolding take_upload
wait_upload [] s =
    if not s.vision_upload_ready && not s.should_stop then (s, still_waiting) else take_upload s
wait_upload (t ∷ ts) s =
    let rest = wait_upload ts (t.during s) in
    if not s.vision_upload_ready && not s.should_stop
    then if t.running then rest else (s, failed)
    else take_upload s

-- A result for another frame is dropped.
abbrev pub drop_done : Session → Session
drop_done s = record s { vision_done_ready = false }

-- zh_ws_wait_vision_done on a valid session. With no sleep left it stands before the test of the flag.
unfoldable pub wait_done : List ℕ → List Sleep → Session → Session × Wait VisionDone
wait_done frame_id [] s = if s.should_stop then (s, failed) else (s, still_waiting)
wait_done frame_id (t ∷ ts) s =
    let other = wait_done frame_id ts (t.during (drop_done s)) in
    let rest = wait_done frame_id ts (t.during s) in
    if s.should_stop
    then (s, failed)
    else if not t.running
    then (s, failed)
    else if s.vision_done_ready
    then if str_eq s.vision_done.frame_id frame_id
      then (drop_done s, answered s.vision_done)
      else other
    else rest
