-- ===== src/Face/Upload/Laws.antt =====
-- When an upload of src/face_recognition.c commits, and what its success means.
use rockchip_1106_voice_agen.Text.{codes}
use rockchip_1106_voice_agen.Session.{UploadResponse}
use rockchip_1106_voice_agen.Face.Upload.{
  http_put_binary, UploadCall, request, put, commit, Answers, finish_upload, usable,
  upload_one_frame,
}
use rockchip_1106_voice_agen.Prelude.{
  ℕ, suc, ◌≤◌, ◌≡◌, true, false, none, some, List, [], ◌∷◌, arith,
}

abbrev pub commits : List UploadCall → ℕ
commits [] = 0
commits (request f ∷ cs) = commits cs
commits (put u n ∷ cs) = commits cs
commits (commit f u o n ∷ cs) = suc (commits cs)

-- A frame is committed at most once, and never unless the store took it.
pub upload_one_frame-commits :
    (a : Answers) (frame_id : List ℕ)
    → (commits ((upload_one_frame a frame_id).0) ≤ 1)
      × ((http_put_binary a.first_put a.second_put).1 ≡ false
          → commits ((upload_one_frame a frame_id).0) ≡ 0)
unfolding upload_one_frame finish_upload
upload_one_frame-commits a frame_id = ground arith

-- An upload that succeeds with this response has asked for a place, stored the frame at the URL of
-- the response and committed it under its ids, in this order; the store took the frame, and the
-- response could be used.
pub upload_one_frame-ok :
    (a : Answers) (frame_id : List ℕ) (resp : UploadResponse)
    → a.upload ≡ some resp
    → (upload_one_frame a frame_id).1 ≡ true
    → ((upload_one_frame a frame_id).0
        ≡ request frame_id
          ∷ put resp.upload_url ((http_put_binary a.first_put a.second_put).0)
          ∷ commit frame_id resp.upload_id resp.object_key
              (elim a.face_name [ none ↦ codes "error" | some n ↦ n ])
          ∷ [])
      × ((http_put_binary a.first_put a.second_put).1 ≡ true)
      × (usable resp ≡ true)
unfolding upload_one_frame finish_upload
upload_one_frame-ok a frame_id resp e ok = ground (arith, e)
