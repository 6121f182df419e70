-- ===== src/Tests/Faces.antt =====
-- Runs of the face recognition (src/face_recognition.c).
use rockchip_1106_voice_agen.Text.{codes, str_eq}
use rockchip_1106_voice_agen.Session.{UploadResponse, no_vision}
use rockchip_1106_voice_agen.Prelude.Int.{pos}
use rockchip_1106_voice_agen.Face.Upload.{
  request, put, commit, Answers, http_put_binary, is_success, usable, finish_upload,
  upload_one_frame,
}
use rockchip_1106_voice_agen.Face.Upload.Laws.{upload_one_frame-ok}
use rockchip_1106_voice_agen.Prelude.{◌≡◌, refl, true, none, some, [], ◌∷◌}

abbrev response : UploadResponse
response = record {
  status = codes "ok";
  upload_url = codes "u";
  upload_id = codes "i";
  object_key = codes "k";
  expires_at = pos 0;
}

-- The store refuses the first try.
abbrev answers : Answers
answers = record {
  device_id = codes "d";
  request_sent = true;
  upload = some response;
  first_put = some 400;
  second_put = some 200;
  face_name = none;
  commit_sent = true;
  done = some (record no_vision { result = codes "ok" });
}

upload_ok : (upload_one_frame answers (codes "f")).1 ≡ true
unfolding upload_one_frame finish_upload usable http_put_binary is_success str_eq
upload_ok = refl

upload_one_frame-ok_example :
    ((upload_one_frame answers (codes "f")).0
      ≡ request (codes "f")
        ∷ put (codes "u") ((http_put_binary (some 400) (some 200)).0)
        ∷ commit (codes "f") (codes "i") (codes "k") (codes "error")
        ∷ [])
    × ((http_put_binary (some 400) (some 200)).1 ≡ true)
    × (usable response ≡ true)
upload_one_frame-ok_example = upload_one_frame-ok answers (codes "f") response refl upload_ok
