-- ===== src/Session/Vision/Laws.antt =====
-- The waits of src/bithion_core_compat.c answer the request that was made, and no other.
use rockchip_1106_voice_agen.Text.{codes, str_eq, str_eq_sound}
use rockchip_1106_voice_agen.Session.{VisionDone, no_response, Session, send_str}
use rockchip_1106_voice_agen.Session.Vision.{
  Sleep, Wait, still_waiting, failed, answered, send_upload_request, take_upload, wait_upload,
  drop_done, wait_done,
}
use rockchip_1106_voice_agen.Session.Messages.{Json, has_value, take_upload_response}
use rockchip_1106_voice_agen.Prelude.{
  ℕ, zero, suc, ◌≡◌, refl, ap, ◌∙◌, Bool, true, false, not, ◌&&◌, Option, List, [], ◌∷◌, ◌++◌,
  arith, if◌then◌else◌, if_true, if_false, replicate,
}

-- An answer is about the frame asked for, and is taken from the session.
abbrev pub AnswersFrame : List ℕ → Session × Wait VisionDone → Type 0
AnswersFrame frame_id (s, still_waiting) = Unit
AnswersFrame frame_id (s, failed) = Unit
AnswersFrame frame_id (s, answered d) =
    (d.frame_id ≡ frame_id) × (s.vision_done_ready ≡ false) × (s.vision_done ≡ d)

ite-AnswersFrame :
    (frame_id : List ℕ) (b : Bool) (r t : Session × Wait VisionDone)
    → (b ≡ true → AnswersFrame frame_id r)
    → AnswersFrame frame_id t
    → AnswersFrame frame_id (if b then r else t)
ite-AnswersFrame frame_id true r t h k = h refl
ite-AnswersFrame frame_id false r t h k = k

-- Whatever the other threads do while it sleeps, the wait for a vision result hands out only a
-- result for its frame; it is then no longer marked ready.
pub wait_done-AnswersFrame :
    (frame_id : List ℕ) (ts : List Sleep) (s : Session)
    → AnswersFrame frame_id (wait_done frame_id ts s)
unfolding wait_done
wait_done-AnswersFrame frame_id [] s =
    ite-AnswersFrame frame_id s.should_stop (s, failed) (s, still_waiting) (λ _. tt) tt
wait_done-AnswersFrame frame_id (t ∷ ts) s =
    let other = wait_done frame_id ts (t.during (drop_done s)) in
    let rest = wait_done frame_id ts (t.during s) in
    let mine : Session × Wait VisionDone = (drop_done s, answered s.vision_done) in
    let same_frame = str_eq s.vision_done.frame_id frame_id in
    let answer = if same_frame then mine else other in
    let seen = if s.vision_done_ready then answer else rest in
    let ran = if not t.running then (s, failed) else seen in
    ite-AnswersFrame frame_id s.should_stop (s, failed) ran (λ _. tt)
      (ite-AnswersFrame frame_id (not t.running) (s, failed) seen (λ _. tt)
        (ite-AnswersFrame frame_id s.vision_done_ready answer rest
          (λ _.
            ite-AnswersFrame frame_id same_frame mine other
              (λ e. (str_eq_sound s.vision_done.frame_id frame_id e, refl, refl))
              (wait_done-AnswersFrame frame_id ts (t.during (drop_done s))))
          (wait_done-AnswersFrame frame_id ts (t.during s))))

-- The other threads bring no answer to a request.
abbrev pub AreSilent : List Sleep → Type 0
AreSilent [] = Unit
AreSilent (t ∷ ts) =
    ((s : Session) → s.vision_upload_ready ≡ false → (t.during s).vision_upload_ready ≡ false)
    × AreSilent ts

abbrev pub NotAnswered : {A : Type 0} → Session × Wait A → Type 0
NotAnswered (s, answered a) = ⊥
NotAnswered (s, failed) = Unit
NotAnswered (s, still_waiting) = Unit

ite-NotAnswered :
    {A : Type 0} (b : Bool) (r t : Session × Wait A)
    → (b ≡ true → NotAnswered r)
    → NotAnswered t
    → NotAnswered (if b then r else t)
ite-NotAnswered true r t h k = h refl
ite-NotAnswered false r t h k = k

send_str-ready :
    (there sent : Bool) (msg : List ℕ) (s : Session)
    → (send_str there sent msg s).0.vision_upload_ready ≡ s.vision_upload_ready
unfolding send_str
send_str-ready there sent msg s = ground arith

take_upload-silent : (s : Session) → s.vision_upload_ready ≡ false → NotAnswered (take_upload s)
unfolding take_upload
take_upload-silent s h =
    ite-NotAnswered s.vision_upload_ready
      (record s { vision_upload_ready = false }, answered s.vision_upload_resp) (s, failed)
      (λ e. absurd (ground (arith, h, e))) tt

wait_upload-silent :
    (ts : List Sleep) (s : Session)
    → AreSilent ts
    → s.vision_upload_ready ≡ false
    → NotAnswered (wait_upload ts s)
unfolding wait_upload
wait_upload-silent [] s quiet h =
    ite-NotAnswered (not s.vision_upload_ready && not s.should_stop) (s, still_waiting)
      (take_upload s) (λ _. tt) (take_upload-silent s h)
wait_upload-silent (t ∷ ts) s (q, quiet) h =
    let rest = wait_upload ts (t.during s) in
    ite-NotAnswered (not s.vision_upload_ready && not s.should_stop)
      (if t.running then rest else (s, failed)) (take_upload s)
      (λ _.
        ite-NotAnswered t.running rest (s, failed)
          (λ _. wait_upload-silent ts (t.during s) quiet (q s h)) tt)
      (take_upload-silent s h)

send_upload_request-ready :
    (escape : List ℕ → ℕ → Option (List ℕ)) (sent : Bool) (device_id frame_id content_type : List ℕ)
    (s : Session)
    → (send_upload_request escape true sent device_id frame_id content_type s).0.vision_upload_ready
      ≡ false
unfolding send_upload_request
send_upload_request-ready escape sent device_id frame_id content_type s =
    send_str-ready true sent _
      (record s { vision_upload_ready = false; vision_upload_resp = no_response })

-- A request on a valid session forgets the answer to an earlier one: the wait after it is not
-- answered if no other thread brings a new answer.
pub send_upload_request-fresh :
    (escape : List ℕ → ℕ → Option (List ℕ)) (sent : Bool) (device_id frame_id content_type : List ℕ)
    (ts : List Sleep) (s : Session)
    → AreSilent ts
    → NotAnswered (
        wait_upload ts ((send_upload_request escape true sent device_id frame_id content_type s).0))
send_upload_request-fresh escape sent device_id frame_id content_type ts s quiet =
    wait_upload-silent ts
      ((send_upload_request escape true sent device_id frame_id content_type s).0) quiet
      (send_upload_request-ready escape sent device_id frame_id content_type s)

-- Sleeps in which nothing happens to the session.
abbrev pub idle : Sleep
idle = record { running = true; during = λ s. s }

asleep : (a b : Bool) → a ≡ false → b ≡ false → (not a && not b) ≡ true
asleep a b h k = rw (h, k)

awake : (a b : Bool) → a ≡ true → (not a && not b) ≡ false
awake a b h = rw h

wait_upload-sleep :
    (t : Sleep) (ts : List Sleep) (s : Session)
    → t.running ≡ true
    → s.vision_upload_ready ≡ false
    → s.should_stop ≡ false
    → wait_upload (t ∷ ts) s ≡ wait_upload ts (t.during s)
unfolding wait_upload
wait_upload-sleep t ts s running h going =
    let rest = wait_upload ts (t.during s) in
    if_true (not s.vision_upload_ready && not s.should_stop)
      (if t.running then rest else (s, failed)) (take_upload s)
      (asleep s.vision_upload_ready s.should_stop h going)
    ∙ if_true t.running rest (s, failed) running

wait_upload-ready :
    (ts : List Sleep) (s : Session)
    → s.vision_upload_ready ≡ true
    → wait_upload ts s ≡ (record s { vision_upload_ready = false }, answered s.vision_upload_resp)
unfolding wait_upload take_upload
wait_upload-ready [] s h =
    if_false (not s.vision_upload_ready && not s.should_stop) (s, still_waiting) (take_upload s)
      (awake s.vision_upload_ready s.should_stop h)
    ∙ if_true s.vision_upload_ready
        (record s { vision_upload_ready = false }, answered s.vision_upload_resp) (s, failed) h
wait_upload-ready (t ∷ ts) s h =
    if_false (not s.vision_upload_ready && not s.should_stop)
      (if t.running then wait_upload ts (t.during s) else (s, failed)) (take_upload s)
      (awake s.vision_upload_ready s.should_stop h)
    ∙ if_true s.vision_upload_ready
        (record s { vision_upload_ready = false }, answered s.vision_upload_resp) (s, failed) h

take_upload_response-ready :
    (msg : Json) (s : Session)
    → has_value (msg.get_str (codes "$.type")) (codes "vision_upload_response") ≡ true
    → (take_upload_response msg s).vision_upload_ready ≡ true
unfolding take_upload_response
take_upload_response-ready msg s h = rw h

-- When the answer comes to a session that is not to stop and has none yet, after any number of
-- sleeps in which nothing happens, the wait hands out what the message says and the answer is no
-- longer ready.
pub wait_upload-take :
    (n : ℕ) (msg : Json) (ts : List Sleep) (s : Session)
    → has_value (msg.get_str (codes "$.type")) (codes "vision_upload_response") ≡ true
    → s.vision_upload_ready ≡ false
    → s.should_stop ≡ false
    → let arrives : Sleep = record { running = true; during = take_upload_response msg } in
      let r = wait_upload (replicate n idle ++ (arrives ∷ ts)) s in
      (r.1 ≡ answered ((take_upload_response msg s).vision_upload_resp))
      × (r.0.vision_upload_ready ≡ false)
wait_upload-take zero msg ts s typed h going =
    let ready = take_upload_response-ready msg s typed in
    let after = take_upload_response msg s in
    let e =
      wait_upload-sleep (record { running = true; during = take_upload_response msg }) ts s refl h
        going
      ∙ wait_upload-ready ts after ready in
    (ap (λ r. r.1) e, ap (λ r. r.0.vision_upload_ready) e)
wait_upload-take (suc n) msg ts s typed h going =
    let arrives : Sleep = record { running = true; during = take_upload_response msg } in
    let e = wait_upload-sleep idle (replicate n idle ++ (arrives ∷ ts)) s refl h going in
    let (a, b) = wait_upload-take n msg ts s typed h going in
    (ap (λ r. r.1) e ∙ a, ap (λ r. r.0.vision_upload_ready) e ∙ b)
