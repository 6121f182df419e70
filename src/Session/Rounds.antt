-- ===== src/Session/Rounds.antt =====
-- The session of src/bithion_core_compat.c under every operation that takes its mutex: what holds
-- of the round's flags at all times.
use rockchip_1106_voice_agen.Text.{codes, str_eq}
use rockchip_1106_voice_agen.Prelude.Int.{ℤ, pos, negsuc}
use rockchip_1106_voice_agen.Session.{
  no_response, no_vision, Session, Call, ws_send, enroll_on_recog, enroll_on_owner, Event,
  reset_round, session_reset, mark_vad_start, event_notify, vad_state_changed, send_str,
  consume_vad_start, authenticated_now, close, begin_segment, on_tts_round_done,
}
use rockchip_1106_voice_agen.Session.Messages.{
  Json, Host, has_value, or_empty, collect_music_urls, take_upload_response, stt_completed_now,
  vad_start_now, take_vision_done, then_status, music_server, music_play_pre, apply_status,
  ws_text_message,
}
use rockchip_1106_voice_agen.Session.Vision.{
  send_upload_request, send_upload_commit, take_upload, drop_done,
}
use rockchip_1106_voice_agen.Prelude.{
  ℕ, ◌^◌, ◌<◌, ◌≡◌, refl, inl, inr, Bool, true, false, not, ◌||◌, Option, none, some, List, [], ◌∷◌,
  ◌++◌, arith, leb, ◌==◌, if◌then◌else◌, leb→le, Bool-cases, length,
}

-- One operation on the session, with any input and any answer of the core.
pub data Step : Session → Session → Type 0 where
  reset : (s : Session) → Step s (session_reset s)
  notified : (e : Event) (s : Session) → Step s ((event_notify e s).0)
  vad_changed : (active : Bool) (s : Session) → Step s ((vad_state_changed active s).0)
  message :
      (host : Host) (fuel : ℕ) (msg : Json) (s : Session)
      → Step s ((ws_text_message host fuel msg s).0)
  sent : (there ok : Bool) (msg : List ℕ) (s : Session) → Step s ((send_str there ok msg s).0)
  consumed : (there : Bool) (s : Session) → Step s ((consume_vad_start there s).0)
  authenticated : (ok : Bool) (s : Session) → Step s ((authenticated_now ok s).0)
  closed : (s : Session) → Step s (close s)
  begun : (ok : Bool) (s : Session) → Step s ((begin_segment ok s).0)
  played : (s : Session) → Step s ((on_tts_round_done s).0)
  requested :
      (escape : List ℕ → ℕ → Option (List ℕ)) (there ok : Bool) (device frame content : List ℕ)
      (s : Session)
      → Step s ((send_upload_request escape there ok device frame content s).0)
  committed :
      (escape : List ℕ → ℕ → Option (List ℕ)) (there ok : Bool)
      (device frame upload object : List ℕ) (face : Option (List ℕ)) (s : Session)
      → Step s ((send_upload_commit escape there ok device frame upload object face s).0)
  upload_taken : (s : Session) → Step s ((take_upload s).0)
  done_dropped : (s : Session) → Step s (drop_done s)

-- Any number of operations, of whichever threads.
pub data Reachable (s : Session) : Session → Type 0 where
  start : Reachable s s
  next : (t u : Session) → Reachable s t → Step t u → Reachable s u

-- A number of a conversation is one of 32 bits, stands only beside a complete recognition, and is 0
-- where there is none.
abbrev pub Sound : Session → Type 0
Sound s =
    (s.stt_completed_chat_valid ≡ true → s.stt_completed ≡ true)
    × (s.stt_completed_chat_count < 2 ^ 32)
    × (s.stt_completed_chat_valid ≡ false → s.stt_completed_chat_count ≡ 0)

ite-Sound : (b : Bool) (s t : Session) → Sound s → Sound t → Sound (if b then s else t)
ite-Sound true s t h k = h
ite-Sound false s t h k = k

ite_by-Sound :
    {R : Type 0} (first : R → Session) (b : Bool) (r t : R)
    → Sound (first r)
    → Sound (first t)
    → Sound (first (if b then r else t))
ite_by-Sound first true r t h k = h
ite_by-Sound first false r t h k = k

-- The same of an operation that also says what it asks for.
module _ {A : Type 0} where
  ite_pair-Sound :
      (b : Bool) (r t : Session × A) → Sound (r.0) → Sound (t.0) → Sound ((if b then r else t).0)
  ite_pair-Sound true r t h k = h
  ite_pair-Sound false r t h k = k

false_is_not_true {ℓ} : {A : Type ℓ} → false ≡ true → A
false_is_not_true e = absurd (ground arith)

reset_round-Sound : (s : Session) → Sound (reset_round s)
unfolding reset_round
reset_round-Sound s = (λ e. false_is_not_true e, omega arith, λ _. refl)

mark_vad_start-Sound : (s : Session) → Sound s → Sound ((mark_vad_start s).0)
unfolding mark_vad_start
mark_vad_start-Sound s h =
    ite_pair-Sound s.vad_started (s, false) _ h (λ e. false_is_not_true e, omega arith, λ _. refl)

send_str-Sound :
    (there ok : Bool) (msg : List ℕ) (s : Session) → Sound s → Sound ((send_str there ok msg s).0)
unfolding send_str
send_str-Sound there ok msg s h =
    let left : Session = if str_eq msg (codes "START") then reset_round s else s in
    let done : Session × Bool × List Call = (left, true, ws_send msg ∷ []) in
    let lost : Session × Bool × List Call = (s, false, ws_send msg ∷ []) in
    let refused : Session × Bool × List Call = (s, false, []) in
    let first : Session × Bool × List Call → Session = λ r. r.0 in
    ite_by-Sound first (not there || length msg == 0) refused (if not ok then lost else done) h (
      ite_by-Sound first (not ok) lost done h
        (ite-Sound (str_eq msg (codes "START")) (reset_round s) s (reset_round-Sound s) h))

stt_completed_now-Sound : (z : ℤ) (s : Session) → Sound (stt_completed_now z s)
unfolding stt_completed_now
stt_completed_now-Sound (negsuc n) s = (λ e. false_is_not_true e, omega arith, λ _. refl)
stt_completed_now-Sound (pos n) s = elim (Bool-cases (leb n 0xffffffff)) [
  | inl t ↦ rw t ((λ _. refl, omega (arith, leb→le, t), λ e. absurd (ground arith)))
  | inr f ↦ rw f ((λ e. false_is_not_true e, omega arith, λ _. refl))
]

music_server-Sound :
    (busy : Bool) (us : List (List ℕ)) (s : Session) → Sound s → Sound ((music_server busy us s).0)
unfolding music_server
music_server-Sound busy [] s h = h
music_server-Sound busy (u ∷ us) s h = ite_pair-Sound busy _ _ h h

music_play_pre-Sound :
    (host : Host) (z : ℤ) (s : Session) → Sound s → Sound ((music_play_pre host z s).0)
unfolding music_play_pre
music_play_pre-Sound host (negsuc n) s h = h
music_play_pre-Sound host (pos code) s h =
    ite_pair-Sound (code == 200) _ (s, [])
      (send_str-Sound host.core_there host.send_ok (codes "START") s h) h

take_vision_done-Sound : (msg : Json) (s : Session) → Sound s → Sound (take_vision_done msg s)
unfolding take_vision_done
take_vision_done-Sound msg s h = h

vad_start_now-Sound : (s : Session) → Sound s → Sound ((vad_start_now s).0)
unfolding vad_start_now
vad_start_now-Sound s h = mark_vad_start-Sound s h

apply_status-Sound :
    (host : Host) (fuel : ℕ) (msg : Json) (status : List ℕ) (s : Session)
    → Sound s
    → Sound ((apply_status host fuel msg status s).0)
unfolding apply_status
apply_status-Sound host fuel msg status s h =
    let count = stt_completed_now (msg.get_long (codes "$.chat_count") (negsuc 0)) s in
    let music = music_server host.tts_busy (collect_music_urls msg host.alloc fuel) s in
    let play = music_play_pre host (msg.get_long (codes "$.status_code") (negsuc 0)) s in
    let r10 : Session × List Call =
      if str_eq status (codes "music_play_pre") then play else (s, []) in
    let r9 : Session × List Call = if str_eq status (codes "music_server") then music else r10 in
    let owner : Session × List Call =
      (s, enroll_on_owner (or_empty (msg.get_str (codes "$.message"))) ∷ []) in
    let r8 : Session × List Call = if str_eq status (codes "face_owner") then owner else r9 in
    let recog : Session × List Call = (s, enroll_on_recog ∷ []) in
    let r7 : Session × List Call = if str_eq status (codes "face_recog") then recog else r8 in
    let r6 : Session × List Call =
      if str_eq status (codes "VAD_START") then vad_start_now s else r7 in
    let seen : Session × List Call = (take_vision_done msg s, []) in
    let r5 : Session × List Call = if str_eq status (codes "vision_done") then seen else r6 in
    let told : Session × List Call = (record s { tts_completed = true }, []) in
    let r4 : Session × List Call = if str_eq status (codes "TTS_COMPLETED") then told else r5 in
    let counted : Session × List Call = (count, []) in
    let r3 : Session × List Call = if str_eq status (codes "STT_COMPLETED") then counted else r4 in
    let r2 : Session × List Call = if str_eq status (codes "error") then (s, []) else r3 in
    let known : Session × List Call = (record s { authenticated = true }, []) in
    ite_pair-Sound (str_eq status (codes "authenticated")) known r2 h (
      ite_pair-Sound (str_eq status (codes "error")) (s, []) r3 h
        (ite_pair-Sound (str_eq status (codes "STT_COMPLETED")) counted r4
          (stt_completed_now-Sound (msg.get_long (codes "$.chat_count") (negsuc 0)) s)
          (ite_pair-Sound (str_eq status (codes "TTS_COMPLETED")) told r5 h (
            ite_pair-Sound (str_eq status (codes "vision_done")) seen r6
              (take_vision_done-Sound msg s h)
              (ite_pair-Sound (str_eq status (codes "VAD_START")) (vad_start_now s) r7
                (vad_start_now-Sound s h)
                (ite_pair-Sound (str_eq status (codes "face_recog")) recog r8 h (
                  ite_pair-Sound (str_eq status (codes "face_owner")) owner r9 h (
                    ite_pair-Sound (str_eq status (codes "music_server")) music r10
                      (music_server-Sound host.tts_busy (collect_music_urls msg host.alloc fuel) s
                        h)
                      (ite_pair-Sound (str_eq status (codes "music_play_pre")) play (s, [])
                        (music_play_pre-Sound host (msg.get_long (codes "$.status_code") (negsuc 0))
                          s h)
                        h)))))))))

take_upload_response-Sound :
    (msg : Json) (s : Session) → Sound s → Sound (take_upload_response msg s)
unfolding take_upload_response
take_upload_response-Sound msg s h =
    ite-Sound (has_value (msg.get_str (codes "$.type")) (codes "vision_upload_response")) _ s h h

then_status-Sound :
    (host : Host) (fuel : ℕ) (msg : Json) (status : Option (List ℕ)) (s : Session)
    → Sound s
    → Sound ((then_status host fuel msg status s).0)
then_status-Sound host fuel msg none s h = h
then_status-Sound host fuel msg (some status) s h = apply_status-Sound host fuel msg status s h

ws_text_message-Sound :
    (host : Host) (fuel : ℕ) (msg : Json) (s : Session)
    → Sound s
    → Sound ((ws_text_message host fuel msg s).0)
unfolding ws_text_message
ws_text_message-Sound host fuel msg s h =
    let s1 = take_upload_response msg s in
    let r = then_status host fuel msg (msg.get_str (codes "$.status")) s1 in
    let v = vad_start_now (r.0) in
    let hr =
      then_status-Sound host fuel msg (msg.get_str (codes "$.status")) s1
        (take_upload_response-Sound msg s h) in
    ite_pair-Sound (has_value (msg.get_str (codes "$.vad_start.status")) (codes "VAD_START"))
      (v.0, r.1 ++ v.1) r (vad_start_now-Sound (r.0) hr) hr

reset-Sound : (s : Session) → Sound (session_reset s)
unfolding session_reset reset_round
reset-Sound s = (λ e. false_is_not_true e, omega arith, λ _. refl)

authenticated_now-Sound : (ok : Bool) (s : Session) → Sound s → Sound ((authenticated_now ok s).0)
unfolding authenticated_now
authenticated_now-Sound ok s h =
    send_str-Sound true ok (codes "{\"type\":\"Device State\",\"devices\":{\"camera\":\"on\"}}")
      (record s { authenticated = true; should_stop = false }) h

request-Sound :
    (escape : List ℕ → ℕ → Option (List ℕ)) (there ok : Bool) (device frame content : List ℕ)
    (s : Session)
    → Sound s
    → Sound ((send_upload_request escape there ok device frame content s).0)
unfolding send_upload_request
request-Sound escape true ok device frame content s h =
    send_str-Sound true ok _
      (record s { vision_upload_ready = false; vision_upload_resp = no_response }) h
request-Sound escape false ok device frame content s h = h

commit-Sound :
    (escape : List ℕ → ℕ → Option (List ℕ)) (there ok : Bool) (device frame upload object : List ℕ)
    (face : Option (List ℕ)) (s : Session)
    → Sound s
    → Sound ((send_upload_commit escape there ok device frame upload object face s).0)
unfolding send_upload_commit
commit-Sound escape true ok device frame upload object face s h =
    send_str-Sound true ok _ (record s { vision_done_ready = false; vision_done = no_vision }) h
commit-Sound escape false ok device frame upload object face s h = h

take_upload-Sound : (s : Session) → Sound s → Sound ((take_upload s).0)
unfolding take_upload
take_upload-Sound s h = ite_pair-Sound s.vision_upload_ready _ _ h h

Step-Sound : (s t : Session) → Step s t → Sound s → Sound t
Step-Sound s _ (reset _) h = reset-Sound s
Step-Sound s _ (notified e _) h = unfold event_notify in h
Step-Sound s _ (vad_changed active _) h =
    unfold vad_state_changed in ite-Sound active (reset_round s) s (reset_round-Sound s) h
Step-Sound s _ (message host fuel msg _) h = ws_text_message-Sound host fuel msg s h
Step-Sound s _ (sent there ok msg _) h = send_str-Sound there ok msg s h
Step-Sound s _ (consumed there _) h =
    unfold consume_vad_start in
    ite_pair-Sound there (record s { vad_started = false }, s.vad_started) (s, false) h h
Step-Sound s _ (authenticated ok _) h = authenticated_now-Sound ok s h
Step-Sound s _ (closed _) h = unfold close in h
Step-Sound s _ (begun ok _) h =
    unfold begin_segment in
    ite_pair-Sound ok (reset_round s, true) (s, false) (reset_round-Sound s) h
Step-Sound s _ (played _) h = unfold on_tts_round_done in h
Step-Sound s _ (requested escape there ok device frame content _) h =
    request-Sound escape there ok device frame content s h
Step-Sound s _ (committed escape there ok device frame upload object face _) h =
    commit-Sound escape there ok device frame upload object face s h
Step-Sound s _ (upload_taken _) h = take_upload-Sound s h
Step-Sound s _ (done_dropped _) h = h

-- From a sound session every operation, in any order and with any messages and answers, leads to
-- sound ones: the stored number of the conversation fits a uint32_t, is valid only beside a
-- complete recognition, and is 0 where it is not valid.
pub Reachable-Sound : (s t : Session) → Reachable s t → Sound s → Sound t
Reachable-Sound s _ start h = h
Reachable-Sound s u (next t _ r step) h = Step-Sound t u step (Reachable-Sound s t r h)
