-- ===== src/Session/Messages/Laws.antt =====
-- What the messages of the server leave behind (src/bithion_core_compat.c).
use rockchip_1106_voice_agen.Text.{codes, str_eq}
use mathlib.Core.List.{append-nil}
use rockchip_1106_voice_agen.Prelude.Int.{ℤ, pos, negsuc}
use rockchip_1106_voice_agen.Session.{
  Session, Call, interrupt_tts, play_urls, mark_vad_start, send_str, reset_round,
  get_stt_completed_chat_count, on_tts_round_done,
}
use rockchip_1106_voice_agen.Session.Messages.{
  Json, Host, has_value, url_path, collect_from, collect_music_urls, take_upload_response,
  stt_completed_now, vad_start_now, music_server, apply_status, ws_text_message,
}
use rockchip_1106_voice_agen.Prelude.{
  ℕ, zero, suc, ◌+◌, ◌*◌, ◌<◌, ◌≡◌, refl, ap, ◌∙◌, ◌⊎◌, inl, inr, Bool, true, false, not, ◌&&◌,
  Option, none, some, List, [], ◌∷◌, ◌++◌, arith, leb, ◌==◌, if◌then◌else◌, length, Bool-cases,
}

-- A message of this status, with no type that the client knows and no VAD_START inside.
abbrev pub IsPlainStatus : Json → List ℕ → Type 0
IsPlainStatus msg status =
    (msg.get_str (codes "$.status") ≡ some status)
    × (has_value (msg.get_str (codes "$.type")) (codes "vision_upload_response") ≡ false)
    × (has_value (msg.get_str (codes "$.vad_start.status")) (codes "VAD_START") ≡ false)

ws_text_message-plain :
    (host : Host) (fuel : ℕ) (msg : Json) (status : List ℕ) (s : Session)
    → IsPlainStatus msg status
    → ws_text_message host fuel msg s ≡ apply_status host fuel msg status s
unfolding ws_text_message take_upload_response
ws_text_message-plain host fuel msg status s (a, b, c) = rw (a, b, c)

-- The number of the conversation that a STT_COMPLETED carries.
abbrev pub chat_of : ℤ → Option ℕ
chat_of (negsuc n) = none
chat_of (pos n) = if leb n 0xffffffff then some n else none

stt_completed_now-chat :
    (z : ℤ) (s : Session) → get_stt_completed_chat_count true (stt_completed_now z s) ≡ chat_of z
unfolding get_stt_completed_chat_count stt_completed_now
stt_completed_now-chat (negsuc n) s = refl
stt_completed_now-chat (pos n) s = ground arith

apply_status-stt :
    (host : Host) (fuel : ℕ) (msg : Json) (s : Session)
    → (apply_status host fuel msg (codes "STT_COMPLETED") s).0
      ≡ stt_completed_now (msg.get_long (codes "$.chat_count") (negsuc 0)) s
unfolding apply_status str_eq
apply_status-stt host fuel msg s = refl

get_stt_completed_chat_count-send_str :
    (s : Session)
    → get_stt_completed_chat_count true ((send_str true true (codes "START") s).0) ≡ none
unfolding get_stt_completed_chat_count send_str reset_round str_eq
get_stt_completed_chat_count-send_str s = refl

-- After a message that is a STT_COMPLETED and nothing else the number of the conversation can be
-- read, if the message has one that fits 32 bits, and no more once a START has been sent.
pub ws_text_message-chat_count :
    (host : Host) (fuel : ℕ) (msg : Json) (s : Session)
    → IsPlainStatus msg (codes "STT_COMPLETED")
    → let after = (ws_text_message host fuel msg s).0 in
      (get_stt_completed_chat_count true after
        ≡ chat_of (msg.get_long (codes "$.chat_count") (negsuc 0)))
      × (get_stt_completed_chat_count true ((send_str true true (codes "START") after).0) ≡ none)
ws_text_message-chat_count host fuel msg s plain =
    let z = msg.get_long (codes "$.chat_count") (negsuc 0) in
    let e : (ws_text_message host fuel msg s).0 ≡ stt_completed_now z s =
      rw (ws_text_message-plain host fuel msg (codes "STT_COMPLETED") s plain)
        (apply_status-stt host fuel msg s) in
    (
      ap (get_stt_completed_chat_count true) e ∙ stt_completed_now-chat z s,
      get_stt_completed_chat_count-send_str ((ws_text_message host fuel msg s).0),
    )

-- The last test of a message.
abbrev then_vad_start : Bool → Session × List Call → Session × List Call
then_vad_start inside r = let v = vad_start_now (r.0) in if inside then (v.0, r.1 ++ v.1) else r

ws_text_message-typed :
    (host : Host) (fuel : ℕ) (msg : Json) (status : List ℕ) (s : Session)
    → msg.get_str (codes "$.status") ≡ some status
    → has_value (msg.get_str (codes "$.type")) (codes "vision_upload_response") ≡ false
    → ws_text_message host fuel msg s
      ≡ then_vad_start
          (has_value (msg.get_str (codes "$.vad_start.status")) (codes "VAD_START"))
          (apply_status host fuel msg status s)
unfolding ws_text_message take_upload_response
ws_text_message-typed host fuel msg status s a b = rw (a, b)

apply_status-vad_start :
    (host : Host) (fuel : ℕ) (msg : Json) (s : Session)
    → apply_status host fuel msg (codes "VAD_START") s ≡ vad_start_now s
unfolding apply_status str_eq
apply_status-vad_start host fuel msg s = refl

vad_start_now-first :
    (s : Session)
    → ((vad_start_now s).1 ≡ (if s.vad_started then [] else interrupt_tts ∷ []))
      × ((vad_start_now s).0.vad_started ≡ true)
unfolding vad_start_now mark_vad_start
vad_start_now-first s = ground arith

vad_start_now-again : (s : Session) → s.vad_started ≡ true → vad_start_now s ≡ (s, [])
unfolding vad_start_now mark_vad_start
vad_start_now-again s h = ground (arith, h)

vad_start-once :
    (inside : Bool) (s : Session)
    → let r = then_vad_start inside (vad_start_now s) in
      (r.1 ≡ (if s.vad_started then [] else interrupt_tts ∷ [])) × (r.0.vad_started ≡ true)
vad_start-once false s = vad_start_now-first s
vad_start-once true s =
    let (a, b) = vad_start_now-first s in
    let again = vad_start_now-again ((vad_start_now s).0) b in
    (
      ap (λ v. (vad_start_now s).1 ++ v.1) again ∙ append-nil ((vad_start_now s).1) ∙ a,
      ap (λ v. v.0.vad_started) again ∙ b,
    )

-- A message whose status is VAD_START, and that is no upload response, interrupts the voice if the
-- round has not had a VAD_START yet, once even when it carries a second one inside, and otherwise
-- not; the round has had one then.
pub ws_text_message-vad_start :
    (host : Host) (fuel : ℕ) (msg : Json) (s : Session)
    → msg.get_str (codes "$.status") ≡ some (codes "VAD_START")
    → has_value (msg.get_str (codes "$.type")) (codes "vision_upload_response") ≡ false
    → let r = ws_text_message host fuel msg s in
      (r.1 ≡ (if s.vad_started then [] else interrupt_tts ∷ [])) × (r.0.vad_started ≡ true)
ws_text_message-vad_start host fuel msg s h typed =
    let inside = has_value (msg.get_str (codes "$.vad_start.status")) (codes "VAD_START") in
    let e =
      ws_text_message-typed host fuel msg (codes "VAD_START") s h typed
      ∙ ap (then_vad_start inside) (apply_status-vad_start host fuel msg s) in
    let (a, b) = vad_start-once inside s in (ap (λ r. r.1) e ∙ a, ap (λ r. r.0.vad_started) e ∙ b)

apply_status-music :
    (host : Host) (fuel : ℕ) (msg : Json) (s : Session)
    → apply_status host fuel msg (codes "music_server") s
      ≡ music_server host.tts_busy (collect_music_urls msg host.alloc fuel) s
unfolding apply_status
apply_status-music host fuel msg s = unfold str_eq in refl

music_server-busy :
    (busy : Bool) (u : List ℕ) (us : List (List ℕ)) (s : Session)
    → busy ≡ true
    → music_server busy (u ∷ us) s ≡ (record s { pending_music = u ∷ us }, [])
unfolding music_server
music_server-busy busy u us s h = rw h

music_server-silent :
    (busy : Bool) (u : List ℕ) (us : List (List ℕ)) (s : Session)
    → busy ≡ false
    → music_server busy (u ∷ us) s ≡ (s, play_urls (u ∷ us) ∷ [])
unfolding music_server
music_server-silent busy u us s h = rw h

round_done-plays :
    (u : List ℕ) (us : List (List ℕ)) (s : Session)
    → (on_tts_round_done (record s { pending_music = u ∷ us })).1 ≡ play_urls (u ∷ us) ∷ []
unfolding on_tts_round_done
round_done-plays u us s = refl

on_tts_round_done-empties : (s : Session) → (on_tts_round_done ((on_tts_round_done s).0)).1 ≡ []
unfolding on_tts_round_done
on_tts_round_done-empties s = refl

-- A message that is a music_server and nothing else, with a URL at least: while the voice plays,
-- its music waits for the end of the voice and is then played, once; in a silence it is played at
-- once.
pub ws_text_message-music :
    (host : Host) (fuel : ℕ) (msg : Json) (u : List ℕ) (us : List (List ℕ)) (s : Session)
    → IsPlainStatus msg (codes "music_server")
    → collect_music_urls msg host.alloc fuel ≡ u ∷ us
    → let r = ws_text_message host fuel msg s in
      let done = on_tts_round_done (r.0) in
      ((host.tts_busy ≡ true)
        × (r.1 ≡ [])
        × (done.1 ≡ play_urls (u ∷ us) ∷ [])
        × ((on_tts_round_done (done.0)).1 ≡ []))
      ⊎ ((host.tts_busy ≡ false) × (r ≡ (s, play_urls (u ∷ us) ∷ [])))
ws_text_message-music host fuel msg u us s plain urls =
    let e =
      ws_text_message-plain host fuel msg (codes "music_server") s plain
      ∙ apply_status-music host fuel msg s
      ∙ ap (λ l. music_server host.tts_busy l s) urls in
    elim (Bool-cases host.tts_busy) [
      | inl busy ↦
          let f = e ∙ music_server-busy host.tts_busy u us s busy in
          inl (
            busy,
            ap (λ r. r.1) f,
            ap (λ r. (on_tts_round_done (r.0)).1) f ∙ round_done-plays u us s,
            on_tts_round_done-empties ((ws_text_message host fuel msg s).0),
          )
      | inr silent ↦ inr (silent, e ∙ music_server-silent host.tts_busy u us s silent)
    ]

-- The URLs are collected whole.
abbrev pub HasUrls : Json → ℕ → List (List ℕ) → Type 0
HasUrls msg i [] = msg.get_str (url_path i) ≡ none
HasUrls msg i (u ∷ us) = (msg.get_str (url_path i) ≡ some u) × HasUrls msg (i + 1) us

no_stop : (b : Bool) → (b && not true) ≡ false
no_stop true = refl
no_stop false = refl

collect_from-all :
    (msg : Json) (alloc : ℕ → Bool) (fuel i capacity : ℕ) (us : List (List ℕ))
    → ((n : ℕ) → alloc n ≡ true)
    → HasUrls msg i us
    → length us < fuel
    → collect_from msg alloc fuel i capacity ≡ us
unfolding collect_from
collect_from-all msg alloc zero i capacity us ok has enough = absurd (omega arith)
collect_from-all msg alloc (suc fuel) i capacity [] ok has enough = rw (collect_from, has)
collect_from-all msg alloc (suc fuel) i capacity (u ∷ us) ok (here, has) enough =
    let rest =
      collect_from-all msg alloc fuel (i + 1)
        (if leb capacity i then if capacity == 0 then 4 else capacity * 2 else capacity) us ok has
        (omega arith) in
    rw (
      collect_from,
      here,
      ok (if capacity == 0 then 4 else capacity * 2),
      rest,
      no_stop (leb capacity i),
    )

-- Every URL of the message's array is collected, in order, if memory can be had and the fuel is
-- more than the number of URLs.
pub collect_music_urls-all :
    (msg : Json) (alloc : ℕ → Bool) (fuel : ℕ) (us : List (List ℕ))
    → ((n : ℕ) → alloc n ≡ true)
    → HasUrls msg 0 us
    → length us < fuel
    → collect_music_urls msg alloc fuel ≡ us
unfolding collect_music_urls
collect_music_urls-all msg alloc fuel us ok has enough =
    collect_from-all msg alloc fuel 0 0 us ok has enough
