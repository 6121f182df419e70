-- ===== src/Session/Core/Cycle/Relays.antt =====
-- What the operations of a session in src/bithion_core_compat.c that send a message give to the core.
use rockchip_1106_voice_agen.Session.{Session, Call, ws_send, send_str}
use rockchip_1106_voice_agen.Session.Vision.{send_upload_request, send_upload_commit}
use rockchip_1106_voice_agen.Prelude.{
  ℕ, ◌≡◌, refl, ◌⊎◌, inl, inr, Bool, true, false, Option, List, [], ◌∷◌, arith,
}

-- The session sends nothing, or one message while there is a core.
abbrev pub Relays : Bool → List Call → Type 0
Relays there cs = (cs ≡ []) ⊎ ((there ≡ true) × (m : List ℕ) × (cs ≡ ws_send m ∷ []))

pub send_str-Relays :
    (there sent : Bool) (msg : List ℕ) (s : Session) → Relays there (send_str there sent msg s).2
unfolding send_str
send_str-Relays false sent msg s = inl refl
send_str-Relays true true [] s = inl refl
send_str-Relays true false [] s = inl refl
send_str-Relays true true (c ∷ msg) s = inr (refl, c ∷ msg, ground arith)
send_str-Relays true false (c ∷ msg) s = inr (refl, c ∷ msg, ground arith)

pub send_upload_request-Relays :
    (escape : List ℕ → ℕ → Option (List ℕ)) (there sent : Bool)
    (device_id frame_id content_type : List ℕ) (s : Session)
    → Relays there (send_upload_request escape there sent device_id frame_id content_type s).2
unfolding send_upload_request
send_upload_request-Relays escape true sent device_id frame_id content_type s =
    send_str-Relays true sent _ _
send_upload_request-Relays escape false sent device_id frame_id content_type s = inl refl

pub send_upload_commit-Relays :
    (escape : List ℕ → ℕ → Option (List ℕ)) (there sent : Bool)
    (device_id frame_id upload_id object_key : List ℕ) (face_name : Option (List ℕ)) (s : Session)
    → Relays there
        (send_upload_commit escape there sent device_id frame_id upload_id object_key face_name s).2
unfolding send_upload_commit
send_upload_commit-Relays escape true sent device_id frame_id upload_id object_key face_name s =
    send_str-Relays true sent _ _
send_upload_commit-Relays escape false sent device_id frame_id upload_id object_key face_name s =
    inl refl
