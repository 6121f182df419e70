-- ===== src/Face/Engine.antt =====
-- The face engine of src/face_recognition.c: its process, the connection to it, and the dialogue over
-- it. Processes, sockets and the JSON reader are answers that the model is given.
pub mod Dialogue
use rockchip_1106_voice_agen.Prelude.Int.{ℤ, pos}
use rockchip_1106_voice_agen.Text.{codes, copy_str}
use rockchip_1106_voice_agen.Text.Decimal.{dec}
use rockchip_1106_voice_agen.Face.Escape.{json_escape}
use rockchip_1106_voice_agen.Prelude.{
  ℕ, zero, suc, ◌+◌, ◌-◌, ◌*◌, ◌%◌, ◌^◌, min, Bool, true, false, not, ◌&&◌, ◌||◌, Option, none,
  some, List, [], ◌∷◌, ◌++◌, ltb, ◌==◌, if◌then◌else◌, length, take, drop,
}

-- g_face_engine_pid and g_face_uds_fd, `none` where they are not above 0 or below 0, and the bytes that
-- the engine has sent over the connection and that are not read yet.
pub record Engine : Type 0 where
  pub pid : Option ℕ
  pub fd : Option ℕ
  pub inbox : List ℕ

pub data EngineCall : Type 0 where
  close_fd : ℕ → EngineCall
  kill_and_wait : ℕ → EngineCall
  spawn : EngineCall
  connect : EngineCall

-- The loop of zh_uds_read_line and zh_uds_send_cmd over the bytes that come, with room for some more:
-- what is kept and what is left unread.
unfoldable pub read_bytes : ℕ → List ℕ → List ℕ × List ℕ
read_bytes room [] = ([], [])
read_bytes room (c ∷ cs) =
    let r = read_bytes (room - 1) cs in
    if c == b'\n' then ([], cs) else if room == 0 then r else (c ∷ r.0, r.1)

-- zh_uds_read_line into `out_len` bytes: whether it returns 0, the line, and what is left unread.
unfoldable pub uds_read_line : ℕ → List ℕ → Bool × List ℕ × List ℕ
unfolding read_bytes
uds_read_line out_len inbox =
    let r = read_bytes (out_len - 1) inbox in
    if out_len == 0 then (false, [], inbox) else (not (length r.0 == 0), r.0, r.1)

-- zh_uds_send_cmd: whether both writes are complete, and what the engine answers to the command.
unfoldable pub uds_send_cmd : Bool → List ℕ → ℕ → List ℕ → Bool × List ℕ × List ℕ
unfolding uds_read_line
uds_send_cmd written answer out_len inbox =
    if out_len == 0 || not written
    then (false, [], inbox)
    else uds_read_line out_len (inbox ++ answer)

-- zh_uds_read_exact of `len` bytes: `give` says how many bytes more than one each read delivers at
-- most. `none` for -1.
unfoldable pub read_exact : ℕ → (ℕ → ℕ) → ℕ → List ℕ → Option (List ℕ) × List ℕ
read_exact fuel give zero inbox = (some [], inbox)
read_exact zero give (suc n) inbox = (none, inbox)
read_exact (suc fuel) give (suc n) inbox =
    let k = min (suc (give 0)) (min (suc n) (length inbox)) in
    let rest = read_exact fuel (λ i. give (suc i)) (suc n - k) (drop k inbox) in
    if k == 0
    then (none, inbox)
    else (elim rest.0 [ none ↦ none | some bytes ↦ some (take k inbox ++ bytes) ], rest.1)

unfoldable pub uds_read_exact : (ℕ → ℕ) → ℕ → List ℕ → Option (List ℕ) × List ℕ
unfolding read_exact
uds_read_exact give len inbox = read_exact len give len inbox

-- zh_face_cleanup_engine_locked
unfoldable pub cleanup_engine : Engine → Engine × List EngineCall
cleanup_engine e = (
  record { pid = none; fd = none; inbox = [] },
  elim e.fd [ none ↦ [] | some fd ↦ close_fd fd ∷ [] ]
      ++ (elim e.pid [ none ↦ [] | some pid ↦ kill_and_wait pid ∷ [] ]),
)

-- The answers of fork and of zh_uds_connect, and what the engine sends on a new connection.
pub record Starts : Type 0 where
  pub forked : Option ℕ
  pub connected : Option ℕ
  pub greeting : List ℕ

-- The part of zh_face_prepare_engine_locked from the connection on.
unfoldable pub connect_engine : Starts → Engine → Engine × Bool × List EngineCall
unfolding uds_read_line
connect_engine s e = elim e.fd [
  | some fd ↦ (e, true, [])
  | none ↦ elim s.connected [
    | none ↦ (e, false, connect ∷ [])
    | some fd ↦
        (record e { fd = some fd; inbox = (uds_read_line 256 s.greeting).2 }, true, connect ∷ [])
  ]
]

-- zh_face_prepare_engine_locked: whether it returns 0.
unfoldable pub prepare_engine : Starts → Engine → Engine × Bool × List EngineCall
unfolding connect_engine
prepare_engine s e = elim e.pid [
  | some pid ↦ connect_engine s e
  | none ↦ elim s.forked [
    | none ↦ (e, false, spawn ∷ [])
    | some pid ↦ let r = connect_engine s (record e { pid = some pid }) in (r.0, r.1, spawn ∷ r.2)
  ]
]

-- `$.size` of the header: missing, not above 0 or no number; with a fraction; or whole.
pub data PhotoSize : Type 0 where
  no_size : PhotoSize
  fractional : PhotoSize
  whole : ℕ → PhotoSize

-- What the JSON reader finds in the header of a photo.
pub record Header : Type 0 where
  pub answer_ok : Bool
  pub size : PhotoSize
  pub width : Option ℤ
  pub height : Option ℤ
  pub quality : Option ℤ
  pub message : Option (List ℕ)

pub record Photo : Type 0 where
  pub jpeg : List ℕ
  pub cap_w : ℤ
  pub cap_h : ℤ
  pub cap_q : ℤ

-- What zh_capture_photo_bin_locked leaves: `photo` is `none` for -1, `err` is the string in `err_buf`,
-- empty where it is left alone.
pub record Captured : Type 0 where
  pub engine : Engine
  pub photo : Option Photo
  pub err : List ℕ

-- The answers while a photo is taken: whether the command is written, what the engine answers, malloc,
-- and how the bytes come.
pub record Shot : Type 0 where
  pub written : Bool
  pub answer : List ℕ
  pub alloc : Bool
  pub give : ℕ → ℕ

abbrev pub or_zero : Option ℤ → ℤ
or_zero none = pos 0
or_zero (some z) = z

abbrev pub max_photo : ℕ
max_photo = 10 * 1024 * 1024

-- The end of zh_capture_photo_bin_locked, for a photo of `size` bytes.
unfoldable pub receive_photo : ℕ → Shot → Header → Engine → Captured
unfolding uds_read_exact
receive_photo size shot h e =
    let got = uds_read_exact shot.give size e.inbox in
    if ltb max_photo size
    then record { engine = e; photo = none; err = codes "size_out_of_range" }
    else if not shot.alloc
    then record { engine = e; photo = none; err = codes "malloc_failed" }
    else record {
      engine = record e { inbox = got.1 };
      photo = elim got.0 [
        | none ↦ none
        | some bytes ↦ some (record {
          jpeg = bytes;
          cap_w = or_zero h.width;
          cap_h = or_zero h.height;
          cap_q = or_zero h.quality;
        })
      ];
      err = elim got.0 [ none ↦ codes "read_jpeg_failed" | some bytes ↦ [] ];
    }

-- What zh_capture_photo_bin_locked does with a header.
unfoldable pub take_photo : Shot → Header → Engine → Captured
unfolding receive_photo
take_photo shot h e =
    if not h.answer_ok
    then record {
      engine = e;
      photo = none;
      err = elim h.message [ none ↦ codes "capture_failed" | some m ↦ copy_str 128 m ];
    }
    else elim h.size [
      | no_size ↦ record { engine = e; photo = none; err = codes "invalid_size" }
      | fractional ↦ record { engine = e; photo = none; err = codes "size_out_of_range" }
      | whole n ↦ receive_photo n shot h e
    ]

-- What zh_capture_photo_bin_locked does with the answer to its command, or without it if the engine is
-- not ready.
unfoldable pub take_answer :
    (List ℕ → Header) → Shot → Bool → Engine → Bool × List ℕ × List ℕ → Captured
unfolding take_photo
take_answer parse shot ready e r =
    let e' = record e { inbox = r.2 } in
    if not ready
    then record { engine = e; photo = none; err = [] }
    else if not r.0
    then record { engine = e'; photo = none; err = [] }
    else take_photo shot (parse r.1) e'

-- zh_capture_photo_bin_locked with an err_buf of 128 bytes. `parse` is the JSON reader.
unfoldable pub capture_photo : (List ℕ → Header) → Starts → Shot → Engine → Captured
unfolding prepare_engine uds_send_cmd take_answer
capture_photo parse s shot e =
    let p = prepare_engine s e in
    take_answer parse shot p.1 p.0 (uds_send_cmd shot.written shot.answer 1024 p.0.inbox)

-- The report of zh_ws_report_face, in 512 bytes: `ts_ms` is the time of the wall in milliseconds,
-- `datetime` the local time as text.
unfoldable pub report_json : List ℕ → ℕ → List ℕ → ℕ → List ℕ → List ℕ
report_json status status_code face_id ts_ms datetime = take 511 (
    codes "{\"face_recognition_result\":{\"status_code\":"
    ++ dec status_code
    ++ codes ",\"status\":\""
    ++ status
    ++ codes "\",\"face_id\":\""
    ++ json_escape 255 face_id
    ++ codes "\",\"timestamp\":"
    ++ dec ts_ms
    ++ codes ",\"datetime\":\""
    ++ datetime
    ++ codes "\"}}")

-- zh_ws_report_face: whether it returns 0, and the text that is sent. `there` says that there is a
-- session, `sent` is the answer of zh_ws_send_str.
unfoldable pub report_face : Bool → Bool → List ℕ → ℕ → List ℕ → ℕ → List ℕ → Bool × Option (List ℕ)
unfolding report_json
report_face there sent status status_code face_id ts_ms datetime =
    if there
    then (sent, some (report_json status status_code face_id ts_ms datetime))
    else (false, none)

-- zh_make_frame_id into `out_len` bytes: the frame id, and the number of the next.
unfoldable pub make_frame_id : ℕ → ℕ → ℕ → List ℕ × ℕ
make_frame_id out_len now seq = (
  copy_str out_len (codes "f_" ++ dec now ++ codes "_" ++ dec ((seq + 1) % 2 ^ 32)),
  (seq + 1) % 2 ^ 32,
)
