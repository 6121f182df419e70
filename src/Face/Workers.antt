-- ===== src/Face/Workers.antt =====
-- The two threads of src/face_recognition.c: the flags under g_face_mutex, the entry points that set
-- them, and the loops that look at them.
pub mod Stop
use rockchip_1106_voice_agen.Prelude.{
  ℕ, ◌-◌, Bool, true, false, not, ◌&&◌, ◌||◌, List, [], ◌∷◌, ◌++◌, ltb, if◌then◌else◌,
}

-- g_face_running to g_face_capture_thread_started, and whether g_face_ws is not NULL.
pub record Workers : Type 0 where
  pub face_running : Bool
  pub face_active : Bool
  pub thread_started : Bool
  pub capture_running : Bool
  pub capture_thread_started : Bool
  pub face_ws : Bool

-- What the entry points and the threads ask for.
pub data Chore : Type 0 where
  wake_threads : Chore  -- pthread_cond_broadcast
  join_face : Chore
  join_capture : Chore
  cleanup : Chore
  prepare : Chore
  compare_faces : Chore
  rest_for : ℕ → Chore  -- usleep, in milliseconds
  capture_frame : Chore
  upload_frame : Chore

-- zh_face_recognition_start, with the answers of the two pthread_create: whether it returns 0.
unfoldable pub recognition_start : Bool → Bool → Workers → Workers × Bool
recognition_start created capture_created w =
    if w.thread_started
    then (w, true)
    else if not created
    then (record w { face_running = false }, false)
    else (
      record w {
        face_running = true;
        thread_started = true;
        capture_running = capture_created;
        capture_thread_started = if capture_created then true else w.capture_thread_started;
      },
      true,
    )

-- The flags that zh_face_recognition_stop sets before it waits for the threads.
unfoldable pub tell_to_stop : Workers → Workers
tell_to_stop w = record w { face_running = false; face_active = false; capture_running = false }

-- zh_face_recognition_stop
unfoldable pub recognition_stop : Workers → Workers × List Chore
unfolding tell_to_stop
recognition_stop w = if not w.thread_started then (w, []) else (
  record (tell_to_stop w) { thread_started = false; capture_thread_started = false },
  if w.capture_thread_started
      then wake_threads ∷ join_face ∷ join_capture ∷ cleanup ∷ []
      else wake_threads ∷ join_face ∷ cleanup ∷ [],
)

-- zh_face_recognition_set_active
unfoldable pub set_active : Bool → Workers → Workers × List Chore
set_active active w = (record w { face_active = active }, if active then wake_threads ∷ [] else [])

-- zh_face_recognition_set_ws
unfoldable pub set_ws : Bool → Workers → Workers
set_ws there w = record w { face_ws = there }

-- Where the thread that compares is: at the head of its loop, before zh_face_prepare_engine, at the
-- head of the inner loop, before zh_face_do_compare_and_report, behind the loop, or gone.
pub data FacePc : Type 0 where
  waiting : FacePc
  preparing : FacePc
  comparing : FacePc
  in_compare : FacePc
  leaving : FacePc
  face_gone : FacePc

-- The answers while a thread goes on: whether the engine is ready, whether the comparison and the
-- capture return 0, and how many milliseconds the comparison took.
pub record Luck : Type 0 where
  pub prepared : Bool
  pub compared : Bool
  pub captured : Bool
  pub cost_ms : ℕ

-- One step of zh_face_thread_main: a look at the flags, or a call up to its return. The thread sleeps
-- at the head of its loop while there is nothing to do.
unfoldable pub face_step : Luck → Workers → FacePc → FacePc × List Chore
face_step l w waiting =
    if not w.face_active && w.face_running
    then (waiting, [])
    else if not w.face_running
    then (leaving, [])
    else (preparing, [])
face_step l w preparing =
    if l.prepared then (comparing, prepare ∷ []) else (waiting, prepare ∷ rest_for 200 ∷ [])
face_step l w comparing =
    if not w.face_active || not w.face_running then (waiting, []) else (in_compare, [])
face_step l w in_compare =
    let rest : List Chore = if ltb l.cost_ms 400 then rest_for (400 - l.cost_ms) ∷ [] else [] in
    (comparing, compare_faces ∷ (if l.compared then rest else cleanup ∷ rest))
face_step l w leaving = (face_gone, cleanup ∷ [])
face_step l w face_gone = (face_gone, [])

-- Where the thread that takes pictures is: at the head of its loop, before the photo, before
-- zh_face_upload_one_frame, at the end of the round, or gone.
pub data CapturePc : Type 0 where
  capturing : CapturePc
  taking : CapturePc
  uploading : CapturePc
  resting : CapturePc
  capture_gone : CapturePc

-- One step of zh_face_capture_thread_main, which sleeps at the head of its loop while the camera is
-- not wanted.
unfoldable pub capture_step : Luck → Workers → CapturePc → CapturePc × List Chore
capture_step l w capturing =
    if not w.capture_running
    then (capture_gone, [])
    else if not w.face_active
    then (capturing, [])
    else (taking, [])
capture_step l w taking = (if l.captured then uploading else resting, capture_frame ∷ [])
capture_step l w uploading = (resting, upload_frame ∷ [])
capture_step l w resting =
    (capturing, if w.capture_running && w.face_active then rest_for 5000 ∷ [] else [])
capture_step l w capture_gone = (capture_gone, [])

-- Steps one after the other, each with the flags that it sees.
unfoldable pub face_run : List (Luck × Workers) → FacePc → FacePc × List Chore
unfolding face_step
face_run [] pc = (pc, [])
face_run ((l, w) ∷ turns) pc =
    let o = face_step l w pc in let rest = face_run turns o.0 in (rest.0, o.1 ++ rest.1)

unfoldable pub capture_run : List (Luck × Workers) → CapturePc → CapturePc × List Chore
unfolding capture_step
capture_run [] pc = (pc, [])
capture_run ((l, w) ∷ turns) pc =
    let o = capture_step l w pc in let rest = capture_run turns o.0 in (rest.0, o.1 ++ rest.1)
