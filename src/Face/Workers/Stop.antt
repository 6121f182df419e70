-- ===== src/Face/Workers/Stop.antt =====
-- The flags of the threads of src/face_recognition.c, and what the threads do once told to stop.
use rockchip_1106_voice_agen.Face.Workers.{
  Workers, Chore, compare_faces, capture_frame, upload_frame, recognition_start, tell_to_stop,
  recognition_stop, set_active, set_ws, FacePc, waiting, preparing, comparing, in_compare, leaving,
  face_gone, Luck, face_step, face_run, CapturePc, capturing, taking, uploading, resting,
  capture_gone, capture_step, capture_run,
}
use rockchip_1106_voice_agen.Prelude.{
  ℕ, ◌+◌, ◌≤◌, ◌≡◌, refl, Bool, true, false, not, ◌&&◌, List, [], ◌∷◌, arith, if◌then◌else◌,
}

-- A call of an entry point.
pub data Order : Type 0 where
  start : Bool → Bool → Order
  stop : Order
  activate : Bool → Order
  connect : Bool → Order

unfoldable pub obey : Order → Workers → Workers
obey (start created capture_created) w = (recognition_start created capture_created w).0
obey stop w = (recognition_stop w).0
obey (activate active) w = (set_active active w).0
obey (connect there) w = set_ws there w

unfoldable pub obey_all : List Order → Workers → Workers
unfolding obey
obey_all [] w = w
obey_all (o ∷ os) w = obey_all os (obey o w)

-- Nothing is started.
abbrev pub idle_workers : Workers
idle_workers = record {
  face_running = false;
  face_active = false;
  thread_started = false;
  capture_running = false;
  capture_thread_started = false;
  face_ws = false;
}

-- Each flag that a thread runs by says that the thread is there, and there is no capture without
-- comparison.
abbrev pub Matched : Workers → Type 0
Matched w =
    (w.face_running ≡ w.thread_started)
    × (w.capture_running ≡ w.capture_thread_started)
    × (w.capture_thread_started && not w.thread_started ≡ false)

obey-Matched : (o : Order) (w : Workers) → Matched w → Matched (obey o w)
unfolding obey recognition_start recognition_stop tell_to_stop set_active set_ws
obey-Matched (start created capture_created) w m = ground arith
obey-Matched stop w m = ground arith
obey-Matched (activate active) w m = m
obey-Matched (connect there) w m = m

obey_all-Matched : (os : List Order) (w : Workers) → Matched w → Matched (obey_all os w)
unfolding obey_all
obey_all-Matched [] w m = m
obey_all-Matched (o ∷ os) w m = obey_all-Matched os (obey o w) (obey-Matched o w m)

-- Whatever entry points are called, each thread is told to run exactly if it has been started and not
-- been stopped, and the capture runs only beside the comparison.
pub workers-Matched : (os : List Order) → Matched (obey_all os idle_workers)
workers-Matched os = obey_all-Matched os idle_workers (refl, refl, refl)

-- What the threads do for the user.
abbrev pub is_work : Chore → Bool
is_work compare_faces = true
is_work capture_frame = true
is_work upload_frame = true
is_work _ = false

-- How often.
abbrev pub work_count : List Chore → ℕ
work_count [] = 0
work_count (c ∷ cs) = (if is_work c then 1 else 0) + work_count cs

-- The work that a thread has already decided to do.
abbrev pub face_due : FacePc → ℕ
face_due in_compare = 1
face_due _ = 0

abbrev pub capture_due : CapturePc → ℕ
capture_due taking = 2
capture_due uploading = 1
capture_due _ = 0

-- Four steps of a thread that is told to stop, with what the detector sets g_face_active to.
abbrev pub told_turns : Workers → (ℕ → Luck × Bool) → List (Luck × Workers)
told_turns w luck =
    let turn : ℕ → Luck × Workers = λ n. ((luck n).0, (set_active (luck n).1 (tell_to_stop w)).0) in
    turn 0 ∷ turn 1 ∷ turn 2 ∷ turn 3 ∷ []

face_ends :
    (w : Workers) (luck : ℕ → Luck × Bool) (pc : FacePc)
    → let face = face_run (told_turns w luck) pc in
      (face.0 ≡ face_gone) × (work_count face.1 ≡ face_due pc)
unfolding tell_to_stop set_active face_step face_run
face_ends w luck waiting = ground arith
face_ends w luck preparing = ground arith
face_ends w luck comparing = ground arith
face_ends w luck in_compare = ground arith
face_ends w luck leaving = ground arith
face_ends w luck face_gone = ground arith

capture_ends :
    (w : Workers) (luck : ℕ → Luck × Bool) (pc : CapturePc)
    → let capture = capture_run (told_turns w luck) pc in
      (capture.0 ≡ capture_gone) × (work_count capture.1 ≤ capture_due pc)
unfolding tell_to_stop set_active capture_step capture_run
capture_ends w luck capturing = ground arith
capture_ends w luck taking = ground arith
capture_ends w luck uploading = ground arith
capture_ends w luck resting = ground arith
capture_ends w luck capture_gone = ground arith

-- Once the threads are told to stop, each is gone after four of its steps, from every place in its
-- loop, even if the detector sets the faces active again in between. A thread at the head of a loop
-- compares, takes and uploads nothing any more; one that is behind its test of the flags ends its
-- comparison, or its photo and the upload of that, and nothing else. A step in which a call of the
-- engine or of the server does not return does not end.
pub recognition_stop-ends :
    (w : Workers) (pc : FacePc) (capture_pc : CapturePc) (luck : ℕ → Luck × Bool)
    → let face = face_run (told_turns w luck) pc in
      let capture = capture_run (told_turns w luck) capture_pc in
      (face.0 ≡ face_gone)
      × (work_count face.1 ≡ face_due pc)
      × (capture.0 ≡ capture_gone)
      × (work_count capture.1 ≤ capture_due capture_pc)
recognition_stop-ends w pc capture_pc luck =
    let face = face_ends w luck pc in
    let capture = capture_ends w luck capture_pc in (face.0, face.1, capture.0, capture.1)
