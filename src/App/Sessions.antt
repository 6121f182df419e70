-- ===== src/App/Sessions.antt =====
-- The sessions of src/app.c: in which order they use the other parts, and how many there are.
use rockchip_1106_voice_agen.App.{
  AppCall, uplink_start, ws_connect, wait_authenticated, tts_begin, uplink_set_ws, face_set_ws,
  run_loop, tts_end, ws_close, pause, Replies, start_audio, serve, run_session, app_loop, app_run,
}
use rockchip_1106_voice_agen.Prelude.{
  ℕ, ◌+◌, ◌≤◌, ◌≡◌, refl, ◌∙◌, ◌≢◌, ◌⊎◌, inl, inr, Bool, true, false, not, ◌&&◌, ◌||◌, Option, none,
  some, List, [], ◌∷◌, ◌++◌, arith, ltb, ◌==◌, if◌then◌else◌, length, Bool-cases, Option-cases,
}

-- What the calls leave of the session: whether it is open, and who has its handle; and whether the
-- voice is told to run and the uplink runs. The voice keeps its handle when it is told to stop.
pub record Open : Type 0 where
  pub session_open : Bool
  pub uplink_has : Bool
  pub face_has : Bool
  pub voice_has : Bool
  pub voice_told : Bool
  pub uplink_runs : Bool

-- One call, `none` where it may not be made: a handle is given out and the voice begun only while
-- the session is open, and the session is closed only when the uplink and the camera have no handle
-- and the voice is told to stop. The uplink is started only if it does not run.
abbrev pub allow : AppCall → Open → Option Open
allow (ws_connect there) o =
    if o.session_open then none else some (record o { session_open = there })
allow (uplink_start started) o =
    if o.uplink_runs then none else some (record o { uplink_runs = started })
allow (uplink_set_ws true) o =
    if o.session_open then some (record o { uplink_has = true }) else none
allow (face_set_ws true) o = if o.session_open then some (record o { face_has = true }) else none
allow (uplink_set_ws false) o = some (record o { uplink_has = false })
allow (face_set_ws false) o = some (record o { face_has = false })
allow tts_begin o =
    if o.session_open then some (record o { voice_has = true; voice_told = true }) else none
allow tts_end o = some (record o { voice_told = false })
allow run_loop o = if o.session_open then some o else none
allow wait_authenticated o = if o.session_open then some o else none
allow ws_close o =
    if o.session_open && not (o.uplink_has || o.face_has || o.voice_told)
    then some (record o { session_open = false })
    else none
allow _ o = some o

pub allow_all : List AppCall → Open → Option Open
allow_all [] o = some o
allow_all (c ∷ cs) o = elim (allow c o) [ none ↦ none | some o' ↦ allow_all cs o' ]

-- No session is open, and nobody uses one; the voice may still have the handle of one.
abbrev pub closed : Bool → Bool → Open
closed uplink voice = record {
  session_open = false;
  uplink_has = false;
  face_has = false;
  voice_has = voice;
  voice_told = false;
  uplink_runs = uplink;
}

allow_all-append :
    (cs ds : List AppCall) (o o' : Open)
    → allow_all cs o ≡ some o'
    → allow_all (cs ++ ds) o ≡ allow_all ds o'
unfolding allow_all
allow_all-append [] ds o o' h = ground arith
allow_all-append (c ∷ cs) ds o o' h = elim (Option-cases (allow c o)) [
  | inl e ↦ cc (rw (e, allow_all) at h)
  | inr (p, e) ↦ rw (e, allow_all) (allow_all-append cs ds p o' (rw (allow_all, e) at h))
]

allow_all-session :
    (r : Replies) (audio voice : Bool)
    → let s = run_session r audio in
      allow_all s.calls (closed audio voice)
      ≡ some (
          closed s.audio_started
            (voice || (r.bound && (r.checked && (r.connected && r.authenticated)))))
unfolding allow_all run_session start_audio serve
allow_all-session r true voice = ground arith
allow_all-session r false voice = ground arith

-- The calls may be made, and leave no session open or in use.
abbrev Orderly : List AppCall → Bool → Bool → Type 0
Orderly calls audio voice =
    (uplink voice' : Bool) × (allow_all calls (closed audio voice) ≡ some (closed uplink voice'))

pick-Orderly :
    (b e : Bool) (cs ds : List AppCall) (audio voice mid mid_voice : Bool)
    → allow_all cs (closed audio voice) ≡ some (closed mid mid_voice)
    → Orderly ds mid mid_voice
    → let l : List AppCall × Bool = if b then (cs, true) else (cs ++ (pause ∷ ds), e) in
      Orderly l.0 audio voice
pick-Orderly true e cs ds audio voice mid mid_voice h k = (mid, mid_voice, h)
pick-Orderly false e cs ds audio voice mid mid_voice h k = (
  k.0,
  k.1,
  allow_all-append cs (pause ∷ ds) (closed audio voice) (closed mid mid_voice) h
      ∙ unfold allow_all in k.2,
)

app_loop-Orderly :
    (max retries : ℕ) (audio voice : Bool) (rs : List Replies)
    → Orderly (app_loop max retries audio rs).0 audio voice
unfolding app_loop
app_loop-Orderly max retries audio voice [] = unfold allow_all in (audio, voice, refl)
app_loop-Orderly max retries audio voice (r ∷ rs) =
    let s = run_session r audio in
    let rest = app_loop max (retries + 1) s.audio_started rs in
    let voice' = voice || (r.bound && (r.checked && (r.connected && r.authenticated))) in
    pick-Orderly (not (max == 0) && ltb max (retries + 1)) rest.1 s.calls rest.0 audio voice
      s.audio_started voice' (allow_all-session r audio voice)
      (app_loop-Orderly max (retries + 1) s.audio_started voice' rs)

-- However the other parts answer, in every run of the application with an identity and a key: the
-- handle of a session is given to the uplink, the camera and the voice only while the session is open;
-- a session is opened only while none is open, and closed only when the uplink and the camera have no
-- handle and the voice has been told to stop; the uplink is started only if it does not run; and after
-- the last call no session is open, the uplink and the camera have no handle, and the voice is told
-- to stop. The voice keeps the handle that it was given, and its end is not waited for.
pub app_run-orderly :
    (max : ℕ) (device_id key : List ℕ) (rs : List Replies)
    → device_id ≢ []
    → key ≢ []
    → (calls : List AppCall) × (returned uplink voice : Bool) × (app_run max device_id key rs
        ≡ some (calls, returned))
      × (allow_all calls (closed false false) ≡ some (closed uplink voice))
unfolding app_run
app_run-orderly max [] key rs d k = absurd (d refl)
app_run-orderly max (c ∷ cs) [] rs d k = absurd (k refl)
app_run-orderly max (c ∷ cs) (b ∷ bs) rs d k =
    let l = app_loop max 0 false rs in
    let o = app_loop-Orderly max 0 false false rs in (l.0, l.1, o.0, o.1, ground arith, o.2)

pick_returns :
    (b : Bool) (cs ds : List AppCall) (e : Bool)
    → let l : List AppCall × Bool = if b then (cs, true) else (cs ++ (pause ∷ ds), e) in
      l.1 ≡ b || e
pick_returns true cs ds e = refl
pick_returns false cs ds e = refl

app_loop-returns :
    (max retries : ℕ) (audio : Bool) (rs : List Replies)
    → (max ≡ 0) ⊎ (retries ≤ max)
    → (app_loop max retries audio rs).1 ≡ not (max == 0) && ltb max (retries + length rs)
unfolding app_loop
app_loop-returns max retries audio [] h = ground arith
app_loop-returns max retries audio (r ∷ rs) h =
    let s = run_session r audio in
    let rest = app_loop max (retries + 1) s.audio_started rs in
    pick_returns (not (max == 0) && ltb max (retries + 1)) s.calls rest.0 rest.1
    ∙ (elim (Bool-cases (not (max == 0) && ltb max (retries + 1))) [
      | inl b ↦ ground arith
      | inr b ↦
          let ih = app_loop-returns max (retries + 1) s.audio_started rs (ground arith) in
          rw (b, ih) (ground arith)
    ])

-- With a limit on reconnections zh_app_run returns after the session that is one over it and not
-- before; with the limit 0 of config.h it never returns.
pub app_loop-limit :
    (max : ℕ) (rs : List Replies)
    → (app_loop max 0 false rs).1 ≡ not (max == 0) && ltb max (length rs)
app_loop-limit max rs =
    let e : 0 + length rs ≡ length rs = omega arith in
    rw e at (app_loop-returns max 0 false rs (inr (omega arith)))
