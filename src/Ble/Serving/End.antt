-- ===== src/Ble/Serving/End.antt =====
-- When the process of ble_sdk/btgatt-server.c ends.
use rockchip_1106_voice_agen.Ble.Json.{parse_wifi_credential}
use rockchip_1106_voice_agen.Ble.Wpa.{run_wifi_connect_flow}
use rockchip_1106_voice_agen.Ble.Server.{Env, Server, handle_wifi_cmd}
use rockchip_1106_voice_agen.Ble.Server.Laws.{handle-wait}
use rockchip_1106_voice_agen.Ble.Serving.{
  Process, Heard, command, disconnected, signalled, hear, run_session, new_session, Round,
  not_accepted, not_created, session, serve,
}
use rockchip_1106_voice_agen.Prelude.{
  ℕ, ◌≡◌, refl, ap, ◌∙◌, ◌≢◌, inl, inr, Bool, true, false, not, ◌||◌, none, List, [], ◌∷◌, ◌++◌,
  arith, if◌then◌else◌, take, Option-cases, Bool-cases,
}

-- The process says that it has provisioned only while the server waits for the disconnection.
abbrev pub is_earned : Process → Bool
is_earned p = not p.provision_done || p.server.wait_disconnect

handle-still_waits :
    (env : Env) (s : Server) (cmd : ℕ) (payload : List ℕ)
    → s.wait_disconnect ≡ true
    → (handle_wifi_cmd env s cmd payload).wait_disconnect ≡ true
handle-still_waits env s cmd payload w =
    rw (handle-wait env s cmd payload)
      (elim (Option-cases (parse_wifi_credential (take 511 payload) 64 80)) [
        | inl e ↦ rw e (ground arith)
        | inr (c, e) ↦ rw e (ground arith)
      ])

hear-earned : (h : Heard) (p : Process) → is_earned p ≡ true → is_earned (hear h p) ≡ true
unfolding hear
hear-earned (command env cmd payload) p e = elim (Bool-cases p.server.wait_disconnect) [
  | inl w ↦ ground (arith, handle-still_waits env p.server cmd payload w)
  | inr w ↦ ground arith
]
hear-earned disconnected p e = ground arith
hear-earned signalled p e = e

run_session-earned :
    (hs : List Heard) (p : Process) → is_earned p ≡ true → is_earned (run_session hs p) ≡ true
unfolding run_session
run_session-earned [] p e = e
run_session-earned (h ∷ hs) p e =
    ground (arith, run_session-earned hs (hear h p) (hear-earned h p e))

-- A process that has returned was asked to, or has provisioned.
abbrev pub has_cause : Process × Bool → Bool
has_cause r = not r.1 || r.0.stop_requested || r.0.provision_done

-- However the connections come and go, the process returns only when it is told to stop or when a
-- provisioning is done, and a provisioning is done only if a command has brought the link up.
pub serve-has_cause :
    (rs : List Round) (p : Process)
    → is_earned p ≡ true
    → (is_earned (serve rs p).0 ≡ true) × (has_cause (serve rs p) ≡ true)
unfolding serve new_session
serve-has_cause [] p e = ground arith
serve-has_cause (not_accepted ∷ rs) p e = ground (arith, serve-has_cause rs p e)
serve-has_cause (not_created ∷ rs) p e = ground (arith, serve-has_cause rs p e)
serve-has_cause (session hs ∷ rs) p e =
    let q = run_session hs (new_session p) in
    let k = run_session-earned hs (new_session p) (unfold new_session in e) in
    let rest = serve-has_cause rs q k in ground (arith, k, rest)

-- Commands that a session hears, each with the answers while it is handled.
abbrev pub commands : List (Env × ℕ × List ℕ) → List Heard
commands [] = []
commands ((env, cmd, payload) ∷ cs) = command env cmd payload ∷ commands cs

run_session-step :
    (h : Heard) (hs : List Heard) (p : Process)
    → p.has_quit ≡ false
    → run_session (h ∷ hs) p ≡ run_session hs (hear h p)
unfolding run_session
run_session-step h hs p n = ap (λ b. if b then p else run_session hs (hear h p)) n

-- A session in which only commands are heard goes on, and the server waits if it did before.
abbrev Runs : Process → Process → Type 0
Runs p q =
    (q.has_quit ≡ false)
    × (q.stop_requested ≡ p.stop_requested)
    × ((p.server.wait_disconnect ≡ true) → q.server.wait_disconnect ≡ true)

commands-Runs :
    (cs : List (Env × ℕ × List ℕ)) (hs : List Heard) (p : Process)
    → p.has_quit ≡ false
    → (q : Process) × (run_session (commands cs ++ hs) p ≡ run_session hs q) × Runs p q
commands-Runs [] hs p n = (p, refl, (n, refl, λ w. w))
commands-Runs ((env, cmd, payload) ∷ cs) hs p n =
    let heard = hear (command env cmd payload) p in
    let rest = commands-Runs cs hs heard (unfold hear in n) in
    let still = handle-still_waits env p.server cmd payload in
    (
      rest.0,
      run_session-step (command env cmd payload) (commands cs ++ hs) p n ∙ rest.1,
      (rest.2.0, rest.2.1 ∙ unfold hear in refl, λ w. rest.2.2 (unfold hear in still w)),
    )

-- A command with a credential that can be read, whose attempt brings the link up.
abbrev pub Connects : Env → List ℕ → Type 0
Connects env payload =
    (parse_wifi_credential (take 511 payload) 64 80 ≢ none)
    × (run_wifi_connect_flow env.attempt ≡ 0)

handle-Connects :
    (env : Env) (s : Server) (payload : List ℕ)
    → Connects env payload
    → (handle_wifi_cmd env s 0x1001 payload).wait_disconnect ≡ true
handle-Connects env s payload (read, up) =
    rw (handle-wait env s 0x1001 payload)
      (elim (Option-cases (parse_wifi_credential (take 511 payload) 64 80)) [
        | inl e ↦ absurd (read e)
        | inr (c, e) ↦ rw (e, up) refl
      ])

-- The session up to the disconnection.
abbrev pub provisioning :
    List (Env × ℕ × List ℕ) → Env → List ℕ → List (Env × ℕ × List ℕ) → List Heard → List Heard
provisioning before env payload after later =
    commands before ++ (command env 0x1001 payload ∷ (commands after ++ (disconnected ∷ later)))

run_session-quit : (hs : List Heard) (p : Process) → p.has_quit ≡ true → run_session hs p ≡ p
unfolding run_session
run_session-quit [] p q = refl
run_session-quit (h ∷ hs) p q = ap (λ b. if b then p else run_session hs (hear h p)) q

-- What the session leaves.
run_session-provisioned :
    (before after : List (Env × ℕ × List ℕ)) (env : Env) (payload : List ℕ) (later : List Heard)
    (p : Process)
    → Connects env payload
    → p.has_quit ≡ false
    → let q = run_session (provisioning before env payload after later) p in
      (q.provision_done ≡ true) × (q.has_quit ≡ true)
run_session-provisioned before after env payload later p c n =
    let b =
      commands-Runs before (command env 0x1001 payload ∷ (commands after ++ (disconnected ∷ later)))
        p n in
    let heard = hear (command env 0x1001 payload) b.0 in
    let a = commands-Runs after (disconnected ∷ later) heard (unfold hear in b.2.0) in
    let w = a.2.2 (unfold hear in handle-Connects env b.0.server payload c) in
    let e =
      b.1
      ∙ run_session-step (command env 0x1001 payload) (commands after ++ (disconnected ∷ later)) b.0
          b.2.0
      ∙ a.1
      ∙ run_session-step disconnected later a.0 a.2.0
      ∙ run_session-quit later (hear disconnected a.0) (unfold hear in refl) in
    rw e (unfold hear in (ground arith, refl))

-- Once a session has heard a credential whose link comes up, whatever commands come before and after
-- it, the disconnection of the app ends the session and the process, which has provisioned.
pub serve-provisions :
    (before after : List (Env × ℕ × List ℕ)) (env : Env) (payload : List ℕ) (later : List Heard)
    (rs : List Round) (p : Process)
    → Connects env payload
    → p.stop_requested ≡ false
    → let r = serve (session (provisioning before env payload after later) ∷ rs) p in
      (r.1 ≡ true) × (r.0.provision_done ≡ true)
unfolding serve
serve-provisions before after env payload later rs p c running =
    let start = new_session p in
    let q =
      run_session-provisioned before after env payload later start c (unfold new_session in refl) in
    (ground (arith, q), ground (arith, q))
