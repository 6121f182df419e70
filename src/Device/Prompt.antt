-- ===== src/Device/Prompt.antt =====
-- The prompt tones, src/prompt_tone.c.
use rockchip_1106_voice_agen.Text.{codes}
use rockchip_1106_voice_agen.Tts.{sub_u64}
use rockchip_1106_voice_agen.Prelude.{
  ℕ, ◌+◌, ◌-◌, ◌^◌, ◌≤◌, ◌<◌, ◌≡◌, refl, sym, ◌⊎◌, inl, inr, Bool, true, false, not, ◌&&◌, Option,
  none, some, List, [], ◌∷◌, arith, ltb, ◌==◌, if◌then◌else◌, length, Bool-cases,
}

-- zh_prompt_tone_event_t
pub data Tone : Type 0 where
  boot : Tone
  provision : Tone
  net_connected : Tone
  net_disconnected : Tone
  unknown_tone : Tone

-- g_prompt_inited and g_last_disconnected_ms
pub record PromptState : Type 0 where
  pub inited : Bool
  pub last_disconnected_ms : ℕ  -- uint64_t

-- zh_prompt_tone_url with the URLs of config.h
unfoldable pub tone_url : Tone → List ℕ
tone_url boot = codes "/data/zh_work/prompt_mp3/boot.mp3"
tone_url provision = codes "/data/zh_work/prompt_mp3/provision.mp3"
tone_url net_connected = codes "/data/zh_work/prompt_mp3/net_connect.mp3"
tone_url net_disconnected = codes "/data/zh_work/prompt_mp3/net_disconnect.mp3"
tone_url unknown_tone = []

-- zh_prompt_tone_init with the answer of zh_music_player_start: whether it returns 0.
unfoldable pub tone_init : Bool → PromptState → PromptState × Bool
tone_init started p = if p.inited then (p, true) else (record p { inited = started }, started)

-- The branch of a lost network: whether the tone is played.
unfoldable pub debounce : ℕ → PromptState → PromptState × Bool
debounce now p =
    if not (p.last_disconnected_ms == 0) && ltb (sub_u64 now p.last_disconnected_ms) 5000
    then (p, false)
    else (record p { last_disconnected_ms = now }, true)

-- zh_prompt_tone_play at the time `now`: the URL that is handed to the music player, if any.
unfoldable pub tone_play : Tone → Bool → ℕ → PromptState → PromptState × Option (List ℕ)
unfolding tone_url tone_init debounce
tone_play e started now p =
    let url = tone_url e in
    let i = tone_init started p in
    let d : PromptState × Bool = elim e [ net_disconnected ↦ debounce now i.0 | _ ↦ (i.0, true) ] in
    if length url == 0
    then (p, none)
    else if not i.1
    then (i.0, none)
    else (d.0, if d.1 then some url else none)

-- The calls in order, each with the answer of zh_music_player_start and the time: the times at
-- which the tone of a lost network is played.
pub record Asked : Type 0 where
  pub tone : Tone
  pub started : Bool
  pub now : ℕ

abbrev is_lost : Tone → Bool
is_lost net_disconnected = true
is_lost _ = false

abbrev if_played : Bool → ℕ → Option (List ℕ) → List ℕ → List ℕ
if_played lost now none rest = rest
if_played lost now (some url) rest = if lost then now ∷ rest else rest

pub lost_times : List Asked → PromptState → List ℕ
lost_times [] p = []
lost_times (a ∷ as') p =
    let r = tone_play a.tone a.started a.now p in
    if_played (is_lost a.tone) a.now r.1 (lost_times as' r.0)

-- The clock goes on, from a time after its start on.
abbrev pub IsOrdered : ℕ → List Asked → Type 0
IsOrdered low [] = Unit
IsOrdered low (a ∷ as') = (low ≤ a.now) × (0 < a.now) × (a.now < 2 ^ 64) × IsOrdered a.now as'

-- Each time is at least 5 seconds after the one before it, `last` if that is not 0.
abbrev pub AreApart : ℕ → List ℕ → Type 0
AreApart last [] = Unit
AreApart last (t ∷ ts) = ((last ≡ 0) ⊎ (last + 5000 ≤ t)) × AreApart t ts

sub_u64-le : (a b : ℕ) → b ≤ a → a < 2 ^ 64 → sub_u64 a b ≡ a - b
sub_u64-le a b h small = omega arith

-- A call that is not for a lost network leaves the time alone and adds none.
other_tone :
    (e : Tone) (started : Bool) (now : ℕ) (p : PromptState)
    → is_lost e ≡ false
    → (tone_play e started now p).0.last_disconnected_ms ≡ p.last_disconnected_ms
unfolding tone_play tone_init tone_url
other_tone boot started now p h = ground arith
other_tone provision started now p h = ground arith
other_tone net_connected started now p h = ground arith
other_tone net_disconnected started now p h = cc
other_tone unknown_tone started now p h = refl

-- A call for a lost network plays the tone and keeps the time, or does neither.
abbrev Lost : PromptState → ℕ → PromptState × Option (List ℕ) → Type 0
Lost p now (q, none) = q.last_disconnected_ms ≡ p.last_disconnected_ms
Lost p now (q, some url) =
    (q.last_disconnected_ms ≡ now)
    × ((p.last_disconnected_ms ≡ 0) ⊎ (p.last_disconnected_ms + 5000 ≤ now))

debounce-Lost :
    (started : Bool) (now : ℕ) (p : PromptState)
    → p.last_disconnected_ms ≤ now
    → now < 2 ^ 64
    → Lost p now (tone_play net_disconnected started now p)
unfolding tone_play tone_init tone_url debounce
debounce-Lost started now p h small = ground (arith, sub_u64-le now p.last_disconnected_ms h small)

tone_play-Lost :
    (e : Tone) (started : Bool) (now : ℕ) (p : PromptState)
    → is_lost e ≡ true
    → p.last_disconnected_ms ≤ now
    → now < 2 ^ 64
    → Lost p now (tone_play e started now p)
tone_play-Lost net_disconnected started now p l h small = debounce-Lost started now p h small
tone_play-Lost boot started now p l h small = cc
tone_play-Lost provision started now p l h small = cc
tone_play-Lost net_connected started now p l h small = cc
tone_play-Lost unknown_tone started now p l h small = cc

-- The times so far and a call for a lost network.
played_apart :
    (p : PromptState) (now : ℕ) (r : PromptState × Option (List ℕ)) (rest : List ℕ)
    → Lost p now r
    → AreApart r.0.last_disconnected_ms rest
    → AreApart p.last_disconnected_ms (if_played true now r.1 rest)
played_apart p now (q, none) rest l a = rw (sym l) a
played_apart p now (q, some url) rest l a = (l.1, rw (sym l.0) a)

played_low :
    (p : PromptState) (now : ℕ) (r : PromptState × Option (List ℕ))
    → p.last_disconnected_ms ≤ now
    → Lost p now r
    → r.0.last_disconnected_ms ≤ now
played_low p now (q, none) h l = omega (arith, l)
played_low p now (q, some url) h l = omega (arith, l.0)

other_apart :
    (last now : ℕ) (o : Option (List ℕ)) (rest : List ℕ)
    → AreApart last rest
    → AreApart last (if_played false now o rest)
other_apart last now none rest a = a
other_apart last now (some url) rest a = a

tone_play-apart_from :
    (low : ℕ) (asks : List Asked) (p : PromptState)
    → p.last_disconnected_ms ≤ low
    → IsOrdered low asks
    → AreApart p.last_disconnected_ms (lost_times asks p)
unfolding lost_times
tone_play-apart_from low [] p h o = tt
tone_play-apart_from low (a ∷ asks) p h (l, some_time, small, o) =
    let r = tone_play a.tone a.started a.now p in
    elim (Bool-cases (is_lost a.tone)) [
      | inl e ↦
          let lost = tone_play-Lost a.tone a.started a.now p e (omega arith) small in
          rw e (
            played_apart p a.now r (lost_times asks r.0) lost
              (tone_play-apart_from a.now asks r.0 (played_low p a.now r (omega arith) lost) o))
      | inr e ↦
          let same = other_tone a.tone a.started a.now p e in
          rw e (
            other_apart p.last_disconnected_ms a.now r.1 (lost_times asks r.0)
              (rw same at (tone_play-apart_from a.now asks r.0 (omega (arith, same)) o)))
    ]

-- However often the network is lost, by the errors and the closings of the connection, the tone of a
-- lost network is played at most once in 5 seconds, while the clock goes on from a time after 0.
pub tone_play-apart :
    (asks : List Asked)
    → IsOrdered 0 asks
    → AreApart 0 (lost_times asks (record { inited = false; last_disconnected_ms = 0 }))
tone_play-apart asks o =
    tone_play-apart_from 0 asks (record { inited = false; last_disconnected_ms = 0 }) (omega arith)
      o
