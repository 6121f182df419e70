-- ===== src/Tests/Device.antt =====
-- Runs of the application (src/app.c), of the prompt tones (src/prompt_tone.c), and of
-- enrolment (src/face_recognition.c).
use rockchip_1106_voice_agen.Prelude.Int.{pos}
use rockchip_1106_voice_agen.Text.{codes, str_eq}
use rockchip_1106_voice_agen.App.{AppCall, Replies, app_run}
use rockchip_1106_voice_agen.App.Sessions.{allow_all, closed, app_run-orderly}
use rockchip_1106_voice_agen.Device.Prompt.{
  net_connected, net_disconnected, Asked, lost_times, AreApart, tone_play-apart,
}
use rockchip_1106_voice_agen.Face.Match.{find_entry}
use rockchip_1106_voice_agen.Face.Enroll.{
  OldEntry, Row, row_text, upsert_index, EngineReply, report_of, enroll_on_recog, enroll_on_owner,
}
use rockchip_1106_voice_agen.Face.Enroll.Index.{
  kept, join, cut_text, OtherNames, OtherPaths, as_entry, upsert_index-lem,
}
use rockchip_1106_voice_agen.Face.Enroll.Laws.{Answered, owned, enroll-uses_last}
use rockchip_1106_voice_agen.Prelude.{
  ℕ, ◌≡◌, ap, get_or, ◌⊎◌, Bool, true, false, none, some, List, [], ◌∷◌, ◌++◌, map, arith,
}

abbrev good : Replies
good = record {
  bound = true;
  checked = true;
  uplink_started = true;
  connected = true;
  authenticated = true;
}

abbrev answers : List Replies
answers =
    record good { authenticated = false }
    ∷ good
    ∷ record good { bound = false }
    ∷ record good { connected = false }
    ∷ []

app_run-orderly_example :
    (calls : List AppCall) × (returned uplink voice : Bool) × (app_run 0
        (codes "id")
        (codes "key")
        answers
      ≡ some (calls, returned))
    × (allow_all calls (closed false false) ≡ some (closed uplink voice))
app_run-orderly_example = app_run-orderly 0 (codes "id") (codes "key") answers (λ e. cc) (λ e. cc)

abbrev asks : List Asked
asks =
    record { tone = net_disconnected; started = true; now = 1000 }
    ∷ record { tone = net_disconnected; started = true; now = 3000 }
    ∷ record { tone = net_connected; started = true; now = 4000 }
    ∷ record { tone = net_disconnected; started = true; now = 6500 }
    ∷ []

tone_play-apart_example :
    AreApart 0 (lost_times asks (record { inited = false; last_disconnected_ms = 0 }))
tone_play-apart_example = tone_play-apart asks (
    (
      omega arith,
      omega arith,
      omega arith,
      (
        omega arith,
        omega arith,
        omega arith,
        (omega arith, omega arith, omega arith, (omega arith, omega arith, omega arith, tt)),
      ),
    ))

abbrev old : List OldEntry
old =
    record {
      old_name = some (codes "ann");
      old_id = some (codes "1");
      old_path = some (codes "a");
      old_ts = some (pos 5);
    }
    ∷ record { old_name = none; old_id = none; old_path = none; old_ts = none }
    ∷ record {
      old_name = some (codes "bob");
      old_id = some (codes "2");
      old_path = some (codes "b");
      old_ts = some (pos 6);
    }
    ∷ []

abbrev bob : Row
bob = record { row_id = codes "3"; row_name = codes "bob"; row_path = codes "c"; row_ts = pos 7 }

other_path : OtherPaths bob.row_path (kept bob.row_name old)
unfolding kept str_eq
other_path = ((λ e. absurd (omega (arith, ap (λ l. get_or l 0 0) e))), tt)

upsert_index-lem_example :
    let rows = kept bob.row_name old in
    (upsert_index (some old) bob
      ≡ b'[' ∷ (join (map cut_text rows ++ (row_text bob ∷ [])) ++ codes "]\n"))
    × (upsert_index none bob ≡ b'[' ∷ (row_text bob ++ codes "]\n"))
    × OtherNames bob.row_name rows
    × (find_entry bob.row_path (map as_entry (rows ++ (bob ∷ []))) ≡ some bob.row_name)
upsert_index-lem_example = upsert_index-lem old bob other_path

abbrev reply : EngineReply ℕ
reply = record { answer_ok = true; emb = some 42; message = none }

enroll-uses_last_example :
    let recog = enroll_on_recog (some reply) in
    let owner =
      enroll_on_owner 4 true
        (some old)
        true
        1000
        (pos 1)
        (codes "bob")
        recog.0
        (record { items = []; pos = 0 }) in
    ((recog.1 ≡ false) × (owner ≡ (record { items = []; pos = 0 }, report_of false ∷ [], false)))
    ⊎ ((e : ℕ) × (recog.1 ≡ true)
        × Answered (some reply) e
        × (owner
            ≡ owned 4 true
                (some old)
                true
                1000
                (pos 1)
                (codes "bob")
                e
                (record { items = []; pos = 0 })))
enroll-uses_last_example =
    enroll-uses_last (some reply) 4 true (some old) true 1000 (pos 1) (codes "bob")
      (record { items = []; pos = 0 }) (λ e. cc)
