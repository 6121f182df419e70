-- ===== src/Audio/Preroll.antt =====
-- The preroll of the uplink thread, src/audio_uplink.c: the ring `preroll`, `preroll_pos` and
-- `preroll_full`, and the flush at the start of a segment.
pub mod Laws
use rockchip_1106_voice_agen.Prelude.{
  ℕ, zero, suc, ◌+◌, ◌-◌, ◌*◌, ◌/◌, ◌%◌, ◌^◌, ◌≤◌, ◌<◌, min, ◌≡◌, refl, sym, ap, ◌∙◌, ◌≢◌, ◌↔◌, ◌⊎◌,
  inl, inr, Bool, true, false, not, ◌&&◌, ◌||◌, Option, none, some, List, [], ◌∷◌, ◌++◌, map, arith,
  ltb, leb, ◌==◌, if◌then◌else◌, ltb→lt, lt→ltb, leb→le, ==_iff, Bool-cases, Option-cases, length,
  get_elem?, set, get_or, take, drop, replicate, length-append, length-set, length-take,
  length-drop, length-replicate, take-append-drop, take-length_append, drop-length_append,
  get_or-append_left, get_or-append_right, take-all, get_elem?-set_self, get_elem?-set_ne,
}

-- A frame is of any type here: the ring only moves frames.
pub record Preroll (F : Type 0) : Type 0 where
  pub preroll : List F
  pub preroll_pos : ℕ
  pub preroll_full : Bool

-- What follows an action that said whether it went well.
abbrev pub and_then : {S : Type 0} → S × Bool → (S → S × Bool) → S × Bool
and_then (s, true) k = k s
and_then (s, false) k = (s, false)

module _ {F : Type 0} where
  -- The reset when the recognition of the round is complete: the frames stay where they are.
  unfoldable pub restart : Preroll F → Preroll F
  restart p = record p { preroll_pos = 0; preroll_full = false }

  -- The copy of a frame into the ring of `frames` slots, ZH_VAD_PREROLL_FRAMES.
  unfoldable pub remember : ℕ → F → Preroll F → Preroll F
  remember frames f p =
      let next = (p.preroll_pos + 1) % frames in
      record {
        preroll = set p.preroll p.preroll_pos f;
        preroll_pos = next;
        preroll_full = if next == 0 then true else p.preroll_full;
      }

  -- A loop of zh_audio_uplink_flush_preroll over `count` slots from slot `i`. It says whether every
  -- frame was submitted, and stops at the first that was not.
  unfoldable pub submit_slots : {S : Type 0} → (F → S → S × Bool) → List F → ℕ → ℕ → S → S × Bool
  submit_slots submit ring i zero s = (s, true)
  submit_slots submit ring i (suc count) s = elim (get_elem? ring i) [
    | none ↦ (s, false)
    | some f ↦ and_then (submit f s) (submit_slots submit ring (i + 1) count)
  ]

  -- zh_audio_uplink_flush_preroll
  unfoldable pub flush_preroll : {S : Type 0} → (F → S → S × Bool) → ℕ → Preroll F → S → S × Bool
  unfolding submit_slots
  flush_preroll submit frames p s =
      if p.preroll_full
      then and_then (submit_slots submit p.preroll p.preroll_pos (frames - p.preroll_pos) s)
          (submit_slots submit p.preroll 0 p.preroll_pos)
      else submit_slots submit p.preroll 0 p.preroll_pos s
