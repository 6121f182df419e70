-- ===== src/Music/Decoder/Buffer.antt =====
-- The buffer of zh_music_decoder_feed (src/music_player.c): its bounds, and what a feed leaves in it.
use rockchip_1106_voice_agen.Prelude.Int.{ℤ}
use rockchip_1106_voice_agen.Music.Decoder.{
  Decoder, Decoded, Sound, Turn, Verdict, fails, continues, starves, Fed, enlarge, wanted_cap,
  settle, feed_loop, decoder_feed,
}
use rockchip_1106_voice_agen.Music.Decoder.Taken.{Frames, Taken, feed_loop-Taken}
use rockchip_1106_voice_agen.Prelude.{
  ℕ, zero, suc, ◌+◌, ◌*◌, ◌≤◌, ◌<◌, ◌≡◌, refl, sym, ap, ◌≢◌, ◌⊎◌, inl, inr, Bool, true, false, not,
  ◌&&◌, Option, List, [], ◌∷◌, ◌++◌, arith, ltb, ◌==◌, if◌then◌else◌, length, length-append,
  Bool-cases, if_true, if_false, ltb→lt,
}

enlarge-reaches :
    (fuel new_cap need : ℕ) → 0 < new_cap → need ≤ new_cap + fuel → need ≤ enlarge fuel new_cap need
unfolding enlarge
enlarge-reaches zero c need p h = omega arith
enlarge-reaches (suc fuel) c need p h =
    ground (arith, enlarge-reaches fuel (c * 2) need (omega arith) (omega arith))

enlarge-small :
    (fuel new_cap need bound : ℕ)
    → new_cap ≤ bound
    → 2 * need ≤ bound
    → enlarge fuel new_cap need ≤ bound
unfolding enlarge
enlarge-small zero c need b p h = p
enlarge-small (suc fuel) c need b p h = elim (Bool-cases (ltb c need)) [
  | inl e ↦ ground (arith, enlarge-small fuel (c * 2) need b (ground arith) h)
  | inr e ↦ ground arith
]

and_false : (b : Bool) → (b && not true) ≡ false
and_false true = refl
and_false false = refl

-- The bytes in the buffer fit it.
abbrev pub IsSized : {D : Type 0} → Decoder D → Type 0
IsSized d = length d.bytes ≤ d.cap

wanted_cap-fits : (cap need : ℕ) → need ≤ wanted_cap cap need
unfolding wanted_cap
wanted_cap-fits cap need =
    enlarge-reaches need (if cap == 0 then 8192 else cap * 2) need (ground arith) (omega arith)

wanted_cap-small : (cap need : ℕ) → cap < need → wanted_cap cap need ≤ 8192 + 2 * need
unfolding wanted_cap
wanted_cap-small cap need h =
    enlarge-small need (if cap == 0 then 8192 else cap * 2) need (8192 + 2 * need) (ground arith)
      (omega arith)

module _ {D : Type 0} (decode : D → List ℕ → Decoded D)
    (resample : List ℤ → ℕ → ℕ → ℕ → ℕ → ℕ → ℕ × List ℤ) (scale : Option (ℤ → ℤ)) where
  -- A feed that has a buffer of `cap` bytes for `all`.
  record Fine (s : D) (all : List ℕ) (cap : ℕ) (r : Decoder D) (v : Verdict) : Type 0 where
    front : List ℕ
    joined : front ++ r.bytes ≡ all
    cap_kept : r.cap ≡ cap
    ends : v ≢ starves
    whole : v ≡ fails → r.bytes ≡ all
    parsed : v ≡ continues → Frames decode s all r.bytes

  settle-Fine :
      (v : Verdict) (d : Decoder D) (fed : Fed D)
      → v ≡ fed.verdict
      → Taken decode d.state d d.bytes fed
      → let r = settle v fed in Fine d.state d.bytes d.cap r.0 r.1
  unfolding settle
  settle-Fine continues d fed e t = record {
    front = t.front;
    joined = t.joined;
    cap_kept = t.same_cap;
    ends = λ h. cc;
    whole = λ h. cc;
    parsed = λ h. t.parsed (sym e);
  }
  settle-Fine fails d fed e t = record {
    front = [];
    joined = t.same_bytes;
    cap_kept = t.same_cap;
    ends = λ h. cc;
    whole = λ h. t.same_bytes;
    parsed = λ h. cc;
  }
  settle-Fine starves d fed e t = absurd (t.decides (sym e))

  -- The buffer as it is before the loop.
  abbrev filled : List ℕ → Decoder D → Decoder D
  filled bytes d =
      let need = length d.bytes + length bytes in
      record d {
        bytes = d.bytes ++ bytes;
        cap = if ltb d.cap need then wanted_cap d.cap need else d.cap;
      }

  feed-Fine :
      (turns : ℕ → Turn) (x : ℕ) (xs : List ℕ) (d : Decoder D)
      → let held = filled (x ∷ xs) d in
        let fed = feed_loop decode resample scale (length held.bytes) turns held.bytes held in
        let r = settle fed.verdict fed in Fine d.state held.bytes held.cap r.0 r.1
  feed-Fine turns x xs d =
      let held = filled (x ∷ xs) d in
      settle-Fine _ held _ refl (
        feed_loop-Taken decode resample scale (length held.bytes) turns held.bytes held
          (omega arith))

  -- With memory for the buffer, a feed of at least one byte that fails keeps every byte that the
  -- buffer held, with the new ones behind; one that goes on takes the frames that the codec finds in
  -- these bytes, from the front to the first place where it finds none, and keeps all bytes behind.
  pub decoder_feed-keeps :
      (turns : ℕ → Turn) (x : ℕ) (xs : List ℕ) (d : Decoder D)
      → let r = decoder_feed decode resample scale true turns (x ∷ xs) d in
        (r.1 ≡ fails → r.0.bytes ≡ d.bytes ++ (x ∷ xs))
        × (r.1 ≡ continues → Frames decode d.state (d.bytes ++ (x ∷ xs)) r.0.bytes)
  unfolding decoder_feed
  decoder_feed-keeps turns x xs d =
      let fine = feed-Fine turns x xs d in
      rw (and_false (ltb d.cap (length d.bytes + length (x ∷ xs)))) (fine.whole, fine.parsed)

  -- The bytes fit, the loop has ended, and the buffer has grown to no more than needed.
  abbrev Within : Decoder D → ℕ → Decoder D × Verdict × List Sound → Type 0
  Within d need r =
      IsSized r.0 × (r.1 ≢ starves) × ((r.0.cap ≤ d.cap) ⊎ (r.0.cap ≤ 8192 + 2 * need))

  branch-Within :
      (d : Decoder D) (need : ℕ) (b : Bool) (x y : Decoder D × Verdict × List Sound)
      → Within d need x
      → Within d need y
      → Within d need (if b then x else y)
  branch-Within d need true x y hx hy = hx
  branch-Within d need false x y hx hy = hy

  Fine-Within :
      (d : Decoder D) (need cap : ℕ) (all : List ℕ) (r : Decoder D × Verdict × List Sound)
      → length all ≤ cap
      → (cap ≤ d.cap) ⊎ (cap ≤ 8192 + 2 * need)
      → Fine d.state all cap r.0 r.1
      → Within d need r
  Fine-Within d need cap all r room small f = (
    omega (arith, ap length f.joined, length-append f.front r.0.bytes, f.cap_kept),
    f.ends,
    omega (arith, f.cap_kept, small),
  )

  filled-room :
      (bytes : List ℕ) (d : Decoder D)
      → let held = filled bytes d in
        let need = length d.bytes + length bytes in
        (length held.bytes ≤ held.cap) × ((held.cap ≤ d.cap) ⊎ (held.cap ≤ 8192 + 2 * need))
  filled-room bytes d =
      let need = length d.bytes + length bytes in
      let all = length-append d.bytes bytes in
      elim (Bool-cases (ltb d.cap need)) [
        | inl e ↦ rw (if_true (ltb d.cap need) (wanted_cap d.cap need) d.cap e) (
          omega (arith, all, wanted_cap-fits d.cap need),
          inr (wanted_cap-small d.cap need (ltb→lt d.cap need e)),
        )
        | inr e ↦
            rw (if_false (ltb d.cap need) (wanted_cap d.cap need) d.cap e)
              (ground (arith, all), inl (omega arith))
      ]

  -- The bytes in the buffer fit it after every feed, with memory or not, and if it grows, it grows
  -- to at most 8192 bytes and twice those that it has to hold. The loop over it ends within one
  -- round for each byte.
  pub decoder_feed-bounded :
      (alloc : Bool) (turns : ℕ → Turn) (bytes : List ℕ) (d : Decoder D)
      → IsSized d
      → let r = decoder_feed decode resample scale alloc turns bytes d in
        let need = length d.bytes + length bytes in
        IsSized r.0 × (r.1 ≢ starves) × ((r.0.cap ≤ d.cap) ⊎ (r.0.cap ≤ 8192 + 2 * need))
  unfolding decoder_feed
  decoder_feed-bounded alloc turns [] d sized = (sized, (λ h. cc), inl (omega arith))
  decoder_feed-bounded alloc turns (x ∷ xs) d sized =
      let need = length d.bytes + length (x ∷ xs) in
      let held = filled (x ∷ xs) d in
      let room = filled-room (x ∷ xs) d in
      let fed = feed_loop decode resample scale (length held.bytes) turns held.bytes held in
      let done = settle fed.verdict fed in
      branch-Within d need (ltb d.cap need && not alloc) (d, fails, []) done
        (sized, (λ h. cc), inl (omega arith))
        (Fine-Within d need held.cap held.bytes done room.0 room.1 (feed-Fine turns x xs d))
