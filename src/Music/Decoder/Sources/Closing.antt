-- ===== src/Music/Decoder/Sources/Closing.antt =====
-- The sources of src/music_player.c close their playback.
use rockchip_1106_voice_agen.Prelude.Int.{ℤ}
use rockchip_1106_voice_agen.Music.Decoder.{
  Decoder, Decoded, Sound, Verdict, fails, continues, starves, decoder_feed, decoder_finish,
}
use rockchip_1106_voice_agen.Music.Decoder.Driver.{
  unopened, over, use_of, sound_all, sound_all-append, is_open, Driven, then_Driven, idle_Driven,
  decoder_feed-Driven,
}
use rockchip_1106_voice_agen.Music.Decoder.Sources.{
  Chunk, Ending, new_decoder, after_feed, file_loop, play_local_file, stream_loop, http_stream_play,
}
use rockchip_1106_voice_agen.Prelude.{
  ℕ, ◌≡◌, refl, ◌∙◌, ◌⊎◌, inl, inr, Bool, true, false, not, ◌&&◌, ◌||◌, Option, none, some, List,
  [], ◌∷◌, ◌++◌, arith, ◌==◌, if◌then◌else◌, length,
}

-- The calls of a source: a playback that is opened is closed.
abbrev pub Proper : List Sound → Type 0
Proper l = (sound_all l unopened ≡ some unopened) ⊎ (sound_all l unopened ≡ some over)

module _ {D : Type 0} (decode : D → List ℕ → Decoded D)
    (resample : List ℤ → ℕ → ℕ → ℕ → ℕ → ℕ → ℕ × List ℤ) (scale : Option (ℤ → ℤ)) where
  after_feed-Driven :
      (v : Verdict) (held : Option ℕ) (p : Decoder D) (l : List Sound)
      (rest : Decoder D × Ending × List Sound)
      → Driven held p l
      → Driven p.play rest.0 rest.2
      → let r = after_feed v p l rest in Driven held r.0 r.2
  unfolding after_feed
  after_feed-Driven continues held p l rest a b =
      then_Driven decode resample scale held p rest.0 l rest.2 a b
  after_feed-Driven fails held p l rest a b = a
  after_feed-Driven starves held p l rest a b = a

  ending_Driven :
      (a e : Bool) (held : Option ℕ) (x y z : Decoder D × Ending × List Sound)
      → Driven held x.0 x.2
      → Driven held y.0 y.2
      → Driven held z.0 z.2
      → let o : Decoder D × Ending × List Sound = if a then x else if e then y else z in
        Driven held o.0 o.2
  ending_Driven true e held x y z hx hy hz = hx
  ending_Driven false true held x y z hx hy hz = hy
  ending_Driven false false held x y z hx hy hz = hz

  file_loop-Driven :
      (cs : List Chunk) (d : Decoder D)
      → d.opened ≡ is_open d.play
      → let r = file_loop decode resample scale cs d in Driven d.play r.0 r.2
  unfolding file_loop
  file_loop-Driven [] d k = idle_Driven decode resample scale d k
  file_loop-Driven (c ∷ cs) d k =
      let fed = decoder_feed decode resample scale c.buffer_alloc c.turns c.chunk d in
      let first = decoder_feed-Driven decode resample scale c.buffer_alloc c.turns c.chunk d k in
      ending_Driven (length c.chunk == 0) c.abort_before d.play _ _ _
        (idle_Driven decode resample scale d k) (idle_Driven decode resample scale d k)
        (after_feed-Driven fed.1 d.play fed.0 fed.2 _ first (file_loop-Driven cs fed.0 first.knows))

  stream_loop-Driven :
      (cs : List Chunk) (d : Decoder D)
      → d.opened ≡ is_open d.play
      → let r = stream_loop decode resample scale cs d in Driven d.play r.0 r.2
  unfolding stream_loop
  stream_loop-Driven [] d k = idle_Driven decode resample scale d k
  stream_loop-Driven (c ∷ cs) d k =
      let fed = decoder_feed decode resample scale c.buffer_alloc c.turns c.chunk d in
      let first = decoder_feed-Driven decode resample scale c.buffer_alloc c.turns c.chunk d k in
      after_feed-Driven fed.1 d.play fed.0 fed.2 _ first (stream_loop-Driven cs fed.0 first.knows)

  finish_shuts :
      (interrupted : Bool) (d : Decoder D) (play : Option ℕ)
      → d.play ≡ play
      → let l = (decoder_finish interrupted d).1 in
        (sound_all l (use_of play) ≡ some unopened) ⊎ (sound_all l (use_of play) ≡ some over)
  unfolding decoder_finish sound_all
  finish_shuts interrupted d none e = inl (ground arith)
  finish_shuts interrupted d (some h) e = inr (ground arith)

  shut_after :
      (interrupted : Bool) (d : Decoder D) (l : List Sound)
      → Driven none d l
      → Proper (l ++ (decoder_finish interrupted d).1)
  shut_after interrupted d l h =
      let all =
        sound_all-append l (decoder_finish interrupted d).1 unopened (use_of d.play) h.driven in
      elim (finish_shuts interrupted d d.play refl) [
        | inl e ↦ inl (all ∙ e)
        | inr e ↦ inr (all ∙ e)
      ]

  nothing_or :
      (b : Bool) (l : List Sound) (whole : Bool)
      → Proper l
      → let o : Bool × List Sound = if b then (false, []) else (whole, l) in Proper o.1
  nothing_or true l whole h = inl (unfold sound_all in refl)
  nothing_or false l whole h = h

  -- However a file or a stream ends, it opens at most one playback, once, writes, drains and flushes
  -- only while that is open, closes it once if it has been opened, and calls nothing behind that.
  pub sources-close :
      (init : D) (path : List ℕ) (aborts can_open broken : Bool) (chunks : List Chunk)
      (aborts_after streams answered : Bool) (status : ℕ)
      → let file = play_local_file decode resample scale init path aborts can_open chunks broken in
        let stream =
          http_stream_play decode resample scale init aborts chunks aborts_after streams answered
            status in
        Proper file.1 × Proper stream.1
  sources-close init path aborts can_open broken chunks aborts_after streams answered status =
      let played = file_loop decode resample scale chunks (new_decoder init) in
      let streamed = stream_loop decode resample scale chunks (new_decoder init) in
      (
        unfold play_local_file in
            nothing_or (length path == 0 || aborts || not can_open) _ _
              (shut_after _ played.0 played.2 (file_loop-Driven chunks (new_decoder init) refl)),
        unfold http_stream_play in
            nothing_or aborts _ (answered && status == 200) (
              shut_after (aborts_after || not streams) streamed.0 streamed.2
                (stream_loop-Driven chunks (new_decoder init) refl)),
      )
