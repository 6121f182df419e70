-- ===== src/Face/Engine/Dialogue.antt =====
-- The dialogue of src/face_recognition.c with its engine stays in step, or does not.
use mathlib.Core.List.{append-nil}
use rockchip_1106_voice_agen.Face.Engine.{
  Engine, read_bytes, uds_read_line, uds_send_cmd, read_exact, uds_read_exact, Starts,
  connect_engine, prepare_engine, take_answer, whole, Header, Photo, Shot, or_zero, max_photo,
  receive_photo, take_photo, capture_photo,
}
use rockchip_1106_voice_agen.Prelude.{
  ℕ, zero, suc, ◌-◌, ◌≤◌, ◌<◌, min, ◌≡◌, refl, sym, ap, ◌∙◌, ◌≢◌, ◌⊎◌, inl, inr, Bool, true, false,
  none, some, List, [], ◌∷◌, ◌++◌, arith, ltb, ◌==◌, length, take, drop, length-append, length-take,
  length-drop, take-append-drop, take-all, Bool-cases,
}

-- No byte ends the line.
abbrev pub IsLine : List ℕ → Type 0
IsLine [] = Unit
IsLine (c ∷ cs) = (c ≢ b'\n') × IsLine cs

read_bytes-line :
    (room : ℕ) (line rest : List ℕ)
    → IsLine line
    → read_bytes room (line ++ (b'\n' ∷ rest)) ≡ (take room line, rest)
unfolding read_bytes
read_bytes-line zero [] rest h = refl
read_bytes-line (suc room) [] rest h = refl
read_bytes-line zero (c ∷ cs) rest h = ground (arith, read_bytes-line 0 cs rest h.1)
read_bytes-line (suc room) (c ∷ cs) rest h = ground (arith, read_bytes-line room cs rest h.1)

drop-append_left : (k : ℕ) (xs ys : List ℕ) → k ≤ length xs → drop k (xs ++ ys) ≡ drop k xs ++ ys
drop-append_left zero xs ys h = refl
drop-append_left (suc k) [] ys h = absurd (omega arith)
drop-append_left (suc k) (x ∷ xs) ys h = drop-append_left k xs ys (omega arith)

take-append_left : (k : ℕ) (xs ys : List ℕ) → k ≤ length xs → take k (xs ++ ys) ≡ take k xs
take-append_left zero xs ys h = refl
take-append_left (suc k) [] ys h = absurd (omega arith)
take-append_left (suc k) (x ∷ xs) ys h = ap (λ l. x ∷ l) (take-append_left k xs ys (omega arith))

-- However the bytes come, as many as are asked for are read if they are there.
read_exact-whole :
    (fuel : ℕ) (give : ℕ → ℕ) (bytes rest : List ℕ) (n : ℕ)
    → n ≡ length bytes
    → n ≤ fuel
    → read_exact fuel give n (bytes ++ rest) ≡ (some bytes, rest)
unfolding read_exact
read_exact-whole fuel give [] rest zero e h = refl
read_exact-whole fuel give [] rest (suc n) e h = absurd (omega arith)
read_exact-whole fuel give (b ∷ bs) rest zero e h = absurd (omega arith)
read_exact-whole zero give (b ∷ bs) rest (suc n) e h = absurd (omega arith)
read_exact-whole (suc fuel) give (b ∷ bs) rest (suc n) e h =
    let all = b ∷ bs in
    let k = min (suc (give 0)) (suc n) in
    let part : min (suc (give 0)) (min (suc n) (length (all ++ rest))) ≡ k =
      omega (arith, length-append all rest) in
    let some_bytes : (k == 0) ≡ false = ground arith in
    let ih =
      read_exact-whole fuel (λ i. give (suc i)) (drop k all) rest (suc n - k)
        (omega (arith, length-drop k all)) (omega arith) in
    rw
      (
        part,
        some_bytes,
        drop-append_left k all rest (omega arith),
        ih,
        part,
        take-append_left k all rest (omega arith),
        take-append-drop k all,
      )
      refl

-- The line that ends the answer is the line of the command, cut to its buffer, and nothing is left.
uds_send_cmd-line :
    (out_len : ℕ) (line rest : List ℕ)
    → IsLine line
    → 0 < length line
    → 1 < out_len
    → uds_send_cmd true (line ++ (b'\n' ∷ rest)) out_len [] ≡ (true, take (out_len - 1) line, rest)
unfolding uds_send_cmd uds_read_line
uds_send_cmd-line out_len line rest h some_line room =
    let some_room : (out_len == 0) ≡ false = ground arith in
    let kept : (length (take (out_len - 1) line) == 0) ≡ false =
      ground (arith, length-take (out_len - 1) line) in
    rw (some_room, read_bytes-line (out_len - 1) line rest h, kept) refl

-- An engine that runs and is connected, with these bytes unread.
abbrev pub running : ℕ → ℕ → List ℕ → Engine
running pid fd inbox = record { pid = some pid; fd = some fd; inbox = inbox }

-- The answer to the command for a photo.
abbrev pub photo_shot : List ℕ → List ℕ → Bool → (ℕ → ℕ) → Shot
photo_shot line jpeg alloc give = record {
  written = true;
  answer = line ++ (b'\n' ∷ jpeg);
  alloc = alloc;
  give = give;
}

module _ (parse : List ℕ → Header) where
  -- What comes after the header of a photo that is whole.
  capture_photo-header :
      (s : Starts) (pid fd : ℕ) (line jpeg : List ℕ) (alloc : Bool) (give : ℕ → ℕ) (size : ℕ)
      → IsLine line
      → 0 < length line
      → length line < 1024
      → (parse line).answer_ok ≡ true
      → (parse line).size ≡ whole size
      → capture_photo parse s (photo_shot line jpeg alloc give) (running pid fd [])
        ≡ receive_photo size (photo_shot line jpeg alloc give) (parse line) (running pid fd jpeg)
  unfolding capture_photo prepare_engine connect_engine take_answer take_photo
  capture_photo-header s pid fd line jpeg alloc give size l some_line short ok sized =
      let e = running pid fd [] in
      let shot = photo_shot line jpeg alloc give in
      ap (take_answer parse shot true e) (
        uds_send_cmd-line 1024 line jpeg l some_line (omega arith)
        ∙ ap (λ l. (true, l, jpeg)) (take-all 1023 line (omega arith)))
      ∙ rw (ok, sized) refl

  -- A photo that the engine sends behind its header is received whole, however its bytes come, and
  -- leaves nothing unread, so that the next command gets its own answer.
  pub capture_photo-in_step :
      (s : Starts) (pid fd : ℕ) (line jpeg answer : List ℕ) (give : ℕ → ℕ)
      → IsLine line
      → 0 < length line
      → length line < 1024
      → (parse line).answer_ok ≡ true
      → (parse line).size ≡ whole (length jpeg)
      → length jpeg ≤ max_photo
      → let c = capture_photo parse s (photo_shot line jpeg true give) (running pid fd []) in
        let h = parse line in
        let photo : Photo = record {
          jpeg = jpeg;
          cap_w = or_zero h.width;
          cap_h = or_zero h.height;
          cap_q = or_zero h.quality;
        } in
        (c ≡ record { engine = running pid fd []; photo = some photo; err = [] })
        × (uds_send_cmd true answer 8192 c.engine.inbox ≡ uds_read_line 8192 answer)
  unfolding receive_photo uds_read_exact
  capture_photo-in_step s pid fd line jpeg answer give l some_line short ok sized fits =
      let whole_photo : read_exact (length jpeg) give (length jpeg) jpeg ≡ (some jpeg, []) =
        ap (read_exact (length jpeg) give (length jpeg)) (sym (append-nil jpeg))
        ∙ read_exact-whole (length jpeg) give jpeg [] (length jpeg) refl (omega arith) in
      let small : ltb max_photo (length jpeg) ≡ false = ground arith in
      rw
        (
          capture_photo-header s pid fd line jpeg true give (length jpeg) l some_line short ok
              sized,
          small,
          whole_photo,
        )
        (unfold uds_send_cmd in (refl, refl))

  -- If the photo is larger than the code takes, or there is no memory for it, its bytes stay unread on
  -- a connection that is kept: the next command gets them for its answer.
  pub capture_photo-out_of_step :
      (s : Starts) (pid fd : ℕ) (line jpeg answer : List ℕ) (alloc : Bool) (give : ℕ → ℕ)
      → IsLine line
      → 0 < length line
      → length line < 1024
      → (parse line).answer_ok ≡ true
      → (parse line).size ≡ whole (length jpeg)
      → (max_photo < length jpeg) ⊎ (alloc ≡ false)
      → let c = capture_photo parse s (photo_shot line jpeg alloc give) (running pid fd []) in
        (c.photo ≡ none)
        × (c.engine ≡ running pid fd jpeg)
        × (uds_send_cmd true answer 8192 c.engine.inbox ≡ uds_read_line 8192 (jpeg ++ answer))
  unfolding receive_photo
  capture_photo-out_of_step s pid fd line jpeg answer alloc give l some_line short ok sized bad =
      let e =
        capture_photo-header s pid fd line jpeg alloc give (length jpeg) l some_line short ok
          sized in
      rw e (elim (Bool-cases (ltb max_photo (length jpeg))) [
        | inl big ↦ rw big (unfold uds_send_cmd in (refl, refl, refl))
        | inr small ↦
            let no_memory : alloc ≡ false = ground arith in
            rw (small, no_memory) (unfold uds_send_cmd in (refl, refl, refl))
      ])
