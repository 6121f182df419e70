-- ===== src/Face/Match/Laws.antt =====
-- The best match of src/face_recognition.c is one, and its two users agree.
use rockchip_1106_voice_agen.Text.{codes, copy_str}
use rockchip_1106_voice_agen.Face.Match.{
  Item, Reply, Report, nothing_sent, sent, matching, better, consider, best_match,
  compare_and_report, detect_name_for_commit,
}
use rockchip_1106_voice_agen.Prelude.{
  ℕ, ◌≡◌, refl, sym, ap, ◌∙◌, ◌⊎◌, inl, inr, Bool, true, false, Option, none, some, List, [], ◌∷◌,
  arith, ◌==◌, if◌then◌else◌, Bool-cases,
}

-- An answer in front of others, if there is one.
abbrev pub join : {D : Type 0} → Option (D × List ℕ) → List (D × List ℕ) → List (D × List ℕ)
join none xs = xs
join (some x) xs = x ∷ xs

abbrev pub IsOneOf : {D : Type 0} → D × List ℕ → List (D × List ℕ) → Type 0
IsOneOf b [] = ⊥
IsOneOf b (x ∷ xs) = (b ≡ x) ⊎ IsOneOf b xs

module _ {D : Type 0} (lt : D → D → Bool) where
  abbrev pub least_of : D × List ℕ → List (D × List ℕ) → D × List ℕ
  least_of b [] = b
  least_of b (x ∷ xs) = least_of (if lt (x.0) (b.0) then x else b) xs

  -- The first of the candidates that none is below.
  abbrev pub least_from : Option (D × List ℕ) → List (D × List ℕ) → Option (D × List ℕ)
  least_from none [] = none
  least_from none (x ∷ xs) = some (least_of x xs)
  least_from (some b) xs = some (least_of b xs)

  abbrev after : Option (D × List ℕ) → Option (D × List ℕ) → Option (D × List ℕ)
  after best x = least_from best (join x [])

  least_from-nil : (best : Option (D × List ℕ)) → least_from best [] ≡ best
  least_from-nil none = refl
  least_from-nil (some b) = refl

  least_from-join :
      (best x : Option (D × List ℕ)) (xs : List (D × List ℕ))
      → least_from best (join x xs) ≡ least_from (after best x) xs
  least_from-join best none xs = ap (λ b. least_from b xs) (sym (least_from-nil best))
  least_from-join none (some x) xs = refl
  least_from-join (some b) (some x) xs = refl

  ite-some :
      (t : Bool) (x y : D × List ℕ) → (if t then some x else some y) ≡ some (if t then x else y)
  ite-some true x y = refl
  ite-some false x y = refl

  better-after :
      (d : D) (name : List ℕ) (best : Option (D × List ℕ))
      → better lt d name best ≡ after best (some (d, copy_str 128 name))
  unfolding better
  better-after d name none = refl
  better-after d name (some (b, old)) = ite-some (lt d b) (d, copy_str 128 name) (b, old)

  found-after :
      (d : D) (o : Option (List ℕ)) (best : Option (D × List ℕ))
      → (elim o [ none ↦ best | some name ↦ better lt d name best ])
        ≡ after best (elim o [ none ↦ none | some name ↦ some (d, copy_str 128 name) ])
  found-after d none best = sym (least_from-nil best)
  found-after d (some name) best = better-after d name best

  -- No candidate is below the chosen one.
  abbrev pub NoneBelow : D → List (D × List ℕ) → Type 0
  NoneBelow d [] = Unit
  NoneBelow d (x ∷ xs) = (lt (x.0) d ≡ false) × NoneBelow d xs

  -- What the loop is to answer on these candidates: nothing if there are none, else one of them
  -- that no other is below.
  abbrev pub IsBest : List (D × List ℕ) → Option (D × List ℕ) → Type 0
  IsBest xs none = xs ≡ []
  IsBest xs (some b) = NoneBelow (b.0) xs × IsOneOf b xs

  -- A choice of two is never above the one it replaces, if the order is one.
  abbrev pub IsOrder : Type 0
  IsOrder =
      ((d : D) → lt d d ≡ false) × ((a b c : D) → lt a b ≡ true → lt b c ≡ true → lt a c ≡ true)

  choice-keeps :
      (x b : D × List ℕ) (z : D)
      → IsOrder
      → lt z (b.0) ≡ false
      → lt z ((if lt (x.0) (b.0) then x else b).0) ≡ false
  choice-keeps x b z (irrefl, trans) h = elim (Bool-cases (lt (x.0) (b.0))) [
    | inl t ↦ rw t (elim (Bool-cases (lt z (x.0))) [
      | inl zt ↦ absurd (ground (arith, trans z (x.0) (b.0) zt t, h))
      | inr zf ↦ zf
    ])
    | inr f ↦ rw f h
  ]

  choice-below :
      (x b : D × List ℕ) → IsOrder → lt (x.0) ((if lt (x.0) (b.0) then x else b).0) ≡ false
  choice-below x b (irrefl, trans) = elim (Bool-cases (lt (x.0) (b.0))) [
    | inl t ↦ rw t (irrefl (x.0))
    | inr f ↦ rw f f
  ]

  least_of-keeps :
      (xs : List (D × List ℕ)) (b : D × List ℕ) (z : D)
      → IsOrder
      → lt z (b.0) ≡ false
      → lt z ((least_of b xs).0) ≡ false
  least_of-keeps [] b z o h = h
  least_of-keeps (x ∷ xs) b z o h =
      least_of-keeps xs (if lt (x.0) (b.0) then x else b) z o (choice-keeps x b z o h)

  least_of-below :
      (xs : List (D × List ℕ)) (b : D × List ℕ) → IsOrder → NoneBelow ((least_of b xs).0) xs
  least_of-below [] b o = tt
  least_of-below (x ∷ xs) b o =
      let next = if lt (x.0) (b.0) then x else b in
      (least_of-keeps xs next (x.0) o (choice-below x b o), least_of-below xs next o)

  choice-IsOneOf :
      (t : Bool) (y b x : D × List ℕ) (xs : List (D × List ℕ))
      → IsOneOf y ((if t then x else b) ∷ xs)
      → IsOneOf y (b ∷ x ∷ xs)
  choice-IsOneOf true y b x xs h = inr h
  choice-IsOneOf false y b x xs (inl e) = inl e
  choice-IsOneOf false y b x xs (inr h) = inr (inr h)

  least_of-IsOneOf : (xs : List (D × List ℕ)) (b : D × List ℕ) → IsOneOf (least_of b xs) (b ∷ xs)
  least_of-IsOneOf [] b = inl refl
  least_of-IsOneOf (x ∷ xs) b =
      let next = if lt (x.0) (b.0) then x else b in
      choice-IsOneOf (lt (x.0) (b.0)) (least_of next xs) b x xs (least_of-IsOneOf xs next)

  least_from-IsBest : (xs : List (D × List ℕ)) → IsOrder → IsBest xs (least_from none xs)
  least_from-IsBest [] o = refl
  least_from-IsBest (x ∷ xs) (irrefl, trans) = (
    (least_of-keeps xs x (x.0) (irrefl, trans) (irrefl (x.0)), least_of-below xs x (irrefl, trans)),
    least_of-IsOneOf xs x,
  )

-- What the commit of a frame is to be called, by the report of the same comparison.
abbrev pub name_of : Report → Option (List ℕ)
name_of nothing_sent = none
name_of (sent status code name) = if code == 1000 then some name else some status

module _ {D C : Type 0} (lt : D → D → Bool) (find : List ℕ → C → C × Option (List ℕ)) where
  -- The name that an item leads to, with its distance, and the cache after the lookup.
  abbrev pub named : Option (List ℕ × D) → C → C × Option (D × List ℕ)
  named none c = (c, none)
  named (some (f, d)) c =
      let r = find f c in
      (r.0, elim (r.1) [ none ↦ none | some name ↦ some (d, copy_str 128 name) ])

  -- The distances and names that the results lead to, in their order.
  abbrev pub candidates : List (Item D) → C → List (D × List ℕ)
  candidates [] c = []
  candidates (item ∷ items) c =
      let r = named (matching item) c in join (r.1) (candidates items (r.0))

  consider-named :
      (m : Option (List ℕ × D)) (c : C) (best : Option (D × List ℕ))
      → consider lt find m c best ≡ ((named m c).0, after lt best ((named m c).1))
  unfolding consider
  consider-named none c best = ap (λ b. (c, b)) (sym (least_from-nil lt best))
  consider-named (some (f, d)) c best =
      ap (λ x. ((find f c).0, x)) (found-after lt d ((find f c).1) best)

  best_match-least :
      (items : List (Item D)) (c : C) (best : Option (D × List ℕ))
      → (best_match lt find items c best).1 ≡ least_from lt best (candidates items c)
  unfolding best_match
  best_match-least [] c best = sym (least_from-nil lt best)
  best_match-least (item ∷ items) c best =
      let r = named (matching item) c in
      ap (λ q. (best_match lt find items (q.0) (q.1)).1) (consider-named (matching item) c best)
      ∙ best_match-least items (r.0) (after lt best (r.1))
      ∙ sym (least_from-join lt best (r.1) (candidates items (r.0)))

  -- If `<` on distances is irreflexive and transitive, the loop chooses, among the results that
  -- are a match and have a name, one that no other is closer than, and nothing only if there is
  -- none.
  pub best_match-IsBest :
      (items : List (Item D)) (c : C)
      → IsOrder lt
      → IsBest lt (candidates items c) ((best_match lt find items c none).1)
  best_match-IsBest items c o =
      rw (best_match-least items c none) (least_from-IsBest lt (candidates items c) o)

  -- The two users of a comparison agree: the name for a commit is the one that would be reported,
  -- and otherwise the reported status. Only results that are no array are told apart: then nothing
  -- is reported, and the commit has "face_not_match".
  pub detect_name_for_commit-agrees :
      (reply : Option (Reply D)) (c : C)
      → let report = compare_and_report lt find reply c in
        let named_so = detect_name_for_commit lt find reply c in
        (report.0 ≡ named_so.0)
        × ((named_so.1 ≡ name_of (report.1))
            ⊎ ((report.1 ≡ nothing_sent) × (named_so.1 ≡ some (codes "face_not_match"))))
  unfolding compare_and_report detect_name_for_commit
  detect_name_for_commit-agrees none c = (refl, inl refl)
  detect_name_for_commit-agrees (some reply) c = ground arith
