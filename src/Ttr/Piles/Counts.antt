-- ===== src/Ttr/Piles/Counts.antt =====
-- engine.go and draw.go: the train cards of a color in the three piles, counted.
use bgex_backend.Base.{
  ℕ, zero, suc, ◌+◌, ◌≡◌, refl, Option, none, some, List, [], ◌∷◌, ◌++◌, ltb, length, get_elem?,
  set, take, drop, arith, ◌∙◌, Bool-cases, List-cases, inl, inr,
}
use bgex_backend.Ttr.State.{Piles, Engine}
use bgex_backend.Ttr.Colors.{count_color}
use bgex_backend.Ttr.Piles.{
  face_up_slots, refill_draw_pile, put_face_up, fill_rounds, fill_face_up, count_locos,
  loco_flush_threshold, deal_fresh_row, flush_rounds, flush_face_up_locos, max_flush_iterations,
  pop_draw_pile, replace_slot, take_face_up,
}

-- The cards of a color in the three piles.
unfoldable pub piles_count : ℕ → Piles → ℕ
piles_count c ps =
    count_color c ps.draw_pile + count_color c ps.discard_pile + count_color c ps.face_up

-- What a shuffle does not change.
abbrev pub KeepsCards : Engine → Type 0
KeepsCards e = (n c : ℕ) (cards : List ℕ) → count_color c (e.shuffle n cards) ≡ count_color c cards

-- A card that a pop may have returned, counted by color.
abbrev pub count_card : ℕ → Option ℕ → ℕ
count_card c none = 0
count_card c (some d) = count_color c (d ∷ [])

pub count_color-append :
    (c : ℕ) (xs ys : List ℕ) → count_color c (xs ++ ys) ≡ count_color c xs + count_color c ys
count_color-append c [] ys = omega arith
count_color-append c (x ∷ xs) ys = omega (arith, count_color-append c xs ys)

count_color-set :
    (c : ℕ) (xs : List ℕ) (i new old : ℕ)
    → get_elem? xs i ≡ some old
    → count_color c (set xs i new) + count_color c (old ∷ [])
      ≡ count_color c xs + count_color c (new ∷ [])
count_color-set c [] i new old at_i = cc
count_color-set c (x ∷ xs) zero new old at_i = ground arith
count_color-set c (x ∷ xs) (suc i) new old at_i = omega (arith, count_color-set c xs i new old at_i)

count_color-cut :
    (c : ℕ) (xs : List ℕ) (i old : ℕ)
    → get_elem? xs i ≡ some old
    → count_color c (take i xs ++ drop (suc i) xs) + count_color c (old ∷ []) ≡ count_color c xs
count_color-cut c [] i old at_i = cc
count_color-cut c (x ∷ xs) zero old at_i = ground arith
count_color-cut c (x ∷ xs) (suc i) old at_i = omega (arith, count_color-cut c xs i old at_i)

module _ (e : Engine) (keeps : KeepsCards e) (c : ℕ) where
  pub piles_count-refill_draw_pile :
      (ps : Piles) → piles_count c (refill_draw_pile e ps) ≡ piles_count c ps
  unfolding piles_count refill_draw_pile
  piles_count-refill_draw_pile ps = elim (List-cases ps.draw_pile) [
    | inr (x, rest, drawn) ↦ ground arith
    | inl empty ↦ elim (List-cases ps.discard_pile) [
      | inl none_left ↦ ground arith
      | inr (d, ds, left) ↦ ground (arith, keeps ps.shuffles c (d ∷ ds))
    ]
  ]

  piles_count-put_face_up :
      (ps : Piles) (d : ℕ) (ds : List ℕ)
      → ps.draw_pile ≡ d ∷ ds
      → piles_count c (put_face_up ps d ds) ≡ piles_count c ps
  unfolding piles_count put_face_up
  piles_count-put_face_up ps d ds drawn = ground (arith, count_color-append c ps.face_up (d ∷ []))

  piles_count-fill_rounds :
      (rounds : ℕ) (ps : Piles) → piles_count c (fill_rounds e rounds ps) ≡ piles_count c ps
  unfolding fill_rounds
  piles_count-fill_rounds zero ps = refl
  piles_count-fill_rounds (suc rounds) ps =
      elim (Bool-cases (ltb (length ps.face_up) face_up_slots)) [
        | inr full ↦ rw (full, fill_rounds) refl
        | inl short ↦ elim (List-cases (refill_draw_pile e ps).draw_pile) [
          | inl empty ↦ rw (short, empty, fill_rounds) (piles_count-refill_draw_pile ps)
          | inr (d, ds, drawn) ↦
              rw (short, drawn, fill_rounds)
                (piles_count-fill_rounds rounds (put_face_up (refill_draw_pile e ps) d ds)
                  ∙ piles_count-put_face_up (refill_draw_pile e ps) d ds drawn
                  ∙ piles_count-refill_draw_pile ps)
        ]
      ]

  pub piles_count-fill_face_up : (ps : Piles) → piles_count c (fill_face_up e ps) ≡ piles_count c ps
  unfolding fill_face_up
  piles_count-fill_face_up ps = piles_count-fill_rounds (suc face_up_slots) ps

  piles_count-deal_fresh_row : (ps : Piles) → piles_count c (deal_fresh_row e ps) ≡ piles_count c ps
  unfolding deal_fresh_row
  piles_count-deal_fresh_row ps =
      piles_count-fill_face_up
        (record ps { discard_pile = ps.discard_pile ++ ps.face_up; face_up = [] })
      ∙ (unfold piles_count in omega (arith, count_color-append c ps.discard_pile ps.face_up))

  piles_count-flush_rounds :
      (rounds : ℕ) (ps : Piles) → piles_count c (flush_rounds e rounds ps) ≡ piles_count c ps
  unfolding flush_rounds
  piles_count-flush_rounds zero ps = refl
  piles_count-flush_rounds (suc rounds) ps =
      elim (Bool-cases (ltb (count_locos ps.face_up) loco_flush_threshold)) [
        | inl few ↦ rw (few, flush_rounds) refl
        | inr many ↦ elim (Bool-cases (ltb (length (deal_fresh_row e ps).face_up) face_up_slots)) [
          | inl short ↦ rw (many, short, flush_rounds) (piles_count-deal_fresh_row ps)
          | inr full ↦
              rw (many, full, flush_rounds)
                (piles_count-flush_rounds rounds (deal_fresh_row e ps)
                  ∙ piles_count-deal_fresh_row ps)
        ]
      ]

  pub piles_count-flush_face_up_locos :
      (ps : Piles) → piles_count c (flush_face_up_locos e ps) ≡ piles_count c ps
  unfolding flush_face_up_locos
  piles_count-flush_face_up_locos ps = piles_count-flush_rounds max_flush_iterations ps

  -- Popping a card takes it out of the piles and changes no other card.
  pub piles_count-pop_draw_pile :
      (ps : Piles)
      → piles_count c (pop_draw_pile e ps).1 + count_card c (pop_draw_pile e ps).0
        ≡ piles_count c ps
  unfolding pop_draw_pile
  piles_count-pop_draw_pile ps = elim (List-cases (refill_draw_pile e ps).draw_pile) [
    | inl empty ↦ rw (empty, pop_draw_pile) (omega (arith, piles_count-refill_draw_pile ps))
    | inr (d, ds, drawn) ↦
        let kept = piles_count-refill_draw_pile ps in
        rw (drawn, pop_draw_pile) (unfold piles_count in ground (arith, kept))
  ]

  piles_count-replace_slot :
      (ps : Piles) (slot d : ℕ)
      → get_elem? ps.face_up slot ≡ some d
      → piles_count c (replace_slot slot ps) + count_color c (d ∷ []) ≡ piles_count c ps
  unfolding replace_slot piles_count
  piles_count-replace_slot ps slot d at_slot = elim (List-cases ps.draw_pile) [
    | inl empty ↦ rw empty (omega (arith, count_color-cut c ps.face_up slot d at_slot))
    | inr (x, rest, drawn) ↦
        rw drawn (ground (arith, count_color-set c ps.face_up slot x d at_slot))
  ]

  face_up-refill_draw_pile : (ps : Piles) → (refill_draw_pile e ps).face_up ≡ ps.face_up
  unfolding refill_draw_pile
  face_up-refill_draw_pile ps = ground arith

  -- Taking a face-up card, refill and locomotive flush included, takes that card out of the piles
  -- and no other, if the slot holds it and a shuffle keeps the cards.
  pub piles_count-take_face_up :
      (ps : Piles) (slot d : ℕ)
      → get_elem? ps.face_up slot ≡ some d
      → piles_count c (take_face_up e slot ps) + count_color c (d ∷ []) ≡ piles_count c ps
  unfolding take_face_up
  piles_count-take_face_up ps slot d at_slot =
      let refilled = refill_draw_pile e ps in
      let replaced = replace_slot slot refilled in
      omega (
        arith,
        piles_count-flush_face_up_locos (fill_face_up e replaced),
        piles_count-fill_face_up replaced,
        piles_count-replace_slot refilled slot d (rw (face_up-refill_draw_pile ps) at_slot),
        piles_count-refill_draw_pile ps,
      )
