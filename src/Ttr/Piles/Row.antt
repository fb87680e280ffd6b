-- ===== src/Ttr/Piles/Row.antt =====
-- engine.go: the face-up row that `fillFaceUp` fills, and when it counts as filled.
use bgex_backend.Base.{
  ℕ, zero, suc, ◌+◌, ◌≤◌, ◌≡◌, List, [], ◌∷◌, ltb, length, length-append, arith, Bool-cases,
  List-cases, inl, inr, ◌⊎◌,
}
use bgex_backend.Ttr.State.{Piles, Engine}
use bgex_backend.Ttr.Piles.{face_up_slots, refill_draw_pile, put_face_up, fill_rounds, fill_face_up}

-- What a shuffle does not change.
abbrev pub KeepsLength : Engine → Type 0
KeepsLength e = (n : ℕ) (cards : List ℕ) → length (e.shuffle n cards) ≡ length cards

-- A row of five cards, or both piles are used up.
abbrev pub IsFilled : Piles → Type 0
IsFilled ps = (length ps.face_up ≡ face_up_slots) ⊎ ((ps.draw_pile ≡ []) × (ps.discard_pile ≡ []))

module _ (e : Engine) (same_length : KeepsLength e) where
  -- The draw pile is empty after a refill only if there was nothing to refill it with.
  refill-exhausted :
      (ps : Piles)
      → (refill_draw_pile e ps).draw_pile ≡ []
      → (refill_draw_pile e ps).discard_pile ≡ []
  unfolding refill_draw_pile
  refill-exhausted ps empty = elim (List-cases ps.draw_pile) [
    | inr (d, ds, drawn) ↦ absurd (ground (arith, empty, drawn))
    | inl nothing ↦ elim (List-cases ps.discard_pile) [
      | inl none_left ↦ ground (arith, nothing, none_left)
      | inr (d, ds, left) ↦
          absurd (ground (arith, nothing, left, empty, same_length ps.shuffles (d ∷ ds)))
    ]
  ]

  face_up-refill : (ps : Piles) → (refill_draw_pile e ps).face_up ≡ ps.face_up
  unfolding refill_draw_pile
  face_up-refill ps = ground arith

  length-put_face_up :
      (ps : Piles) (d : ℕ) (ds : List ℕ)
      → length (put_face_up (refill_draw_pile e ps) d ds).face_up ≡ suc (length ps.face_up)
  unfolding put_face_up
  length-put_face_up ps d ds =
      rw (face_up-refill ps) (omega (arith, length-append ps.face_up (d ∷ [])))

  fill_rounds-IsFilled :
      (rounds : ℕ) (ps : Piles)
      → length ps.face_up ≤ face_up_slots
      → suc face_up_slots ≤ rounds + length ps.face_up
      → IsFilled (fill_rounds e rounds ps)
  unfolding fill_rounds
  fill_rounds-IsFilled zero ps small enough = absurd (omega (arith, small, enough))
  fill_rounds-IsFilled (suc rounds) ps small enough =
      elim (Bool-cases (ltb (length ps.face_up) face_up_slots)) [
        | inr full ↦ rw (full, fill_rounds) (inl (ground (arith, full, small)))
        | inl short ↦ elim (List-cases (refill_draw_pile e ps).draw_pile) [
          | inl empty ↦ rw (short, empty, fill_rounds) (inr (empty, refill-exhausted ps empty))
          | inr (d, ds, drawn) ↦
              let next = length-put_face_up ps d ds in
              rw (short, drawn, fill_rounds)
                (fill_rounds-IsFilled rounds (put_face_up (refill_draw_pile e ps) d ds)
                  (ground (arith, short, next)) (omega (arith, next, enough)))
        ]
      ]

  -- Filling a row of at most five cards ends with five cards or with both piles empty, if a shuffle
  -- keeps the length: the six rounds are enough.
  pub fill_face_up-IsFilled :
      (ps : Piles) → length ps.face_up ≤ face_up_slots → IsFilled (fill_face_up e ps)
  unfolding fill_face_up
  fill_face_up-IsFilled ps small = fill_rounds-IsFilled (suc face_up_slots) ps small (omega arith)
