-- ===== src/Ttr/Piles.antt =====
-- engine.go and draw.go: the draw pile, the discard pile and the face-up row. `fillFaceUp` puts a
-- card in the row in each round but the last, so six rounds are all the rounds that it can make.
pub mod Counts
pub mod Row
use bgex_backend.Base.{
  ℕ, zero, suc, ◌+◌, Bool, true, false, not, ◌&&◌, ◌||◌, Option, none, some, List, [], ◌∷◌, ◌++◌,
  ltb, ◌==◌, if◌then◌else◌, length, set, take, drop,
}
use bgex_backend.Ttr.State.{Piles, Engine, color_loco}
use bgex_backend.Ttr.Colors.{count_color}

abbrev pub face_up_slots : ℕ
face_up_slots = 5

abbrev pub loco_flush_threshold : ℕ
loco_flush_threshold = 3

abbrev pub max_flush_iterations : ℕ
max_flush_iterations = 25

-- `refillDrawPile`
unfoldable pub refill_draw_pile : Engine → Piles → Piles
refill_draw_pile e ps = elim ps.draw_pile [
  | (c ∷ cs) ↦ ps
  | [] ↦ elim ps.discard_pile [
    | [] ↦ ps
    | (d ∷ ds) ↦ record ps {
      draw_pile = e.shuffle ps.shuffles (d ∷ ds);
      discard_pile = [];
      shuffles = suc ps.shuffles;
    }
  ]
]

-- The top card goes to the end of the row.
unfoldable pub put_face_up : Piles → ℕ → List ℕ → Piles
put_face_up ps c cs = record ps { draw_pile = cs; face_up = ps.face_up ++ c ∷ [] }

unfoldable pub fill_rounds : Engine → ℕ → Piles → Piles
fill_rounds e zero ps = ps
fill_rounds e (suc rounds) ps =
    let refilled = refill_draw_pile e ps in
    elim (ltb (length ps.face_up) face_up_slots) [
      | false ↦ ps
      | true ↦ elim refilled.draw_pile [
        | [] ↦ refilled
        | (c ∷ cs) ↦ fill_rounds e rounds (put_face_up refilled c cs)
      ]
    ]

-- `fillFaceUp`
unfoldable pub fill_face_up : Engine → Piles → Piles
fill_face_up e ps = fill_rounds e (suc face_up_slots) ps

-- `countLocos`
unfoldable pub count_locos : List ℕ → ℕ
count_locos = count_color color_loco

-- The row goes to the discard pile and a fresh one is dealt.
unfoldable pub deal_fresh_row : Engine → Piles → Piles
deal_fresh_row e ps =
    fill_face_up e (record ps { discard_pile = ps.discard_pile ++ ps.face_up; face_up = [] })

unfoldable pub flush_rounds : Engine → ℕ → Piles → Piles
flush_rounds e zero ps = ps
flush_rounds e (suc rounds) ps =
    let fresh = deal_fresh_row e ps in
    elim (ltb (count_locos ps.face_up) loco_flush_threshold) [
      | true ↦ ps
      | false ↦ elim (ltb (length fresh.face_up) face_up_slots) [
        | true ↦ fresh
        | false ↦ flush_rounds e rounds fresh
      ]
    ]

-- `flushFaceUpLocos`
unfoldable pub flush_face_up_locos : Engine → Piles → Piles
flush_face_up_locos e ps = flush_rounds e max_flush_iterations ps

-- `popDrawPile`: the card, if there is one, and the piles.
unfoldable pub pop_draw_pile : Engine → Piles → Option ℕ × Piles
pop_draw_pile e ps =
    let refilled = refill_draw_pile e ps in
    elim refilled.draw_pile [
      | [] ↦ (none, refilled)
      | (c ∷ cs) ↦ (some c, record refilled { draw_pile = cs })
    ]

-- The slot is refilled in place, or closed up when there is no card left.
unfoldable pub replace_slot : ℕ → Piles → Piles
replace_slot slot ps = elim ps.draw_pile [
  | [] ↦ record ps { face_up = take slot ps.face_up ++ drop (suc slot) ps.face_up }
  | (c ∷ cs) ↦ record ps { draw_pile = cs; face_up = set ps.face_up slot c }
]

-- `takeFaceUp`
unfoldable pub take_face_up : Engine → ℕ → Piles → Piles
take_face_up e slot ps =
    flush_face_up_locos e (fill_face_up e (replace_slot slot (refill_draw_pile e ps)))

-- Whether there is an element.
abbrev pub is_nonempty : List ℕ → Bool
is_nonempty [] = false
is_nonempty (x ∷ xs) = true

-- `canDraw`
unfoldable pub can_draw : Piles → Bool
can_draw ps = is_nonempty ps.draw_pile || is_nonempty ps.discard_pile || is_nonempty ps.face_up

abbrev pub has_non_loco : List ℕ → Bool
has_non_loco [] = false
has_non_loco (c ∷ cs) = not (c == color_loco) || has_non_loco cs

-- `secondDrawAvailable`
unfoldable pub second_draw_available : Piles → Bool
second_draw_available ps =
    is_nonempty ps.draw_pile || is_nonempty ps.discard_pile || has_non_loco ps.face_up
