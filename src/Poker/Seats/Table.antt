-- ===== src/Poker/Seats/Table.antt =====
-- What holds of the seats of a table between actions, and the writes that keep it.
use bgex_backend.Base.{
  ◌≤◌, ◌≡◌, refl, sym, ◌∙◌, Bool, true, not, ◌||◌, some, List, [], ◌∷◌, map, All, find_first,
  update_first, sum_by-update_first, arith, Bool-cases, inl, inr, subst,
}
use bgex_backend.Poker.State.{Seat, is_folded, is_live, seat_chips, chips}
use bgex_backend.Poker.Pots.{contributes}
use bgex_backend.Poker.Seats.Indices.{indices, IsDistinct}

-- A seat with chips in the pot has folded or is live: nobody who sits out has bet. What it
-- committed this round is part of what it committed in the hand.
pub record IsSeat (s : Seat) : Type 0 where
  pub dealt_in : (not (contributes s) || (is_folded s.status || is_live s.status)) ≡ true
  pub within : s.committed ≤ s.total_committed

pub record IsTable (seats : List Seat) : Type 0 where
  pub distinct : IsDistinct (indices seats)
  pub each : All IsSeat seats

-- The same chips at the same seats, and still a table.
pub record Kept (old new : List Seat) : Type 0 where
  pub same_chips : chips new ≡ chips old
  pub same_indices : indices new ≡ indices old
  pub seats_ok : All IsSeat new

pub Kept-IsTable : (old new : List Seat) → IsTable old → Kept old new → IsTable new
Kept-IsTable old new t k = record {
  distinct = subst IsDistinct (sym k.same_indices) t.distinct;
  each = k.seats_ok;
}

pub Kept-trans : (a b c : List Seat) → Kept a b → Kept b c → Kept a c
Kept-trans a b c p q = record {
  same_chips = q.same_chips ∙ p.same_chips;
  same_indices = q.same_indices ∙ p.same_indices;
  seats_ok = q.seats_ok;
}

-- A seat rewritten in place.
pub record Rewrites (s t : Seat) : Type 0 where
  pub same_user : t.user_id ≡ s.user_id
  pub same_index : t.seat_index ≡ s.seat_index
  pub same_seat_chips : seat_chips t ≡ seat_chips s
  pub is_seat : IsSeat t

All-write :
    (P : Seat → Type 0) (p : Seat → Bool) (t : Seat) (seats : List Seat)
    → P t
    → All P seats
    → All P (update_first p (λ _. t) seats)
unfolding update_first
All-write P p t [] pt h = tt
All-write P p t (s ∷ ss) pt h = elim (Bool-cases (p s)) [
  | inl e ↦ rw e (pt, h.1)
  | inr e ↦ rw e (h.0, All-write P p t ss pt h.1)
]

indices-write :
    (p : Seat → Bool) (s t : Seat) (seats : List Seat)
    → find_first p seats ≡ some s
    → t.seat_index ≡ s.seat_index
    → indices (update_first p (λ _. t) seats) ≡ indices seats
unfolding update_first find_first
indices-write p s t [] f e = refl
indices-write p s t (x ∷ xs) f e = ground (arith, indices-write p s t xs)

-- The write of a seat that a search found.
pub write-Kept :
    (p : Seat → Bool) (s t : Seat) (seats : List Seat)
    → IsTable seats
    → find_first p seats ≡ some s
    → Rewrites s t
    → Kept seats (update_first p (λ _. t) seats)
write-Kept p s t seats ok f r = record {
  same_chips =
      omega (arith, sum_by-update_first seat_chips p (λ _. t) seats s f, r.same_seat_chips);
  same_indices = indices-write p s t seats f r.same_index;
  seats_ok = All-write IsSeat p t seats r.is_seat ok.each;
}

-- A map over the seats that keeps each.
pub map-Kept :
    (g : Seat → Seat)
    → ((s : Seat) → IsSeat s → Rewrites s (g s))
    → (seats : List Seat) → IsTable seats
    → Kept seats (map g seats)
map-Kept g k seats ok = record {
  same_chips = sums seats ok.each;
  same_indices = marks seats ok.each;
  seats_ok = each seats ok.each;
}
  where
    sums : (ss : List Seat) → All IsSeat ss → chips (map g ss) ≡ chips ss
    sums [] h = refl
    sums (s ∷ ss) h = omega (arith, (k s h.0).same_seat_chips, sums ss h.1)

    marks : (ss : List Seat) → All IsSeat ss → indices (map g ss) ≡ indices ss
    marks [] h = refl
    marks (s ∷ ss) h = cc ((k s h.0).same_index, marks ss h.1)

    each : (ss : List Seat) → All IsSeat ss → All IsSeat (map g ss)
    each [] h = tt
    each (s ∷ ss) h = ((k s h.0).is_seat, each ss h.1)
