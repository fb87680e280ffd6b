-- ===== src/Poker/Streets/Conservation.antt =====
-- Closing a betting round: dealing moves no chips, and the showdown pays them out.
use bgex_backend.Base.{
  ℕ, zero, suc, ◌≤◌, ◌≡◌, refl, sym, ◌∙◌, true, List, [], ◌∷◌, ◌++◌, ltb, All-map_of, ok, ◌>>=◌,
  >>=-eq-ok, subst, arith, Bool-cases, inl, inr, Result,
}
use bgex_backend.Engine.{Error}
use bgex_backend.Poker.State.{
  Seat, Stage, unspecified, preflop, flop, turn, river, showdown, hand_over, TableState, Event,
  board_dealt, chips,
}
use bgex_backend.Poker.Pots.{return_uncalled}
use bgex_backend.Poker.Pots.Coverage.{covers, top_total}
use bgex_backend.Poker.Seats.{count_can_act}
use bgex_backend.Poker.Seats.Indices.{IsDistinct}
use bgex_backend.Poker.Seats.Table.{IsSeat, IsTable, Kept, Kept-IsTable, Rewrites, map-Kept}
use bgex_backend.Poker.Showdown.{run_showdown}
use bgex_backend.Poker.Showdown.Conservation.{
  is_dealt_in, chips-run_showdown-le, chips-run_showdown, run_showdown-indices, run_showdown-IsSeat,
}
use bgex_backend.Poker.Streets.{
  draw_card, deal_board, reset_seat, reset_round, deal_street, deal_out, run_out_and_showdown,
  continue_betting, next_street, close_stage, advance_stage,
}

-- Once the uncalled bet is returned, a player who has not folded has committed as much as anybody.
abbrev pub IsCovered : List Seat → Type 0
IsCovered seats = covers (top_total (return_uncalled seats)) (return_uncalled seats) ≡ true

-- What the rest of a hand does to the seats: it makes no chips, and loses none where the seats are
-- covered.
pub record Settled (old new : List Seat) : Type 0 where
  pub no_more : chips new ≤ chips old
  pub all_kept : IsCovered old → chips new ≡ chips old
  pub table : IsTable new

pub Settled-same : (seats : List Seat) → IsTable seats → Settled seats seats
Settled-same seats t = record { no_more = omega arith; all_kept = λ _. refl; table = t }

draw_card-seats : (ts d : TableState) (c : ℕ) → draw_card ts ≡ ok (c, d) → d.seats ≡ ts.seats
unfolding draw_card
draw_card-seats ts d c e = ground arith

deal_board-seats : (n : ℕ) (ts d : TableState) → deal_board n ts ≡ ok d → d.seats ≡ ts.seats
unfolding deal_board
deal_board-seats zero ts d e = ground arith
deal_board-seats (suc n) ts d e =
    let ((c, drawn), p, q) =
      >>=-eq-ok (draw_card ts) (λ r. deal_board n (record r.1 { board = r.1.board ++ r.0 ∷ [] }))
        e in
    deal_board-seats n (record drawn { board = drawn.board ++ c ∷ [] }) d q
    ∙ draw_card-seats ts drawn c p

deal_street-seats :
    (n : ℕ) (next : Stage) (ts d : TableState) → deal_street n next ts ≡ ok d → d.seats ≡ ts.seats
unfolding deal_street
deal_street-seats n next ts d e =
    let (dealt, p, q) = >>=-eq-ok (deal_board n ts) (λ t. ok (record t { stage = next })) e in
    ground (arith, q, deal_board-seats n ts dealt p)

end_seats :
    (s : Stage) (m : Result Error TableState) (ts d : TableState)
    → ((t : TableState) → m ≡ ok t → t.seats ≡ ts.seats)
    → (m >>= λ t. ok (record t { stage = s })) ≡ ok d
    → d.seats ≡ ts.seats
end_seats s m ts d h e =
    let (t, p, q) = >>=-eq-ok m (λ t. ok (record t { stage = s })) e in ground (arith, q, h t p)

deal_out-seats : (s : Stage) (ts d : TableState) → deal_out s ts ≡ ok d → d.seats ≡ ts.seats
unfolding deal_out
deal_out-seats unspecified ts d e = absurd (cc)
deal_out-seats hand_over ts d e = absurd (cc)
deal_out-seats showdown ts d e = ground arith
deal_out-seats river ts d e = ground arith
deal_out-seats turn ts d e =
    end_seats showdown (deal_street 1 river ts) ts d (λ t p. deal_street-seats 1 river ts t p) e
deal_out-seats flop ts d e =
    let after =
      λ (t : TableState). deal_street 1 river t >>= λ r. ok (record r { stage = showdown }) in
    let (t, p, q) = >>=-eq-ok (deal_street 1 turn ts) after e in
    end_seats showdown (deal_street 1 river t) t d (λ r s. deal_street-seats 1 river t r s) q
    ∙ deal_street-seats 1 turn ts t p
deal_out-seats preflop ts d e =
    let last =
      λ (t : TableState). deal_street 1 river t >>= λ r. ok (record r { stage = showdown }) in
    let after = λ (f : TableState). deal_street 1 turn f >>= last in
    let (f, p, q) = >>=-eq-ok (deal_street 3 flop ts) after e in
    let (t, r, u) = >>=-eq-ok (deal_street 1 turn f) last q in
    end_seats showdown (deal_street 1 river t) t d (λ x s. deal_street-seats 1 river t x s) u
    ∙ deal_street-seats 1 turn f t r
    ∙ deal_street-seats 3 flop ts f p

run_showdown-Settled :
    (ts : TableState) (done : TableState × List Event)
    → IsTable ts.seats
    → run_showdown ts ≡ ok done
    → Settled ts.seats done.0.seats
run_showdown-Settled ts done t e = record {
  no_more = chips-run_showdown-le ts done t.distinct e;
  all_kept = λ c.
      chips-run_showdown ts done t.distinct
        (All-map_of IsSeat (λ s. is_dealt_in s ≡ true) (λ s g. g.dealt_in) ts.seats t.each) c e;
  table = record {
    distinct = subst IsDistinct (sym (run_showdown-indices ts done e)) t.distinct;
    each = run_showdown-IsSeat ts done e;
  };
}

pub run_out_and_showdown-Settled :
    (ts : TableState) (done : TableState × List Event)
    → IsTable ts.seats
    → run_out_and_showdown ts ≡ ok done
    → Settled ts.seats done.0.seats
unfolding run_out_and_showdown
run_out_and_showdown-Settled ts done t e =
    let (dealt, p, q) = >>=-eq-ok (deal_out ts.stage ts) run_showdown e in
    let same = deal_out-seats ts.stage ts dealt p in
    subst (λ seats. Settled seats done.0.seats) same
      (run_showdown-Settled dealt done (subst IsTable (sym same) t) q)

continue_betting-Settled :
    (ev : Event) (ts : TableState) (done : TableState × List Event)
    → IsTable ts.seats
    → continue_betting ev ts ≡ ok done
    → Settled ts.seats done.0.seats
unfolding continue_betting
continue_betting-Settled ev ts done t e = elim (Bool-cases (ltb (count_can_act ts.seats) 2)) [
  | inl closed ↦
      let (ran, p, q) =
        >>=-eq-ok (run_out_and_showdown ts) (λ r. ok (r.0, ev ∷ r.1)) (rw closed at e) in
      subst (Settled ts.seats) (ground (arith, q)) (run_out_and_showdown-Settled ts ran t p)
  | inr open_still ↦ subst (Settled ts.seats) (ground (arith, open_still)) (Settled-same ts.seats t)
]

next_street-Settled :
    (n : ℕ) (next : Stage) (ts : TableState) (done : TableState × List Event)
    → IsTable ts.seats
    → next_street n next ts ≡ ok done
    → Settled ts.seats done.0.seats
unfolding next_street
next_street-Settled n next ts done t e =
    let (dealt, p, q) =
      >>=-eq-ok (deal_street n next ts) (λ d. continue_betting (board_dealt next d.board) d) e in
    let same = deal_street-seats n next ts dealt p in
    subst (λ seats. Settled seats done.0.seats) same
      (continue_betting-Settled (board_dealt next dealt.board) dealt done
        (subst IsTable (sym same) t) q)

close_stage-Settled :
    (s : Stage) (ts : TableState) (done : TableState × List Event)
    → IsTable ts.seats
    → close_stage s ts ≡ ok done
    → Settled ts.seats done.0.seats
unfolding close_stage
close_stage-Settled preflop ts done t e = next_street-Settled 3 flop ts done t e
close_stage-Settled flop ts done t e = next_street-Settled 1 turn ts done t e
close_stage-Settled turn ts done t e = next_street-Settled 1 river ts done t e
close_stage-Settled river ts done t e = run_showdown-Settled ts done t e
close_stage-Settled _ ts done t e =
    subst (Settled ts.seats) (ground arith) (Settled-same ts.seats t)

reset_seat-Rewrites : (s : Seat) → IsSeat s → Rewrites s (reset_seat s)
reset_seat-Rewrites s good = ground arith

pub reset_round-Kept : (ts : TableState) → IsTable ts.seats → Kept ts.seats (reset_round ts).seats
unfolding reset_round
reset_round-Kept ts t = map-Kept reset_seat reset_seat-Rewrites ts.seats t

-- Closing a betting round, with the showdown that may follow.
pub advance_stage-Settled :
    (ts : TableState) (done : TableState × List Event)
    → IsTable ts.seats
    → advance_stage ts ≡ ok done
    → Settled (reset_round ts).seats done.0.seats
unfolding advance_stage
advance_stage-Settled ts done t e =
    close_stage-Settled ts.stage (reset_round ts) done (Kept-IsTable _ _ t (reset_round-Kept ts t))
      e
