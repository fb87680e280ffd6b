-- ===== src/Poker/Actions/Apply.antt =====
-- `Apply`: what a whole action, with all that it triggers, does to the table.
use bgex_backend.Base.{
  ℕ, ◌≤◌, ◌≡◌, refl, sym, ◌∙◌, true, not, some, List, ◌∷◌, ◌==◌, All, find_first, find_first-All,
  find_first-holds, update_first, sum_by-update_first, map-update_first, ok, ◌>>=◌, >>=-eq-ok,
  or_panic, raise_if-eq-ok, or_raise-eq-ok, or_panic-eq-ok, ap, subst, arith, Bool-cases,
  Option-cases, inl, inr, Result, ==_iff,
}
use bgex_backend.Engine.{Error, illegal_action, not_your_turn}
use bgex_backend.Poker.State.{
  Seat, TableState, Action, Event, acted, Outcome, is_active, is_live, sits_at, chips,
}
use bgex_backend.Poker.Pots.Layers.{committed_total}
use bgex_backend.Poker.Seats.{
  belongs_to, seat_by_user, next_actor, non_folded_count, last_live_seat,
}
use bgex_backend.Poker.Seats.Indices.{Finds, Finds-itself}
use bgex_backend.Poker.Seats.Table.{IsTable, Kept, Kept-IsTable}
use bgex_backend.Poker.Showdown.{add_stack, end_hand_uncontested}
use bgex_backend.Poker.Showdown.Uncalled.{chips-stacks, chips-clear_commitments}
use bgex_backend.Poker.Showdown.Conservation.{indices-cleared, cleared-IsSeat}
use bgex_backend.Poker.Streets.{reset_round, advance_stage}
use bgex_backend.Poker.Streets.Conservation.{IsCovered, reset_round-Kept, advance_stage-Settled}
use bgex_backend.Poker.Actions.{apply_action, is_hand_over, is_turn_of, resolve_next, act, apply}
use bgex_backend.Poker.Actions.Table.{apply_action-Kept}

-- Between two actions: the seats form a table, and the seat whose turn it is is active.
pub record IsGame (ts : TableState) : Type 0 where
  pub table : IsTable ts.seats
  pub turn :
      All (λ s. is_turn_of ts.current_turn s.seat_index ≡ true → is_active s.status ≡ true) ts.seats

-- The last player gets the whole pot.
end_hand_uncontested-Kept :
    (ts : TableState) (winner : Seat)
    → IsTable ts.seats
    → last_live_seat ts.seats ≡ some winner
    → Kept ts.seats (end_hand_uncontested ts winner).0.seats
unfolding end_hand_uncontested last_live_seat
end_hand_uncontested-Kept ts winner t e =
    let pot = committed_total ts.seats in
    let paid = update_first (sits_at winner.seat_index) (add_stack pot) ts.seats in
    let found =
      find_first-All (Finds ts.seats) (λ s. is_live s.status) ts.seats winner e
        (Finds-itself ts.seats t.distinct) in
    record {
      same_chips = omega (
        arith,
        chips-clear_commitments paid,
        sum_by-update_first (λ s. s.stack) (sits_at winner.seat_index) (add_stack pot) ts.seats
            winner found,
        chips-stacks ts.seats,
      );
      same_indices =
          indices-cleared paid
          ∙ map-update_first (λ s. s.seat_index) (sits_at winner.seat_index) (add_stack pot)
              (λ s. refl) ts.seats;
      seats_ok = cleared-IsSeat paid;
    }

abbrev moved_to : TableState → Result Error TableState
moved_to t = ok t

abbrev ended : TableState × List Event → Outcome
ended r = ok r

-- What an action triggers makes no chips, loses none where the seats are covered when the betting
-- round closes, and hands the turn to an active seat.
pub record Resolved (old new : TableState) : Type 0 where
  pub no_more : chips new.seats ≤ chips old.seats
  pub all_kept : IsCovered (reset_round old).seats → chips new.seats ≡ chips old.seats
  pub table : IsTable new.seats

award_last-Resolved :
    (ts : TableState) (done : TableState × List Event)
    → IsTable ts.seats
    → (or_panic (last_live_seat ts.seats) >>= λ w. ended (end_hand_uncontested ts w)) ≡ ok done
    → Resolved ts done.0
award_last-Resolved ts done t e =
    let (winner, p, q) =
      or_panic-eq-ok (last_live_seat ts.seats) (λ w. ended (end_hand_uncontested ts w)) e in
    let k : Kept ts.seats done.0.seats =
      subst (Kept ts.seats) (ground (arith, q)) (end_hand_uncontested-Kept ts winner t p) in
    record {
      no_more = omega (arith, k.same_chips);
      all_kept = λ _. k.same_chips;
      table = Kept-IsTable ts.seats done.0.seats t k;
    }

close_round-Resolved :
    (ts : TableState) (done : TableState × List Event)
    → IsTable ts.seats
    → advance_stage ts ≡ ok done
    → Resolved ts done.0
close_round-Resolved ts done t e =
    let s = advance_stage-Settled ts done t e in
    let k = reset_round-Kept ts t in
    record {
      no_more = omega (arith, s.no_more, k.same_chips);
      all_kept = λ c. s.all_kept c ∙ k.same_chips;
      table = s.table;
    }

pub resolve_next-Resolved :
    (ts : TableState) (actor : ℕ) (done : TableState × List Event)
    → IsTable ts.seats
    → resolve_next ts actor ≡ ok done
    → Resolved ts done.0
unfolding resolve_next
resolve_next-Resolved ts actor done t e = elim (Bool-cases (non_folded_count ts.seats == 1)) [
  | inl one ↦ award_last-Resolved ts done t (rw one at e)
  | inr more ↦ elim (Option-cases (next_actor ts actor)) [
    | inl none_left ↦ close_round-Resolved ts done t (rw none_left at (rw more at e))
    | inr (j, next) ↦
        let same : done.0.seats ≡ ts.seats = ground (arith, more, next) in
        record {
          no_more = rw same (omega arith);
          all_kept = λ _. ap chips same;
          table = subst IsTable (sym same) t;
        }
  ]
]

-- The parts of an action that succeeds: the seat found, and the state after the action itself.
pub record Played (ts : TableState) (a : Action) (done : TableState) : Type 0 where
  pub seat : Seat
  pub moved : TableState
  pub found : seat_by_user ts.seats a.user_id ≡ some seat
  pub its_turn : is_turn_of ts.current_turn seat.seat_index ≡ true
  pub action : apply_action ts seat a.type a.amount ≡ ok moved
  pub kept : Kept ts.seats moved.seats
  pub resolved : Resolved moved done

act-Played :
    (ts : TableState) (a : Action) (done : TableState × List Event) (seat : Seat)
    → IsGame ts
    → seat_by_user ts.seats a.user_id ≡ some seat
    → is_turn_of ts.current_turn seat.seat_index ≡ true
    → act ts seat a ≡ ok done
    → Played ts a done.0
unfolding act seat_by_user
act-Played ts a done seat g f t e =
    let own =
      (==_iff seat.user_id a.user_id).0 (find_first-holds (belongs_to a.user_id) ts.seats seat f) in
    let active =
      find_first-All
        (λ s. is_turn_of ts.current_turn s.seat_index ≡ true → is_active s.status ≡ true)
        (belongs_to a.user_id) ts.seats seat f g.turn t in
    let say = λ (r : TableState × List Event).
      ended (r.0, acted seat.seat_index seat.user_id a.type a.amount ∷ r.1) in
    let (moved, p, q) =
      >>=-eq-ok (apply_action ts seat a.type a.amount) (λ m. resolve_next m seat.seat_index >>= say)
        e in
    let (next, r, u) = >>=-eq-ok (resolve_next moved seat.seat_index) say q in
    let kept =
      apply_action-Kept ts seat g.table
        (subst (λ v. find_first (belongs_to v) ts.seats ≡ some seat) (sym own) f) active a.type
        a.amount moved p in
    record {
      seat = seat;
      moved = moved;
      found = f;
      its_turn = t;
      action = p;
      kept = kept;
      resolved =
          subst (Resolved moved) (ground (arith, u))
            (resolve_next-Resolved moved seat.seat_index next (Kept-IsTable _ _ g.table kept) r);
    }

pub apply-Played :
    (ts : TableState) (a : Action) (done : TableState × List Event)
    → IsGame ts
    → apply ts a ≡ ok done
    → Played ts a done.0
unfolding apply
apply-Played ts a done g e =
    let (_, p) = raise_if-eq-ok (is_hand_over ts.stage) illegal_action _ e in
    let (seat, f, q) = or_raise-eq-ok (seat_by_user ts.seats a.user_id) illegal_action _ p in
    let (t, r) =
      raise_if-eq-ok (not (is_turn_of ts.current_turn seat.seat_index)) not_your_turn
        (act ts seat a) q in
    act-Played ts a done seat g f (ground (arith, t)) r

-- An action that succeeds never creates chips.
pub chips-apply-le :
    (ts : TableState) (a : Action) (done : TableState × List Event)
    → IsGame ts
    → apply ts a ≡ ok done
    → chips done.0.seats ≤ chips ts.seats
chips-apply-le ts a done g e =
    let p = apply-Played ts a done g e in omega (arith, p.kept.same_chips, p.resolved.no_more)
