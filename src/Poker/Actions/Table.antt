-- ===== src/Poker/Actions/Table.antt =====
-- `applyAction` moves chips from the acting seat's stack to the pot and changes nothing else of the
-- chips.
use bgex_backend.Base.{
  ℕ, suc, ◌-◌, ◌≤◌, ◌≡◌, true, some, List, leb, find_first, update_first, find_first-All, ok, arith,
  Bool-cases, inl, inr, subst, sym,
}
use bgex_backend.Base.Int.{ℤ, pos, negsuc, pos_part, sub_ℕ, ◌-ℤ◌}
use bgex_backend.Poker.State.{
  Seat, TableState, folded, ActionType, fold, check, call, bet, raise, unknown, is_active,
}
use bgex_backend.Poker.Seats.{belongs_to}
use bgex_backend.Poker.Seats.Table.{
  IsSeat, IsTable, Kept, Kept-IsTable, Kept-trans, Rewrites, write-Kept, map-Kept,
}
use bgex_backend.Poker.Actions.{
  commit, must_respond, reopen, mark_acted, write_seat, smaller, apply_fold, apply_check,
  apply_call, commit_and_reopen, apply_bet, take_raise, apply_raise, apply_action,
}

-- What the guards ensure of a payment: the stack covers it, or it takes back less than the seat
-- committed this round.
abbrev pub Payable : Seat → ℤ → Type 0
Payable s (pos n) = n ≤ s.stack
Payable s (negsuc n) = suc n ≤ s.committed

commit-Rewrites :
    (s : Seat) (pay : ℤ)
    → IsSeat s
    → is_active s.status ≡ true
    → Payable s pay
    → Rewrites s (mark_acted (commit s pay))
unfolding commit
commit-Rewrites s (pos n) good a h = ground arith
commit-Rewrites s (negsuc n) good a h = ground arith

must_respond-Rewrites : (raiser : ℕ) (s : Seat) → IsSeat s → Rewrites s (must_respond raiser s)
must_respond-Rewrites raiser s good = ground arith

reopen-Kept : (raiser : ℕ) (seats : List Seat) → IsTable seats → Kept seats (reopen raiser seats)
unfolding reopen
reopen-Kept raiser seats t = map-Kept (must_respond raiser) (must_respond-Rewrites raiser) seats t

call_Payable :
    (s : Seat) (current_bet : ℕ) → Payable s (smaller (sub_ℕ current_bet s.committed) s.stack)
call_Payable s current_bet = ground arith

-- The acting seat: found by its user, and active.
module _ (ts : TableState) (s : Seat) (table : IsTable ts.seats)
    (found : find_first (belongs_to s.user_id) ts.seats ≡ some s)
    (turn : is_active s.status ≡ true) where
  acting : IsSeat s
  acting = find_first-All IsSeat (belongs_to s.user_id) ts.seats s found table.each

  write_seat-Kept : (t : Seat) → Rewrites s t → Kept ts.seats (write_seat t ts.seats)
  unfolding write_seat
  write_seat-Kept t r =
      subst (λ u. Kept ts.seats (update_first (belongs_to u) (λ _. t) ts.seats)) (sym r.same_user)
        (write-Kept (belongs_to s.user_id) s t ts.seats table found r)

  commit_and_reopen-Kept :
      (pay : ℤ) → Payable s pay → Kept ts.seats (commit_and_reopen s pay ts.seats)
  unfolding commit_and_reopen
  commit_and_reopen-Kept pay h =
      let one = write_seat-Kept _ (commit-Rewrites s pay acting turn h) in
      Kept-trans _ _ _ one (reopen-Kept s.seat_index _ (Kept-IsTable _ _ table one))

  apply_fold-Kept : (moved : TableState) → apply_fold ts s ≡ ok moved → Kept ts.seats moved.seats
  unfolding apply_fold
  apply_fold-Kept moved e =
      subst (Kept ts.seats) (ground arith)
        (write_seat-Kept (record s { status = folded; has_acted = true }) (ground (arith, acting)))

  apply_check-Kept : (moved : TableState) → apply_check ts s ≡ ok moved → Kept ts.seats moved.seats
  unfolding apply_check
  apply_check-Kept moved e =
      subst (Kept ts.seats) (ground arith) (write_seat-Kept (mark_acted s) (ground (arith, acting)))

  apply_call-Kept : (moved : TableState) → apply_call ts s ≡ ok moved → Kept ts.seats moved.seats
  unfolding apply_call
  apply_call-Kept moved e =
      let pay = smaller (sub_ℕ ts.current_bet s.committed) s.stack in
      subst (Kept ts.seats) (ground arith) (
        write_seat-Kept (mark_acted (commit s pay))
          (commit-Rewrites s pay acting turn (call_Payable s ts.current_bet)))

  apply_bet-Kept :
      (target : ℤ) (moved : TableState)
      → apply_bet ts s target ≡ ok moved
      → Kept ts.seats moved.seats
  unfolding apply_bet
  apply_bet-Kept target moved e =
      subst (Kept ts.seats) (ground arith)
        (commit_and_reopen-Kept (target -ℤ s.committed) (ground arith))

  apply_raise-Kept :
      (target : ℤ) (moved : TableState)
      → apply_raise ts s target ≡ ok moved
      → Kept ts.seats moved.seats
  unfolding apply_raise take_raise
  apply_raise-Kept target moved e =
      elim (Bool-cases (leb ts.min_raise (pos_part target - ts.current_bet))) [
        | inl full ↦
            subst (Kept ts.seats) (ground arith)
              (commit_and_reopen-Kept (target -ℤ s.committed) (ground arith))
        | inr short ↦ subst (Kept ts.seats) (ground arith) (
            write_seat-Kept (mark_acted (commit s (target -ℤ s.committed)))
              (commit-Rewrites s (target -ℤ s.committed) acting turn (ground arith)))
      ]

  -- Every legal action keeps the chips, the seats and the table's invariant.
  pub apply_action-Kept :
      (type : ActionType) (amount : ℤ) (moved : TableState)
      → apply_action ts s type amount ≡ ok moved
      → Kept ts.seats moved.seats
  unfolding apply_action
  apply_action-Kept fold amount moved e = apply_fold-Kept moved e
  apply_action-Kept check amount moved e = apply_check-Kept moved e
  apply_action-Kept call amount moved e = apply_call-Kept moved e
  apply_action-Kept bet amount moved e = apply_bet-Kept amount moved e
  apply_action-Kept raise amount moved e = apply_raise-Kept amount moved e
  apply_action-Kept unknown amount moved e = absurd (cc)
