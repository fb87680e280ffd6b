-- ===== src/Ttr/Scoring/Stations/Fair.antt =====
-- `evaluateAssignment` scores any choice of borrowed routes fairly.
use bgex_backend.Base.{
  ap, ◌+◌, ◌==◌, count_if, ℕ, ◌≡◌, refl, List, [], ◌∷◌, arith, sym, ◌∙◌, subst, All,
}
use bgex_backend.Base.Int.{neg_part, pos_part, pos}
use bgex_backend.Ttr.State.{Map, Player}
use bgex_backend.Ttr.Scoring.UnionFind.{unite_all}
use bgex_backend.Ttr.Scoring.UnionFind.Connected.{Represents, unite_all-Represents}
use bgex_backend.Ttr.Scoring.Stations.{
  StationOption, Evaluation, evaluate_assignment, unite_claimed, borrow_all, Tally, score_ticket,
  score_tickets,
}
use bgex_backend.Ttr.Scoring.Stations.Links.{
  links, links_under, borrowed_ids, unite_claimed-links, borrow_all-links, unite_all-append,
}
use bgex_backend.Ttr.Scoring.Stations.Tickets.{
  IsJust, Balances, counted, IsLinked, IsUnlinked, is_counted, gains, losses, score_ticket-IsJust,
  score_ticket-counted, score_ticket-Balances,
}

score_tickets-IsJust :
    (es : List (ℕ × ℕ)) (m : Map) (ids : List ℕ) (t : Tally)
    → IsJust es m t
    → IsJust es m (score_tickets m ids t)
unfolding score_tickets
score_tickets-IsJust es m [] t just = just
score_tickets-IsJust es m (tid ∷ ids) t just =
    score_tickets-IsJust es m ids (score_ticket m tid t) (score_ticket-IsJust es m tid t just)

score_tickets-Balances :
    (m : Map) (ids : List ℕ) (t : Tally) → Balances m t → Balances m (score_tickets m ids t)
unfolding score_tickets
score_tickets-Balances m [] t h = h
score_tickets-Balances m (tid ∷ ids) t h =
    score_tickets-Balances m ids (score_ticket m tid t) (score_ticket-Balances [] m tid t h)

score_tickets-counted :
    (m : Map) (c : ℕ) (ids : List ℕ) (t : Tally)
    → counted c (score_tickets m ids t) ≡ counted c t + count_if (is_counted m c) ids
unfolding score_tickets
score_tickets-counted m c [] t = omega arith
score_tickets-counted m c (tid ∷ ids) t =
    let rest = score_tickets-counted m c ids (score_ticket m tid t) in
    omega (arith, rest, score_ticket-counted [] m tid t c)

-- A fair score of the tickets under a choice: those completed are the ones whose cities the player's
-- own and borrowed routes join, each ticket of the map counts as often as the player holds it, and
-- the net score is the points of those completed less the points of the others.
pub record IsFair (m : Map) (p : Player) (combo : List StationOption) (ids : List ℕ)
    (ev : Evaluation) : Type 0 where
  pub completed : All (IsLinked (links_under m p combo) m) ev.completed
  pub missed : All (IsUnlinked (links_under m p combo) m) ev.missed
  pub each :
      (c : ℕ)
      → count_if (λ i. i == c) ev.completed + count_if (λ i. i == c) ev.missed
        ≡ count_if (is_counted m c) ids
  pub net :
      pos_part ev.net + losses m ev.completed + gains m ev.missed
      ≡ neg_part ev.net + gains m ev.completed + losses m ev.missed

-- Any choice of borrowed routes is scored fairly.
pub evaluate_assignment-IsFair :
    (m : Map) (p : Player) (combo : List StationOption) (ids : List ℕ)
    → IsFair m p combo ids (evaluate_assignment m p combo ids)
unfolding evaluate_assignment
evaluate_assignment-IsFair m p combo ids =
    let own = unite_claimed m p.claimed_route_ids [] in
    let borrowed = borrow_all m combo (record { parent = own; assignment = [] }) in
    let es = links_under m p combo in
    let first : Tally = record {
      parent = borrowed.parent;
      net = pos 0;
      completed = [];
      missed = [];
    } in
    let built : borrowed.parent ≡ unite_all es [] =
      borrow_all-links m combo (record { parent = own; assignment = [] })
      ∙ ap (unite_all (links m (borrowed_ids combo))) (unite_claimed-links m p.claimed_route_ids [])
      ∙ sym (unite_all-append (links m p.claimed_route_ids) (links m (borrowed_ids combo)) []) in
    let just : IsJust es m first = record {
      parents = subst (Represents es) (sym built) (unite_all-Represents es);
      completed = tt;
      missed = tt;
    } in
    let judged = score_tickets-IsJust es m ids first just in
    record {
      completed = judged.completed;
      missed = judged.missed;
      each = λ c. omega (arith, score_tickets-counted m c ids first);
      net = score_tickets-Balances m ids first refl;
    }
