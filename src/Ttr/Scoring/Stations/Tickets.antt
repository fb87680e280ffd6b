-- ===== src/Ttr/Scoring/Stations/Tickets.antt =====
-- The loop of `evaluateAssignment` over the tickets: a ticket is completed exactly when its cities are
-- joined, each ticket counts once, and the net score is the points of the completed tickets less
-- those of the others.
use bgex_backend.Base.{
  sum_by-append, count_if-append, ap, sum_by, ◌&&◌, All-append, ◌+◌, Bool, if◌then◌else◌, ◌==◌,
  count_if, ℕ, ◌≡◌, Option, none, some, List, [], ◌∷◌, ◌++◌, arith, sym, Bool-cases, inl, inr, true,
  false, subst, Option-cases, All,
}
use bgex_backend.Base.Int.{parts-sub_ℕ, parts-+ℤ, neg_part, pos_part, ℤ, pos, opposite, ◌+ℤ◌}
use bgex_backend.Ttr.State.{Ticket, Map}
use bgex_backend.Ttr.Scoring.UnionFind.{connected}
use bgex_backend.Ttr.Scoring.UnionFind.Joined.{Joined}
use bgex_backend.Ttr.Scoring.UnionFind.Connected.{
  Represents, connected-Joined, connected-Represents,
}
use bgex_backend.Ttr.Scoring.Stations.{Tally, score_ticket, ticket_by_id}

abbrev is_there : Option Ticket → Bool
is_there none = false
is_there (some tk) = true

abbrev points_or_none : Option Ticket → ℤ
points_or_none none = pos 0
points_or_none (some tk) = tk.points

-- The ticket ids that the map knows, as a Boolean.
abbrev pub is_known : Map → ℕ → Bool
is_known m tid = is_there (ticket_by_id m tid)

-- A ticket of the map whose cities the links join, or do not join.
abbrev pub IsLinked : List (ℕ × ℕ) → Map → ℕ → Type 0
IsLinked es m tid = (tk : Ticket) × (ticket_by_id m tid ≡ some tk) × Joined es tk.a tk.b

abbrev pub IsUnlinked : List (ℕ × ℕ) → Map → ℕ → Type 0
IsUnlinked es m tid = (tk : Ticket) × (ticket_by_id m tid ≡ some tk) × ¬ (Joined es tk.a tk.b)

abbrev pub points_of : Map → ℕ → ℤ
points_of m tid = points_or_none (ticket_by_id m tid)

-- A tally in which each ticket stands where it belongs.
pub record IsJust (es : List (ℕ × ℕ)) (m : Map) (t : Tally) : Type 0 where
  pub parents : Represents es t.parent
  pub completed : All (IsLinked es m) t.completed
  pub missed : All (IsUnlinked es m) t.missed

abbrev pub counted : ℕ → Tally → ℕ
counted c t = count_if (λ i. i == c) t.completed + count_if (λ i. i == c) t.missed

abbrev pub is_counted : Map → ℕ → ℕ → Bool
is_counted m c i = (i == c) && is_known m i

-- The two sides of the points of a list of tickets.
abbrev pub gains : Map → List ℕ → ℕ
gains m = sum_by (λ i. pos_part (points_of m i))

abbrev pub losses : Map → List ℕ → ℕ
losses m = sum_by (λ i. neg_part (points_of m i))

-- The net score is the points of the completed tickets less those of the missed ones.
abbrev pub Balances : Map → Tally → Type 0
Balances m t =
    pos_part t.net + losses m t.completed + gains m t.missed
    ≡ neg_part t.net + gains m t.completed + losses m t.missed

module _ (es : List (ℕ × ℕ)) (m : Map) (tid : ℕ) (t : Tally) where
  abbrev completing : Ticket → Tally
  completing tk = record {
    parent = (connected tk.a tk.b t.parent).0;
    net = t.net +ℤ tk.points;
    completed = t.completed ++ tid ∷ [];
    missed = t.missed;
  }

  abbrev missing : Ticket → Tally
  missing tk = record {
    parent = (connected tk.a tk.b t.parent).0;
    net = t.net +ℤ opposite tk.points;
    completed = t.completed;
    missed = t.missed ++ tid ∷ [];
  }

  score_ticket-unknown : ticket_by_id m tid ≡ none → score_ticket m tid t ≡ t
  unfolding score_ticket
  score_ticket-unknown e = ground (arith, e)

  score_ticket-completing :
      (tk : Ticket)
      → ticket_by_id m tid ≡ some tk
      → (connected tk.a tk.b t.parent).1 ≡ true
      → score_ticket m tid t ≡ completing tk
  unfolding score_ticket
  score_ticket-completing tk e linked = ground (arith, e, linked)

  score_ticket-missing :
      (tk : Ticket)
      → ticket_by_id m tid ≡ some tk
      → (connected tk.a tk.b t.parent).1 ≡ false
      → score_ticket m tid t ≡ missing tk
  unfolding score_ticket
  score_ticket-missing tk e linked = ground (arith, e, linked)

  pub score_ticket-IsJust : IsJust es m t → IsJust es m (score_ticket m tid t)
  score_ticket-IsJust just = elim (Option-cases (ticket_by_id m tid)) [
    | inl unknown ↦ subst (IsJust es m) (sym (score_ticket-unknown unknown)) just
    | inr known ↦
        let tk = known.0 in
        let link = connected-Joined es t.parent just.parents tk.a tk.b in
        let after = connected-Represents es t.parent just.parents tk.a tk.b in
        elim (Bool-cases (connected tk.a tk.b t.parent).1) [
          | inl linked ↦
              subst (IsJust es m) (sym (score_ticket-completing tk known.1 linked)) (record {
                parents = after;
                completed =
                    All-append _ t.completed (tid ∷ []) just.completed
                      ((tk, known.1, link.0 linked), tt);
                missed = just.missed;
              })
          | inr apart ↦ subst (IsJust es m) (sym (score_ticket-missing tk known.1 apart)) (record {
            parents = after;
            completed = just.completed;
            missed =
                All-append _ t.missed (tid ∷ []) just.missed
                  ((tk, known.1, λ joined. (let linked = link.1 joined in cc)), tt);
          })
        ]
  ]

  pub score_ticket-counted :
      (c : ℕ)
      → counted c (score_ticket m tid t) ≡ counted c t + (if is_counted m c tid then 1 else 0)
  score_ticket-counted c = elim (Option-cases (ticket_by_id m tid)) [
    | inl unknown ↦
        let no_id : is_known m tid ≡ false = ap is_there unknown in
        rw (score_ticket-unknown unknown) (ground (arith, no_id))
    | inr known ↦
        let tk = known.0 in
        let an_id : is_known m tid ≡ true = ap is_there known.1 in
        elim (Bool-cases (connected tk.a tk.b t.parent).1) [
          | inl linked ↦
              rw (score_ticket-completing tk known.1 linked, count_if-append)
                (ground (arith, an_id))
          | inr apart ↦
              rw (score_ticket-missing tk known.1 apart, count_if-append) (ground (arith, an_id))
        ]
  ]

  pub score_ticket-Balances : Balances m t → Balances m (score_ticket m tid t)
  score_ticket-Balances h = elim (Option-cases (ticket_by_id m tid)) [
    | inl unknown ↦ subst (Balances m) (sym (score_ticket-unknown unknown)) h
    | inr known ↦
        let tk = known.0 in
        let worth : points_of m tid ≡ tk.points = ap points_or_none known.1 in
        elim (Bool-cases (connected tk.a tk.b t.parent).1) [
          | inl linked ↦ subst (Balances m) (sym (score_ticket-completing tk known.1 linked)) (
              rw (sum_by-append, sum_by-append, worth) (omega (arith, h, parts-+ℤ t.net tk.points)))
          | inr apart ↦ subst (Balances m) (sym (score_ticket-missing tk known.1 apart)) (
              rw (sum_by-append, sum_by-append, worth)
                (omega (
                  arith,
                  h,
                  parts-+ℤ t.net (opposite tk.points),
                  parts-sub_ℕ (neg_part tk.points) (pos_part tk.points),
                )))
        ]
  ]
