-- ===== src/Ttr/Scoring/Stations/Best.antt =====
-- The search tries every choice of one option for each station city, and what it returns is the
-- score of one of them, with no other scoring more.
use bgex_backend.Base.{
  append_assoc, append-nil, ℕ, zero, suc, ◌≡◌, refl, Option, none, some, List, [], ◌∷◌, ◌++◌, map,
  arith, sym, Bool-cases, inl, inr, subst, get_elem?, Option-cases,
}
use bgex_backend.Base.Int.{ℤ, less_ℤ, ◌≤ℤ◌}
use bgex_backend.Ttr.State.{Map, GameState, Player}
use bgex_backend.Ttr.Scoring.Stations.{
  StationOption, Evaluation, evaluate_assignment, offer, try_options, recurse,
  best_station_assignment, station_option_sets, options_of, sorted_ticket_ids, option_of, no_borrow,
}

-- One option from each set, in order.
pub data Choice : List StationOption → List (List StationOption) → Type 0 where
  nil : Choice [] []
  cons :
      {o : StationOption} {os : List StationOption} {opts : List StationOption}
      {rest : List (List StationOption)} (i : ℕ)
      → get_elem? opts i ≡ some o
      → Choice os rest
      → Choice (o ∷ os) (opts ∷ rest)

-- A result no worse than a given one, where there is one.
abbrev pub Reaches : Option Evaluation → ℤ → Type 0
Reaches none n = ⊥
Reaches (some ev) n = n ≤ℤ ev.net

-- A later result keeps up with an earlier one.
abbrev pub Improves : Option Evaluation → Option Evaluation → Type 0
Improves before after = (n : ℤ) → Reaches before n → Reaches after n

offer-Reaches : (ev : Evaluation) (best : Option Evaluation) → Reaches (offer ev best) ev.net
unfolding offer
offer-Reaches ev none = omega arith
offer-Reaches ev (some best) = elim (Bool-cases (less_ℤ best.net ev.net)) [
  | inl more ↦ rw more (omega arith)
  | inr less ↦ rw less (ground (arith, less))
]

offer-Improves : (ev : Evaluation) (best : Option Evaluation) → Improves best (offer ev best)
unfolding offer
offer-Improves ev none n h = absurd h
offer-Improves ev (some best) n h = elim (Bool-cases (less_ℤ best.net ev.net)) [
  | inl more ↦ rw more (ground (arith, more, h))
  | inr less ↦ rw less h
]

-- What holds of a result, where there is one.
abbrev pub Holds : (Evaluation → Type 0) → Option Evaluation → Type 0
Holds P none = Unit
Holds P (some ev) = P ev

offer-Holds :
    (P : Evaluation → Type 0) (ev : Evaluation) (best : Option Evaluation)
    → P ev
    → Holds P best
    → Holds P (offer ev best)
unfolding offer
offer-Holds P ev none new old = new
offer-Holds P ev (some best) new old = elim (Bool-cases (less_ℤ best.net ev.net)) [
  | inl more ↦ rw more new
  | inr less ↦ rw less old
]

-- The loop over the options of one city.
module _ (go : StationOption → Option Evaluation → Option Evaluation) where
  try_options-Improves :
      ((o : StationOption) (best : Option Evaluation) → Improves best (go o best))
      → (opts : List StationOption) (best : Option Evaluation)
      → Improves best (try_options go opts best)
  unfolding try_options
  try_options-Improves step [] best n h = h
  try_options-Improves step (o ∷ opts) best n h =
      try_options-Improves step opts (go o best) n (step o best n h)

  try_options-Reaches :
      ((o : StationOption) (best : Option Evaluation) → Improves best (go o best))
      → (opts : List StationOption) (best : Option Evaluation) (i : ℕ) {o : StationOption} (n : ℤ)
      → get_elem? opts i ≡ some o
      → ((b : Option Evaluation) → Reaches (go o b) n)
      → Reaches (try_options go opts best) n
  unfolding try_options
  try_options-Reaches step [] best i n at reach = absurd (cc)
  try_options-Reaches step (x ∷ opts) best zero n at reach =
      try_options-Improves step opts (go x best) n
        (subst (λ v. Reaches (go v best) n) (cc) (reach best))
  try_options-Reaches step (x ∷ opts) best (suc i) n at reach =
      try_options-Reaches step opts (go x best) i n at reach

  try_options-Holds :
      (P : Evaluation → Type 0) (opts : List StationOption)
      → ((i : ℕ) (o : StationOption)
          → get_elem? opts i ≡ some o
          → (b : Option Evaluation) → Holds P b
          → Holds P (go o b))
      → (best : Option Evaluation) → Holds P best
      → Holds P (try_options go opts best)
  unfolding try_options
  try_options-Holds P [] step best h = h
  try_options-Holds P (o ∷ opts) step best h =
      try_options-Holds P opts (λ i x at. step (suc i) x at) (go o best) (step 0 o refl best h)

module _ (m : Map) (p : Player) (ids : List ℕ) where
  recurse-Improves :
      (sets : List (List StationOption)) (combo : List StationOption) (best : Option Evaluation)
      → Improves best (recurse m p ids sets combo best)
  unfolding recurse
  recurse-Improves [] combo best = offer-Improves (evaluate_assignment m p combo ids) best
  recurse-Improves (opts ∷ sets) combo best =
      try_options-Improves _ (λ o b. recurse-Improves sets (combo ++ o ∷ []) b) opts best

  -- Every choice is tried.
  recurse-Reaches :
      {os : List StationOption} {sets : List (List StationOption)} (combo : List StationOption)
      (best : Option Evaluation)
      → Choice os sets
      → Reaches (recurse m p ids sets combo best) (evaluate_assignment m p (combo ++ os) ids).net
  unfolding recurse
  recurse-Reaches combo best nil =
      rw (append-nil combo) (offer-Reaches (evaluate_assignment m p combo ids) best)
  recurse-Reaches combo best (cons {o} {os} {opts} {rest} i at choice) =
      try_options-Reaches _ (λ x b. recurse-Improves rest (combo ++ x ∷ []) b) opts best i _ at
        (λ b.
          subst
            (λ c.
              Reaches (recurse m p ids rest (combo ++ o ∷ []) b)
                (evaluate_assignment m p c ids).net)
            (append_assoc combo (o ∷ []) os) (recurse-Reaches (combo ++ o ∷ []) b choice))

  -- Only choices are tried.
  recurse-Holds :
      (P : Evaluation → Type 0) (sets : List (List StationOption)) (combo : List StationOption)
      → ((os : List StationOption) → Choice os sets → P (evaluate_assignment m p (combo ++ os) ids))
      → (best : Option Evaluation) → Holds P best
      → Holds P (recurse m p ids sets combo best)
  unfolding recurse
  recurse-Holds P [] combo each best h =
      offer-Holds P (evaluate_assignment m p combo ids) best
        (subst (λ c. P (evaluate_assignment m p c ids)) (append-nil combo) (each [] nil)) h
  recurse-Holds P (opts ∷ sets) combo each best h =
      try_options-Holds _ P opts
        (λ i o at b held.
          recurse-Holds P sets (combo ++ o ∷ [])
            (λ os choice.
              subst (λ c. P (evaluate_assignment m p c ids)) (sym (append_assoc combo (o ∷ []) os))
                (each (o ∷ os) (cons i at choice)))
            b held)
        best h

-- The best choice: what `bestStationAssignment` returns is the score of one choice of an option for
-- each station city, and no other choice has a higher net score.
pub record IsBest (m : Map) (gs : GameState) (p : Player) (ev : Evaluation) : Type 0 where
  pub combo : List StationOption
  pub chosen : Choice combo (station_option_sets m gs p)
  pub scored : ev ≡ evaluate_assignment m p combo (sorted_ticket_ids p)
  pub highest :
      (os : List StationOption)
      → Choice os (station_option_sets m gs p)
      → (evaluate_assignment m p os (sorted_ticket_ids p)).net ≤ℤ ev.net

first_option :
    (m : Map) (gs : GameState) (p : Player) (c : ℕ)
    → get_elem? (options_of m gs p c) 0 ≡ some (option_of c no_borrow)
unfolding options_of
first_option m gs p c = refl

-- The choice that borrows nothing.
unborrowed :
    (m : Map) (gs : GameState) (p : Player) (cities : List ℕ)
    → Choice (map (λ c. option_of c no_borrow) cities) (map (options_of m gs p) cities)
unborrowed m gs p [] = nil
unborrowed m gs p (c ∷ cities) = cons 0 (first_option m gs p c) (unborrowed m gs p cities)

Reaches-some : (found : Option Evaluation) (n : ℤ) → Reaches found n → found ≡ none → ⊥
Reaches-some none n h e = h
Reaches-some (some ev) n h e = cc

-- The search over the borrowed routes always returns the score of one choice of an option for each
-- station city, and no choice has a higher net score.
pub best_station_assignment-IsBest :
    (m : Map) (gs : GameState) (p : Player)
    → (ev : Evaluation) × (best_station_assignment m gs p ≡ some ev) × IsBest m gs p ev
unfolding best_station_assignment station_option_sets
best_station_assignment-IsBest m gs p =
    let ids = sorted_ticket_ids p in
    let sets = station_option_sets m gs p in
    let idle = recurse-Reaches m p ids [] none (unborrowed m gs p p.station_cities) in
    elim (Option-cases (best_station_assignment m gs p)) [
      | inl none_there ↦ absurd (Reaches-some _ _ idle none_there)
      | inr found ↦
          let Scored : Evaluation → Type 0 = λ ev.
            (os : List StationOption) × Choice os sets × (ev ≡ evaluate_assignment m p os ids) in
          let attained =
            recurse-Holds m p ids Scored sets [] (λ os choice. (os, choice, refl)) none tt in
          let held : Scored found.0 = subst (Holds Scored) found.1 attained in
          (
            found.0,
            found.1,
            record {
              combo = held.0;
              chosen = held.1;
              scored = held.2;
              highest = λ os choice.
                  subst (λ b. Reaches b (evaluate_assignment m p os ids).net) found.1
                    (recurse-Reaches m p ids [] none choice);
            },
          )
    ]
