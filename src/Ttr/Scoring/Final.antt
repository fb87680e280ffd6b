-- ===== src/Ttr/Scoring/Final.antt =====
-- `FinalScore` as a whole: each active player has the breakdown of its own score, with its rank
-- among the active players, and each one who resigned the empty breakdown.
use bgex_backend.Base.{
  ◌>>=◌, ℕ, zero, suc, ◌+◌, ◌<◌, ◌≤◌, ◌≡◌, ◌≢◌, ◌⊎◌, inl, inr, refl, sym, ◌∙◌, ap, subst, true,
  false, some, List, [], ◌∷◌, ◌++◌, get_elem?, length, All, All-map_of, All-append, arith,
  Bool-cases, append_assoc, ok, >>=-eq-ok,
}
use bgex_backend.Ttr.State.{Map, GameState, Player, ScoreBreakdown}
use bgex_backend.Ttr.Scoring.{
  Longest, longest_of, breakdown_of, resigned_breakdown, rankable_for, score_players, final_score,
}
use bgex_backend.Ttr.Scoring.Ranks.{Rankable, assign_ranks}
use bgex_backend.Ttr.Scoring.Ranks.Numbered.{IsApart, applied}
use bgex_backend.Ttr.Scoring.Ranks.Competition.{
  HasPlaces, placed, assign_ranks-placed, assign_ranks-frame,
}

-- How the loop of FinalScore builds `results` and `ranked`.
data Scored (m : Map) (gs : GameState) (l : Longest)
    : ℕ → List Player → List ScoreBreakdown → List Rankable → Type 0 where
  nil : {i : ℕ} → Scored m gs l i [] [] []
  left :
      {i : ℕ} {p : Player} {ps : List Player} {sbs : List ScoreBreakdown} {rs : List Rankable}
      → p.resigned ≡ true
      → Scored m gs l (suc i) ps sbs rs
      → Scored m gs l i (p ∷ ps) (resigned_breakdown (length gs.players) p ∷ sbs) rs
  stayed :
      {i : ℕ} {p : Player} {ps : List Player} {sbs : List ScoreBreakdown} {rs : List Rankable}
      (sb : ScoreBreakdown)
      → p.resigned ≡ false
      → breakdown_of m gs l p ≡ ok sb
      → Scored m gs l (suc i) ps sbs rs
      → Scored m gs l i (p ∷ ps) (sb ∷ sbs) (rankable_for i sb p ∷ rs)

module _ (m : Map) (gs : GameState) (l : Longest) (i : ℕ) (p : Player) (ps : List Player) where
  pub left_branch :
      p.resigned ≡ true
      → score_players m gs l i (p ∷ ps) ≡ (
          score_players m gs l (suc i) ps >>= λ s.
          ok (resigned_breakdown (length gs.players) p ∷ s.0, s.1))
  unfolding score_players
  left_branch gone = rw (gone, score_players) refl

  pub stay_branch :
      p.resigned ≡ false
      → score_players m gs l i (p ∷ ps) ≡ (
          breakdown_of m gs l p >>= λ sb.
          score_players m gs l (suc i) ps >>= λ s. ok (sb ∷ s.0, rankable_for i sb p ∷ s.1))
  unfolding score_players
  stay_branch stays = rw (stays, score_players) refl

pub no_players :
    (m : Map) (gs : GameState) (l : Longest) (i : ℕ) → score_players m gs l i [] ≡ ok ([], [])
unfolding score_players
no_players m gs l i = refl

score_players-Scored :
    (m : Map) (gs : GameState) (l : Longest) (i : ℕ) (ps : List Player)
    (out : List ScoreBreakdown × List Rankable)
    → score_players m gs l i ps ≡ ok out
    → Scored m gs l i ps out.0 out.1
score_players-Scored m gs l i [] out done =
    let both = sym (no_players m gs l i) ∙ done in
    let empty : ([], []) ≡ out = cc in subst (λ o. Scored m gs l i [] o.0 o.1) empty nil
score_players-Scored m gs l i (p ∷ ps) out done = elim (Bool-cases p.resigned) [
  | inl gone ↦
      let rest =
        >>=-eq-ok (score_players m gs l (suc i) ps) _
          (sym (left_branch m gs l i p ps gone) ∙ done) in
      let tail = score_players-Scored m gs l (suc i) ps rest.0 rest.1 in
      let same : (resigned_breakdown (length gs.players) p ∷ rest.0.0, rest.0.1) ≡ out = cc in
      subst (λ o. Scored m gs l i (p ∷ ps) o.0 o.1) same (left gone tail)
  | inr stays ↦
      let own =
        >>=-eq-ok (breakdown_of m gs l p) _ (sym (stay_branch m gs l i p ps stays) ∙ done) in
      let rest = >>=-eq-ok (score_players m gs l (suc i) ps) _ own.2 in
      let tail = score_players-Scored m gs l (suc i) ps rest.0 rest.1 in
      let same : (own.0 ∷ rest.0.0, rankable_for i own.0 p ∷ rest.0.1) ≡ out = cc in
      subst (λ o. Scored m gs l i (p ∷ ps) o.0 o.1) same (stayed own.0 stays own.1 tail)
]

-- The places that the entries of the loop have: one each, from its index on.
Scored-after :
    {m : Map} {gs : GameState} {l : Longest} {i : ℕ} {ps : List Player} {sbs : List ScoreBreakdown}
    {rs : List Rankable}
    → Scored m gs l i ps sbs rs
    → All (λ r. i ≤ r.idx) rs
Scored-after nil = tt
Scored-after (left gone rest) = All-map_of _ _ (λ r h. omega (arith, h)) _ (Scored-after rest)
Scored-after (stayed {i = i} {p = p} sb stays own rest) =
    (omega arith, All-map_of _ _ (λ r h. omega (arith, h)) _ (Scored-after rest))

Scored-IsApart :
    {m : Map} {gs : GameState} {l : Longest} {i : ℕ} {ps : List Player} {sbs : List ScoreBreakdown}
    {rs : List Rankable}
    → Scored m gs l i ps sbs rs
    → IsApart rs
Scored-IsApart nil = tt
Scored-IsApart (left gone rest) = Scored-IsApart rest
Scored-IsApart (stayed sb stays own rest) = (
  All-map_of _ _ (λ r h. (λ same. omega (arith, h, same))) _ (Scored-after rest),
  Scored-IsApart rest,
)

-- What FinalScore promises for the player at an index.
abbrev pub Outcome : Map → GameState → List Rankable → List ScoreBreakdown → ℕ → Player → Type 0
Outcome m gs ranked out i p =
    ((p.resigned ≡ true) × (get_elem? out i ≡ some (resigned_breakdown (length gs.players) p)))
    ⊎ ((p.resigned ≡ false)
        × (sb : ScoreBreakdown) × (breakdown_of m gs (longest_of m gs) p ≡ ok sb)
        × (get_elem? out i ≡ some (placed ranked (rankable_for i sb p) sb)))

-- The list `ranked` is split at the player: the entries before it, and those from it on.
module _ (m : Map) (gs : GameState) (ranked : List Rankable) (full out : List ScoreBreakdown)
    (frame : (j : ℕ) → All (λ r. j ≢ r.idx) ranked → get_elem? out j ≡ get_elem? full j) where
  Scored-Outcome :
      {i : ℕ} {ps : List Player} {sbs : List ScoreBreakdown} {rs : List Rankable}
      → Scored m gs (longest_of m gs) i ps sbs rs
      → (earlier : List Rankable) → ranked ≡ earlier ++ rs
      → All (λ r. r.idx < i) earlier
      → ((k : ℕ) → get_elem? full (i + k) ≡ get_elem? sbs k)
      → All (λ r. get_elem? out r.idx ≡ applied (placed ranked r) (get_elem? full r.idx)) rs
      → (k : ℕ) (p : Player) → get_elem? ps k ≡ some p
      → Outcome m gs ranked out (i + k) p
  Scored-Outcome nil earlier split before view each k p at = absurd (cc)
  Scored-Outcome {i} (left {p = q} {sbs = sbs} {rs = rs} gone rest) earlier split before view each
        zero p at =
      let same : q ≡ p = cc in
      let away : All (λ r. i ≢ r.idx) ranked = subst (All (λ r. i ≢ r.idx)) (sym split) (
        All-append _ earlier rs (All-map_of _ _ (λ r h s. omega (arith, h, s)) earlier before)
          (All-map_of _ _ (λ r h s. omega (arith, h, s)) rs (Scored-after rest))) in
      let zero_more : i ≡ i + 0 = omega arith in
      let entry = frame i away ∙ ap (get_elem? full) zero_more ∙ view 0 in
      let first : Outcome m gs ranked out i q = inl (gone, entry) in
      subst (λ j. Outcome m gs ranked out j p) zero_more
        (subst (λ v. Outcome m gs ranked out i v) same first)
  Scored-Outcome {i} (left {sbs = sbs} gone rest) earlier split before view each (suc k) p at =
      subst (λ j. Outcome m gs ranked out j p) (omega arith)
        (Scored-Outcome rest earlier split (All-map_of _ _ (λ r h. omega (arith, h)) earlier before)
          (λ n. ap (get_elem? full) (omega arith) ∙ view (suc n)) each k p at)
  Scored-Outcome {i} (stayed {p = q} sb stays own rest) earlier split before view each zero p at =
      let same : q ≡ p = cc in
      let zero_more : i ≡ i + 0 = omega arith in
      let found = ap (get_elem? full) zero_more ∙ view 0 in
      let entry = each.0 ∙ ap (applied (placed ranked (rankable_for i sb q))) found in
      let first : Outcome m gs ranked out i q = inr (stays, sb, own, entry) in
      subst (λ j. Outcome m gs ranked out j p) zero_more
        (subst (λ v. Outcome m gs ranked out i v) same first)
  Scored-Outcome {i} (stayed {p = q} {sbs = sbs} {rs = rs} sb stays own rest) earlier split before
        view each (suc k) p at =
      let r : Rankable = rankable_for i sb q in
      subst (λ j. Outcome m gs ranked out j p) (omega arith)
        (Scored-Outcome rest (earlier ++ r ∷ []) (split ∙ sym (append_assoc earlier (r ∷ []) rs))
          (All-append _ earlier (r ∷ []) (All-map_of _ _ (λ r h. omega (arith, h)) earlier before)
            (omega arith, tt))
          (λ n. ap (get_elem? full) (omega arith) ∙ view (suc n)) each.1 k p at)

Scored-HasPlaces :
    {m : Map} {gs : GameState} {l : Longest} {i : ℕ} {ps : List Player} {sbs : List ScoreBreakdown}
    {rs : List Rankable} (full : List ScoreBreakdown)
    → Scored m gs l i ps sbs rs
    → ((k : ℕ) → get_elem? full (i + k) ≡ get_elem? sbs k)
    → HasPlaces full rs
Scored-HasPlaces full nil view = tt
Scored-HasPlaces full (left gone rest) view =
    Scored-HasPlaces full rest (λ n. ap (get_elem? full) (omega arith) ∙ view (suc n))
Scored-HasPlaces {i = i} full (stayed sb stays own rest) view =
    let zero_more : i ≡ i + 0 = omega arith in
    (
      (sb, ap (get_elem? full) zero_more ∙ view 0),
      Scored-HasPlaces full rest (λ n. ap (get_elem? full) (omega arith) ∙ view (suc n)),
    )

-- If FinalScore succeeds, each player who resigned has the empty breakdown, with the number of
-- players as its rank, and each active player has the breakdown of its own score, ranked one after
-- the active players ahead of it; those with nobody ahead share the victory if they are several.
pub final_score-Outcome :
    (m : Map) (gs : GameState) (results : List ScoreBreakdown)
    → final_score m gs ≡ ok results
    → (scored : List ScoreBreakdown × List Rankable) × (score_players m gs
          (longest_of m gs)
          0
          gs.players
        ≡ ok scored)
      × ((i : ℕ) (p : Player) → get_elem? gs.players i ≡ some p → Outcome m gs scored.1 results i p)
unfolding final_score
final_score-Outcome m gs results done =
    let parts = >>=-eq-ok (score_players m gs (longest_of m gs) 0 gs.players) _ done in
    let loop = score_players-Scored m gs (longest_of m gs) 0 gs.players parts.0 parts.1 in
    let full = parts.0.0 in
    let ranked = parts.0.1 in
    let same : assign_ranks full ranked ≡ results = cc in
    let view : (k : ℕ) → get_elem? full (0 + k) ≡ get_elem? full k =
      λ k. ap (get_elem? full) (omega arith) in
    let apart = Scored-IsApart loop in
    let each = assign_ranks-placed full ranked apart (Scored-HasPlaces full loop view) in
    (
      parts.0,
      parts.1,
      λ i p at.
          subst (λ out. Outcome m gs ranked out i p) same
            (subst (λ j. Outcome m gs ranked (assign_ranks full ranked) j p) (omega arith)
              (Scored-Outcome m gs ranked full (assign_ranks full ranked)
                (assign_ranks-frame full ranked) loop [] refl tt view each i p at)),
    )
