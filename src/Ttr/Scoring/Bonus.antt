-- ===== src/Ttr/Scoring/Bonus.antt =====
-- The longest-path bonus and the sum of the route points in `FinalScore`.
use bgex_backend.Base.{
  ◌⊎◌, ℕ, zero, suc, ◌<◌, ◌≤◌, ◌≡◌, ◌≢◌, ◌↔◌, refl, sym, ◌∙◌, ap, subst, false, some, List, [], ◌∷◌,
  if◌then◌else◌, get_elem?, get_elem?-All, All, arith, Bool-cases, inl, inr, Result, ok, >>=-eq-ok,
  ltb,
}
use bgex_backend.Engine.{Error}
use bgex_backend.Ttr.State.{Map, GameState, Player, ScoreBreakdown, lookup, set_entry}
use bgex_backend.Ttr.Scoring.{
  sum_route_points, Longest, longest_of, longest_trails_by_active_seat, breakdown_of,
  build_breakdown, longest_bonus, or_zero,
}
use bgex_backend.Ttr.Scoring.Trail.{longest_trail}
use bgex_backend.Ttr.Scoring.UnionFind.Forest.{lookup-set_entry_same, lookup-set_entry_other}

abbrev pub trail_of : Map → Player → ℕ
trail_of m p = longest_trail m p.claimed_route_ids

-- No two players sit at one seat.
abbrev pub IsSeated : List Player → Type 0
IsSeated [] = Unit
IsSeated (p ∷ ps) = All (λ q. p.seat_index ≢ q.seat_index) ps × IsSeated ps

-- A player's trail is no longer than a length, unless the player resigned.
abbrev pub IsWithin : Map → ℕ → Player → Type 0
IsWithin m n p = p.resigned ≡ false → trail_of m p ≤ n

module _ (m : Map) where
  abbrev noted : Player → Longest → Longest
  noted p s = record {
    by_seat = set_entry p.seat_index (trail_of m p) s.by_seat;
    max_longest = if ltb s.max_longest (trail_of m p) then trail_of m p else s.max_longest;
  }

  abbrev after : Player → Longest → Longest
  after p s = if p.resigned then s else noted p s

  -- The maximum covers every active player and what came before.
  max_longest-bounds :
      (ps : List Player) (s : Longest)
      → (s.max_longest ≤ (longest_trails_by_active_seat m ps s).max_longest)
        × All (IsWithin m (longest_trails_by_active_seat m ps s).max_longest) ps
  unfolding longest_trails_by_active_seat
  max_longest-bounds [] s = (omega arith, tt)
  max_longest-bounds (p ∷ ps) s =
      let rest = max_longest-bounds ps (after p s) in
      (ground (arith, rest.0), (λ active. ground (arith, rest.0, active), rest.1))

  -- It is a bound that the players' trails set, and no more.
  max_longest-le :
      (ps : List Player) (s : Longest) (n : ℕ)
      → s.max_longest ≤ n
      → All (IsWithin m n) ps
      → (longest_trails_by_active_seat m ps s).max_longest ≤ n
  unfolding longest_trails_by_active_seat
  max_longest-le [] s n low within = low
  max_longest-le (p ∷ ps) s n low within = max_longest-le ps (after p s) n low_now within.1
    where
      low_now : (after p s).max_longest ≤ n
      low_now = elim (Bool-cases p.resigned) [
        | inl gone ↦ rw gone low
        | inr active ↦ rw active (ground (arith, low, within.0 active))
      ]

  -- A seat that no later player has keeps its entry.
  by_seat-frame :
      (ps : List Player) (s : Longest) (seat : ℕ)
      → All (λ q. seat ≢ q.seat_index) ps
      → lookup (longest_trails_by_active_seat m ps s).by_seat seat ≡ lookup s.by_seat seat
  unfolding longest_trails_by_active_seat
  by_seat-frame [] s seat apart = refl
  by_seat-frame (p ∷ ps) s seat apart =
      by_seat-frame ps (after p s) seat apart.1 ∙ elim (Bool-cases p.resigned) [
        | inl gone ↦ rw gone refl
        | inr active ↦
            rw active (lookup-set_entry_other p.seat_index (trail_of m p) seat s.by_seat apart.0)
      ]

  by_seat-lookup :
      (ps : List Player) (s : Longest) (i : ℕ) (p : Player)
      → IsSeated ps
      → get_elem? ps i ≡ some p
      → p.resigned ≡ false
      → lookup (longest_trails_by_active_seat m ps s).by_seat p.seat_index ≡ some (trail_of m p)
  unfolding longest_trails_by_active_seat
  by_seat-lookup [] s i p seated at active = absurd (cc)
  by_seat-lookup (q ∷ ps) s zero p seated at active =
      let same : q ≡ p = cc in
      let stays : q.resigned ≡ false = ap (λ v. v.resigned) same ∙ active in
      let first : lookup (after q s).by_seat q.seat_index ≡ some (trail_of m q) =
        rw stays (lookup-set_entry_same q.seat_index (trail_of m q) s.by_seat) in
      subst
        (λ v.
          lookup (longest_trails_by_active_seat m ps (after q s)).by_seat v.seat_index
          ≡ some (trail_of m v))
        same (by_seat-frame ps (after q s) q.seat_index seated.0 ∙ first)
  by_seat-lookup (q ∷ ps) s (suc i) p seated at active =
      by_seat-lookup ps (after q s) i p seated.1 at active

abbrev field_of : (ScoreBreakdown → ℕ) → Result Error ScoreBreakdown → ℕ
field_of f (ok sb) = f sb
field_of f _ = 0

build_breakdown-length :
    (m : Map) (gs : GameState) (p : Player) (len most : ℕ) (sb : ScoreBreakdown)
    → build_breakdown m gs p len most ≡ ok sb
    → (sb.longest_path_length ≡ len) × (sb.longest_path_bonus ≡ longest_bonus len most)
unfolding build_breakdown
build_breakdown-length m gs p len most sb done =
    let parts = >>=-eq-ok (sum_route_points m p.claimed_route_ids 0) _ done in
    (
      sym (ap (field_of (λ b. b.longest_path_length)) parts.2),
      sym (ap (field_of (λ b. b.longest_path_bonus)) parts.2),
    )

longest_bonus_iff : (len most : ℕ) → (longest_bonus len most ≡ 10) ↔ ((0 < most) × (len ≡ most))
unfolding longest_bonus
longest_bonus_iff len most = ground arith

longest_bonus_or : (len most : ℕ) → (longest_bonus len most ≡ 10) ⊎ (longest_bonus len most ≡ 0)
unfolding longest_bonus
longest_bonus_or len most = ground arith

-- An active player's breakdown has the length of its longest trail, and a bonus of 10 exactly if
-- that is above 0 and no active player's is longer, else none, if no two players sit at one seat.
pub breakdown_of-bonus :
    (m : Map) (gs : GameState) (i : ℕ) (p : Player) (sb : ScoreBreakdown)
    → IsSeated gs.players
    → get_elem? gs.players i ≡ some p
    → p.resigned ≡ false
    → breakdown_of m gs (longest_of m gs) p ≡ ok sb
    → (sb.longest_path_length ≡ trail_of m p)
      × ((sb.longest_path_bonus ≡ 10)
          ↔ ((0 < trail_of m p) × All (IsWithin m (trail_of m p)) gs.players))
      × ((sb.longest_path_bonus ≡ 10) ⊎ (sb.longest_path_bonus ≡ 0))
unfolding breakdown_of
breakdown_of-bonus m gs i p sb seated at active done =
    let l = longest_of m gs in
    let start : Longest = record { by_seat = []; max_longest = 0 } in
    let len : or_zero (lookup l.by_seat p.seat_index) ≡ trail_of m p =
      ap or_zero (by_seat-lookup m gs.players start i p seated at active) in
    let fields =
      build_breakdown-length m gs p (or_zero (lookup l.by_seat p.seat_index)) l.max_longest sb
        done in
    let bounds = max_longest-bounds m gs.players start in
    let own : trail_of m p ≤ l.max_longest =
      get_elem?-All (IsWithin m l.max_longest) gs.players i bounds.1 at active in
    let bonus : sb.longest_path_bonus ≡ longest_bonus (trail_of m p) l.max_longest =
      fields.1 ∙ ap (λ n. longest_bonus n l.max_longest) len in
    let rule = longest_bonus_iff (trail_of m p) l.max_longest in
    (
      fields.0 ∙ len,
      (
        λ ten.
            (let most = rule.0 (sym bonus ∙ ten) in
              (
                omega (arith, most.0, most.1),
                subst (λ n. All (IsWithin m n) gs.players) (sym most.1) bounds.1,
              )),
        λ best.
            (let within = max_longest-le m gs.players start (trail_of m p) (omega arith) best.1 in
              bonus ∙ rule.1 (omega (arith, own, best.0), omega (arith, own, within))),
      ),
      subst (λ n. (n ≡ 10) ⊎ (n ≡ 0)) (sym bonus) (longest_bonus_or (trail_of m p) l.max_longest),
    )
