-- ===== src/Ttr/Scoring/Trail/Memoized.antt =====
-- The memo of `dfs` changes no result: on at most 64 edges the bitset tells any two sets of used
-- edges apart, so that every entry is the result of the search that it stands for.
use bgex_backend.Base.{
  inr, inl, ℕ, zero, suc, ◌^◌, ◌≤◌, ◌<◌, ◌≡◌, refl, sym, ◌∙◌, ap, subst, Bool, true, false, none,
  some, List, [], ◌∷◌, ◌==◌, ◌&&◌, length, get_elem?, set, All, arith, Bool-cases, Option-cases,
  ==_iff, tests,
}
use native.Mathlib.Nat.{pow-le-pow_right}
use native.Mathlib.Omega.{pow_step}
use bgex_backend.Ttr.Scoring.Trail.{
  TrailEdge, TrailGraph, Memo, memo_get, pack, bitset_of, use_memo, other_end, is_used, take_edge,
  take_edges, dfs,
}
use bgex_backend.Ttr.Scoring.Trail.Walks.{best_edge, best_edges, longest_from, unused, unused-set}

pack-lt : (used : List Bool) → pack used < 2 ^ length used
pack-lt [] = omega arith
pack-lt (u ∷ used) = rw (pow_step 2 (length used)) (ground (arith, pack-lt used))

pack_injective : (us vs : List Bool) → length us ≡ length vs → pack us ≡ pack vs → us ≡ vs
pack_injective [] [] long same = refl
pack_injective [] (v ∷ vs) long same = absurd (omega (arith, long))
pack_injective (u ∷ us) [] long same = absurd (omega (arith, long))
pack_injective (true ∷ us) (true ∷ vs) long same =
    ap (λ ws. true ∷ ws) (pack_injective us vs (omega (arith, long)) (omega (arith, same)))
pack_injective (false ∷ us) (false ∷ vs) long same =
    ap (λ ws. false ∷ ws) (pack_injective us vs (omega (arith, long)) (omega (arith, same)))
pack_injective (true ∷ us) (false ∷ vs) long same = absurd (omega (arith, same))
pack_injective (false ∷ us) (true ∷ vs) long same = absurd (omega (arith, same))

-- Up to 64 edges, no bit is shifted out.
bitset_of-small : (used : List Bool) → length used ≤ 64 → bitset_of used ≡ pack used
bitset_of-small used few =
    let bound : 2 ^ length used ≤ 2 ^ 64 = pow-le-pow_right (omega arith) few in
    omega (arith, bound, pack-lt used)

bitset_of_injective :
    (us vs : List Bool)
    → length us ≡ length vs
    → length us ≤ 64
    → bitset_of us ≡ bitset_of vs
    → us ≡ vs
bitset_of_injective us vs long few same =
    pack_injective us vs long
      (sym (bitset_of-small us few) ∙ same ∙ bitset_of-small vs (omega (arith, few, long)))

length-set {ℓ} : {A : Type ℓ} (xs : List A) (i : ℕ) (a : A) → length (set xs i a) ≡ length xs
length-set [] i a = refl
length-set (x ∷ xs) zero a = refl
length-set (x ∷ xs) (suc i) a = ap suc (length-set xs i a)

few_edges : (edges : List TrailEdge) → use_memo edges ≡ true → length edges ≤ 64
few_edges edges on = grind (tests, on)

both_of : (b c : Bool) → (b && c) ≡ true → (b ≡ true) × (c ≡ true)
both_of true true h = (refl, refl)
both_of true false h = absurd (cc)
both_of false c h = absurd (cc)

module _ (g : TrailGraph) where
  -- Every entry is the result of the search without the memo.
  abbrev pub IsMemo : Memo → Type 0
  IsMemo = All λ e.
      (used : List Bool)
      → length used ≡ length g.edges
      → bitset_of used ≡ e.0.1
      → e.1 ≡ longest_from (suc (unused used)) g e.0.0 used

  memo_get-IsMemo :
      (memo : Memo) (v n : ℕ) (used : List Bool)
      → IsMemo memo
      → length used ≡ length g.edges
      → memo_get memo v (bitset_of used) ≡ some n
      → n ≡ longest_from (suc (unused used)) g v used
  memo_get-IsMemo [] v n used good long at = absurd (cc)
  memo_get-IsMemo (e ∷ memo) v n used good long at =
      elim (Bool-cases ((e.0.0 == v) && (e.0.1 == bitset_of used))) [
        | inl hit ↦
            let parts = both_of (e.0.0 == v) (e.0.1 == bitset_of used) hit in
            let vertex : e.0.0 ≡ v = (==_iff e.0.0 v).0 parts.0 in
            let bits : e.0.1 ≡ bitset_of used = (==_iff e.0.1 (bitset_of used)).0 parts.1 in
            let value : n ≡ e.1 = ground (arith, at, hit) in
            value
            ∙ subst (λ x. e.1 ≡ longest_from (suc (unused used)) g x used) vertex
                (good.0 used long (sym bits))
        | inr miss ↦ memo_get-IsMemo memo v n used good.1 long (ground (arith, at, miss))
      ]

  -- A result and a memo that agree with the search without the memo.
  abbrev pub Agrees : ℕ × Memo → ℕ → Type 0
  Agrees found n = (found.0 ≡ n) × IsMemo found.1

  -- The loop over the edges at a city, over a recursion that agrees where `fuel` edges and more are free.
  module _ (go : ℕ → List Bool → Memo → ℕ × Memo) (fuel : ℕ)
      (goes : (v : ℕ) (used : List Bool) (memo : Memo)
        → fuel ≡ suc (unused used)
        → length used ≡ length g.edges
        → IsMemo memo
        → Agrees (go v used memo) (longest_from fuel g v used))
      (v : ℕ) (used : List Bool) (left : fuel ≡ unused used)
      (long : length used ≡ length g.edges) where
    take_edge-Agrees :
        (i : ℕ) (s : ℕ × Memo) (best : ℕ)
        → Agrees s best
        → Agrees
            (take_edge go g.edges v used i s)
            (best_edge (longest_from fuel g) g.edges v used i best)
    unfolding take_edge best_edge
    take_edge-Agrees i s best h = elim (Bool-cases (is_used used i)) [
      | inl taken ↦ rw (taken, take_edge, best_edge) h
      | inr free ↦ elim (Option-cases (get_elem? g.edges i)) [
        | inl absent ↦ rw (free, absent, take_edge, best_edge) h
        | inr there ↦
            let e : TrailEdge = there.0 in
            let further =
              goes (other_end e v) (set used i true) s.1
                (omega (arith, left, unused-set used i free)) (length-set used i true ∙ long) h.1 in
            rw (free, there.1, take_edge, best_edge) (ground (arith, h.0, further.0), further.1)
      ]
    ]

    take_edges-Agrees :
        (is : List ℕ) (s : ℕ × Memo) (best : ℕ)
        → Agrees s best
        → Agrees
            (take_edges go g.edges v used is s)
            (best_edges (longest_from fuel g) g.edges v used is best)
    unfolding take_edges best_edges
    take_edges-Agrees [] s best h = h
    take_edges-Agrees (i ∷ is) s best h =
        take_edges-Agrees is (take_edge go g.edges v used i s)
          (best_edge (longest_from fuel g) g.edges v used i best) (take_edge-Agrees i s best h)

  -- The branches of `dfs`.
  dfs-looked_up :
      (fuel v n : ℕ) (used : List Bool) (memo : Memo)
      → use_memo g.edges ≡ true
      → memo_get memo v (bitset_of used) ≡ some n
      → dfs (suc fuel) g v used memo ≡ (n, memo)
  unfolding dfs
  dfs-looked_up fuel v n used memo on at = ground (arith, on, at)

  dfs-stored :
      (fuel v : ℕ) (used : List Bool) (memo : Memo)
      → use_memo g.edges ≡ true
      → memo_get memo v (bitset_of used) ≡ none
      → dfs (suc fuel) g v used memo ≡ (
        (take_edges (dfs fuel g) g.edges v used (g.adjacency v) (0, memo)).0,
        ((v, bitset_of used), (take_edges (dfs fuel g) g.edges v used (g.adjacency v) (0, memo)).0)
            ∷ (take_edges (dfs fuel g) g.edges v used (g.adjacency v) (0, memo)).1,
      )
  unfolding dfs
  dfs-stored fuel v used memo on at = ground (arith, on, at)

  dfs-plain :
      (fuel v : ℕ) (used : List Bool) (memo : Memo)
      → use_memo g.edges ≡ false
      → dfs (suc fuel) g v used memo
        ≡ take_edges (dfs fuel g) g.edges v used (g.adjacency v) (0, memo)
  unfolding dfs
  dfs-plain fuel v used memo off = ground (arith, off)

  -- The memoized search finds what the search without the memo finds.
  pub dfs-Agrees :
      (fuel v : ℕ) (used : List Bool) (memo : Memo)
      → fuel ≡ suc (unused used)
      → length used ≡ length g.edges
      → IsMemo memo
      → Agrees (dfs fuel g v used memo) (longest_from fuel g v used)
  unfolding longest_from
  dfs-Agrees zero v used memo left long good = absurd (omega (arith, left))
  dfs-Agrees (suc fuel) v used memo left long good =
      let searched =
        take_edges-Agrees (dfs fuel g) fuel (dfs-Agrees fuel) v used (omega (arith, left)) long
          (g.adjacency v) (0, memo) 0 (refl, good) in
      elim (Bool-cases (use_memo g.edges)) [
        | inl on ↦ elim (Option-cases (memo_get memo v (bitset_of used))) [
          | inl absent ↦ rw (dfs-stored fuel v used memo on absent) (
            searched.0,
            (
              λ others others_long same.
                  searched.0
                  ∙ ap (λ k. longest_from k g v used) left
                  ∙ ap (λ us. longest_from (suc (unused us)) g v us)
                      (sym (
                        bitset_of_injective others used (others_long ∙ sym long)
                          (omega (arith, others_long, few_edges g.edges on)) same)),
              searched.1,
            ),
          )
          | inr there ↦ rw (dfs-looked_up fuel v there.0 used memo on there.1) (
            subst (λ k. there.0 ≡ longest_from k g v used) (sym left)
                (memo_get-IsMemo memo v there.0 used good long there.1),
            good,
          )
        ]
        | inr off ↦ rw (dfs-plain fuel v used memo off) searched
      ]
