-- ===== src/SongGuess/PackCache/Truth.antt =====
-- The cache is truthful: a request gets what the loader gives.
use bgex_backend.Base.{
  panic, err, ◌>>=◌, ℕ, zero, suc, ◌-◌, ◌≡◌, refl, sym, ap, subst, inl, inr, some, List, [], ◌∷◌,
  ltb, length, take, All, find_first, find_first-All, Bool-cases, Option-cases, Result, ok,
}
use bgex_backend.Engine.{Error}
use bgex_backend.SongGuess.State.{Pack}
use bgex_backend.SongGuess.PackCache.{
  PackCacheKey, PackCacheEntry, PackCache, has_key, without_key, move_to_front, lookup,
  evict_oldest_locked, push_entry, insert, get, new_pack_cache_with_capacity,
}
use bgex_backend.SongGuess.PackCache.Lru.{
  Step, looked_up, inserted, Steps, none_yet, then_step, found_key,
}

-- An entry holds what the loader gives for its key.
abbrev pub IsTrue : (PackCacheKey → Result Error Pack) → PackCacheEntry → Type 0
IsTrue load e = load e.key ≡ ok e.pack

All-without_key {κ} :
    (P : PackCacheEntry → Type κ) (k : PackCacheKey) (es : List PackCacheEntry)
    → All P es
    → All P (without_key k es)
unfolding without_key
All-without_key P k [] all = tt
All-without_key P k (x ∷ es) all = elim (Bool-cases (has_key k x)) [
  | inl here ↦ rw here all.1
  | inr there ↦ rw there (all.0, All-without_key P k es all.1)
]

All-take {κ} :
    (P : PackCacheEntry → Type κ) (n : ℕ) (es : List PackCacheEntry) → All P es → All P (take n es)
All-take P zero es all = tt
All-take P (suc n) [] all = tt
All-take P (suc n) (e ∷ es) all = (all.0, All-take P n es all.1)

move_to_front-IsTrue :
    (load : PackCacheKey → Result Error Pack) (e : PackCacheEntry) (c : PackCache)
    → IsTrue load e
    → All (IsTrue load) c.order
    → All (IsTrue load) (move_to_front e c).order
unfolding move_to_front
move_to_front-IsTrue load e c holds all = (holds, All-without_key (IsTrue load) e.key c.order all)

push_entry-IsTrue :
    (load : PackCacheKey → Result Error Pack) (k : PackCacheKey) (pack : Pack) (c : PackCache)
    → load k ≡ ok pack
    → All (IsTrue load) c.order
    → All (IsTrue load) (push_entry k pack c).order
unfolding push_entry evict_oldest_locked
push_entry-IsTrue load k pack c loaded all =
    let entry : PackCacheEntry = record { key = k; pack = pack } in
    elim (Bool-cases (ltb c.capacity (length (entry ∷ c.order)))) [
      | inl full ↦
          rw full
            (All-take (IsTrue load) (length (entry ∷ c.order) - 1) (entry ∷ c.order) (loaded, all))
      | inr fits ↦ rw fits (loaded, all)
    ]

Step-IsTrue :
    {load : PackCacheKey → Result Error Pack} {c next : PackCache}
    → Step load c next
    → All (IsTrue load) c.order
    → All (IsTrue load) next.order
unfolding lookup insert
Step-IsTrue {load = load} (looked_up k c) all =
    elim (Option-cases (find_first (has_key k) c.order)) [
      | inl absent ↦ rw (absent, lookup) all
      | inr (e, found) ↦
          let holds = find_first-All (IsTrue load) (has_key k) c.order e found all in
          rw (found, lookup) (move_to_front-IsTrue load e c holds all)
    ]
Step-IsTrue {load = load} (inserted k pack c loaded) all =
    elim (Option-cases (find_first (has_key k) c.order)) [
      | inl absent ↦ rw (absent, insert) (push_entry-IsTrue load k pack c loaded all)
      | inr (e, found) ↦
          let holds = find_first-All (IsTrue load) (has_key k) c.order e found all in
          rw (found, insert) (move_to_front-IsTrue load e c holds all)
    ]

Steps-IsTrue :
    {load : PackCacheKey → Result Error Pack} {c last : PackCache}
    → Steps load c last
    → All (IsTrue load) c.order
    → All (IsTrue load) last.order
Steps-IsTrue none_yet all = all
Steps-IsTrue (then_step path step) all = Step-IsTrue step (Steps-IsTrue path all)

-- A pack that is found in a truthful cache is the one that the loader gives.
found_pack :
    (load : PackCacheKey → Result Error Pack) (k : PackCacheKey) (c : PackCache)
    (e : PackCacheEntry)
    → find_first (has_key k) c.order ≡ some e
    → All (IsTrue load) c.order
    → load k ≡ ok e.pack
found_pack load k c e found all =
    subst (λ q. load q ≡ ok e.pack) (found_key k c e found)
      (find_first-All (IsTrue load) (has_key k) c.order e found all)

-- Of two requests that have loaded the same pack, the first one's copy is returned.
inserted_pack :
    (load : PackCacheKey → Result Error Pack) (k : PackCacheKey) (pack : Pack) (c : PackCache)
    → load k ≡ ok pack
    → All (IsTrue load) c.order
    → (insert k pack c).0 ≡ pack
unfolding insert
inserted_pack load k pack c loaded all = elim (Option-cases (find_first (has_key k) c.order)) [
  | inl absent ↦ rw (absent, insert) refl
  | inr (e, found) ↦
      let same = found_pack load k c e found all in
      let packs : e.pack ≡ pack = cc in rw (found, insert) packs
]

missed :
    (load : PackCacheKey → Result Error Pack) (k : PackCacheKey) (meanwhile : PackCache)
    → All (IsTrue load) meanwhile.order
    → (r : Result Error Pack) → load k ≡ r
    → (do pack ← r; ok (insert k pack meanwhile).0) ≡ r
missed load k meanwhile all (ok pack) loaded =
    ap ok (inserted_pack load k pack meanwhile loaded all)
missed load k meanwhile all (err e) loaded = refl
missed load k meanwhile all panic loaded = refl

-- A request to a new cache gets what the loader gives, an error included, whatever other requests have
-- run before it and while it loads.
pub get-load :
    (load : PackCacheKey → Result Error Pack) (capacity : ℕ) (k : PackCacheKey)
    (c meanwhile : PackCache)
    → Steps load (new_pack_cache_with_capacity capacity) c
    → Steps load (lookup k c).1 meanwhile
    → get load k c meanwhile ≡ load k
unfolding get lookup insert new_pack_cache_with_capacity
get-load load capacity k c meanwhile before during =
    let all = Steps-IsTrue before tt in
    let all_then = Steps-IsTrue during (Step-IsTrue (looked_up k c) all) in
    elim (Option-cases (find_first (has_key k) c.order)) [
      | inr (e, found) ↦ rw (found, get) (sym (found_pack load k c e found all))
      | inl absent ↦ rw (absent, get) (missed load k meanwhile all_then (load k) refl)
    ]
