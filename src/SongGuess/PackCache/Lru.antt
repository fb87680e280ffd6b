-- ===== src/SongGuess/PackCache/Lru.antt =====
-- The cache stays small, whatever requests run at the same time.
use bgex_backend.Base.{
  ℕ, zero, suc, ◌-◌, ◌≤◌, ◌≡◌, refl, sym, ap, subst, Bool, true, inl, inr, none, some, List, [],
  ◌∷◌, ltb, length, take, count_if, find_first, find_first-holds, Bool-cases, Option-cases, Result,
  ok, ==_iff, tests, arith,
}
use bgex_backend.Engine.{Error}
use bgex_backend.SongGuess.State.{Pack}
use bgex_backend.SongGuess.PackCache.{
  PackCacheKey, PackCacheEntry, PackCache, same_key, has_key, without_key, move_to_front, lookup,
  evict_oldest_locked, push_entry, insert, new_pack_cache_with_capacity,
}

-- No more entries than the capacity, none twice.
pub record IsLru (c : PackCache) : Type 0 where
  pub roomy : 1 ≤ c.capacity
  pub bounded : length c.order ≤ c.capacity
  pub unique : (k : PackCacheKey) → count_if (has_key k) c.order ≤ 1

-- What a request does to the cache while it holds the lock.
pub data Step (load : PackCacheKey → Result Error Pack) : PackCache → PackCache → Type 0 where
  looked_up : (k : PackCacheKey) (c : PackCache) → Step load c (lookup k c).1
  inserted :
      (k : PackCacheKey) (pack : Pack) (c : PackCache)
      → load k ≡ ok pack
      → Step load c (insert k pack c).1

pub data Steps (load : PackCacheKey → Result Error Pack) (c : PackCache) : PackCache → Type 0 where
  none_yet : Steps load c c
  then_step : {mid last : PackCache} → Steps load c mid → Step load mid last → Steps load c last

length-without_key :
    (k : PackCacheKey) (es : List PackCacheEntry) (e : PackCacheEntry)
    → find_first (has_key k) es ≡ some e
    → suc (length (without_key k es)) ≡ length es
unfolding without_key find_first
length-without_key k [] e found = absurd (cc)
length-without_key k (x ∷ es) e found = elim (Bool-cases (has_key k x)) [
  | inl here ↦ rw here refl
  | inr there ↦ rw there (ap suc (length-without_key k es e (ground (arith, there, found))))
]

count_if-without_key :
    (p : PackCacheEntry → Bool) (k : PackCacheKey) (es : List PackCacheEntry) (e : PackCacheEntry)
    → find_first (has_key k) es ≡ some e
    → count_if p (e ∷ without_key k es) ≡ count_if p es
unfolding without_key find_first
count_if-without_key p k [] e found = absurd (cc)
count_if-without_key p k (x ∷ es) e found = elim (Bool-cases (has_key k x)) [
  | inl here ↦ let same : x ≡ e = ground (arith, here, found) in rw (here, same) refl
  | inr there ↦
      let rest = count_if-without_key p k es e (ground (arith, there, found)) in
      rw there (omega (arith, rest))
]

length-take_le : (n : ℕ) (es : List PackCacheEntry) → length (take n es) ≤ n
length-take_le zero es = omega arith
length-take_le (suc n) [] = omega arith
length-take_le (suc n) (e ∷ es) = omega (arith, length-take_le n es)

count_if-take :
    (p : PackCacheEntry → Bool) (n : ℕ) (es : List PackCacheEntry)
    → count_if p (take n es) ≤ count_if p es
count_if-take p zero es = omega arith
count_if-take p (suc n) [] = omega arith
count_if-take p (suc n) (e ∷ es) = omega (arith, count_if-take p n es)

-- A key that is not found stands nowhere.
count_if-absent :
    (p : PackCacheEntry → Bool) (es : List PackCacheEntry)
    → find_first p es ≡ none
    → count_if p es ≡ 0
unfolding find_first
count_if-absent p [] absent = refl
count_if-absent p (e ∷ es) absent = ground (arith, count_if-absent p es, absent)

move_to_front-IsLru :
    (k : PackCacheKey) (e : PackCacheEntry) (c : PackCache)
    → find_first (has_key k) c.order ≡ some e
    → e.key ≡ k
    → IsLru c
    → IsLru (move_to_front e c)
unfolding move_to_front
move_to_front-IsLru k e c found keyed lru =
    let there = subst (λ q. find_first (has_key q) c.order ≡ some e) (sym keyed) found in
    record {
      roomy = lru.roomy;
      bounded = omega (arith, length-without_key e.key c.order e there, lru.bounded);
      unique =
          λ q. omega (arith, count_if-without_key (has_key q) e.key c.order e there, lru.unique q);
    }

pub same_key-eq : (a b : PackCacheKey) → same_key a b ≡ true → a ≡ b
same_key-eq a b same =
    let ids : a.pack_id ≡ b.pack_id = ground (arith, ==_iff a.pack_id b.pack_id, same) in
    let versions : a.version ≡ b.version = ground (arith, ==_iff a.version b.version, same) in cc

pub found_key :
    (k : PackCacheKey) (c : PackCache) (e : PackCacheEntry)
    → find_first (has_key k) c.order ≡ some e
    → e.key ≡ k
found_key k c e found = same_key-eq e.key k (find_first-holds (has_key k) c.order e found)

-- A key that was absent stands once afterwards, the others as often as before.
new_key_once :
    (k : PackCacheKey) (pack : Pack) (q : PackCacheKey) (es : List PackCacheEntry)
    → find_first (has_key k) es ≡ none
    → count_if (has_key q) es ≤ 1
    → count_if (has_key q) (record { key = k; pack = pack } ∷ es) ≤ 1
new_key_once k pack q es absent before = elim (Bool-cases (same_key k q)) [
  | inl same ↦
      let none_before =
        count_if-absent (has_key q) es
          (subst (λ r. find_first (has_key r) es ≡ none) (same_key-eq k q same) absent) in
      rw same (omega (arith, none_before))
  | inr other ↦ rw other (omega (arith, before))
]

push_entry-IsLru :
    (k : PackCacheKey) (pack : Pack) (c : PackCache)
    → find_first (has_key k) c.order ≡ none
    → IsLru c
    → IsLru (push_entry k pack c)
unfolding push_entry evict_oldest_locked
push_entry-IsLru k pack c absent lru =
    let entry : PackCacheEntry = record { key = k; pack = pack } in
    let pushed = entry ∷ c.order in
    let once_each : (q : PackCacheKey) → count_if (has_key q) pushed ≤ 1 =
      λ q. new_key_once k pack q c.order absent (lru.unique q) in
    elim (Bool-cases (ltb c.capacity (length pushed))) [
      | inl full ↦ rw full record {
        roomy = lru.roomy;
        bounded = omega (arith, length-take_le (length pushed - 1) pushed, lru.bounded);
        unique =
            λ q. omega (arith, count_if-take (has_key q) (length pushed - 1) pushed, once_each q);
      }
      | inr fits ↦
          rw fits record { roomy = lru.roomy; bounded = grind (tests, fits); unique = once_each }
    ]

Step-IsLru :
    {load : PackCacheKey → Result Error Pack} {c next : PackCache}
    → Step load c next
    → IsLru c
    → IsLru next
unfolding lookup insert
Step-IsLru (looked_up k c) lru = elim (Option-cases (find_first (has_key k) c.order)) [
  | inl absent ↦ rw (absent, lookup) lru
  | inr (e, found) ↦
      rw (found, lookup) (move_to_front-IsLru k e c found (found_key k c e found) lru)
]
Step-IsLru (inserted k pack c loaded) lru = elim (Option-cases (find_first (has_key k) c.order)) [
  | inl absent ↦ rw (absent, insert) (push_entry-IsLru k pack c absent lru)
  | inr (e, found) ↦
      rw (found, insert) (move_to_front-IsLru k e c found (found_key k c e found) lru)
]

-- Whatever requests run, in any order, a new cache never holds more entries than its capacity, and
-- none twice.
pub Steps-IsLru :
    (load : PackCacheKey → Result Error Pack) (capacity : ℕ) (c : PackCache)
    → Steps load (new_pack_cache_with_capacity capacity) c
    → IsLru c
unfolding new_pack_cache_with_capacity
Steps-IsLru load capacity c none_yet = elim (Bool-cases (ltb capacity 1)) [
  | inl small ↦
      rw small record { roomy = omega arith; bounded = omega arith; unique = λ k. omega arith }
  | inr large ↦
      rw large
        record { roomy = grind (tests, large); bounded = omega arith; unique = λ k. omega arith }
]
Steps-IsLru load capacity c (then_step path step) =
    Step-IsLru step (Steps-IsLru load capacity _ path)
