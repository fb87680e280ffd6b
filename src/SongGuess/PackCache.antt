-- ===== src/SongGuess/PackCache.antt =====
-- packcache.go: the cache of parsed packs, by recency. The map of the code holds the position of each
-- key in the list, so the list alone is the state; its front was used last.
pub mod Lru
pub mod Truth
use bgex_backend.Base.{
  ℕ, suc, ◌-◌, ◌≡◌, Bool, true, false, ◌&&◌, Option, none, some, List, [], ◌∷◌, ltb, ◌==◌,
  if◌then◌else◌, length, take, find_first, Result, ok, err, ◌>>=◌,
}
use bgex_backend.Engine.{Error}
use bgex_backend.SongGuess.State.{Pack}

-- The id and the version of a pack.
pub record PackCacheKey : Type 0 where
  pub pack_id : ℕ
  pub version : ℕ

pub record PackCacheEntry : Type 0 where
  pub key : PackCacheKey
  pub pack : Pack

pub record PackCache : Type 0 where
  pub capacity : ℕ
  pub order : List PackCacheEntry

abbrev pub same_key : PackCacheKey → PackCacheKey → Bool
same_key a b = (a.pack_id == b.pack_id) && (a.version == b.version)

abbrev pub has_key : PackCacheKey → PackCacheEntry → Bool
has_key k e = same_key e.key k

-- `NewPackCacheWithCapacity`
unfoldable pub new_pack_cache_with_capacity : ℕ → PackCache
new_pack_cache_with_capacity capacity = record {
  capacity = if ltb capacity 1 then 1 else capacity;
  order = [];
}

-- The list without the first entry of a key.
unfoldable pub without_key : PackCacheKey → List PackCacheEntry → List PackCacheEntry
without_key k [] = []
without_key k (e ∷ es) = if has_key k e then es else e ∷ without_key k es

-- `MoveToFront`
unfoldable pub move_to_front : PackCacheEntry → PackCache → PackCache
move_to_front e c = record c { order = e ∷ without_key e.key c.order }

-- `lookup`
unfoldable pub lookup : PackCacheKey → PackCache → Option Pack × PackCache
lookup k c = elim (find_first (has_key k) c.order) [
  | none ↦ (none, c)
  | some e ↦ (some e.pack, move_to_front e c)
]

-- `evictOldestLocked`
unfoldable pub evict_oldest_locked : PackCache → PackCache
evict_oldest_locked c = record c { order = take (length c.order - 1) c.order }

-- A new entry, and the oldest one out if there are too many.
unfoldable pub push_entry : PackCacheKey → Pack → PackCache → PackCache
push_entry k pack c =
    let pushed : PackCache = record c { order = record { key = k; pack = pack } ∷ c.order } in
    if ltb c.capacity (length pushed.order) then evict_oldest_locked pushed else pushed

-- `insert`: an entry that another request has stored meanwhile wins.
unfoldable pub insert : PackCacheKey → Pack → PackCache → Pack × PackCache
insert k pack c = elim (find_first (has_key k) c.order) [
  | none ↦ (pack, push_entry k pack c)
  | some e ↦ (e.pack, move_to_front e c)
]

-- `Get`, where the loader, which reads and parses a pack, runs without the lock: the cache may have
-- become another one by then.
unfoldable pub get :
    (PackCacheKey → Result Error Pack) → PackCacheKey → PackCache → PackCache → Result Error Pack
get load k c meanwhile = elim (lookup k c).0 [
  | some pack ↦ ok pack
  | none ↦ do pack ← load k; ok (insert k pack meanwhile).0
]
