-- ===== src/Cache.antt =====
-- app/core/cache.py: `AsyncResultCache`, called by one task at a time. Moments are those of
-- `time.monotonic`; the one who is first to take a key's lock finds it free.
pub mod Kept
use be25_fin_thanos_meetbowl.Prelude.{
  ℕ, ◌-◌, Bool, false, not, Option, none, some, List, [], ◌∷◌, ◌++◌, ltb, if◌then◌else◌, ◌==◌,
  nat_eq, list_eq, contains, length, select,
}
use be25_fin_thanos_meetbowl.Text.{Text}
use be25_fin_thanos_meetbowl.Errors.{Raises, returned, raised}

-- `self._ttl is not None and now - stored_at > self._ttl`
unfoldable pub expired : Option ℕ → ℕ → ℕ → Bool
expired none now stored_at = false
expired (some ttl) now stored_at = ltb ttl (now - stored_at)

module _ {ℓ} (V : Type ℓ) where
  -- `_store` in its order, the entry that is evicted first at the front, and the keys of `_key_locks`.
  pub record Cache : Type ℓ where
    pub store : List (Text × (ℕ × V))
    pub key_locks : List Text

module _ {ℓ} {V : Type ℓ} where
  -- `OrderedDict.get`
  unfoldable pub entry_of : Text → List (Text × (ℕ × V)) → Option (ℕ × V)
  entry_of key [] = none
  entry_of key ((k, entry) ∷ entries) = if k == key then some entry else entry_of key entries

  -- `OrderedDict.pop`
  unfoldable pub without : Text → List (Text × (ℕ × V)) → List (Text × (ℕ × V))
  without key [] = []
  without key ((k, entry) ∷ entries) =
      let rest = without key entries in if k == key then rest else (k, entry) ∷ rest

  unfoldable pub lookup_entry : Option ℕ → Text → ℕ → Cache V → Option (ℕ × V) → Option V × Cache V
  unfolding without expired
  lookup_entry ttl key now c none = (none, c)
  lookup_entry ttl key now c (some (stored_at, value)) =
      if expired ttl now stored_at
      then (none, record c { store = without key c.store })
      else (some value, record c { store = without key c.store ++ (key, (stored_at, value)) ∷ [] })

  -- `_lookup`
  unfoldable pub lookup_value : Option ℕ → Text → ℕ → Cache V → Option V × Cache V
  unfolding lookup_entry entry_of
  lookup_value ttl key now c = lookup_entry ttl key now c (entry_of key c.store)

  -- The loop of `_insert`.
  unfoldable pub evict : ℕ → List (Text × (ℕ × V)) → List Text → Cache V
  evict max_size [] locks = record { store = []; key_locks = locks }
  evict max_size ((k, entry) ∷ entries) locks =
      let rest = evict max_size entries (select (λ lock. not (lock == k)) locks) in
      if ltb max_size (length ((k, entry) ∷ entries))
      then rest
      else record { store = (k, entry) ∷ entries; key_locks = locks }

  -- `_insert`
  unfoldable pub insert_value : ℕ → Text → V → ℕ → Cache V → Cache V
  unfolding without evict
  insert_value max_size key value now c =
      evict max_size (without key c.store ++ (key, (now, value)) ∷ []) c.key_locks

  -- `self._key_locks.setdefault(key, asyncio.Lock())`
  unfoldable pub with_lock : Text → Cache V → Cache V
  with_lock key c = record c {
    key_locks = if contains key c.key_locks then c.key_locks else c.key_locks ++ key ∷ [];
  }

  unfoldable pub computed : ℕ → Text → ℕ → Raises V → Cache V → Raises V × Cache V
  unfolding insert_value
  computed max_size key now (returned value) c =
      (returned value, insert_value max_size key value now c)
  computed max_size key now (raised error) c = (raised error, c)

  unfoldable pub or_compute : ℕ → Text → ℕ → Raises V → Option V × Cache V → Raises V × Cache V
  unfolding computed
  or_compute max_size key now compute (some value, c) = (returned value, c)
  or_compute max_size key now compute (none, c) = computed max_size key now compute c

  unfoldable pub locked :
      ℕ → Option ℕ → Text → ℕ → ℕ → Raises V → Option V × Cache V → Raises V × Cache V
  unfolding or_compute with_lock lookup_value
  locked max_size ttl key now end compute (some value, c) = (returned value, c)
  locked max_size ttl key now end compute (none, c) =
      or_compute max_size key end compute (lookup_value ttl key now (with_lock key c))

  -- `now` is the moment of the first lookup, `again` that under the lock, `end` that of the insertion.
  unfoldable pub get_or_compute :
      ℕ → Option ℕ → Text → ℕ → ℕ → ℕ → Raises V → Cache V → Raises V × Cache V
  unfolding locked lookup_value
  get_or_compute max_size ttl key now again end compute c =
      locked max_size ttl key again end compute (lookup_value ttl key now c)
