-- ===== src/Cache/Kept.antt =====
-- What a cache keeps, and how much.
use be25_fin_thanos_meetbowl.Prelude.{
  ℕ, suc, ◌≤◌, ◌≡◌, refl, ap, inl, inr, Bool, true, false, not, ◌&&◌, ◌||◌, Option, none, some,
  List, [], ◌∷◌, ◌++◌, map, arith, ltb, not-ltb→le, some_eq, and-false, Bool-cases, Option-cases,
  ◌==◌, nat_eq, list_eq, option_eq, pair_eq, contains, Distinct, beq_refl, beq_sound, Distinct-snoc,
  length, length-append,
}
use be25_fin_thanos_meetbowl.Text.{Text}
use be25_fin_thanos_meetbowl.Errors.{Raises, returned, raised}
use be25_fin_thanos_meetbowl.Cache.{
  Cache, entry_of, without, expired, lookup_entry, lookup_value, evict, insert_value, with_lock,
  computed, or_compute, locked, get_or_compute,
}

both-false : (b c : Bool) → (c && false) ≡ ((b || c) && false)
both-false true true = refl
both-false true false = refl
both-false false true = refl
both-false false false = refl

keep_or : (b c : Bool) → (b || (c && true)) ≡ ((b || c) && true)
keep_or true c = refl
keep_or false c = refl

module _ {ℓ} {V : Type ℓ} where
  abbrev pub keys : List (Text × (ℕ × V)) → List Text
  keys entries = map (λ entry. entry.0) entries

  -- No more entries than allowed, and no key twice.
  pub record IsKept (max_size : ℕ) (c : Cache V) : Type 0 where
    pub bounded : length c.store ≤ max_size
    pub distinct : Distinct (keys c.store)

  contains-without :
      (k key : Text) (entries : List (Text × (ℕ × V)))
      → contains k (keys (without key entries)) ≡ (contains k (keys entries) && not (key == k))
  unfolding without
  contains-without k key [] = refl
  contains-without k key ((j, entry) ∷ entries) = elim (Bool-cases (j == key)) [
    | inl same ↦ elim (Bool-cases (key == k)) [
      | inl this ↦ rw (same, without) (rw (contains-without k key entries, this) (both-false _ _))
      | inr that ↦
          let e : (j == k) ≡ false = rw (beq_sound j key same) that in
          rw (same, without) (rw (contains-without k key entries, that, e) refl)
    ]
    | inr other ↦ elim (Bool-cases (key == k)) [
      | inl this ↦
          let e : (j == k) ≡ false = rw (← beq_sound key k this) other in
          rw (other, without) (rw (contains-without k key entries, this, e) refl)
      | inr that ↦ rw (other, without) (rw (contains-without k key entries, that) (keep_or _ _))
    ]
  ]

  length-without :
      (key : Text) (entries : List (Text × (ℕ × V))) → length (without key entries) ≤ length entries
  unfolding without
  length-without key [] = omega arith
  length-without key ((j, entry) ∷ entries) = ground (arith, length-without key entries)

  Distinct-without :
      (key : Text) (entries : List (Text × (ℕ × V)))
      → Distinct (keys entries)
      → Distinct (keys (without key entries))
  unfolding without
  Distinct-without key [] h = tt
  Distinct-without key ((j, entry) ∷ entries) h = elim (Bool-cases (j == key)) [
    | inl same ↦ rw (same, without) (Distinct-without key entries h.1)
    | inr other ↦
        rw (other, without)
          (rw (contains-without j key entries, h.0) refl, Distinct-without key entries h.1)
  ]

  keys-snoc :
      (entries : List (Text × (ℕ × V))) (key : Text) (entry : ℕ × V)
      → keys (entries ++ (key, entry) ∷ []) ≡ keys entries ++ key ∷ []
  keys-snoc [] key entry = refl
  keys-snoc ((k, e) ∷ entries) key entry = ap (λ ks. k ∷ ks) (keys-snoc entries key entry)

  absent :
      (key : Text) (entries : List (Text × (ℕ × V)))
      → contains key (keys (without key entries)) ≡ false
  absent key entries =
      rw (contains-without key key entries, beq_refl key) (and-false (contains key (keys entries)))

  entry-snoc :
      (entries : List (Text × (ℕ × V))) (key : Text) (entry : ℕ × V)
      → contains key (keys entries) ≡ false
      → entry_of key (entries ++ (key, entry) ∷ []) ≡ some entry
  unfolding entry_of
  entry-snoc [] key entry h = rw (beq_refl key) refl
  entry-snoc ((k, e) ∷ entries) key entry h = elim (Bool-cases (k == key)) [
    | inl same ↦ cc (rw same at h)
    | inr other ↦ rw other (entry-snoc entries key entry (rw other at h))
  ]

  -- What is inserted is evicted last.
  entry-evict :
      (max_size : ℕ) (key : Text) (entry : ℕ × V) (entries : List (Text × (ℕ × V)))
      (locks : List Text)
      → 1 ≤ max_size
      → contains key (keys entries) ≡ false
      → entry_of key (evict max_size (entries ++ (key, entry) ∷ []) locks).store ≡ some entry
  unfolding evict entry_of
  entry-evict max_size key entry [] locks h k =
      let fits : ltb max_size 1 ≡ false = ground arith in
      rw (fits, entry_of) (rw (beq_refl key) refl)
  entry-evict max_size key entry ((j, e) ∷ entries) locks h k =
      elim (Bool-cases (ltb max_size (suc (length (entries ++ (key, entry) ∷ []))))) [
        | inl over ↦ rw over (entry-evict max_size key entry entries _ h (ground arith))
        | inr fits ↦ rw fits (entry-snoc ((j, e) ∷ entries) key entry k)
      ]

  evict-IsKept :
      (max_size : ℕ) (entries : List (Text × (ℕ × V))) (locks : List Text)
      → Distinct (keys entries)
      → IsKept max_size (evict max_size entries locks)
  unfolding evict
  evict-IsKept max_size [] locks h = record { bounded = omega arith; distinct = tt }
  evict-IsKept max_size ((k, e) ∷ entries) locks h =
      elim (Bool-cases (ltb max_size (suc (length entries)))) [
        | inl over ↦ rw over (evict-IsKept max_size entries _ h.1)
        | inr fits ↦ rw fits (record { bounded = not-ltb→le _ _ fits; distinct = h })
      ]

  -- The list with a key at its end instead of where it was.
  Distinct-moved :
      (key : Text) (entry : ℕ × V) (entries : List (Text × (ℕ × V)))
      → Distinct (keys entries)
      → Distinct (keys (without key entries ++ (key, entry) ∷ []))
  Distinct-moved key entry entries h = rw (keys-snoc (without key entries) key entry) (
      Distinct-snoc (keys (without key entries)) key (Distinct-without key entries h)
        (absent key entries))

  length-known :
      (key : Text) (entry : ℕ × V) (entries : List (Text × (ℕ × V)))
      → entry_of key entries ≡ some entry
      → suc (length (without key entries)) ≤ length entries
  unfolding entry_of without
  length-known key entry [] h = cc
  length-known key entry ((j, e) ∷ entries) h = elim (Bool-cases (j == key)) [
    | inl same ↦ rw (same, without) (omega (arith, length-without key entries))
    | inr other ↦
        rw (other, without) (omega (arith, length-known key entry entries (rw other at h)))
  ]

  lookup_value-IsKept :
      (max_size : ℕ) (ttl : Option ℕ) (key : Text) (now : ℕ) (c : Cache V)
      → IsKept max_size c
      → IsKept max_size (lookup_value ttl key now c).1
  unfolding lookup_value lookup_entry
  lookup_value-IsKept max_size ttl key now c h = elim (Option-cases (entry_of key c.store)) [
    | inl missing ↦ rw missing h
    | inr ((stored_at, value), there) ↦ elim (Bool-cases (expired ttl now stored_at)) [
      | inl old ↦
          rw (there, old)
            (record {
              bounded = omega (arith, h.bounded, length-without key c.store);
              distinct = Distinct-without key c.store h.distinct;
            })
      | inr fresh ↦
          rw (there, fresh)
            (record {
              bounded = omega (
                arith,
                h.bounded,
                length-known key (stored_at, value) c.store there,
                length-append (without key c.store) ((key, (stored_at, value)) ∷ []),
              );
              distinct = Distinct-moved key (stored_at, value) c.store h.distinct;
            })
    ]
  ]

  with_lock-IsKept :
      (max_size : ℕ) (key : Text) (c : Cache V)
      → IsKept max_size c
      → IsKept max_size (with_lock key c)
  unfolding with_lock
  with_lock-IsKept max_size key c h = record { bounded = h.bounded; distinct = h.distinct }

  or_compute-IsKept :
      (max_size : ℕ) (key : Text) (end : ℕ) (compute : Raises V) (found : Option V × Cache V)
      → IsKept max_size found.1
      → IsKept max_size (or_compute max_size key end compute found).1
  unfolding or_compute computed insert_value
  or_compute-IsKept max_size key end compute (some value, c) h = h
  or_compute-IsKept max_size key end (returned value) (none, c) h =
      evict-IsKept max_size _ c.key_locks (Distinct-moved key (end, value) c.store h.distinct)
  or_compute-IsKept max_size key end (raised error) (none, c) h = h

  locked-IsKept :
      (max_size : ℕ) (ttl : Option ℕ) (key : Text) (again end : ℕ) (compute : Raises V)
      (found : Option V × Cache V)
      → IsKept max_size found.1
      → IsKept max_size (locked max_size ttl key again end compute found).1
  unfolding locked
  locked-IsKept max_size ttl key again end compute (some value, c) h = h
  locked-IsKept max_size ttl key again end compute (none, c) h =
      or_compute-IsKept max_size key end compute (lookup_value ttl key again (with_lock key c)) (
        lookup_value-IsKept max_size ttl key again (with_lock key c)
          (with_lock-IsKept max_size key c h))

  -- Whether the value is found, expired, computed, or its computation fails: the cache holds at most
  -- `max_size` entries afterwards and no key twice, if it did before.
  pub get_or_compute-IsKept :
      (max_size : ℕ) (ttl : Option ℕ) (key : Text) (now again end : ℕ) (compute : Raises V)
      (c : Cache V)
      → IsKept max_size c
      → IsKept max_size (get_or_compute max_size ttl key now again end compute c).1
  unfolding get_or_compute
  get_or_compute-IsKept max_size ttl key now again end compute c h =
      locked-IsKept max_size ttl key again end compute (lookup_value ttl key now c)
        (lookup_value-IsKept max_size ttl key now c h)

  lookup-missing :
      (ttl : Option ℕ) (key : Text) (now : ℕ) (c : Cache V)
      → entry_of key c.store ≡ none
      → lookup_value ttl key now c ≡ (none, c)
  unfolding lookup_value lookup_entry
  lookup-missing ttl key now c h = rw h refl

  lookup-fresh :
      (ttl : Option ℕ) (key : Text) (now stored_at : ℕ) (value : V) (c : Cache V)
      → entry_of key c.store ≡ some (stored_at, value)
      → expired ttl now stored_at ≡ false
      → (lookup_value ttl key now c).0 ≡ some value
  unfolding lookup_value lookup_entry
  lookup-fresh ttl key now stored_at value c h k = rw (h, k) refl

  locked-found :
      (max_size : ℕ) (ttl : Option ℕ) (key : Text) (again end : ℕ) (compute : Raises V)
      (found : Option V × Cache V) (value : V)
      → found.0 ≡ some value
      → (locked max_size ttl key again end compute found).0 ≡ returned value
  unfolding locked
  locked-found max_size ttl key again end compute (some v, c) value h = ap returned (some_eq h)
  locked-found max_size ttl key again end compute (none, c) value h = cc

  -- A value that is computed for a key that the cache does not have is returned, and it is what every
  -- later call for this key gives before it expires, whatever that call would compute.
  pub get_or_compute-remembers :
      (max_size : ℕ) (ttl : Option ℕ) (key : Text) (now again end later more last : ℕ) (value : V)
      (other_value : Raises V) (c : Cache V)
      → 1 ≤ max_size
      → entry_of key c.store ≡ none
      → expired ttl later end ≡ false
      → ((get_or_compute max_size ttl key now again end (returned value) c).0 ≡ returned value)
        × ((get_or_compute max_size ttl key later more last other_value
              (get_or_compute max_size ttl key now again end (returned value) c).1).0
            ≡ returned value)
  unfolding get_or_compute locked or_compute computed with_lock insert_value
  get_or_compute-remembers max_size ttl key now again end later more last value other_value c room h
        k =
      let locked_cache = with_lock key c in
      rw (lookup-missing ttl key now c h, lookup-missing ttl key again locked_cache h)
        (
          refl,
          locked-found max_size ttl key more last other_value _ value (
              lookup-fresh ttl key later end value
                (insert_value max_size key value end locked_cache)
                (entry-evict max_size key (end, value) (without key c.store) locked_cache.key_locks
                  room (absent key c.store))
                k),
        )
