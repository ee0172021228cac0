-- ===== src/Tests/Redis.antt =====
-- A Redis server in memory, and the tracker of app/events/idempotency.py on it.
use be25_fin_thanos_meetbowl.Prelude.Dict.{lookup}
use be25_fin_thanos_meetbowl.Prelude.{
  ℕ, ◌+◌, ◌-◌, ◌≤◌, ◌≡◌, refl, ap, ◌∙◌, inl, inr, Bool, true, false, ◌&&◌, ◌==◌, Option, none, some,
  Bool-cases, list_beq_iff, [], ◌∷◌, arith, leb, if◌then◌else◌, nat_eq, list_eq,
}
use be25_fin_thanos_meetbowl.Prelude.Dict.{lookup}
use be25_fin_thanos_meetbowl.Text.{Text, codes}
use be25_fin_thanos_meetbowl.Events.Tracker as Memory
use be25_fin_thanos_meetbowl.Events.Tracker.{fresh}
use be25_fin_thanos_meetbowl.Events.Tracker.Redis as Stored
use be25_fin_thanos_meetbowl.Events.Tracker.Redis.{Redis, outlives}
use be25_fin_thanos_meetbowl.Events.Tracker.Refinement.{SameView, trackers_agree}

-- The value of a key and the seconds that it has left.
abbrev Entry : Type 0
Entry = Option (ℕ × Option ℕ)

abbrev Store : Type 0
Store = Text → Entry

abbrev put : Text → Entry → Store → Store
put k entry s j = if k == j then entry else s j

abbrev count : Entry → ℕ
count none = 0
count (some (n, left)) = n

abbrev left_of : Entry → Option ℕ
left_of none = none
left_of (some (n, left)) = left

abbrev present : Entry → Bool
present none = false
present (some entry) = true

abbrev with_left : ℕ → Entry → Entry
with_left ttl none = none
with_left ttl (some (n, left)) = some (n, some ttl)

abbrev less : ℕ → Option ℕ → Option ℕ
less n none = none
less n (some left) = some (left - n)

abbrev aged : ℕ → Entry → Entry
aged n none = none
aged n (some (m, left)) = if outlives n left then some (m, less n left) else none

read-put :
    {A : Type 0} (read : Entry → A) (k j : Text) (entry : Entry) (s : Store)
    → read (put k entry s j) ≡ (if k == j then read entry else read (s j))
read-put read k j entry s = elim (Bool-cases (k == j)) [
  | inl same ↦ rw same refl
  | inr other ↦ rw other refl
]

read-put-same :
    {A : Type 0} (read : Entry → A) (k j : Text) (entry : Entry) (s : Store)
    → read entry ≡ read (s k)
    → read (put k entry s j) ≡ read (s j)
read-put-same read k j entry s h = elim (Bool-cases (k == j)) [
  | inl same ↦ rw same (h ∙ ap (λ i. read (s i)) ((list_beq_iff k j).0 same))
  | inr other ↦ rw other refl
]

present-with_left : (ttl : ℕ) (entry : Entry) → present (with_left ttl entry) ≡ present entry
present-with_left ttl none = refl
present-with_left ttl (some entry) = refl

count-with_left : (ttl : ℕ) (entry : Entry) → count (with_left ttl entry) ≡ count entry
count-with_left ttl none = refl
count-with_left ttl (some entry) = refl

present-aged :
    (n : ℕ) (entry : Entry) → present (aged n entry) ≡ (present entry && outlives n (left_of entry))
present-aged n none = refl
present-aged n (some (m, left)) = elim (Bool-cases (outlives n left)) [
  | inl lives ↦ rw lives refl
  | inr over ↦ rw over refl
]

count-aged :
    (n : ℕ) (entry : Entry)
    → count (aged n entry) ≡ (if outlives n (left_of entry) then count entry else 0)
count-aged n none = refl
count-aged n (some (m, left)) = elim (Bool-cases (outlives n left)) [
  | inl lives ↦ rw lives refl
  | inr over ↦ rw over refl
]

positive : (ttl : ℕ) → 1 ≤ ttl → leb 1 ttl ≡ true
positive ttl h = ground arith

abbrev server : Redis
server = record {
  State = Store;
  exists = λ k s. present (s k);
  value = λ k s. count (s k);
  set_ex = λ k ttl s. if leb 1 ttl then put k (some (1, some ttl)) s else s;
  delete = λ k s. put k none s;
  incr = λ k s. (count (s k) + 1, put k (some (count (s k) + 1, left_of (s k))) s);
  expire = λ k ttl s. if leb 1 ttl then put k (with_left ttl (s k)) s else put k none s;
  exists-set_ex = λ k j ttl s h. rw (positive ttl h) (read-put present k j (some (1, some ttl)) s);
  exists-delete = λ k j s. read-put present k j none s;
  exists-incr = λ k j s. read-put present k j (some (count (s k) + 1, left_of (s k))) s;
  exists-expire = λ k j ttl s h.
      rw (positive ttl h)
        (read-put-same present k j (with_left ttl (s k)) s (present-with_left ttl (s k)));
  value-set_ex = λ k j ttl s h. rw (positive ttl h) (read-put count k j (some (1, some ttl)) s);
  value-delete = λ k j s. read-put count k j none s;
  incr-count = λ k s. refl;
  value-incr = λ k j s. read-put count k j (some (count (s k) + 1, left_of (s k))) s;
  value-expire = λ k j ttl s h.
      rw (positive ttl h)
        (read-put-same count k j (with_left ttl (s k)) s (count-with_left ttl (s k)));
  left = λ k s. left_of (s k);
  elapse = λ n s k. aged n (s k);
  left-set_ex = λ k j ttl s h. rw (positive ttl h) (read-put left_of k j (some (1, some ttl)) s);
  left-delete = λ k j s. read-put left_of k j none s;
  exists-elapse = λ n j s. present-aged n (s j);
  value-elapse = λ n j s. count-aged n (s j);
}

abbrev empty : Store
empty k = none

abbrev namespace : Text
namespace = codes "minutes"

nothing_seen : SameView server (λ n. n ∷ []) namespace 60 empty fresh
unfolding Stored.is_completed Stored.retries Memory.is_completed Memory.retries lookup
nothing_seen = record { completed = λ f. refl; counted = λ f. refl }

trackers_agree_example :
    SameView server
      (λ n. n ∷ [])
      namespace
      60
      (Stored.mark_completed server (λ n. n ∷ []) namespace 60 9 empty)
      (Memory.mark_completed 9 fresh)
    × SameView server
        (λ n. n ∷ [])
        namespace
        60
        (Stored.increment_retry server (λ n. n ∷ []) namespace 60 9 empty).1
        (Memory.increment_retry 9 fresh).1
    × ((Stored.increment_retry server (λ n. n ∷ []) namespace 60 9 empty).0
        ≡ (Memory.increment_retry 9 fresh).0)
    × SameView server (λ n. n ∷ []) namespace 60 (server.elapse 5 empty) fresh
    × (Stored.is_completed server
          (λ n. n ∷ [])
          namespace
          60
          9
          (server.elapse 60 (Stored.mark_completed server (λ n. n ∷ []) namespace 60 9 empty))
        ≡ false)
trackers_agree_example =
    trackers_agree server (λ n. n ∷ []) namespace 60 (λ e f h. cc) (omega arith) empty fresh 9 5
      nothing_seen (λ k. refl)
