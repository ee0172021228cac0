-- ===== src/Text/Laws.antt =====
-- What stripping, splitting and joining do to lengths and to emptiness.
use be25_fin_thanos_meetbowl.Prelude.{
  ℕ, ◌+◌, ◌≤◌, ◌≡◌, refl, false, [], ◌∷◌, arith, length, Bool-cases, inl, inr,
}
use be25_fin_thanos_meetbowl.Text.{Text, is_space, lstrip, keep, rstrip, strip}

pub length-lstrip-le : (s : Text) → length (lstrip s) ≤ length s
unfolding lstrip
length-lstrip-le [] = omega arith
length-lstrip-le (c ∷ s) = ground (arith, length-lstrip-le s)

length-keep-le : (c : ℕ) (r : Text) → length (keep c r) ≤ length r + 1
length-keep-le c [] = ground arith
length-keep-le c (d ∷ r) = omega arith

pub length-rstrip-le : (s : Text) → length (rstrip s) ≤ length s
unfolding rstrip
length-rstrip-le [] = omega arith
length-rstrip-le (c ∷ s) = omega (arith, length-rstrip-le s, length-keep-le c (rstrip s))

pub length-strip-le : (s : Text) → length (strip s) ≤ length s
unfolding strip
length-strip-le s = omega (arith, length-rstrip-le (lstrip s), length-lstrip-le s)

-- The first character of a stripped text is no space.
abbrev pub IsTrimmedLeft : Text → Type 0
IsTrimmedLeft [] = Unit
IsTrimmedLeft (c ∷ s) = is_space c ≡ false

lstrip-IsTrimmedLeft : (s : Text) → IsTrimmedLeft (lstrip s)
unfolding lstrip
lstrip-IsTrimmedLeft [] = tt
lstrip-IsTrimmedLeft (c ∷ s) = elim (Bool-cases (is_space c)) [
  | inl e ↦ rw e (lstrip-IsTrimmedLeft s)
  | inr e ↦ rw e e
]

pub lstrip_of_IsTrimmedLeft : (s : Text) → IsTrimmedLeft s → lstrip s ≡ s
unfolding lstrip
lstrip_of_IsTrimmedLeft [] h = refl
lstrip_of_IsTrimmedLeft (c ∷ s) h = rw h

keep-IsTrimmedLeft : (c : ℕ) (r : Text) → is_space c ≡ false → IsTrimmedLeft (keep c r)
keep-IsTrimmedLeft c [] h = rw h h
keep-IsTrimmedLeft c (d ∷ r) h = h

rstrip-IsTrimmedLeft : (s : Text) → IsTrimmedLeft s → IsTrimmedLeft (rstrip s)
unfolding rstrip
rstrip-IsTrimmedLeft [] h = tt
rstrip-IsTrimmedLeft (c ∷ s) h = keep-IsTrimmedLeft c (rstrip s) h

keep-rstrip_idem : (c : ℕ) (r : Text) → rstrip r ≡ r → rstrip (keep c r) ≡ keep c r
unfolding rstrip
keep-rstrip_idem c [] h = elim (Bool-cases (is_space c)) [ inl e ↦ rw e | inr e ↦ rw (e, e) ]
keep-rstrip_idem c (d ∷ r) h = rw h

rstrip_idem : (s : Text) → rstrip (rstrip s) ≡ rstrip s
unfolding rstrip
rstrip_idem [] = refl
rstrip_idem (c ∷ s) = keep-rstrip_idem c (rstrip s) (rstrip_idem s)

pub strip_idem : (s : Text) → strip (strip s) ≡ strip s
unfolding strip
strip_idem s =
    rw
      (lstrip_of_IsTrimmedLeft (rstrip (lstrip s))
        (rstrip-IsTrimmedLeft (lstrip s) (lstrip-IsTrimmedLeft s)))
      (rstrip_idem (lstrip s))
