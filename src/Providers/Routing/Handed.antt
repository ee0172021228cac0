-- ===== src/Providers/Routing/Handed.antt =====
-- What a fallback hides and what it lets through.
use be25_fin_thanos_meetbowl.Prelude.{
  ◌≡◌, refl, ◌⊎◌, inl, inr, true, Bool-cases, nat_eq, list_eq, option_eq, pair_eq,
}
use be25_fin_thanos_meetbowl.Errors.{Raises, returned, raised, ai, other, AiError}
use be25_fin_thanos_meetbowl.Providers.Routing.{is_unavailable, or_fallback, generate_with_fallback}

module _ {ℓ κ} {Request : Type ℓ} {Result : Type κ} where
  or_fallback-returned :
      (fallback : Request → Raises Result) (request : Request) (m : Raises Result) (result : Result)
      → or_fallback fallback request m ≡ returned result
      → (m ≡ returned result)
        ⊎ ((error : AiError) × (m ≡ raised (ai error))
            × (is_unavailable error.class ≡ true)
            × (fallback request ≡ returned result))
  unfolding or_fallback
  or_fallback-returned fallback request (returned a) result h = inl h
  or_fallback-returned fallback request (raised (other name)) result h = cc
  or_fallback-returned fallback request (raised (ai error)) result h =
      elim (Bool-cases (is_unavailable error.class)) [
        | inl down ↦ inr (error, refl, down, rw down at h)
        | inr fatal ↦ cc (rw fatal at h)
      ]

  -- A result is that of the first generator, or the first one was unavailable and it is that of the second.
  pub generate_with_fallback-returned :
      (primary fallback : Request → Raises Result) (request : Request) (result : Result)
      → generate_with_fallback primary fallback request ≡ returned result
      → (primary request ≡ returned result)
        ⊎ ((error : AiError) × (primary request ≡ raised (ai error))
            × (is_unavailable error.class ≡ true)
            × (fallback request ≡ returned result))
  unfolding generate_with_fallback
  generate_with_fallback-returned primary fallback request result h =
      or_fallback-returned fallback request (primary request) result h
