-- ===== src/Router/Fallback.antt =====
-- The chain of models that a request is tried on (internal/router/router.go: PickFor, buildChain,
-- applyCap; fallback_run.go: chainFor, maybeSwapTypedChain, the delay of waitBackoff; cooldown.go:
-- sameOrder). The class of an error is an argument.
use opod_core.Base.{
  ℕ, zero, suc, ◌+◌, ◌*◌, ◌≤◌, ◌<◌, ◌≡◌, refl, ap, ◌∙◌, Bool, true, false, ◌&&◌, ◌||◌, List, [],
  ◌∷◌, ◌++◌, String, arith, if◌then◌else◌, ◌==◌, ◌===◌, ltb, length, take, if_cases, ℤ, clip,
}

data ErrorClass : Type 0 where
  generic context_length content_policy : ErrorClass

record FallbackChains : Type 0 where
  pub on_any : List String
  pub on_context_length : List String
  pub on_content_policy : List String

abbrev no_chains : FallbackChains
no_chains = record { on_any = []; on_context_length = []; on_content_policy = [] }

abbrev or_list : List String → List String → List String
or_list [] fallback = fallback
or_list (x ∷ xs) fallback = x ∷ xs

unfoldable pick_for : FallbackChains → ErrorClass → List String
pick_for c generic = c.on_any
pick_for c context_length = or_list c.on_context_length c.on_any
pick_for c content_policy = or_list c.on_content_policy c.on_any

abbrev same_order : List String → List String → Bool
same_order [] [] = true
same_order [] (y ∷ ys) = false
same_order (x ∷ xs) [] = false
same_order (x ∷ xs) (y ∷ ys) = x === y && same_order xs ys

abbrev build_chain : String → List String → List String
build_chain primary fb = primary ∷ fb

-- A limit that is not positive is none.
unfoldable apply_cap : ℤ → List String → List String
apply_cap limit chain =
    if ltb 0 (clip limit) && ltb (clip limit + 1) (length chain)
    then take (clip limit + 1) chain
    else chain

-- The fallbacks that the request names are not capped.
unfoldable chain_for : ℤ → String → List String → FallbackChains → List String × FallbackChains
unfolding apply_cap
chain_for limit model (x ∷ xs) chains = (model ∷ x ∷ xs, no_chains)
chain_for limit model [] chains = (apply_cap limit (build_chain model chains.on_any), chains)

abbrev is_generic : ErrorClass → Bool
is_generic generic = true
is_generic context_length = false
is_generic content_policy = false

-- `i` is the place of the model that failed.
unfoldable maybe_swap_typed_chain : ℤ → List String → FallbackChains → ErrorClass → ℕ → List String
unfolding apply_cap pick_for
maybe_swap_typed_chain limit chain chains class i =
    let typed = pick_for chains class in
    if is_generic class || length typed == 0 || same_order typed chains.on_any
    then chain
    else apply_cap limit (take (suc i) chain ++ typed)

abbrev backoff_cap_ms : ℕ
backoff_cap_ms = 5000

abbrev doubled : (ℕ → ℕ) → ℕ → ℕ
doubled rest delay = if ltb backoff_cap_ms (delay * 2) then backoff_cap_ms else rest (delay * 2)

-- The loop of `waitBackoff`, run `n` times.
unfoldable backoff : ℕ → ℕ → ℕ
backoff zero delay = delay
backoff (suc n) delay = doubled (backoff n) delay

-- A retry waits no longer than the cap, unless the first delay is longer.
backoff-bound : (n delay : ℕ) → delay ≤ backoff_cap_ms → backoff n delay ≤ backoff_cap_ms
unfolding backoff
backoff-bound zero delay h = h
backoff-bound (suc n) delay h =
    if_cases {A = ℕ} (λ d. d ≤ backoff_cap_ms) (ltb backoff_cap_ms (delay * 2)) backoff_cap_ms
      (backoff n (delay * 2)) (λ e. omega arith)
      (λ e. backoff-bound n (delay * 2) (within (delay * 2) e))
  where
    within : (d : ℕ) → ltb backoff_cap_ms d ≡ false → d ≤ backoff_cap_ms
    within d e = ground arith

take-apply_cap :
    (limit : ℤ) (n : ℕ) (chain : List String)
    → ((0 < clip limit → n ≤ clip limit + 1))
    → take n (apply_cap limit chain) ≡ take n chain
unfolding apply_cap
take-apply_cap limit n chain h =
    if_cases (λ c. take n c ≡ take n chain)
      (ltb 0 (clip limit) && ltb (clip limit + 1) (length chain)) (take (clip limit + 1) chain)
      chain (λ e. shorter n (clip limit + 1) chain (h (on (clip limit) _ e))) (λ e. refl)
  where
    on : (n : ℕ) (b : Bool) → (ltb 0 n && b) ≡ true → 0 < n
    on n b e = ground arith

    shorter : (n m : ℕ) (xs : List String) → n ≤ m → take n (take m xs) ≡ take n xs
    shorter zero m xs l = refl
    shorter (suc n) zero xs l = absurd (omega arith)
    shorter (suc n) (suc m) [] l = refl
    shorter (suc n) (suc m) (x ∷ xs) l = ap (◌∷◌ x) (shorter n m xs (omega arith))

-- A swap changes only the models that were not tried yet, on a chain within its cap.
swap_keeps_tried :
    (limit : ℤ) (chain : List String) (chains : FallbackChains) (class : ErrorClass) (i : ℕ)
    → i < length chain
    → (0 < clip limit → length chain ≤ clip limit + 1)
    → take (suc i) (maybe_swap_typed_chain limit chain chains class i) ≡ take (suc i) chain
unfolding maybe_swap_typed_chain
swap_keeps_tried limit chain chains class i inside capped =
    let typed = pick_for chains class in
    if_cases (λ c. take (suc i) c ≡ take (suc i) chain)
      (is_generic class || length typed == 0 || same_order typed chains.on_any) chain
      (apply_cap limit (take (suc i) chain ++ typed)) (λ e. refl)
      (λ e.
        take-apply_cap limit (suc i) (take (suc i) chain ++ typed) (λ on. omega (arith, capped on))
        ∙ first_part (suc i) chain typed (omega arith))
  where
    first_part :
        (n : ℕ) (xs ys : List String) → n ≤ length xs → take n (take n xs ++ ys) ≡ take n xs
    first_part zero xs ys l = refl
    first_part (suc n) [] ys l = absurd (omega arith)
    first_part (suc n) (x ∷ xs) ys l = ap (◌∷◌ x) (first_part n xs ys (omega arith))
