-- ===== src/Resilience/Quota/Limits.antt =====
-- What a request of a quota does to the counters.
use music_video_generator.Prelude.{
  ℕ, suc, ◌≤◌, ◌<◌, true, false, ◌≡◌, ◌↔◌, refl, arith, Text, text_eq_refl, ltb, leb, ◌==◌, ◌∙◌,
  Bool-cases, inl, inr, if◌then◌else◌,
}
use native.Mathlib.Decide.{dec_lt}
use music_video_generator.Resilience.Quota.{
  QuotaResource, Key, user_key, global_key, concurrent_key, same_resource, same_key, Counters,
  Settings, Scope, check, increment, check_and_increment, acquire_generation_slot,
  release_generation_slot,
}

same_resource_refl : (r : QuotaResource) → same_resource r r ≡ true
unfolding same_resource
same_resource_refl r = ground arith

same_key_refl : (k : Key) → same_key k k ≡ true
unfolding same_key
same_key_refl (user_key u d r) = ground (arith, same_resource_refl r, text_eq_refl u)
same_key_refl (global_key d r) = ground (arith, same_resource_refl r)
same_key_refl concurrent_key = refl

apart :
    (u : Text) (d e : ℕ) (r t : QuotaResource) → same_key (global_key e t) (user_key u d r) ≡ false
unfolding same_key
apart u d e r t = refl

not_both :
    (k : Key) (u : Text) (d e : ℕ) (r t : QuotaResource)
    → same_key k (user_key u d r) ≡ true
    → same_key k (global_key e t) ≡ false
unfolding same_key
not_both (user_key v f w) u d e r t h = refl
not_both (global_key f w) u d e r t h = cc
not_both concurrent_key u d e r t h = refl

module _ (c : Counters) (q : Settings) (on : q.enabled ≡ true) where
  increment_count :
      (sc : Scope) (k j : Key) (limit : ℕ) (s : c.State)
      → c.count k (increment c q sc j limit s).1
        ≡ (if same_key k j then suc (c.count k s) else c.count k s)
  unfolding increment
  increment_count sc k j limit s = elim (Bool-cases (c.count j (c.incr j s) == 1)) [
    | inl first ↦ rw (increment, on, first, c.count-expire, c.count-incr) refl
    | inr later ↦ rw (increment, on, later, c.count-incr) refl
  ]

  check_allowed :
      (sc : Scope) (k : Key) (limit : ℕ) (s : c.State)
      → (check c q sc k limit s).allowed ≡ ltb (c.count k s) limit
  unfolding check
  check_allowed sc k limit s = rw on refl

  increment_allowed :
      (sc : Scope) (k : Key) (limit : ℕ) (s : c.State)
      → (increment c q sc k limit s).0.allowed ≡ leb (suc (c.count k s)) limit
  unfolding increment
  increment_allowed sc k limit s = rw (increment, on, c.count-incr, same_key_refl) refl

  -- With quotas enabled and no other request in between, a request is granted exactly when both
  -- counters are below their limits. A granted request adds one to both and to no other counter; a
  -- refused one changes no counter.
  pub check_and_increment_grants :
      (day : ℕ) (u : Text) (r : QuotaResource) (s : c.State)
      → let (v, s') = check_and_increment c q day u r s in
        ((v.ok ≡ true) ↔ (
          (c.count (user_key u day r) s < q.user_limit r)
          × (c.count (global_key day r) s < q.global_limit r)))
        × ((k : Key)
            → c.count k s' ≡ (
                if v.ok
                then (if same_key k (user_key u day r)
                    then suc (c.count k s)
                    else if same_key k (global_key day r)
                    then suc (c.count k s)
                    else c.count k s)
                else c.count k s))
  unfolding check_and_increment
  check_and_increment_grants day u r s =
      let uk = user_key u day r in
      let gk = global_key day r in
      elim (Bool-cases (ltb (c.count uk s) (q.user_limit r))) [
        | inr full ↦
            rw (check_and_increment, check_allowed, full)
              ((λ h. cc, λ h. absurd (ground arith)), λ k. refl)
        | inl room ↦ elim (Bool-cases (ltb (c.count gk s) (q.global_limit r))) [
          | inr full ↦
              rw (check_and_increment, check_allowed, room, check_allowed, full)
                ((λ h. cc, λ h. absurd (ground arith)), λ k. refl)
          | inl space ↦
              let s₁ = (increment c q Scope.user uk (q.user_limit r) s).1 in
              let kept : c.count gk s₁ ≡ c.count gk s =
                increment_count Scope.user gk uk (q.user_limit r) s
                ∙ rw (apart u day day r r) refl in
              let fits : (increment c q Scope.user uk (q.user_limit r) s).0.allowed ≡ true =
                increment_allowed Scope.user uk (q.user_limit r) s ∙ ground arith in
              let fits_all : (increment c q Scope.global gk (q.global_limit r) s₁).0.allowed
                  ≡ true =
                increment_allowed Scope.global gk (q.global_limit r) s₁ ∙ rw kept (ground arith) in
              rw (check_and_increment, check_allowed, room, check_allowed, space, fits, fits_all)
                (
                  (λ h. (ground arith, ground arith), λ h. refl),
                  λ k.
                      (increment_count Scope.global k gk (q.global_limit r) s₁
                        ∙ rw (increment_count Scope.user k uk (q.user_limit r) s)
                            (ground (arith, not_both k u day day r r))),
                )
        ]
      ]

  release_count :
      (s : c.State) (n : ℕ)
      → c.count concurrent_key s ≡ suc n
      → c.count concurrent_key (release_generation_slot c q s) ≡ n
  unfolding release_generation_slot same_key
  release_count s n e =
      let used : ltb 0 (suc n) ≡ true = ground arith in
      rw (release_generation_slot, on, e, used, c.count-put) (omega arith)

  -- The state behind a slot that was handed out.
  abbrev slot_taken : c.State → c.State
  slot_taken s =
      let s₁ = c.incr concurrent_key s in
      if c.count concurrent_key s₁ == 1 then c.expire concurrent_key 3600 s₁ else s₁

  slot_taken_count :
      (s : c.State) → c.count concurrent_key (slot_taken s) ≡ suc (c.count concurrent_key s)
  unfolding same_key
  slot_taken_count s =
      let s₁ = c.incr concurrent_key s in
      elim (Bool-cases (c.count concurrent_key s₁ == 1)) [
        | inl first ↦ rw (first, c.count-expire) (c.count-incr concurrent_key concurrent_key s)
        | inr later ↦ rw later (c.count-incr concurrent_key concurrent_key s)
      ]

  acquire_room :
      (s : c.State)
      → c.count concurrent_key s < q.max_concurrent_generations
      → ((acquire_generation_slot c q s).0.allowed ≡ true)
        × ((acquire_generation_slot c q s).1 ≡ slot_taken s)
  unfolding acquire_generation_slot same_key
  acquire_room s h =
      let room : leb q.max_concurrent_generations (c.count concurrent_key s) ≡ false =
        ground arith in
      let bump = c.count-incr concurrent_key concurrent_key s in
      rw (on, room) (rw bump (ground arith), refl)

  acquire_full :
      (s : c.State)
      → q.max_concurrent_generations ≤ c.count concurrent_key s
      → ((acquire_generation_slot c q s).0.allowed ≡ false)
        × ((acquire_generation_slot c q s).1 ≡ s)
  unfolding acquire_generation_slot
  acquire_full s h =
      let full : leb q.max_concurrent_generations (c.count concurrent_key s) ≡ true =
        ground arith in
      rw (on, full) (refl, refl)

  -- With quotas enabled and no other call in between, a generation gets a slot exactly when fewer are
  -- in use than the limit, and its release gives the counter its value back; a refused generation
  -- takes none.
  pub generation_slots :
      (s : c.State)
      → let (slot, s') = acquire_generation_slot c q s in
        ((slot.allowed ≡ true) ↔ (c.count concurrent_key s < q.max_concurrent_generations))
        × (slot.allowed ≡ true
            → (c.count concurrent_key s' ≡ suc (c.count concurrent_key s))
              × (c.count concurrent_key (release_generation_slot c q s')
                  ≡ c.count concurrent_key s))
        × (slot.allowed ≡ false → s' ≡ s)
  generation_slots s = elim (dec_lt (c.count concurrent_key s) q.max_concurrent_generations) [
    | yes room ↦
        let (granted, e) = acquire_room s room in
        rw (granted, e)
          (
            (λ h. room, λ h. refl),
            λ h. (
              slot_taken_count s,
              release_count (slot_taken s) (c.count concurrent_key s) (slot_taken_count s),
            ),
            λ h. cc,
          )
    | no full ↦
        let (refused, e) = acquire_full s (omega arith) in
        rw (refused, e) ((λ h. cc, λ h. absurd (full h)), λ h. cc, λ h. refl)
  ]
