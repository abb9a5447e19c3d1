-- ===== src/Resilience/Quota/Guard.antt =====
-- common/guards/user-quota.guard.ts: the quota in front of a route.
use music_video_generator.Prelude.{
  ℕ, suc, ◌+◌, ◌≤◌, ◌<◌, Bool, true, false, ◌&&◌, Option, some, List, [], ◌∷◌, ◌≡◌, refl, sym, ap,
  ◌∙◌, arith, Text, truthy, text_eq-eq, Bool-cases, inl, inr, if◌then◌else◌,
}
use music_video_generator.Outcome.{Outcome, ok, err, quota_exceeded}
use music_video_generator.Resilience.Quota.{
  QuotaResource, user_key, same_resource, same_key, Counters, Settings, Verdict,
  check_and_increment,
}
use music_video_generator.Resilience.Quota.Limits.{check_and_increment_grants}

-- The resource of the route's decorator, and the user that the authentication set.
pub record GuardedRequest : Type 0 where
  pub resource : Option QuotaResource
  pub is_http : Bool
  pub user_id : Option Text

module _ (c : Counters) (q : Settings) (day : ℕ) where
  abbrev pub answer : Verdict × c.State → Outcome Bool × c.State
  answer (v, s) = (if v.ok then ok true else err quota_exceeded, s)

  abbrev guard : Bool → Option QuotaResource → Option Text → c.State → Outcome Bool × c.State
  unfolding check_and_increment
  guard true (some r) (some u) s =
      if truthy u then answer (check_and_increment c q day u r s) else (ok true, s)
  guard _ _ _ s = (ok true, s)

  -- `canActivate`.
  unfoldable pub can_activate : GuardedRequest → c.State → Outcome Bool × c.State
  unfolding guard
  can_activate g s = guard g.is_http g.resource g.user_id s

  -- A request of a user for a route with the resource.
  abbrev pub by : Text → QuotaResource → GuardedRequest
  by u r = record { resource = some r; is_http = true; user_id = some u }

  abbrev pub lets : Outcome Bool → Bool
  lets (ok b) = b
  lets (err f) = false

  -- Requests of a day, each by a user for a resource: how many of one user and resource pass.
  unfoldable pub passed : Text → QuotaResource → List (Text × QuotaResource) → c.State → ℕ
  unfolding can_activate same_key
  passed u r [] s = 0
  passed u r ((v, t) ∷ gs) s =
      let (o, s') = can_activate (by v t) s in
      let rest = passed u r gs s' in
      if lets o && same_key (user_key u day r) (user_key v day t) then suc rest else rest

same_resource-eq : (r t : QuotaResource) → same_resource r t ≡ true → r ≡ t
unfolding same_resource
same_resource-eq r t h = ground arith

same_user_key :
    (u v : Text) (day : ℕ) (r t : QuotaResource)
    → same_key (user_key u day r) (user_key v day t) ≡ true
    → user_key u day r ≡ user_key v day t
unfolding same_key
same_user_key u v day r t h = ground (arith, same_resource-eq r t, text_eq-eq u v)

counter_step :
    (b m : Bool) (n n' l : ℕ)
    → (b ≡ true → m ≡ true → n < l)
    → n' ≡ (if b then (if m then suc n else n) else n)
    → ((b && m) ≡ true → (n < l) × (n' ≡ suc n)) × ((b && m) ≡ false → n' ≡ n)
counter_step true true n n' l h e =
    (λ _. (h refl refl, e), λ k. absurd (let dead : true ≡ false = k in cc))
counter_step true false n n' l h e = (λ k. absurd (let dead : false ≡ true = k in cc), λ _. e)
counter_step false m n n' l h e = (λ k. absurd (let dead : false ≡ true = k in cc), λ _. e)

module _ (c : Counters) (q : Settings) (on : q.enabled ≡ true) (day : ℕ) (u : Text)
    (r : QuotaResource) (given : truthy u ≡ true) where
  lets_of_verdict : (b : Bool) → lets c q day (if b then ok true else err quota_exceeded) ≡ b
  lets_of_verdict true = refl
  lets_of_verdict false = refl

  below_limit :
      (v : Text) (t : QuotaResource) (s : c.State)
      → c.count (user_key v day t) s < q.user_limit t
      → same_key (user_key u day r) (user_key v day t) ≡ true
      → c.count (user_key u day r) s < q.user_limit r
  below_limit v t s h same =
      let keys : user_key u day r ≡ user_key v day t = same_user_key u v day r t same in
      let resources : r ≡ t = cc in rw (keys, resources) h

  -- A request without a user id is not one of the user's.
  another_user :
      (v : Text) (t : QuotaResource)
      → truthy v ≡ false
      → same_key (user_key u day r) (user_key v day t) ≡ false
  another_user v t absent = elim (Bool-cases (same_key (user_key u day r) (user_key v day t))) [
    | inl same ↦
        let keys : user_key u day r ≡ user_key v day t = same_user_key u v day r t same in
        let users : u ≡ v = cc in
        let dead : true ≡ false = sym given ∙ ap (λ x. truthy x) users ∙ absent in cc
    | inr other ↦ other
  ]

  -- A request leaves the counter of the user as it is, or it is the user's and the counter is below
  -- the limit and goes up by one.
  guard_step :
      (v : Text) (t : QuotaResource) (s : c.State)
      → let x = can_activate c q day (by c q day v t) s in
        ((lets c q day x.0 && same_key (user_key u day r) (user_key v day t)) ≡ true
          → (c.count (user_key u day r) s < q.user_limit r)
            × (c.count (user_key u day r) x.1 ≡ suc (c.count (user_key u day r) s)))
        × ((lets c q day x.0 && same_key (user_key u day r) (user_key v day t)) ≡ false
            → c.count (user_key u day r) x.1 ≡ c.count (user_key u day r) s)
  unfolding can_activate same_key
  guard_step v t s =
      let (granted, counts) = check_and_increment_grants c q on day v t s in
      let verdict = (check_and_increment c q day v t s).0.ok in
      let below : verdict ≡ true
          → same_key (user_key u day r) (user_key v day t) ≡ true
          → c.count (user_key u day r) s < q.user_limit r =
        λ yes_ same. below_limit v t s (granted.0 yes_).0 same in
      elim (Bool-cases (truthy v)) [
        | inr absent ↦
            rw (absent, another_user v t absent)
              (λ k. absurd (let dead : false ≡ true = k in cc), λ _. refl)
        | inl present ↦
            rw (present, lets_of_verdict verdict)
              (counter_step verdict (same_key (user_key u day r) (user_key v day t))
                (c.count (user_key u day r) s) _ (q.user_limit r) below (counts (user_key u day r)))
      ]

  -- What passes adds up to the counter, which stays within the limit.
  passed_within :
      (gs : List (Text × QuotaResource)) (s : c.State)
      → c.count (user_key u day r) s ≤ q.user_limit r
      → passed c q day u r gs s + c.count (user_key u day r) s ≤ q.user_limit r
  unfolding passed
  passed_within [] s h = omega (arith, h)
  passed_within ((v, t) ∷ gs) s h =
      let x = can_activate c q day (by c q day v t) s in
      let (mine, other) = guard_step v t s in
      elim (Bool-cases (lets c q day x.0 && same_key (user_key u day r) (user_key v day t))) [
        | inl yes_ ↦
            let (below, up) = mine yes_ in
            rw (yes_) (omega (arith, up, passed_within gs x.1 (omega (arith, below, up))))
        | inr no_ ↦
            let same = other no_ in
            rw (no_) (omega (arith, same, passed_within gs x.1 (omega (arith, h, same))))
      ]

-- For a user with an id, with quotas enabled and a count at the start that is within the limit, whatever requests come on a
-- day, one after the other and by any users, the guard lets through no more of one user for one
-- resource than the user's limit leaves: together with the count at the start they stay within it.
pub guard_within_limit :
    (c : Counters) (q : Settings) (day : ℕ) (u : Text) (r : QuotaResource)
    (gs : List (Text × QuotaResource)) (s : c.State)
    → truthy u ≡ true
    → q.enabled ≡ true
    → c.count (user_key u day r) s ≤ q.user_limit r
    → passed c q day u r gs s + c.count (user_key u day r) s ≤ q.user_limit r
guard_within_limit c q day u r gs s given on h = passed_within c q on day u r given gs s h
