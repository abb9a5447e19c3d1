-- ===== src/Resilience/Permits/Turns.antt =====
-- The permits in use, over the turns of the event loop.
use music_video_generator.Prelude.{
  ℕ, zero, suc, ◌+◌, ◌-◌, ◌≤◌, ◌<◌, List, [], ◌∷◌, length, length-append, ◌≡◌, refl, subst, sym,
  arith,
}
use music_video_generator.Resilience.Permits.{PermitPool, new_pool, acquire, wake, release, resume}

-- A turn: a call of `acquire`, the release of a permit in use, or the rest of an `acquire` that was
-- woken.
pub data Turn (p q : PermitPool) : Type 0 where
  acquires : (task : ℕ) → q ≡ acquire task p → Turn p q
  releases : 0 < p.in_use → q ≡ release p → Turn p q
  resumes : q ≡ resume p → Turn p q

pub data Reach (p : PermitPool) : PermitPool → Type 0 where
  here : Reach p p
  next : {q r : PermitPool} → Reach p q → Turn q r → Reach p r

-- No call of `acquire` comes between the release that wakes a caller and the rest of its `acquire`.
pub data OrderlyTurn (p q : PermitPool) : Type 0 where
  acquires : (task : ℕ) → p.woken ≡ [] → q ≡ acquire task p → OrderlyTurn p q
  releases : 0 < p.in_use → q ≡ release p → OrderlyTurn p q
  resumes : q ≡ resume p → OrderlyTurn p q

pub data OrderlyReach (p : PermitPool) : PermitPool → Type 0 where
  here : OrderlyReach p p
  next : {q r : PermitPool} → OrderlyReach p q → OrderlyTurn q r → OrderlyReach p r

abbrev pub WithinLimit : ℕ → PermitPool → Type 0
WithinLimit limit p = (p.limit ≡ limit) × (p.in_use + length p.woken ≤ limit)

wake-WithinLimit :
    (limit : ℕ) (ws : List ℕ) (p : PermitPool)
    → p.limit ≡ limit
    → p.in_use + length p.woken + 1 ≤ limit
    → WithinLimit limit (wake ws p)
wake-WithinLimit limit [] p e h = (e, omega arith)
wake-WithinLimit limit (w ∷ ws) p e h = (e, omega (arith, length-append p.woken (w ∷ [])))

release-WithinLimit :
    (limit : ℕ) (p : PermitPool)
    → 0 < p.in_use
    → WithinLimit limit p
    → WithinLimit limit (release p)
unfolding release
release-WithinLimit limit p h v =
    wake-WithinLimit limit p.waiters (record p { in_use = p.in_use - 1 }) v.0 (omega arith)

resume-WithinLimit :
    (limit : ℕ) (p : PermitPool) → WithinLimit limit p → WithinLimit limit (resume p)
unfolding resume
resume-WithinLimit limit p v = ground arith

acquire-WithinLimit :
    (limit task : ℕ) (p : PermitPool)
    → p.woken ≡ []
    → WithinLimit limit p
    → WithinLimit limit (acquire task p)
unfolding acquire
acquire-WithinLimit limit task p e v = ground arith

OrderlyTurn-WithinLimit :
    (limit : ℕ) {p q : PermitPool} → OrderlyTurn p q → WithinLimit limit p → WithinLimit limit q
OrderlyTurn-WithinLimit limit {p} (acquires task e h) v =
    subst (WithinLimit limit) (sym h) (acquire-WithinLimit limit task p e v)
OrderlyTurn-WithinLimit limit {p} (releases l h) v =
    subst (WithinLimit limit) (sym h) (release-WithinLimit limit p l v)
OrderlyTurn-WithinLimit limit {p} (resumes h) v =
    subst (WithinLimit limit) (sym h) (resume-WithinLimit limit p v)

reach-WithinLimit :
    (limit : ℕ) {q : PermitPool} → OrderlyReach (new_pool limit) q → WithinLimit limit q
unfolding new_pool
reach-WithinLimit limit here = (refl, omega arith)
reach-WithinLimit limit (next r t) = OrderlyTurn-WithinLimit limit t (reach-WithinLimit limit r)

-- Where no call of `acquire` comes between a release and the rest of the `acquire` that it wakes, a
-- new pool never has more permits in use than its limit.
pub permits_within_limit :
    (limit : ℕ) {q : PermitPool} → OrderlyReach (new_pool limit) q → q.in_use ≤ limit
permits_within_limit limit r = omega (arith, reach-WithinLimit limit r)

-- A pool that has handed out `n` permits and nothing else.
abbrev busy : ℕ → ℕ → PermitPool
busy limit n = record { limit = limit; in_use = n; waiters = []; woken = [] }

acquire-busy : (limit n : ℕ) → n < limit → acquire 0 (busy limit n) ≡ busy limit (suc n)
unfolding acquire
acquire-busy limit n h = ground arith

fill : (limit n : ℕ) → n ≤ limit → Reach (new_pool limit) (busy limit n)
unfolding new_pool
fill limit zero h = here
fill limit (suc n) h = next (fill limit n (omega arith)) (acquires 0 (sym (acquire-busy limit n h)))

-- For every positive limit some turns of the event loop leave a pool with one permit more in use than
-- its limit: a call of `acquire` between a release and the rest of the `acquire` that it wakes.
pub permits_over_limit :
    (limit : ℕ) → 0 < limit → (q : PermitPool) × Reach (new_pool limit) q × (q.in_use ≡ suc limit)
unfolding acquire release resume
permits_over_limit limit h =
    let waiting : PermitPool = record (busy limit limit) { waiters = 1 ∷ [] } in
    let woken : PermitPool = record {
      limit = limit;
      in_use = limit - 1;
      waiters = [];
      woken = 1 ∷ [];
    } in
    let taken : PermitPool = record woken { in_use = limit } in
    let over : PermitPool = record (busy limit limit) { in_use = suc limit } in
    let wait : Turn (busy limit limit) waiting = acquires 1 (ground arith) in
    let free : Turn waiting woken = releases h (ground arith) in
    let take_it : Turn woken taken = acquires 2 (ground arith) in
    let go_on_too : Turn taken over = resumes (ground arith) in
    (
      over,
      next (next (next (next (fill limit limit (omega arith)) wait) free) take_it) go_on_too,
      refl,
    )
