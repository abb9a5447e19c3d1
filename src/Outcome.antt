-- ===== src/Outcome.antt =====
-- A request runs over the outside world and ends with a value or with an exception. The writes
-- made before an exception stay, unless they stand in a transaction.
use music_video_generator.Prelude.{ℕ, Bool, true, false, ◌≡◌, refl, ap, ◌⊎◌, inl, inr}

pub data Failure : Type 0 where
  project_not_found job_not_found no_jobs no_pipeline_jobs : ℕ → Failure
  missing_comfyui_url missing_replicate_token missing_gemini_key no_source_input : Failure
  record_not_found : Failure
  out_of_fuel : Failure
  queue_unavailable : Failure
  dead_letter_not_found : ℕ → Failure
  dead_letter_without_project dead_letter_without_job : Failure
  dev_auth_in_production invalid_dev_user_id auth_not_configured expiry_unreadable : Failure
  invalid_access_token invalid_refresh_token invalid_refresh_session : Failure
  refresh_session_expired missing_user_claim missing_exp_claim missing_token : Failure
  missing_authenticated_user : Failure
  invalid_source_mode quota_exceeded : Failure

pub data Outcome {ℓ} (A : Type ℓ) : Type ℓ where
  ok : A → Outcome A
  err : Failure → Outcome A

abbrev pub M : Type 0 → Type 0 → Type 0
M W A = W → Outcome A × W

abbrev pub and_then : {W A B : Type 0} → (A → W → Outcome B × W) → Outcome A × W → Outcome B × W
and_then f (ok a, w) = f a w
and_then f (err e, w) = (err e, w)

infixl 5 ◌>>=◌ ◌>>◌
abbrev pub ◌>>=◌ :
    {W A B : Type 0} → (W → Outcome A × W) → (A → W → Outcome B × W) → W → Outcome B × W
◌>>=◌ m f w = and_then f (m w)

abbrev pub ◌>>◌ :
    {W B : Type 0} → (W → Outcome (Unit {0}) × W) → (W → Outcome B × W) → W → Outcome B × W
◌>>◌ m k w = and_then (λ _. k) (m w)

abbrev pub return : {W A : Type 0} → A → W → Outcome A × W
return a w = (ok a, w)

-- A step that reads and writes nothing.
abbrev pub from : {W A : Type 0} → Outcome A → W → Outcome A × W
from r w = (r, w)

abbrev pub throw : {W A : Type 0} → Failure → W → Outcome A × W
throw e w = (err e, w)

abbrev settle : {W A : Type 0} → W → Outcome A × W → Outcome A × W
settle w (ok a, w') = (ok a, w')
settle w (err e, w') = (err e, w)

-- `$transaction`: an exception undoes the writes.
abbrev pub transaction : {W A : Type 0} → (W → Outcome A × W) → W → Outcome A × W
transaction m w = settle w (m w)

-- `if (test) { action }`.
abbrev pub when : {W : Type 0} → Bool → (W → Outcome (Unit {0}) × W) → W → Outcome (Unit {0}) × W
when true m w = m w
when false m w = (ok tt, w)

pub ok_injective : {A : Type 0} {a a' : A} → ok a ≡ ok a' → a ≡ a'
ok_injective h = cc

pub err_ne_ok : {A : Type 0} {e : Failure} {a : A} → err e ≡ ok a → ⊥
err_ne_ok h = cc

pub Outcome-cases :
    {A : Type 0} (o : Outcome A) → ((e : Failure) × (o ≡ err e)) ⊎ ((a : A) × (o ≡ ok a))
Outcome-cases (ok a) = inr (a, refl)
Outcome-cases (err e) = inl (e, refl)

-- A chain that returns a value has returned one at each step.
pub and_then-eq-ok :
    {W A B : Type 0} (f : A → W → Outcome B × W) (x : Outcome A × W) {v : B} {w' : W}
    → and_then f x ≡ (ok v, w')
    → (a : A) × (w : W) × (x ≡ (ok a, w)) × (f a w ≡ (ok v, w'))
and_then-eq-ok f (ok a, w) h = (a, w, refl, h)
and_then-eq-ok f (err e, w) h = absurd (err_ne_ok (ap (λ r. r.0) h))

-- A chain that starts with a step that reads and writes nothing.
pub from-eq-ok :
    {W A B : Type 0} (r : Outcome A) (k : A → W → Outcome B × W) (w : W) {v : B} {w' : W}
    → and_then k (from r w) ≡ (ok v, w')
    → (a : A) × (r ≡ ok a) × (k a w ≡ (ok v, w'))
from-eq-ok (ok a) k w h = (a, refl, h)
from-eq-ok (err e) k w h = absurd (err_ne_ok (ap (λ r. r.0) h))

module _ {W A B : Type 0} (P : W → Type 0) (k : A → W → Outcome B × W) where
  -- What every step of a chain keeps, the chain keeps.
  pub and_then-keeps :
      (x : Outcome A × W) → P x.1 → ((a : A) (w : W) → P w → P (k a w).1) → P (and_then k x).1
  and_then-keeps (ok a, w) h f = f a w h
  and_then-keeps (err e, w) h f = h

  pub from-keeps :
      (r : Outcome A) (w : W)
      → P w
      → ((a : A) → r ≡ ok a → P (k a w).1)
      → P (and_then k (from r w)).1
  from-keeps (ok a) w h f = f a refl
  from-keeps (err e) w h f = h

pub transaction-eq-ok :
    {W A : Type 0} (m : W → Outcome A × W) (w : W) {a : A} {w' : W}
    → transaction m w ≡ (ok a, w')
    → m w ≡ (ok a, w')
transaction-eq-ok m w h = settle-eq-ok w (m w) h
  where
    settle-eq-ok :
        {W A : Type 0} (w : W) (r : Outcome A × W) {a : A} {w' : W}
        → settle w r ≡ (ok a, w')
        → r ≡ (ok a, w')
    settle-eq-ok w (ok a, w₁) h = h
    settle-eq-ok w (err e, w₁) h = absurd (err_ne_ok (ap (λ q. q.0) h))
