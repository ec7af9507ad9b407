-- ===== src/Poll/Interval/Laws.antt =====
-- Cadence, idle decay and recovery of a polled query (web/src/poll/usePoll.ts).
use ephemeral_sandbox_consol.Base.{
  ℕ, ◌+◌, ◌≤◌, Bool, true, false, Option, none, some, Text, List, [], ◌∷◌, ◌≡◌, ◌≢◌, ◌↔◌, ◌⊎◌,
  arith, map, ◌*◌, refl, inr, ap, ◌∙◌,
}
use ephemeral_sandbox_consol.Poll.Interval.{
  PollMode, fast, slow, PollTracking, poll_interval, base_interval, fingerprint_of,
}

-- Polling stops exactly while the tab is hidden; otherwise the next poll is between 400 ms and
-- 8 s away, and never sooner than the base cadence of the mode.
pub poll_interval_bounds :
    (payload : Option Text) (mode : PollMode) (t : PollTracking) (now : ℕ) (hidden : Bool)
    → (((poll_interval payload mode t now hidden).0 ≡ none) ↔ (hidden ≡ true))
      × ((ms : ℕ)
          → (poll_interval payload mode t now hidden).0 ≡ some ms
          → (400 ≤ ms) × (base_interval mode ≤ ms) × (ms ≤ 8000))
unfolding poll_interval
poll_interval_bounds payload mode t now hidden =
    (ground arith, λ ms h. bounds payload mode t now hidden ms h)
  where
    bounds :
        (payload : Option Text) (mode : PollMode) (t : PollTracking) (now : ℕ) (hidden : Bool)
        (ms : ℕ)
        → (poll_interval payload mode t now hidden).0 ≡ some ms
        → (400 ≤ ms) × (base_interval mode ≤ ms) × (ms ≤ 8000)
    bounds payload fast t now hidden ms h = ground arith
    bounds payload slow t now hidden ms h = ground arith

-- While the tab is visible the cadence is the base one exactly when the payload changed or the
-- last change is at most 15 s old; else it is four times slower, up to 8 s.
pub poll_interval-decay :
    (payload : Option Text) (mode : PollMode) (t : PollTracking) (now : ℕ)
    → (((poll_interval payload mode t now false).0 ≡ some (base_interval mode))
        ↔ ((fingerprint_of payload ≢ t.fingerprint) ⊎ (now ≤ t.at + 15_000)))
      × (((poll_interval payload mode t now false).0 ≢ some (base_interval mode))
          → (poll_interval payload mode t now false).0 ≡ some (base_interval mode * 4))
unfolding poll_interval
poll_interval-decay payload fast t now = (ground arith, ground arith)
poll_interval-decay payload slow t now = (ground arith, ground arith)

-- One poll after another, all visible, each at its time with its payload.
pub polls : PollMode → List (ℕ × Option Text) → PollTracking → PollTracking
polls mode [] t = t
polls mode ((now, payload) ∷ rest) t = polls mode rest (poll_interval payload mode t now false).1

poll-same :
    (mode : PollMode) (payload : Option Text) (t : PollTracking) (now : ℕ)
    → fingerprint_of payload ≡ t.fingerprint
    → (poll_interval payload mode t now false).1 ≡ t
unfolding poll_interval
poll-same mode payload t now e = ground arith

poll-changed :
    (mode : PollMode) (payload : Option Text) (t : PollTracking) (at : ℕ)
    → fingerprint_of payload ≢ t.fingerprint
    → (poll_interval payload mode t at false).1
      ≡ record { at = at; fingerprint = fingerprint_of payload }
unfolding poll_interval
poll-changed mode payload t at h = ground arith

polls-same :
    (mode : PollMode) (payload : Option Text) (t : PollTracking) (times : List ℕ)
    → fingerprint_of payload ≡ t.fingerprint
    → polls mode (map (λ time. (time, payload)) times) t ≡ t
unfolding polls
polls-same mode payload t [] e = refl
polls-same mode payload t (time ∷ times) e =
    ap (polls mode (map (λ later. (later, payload)) times)) (poll-same mode payload t time e)
    ∙ polls-same mode payload t times e

-- A change of the payload is never lost: whatever the polls before it, and however many polls with
-- the same payload follow it, the cadence is the base one for the next 15 s after the change.
pub poll_interval-recovery :
    (mode : PollMode) (payload : Option Text) (t : PollTracking) (at now : ℕ) (times : List ℕ)
    → fingerprint_of payload ≢ t.fingerprint
    → now ≤ at + 15_000
    → (poll_interval payload mode
        (polls mode ((at, payload) ∷ map (λ time. (time, payload)) times) t)
        now
        false).0
      ≡ some (base_interval mode)
unfolding polls
poll_interval-recovery mode payload t at now times h k =
    let t' : PollTracking = record { at = at; fingerprint = fingerprint_of payload } in
    let later = map (λ time. (time, payload)) times in
    let end : polls mode ((at, payload) ∷ later) t ≡ t' =
      ap (polls mode later) (poll-changed mode payload t at h)
      ∙ polls-same mode payload t' times refl in
    ap (λ u. (poll_interval payload mode u now false).0) end
    ∙ (poll_interval-decay payload mode t' now).0.1 (inr k)
