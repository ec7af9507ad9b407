-- ===== src/Poll/Interval.antt =====
-- The interval to the next poll (web/src/poll/usePoll.ts). The payload is seen through
-- `JSON.stringify`, whose text is a parameter: the `serialized` payload, "" while there is none.
pub mod Laws
use ephemeral_sandbox_consol.Base.{
  ℕ, ◌+◌, ◌*◌, Bool, Option, none, some, Text, [], if◌then◌else◌, ltb, ◌==◌, min,
}

pub data PollMode : Type 0 where
  fast slow : PollMode

pub record PollTracking : Type 0 where
  pub at : ℕ
  pub fingerprint : Text

abbrev pub fast_poll_ms : ℕ
fast_poll_ms = 400

abbrev pub slow_poll_ms : ℕ
slow_poll_ms = 2000

abbrev pub idle_after_ms : ℕ
idle_after_ms = 15_000

abbrev idle_multiplier : ℕ
idle_multiplier = 4

abbrev max_idle_ms : ℕ
max_idle_ms = 8000

abbrev pub base_interval : PollMode → ℕ
base_interval fast = fast_poll_ms
base_interval slow = slow_poll_ms

abbrev pub fingerprint_of : Option Text → Text
fingerprint_of none = []
fingerprint_of (some serialized) = serialized

-- The interval, `none` for `false`, beside the tracking object that the call leaves.
unfoldable pub poll_interval :
    Option Text → PollMode → PollTracking → ℕ → Bool → Option ℕ × PollTracking
poll_interval payload mode tracking now hidden =
    if hidden
    then (none, tracking)
    else if fingerprint_of payload == tracking.fingerprint
    then if ltb (idle_after_ms + tracking.at) now
      then (some (min (base_interval mode * idle_multiplier) max_idle_ms), tracking)
      else (some (base_interval mode), tracking)
    else (
      some (base_interval mode),
      record tracking { at = now; fingerprint = fingerprint_of payload },
    )
