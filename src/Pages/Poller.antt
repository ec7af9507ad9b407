-- ===== src/Pages/Poller.antt =====
-- The one timer that polls every open transcript in turn
-- (web/src/pages/sandbox/terminal/TranscriptPollProvider.tsx). A registered poll is known by its key.
pub mod Fairness
pub mod Timer
use ephemeral_sandbox_consol.Base.{
  ℕ, zero, suc, ◌+◌, ◌%◌, min, Bool, true, false, not, Option, none, some, List, [], ◌∷◌, ◌++◌,
  nat_eq, if◌then◌else◌, length, filter, Text, ◌==◌, get_elem?,
}
use ephemeral_sandbox_consol.Base.Keyed.{has}

abbrev pub max_polls_per_tick : ℕ
max_polls_per_tick = 4

-- `pollersRef` by its keys, in the order of insertion; `timerRef` by its interval.
pub record Poller : Type 0 where
  pub keys : List Text
  pub cursor : ℕ
  pub polling : Bool
  pub timer : Option ℕ

-- `pollers[(start + index) % pollers.length]` for the indices from `index` on.
unfoldable pub select : List Text → ℕ → ℕ → ℕ → List (Option Text)
select keys start index zero = []
select keys start index (suc left) =
    get_elem? keys ((start + index) % length keys) ∷ select keys start (index + 1) left

-- The polls of a list that is not empty. The cursor moves on before they are awaited.
abbrev pub poll_keys : ℕ → Poller → Poller × List (Option Text)
poll_keys n p =
    let count = min max_polls_per_tick n in
    let start = p.cursor % n in
    (record p { polling = true; cursor = (start + count) % n }, select p.keys start 0 count)

-- The state after `runPoll` has started, with the polls that it calls.
unfoldable pub run_poll : Poller → Poller × List (Option Text)
unfolding select
run_poll p =
    if p.polling
    then (p, [])
    else if nat_eq (length p.keys) 0
    then (p, [])
    else poll_keys (length p.keys) p

-- The `finally` of `runPoll`, after all its polls.
unfoldable pub settle_poll : Poller → Poller
settle_poll p = record p { polling = false }

abbrev interval_of : Bool → ℕ
interval_of hidden = if hidden then 2000 else 400

abbrev set_timer : Bool → Option ℕ → Option ℕ
set_timer hidden none = some (interval_of hidden)
set_timer hidden (some ms) = some ms

unfoldable pub sync_timer : (reset hidden : Bool) → Poller → Poller
sync_timer reset hidden p =
    let timer = if reset then none else p.timer in
    if nat_eq (length p.keys) 0
    then record p { timer = none }
    else record p { timer = set_timer hidden timer }

-- `map.set(key, poll)` keeps the place of a key that is there.
abbrev pub add_key : Text → List Text → List Text
add_key key keys = if has key keys then keys else keys ++ key ∷ []

unfoldable pub register : (hidden : Bool) → Text → Poller → Poller × List (Option Text)
unfolding sync_timer run_poll
register hidden key p = run_poll (sync_timer false hidden (record p { keys = add_key key p.keys }))

unfoldable pub unregister : (hidden : Bool) → Text → Poller → Poller
unfolding sync_timer
unregister hidden key p =
    sync_timer false hidden (record p { keys = filter (λ k. not (k == key)) p.keys })

unfoldable pub visibility_change : (hidden : Bool) → Poller → Poller × List (Option Text)
unfolding sync_timer run_poll
visibility_change true p = (sync_timer true true p, [])
visibility_change false p = run_poll (sync_timer true false p)
