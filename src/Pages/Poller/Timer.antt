-- ===== src/Pages/Poller/Timer.antt =====
-- The timer runs while there is something to poll
-- (web/src/pages/sandbox/terminal/TranscriptPollProvider.tsx).
use ephemeral_sandbox_consol.Base.{
  ◌≡◌, sym, ap, ◌∙◌, Bool, true, false, not, List, [], ◌∷◌, arith, nat_eq, is_some, length, filter,
  Text, ◌==◌,
}
use ephemeral_sandbox_consol.Pages.Poller.{
  Poller, add_key, run_poll, settle_poll, sync_timer, register, unregister, visibility_change,
}

-- What reaches the provider; `hidden` is that of the document.
pub data PollerEvent : Type 0 where
  registered : Bool → Text → PollerEvent
  unregistered : Bool → Text → PollerEvent
  visibility : Bool → PollerEvent
  ticked : PollerEvent
  settled : PollerEvent

abbrev pub handle : PollerEvent → Poller → Poller
handle (registered hidden key) p = (register hidden key p).0
handle (unregistered hidden key) p = unregister hidden key p
handle (visibility hidden) p = (visibility_change hidden p).0
handle ticked p = (run_poll p).0
handle settled p = settle_poll p

abbrev pub handle_all : List PollerEvent → Poller → Poller
handle_all [] p = p
handle_all (e ∷ es) p = handle_all es (handle e p)

-- The timer runs exactly when a poll is registered.
abbrev pub IsTimed : Poller → Type 0
IsTimed p = is_some p.timer ≡ not (nat_eq (length p.keys) 0)

sync_timer-IsTimed : (reset hidden : Bool) (p : Poller) → IsTimed (sync_timer reset hidden p)
unfolding sync_timer
sync_timer-IsTimed reset hidden p = ground arith

run_poll-keeps : (p : Poller) → ((run_poll p).0.keys ≡ p.keys) × ((run_poll p).0.timer ≡ p.timer)
unfolding run_poll
run_poll-keeps p = ground arith

run_poll-IsTimed : (p : Poller) → IsTimed p → IsTimed (run_poll p).0
run_poll-IsTimed p h =
    let (same_keys, same_timer) = run_poll-keeps p in
    ap is_some same_timer ∙ h ∙ ap (λ keys. not (nat_eq (length keys) 0)) (sym same_keys)

handle-IsTimed : (e : PollerEvent) (p : Poller) → IsTimed p → IsTimed (handle e p)
unfolding register unregister visibility_change settle_poll
handle-IsTimed (registered hidden key) p h =
    let added : Poller = record p { keys = add_key key p.keys } in
    run_poll-IsTimed (sync_timer false hidden added) (sync_timer-IsTimed false hidden added)
handle-IsTimed (unregistered hidden key) p h =
    sync_timer-IsTimed false hidden (record p { keys = filter (λ k. not (k == key)) p.keys })
handle-IsTimed (visibility true) p h = sync_timer-IsTimed true true p
handle-IsTimed (visibility false) p h =
    run_poll-IsTimed (sync_timer true false p) (sync_timer-IsTimed true false p)
handle-IsTimed ticked p h = run_poll-IsTimed p h
handle-IsTimed settled p h = h

-- Whatever registers, leaves, hides or shows the page and ticks, in whatever order, the timer goes on
-- running exactly when some poll is registered.
pub handle_all-IsTimed :
    (es : List PollerEvent) (p : Poller) → IsTimed p → IsTimed (handle_all es p)
handle_all-IsTimed [] p h = h
handle_all-IsTimed (e ∷ es) p h = handle_all-IsTimed es (handle e p) (handle-IsTimed e p h)
