-- ===== src/Pages/Sessions/Exclusive.antt =====
-- One handler at a time (web/src/pages/sandbox/terminal/SessionSidebar.tsx).
use ephemeral_sandbox_consol.Base.{
  ◌≡◌, refl, sym, ap, ap₂, ◌∙◌, subst, inl, inr, Bool, true, false, ◌||◌, Option, none, some, List,
  [], ◌∷◌, ◌++◌, arith, Bool-cases, is_some, Text,
}
use ephemeral_sandbox_consol.Api.Observability.{NetworkProfile}
use ephemeral_sandbox_consol.Pages.Sessions.Problems.{
  Thrown, Problem, failed, retained, cleanup, close_problem,
}
use ephemeral_sandbox_consol.Pages.Sessions.{
  Action, Sidebar, is_busy, may_create, may_publish, may_destroy, close_successful_session,
  publish_failed, publish_problem, destroy_failed, workspaces_seen,
}
use ephemeral_sandbox_consol.Pages.Sessions.Steps.{
  Call, create_call, publish_call, destroy_call, publish_refresh, destroy_refresh, World,
  begin_create, begin_publish, begin_destroy, create_session, publish_session, destroy_session,
  release, end_create, Step, creates, publishes, destroys, ask_discard, cancel_discard, see,
  created, published, publish_rejected, destroyed, destroy_rejected, publish_refreshed,
  destroy_refreshed, Reachable, begins, steps,
}

-- The flags of a sidebar: whether it creates, the session that is busy, and the action on it.
abbrev pub Flags : Type 0
Flags = Bool × Option Text × Option Action

abbrev pub flags_of : Sidebar → Flags
flags_of s = (s.create_busy, s.busy_session_id, s.busy_action)

abbrev pub flags_during : Call → Flags
flags_during (create_call profile) = (true, none, none)
flags_during (publish_call id) = (false, some id, some Action.publish)
flags_during (destroy_call id) = (false, some id, some Action.discard)
flags_during (publish_refresh id) = (false, some id, some Action.publish)
flags_during (destroy_refresh id) = (false, some id, some Action.discard)

-- No call is under way and no flag is set, or one call is and the flags are its.
abbrev pub AreExclusive : Sidebar → List Call → Type 0
AreExclusive s [] = flags_of s ≡ (false, none, none)
AreExclusive s (call ∷ []) = flags_of s ≡ flags_during call
AreExclusive s (call ∷ next ∷ calls) = ⊥

abbrev pub IsExclusive : World → Type 0
IsExclusive w = AreExclusive w.sidebar w.calls

-- A handler that is let in finds no call, when its guard holds.
none_under_way :
    (s : Sidebar) (calls : List Call) → AreExclusive s calls → is_busy s ≡ false → calls ≡ []
none_under_way s [] h b = refl
none_under_way s (call ∷ []) h b = absurd (busy call (ap (λ (f : Flags). f.0 || is_some f.2) h))
  where
    busy : (c : Call) → is_busy s ≡ (flags_during c).0 || is_some (flags_during c).2 → ⊥
    busy (create_call profile) e = let p : false ≡ true = sym b ∙ e in cc
    busy (publish_call id) e = let p : false ≡ true = sym b ∙ e in cc
    busy (destroy_call id) e = let p : false ≡ true = sym b ∙ e in cc
    busy (publish_refresh id) e = let p : false ≡ true = sym b ∙ e in cc
    busy (destroy_refresh id) e = let p : false ≡ true = sym b ∙ e in cc
none_under_way s (call ∷ next ∷ calls) h b = absurd h

-- A call that is under way is the only one.
the_call :
    (s : Sidebar) (calls earlier later : List Call) (call : Call)
    → AreExclusive s calls
    → calls ≡ earlier ++ call ∷ later
    → (earlier ≡ []) × (later ≡ []) × (flags_of s ≡ flags_during call)
the_call s calls earlier later call h e = alone earlier later (subst (AreExclusive s) e h)
  where
    alone :
        (xs ys : List Call)
        → AreExclusive s (xs ++ call ∷ ys)
        → (xs ≡ []) × (ys ≡ []) × (flags_of s ≡ flags_during call)
    alone [] [] k = (refl, refl, k)
    alone [] (y ∷ ys) k = absurd k
    alone (x ∷ []) ys k = absurd k
    alone (x ∷ x' ∷ xs) ys k = absurd k

idle-flags :
    (s : Sidebar) (calls : List Call)
    → AreExclusive s calls
    → calls ≡ []
    → flags_of s ≡ (false, none, none)
idle-flags s calls h e = subst (AreExclusive s) e h

-- A call that ends or goes on alone.
ended :
    (s : Sidebar) (earlier later : List Call)
    → earlier ≡ []
    → later ≡ []
    → flags_of s ≡ (false, none, none)
    → AreExclusive s (earlier ++ later)
ended s earlier later e f h = subst (AreExclusive s) (sym (ap₂ (λ xs ys. xs ++ ys) e f)) h

goes_on :
    (s : Sidebar) (earlier later : List Call) (call : Call)
    → earlier ≡ []
    → later ≡ []
    → flags_of s ≡ flags_during call
    → AreExclusive s (earlier ++ call ∷ later)
goes_on s earlier later call e f h =
    subst (AreExclusive s) (sym (ap₂ (λ xs ys. xs ++ call ∷ ys) e f)) h

create_session-IsExclusive :
    (profile : NetworkProfile) (w : World) → IsExclusive w → IsExclusive (create_session profile w)
unfolding create_session may_create
create_session-IsExclusive profile w h = elim (Bool-cases (may_create w.sidebar)) [
  | inl e ↦
      let none_yet = none_under_way w.sidebar w.calls h (ground (arith, e)) in
      rw (e) (
        goes_on (begin_create w.sidebar) w.calls [] (create_call profile) none_yet refl
          (ap (λ (f : Flags). (true, f.1, f.2)) (idle-flags w.sidebar w.calls h none_yet)))
  | inr e ↦ rw (e) h
]

publish_session-IsExclusive :
    (id : Text) (w : World) → IsExclusive w → IsExclusive (publish_session id w)
unfolding publish_session may_publish
publish_session-IsExclusive id w h = elim (Bool-cases (may_publish w.sidebar w.workspaces id)) [
  | inl e ↦
      let none_yet = none_under_way w.sidebar w.calls h (ground (arith, e)) in
      rw (e) (
        goes_on (begin_publish id w.sidebar) w.calls [] (publish_call id) none_yet refl (
          ap (λ (f : Flags). (f.0, some id, some Action.publish))
            (idle-flags w.sidebar w.calls h none_yet)))
  | inr e ↦ rw (e) h
]

destroy_session-IsExclusive :
    (id : Text) (w : World) → IsExclusive w → IsExclusive (destroy_session id w)
unfolding destroy_session may_destroy
destroy_session-IsExclusive id w h = elim (Bool-cases (may_destroy w.sidebar w.workspaces id)) [
  | inl e ↦
      let none_yet = none_under_way w.sidebar w.calls h (ground (arith, e)) in
      rw (e) (
        goes_on (begin_destroy id w.sidebar) w.calls [] (destroy_call id) none_yet refl (
          ap (λ (f : Flags). (f.0, some id, some Action.discard))
            (idle-flags w.sidebar w.calls h none_yet)))
  | inr e ↦ rw (e) h
]

publish_failed-flags :
    (id : Text) (error : Thrown) (s : Sidebar) → flags_of (publish_failed id error s) ≡ flags_of s
unfolding publish_failed
publish_failed-flags id error s = go (close_problem error)
  where
    go : (problem : Problem) → flags_of (publish_problem id problem s) ≡ flags_of s
    go (retained r) = refl
    go (cleanup p) = refl
    go (failed title message) = refl

-- A change of the sidebar that leaves the flags.
AreExclusive-same :
    (s t : Sidebar) (calls : List Call)
    → flags_of t ≡ flags_of s
    → AreExclusive s calls
    → AreExclusive t calls
AreExclusive-same s t [] e h = e ∙ h
AreExclusive-same s t (call ∷ []) e h = e ∙ h
AreExclusive-same s t (call ∷ next ∷ calls) e h = h

Step-IsExclusive : {w v : World} → Step w v → IsExclusive w → IsExclusive v
unfolding close_successful_session destroy_failed workspaces_seen
Step-IsExclusive (creates w profile) h = create_session-IsExclusive profile w h
Step-IsExclusive (publishes w id) h = publish_session-IsExclusive id w h
Step-IsExclusive (destroys w id) h = destroy_session-IsExclusive id w h
Step-IsExclusive (ask_discard w id) h =
    AreExclusive-same w.sidebar
      (record w.sidebar { action_problem = none; discard_confirm_id = some id }) w.calls refl h
Step-IsExclusive (cancel_discard w) h =
    AreExclusive-same w.sidebar (record w.sidebar { discard_confirm_id = none }) w.calls refl h
Step-IsExclusive (see w workspaces) h =
    AreExclusive-same w.sidebar (workspaces_seen workspaces w.sidebar) w.calls refl h
Step-IsExclusive (created w earlier later profile session e) h =
    let (f, g, k) = the_call w.sidebar w.calls earlier later (create_call profile) h e in
    ended (end_create session w.sidebar) earlier later f g (done session k)
  where
    done :
        (given : Option (Text × NetworkProfile))
        → flags_of w.sidebar ≡ (true, none, none)
        → flags_of (end_create given w.sidebar) ≡ (false, none, none)
    done none k = ap (λ (f : Flags). (false, f.1, f.2)) k
    done (some x) k = ap (λ (f : Flags). (false, f.1, f.2)) k
Step-IsExclusive (published w earlier later id e) h =
    let (f, g, k) = the_call w.sidebar w.calls earlier later (publish_call id) h e in
    goes_on (close_successful_session id w.sidebar) earlier later (publish_refresh id) f g k
Step-IsExclusive (publish_rejected w earlier later id error e) h =
    let (f, g, k) = the_call w.sidebar w.calls earlier later (publish_call id) h e in
    goes_on (publish_failed id error w.sidebar) earlier later (publish_refresh id) f g
      (publish_failed-flags id error w.sidebar ∙ k)
Step-IsExclusive (destroyed w earlier later id e) h =
    let (f, g, k) = the_call w.sidebar w.calls earlier later (destroy_call id) h e in
    goes_on (close_successful_session id w.sidebar) earlier later (destroy_refresh id) f g k
Step-IsExclusive (destroy_rejected w earlier later id message e) h =
    let (f, g, k) = the_call w.sidebar w.calls earlier later (destroy_call id) h e in
    ended (release (destroy_failed id message w.sidebar)) earlier later f g
      (ap (λ (f : Flags). (f.0, none, none)) k)
Step-IsExclusive (publish_refreshed w earlier later id e) h =
    let (f, g, k) = the_call w.sidebar w.calls earlier later (publish_refresh id) h e in
    ended (release w.sidebar) earlier later f g (ap (λ (f : Flags). (f.0, none, none)) k)
Step-IsExclusive (destroy_refreshed w earlier later id e) h =
    let (f, g, k) = the_call w.sidebar w.calls earlier later (destroy_refresh id) h e in
    ended (release w.sidebar) earlier later f g (ap (λ (f : Flags). (f.0, none, none)) k)

-- In every state that clicks, answers, refreshes and snapshots lead to, at most one handler is under
-- way, and the busy flags say which: creation, or the action on the session that it is about.
pub Reachable-IsExclusive : {w : World} → Reachable w → IsExclusive w
Reachable-IsExclusive begins = refl
Reachable-IsExclusive (steps before step) = Step-IsExclusive step (Reachable-IsExclusive before)
