-- ===== src/Core/Ledger/Laws.antt =====
-- No transcript is shared (`transcriptFor` of web/src/pages/sandbox/terminal/ledger.ts).
use ephemeral_sandbox_consol.Base.{
  ◌≡◌, refl, ap, ◌∙◌, ◌≢◌, ◌⊎◌, inl, inr, some, List, arith, Option-cases, Text, text_eq_refl,
}
use ephemeral_sandbox_consol.Base.Keyed.{get, get-set}
use ephemeral_sandbox_consol.Core.Ledger.{
  TranscriptState, new_transcript, found_or_new, transcript_for,
}

found_or_new-get :
    (key : Text) (transcripts : List (Text × TranscriptState))
    → get key (found_or_new key (get key transcripts) transcripts).1
      ≡ some (found_or_new key (get key transcripts) transcripts).0
found_or_new-get key transcripts = elim (Option-cases (get key transcripts)) [
  | inl e ↦ rw (e) (get-set key key new_transcript transcripts ∙ ground (arith, text_eq_refl key))
  | inr (state, e) ↦ rw (e) e
]

found_or_new-other :
    (key other : Text) (transcripts : List (Text × TranscriptState))
    → key ≢ other
    → get other (found_or_new key (get key transcripts) transcripts).1 ≡ get other transcripts
found_or_new-other key other transcripts d = elim (Option-cases (get key transcripts)) [
  | inl e ↦ rw (e) (get-set other key new_transcript transcripts ∙ ground arith)
  | inr (state, e) ↦ rw (e) refl
]

-- When the printed keys of different pairs differ, asking for a transcript leaves every other
-- sandbox's and every other command's transcript as it is, and asking again gives the same state.
pub transcript_for_lem :
    (stringify : Text → Text → Text) (command sandbox : Text)
    (transcripts : List (Text × TranscriptState))
    → ((s c : Text) → stringify sandbox command ≡ stringify s c → (sandbox ≡ s) × (command ≡ c))
    → let after = transcript_for stringify command sandbox transcripts in
      ((transcript_for stringify command sandbox after.1).0 ≡ after.0)
      × ((s c : Text)
          → (sandbox ≢ s) ⊎ (command ≢ c)
          → get (stringify s c) after.1 ≡ get (stringify s c) transcripts)
unfolding transcript_for
transcript_for_lem stringify command sandbox transcripts injective = (
  ap
      (λ o.
        (found_or_new (stringify sandbox command) o
          (found_or_new (stringify sandbox command) (get (stringify sandbox command) transcripts)
            transcripts).1).0)
      (found_or_new-get (stringify sandbox command) transcripts),
  λ s c different.
      found_or_new-other (stringify sandbox command) (stringify s c) transcripts
        (λ e. elim different [ inl d ↦ d (injective s c e).0 | inr d ↦ d (injective s c e).1 ]),
)
