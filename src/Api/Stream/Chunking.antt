-- ===== src/Api/Stream/Chunking.antt =====
-- A stream is the text of its chunks (`rpcStream` of web/src/api/rpc.ts).
use ephemeral_sandbox_consol.Base.{
  ℕ, zero, suc, ◌≤◌, ◌<◌, ◌≡◌, refl, sym, ap, ◌∙◌, inl, inr, Option, some, List, [], ◌∷◌, ◌++◌,
  append_assoc, append-nil, arith, Option-cases, length, Text,
}
use mathlib.Core.List.{flatten}
use mathlib.Core.Path.{fun_ext}
use native.Mathlib.Nat.{le_refl}
use ephemeral_sandbox_consol.Base.Json.{Json}
use ephemeral_sandbox_consol.Api.Stream
use ephemeral_sandbox_consol.Api.Stream.{
  cut, continue, Reaction, skip, log, settle, Drained, waiting, done, Received, resume, BodyEnd,
  answered, rpc_stream, drain, drain_all, receive, react, parse_sse_chunk,
}
use ephemeral_sandbox_consol.Api.Stream.Boundaries.{cut-append, length-cut}

prepend : List Json → Drained → Drained
prepend logs (waiting later buffer) = waiting (logs ++ later) buffer
prepend logs (done later outcome) = done (logs ++ later) outcome

prepend-nil : (d : Drained) → prepend [] d ≡ d
unfolding prepend
prepend-nil (waiting later buffer) = refl
prepend-nil (done later outcome) = refl

prepend-cons :
    (line : Json) (logs : List Json) (d : Drained)
    → continue (log line) (prepend logs d) ≡ prepend (line ∷ logs) d
unfolding prepend continue
prepend-cons line logs (waiting later buffer) = refl
prepend-cons line logs (done later outcome) = refl

-- One drain after the other: the second is given what the first leaves.
then_drain : Drained → (Text → Drained) → Drained
then_drain (done logs outcome) next = done logs outcome
then_drain (waiting logs buffer) next = prepend logs (next buffer)

then_drain-continue :
    (r : Reaction) (d : Drained) (next : Text → Drained)
    → continue r (then_drain d next) ≡ then_drain (continue r d) next
unfolding continue then_drain
then_drain-continue skip d next = refl
then_drain-continue (log line) (waiting logs buffer) next = prepend-cons line logs (next buffer)
then_drain-continue (log line) (done logs outcome) next = refl
then_drain-continue (settle o) d next = refl

-- What is received once the whole text has been drained.
finish : BodyEnd → Drained → Received
finish end d = resume d (λ rest. record { logs = []; outcome = Stream.at_end end })

finish-prepend :
    (end : BodyEnd) (logs : List Json) (d : Drained)
    → finish end (prepend logs d)
      ≡ record { logs = logs ++ (finish end d).logs; outcome = (finish end d).outcome }
unfolding finish resume prepend
finish-prepend end logs (waiting later buffer) = simp (append-nil)
finish-prepend end logs (done later outcome) = refl

finish-then_drain :
    (end : BodyEnd) (d : Drained) (next : Text → Drained)
    → finish end (then_drain d next) ≡ resume d (λ rest. finish end (next rest))
unfolding resume then_drain
finish-then_drain end (waiting logs buffer) next = finish-prepend end logs (next buffer)
finish-then_drain end (done logs outcome) next = unfold finish in refl

module _ (parse : Text → Option Json) where
  -- More fuel than the text is long changes nothing.
  drain-fuel :
      (n m : ℕ) (s : Text) → length s ≤ n → length s ≤ m → drain parse n s ≡ drain parse m s
  unfolding drain
  drain-fuel zero zero s h k = refl
  drain-fuel zero (suc m) [] h k = refl
  drain-fuel zero (suc m) (c ∷ s) h k = absurd (omega arith)
  drain-fuel (suc n) zero [] h k = refl
  drain-fuel (suc n) zero (c ∷ s) h k = absurd (omega arith)
  drain-fuel (suc n) (suc m) s h k = elim (Option-cases (cut s)) [
    | inl e ↦ rw (e, drain) refl
    | inr (parts, e) ↦
        let short : length parts.1 < length s = length-cut s e in
        rw (e, drain)
          (ap (continue (react parse (parse_sse_chunk parts.0)))
            (drain-fuel n m parts.1 (omega arith) (omega arith)))
  ]

  -- One round, whatever the fuel.
  drain-cut :
      (n : ℕ) (s : Text) (parts : Text × Text)
      → cut s ≡ some parts
      → length s ≤ n
      → drain parse n s ≡ continue (react parse (parse_sse_chunk parts.0)) (drain_all parse parts.1)
  unfolding drain_all
  drain-cut n s parts e h =
      let short : length parts.1 < length s = length-cut s e in
      drain-fuel n (suc (length s)) s h (omega arith)
      ∙ rw (e, drain)
          (ap (continue (react parse (parse_sse_chunk parts.0)))
            (drain-fuel (length s) (length parts.1) parts.1 (omega arith) (omega arith)))

  drain_all-cut :
      (s : Text) (parts : Text × Text)
      → cut s ≡ some parts
      → drain_all parse s
        ≡ continue (react parse (parse_sse_chunk parts.0)) (drain_all parse parts.1)
  drain_all-cut s parts e = unfold drain_all in drain-cut (length s) s parts e (le_refl _)

  -- To drain a longer text is to drain its beginning first, and then what that leaves.
  drain-append :
      (n : ℕ) (s more : Text)
      → length s ≤ n
      → drain_all parse (s ++ more)
        ≡ then_drain (drain parse n s) (λ rest. drain_all parse (rest ++ more))
  unfolding drain then_drain
  drain-append zero [] more h = sym (prepend-nil (drain_all parse more))
  drain-append zero (c ∷ s) more h = absurd (omega arith)
  drain-append (suc n) s more h = elim (Option-cases (cut s)) [
    | inl e ↦ rw (e, drain) (sym (prepend-nil (drain_all parse (s ++ more))))
    | inr (parts, e) ↦
        let short : length parts.1 < length s = length-cut s e in
        let next : Text → Drained = λ rest. drain_all parse (rest ++ more) in
        drain_all-cut (s ++ more) (parts.0, parts.1 ++ more) (cut-append s more e)
        ∙ ap (continue (react parse (parse_sse_chunk parts.0)))
            (drain-append n parts.1 more (omega arith))
        ∙ then_drain-continue (react parse (parse_sse_chunk parts.0)) (drain parse n parts.1) next
        ∙ rw (e, drain) refl
  ]

  receive-drain_all :
      (end : BodyEnd) (buffer chunk : Text) (chunks : List Text)
      → receive parse end buffer (chunk ∷ chunks)
        ≡ finish end (drain_all parse (buffer ++ (chunk ++ flatten chunks)))
  unfolding receive finish flatten
  receive-drain_all end buffer chunk [] = rw append-nil refl
  receive-drain_all end buffer chunk (next ∷ chunks) =
      let more : Text = next ++ flatten chunks in
      let drained : Drained = drain_all parse (buffer ++ chunk) in
      let whole : drain_all parse ((buffer ++ chunk) ++ more)
          ≡ then_drain drained (λ rest. drain_all parse (rest ++ more)) =
        unfold drain_all in
        drain-append (length (buffer ++ chunk)) (buffer ++ chunk) more (le_refl _) in
      ap (resume drained) (fun_ext (λ rest. receive-drain_all end rest next chunks))
      ∙ sym (finish-then_drain end drained (λ rest. drain_all parse (rest ++ more)))
      ∙ ap (finish end) (sym whole ∙ ap (drain_all parse) (append_assoc buffer chunk more))

  receive-text :
      (end : BodyEnd) (chunks : List Text)
      → receive parse end [] chunks ≡ finish end (drain_all parse (flatten chunks))
  unfolding receive finish flatten drain_all drain resume
  receive-text end [] = refl
  receive-text end (chunk ∷ chunks) = receive-drain_all end [] chunk chunks

  -- What a stream logs and how it settles depends only on the text that arrives, not on where the
  -- network cuts it: two answers whose chunks join to one text are received alike.
  pub rpc_stream_of_text :
      (status : ℕ) (body : Json) (end : BodyEnd) (chunks others : List Text)
      → flatten chunks ≡ flatten others
      → rpc_stream parse (answered status body (some (chunks, end)))
        ≡ rpc_stream parse (answered status body (some (others, end)))
  unfolding rpc_stream
  rpc_stream_of_text status body end chunks others h =
      rw (receive-text end chunks, receive-text end others, h)
