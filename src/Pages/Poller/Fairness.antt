-- ===== src/Pages/Poller/Fairness.antt =====
-- Every transcript has its turn (web/src/pages/sandbox/terminal/TranscriptPollProvider.tsx).
use ephemeral_sandbox_consol.Base.{
  ℕ, zero, suc, ◌+◌, ◌-◌, ◌*◌, ◌%◌, ◌≤◌, ◌<◌, min, ◌≡◌, refl, sym, ap, ap₂, ◌∙◌, subst, inl, inr,
  Bool, false, Option, some, List, [], ◌∷◌, ◌++◌, arith, ltb, nat_eq, if◌then◌else◌, Bool-cases,
  ltb→lt, nat_eq_iff, length, Some, Text, Some-append_left, Some-append_right, get_elem?,
}
use native.Mathlib.Nat.{mod-lt, mod-add-mod, mod-eq_of_lt, add-mod_right}
use ephemeral_sandbox_consol.Pages.Poller.{Poller, select, poll_keys, run_poll, settle_poll}

-- One tick of the timer whose polls are done before the next.
abbrev pub tick : Poller → Poller
tick p = settle_poll (run_poll p).0

-- The polls of some ticks, in their order.
abbrev pub polled : ℕ → Poller → List (Option Text)
polled zero p = []
polled (suc k) p = (run_poll p).1 ++ polled k (tick p)

length-select :
    (keys : List Text) (start index left : ℕ) → length (select keys start index left) ≡ left
unfolding select
length-select keys start index zero = refl
length-select keys start index (suc left) = omega (arith, length-select keys start (index + 1) left)

select-Some :
    (keys : List Text) (start d index left : ℕ)
    → index ≤ d
    → d < index + left
    → Some (λ o. o ≡ get_elem? keys ((start + d) % length keys)) (select keys start index left)
unfolding select
select-Some keys start d index zero h k = absurd (omega (arith, h, k))
select-Some keys start d index (suc left) h k = elim (Bool-cases (nat_eq index d)) [
  | inl e ↦
      let same : index ≡ d = (nat_eq_iff index d).0 e in
      inl (ap (λ i. get_elem? keys ((start + i) % length keys)) same)
  | inr e ↦
      inr (select-Some keys start d (index + 1) left (ground (arith, h, e)) (omega (arith, k)))
]

-- A tick that is not kept back by the one before.
run_poll-idle :
    (p : Poller) → p.polling ≡ false → 1 ≤ length p.keys → run_poll p ≡ poll_keys (length p.keys) p
unfolding run_poll
run_poll-idle p idle some_keys =
    let busy : nat_eq (length p.keys) 0 ≡ false = ground arith in
    ap₂ (λ (a b : Bool). if a then (p, []) else if b then (p, []) else poll_keys (length p.keys) p)
      idle busy

length-run_poll : (p : Poller) → length (run_poll p).1 ≤ 4
unfolding run_poll
length-run_poll p =
    ground (arith, length-select p.keys (p.cursor % length p.keys) 0 (min 4 (length p.keys)))

get_elem?-lt :
    (keys : List Text) (j : ℕ) {key : Text} → get_elem? keys j ≡ some key → j < length keys
get_elem?-lt [] j e = absurd (cc)
get_elem?-lt (k ∷ keys) zero e = omega arith
get_elem?-lt (k ∷ keys) (suc j) e = omega (arith, get_elem?-lt keys j e)

-- The poll that stands d places after the cursor is called within the ticks that d needs.
polled_within :
    (k : ℕ) (p : Poller) (d : ℕ)
    → p.polling ≡ false
    → d < length p.keys
    → d < 4 * k
    → Some (λ o. o ≡ get_elem? p.keys ((p.cursor + d) % length p.keys)) (polled k p)
unfolding settle_poll
polled_within zero p d idle h₁ h₂ = absurd (omega (arith, h₂))
polled_within (suc k) p d idle h₁ h₂ =
    let n : ℕ = length p.keys in
    let count : ℕ = min 4 n in
    let start : ℕ = p.cursor % n in
    let P : Option Text → Type 0 = λ o. o ≡ get_elem? p.keys ((p.cursor + d) % n) in
    let ran : run_poll p ≡ poll_keys n p = run_poll-idle p idle (omega (arith, h₁)) in
    subst (λ (r : Poller × List (Option Text)). Some P (r.1 ++ polled k (settle_poll r.0)))
      (sym ran)
      (elim (Bool-cases (ltb d count)) [
        | inl now ↦
            Some-append_left P (select p.keys start 0 count)
              (polled k (settle_poll (poll_keys n p).0))
              (subst (λ (i : ℕ). Some (λ o. o ≡ get_elem? p.keys i) (select p.keys start 0 count))
                (mod-add-mod p.cursor n d)
                (select-Some p.keys start d 0 count (omega arith) (ground (arith, now))))
        | inr later ↦
            let next : Poller = settle_poll (poll_keys n p).0 in
            let four : count ≡ 4 = ground (arith, later, h₁) in
            let enough : 4 ≤ d = ground (arith, later, four) in
            let sum : (start + count) + (d - 4) ≡ start + d = omega (arith, four, enough) in
            let index : ((start + count) % n + (d - 4)) % n ≡ (p.cursor + d) % n =
              mod-add-mod (start + count) n (d - 4)
              ∙ ap (λ (i : ℕ). i % n) sum
              ∙ mod-add-mod p.cursor n d in
            Some-append_right P (select p.keys start 0 count) (polled k next) (
              subst (λ (i : ℕ). Some (λ o. o ≡ get_elem? p.keys i) (polled k next)) index
                (polled_within k next (d - 4) refl (omega (arith, h₁)) (omega (arith, h₂, enough))))
      ])

-- How far a place lies behind the start, going round.
places : (n start j : ℕ) → start < n → j < n → (d : ℕ) × (d < n) × ((start + d) % n ≡ j)
places n start j h k = elim (Bool-cases (ltb j start)) [
  | inl e ↦
      let before : j < start = ltb→lt j start e in
      let round : start + (j + n - start) ≡ j + n = omega (arith, h, before) in
      (
        j + n - start,
        omega (arith, before, h),
        ap (λ (i : ℕ). i % n) round ∙ add-mod_right j n ∙ mod-eq_of_lt k,
      )
  | inr e ↦
      let after : start ≤ j = ground (arith, e) in
      let there : start + (j - start) ≡ j = omega (arith, after) in
      (j - start, omega (arith, k), ap (λ (i : ℕ). i % n) there ∙ mod-eq_of_lt k)
]

-- Each tick calls at most four polls; and when the polls of each tick are done before the next, every
-- registered poll is called within k ticks, if there are at most four times k of them, wherever the
-- cursor stands.
pub polled-Some :
    (p : Poller) (k j : ℕ) {key : Text}
    → p.polling ≡ false
    → length p.keys ≤ 4 * k
    → get_elem? p.keys j ≡ some key
    → (length (run_poll p).1 ≤ 4) × Some (λ o. o ≡ some key) (polled k p)
polled-Some p k j {key} idle h e =
    let n : ℕ = length p.keys in
    let inside : j < n = get_elem?-lt p.keys j e in
    let (d, less, there) =
      places n (p.cursor % n) j (mod-lt p.cursor (omega (arith, inside))) inside in
    let index : (p.cursor + d) % n ≡ j = sym (mod-add-mod p.cursor n d) ∙ there in
    (
      length-run_poll p,
      subst (λ t. Some (λ o. o ≡ t) (polled k p)) (ap (get_elem? p.keys) index ∙ e)
          (polled_within k p d idle less (omega (arith, less, h))),
    )
