-- ===== src/Tests/Codec.antt =====
-- A printer and a reader of JSON values, in prefix form, which meet what the storage relies on.
use ephemeral_sandbox_consol.Base.{
  ℕ, zero, suc, ◌+◌, ◌≤◌, ◌<◌, ◌≡◌, refl, ap, ap₂, ◌∙◌, ◌≢◌, Bool, true, false, Option, none, some,
  [], ◌∷◌, ◌++◌, arith, nat_eq, length, length-append, take, drop, Text, pos, negsuc,
}
use ephemeral_sandbox_consol.Base.Json.{
  Json, Items, Fields, null, boolean, number, string, array, object, nil, item, end, field,
}
use ephemeral_sandbox_consol.Core.Clusters.Storage.{JsonText}

abbrev pub bit : Bool → ℕ
bit false = 0
bit true = 1

mutual
  write_json : Json → Text → Text
  write_json null rest = 0 ∷ rest
  write_json (boolean b) rest = 1 ∷ bit b ∷ rest
  write_json (number (pos n)) rest = 2 ∷ n ∷ rest
  write_json (number (negsuc n)) rest = 3 ∷ n ∷ rest
  write_json (string s) rest = 4 ∷ length s ∷ (s ++ rest)
  write_json (array xs) rest = 5 ∷ write_items xs rest
  write_json (object fs) rest = 6 ∷ write_fields fs rest

  write_items : Items → Text → Text
  write_items nil rest = 0 ∷ rest
  write_items (item x xs) rest = 1 ∷ write_json x (write_items xs rest)

  write_fields : Fields → Text → Text
  write_fields end rest = 0 ∷ rest
  write_fields (field k x fs) rest = 1 ∷ length k ∷ (k ++ write_json x (write_fields fs rest))

abbrev then_read {ℓ κ} : {A : Type ℓ} {B : Type κ} → Option A → (A → Option B) → Option B
then_read none f = none
then_read (some a) f = f a

mutual
  read_json : ℕ → Text → Option (Json × Text)
  read_json zero t = none
  read_json (suc fuel) [] = none
  read_json (suc fuel) (zero ∷ rest) = some (null, rest)
  read_json (suc fuel) ((suc zero) ∷ b ∷ rest) = some (boolean (nat_eq b 1), rest)
  read_json (suc fuel) ((suc (suc zero)) ∷ n ∷ rest) = some (number (pos n), rest)
  read_json (suc fuel) ((suc (suc (suc zero))) ∷ n ∷ rest) = some (number (negsuc n), rest)
  read_json (suc fuel) ((suc (suc (suc (suc zero)))) ∷ n ∷ rest) =
      some (string (take n rest), drop n rest)
  read_json (suc fuel) ((suc (suc (suc (suc (suc zero))))) ∷ rest) =
      then_read (read_items fuel rest) (λ p. some (array p.0, p.1))
  read_json (suc fuel) ((suc (suc (suc (suc (suc (suc zero)))))) ∷ rest) =
      then_read (read_fields fuel rest) (λ p. some (object p.0, p.1))
  read_json (suc fuel) _ = none

  read_items : ℕ → Text → Option (Items × Text)
  read_items zero t = none
  read_items (suc fuel) (zero ∷ rest) = some (nil, rest)
  read_items (suc fuel) ((suc zero) ∷ rest) =
      then_read (read_json fuel rest)
        (λ p. then_read (read_items fuel p.1) (λ q. some (item p.0 q.0, q.1)))
  read_items (suc fuel) _ = none

  read_fields : ℕ → Text → Option (Fields × Text)
  read_fields zero t = none
  read_fields (suc fuel) (zero ∷ rest) = some (end, rest)
  read_fields (suc fuel) ((suc zero) ∷ n ∷ rest) =
      then_read (read_json fuel (drop n rest))
        (λ p. then_read (read_fields fuel p.1) (λ q. some (field (take n rest) p.0 q.0, q.1)))
  read_fields (suc fuel) _ = none

mutual
  size_json : Json → ℕ
  size_json (array xs) = suc (size_items xs)
  size_json (object fs) = suc (size_fields fs)
  size_json _ = 1

  size_items : Items → ℕ
  size_items nil = 1
  size_items (item x xs) = suc (size_json x + size_items xs)

  size_fields : Fields → ℕ
  size_fields end = 1
  size_fields (field k x fs) = suc (size_json x + size_fields fs)

take_of : (s rest : Text) → take (length s) (s ++ rest) ≡ s
take_of [] rest = refl
take_of (c ∷ s) rest = ap (λ t. c ∷ t) (take_of s rest)

drop_of : (s rest : Text) → drop (length s) (s ++ rest) ≡ rest
drop_of [] rest = refl
drop_of (c ∷ s) rest = drop_of s rest

positive_json : (x : Json) → 0 < size_json x
unfolding size_json
positive_json null = omega arith
positive_json (boolean b) = omega arith
positive_json (number (pos n)) = omega arith
positive_json (number (negsuc n)) = omega arith
positive_json (string s) = omega arith
positive_json (array xs) = omega arith
positive_json (object fs) = omega arith

positive_items : (xs : Items) → 0 < size_items xs
unfolding size_items
positive_items nil = omega arith
positive_items (item x xs) = omega arith

positive_fields : (fs : Fields) → 0 < size_fields fs
unfolding size_fields
positive_fields end = omega arith
positive_fields (field k x fs) = omega arith

mutual
  unfolding read_json write_json size_json

  read_json-write_json :
      (x : Json) (rest : Text) (fuel : ℕ)
      → size_json x ≤ fuel
      → read_json fuel (write_json x rest) ≡ some (x, rest)
  read_json-write_json x rest zero h = absurd (omega (arith, h, positive_json x))
  read_json-write_json null rest (suc fuel) h = refl
  read_json-write_json (boolean true) rest (suc fuel) h = refl
  read_json-write_json (boolean false) rest (suc fuel) h = refl
  read_json-write_json (number (pos n)) rest (suc fuel) h = refl
  read_json-write_json (number (negsuc n)) rest (suc fuel) h = refl
  read_json-write_json (string s) rest (suc fuel) h =
      ap₂ (λ a b. some (string a, b)) (take_of s rest) (drop_of s rest)
  read_json-write_json (array xs) rest (suc fuel) h =
      rw (read_items-write_items xs rest fuel (omega arith)) refl
  read_json-write_json (object fs) rest (suc fuel) h =
      rw (read_fields-write_fields fs rest fuel (omega arith)) refl

  read_items-write_items :
      (xs : Items) (rest : Text) (fuel : ℕ)
      → size_items xs ≤ fuel
      → read_items fuel (write_items xs rest) ≡ some (xs, rest)
  read_items-write_items xs rest zero h = absurd (omega (arith, h, positive_items xs))
  read_items-write_items nil rest (suc fuel) h = refl
  read_items-write_items (item x xs) rest (suc fuel) h =
      ap
        (λ (o : Option (Json × Text)).
          then_read o (λ p. then_read (read_items fuel p.1) (λ q. some (item p.0 q.0, q.1))))
        (read_json-write_json x (write_items xs rest) fuel (omega arith))
      ∙ ap (λ (o : Option (Items × Text)). then_read o (λ q. some (item x q.0, q.1)))
          (read_items-write_items xs rest fuel (omega arith))

  read_fields-write_fields :
      (fs : Fields) (rest : Text) (fuel : ℕ)
      → size_fields fs ≤ fuel
      → read_fields fuel (write_fields fs rest) ≡ some (fs, rest)
  read_fields-write_fields fs rest zero h = absurd (omega (arith, h, positive_fields fs))
  read_fields-write_fields end rest (suc fuel) h = refl
  read_fields-write_fields (field k x fs) rest (suc fuel) h =
      ap₂
        (λ key (t : Text).
          then_read (read_json fuel t)
            (λ p. then_read (read_fields fuel p.1) (λ q. some (field key p.0 q.0, q.1))))
        (take_of k (write_json x (write_fields fs rest)))
        (drop_of k (write_json x (write_fields fs rest)))
      ∙ ap
          (λ (o : Option (Json × Text)).
            then_read o (λ p. then_read (read_fields fuel p.1) (λ q. some (field k p.0 q.0, q.1))))
          (read_json-write_json x (write_fields fs rest) fuel (omega arith))
      ∙ ap (λ (o : Option (Fields × Text)). then_read o (λ q. some (field k x q.0, q.1)))
          (read_fields-write_fields fs rest fuel (omega arith))

mutual
  unfolding write_json size_json

  length-write_json :
      (x : Json) (rest : Text) → size_json x + length rest ≤ length (write_json x rest)
  length-write_json null rest = omega arith
  length-write_json (boolean b) rest = omega arith
  length-write_json (number (pos n)) rest = omega arith
  length-write_json (number (negsuc n)) rest = omega arith
  length-write_json (string s) rest = omega (arith, length-append s rest)
  length-write_json (array xs) rest = omega (arith, length-write_items xs rest)
  length-write_json (object fs) rest = omega (arith, length-write_fields fs rest)

  length-write_items :
      (xs : Items) (rest : Text) → size_items xs + length rest ≤ length (write_items xs rest)
  length-write_items nil rest = omega arith
  length-write_items (item x xs) rest =
      omega (arith, length-write_json x (write_items xs rest), length-write_items xs rest)

  length-write_fields :
      (fs : Fields) (rest : Text) → size_fields fs + length rest ≤ length (write_fields fs rest)
  length-write_fields end rest = omega arith
  length-write_fields (field k x fs) rest = omega (
    arith,
    length-append k (write_json x (write_fields fs rest)),
    length-write_json x (write_fields fs rest),
    length-write_fields fs rest,
  )

pub parse : Text → Option Json
parse t = then_read (read_json (length t) t) (λ p. some p.0)

pub print : Json → Text
print x = write_json x []

pub parse-print : (x : Json) → parse (print x) ≡ some x
unfolding parse print
parse-print x =
    ap (λ (o : Option (Json × Text)). then_read o (λ p. some p.0))
      (read_json-write_json x [] (length (write_json x [])) (omega (arith, length-write_json x [])))

pub print-nonempty : (x : Json) → print x ≢ []
unfolding print
print-nonempty x e =
    let n : length (write_json x []) ≡ 0 = ap length e in
    absurd (omega (arith, n, length-write_json x [], positive_json x))

abbrev pub codec : JsonText
codec = record {
  parse = parse;
  stringify = print;
  parse_stringify = parse-print;
  stringify_nonempty = print-nonempty;
}
